-- ===== src/BotConfig/Bounds.antt =====
-- linux/host/ntpl/botconfig.py: `from_dict` stays within the limits, or raises.
use nostale_packet_logger.Base.{
  ℕ, ◌≤◌, refl, inl, inr, ◌&&◌, Option, none, some, List, [], ◌∷◌, arith, All, length, take,
  length-take, Bool-cases,
}
use nostale_packet_logger.Base.Int.{ℤ, pos, ltb_ℤ, leb_ℤ}
use nostale_packet_logger.Base.Keys.{Text, int_eq, text_eq}
use nostale_packet_logger.Python.{codes}
use nostale_packet_logger.Python.Errors.{Result, ok, raise}
use nostale_packet_logger.Python.Floats.{Float}
use nostale_packet_logger.Python.Json.{Json, array, object, Fields, get_or, done}
use nostale_packet_logger.BotConfig.{
  SpellRule, monster_modes, max_monster_vnums, max_spell_rules, billion, default_template,
  int_value, is_read_error,
}
use nostale_packet_logger.BotConfig.Read.{
  value_of, read_vnum, read_vnums, listed_items, keep_vnum, read_rule, read_rules, read_fields,
  from_dict,
}
use nostale_packet_logger.BotConfig.Limits.{
  Reads, Reads-bind, Numeric, int_value-Numeric, InRange, FloatRange, IsVnum, IsRule, IsConfig,
  as_int-InRange, as_float-FloatRange, as_text-bounds, choice-is_in, read_rule_fields-IsRule,
}
use nostale_packet_logger.BotConfig.Vnums.{length-sorted_set, sorted_set-Ascending, All-sorted_set}

abbrev Vnums : ℕ → List ℤ → Type 0
Vnums most ns = All IsVnum ns × (length ns ≤ most)

abbrev Rules : ℕ → List SpellRule → Type 0
Rules most rules = All IsRule rules × (length rules ≤ most)

abbrev KeptVnum : Option ℤ → Type 0
KeptVnum none = Unit
KeptVnum (some n) = IsVnum n

read_vnum-Reads : (r : Result ℤ) → Numeric r → Reads KeptVnum (read_vnum r)
unfolding read_vnum
read_vnum-Reads (ok n) h = elim (Bool-cases (ltb_ℤ (pos 0) n && leb_ℤ n billion)) [
  | inl good ↦ rw good (ground arith)
  | inr bad ↦ rw bad tt
]
read_vnum-Reads (raise e) h = elim (Bool-cases (is_read_error e)) [
  | inl caught ↦ rw caught tt
  | inr other ↦ rw other (elim h [ inl known ↦ cc | inr large ↦ inr large ])
]

read_vnums-Reads : (vs : List Json) → Reads (Vnums (length vs)) (read_vnums vs)
unfolding read_vnums
read_vnums-Reads [] = omega arith
read_vnums-Reads (v ∷ vs) =
    Reads-bind KeptVnum (Vnums (length (v ∷ vs))) _ _
      (read_vnum-Reads (int_value v) (int_value-Numeric v))
      (λ n kept.
        Reads-bind (Vnums (length vs)) (Vnums (length (v ∷ vs))) _ _ (read_vnums-Reads vs)
          (λ ns rest. both n ns kept rest))
  where
    both :
        (n : Option ℤ) (ns : List ℤ)
        → KeptVnum n
        → Vnums (length vs) ns
        → Vnums (length (v ∷ vs)) (keep_vnum n ns)
    both none ns kept (all, few) = (all, omega arith)
    both (some m) ns kept (all, few) = ((kept, all), omega arith)

module _ (float_of : Text → Option Float) where
  read_rule-Reads : (v : Json) → Reads IsRule (read_rule float_of v)
  unfolding read_rule
  read_rule-Reads (object fs) = read_rule_fields-IsRule float_of fs
  read_rule-Reads v = inl refl

  read_rules-Reads : (vs : List Json) → Reads (Rules (length vs)) (read_rules float_of vs)
  unfolding read_rules
  read_rules-Reads [] = omega arith
  read_rules-Reads (v ∷ vs) =
      Reads-bind IsRule (Rules (length (v ∷ vs))) _ _ (read_rule-Reads v) (λ rule good.
        Reads-bind (Rules (length vs)) (Rules (length (v ∷ vs))) _ _ (read_rules-Reads vs)
          (λ rules rest. ((good, rest.0), omega (arith, rest.1))))

  fields-Reads : (fs : Fields) → Reads IsConfig (read_fields float_of fs)
  unfolding read_fields
  fields-Reads fs =
      let vnum_values = listed_items (get_or (codes "monster_vnums") (array done) fs) in
      let rule_values = listed_items (get_or (codes "spell_rules") (array done) fs) in
      Reads-bind (Vnums (length (take max_monster_vnums vnum_values))) IsConfig _ _
        (read_vnums-Reads (take max_monster_vnums vnum_values))
        (λ ns hn.
          Reads-bind (Rules (length (take max_spell_rules rule_values))) IsConfig _ _
            (read_rules-Reads (take max_spell_rules rule_values))
            (λ rules hr.
              Reads-bind (InRange (pos 0) billion) IsConfig _ _
                (as_int-InRange (value_of (codes "skill") fs) (pos 0) (pos 0) billion (omega arith)
                  (omega arith))
                (λ skill hs.
                  Reads-bind (InRange (pos 1) (pos 40)) IsConfig _ _
                    (as_int-InRange (value_of (codes "attack_range") fs) (pos 10) (pos 1) (pos 40)
                      (omega arith) (omega arith))
                    (λ attack_range ha.
                      Reads-bind (FloatRange 0 30) IsConfig _ _
                        (as_float-FloatRange float_of (value_of (codes "attack_cooldown") fs) 0 0 30
                          (omega arith) (omega arith))
                        (λ attack_cooldown hc.
                          Reads-bind (InRange (pos 1) (pos 10)) IsConfig _ _
                            (as_int-InRange (value_of (codes "loot_range") fs) (pos 3) (pos 1)
                              (pos 10) (omega arith) (omega arith))
                            (λ loot_range hl.
                              Reads-bind (FloatRange 5 90) IsConfig _ _
                                (as_float-FloatRange float_of (value_of (codes "low_hp_pct") fs) 30
                                  5 90 (omega arith) (omega arith))
                                (λ low_hp_pct hp. record {
                                  skill = hs;
                                  skill_template =
                                      as_text-bounds (value_of (codes "skill_template") fs)
                                        default_template ((λ e. cc), omega arith);
                                  attack_range = ha;
                                  attack_cooldown = hc;
                                  loot_range = hl;
                                  low_hp_pct = hp;
                                  monster_mode =
                                      choice-is_in monster_modes _
                                        (get_or (codes "monster_mode") _ fs) refl;
                                  monster_vnums =
                                      (All-sorted_set IsVnum ns hn.0, sorted_set-Ascending ns);
                                  few_vnums = omega (
                                    arith,
                                    hn.1,
                                    length-sorted_set ns,
                                    length-take max_monster_vnums vnum_values,
                                  );
                                  spell_rules = hr.0;
                                  few_rules =
                                      omega (arith, hr.1, length-take max_spell_rules rule_values);
                                })))))))

  -- Whatever value the JSON file holds, the configuration that is read from it is within its limits;
  -- or a ConfigError is raised, or the OverflowError of an infinite or huge number.
  pub from_dict-IsConfig : (v : Json) → Reads IsConfig (from_dict float_of v)
  unfolding from_dict
  from_dict-IsConfig (object fs) = fields-Reads fs
  from_dict-IsConfig v = inl refl
