-- ===== src/BotConfig/RoundTrip.antt =====
-- linux/host/ntpl/botconfig.py: a configuration that is saved and loaded again.
use nostale_packet_logger.Base.{
  ℕ, zero, suc, ◌*◌, ◌≤◌, ◌≡◌, ◌≢◌, refl, ap, ◌∙◌, true, Option, List, [], ◌∷◌, map, arith, All,
  length, take,
}
use nostale_packet_logger.Base.Int.{ℤ, pos}
use nostale_packet_logger.Base.Keys.{Text, text_eq}
use nostale_packet_logger.Python.{codes, strip}
use nostale_packet_logger.Python.Errors.{ok}
use nostale_packet_logger.Python.Floats.{Float, clamp_float-id, whole, scale}
use nostale_packet_logger.Python.Json.{
  Json, integer, real, text, list_of, items_of, list_of-items_of, get_or,
}
use nostale_packet_logger.BotConfig.{
  SpellRule, BotConfig, monster_modes, subjects, comparators, spell_targets, max_monster_vnums,
  max_spell_rules, billion, default_template, choice, as_int, as_text, cut_text, as_float, is_in,
}
use nostale_packet_logger.BotConfig.Read.{
  read_vnums, sorted_set, listed_items, read_rule, read_rules, from_dict,
}
use nostale_packet_logger.BotConfig.Write.{rule_to_dict, to_dict}
use nostale_packet_logger.BotConfig.Limits.{
  InRange, FloatRange, IsVnum, Ascending, IsRule, IsConfig,
}
use nostale_packet_logger.BotConfig.Vnums.{sorted_set-id}

as_int-id :
    (n default low high : ℤ) → InRange low high n → as_int (integer n) default low high ≡ ok n
unfolding as_int
as_int-id n default low high h = ground arith

as_float-id :
    (float_of : Text → Option Float) (x default : Float) (low high : ℕ)
    → FloatRange low high x
    → as_float float_of (real x) default (whole low) (whole high) ≡ ok x
unfolding as_float
as_float-id float_of x default low high h =
    ap ok (clamp_float-id (pos (low * scale)) (pos (high * scale)) x h)

choice-id :
    (names : List Text) (default s : Text)
    → is_in s names ≡ true
    → choice names default (text s) ≡ s
unfolding choice
choice-id names default s h = rw h

take_all : {A : Type 0} (n : ℕ) (xs : List A) → length xs ≤ n → take n xs ≡ xs
take_all zero [] h = refl
take_all zero (x ∷ xs) h = absurd (omega arith)
take_all (suc n) [] h = refl
take_all (suc n) (x ∷ xs) h = ap (λ r. x ∷ r) (take_all n xs (omega arith))

all_items : (most : ℕ) (vs : List Json) → length vs ≤ most → take most (list_of (items_of vs)) ≡ vs
all_items most vs h = ap (take most) (list_of-items_of vs) ∙ take_all most vs h

length-map : {A B : Type 0} (f : A → B) (xs : List A) → length (map f xs) ≡ length xs
length-map f [] = refl
length-map f (x ∷ xs) = ap suc (length-map f xs)

as_text-id :
    (s default : Text) → strip s ≡ s → s ≢ [] → length s ≤ 200 → as_text (text s) default ≡ s
unfolding as_text
as_text-id [] default h ne few = absurd (ne refl)
as_text-id (c ∷ s) default h ne few = ap (cut_text default) h ∙ take_all 200 (c ∷ s) few

read_vnums-id : (ns : List ℤ) → All IsVnum ns → read_vnums (map integer ns) ≡ ok ns
unfolding read_vnums
read_vnums-id [] h = refl
read_vnums-id (n ∷ ns) h = ground (arith, read_vnums-id ns h.1)

vnums-read :
    (most : ℕ) (ns : List ℤ)
    → All IsVnum ns
    → Ascending ns
    → length ns ≤ most
    → read_vnums (take most (list_of (items_of (map integer (sorted_set ns))))) ≡ ok ns
vnums-read most ns all sorted few = rw (sorted_set-id ns sorted) (
    ap read_vnums (all_items most (map integer ns) (omega (arith, length-map integer ns)))
    ∙ read_vnums-id ns all)

module _ (float_of : Text → Option Float) where
  rule-id : (r : SpellRule) → IsRule r → read_rule float_of (rule_to_dict r) ≡ ok r
  unfolding read_rule rule_to_dict get_or
  rule-id r h = rw (
    as_int-id r.spell (pos 0) (pos 0) billion h.spell,
    as_float-id float_of r.threshold (whole 50) 0 100 h.threshold,
    as_float-id float_of r.cooldown (whole 5) 0 3600 h.cooldown,
    choice-id subjects (codes "always") r.subject h.subject,
    choice-id comparators (codes "below") r.comparator h.comparator,
    choice-id spell_targets (codes "monster") r.target h.target,
  )

  rules-id :
      (rs : List SpellRule) → All IsRule rs → read_rules float_of (map rule_to_dict rs) ≡ ok rs
  unfolding read_rules
  rules-id [] h = refl
  rules-id (r ∷ rs) h = rw (rule-id r h.0, rules-id rs h.1)

  rules-read :
      (most : ℕ) (rs : List SpellRule)
      → All IsRule rs
      → length rs ≤ most
      → read_rules float_of (take most (list_of (items_of (map rule_to_dict rs)))) ≡ ok rs
  rules-read most rs all few =
      ap (read_rules float_of)
        (all_items most (map rule_to_dict rs) (omega (arith, length-map rule_to_dict rs)))
      ∙ rules-id rs all

  -- A configuration within the limits, whose template has no white space at its ends, is read from
  -- what `to_dict` makes of it.
  pub from_dict-to_dict :
      (c : BotConfig)
      → IsConfig c
      → strip c.skill_template ≡ c.skill_template
      → from_dict float_of (to_dict c) ≡ ok c
  unfolding from_dict to_dict get_or listed_items
  from_dict-to_dict c h trimmed = rw (
    vnums-read max_monster_vnums c.monster_vnums h.monster_vnums.0 h.monster_vnums.1 h.few_vnums,
    rules-read max_spell_rules c.spell_rules h.spell_rules h.few_rules,
    as_int-id c.skill (pos 0) (pos 0) billion h.skill,
    as_int-id c.attack_range (pos 10) (pos 1) (pos 40) h.attack_range,
    as_float-id float_of c.attack_cooldown (whole 0) 0 30 h.attack_cooldown,
    as_int-id c.loot_range (pos 3) (pos 1) (pos 10) h.loot_range,
    as_float-id float_of c.low_hp_pct (whole 30) 5 90 h.low_hp_pct,
    choice-id monster_modes (codes "all") c.monster_mode h.monster_mode,
    as_text-id c.skill_template default_template trimmed h.skill_template.0 h.skill_template.1,
    sorted_set-id c.monster_vnums h.monster_vnums.1,
  )
