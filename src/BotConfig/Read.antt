-- ===== src/BotConfig/Read.antt =====
-- linux/host/ntpl/botconfig.py: `from_dict` of the rules and of the whole configuration.
use nostale_packet_logger.Base.{
  true, false, ◌&&◌, Option, none, some, List, [], ◌∷◌, if◌then◌else◌, take,
}
use nostale_packet_logger.Base.Int.{ℤ, pos, ltb_ℤ, leb_ℤ}
use nostale_packet_logger.Base.Keys.{Text, ◌==◌, int_eq}
use nostale_packet_logger.Python.{codes}
use nostale_packet_logger.Python.Errors.{Result, ok, raise, config_error, value_error, ◌>>=◌}
use nostale_packet_logger.Python.Floats.{Float, whole}
use nostale_packet_logger.Python.Json.{
  Json, null, text, array, object, Fields, list_of, get_or, done,
}
use nostale_packet_logger.BotConfig.{
  SpellRule, BotConfig, monster_modes, subjects, comparators, spell_targets, max_monster_vnums,
  max_spell_rules, billion, default_template, choice, as_bool, int_value, is_read_error, as_int,
  as_text, as_float,
}

-- data.get(key), where a missing key is None.
unfoldable pub value_of : Text → Fields → Json
value_of key fs = get_or key null fs

-- A vnum of the list; `none` where the loop goes on without it.
unfoldable pub read_vnum : Result ℤ → Result (Option ℤ)
unfolding is_read_error
read_vnum (ok n) = ok (if ltb_ℤ (pos 0) n && leb_ℤ n billion then some n else none)
read_vnum (raise e) = if is_read_error e then ok none else raise e

abbrev pub keep_vnum : Option ℤ → List ℤ → List ℤ
keep_vnum none ns = ns
keep_vnum (some n) ns = n ∷ ns

unfoldable pub read_vnums : List Json → Result (List ℤ)
unfolding read_vnum int_value
read_vnums [] = ok []
read_vnums (v ∷ vs) = do n ← read_vnum (int_value v); ns ← read_vnums vs; ok (keep_vnum n ns)

-- sorted(set(ns)), by insertion.
unfoldable pub insert_vnum : ℤ → List ℤ → List ℤ
insert_vnum n [] = n ∷ []
insert_vnum n (m ∷ ms) =
    let rest = insert_vnum n ms in
    if n == m then m ∷ ms else if ltb_ℤ n m then n ∷ m ∷ ms else m ∷ rest

unfoldable pub sorted_set : List ℤ → List ℤ
unfolding insert_vnum
sorted_set [] = []
sorted_set (n ∷ ns) = insert_vnum n (sorted_set ns)

-- The elements of a value that is a list, and of no other value.
unfoldable pub listed_items : Json → List Json
unfolding list_of
listed_items (array vs) = list_of vs
listed_items _ = []

module _ (float_of : Text → Option Float) where
  unfoldable pub read_rule_fields : Fields → Result SpellRule
  unfolding value_of choice as_bool
  read_rule_fields fs = do
    spell ← as_int (value_of (codes "spell") fs) (pos 0) (pos 0) billion
    threshold ← as_float float_of (value_of (codes "threshold") fs) (whole 50) (whole 0) (whole 100)
    cooldown ← as_float float_of (value_of (codes "cooldown") fs) (whole 5) (whole 0) (whole 3600)
    ok (record {
      enabled = as_bool (value_of (codes "enabled") fs) true;
      spell = spell;
      subject =
          choice subjects (codes "always") (get_or (codes "subject") (text (codes "always")) fs);
      comparator =
          choice comparators (codes "below")
            (get_or (codes "comparator") (text (codes "below")) fs);
      threshold = threshold;
      cooldown = cooldown;
      target =
          choice spell_targets (codes "monster")
            (get_or (codes "target") (text (codes "monster")) fs);
    })

  -- SpellRule.from_dict
  unfoldable pub read_rule : Json → Result SpellRule
  unfolding read_rule_fields
  read_rule (object fs) = read_rule_fields fs
  read_rule _ = raise config_error

  unfoldable pub read_rules : List Json → Result (List SpellRule)
  unfolding read_rule
  read_rules [] = ok []
  read_rules (v ∷ vs) = do rule ← read_rule v; rules ← read_rules vs; ok (rule ∷ rules)

  unfoldable pub read_fields : Fields → Result BotConfig
  unfolding value_of choice as_bool as_text listed_items read_vnums read_rules sorted_set
  read_fields fs = do
    vnums ←
        read_vnums
          (take max_monster_vnums (listed_items (get_or (codes "monster_vnums") (array done) fs)))
    rules ←
        read_rules
          (take max_spell_rules (listed_items (get_or (codes "spell_rules") (array done) fs)))
    skill ← as_int (value_of (codes "skill") fs) (pos 0) (pos 0) billion
    attack_range ← as_int (value_of (codes "attack_range") fs) (pos 10) (pos 1) (pos 40)
    attack_cooldown ←
        as_float float_of (value_of (codes "attack_cooldown") fs) (whole 0) (whole 0) (whole 30)
    loot_range ← as_int (value_of (codes "loot_range") fs) (pos 3) (pos 1) (pos 10)
    low_hp_pct ←
        as_float float_of (value_of (codes "low_hp_pct") fs) (whole 30) (whole 5) (whole 90)
    ok (record {
      auto_attack = as_bool (value_of (codes "auto_attack") fs) false;
      retaliate = as_bool (value_of (codes "retaliate") fs) true;
      skill = skill;
      skill_template = as_text (value_of (codes "skill_template") fs) default_template;
      attack_range = attack_range;
      attack_cooldown = attack_cooldown;
      pickup = as_bool (value_of (codes "pickup") fs) true;
      loot_range = loot_range;
      recover = as_bool (value_of (codes "recover") fs) true;
      low_hp_pct = low_hp_pct;
      loop = as_bool (value_of (codes "loop") fs) true;
      monster_mode =
          choice monster_modes (codes "all")
            (get_or (codes "monster_mode") (text (codes "all")) fs);
      monster_vnums = sorted_set vnums;
      attack_unknown = as_bool (value_of (codes "attack_unknown") fs) false;
      spell_rules = rules;
    })

  -- BotConfig.from_dict
  unfoldable pub from_dict : Json → Result BotConfig
  unfolding read_fields
  from_dict (object fs) = read_fields fs
  from_dict _ = raise config_error

-- What a file gives to `load_config`: an OSError, bytes that are not UTF-8, text that is not JSON, or
-- a value.
pub data ConfigFile : Type 0 where
  unreadable undecodable malformed : ConfigFile
  json_value : Json → ConfigFile

-- load_config; the UnicodeDecodeError of `read_text` is a ValueError that is not caught.
unfoldable pub load_config : (Text → Option Float) → ConfigFile → Result BotConfig
unfolding from_dict
load_config float_of unreadable = raise config_error
load_config float_of undecodable = raise value_error
load_config float_of malformed = raise config_error
load_config float_of (json_value v) = from_dict float_of v
