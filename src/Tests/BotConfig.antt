-- ===== src/Tests/BotConfig.antt =====
-- Runs of botconfig.py, and its theorems at concrete inputs.
use nostale_packet_logger.Base.{◌≡◌, refl, true, false, Option, none, [], ◌∷◌, arith}
use nostale_packet_logger.Base.Int.{pos, negsuc}
use nostale_packet_logger.Base.Keys.{Text}
use nostale_packet_logger.Python.{codes, strip}
use nostale_packet_logger.Python.Errors.{ok, raise, overflow_error}
use nostale_packet_logger.Python.Floats.{Float, nan, infinite, whole}
use nostale_packet_logger.Python.Json.{
  Json, integer, real, text, array, object, Fields, end, field, done, item, get_or,
}
use nostale_packet_logger.BotConfig.{SpellRule, BotConfig, default_template, as_bool, is_in}
use nostale_packet_logger.BotConfig.Read.{
  read_vnums, read_rules, listed_items, sorted_set, from_dict, load_config, json_value,
}
use nostale_packet_logger.BotConfig.Write.{to_dict}
use nostale_packet_logger.BotConfig.Limits.{Reads, IsRule, IsConfig}
use nostale_packet_logger.BotConfig.Bounds.{from_dict-IsConfig}
use nostale_packet_logger.BotConfig.RoundTrip.{from_dict-to_dict}
use nostale_packet_logger.BotConfig.Escape.{load_config-infinite}

-- No text is a number.
abbrev no_float : Text → Option Float
no_float s = none

abbrev heal : SpellRule
heal = record {
  enabled = true;
  spell = pos 10;
  subject = codes "my_hp";
  comparator = codes "below";
  threshold = whole 50;
  cooldown = whole 5;
  target = codes "self";
}

abbrev hunter : BotConfig
hunter = record {
  auto_attack = true;
  retaliate = true;
  skill = pos 0;
  skill_template = default_template;
  attack_range = pos 10;
  attack_cooldown = whole 0;
  pickup = true;
  loot_range = pos 3;
  recover = true;
  low_hp_pct = whole 30;
  loop = true;
  monster_mode = codes "only";
  monster_vnums = pos 200 ∷ pos 206 ∷ [];
  attack_unknown = false;
  spell_rules = heal ∷ [];
}

sorted_vnums : sorted_set (pos 206 ∷ pos 200 ∷ pos 206 ∷ []) ≡ pos 200 ∷ pos 206 ∷ []
unfolding sorted_set
sorted_vnums = refl

-- The words that switch a flag on may have white space and capitals.
as_bool-text : as_bool (text (codes " Yes\n")) false ≡ true
unfolding as_bool strip
as_bool-text = refl

heal-IsRule : IsRule heal
unfolding is_in
heal-IsRule = record {
  spell = omega arith;
  subject = refl;
  comparator = refl;
  threshold = omega arith;
  cooldown = omega arith;
  target = refl;
}

hunter-IsConfig : IsConfig hunter
unfolding is_in
hunter-IsConfig = record {
  skill = omega arith;
  skill_template = (λ e. cc, omega arith);
  attack_range = omega arith;
  attack_cooldown = omega arith;
  loot_range = omega arith;
  low_hp_pct = omega arith;
  monster_mode = refl;
  monster_vnums = omega arith;
  few_vnums = omega arith;
  spell_rules = (heal-IsRule, tt);
  few_rules = omega arith;
}

trimmed : strip default_template ≡ default_template
unfolding strip
trimmed = refl

from_dict-to_dict_example : from_dict no_float (to_dict hunter) ≡ ok hunter
from_dict-to_dict_example = from_dict-to_dict no_float hunter hunter-IsConfig trimmed

-- A file in which every number is out of range.
abbrev wild : Json
wild = object (
    field (codes "attack_range") (integer (pos 999)) (
      field (codes "low_hp_pct") (real nan)
        (field (codes "monster_vnums") (array (item (integer (negsuc 4)) done)) end)))

from_dict-IsConfig_example : Reads IsConfig (from_dict no_float wild)
from_dict-IsConfig_example = from_dict-IsConfig no_float wild

abbrev endless : Fields
endless = field (codes "skill") (real (infinite false)) end

load_config-infinite_example :
    load_config no_float (json_value (object endless)) ≡ raise overflow_error
unfolding read_vnums listed_items get_or read_rules
load_config-infinite_example =
    load_config-infinite no_float endless false {vnums = []} {rules = []} refl refl refl
