-- ===== src/BotConfig/Escape.antt =====
-- linux/host/ntpl/botconfig.py: an infinite number is not clamped.
use nostale_packet_logger.Base.{◌≡◌, Bool, Option, some, List, arith, take}
use nostale_packet_logger.Base.Int.{ℤ}
use nostale_packet_logger.Base.Keys.{Text}
use nostale_packet_logger.Python.{codes}
use nostale_packet_logger.Python.Errors.{ok, raise, overflow_error}
use nostale_packet_logger.Python.Floats.{Float, infinite}
use nostale_packet_logger.Python.Json.{real, array, object, Fields, get_field, get_or, done}
use nostale_packet_logger.BotConfig.{SpellRule, as_int, max_monster_vnums, max_spell_rules}
use nostale_packet_logger.BotConfig.Read.{
  value_of, read_vnums, read_rules, listed_items, load_config, json_value,
}

value-infinite :
    (key : Text) (fs : Fields) (negative : Bool)
    → get_field key fs ≡ some (real (infinite negative))
    → value_of key fs ≡ real (infinite negative)
unfolding value_of get_or
value-infinite key fs negative h = ground arith

as_int-infinite :
    (negative : Bool) (default low high : ℤ)
    → as_int (real (infinite negative)) default low high ≡ raise overflow_error
unfolding as_int
as_int-infinite negative default low high = ground arith

-- Where the lists of vnums and of rules are read without an error, an infinite `skill` ends the
-- reading of the file by an OverflowError, which is no ConfigError.
pub load_config-infinite :
    (float_of : Text → Option Float) (fs : Fields) (negative : Bool) {vnums : List ℤ}
    {rules : List SpellRule}
    → read_vnums
        (take max_monster_vnums (listed_items (get_or (codes "monster_vnums") (array done) fs)))
      ≡ ok vnums
    → read_rules float_of
        (take max_spell_rules (listed_items (get_or (codes "spell_rules") (array done) fs)))
      ≡ ok rules
    → get_field (codes "skill") fs ≡ some (real (infinite negative))
    → load_config float_of (json_value (object fs)) ≡ raise overflow_error
unfolding load_config
load_config-infinite float_of fs negative hv hr h =
    rw (hv, hr, value-infinite (codes "skill") fs negative h, as_int-infinite)
