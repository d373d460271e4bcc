-- ===== src/BotConfig.antt =====
-- linux/host/ntpl/botconfig.py: the bot's configuration, and how single values are read.
-- `float_of` is float(text).
pub mod Read
pub mod Write
pub mod Limits
mod Vnums
pub mod Bounds
pub mod RoundTrip
pub mod Escape
use nostale_packet_logger.Base.{
  ℕ, Bool, true, false, ◌||◌, Option, none, some, List, [], ◌∷◌, ltb, leb, ◌+◌, ◌&&◌, if◌then◌else◌,
  any, take, map,
}
use nostale_packet_logger.Base.Int.{ℤ, pos, ltb_ℤ}
use nostale_packet_logger.Base.Keys.{Text, ◌==◌, text_eq, int_eq}
use nostale_packet_logger.Python.{codes, strip, int?}
use nostale_packet_logger.Python.Errors.{
  Exception, Result, ok, raise, value_error, type_error, is_value_error,
}
use nostale_packet_logger.Python.Floats.{Float, whole, is_nonzero, truncate, of_int, clamp_float}
use nostale_packet_logger.Python.Json.{Json, null, boolean, integer, real, text, array, object}

abbrev pub monster_modes : List Text
monster_modes = codes "all" ∷ codes "only" ∷ codes "except" ∷ []

abbrev pub subjects : List Text
subjects = codes "always" ∷ codes "my_hp" ∷ codes "my_mp" ∷ []

abbrev pub comparators : List Text
comparators = codes "below" ∷ codes "above" ∷ []

abbrev pub spell_targets : List Text
spell_targets = codes "monster" ∷ codes "self" ∷ []

abbrev pub max_monster_vnums : ℕ
max_monster_vnums = 5000

abbrev pub max_spell_rules : ℕ
max_spell_rules = 100

abbrev pub billion : ℤ
billion = pos 1000000000

pub record SpellRule : Type 0 where
  pub enabled : Bool
  pub spell : ℤ
  pub subject : Text
  pub comparator : Text
  pub threshold : Float
  pub cooldown : Float
  pub target : Text

pub record BotConfig : Type 0 where
  pub auto_attack : Bool
  pub retaliate : Bool
  pub skill : ℤ
  pub skill_template : Text
  pub attack_range : ℤ
  pub attack_cooldown : Float
  pub pickup : Bool
  pub loot_range : ℤ
  pub recover : Bool
  pub low_hp_pct : Float
  pub loop : Bool
  pub monster_mode : Text
  pub monster_vnums : List ℤ
  pub attack_unknown : Bool
  pub spell_rules : List SpellRule

abbrev pub default_template : Text
default_template = codes "u_s {skill} {type} {target}"

-- value in names, for a list of texts
unfoldable pub is_in : Text → List Text → Bool
is_in s names = any (λ name. name == s) names

-- `value if value in names else default`
unfoldable pub choice : List Text → Text → Json → Text
unfolding is_in
choice names default (text s) = if is_in s names then s else default
choice names default _ = default

-- str.lower, exact for the comparison with words of ASCII letters.
unfoldable pub lower_ascii : ℕ → ℕ
lower_ascii c = if leb 0x41 c && leb c 0x5a then c + 32 else c

-- _as_bool
unfoldable pub as_bool : Json → Bool → Bool
unfolding is_nonzero lower_ascii is_in
as_bool (boolean b) default = b
as_bool (integer n) default = if n == pos 0 then false else true
as_bool (real x) default = is_nonzero x
as_bool (text s) default =
    is_in (map lower_ascii (strip s)) (codes "1" ∷ codes "true" ∷ codes "yes" ∷ codes "on" ∷ [])
as_bool _ default = default

abbrev int_text : Option ℤ → Result ℤ
int_text none = raise value_error
int_text (some n) = ok n

-- int(value)
unfoldable pub int_value : Json → Result ℤ
unfolding truncate
int_value (boolean b) = ok (if b then pos 1 else pos 0)
int_value (integer n) = ok n
int_value (real x) = truncate x
int_value (text s) = int_text (int? s)
int_value _ = raise type_error

-- `except (TypeError, ValueError)`
unfoldable pub is_read_error : Exception → Bool
unfolding is_value_error
is_read_error type_error = true
is_read_error e = is_value_error e

-- max(low, min(high, n))
unfoldable pub clamp_int : ℤ → ℤ → ℤ → ℤ
clamp_int low high n =
    let capped = if ltb_ℤ n high then n else high in if ltb_ℤ low capped then capped else low

unfoldable pub int_within : ℤ → ℤ → ℤ → Result ℤ → Result ℤ
unfolding clamp_int is_read_error
int_within default low high (ok n) = ok (clamp_int low high n)
int_within default low high (raise e) = if is_read_error e then ok default else raise e

-- _as_int
unfoldable pub as_int : Json → ℤ → ℤ → ℤ → Result ℤ
unfolding int_within int_value
as_int v default low high = int_within default low high (int_value v)

unfoldable pub float_within : Float → Float → Float → Result Float → Result Float
unfolding is_read_error
float_within default low high (ok x) = ok (clamp_float low high x)
float_within default low high (raise e) = if is_read_error e then ok default else raise e

abbrev pub cut_text : Text → Text → Text
cut_text default [] = default
cut_text default (c ∷ s) = take 200 (c ∷ s)

-- _as_text
unfoldable pub as_text : Json → Text → Text
as_text (text s) default = cut_text default (strip s)
as_text _ default = default

module _ (float_of : Text → Option Float) where
  abbrev float_text : Option Float → Result Float
  float_text none = raise value_error
  float_text (some x) = ok x

  -- float(value)
  unfoldable pub float_value : Json → Result Float
  unfolding of_int
  float_value (boolean b) = ok (if b then whole 1 else whole 0)
  float_value (integer n) = of_int n
  float_value (real x) = ok x
  float_value (text s) = float_text (float_of s)
  float_value _ = raise type_error

  -- _as_float
  unfoldable pub as_float : Json → Float → Float → Float → Result Float
  unfolding float_within float_value
  as_float v default low high = float_within default low high (float_value v)
