-- ===== src/Python/Floats.antt =====
-- Python's floats, as far as the host compares and clamps them: every finite double is a whole
-- number of units of 2 ^ -1074. The sign of zero is left out.
use nostale_packet_logger.Base.{
  ℕ, suc, ◌-◌, ◌*◌, ◌/◌, ◌^◌, ◌≡◌, Bool, true, false, not, arith, leb, if◌then◌else◌,
}
use nostale_packet_logger.Base.Int.{ℤ, pos, negsuc, ltb_ℤ, ◌≤ℤ◌, int_beq}
use nostale_packet_logger.Python.Errors.{Result, ok, raise, value_error, overflow_error}

-- `infinite true` is -inf.
pub data Float : Type 0 where
  nan : Float
  infinite : Bool → Float
  finite : ℤ → Float

-- The units of 1.0.
unfoldable pub scale : ℕ
scale = 2 ^ 1074

-- A literal such as 100.0.
abbrev pub whole : ℕ → Float
whole n = finite (pos (n * scale))

-- a < b
unfoldable pub float_lt : Float → Float → Bool
float_lt nan b = false
float_lt (infinite true) (infinite false) = true
float_lt (infinite true) (finite b) = true
float_lt (infinite a) b = false
float_lt (finite a) nan = false
float_lt (finite a) (infinite negative) = not negative
float_lt (finite a) (finite b) = ltb_ℤ a b

-- bool(a)
unfoldable pub is_nonzero : Float → Bool
is_nonzero (finite a) = not (int_beq a (pos 0))
is_nonzero _ = true

-- int(a)
unfoldable pub truncate : Float → Result ℤ
truncate nan = raise value_error
truncate (infinite negative) = raise overflow_error
truncate (finite (pos a)) = ok (pos (a / scale))
truncate (finite (negsuc a)) =
    ok (if leb (suc a) (scale - 1) then pos 0 else negsuc (suc a / scale - 1))

-- The least integer that float(n) refuses.
unfoldable pub float_limit : ℕ
float_limit = 2 ^ 1024 - 2 ^ 970

-- float(n). The rounding of an integer of more than 53 bits is left out.
unfoldable pub of_int : ℤ → Result Float
of_int (pos n) = if leb float_limit n then raise overflow_error else ok (finite (pos (n * scale)))
of_int (negsuc n) =
    if leb float_limit (suc n)
    then raise overflow_error
    else ok (finite (negsuc (suc n * scale - 1)))

-- A finite float between two bounds.
abbrev pub Within : ℤ → ℤ → Float → Type 0
Within low high (finite a) = (low ≤ℤ a) × (a ≤ℤ high)
Within low high _ = ⊥

-- max(low, min(high, a))
unfoldable pub clamp_float : Float → Float → Float → Float
unfolding float_lt
clamp_float low high a =
    let capped = if float_lt a high then a else high in if float_lt low capped then capped else low

-- A number that is no number is clamped to the upper bound.
pub clamp_float-Within :
    (low high : ℤ) (a : Float)
    → low ≤ℤ high
    → Within low high (clamp_float (finite low) (finite high) a)
unfolding clamp_float
clamp_float-Within low high nan h = ground arith
clamp_float-Within low high (infinite true) h = ground arith
clamp_float-Within low high (infinite false) h = ground arith
clamp_float-Within low high (finite a) h = ground arith

pub clamp_float-id :
    (low high : ℤ) (a : Float) → Within low high a → clamp_float (finite low) (finite high) a ≡ a
unfolding clamp_float
clamp_float-id low high nan h = absurd h
clamp_float-id low high (infinite negative) h = absurd h
clamp_float-id low high (finite a) h = ground arith
