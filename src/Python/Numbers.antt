-- ===== src/Python/Numbers.antt =====
-- `int(text)`: white space at both ends, one sign, decimal digits with single underscores between
-- them, and at most 4300 digits. Anything else is a ValueError, here `none`.
use nostale_packet_logger.Base.{
  ℕ, zero, suc, ◌+◌, ◌-◌, ◌*◌, ◌<◌, ◌≡◌, refl, Bool, true, false, ◌&&◌, ◌||◌, Option, none, some,
  List, [], ◌∷◌, arith, ltb, leb, if◌then◌else◌,
}
use nostale_packet_logger.Base.Int.{ℤ, pos, negsuc}
use nostale_packet_logger.Base.Keys.{Text, ◌==◌, nat_eq}
use nostale_packet_logger.Python.Texts.{codes, is_space, lstrip, rstrip}

-- The code points of the digits 0 of Unicode's blocks of decimal digits.
abbrev digit_zeros : List ℕ
digit_zeros =
    0x30 ∷ 0x660 ∷ 0x6f0 ∷ 0x7c0 ∷ 0x966 ∷ 0x9e6 ∷ 0xa66 ∷ 0xae6 ∷ 0xb66 ∷ 0xbe6 ∷ 0xc66 ∷ 0xce6
    ∷ 0xd66 ∷ 0xde6 ∷ 0xe50 ∷ 0xed0 ∷ 0xf20 ∷ 0x1040 ∷ 0x1090 ∷ 0x17e0 ∷ 0x1810 ∷ 0x1946 ∷ 0x19d0
    ∷ 0x1a80 ∷ 0x1a90 ∷ 0x1b50 ∷ 0x1bb0 ∷ 0x1c40 ∷ 0x1c50 ∷ 0xa620 ∷ 0xa8d0 ∷ 0xa900 ∷ 0xa9d0
    ∷ 0xa9f0 ∷ 0xaa50 ∷ 0xabf0 ∷ 0xff10 ∷ 0x104a0 ∷ 0x10d30 ∷ 0x11066 ∷ 0x110f0 ∷ 0x11136 ∷ 0x111d0
    ∷ 0x112f0 ∷ 0x11450 ∷ 0x114d0 ∷ 0x11650 ∷ 0x116c0 ∷ 0x11730 ∷ 0x118e0 ∷ 0x11950 ∷ 0x11c50
    ∷ 0x11d50 ∷ 0x11da0 ∷ 0x16a60 ∷ 0x16ac0 ∷ 0x16b50 ∷ 0x1d7ce ∷ 0x1d7d8 ∷ 0x1d7e2 ∷ 0x1d7ec
    ∷ 0x1d7f6 ∷ 0x1e140 ∷ 0x1e2f0 ∷ 0x1e950 ∷ 0x1fbf0 ∷ []

digit_in : List ℕ → ℕ → Option ℕ
digit_in [] c = none
digit_in (z ∷ zs) c = if leb z c && ltb c (z + 10) then some (c - z) else digit_in zs c

-- The value of a decimal digit.
unfoldable pub digit? : ℕ → Option ℕ
unfolding digit_in
digit? c = digit_in digit_zeros c

-- `int` takes fewer ASCII control characters for white space than `split` does.
int_space : ℕ → Bool
unfolding is_space
int_space c = if ltb c 127 then (leb 9 c && leb c 13) || c == 32 else is_space c

-- `behind` says that the last character was a digit; `room` counts the digits still allowed.
digits : ℕ → Bool → ℕ → Text → Option ℕ
unfolding digit?
digits room true n [] = some n
digits room false n [] = none
digits zero behind n (c ∷ s) = elim (digit? c) [
  | none ↦ if behind && c == b'_' then digits zero false n s else none
  | _ ↦ none
]
digits (suc room) behind n (c ∷ s) = elim (digit? c) [
  | some d ↦ digits room true (n * 10 + d) s
  | none ↦ if behind && c == b'_' then digits (suc room) false n s else none
]

negate : Option ℕ → Option ℤ
negate (some zero) = some (pos zero)
negate (some (suc n)) = some (negsuc n)
negate none = none

positive : Option ℕ → Option ℤ
positive (some n) = some (pos n)
positive none = none

signed : Text → Option ℤ
unfolding digits negate positive
signed [] = none
signed (c ∷ s) =
    if c == b'-'
    then negate (digits 4300 false 0 s)
    else positive (digits 4300 false 0 (if c == b'+' then s else c ∷ s))

unfoldable pub int? : Text → Option ℤ
unfolding signed int_space lstrip rstrip
int? s = signed (rstrip int_space (lstrip int_space s))

-- A digit is below ten.
digit_in-lt : (zs : List ℕ) (c d : ℕ) → digit_in zs c ≡ some d → d < 10
unfolding digit_in
digit_in-lt [] c d h = ground arith
digit_in-lt (z ∷ zs) c d h = ground (arith, digit_in-lt zs c d)

pub digit?-lt : (c d : ℕ) → digit? c ≡ some d → d < 10
unfolding digit?
digit?-lt c d h = digit_in-lt digit_zeros c d h

int?_tests : (int? (codes " -1_204\n") ≡ some (negsuc 1203)) × (int? (codes "1__0") ≡ none)
unfolding int?
int?_tests = (refl, refl)
