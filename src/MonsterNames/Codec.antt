-- ===== src/MonsterNames/Codec.antt =====
-- linux/host/ntpl/monsternames.py: `decrypt_text_dat` reads back what the format's runs say.
use nostale_packet_logger.Base.{
  ℕ, zero, suc, ◌+◌, ◌*◌, ◌/◌, ◌%◌, ◌<◌, ◌≡◌, refl, ap, ◌∙◌, inl, inr, Bool-cases, not, ◌||◌, Bool,
  true, false, ◌&&◌, List, [], ◌∷◌, ◌++◌, map, arith, length, All, leb,
}
use nostale_packet_logger.Base.Keys.{◌==◌, nat_eq, nat_beq_iff}
use nostale_packet_logger.MonsterNames.{
  letter, control, packed, plain, run, start, packed_output, packed_mode, unmask, decode,
  decrypt_text_dat,
}

-- The runs of an encoded text: the end of a line, a masked run of bytes, and a run of half-bytes
-- that are letters of the alphabet.
pub data Run : Type 0 where
  line_end : Run
  masked : List ℕ → Run
  letters : List ℕ → Run

-- Two letters to a byte, the first in the high half: the module's text has the halves the other way
-- round.
unfoldable pub pack : List ℕ → List ℕ
pack [] = []
pack (a ∷ []) = a * 16 ∷ []
pack (a ∷ b ∷ ns) = (a * 16 + b) ∷ pack ns

unfoldable pub encode_run : Run → List ℕ
unfolding pack
encode_run line_end = 0xff ∷ []
encode_run (masked bs) = length bs ∷ map unmask bs
encode_run (letters ns) = (128 + length ns) ∷ pack ns

unfoldable pub encode_runs : List Run → List ℕ
unfolding encode_run
encode_runs [] = []
encode_runs (r ∷ rs) = encode_run r ++ encode_runs rs

unfoldable pub text_of_run : Run → List ℕ
unfolding letter
text_of_run line_end = 0x0d ∷ []
text_of_run (masked bs) = bs
text_of_run (letters ns) = map letter ns

unfoldable pub text_of_runs : List Run → List ℕ
unfolding text_of_run
text_of_runs [] = []
text_of_runs (r ∷ rs) = text_of_run r ++ text_of_runs rs

-- A masked run has at most 127 bytes, a run of letters at most 126, since 0xff ends a line, and a
-- letter is neither the first nor the last of the alphabet, which are zero.
abbrev pub IsRun : Run → Type 0
IsRun line_end = Unit
IsRun (masked bs) = (length bs < 128) × All (λ b. b < 256) bs
IsRun (letters ns) = (length ns < 127) × All (λ n. (0 < n) × (n < 15)) ns

below : ℕ → (ℕ → Bool) → Bool
below zero p = true
below (suc n) p = p n && below n p

below_sound : (m : ℕ) (p : ℕ → Bool) (n : ℕ) → below m p ≡ true → n < m → p n ≡ true
unfolding below
below_sound zero p n h lt = absurd (omega arith)
below_sound (suc m) p n h lt = elim (Bool-cases (n == m)) [
  | inl e ↦ rw ((nat_beq_iff n m).0 e) (ground arith)
  | inr e ↦ below_sound m p n (ground arith) (ground (arith, nat_beq_iff n m))
]

unmask_table : below 256 (λ b. unmask (unmask b) == b) ≡ true
unfolding below
unmask_table = refl

unmask-unmask : (b : ℕ) → b < 256 → unmask (unmask b) ≡ b
unmask-unmask b h =
    (nat_beq_iff (unmask (unmask b)) b).0
      (below_sound 256 (λ c. unmask (unmask c) == c) b unmask_table h)

decode-masked :
    (bs rest : List ℕ)
    → All (λ b. b < 256) bs
    → decode (run plain (length bs)) (map unmask bs ++ rest) ≡ bs ++ decode control rest
unfolding decode run
decode-masked [] rest h = refl
decode-masked (b ∷ bs) rest h = rw (unmask-unmask b h.0, decode-masked bs rest h.1)

letter_table : below 15 (λ n. n == 0 || not (letter n == 0)) ≡ true
unfolding below letter
letter_table = refl

letter-eq_false : (n : ℕ) → 0 < n → n < 15 → (letter n == 0) ≡ false
letter-eq_false n lo hi =
    ground (arith, below_sound 15 (λ m. m == 0 || not (letter m == 0)) n letter_table hi)

high_half : (a b : ℕ) → b < 16 → (a * 16 + b) / 16 ≡ a
high_half a b h = omega arith

low_half : (a b : ℕ) → b < 16 → (a * 16 + b) % 16 ≡ b
low_half a b h = omega arith

last_letter : (a : ℕ) → packed_output 0 (a * 16) ≡ letter a ∷ []
unfolding packed_output
last_letter a = ap (λ n. letter n ∷ []) (omega arith)

two_letters :
    (n a b : ℕ) → 0 < b → b < 15 → packed_output (suc n) (a * 16 + b) ≡ letter a ∷ letter b ∷ []
unfolding packed_output
two_letters n a b lo hi =
    rw (low_half a b (omega arith), high_half a b (omega arith), letter-eq_false b lo hi)

next_mode : (n a b : ℕ) → 0 < b → b < 15 → packed_mode (suc n) (a * 16 + b) ≡ run packed n
unfolding packed_mode
next_mode n a b lo hi = rw (low_half a b (omega arith), letter-eq_false b lo hi)

decode-letters :
    (ns rest : List ℕ)
    → All (λ n. (0 < n) × (n < 15)) ns
    → decode (run packed (length ns)) (pack ns ++ rest) ≡ map letter ns ++ decode control rest
unfolding decode run pack packed_mode
decode-letters [] rest h = refl
decode-letters (a ∷ []) rest h = ap (λ t. t ++ decode control rest) (last_letter a)
decode-letters (a ∷ b ∷ ns) rest h = rw (
  two_letters (length ns) a b h.1.0.0 h.1.0.1,
  next_mode (length ns) a b h.1.0.0 h.1.0.1,
  decode-letters ns rest h.1.1,
)

start-plain : (n : ℕ) → n < 128 → start n ≡ run plain n
unfolding start
start-plain n h =
    let low : leb 128 n ≡ false = ground arith in
    let same : n % 128 ≡ n = omega arith in rw (low, same)

start-packed : (n : ℕ) → n < 128 → start (128 + n) ≡ run packed n
unfolding start
start-packed n h =
    let high : leb 128 (128 + n) ≡ true = ground arith in
    let rest : (128 + n) % 128 ≡ n = omega arith in rw (high, rest)

decode-control : (b : ℕ) (bs : List ℕ) → b < 255 → decode control (b ∷ bs) ≡ decode (start b) bs
unfolding decode
decode-control b bs h = let other : (b == 0xff) ≡ false = ground arith in rw other

decode-run :
    (r : Run) (rest : List ℕ)
    → IsRun r
    → decode control (encode_run r ++ rest) ≡ text_of_run r ++ decode control rest
unfolding encode_run text_of_run decode
decode-run line_end rest h = refl
decode-run (masked bs) rest h =
    decode-control (length bs) (map unmask bs ++ rest) (omega (arith, h.0))
    ∙ rw (start-plain (length bs) h.0) (decode-masked bs rest h.1)
decode-run (letters ns) rest h =
    decode-control (128 + length ns) (pack ns ++ rest) (omega (arith, h.0))
    ∙ rw (start-packed (length ns) (omega (arith, h.0))) (decode-letters ns rest h.1)

decode-runs : (rs : List Run) → All IsRun rs → decode control (encode_runs rs) ≡ text_of_runs rs
unfolding encode_runs text_of_runs decode
decode-runs [] h = refl
decode-runs (r ∷ rs) h =
    decode-run r (encode_runs rs) h.0 ∙ ap (λ t. text_of_run r ++ t) (decode-runs rs h.1)

-- The decoder reads back any text that is written as runs: line ends, masked runs of at most 127
-- bytes, and runs of at most 126 letters of the alphabet, the two zeros excepted. A byte of such a run
-- has the first of two letters in its high half and the second in its low half, and an odd last letter
-- in its high half.
pub decrypt-encode_runs :
    (rs : List Run) → All IsRun rs → decrypt_text_dat (encode_runs rs) ≡ text_of_runs rs
unfolding decrypt_text_dat
decrypt-encode_runs rs h = decode-runs rs h
