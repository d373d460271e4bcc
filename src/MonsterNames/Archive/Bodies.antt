-- ===== src/MonsterNames/Archive/Bodies.antt =====
-- linux/host/ntpl/monsternames.py: which entries of the archive are decoded.
use nostale_packet_logger.Base.{
  ℕ, Bool, zero, suc, ◌-◌, ◌≢◌, ◌⊎◌, inl, inr, true, not, ◌||◌, Bool-cases, sym, ◌≡◌, refl, ap, ◌∙◌,
  false, List, [], ◌∷◌, ◌++◌, arith, length, leb, take, drop, All, length-append, drop_front,
}
use nostale_packet_logger.Base.Keys.{Text, ◌==◌, nat_eq, nat_beq_iff, text_eq, text_beq_iff}
use nostale_packet_logger.MonsterNames.Codec.{
  Run, IsRun, encode_runs, text_of_runs, decrypt-encode_runs,
}
use nostale_packet_logger.Python.{codes}
use nostale_packet_logger.MonsterNames.Archive.{decoded, ends_with}

-- The content of an entry: bytes as they are, or a text in the runs of the codec.
pub data Body : Type 0 where
  raw : List ℕ → Body
  encoded : List Run → Body

-- The bytes that the archive holds, and those that a reader wants.
unfoldable pub stored : Body → List ℕ
stored (raw bytes) = bytes
stored (encoded runs) = encode_runs runs

unfoldable pub readable : Body → List ℕ
readable (raw bytes) = bytes
readable (encoded runs) = text_of_runs runs

-- The name ends in `.dat`.
abbrev pub IsDatName : Text → Type 0
IsDatName name = (stem : Text) × (name ≡ stem ++ codes ".dat")

-- An entry is encoded exactly if its flag is set or its name ends in `.dat`.
abbrev pub IsMarked : ℕ → Text → Body → Type 0
IsMarked is_dat name (raw bytes) = (is_dat ≡ 0) × (IsDatName name → ⊥)
IsMarked is_dat name (encoded runs) = ((is_dat ≢ 0) ⊎ IsDatName name) × All IsRun runs

take-drop_join : (n : ℕ) (xs : Text) → take n xs ++ drop n xs ≡ xs
take-drop_join zero xs = refl
take-drop_join (suc n) [] = refl
take-drop_join (suc n) (x ∷ xs) = ap (λ l. x ∷ l) (take-drop_join n xs)

pub ends_with-append : (suffix stem : Text) → ends_with suffix (stem ++ suffix) ≡ true
unfolding ends_with
ends_with-append suffix stem =
    let all = stem ++ suffix in
    let long : leb (length suffix) (length all) ≡ true =
      ground (arith, length-append stem suffix) in
    let size : length all - length suffix ≡ length stem =
      omega (arith, length-append stem suffix) in
    rw (long, size, drop_front stem suffix) ((text_beq_iff suffix suffix).1 refl)

ends_with-IsDatName : (name : Text) → ends_with (codes ".dat") name ≡ true → IsDatName name
unfolding ends_with
ends_with-IsDatName name h =
    let n = length name - 4 in
    let same : drop n name ≡ codes ".dat" =
      (text_beq_iff (drop n name) (codes ".dat")).0 (ground arith) in
    (take n name, sym (take-drop_join n name) ∙ ap (λ l. take n name ++ l) same)

or_true : (b : Bool) → (b || true) ≡ true
or_true true = refl
or_true false = refl

pub decoded-readable :
    (is_dat : ℕ) (name : Text) (body : Body)
    → IsMarked is_dat name body
    → decoded is_dat name (stored body) ≡ readable body
unfolding decoded stored readable
decoded-readable is_dat name (raw bytes) (clear, other) =
    let off : ends_with (codes ".dat") name ≡ false =
      elim (Bool-cases (ends_with (codes ".dat") name)) [
        | inl on ↦ absurd (other (ends_with-IsDatName name on))
        | inr off ↦ off
      ] in
    rw (clear, off)
decoded-readable is_dat name (encoded runs) (inl set, fit) =
    let flag : (is_dat == 0) ≡ false = ground (arith, nat_beq_iff is_dat 0) in
    rw flag (decrypt-encode_runs runs fit)
decoded-readable is_dat name (encoded runs) (inr (stem, same), fit) =
    let ends : ends_with (codes ".dat") name ≡ true =
      ap (ends_with (codes ".dat")) same ∙ ends_with-append (codes ".dat") stem in
    rw (ends, or_true (not (is_dat == 0))) (decrypt-encode_runs runs fit)
