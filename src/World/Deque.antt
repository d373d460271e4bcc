-- ===== src/World/Deque.antt =====
-- `deque(maxlen=…)` of linux/host/ntpl/engine.py: the chat and the combat log keep the last entries.
use nostale_packet_logger.Base.{
  ℕ, zero, suc, ◌+◌, ◌-◌, ◌≤◌, ◌≡◌, refl, sym, ap, ◌∙◌, List, [], ◌∷◌, ◌++◌, arith, length, drop,
  length-append, length-drop, append_assoc, append-nil,
}
use native.Mathlib.Nat.{zero-add, suc-add}
use nostale_packet_logger.World.{append_bounded}

module _ {ℓ} {A : Type ℓ} where
  -- The last `n` entries.
  abbrev pub last : ℕ → List A → List A
  last n xs = drop (length xs - n) xs

  -- A deque that is empty at first, after the appends in order.
  abbrev pub append_all : ℕ → List A → List A → List A
  append_all n xs [] = xs
  append_all n xs (y ∷ ys) = append_all n (append_bounded n xs y) ys

  pub append_all-append :
      (n : ℕ) (xs ys zs : List A)
      → append_all n xs (ys ++ zs) ≡ append_all n (append_all n xs ys) zs
  append_all-append n xs [] zs = refl
  append_all-append n xs (y ∷ ys) zs = append_all-append n (append_bounded n xs y) ys zs

  drop-drop : (m n : ℕ) (xs : List A) → drop m (drop n xs) ≡ drop (n + m) xs
  drop-drop m zero xs = rw zero-add
  drop-drop zero (suc n) [] = rw suc-add
  drop-drop (suc m) (suc n) [] = rw suc-add
  drop-drop m (suc n) (x ∷ xs) = rw suc-add (drop-drop m n xs)

  drop-append : (n : ℕ) (xs ys : List A) → n ≤ length xs → drop n (xs ++ ys) ≡ drop n xs ++ ys
  drop-append zero xs ys h = refl
  drop-append (suc n) [] ys h = absurd (omega arith)
  drop-append (suc n) (x ∷ xs) ys h = drop-append n xs ys (omega arith)

  append_bounded-last :
      (n : ℕ) (xs : List A) (x : A) → append_bounded n (last n xs) x ≡ last n (xs ++ x ∷ [])
  unfolding append_bounded
  append_bounded-last n xs x =
      let a = length xs - n in
      let ys = xs ++ x ∷ [] in
      rw (sym (drop-append a xs (x ∷ []) (omega arith))) (
        drop-drop (length (drop a ys) - n) a ys
        ∙ ap (λ (m : ℕ). drop m ys) (omega (arith, length-drop a ys, length-append xs (x ∷ []))))

  append_all-last : (n : ℕ) (xs ys : List A) → append_all n (last n xs) ys ≡ last n (xs ++ ys)
  append_all-last n xs [] = rw append-nil
  append_all-last n xs (y ∷ ys) =
      ap (λ zs. append_all n zs ys) (append_bounded-last n xs y)
      ∙ (append_all-last n (xs ++ y ∷ []) ys ∙ rw append_assoc)

drop-nil {ℓ} : {A : Type ℓ} (n : ℕ) → ◌≡◌ {A = List A} (drop n []) []
drop-nil zero = refl
drop-nil (suc n) = refl

-- A bounded deque, empty at first, holds the last entries of all that were appended, in order.
pub append_all_lem {ℓ} :
    {A : Type ℓ} (n : ℕ) (ys : List A) → append_all n [] ys ≡ drop (length ys - n) ys
append_all_lem n ys =
    ap (λ zs. append_all n zs ys) (sym (drop-nil (0 - n))) ∙ append_all-last n [] ys
