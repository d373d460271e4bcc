-- ===== src/Base/Keys.antt =====
-- Equality of the keys and values that Python compares by `==`: numbers, texts and tuples.
use nostale_packet_logger.Base.{
  ℕ, ◌≡◌, refl, ◌↔◌, Bool, true, false, ◌&&◌, List, [], ◌∷◌, arith, nat_beq,
}
use nostale_packet_logger.Base.Int.{ℤ, int_beq, int_beq_iff}

-- The comparison that a dictionary makes of its keys, and that `==` makes of values.
pub record Key {ℓ} (K : Type ℓ) : Type ℓ where
  pub same : (k j : K) → Bool
  pub same_iff : (k j : K) → (same k j ≡ true) ↔ (k ≡ j)

instance abbrev pub int_eq : Key ℤ
int_eq = record { same = int_beq; same_iff = int_beq_iff }

pub nat_beq_iff : (m n : ℕ) → (nat_beq m n ≡ true) ↔ (m ≡ n)
nat_beq_iff m n = ground arith

instance abbrev pub nat_eq : Key ℕ
nat_eq = record { same = nat_beq; same_iff = nat_beq_iff }

-- (map id, x, y), the key of the portal tables.
abbrev pub Cell : Type 0
Cell = ℤ × ℤ × ℤ

abbrev pub cell_beq : Cell → Cell → Bool
cell_beq (m, x, y) (m', x', y') = int_beq m m' && int_beq x x' && int_beq y y'

pub cell_beq_iff : (a b : Cell) → (cell_beq a b ≡ true) ↔ (a ≡ b)
cell_beq_iff (m, x, y) (m', x', y') =
    ground (arith, int_beq_iff m m', int_beq_iff x x', int_beq_iff y y')

instance abbrev pub cell_eq : Key Cell
cell_eq = record { same = cell_beq; same_iff = cell_beq_iff }

-- A text is the list of its code points.
abbrev pub Text : Type 0
Text = List ℕ

abbrev pub text_beq : Text → Text → Bool
text_beq [] [] = true
text_beq (a ∷ s) (b ∷ t) = nat_beq a b && text_beq s t
text_beq _ _ = false

pub text_beq_iff : (s t : Text) → (text_beq s t ≡ true) ↔ (s ≡ t)
text_beq_iff [] [] = ground arith
text_beq_iff [] (b ∷ t) = ground arith
text_beq_iff (a ∷ s) [] = ground arith
text_beq_iff (a ∷ s) (b ∷ t) = ground (arith, text_beq_iff s t)

instance abbrev pub text_eq : Key Text
text_eq = record { same = text_beq; same_iff = text_beq_iff }

module _ {ℓ} {K : Type ℓ} ⦃key : Key K⦄ where
  infix 50 ◌==◌
  abbrev pub ◌==◌ : (k j : K) → Bool
  ◌==◌ k j = key.same k j

  pub beq_refl : (k : K) → (k == k) ≡ true
  beq_refl k = (key.same_iff k k).1 refl
