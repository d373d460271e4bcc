-- ===== src/MapData/Search/Heap.antt =====
-- linux/host/ntpl/mapdata.py: what the frontier gives back.
use nostale_packet_logger.Base.{
  All-map, ℕ, ◌≤◌, ◌≡◌, refl, ◌⊎◌, inl, inr, List, [], ◌∷◌, arith, length, All, true, false,
  Bool-cases,
}
use nostale_packet_logger.MapData.Search.{FrontierItem, heappop, precedes}

-- A predicate of some entry.
abbrev pub Some : (FrontierItem → Type 0) → List FrontierItem → Type 0
Some P [] = ⊥
Some P (e ∷ es) = P e ⊎ Some P es

pub Some-map :
    (P Q : FrontierItem → Type 0) (es : List FrontierItem)
    → ((e : FrontierItem) → P e → Q e)
    → Some P es
    → Some Q es
Some-map P Q [] f h = h
Some-map P Q (e ∷ es) f (inl h) = inl (f e h)
Some-map P Q (e ∷ es) f (inr h) = inr (Some-map P Q es f h)

pub All-both :
    (P Q : FrontierItem → Type 0) (es : List FrontierItem)
    → All P es
    → All Q es
    → All (λ e. P e × Q e) es
All-both P Q [] hs ks = tt
All-both P Q (e ∷ es) (h, hs) (k, ks) = ((h, k), All-both P Q es hs ks)

-- An entry that some predicate singles out has what all entries have.
pub Some-All :
    (P Q : FrontierItem → Type 0) (es : List FrontierItem)
    → Some P es
    → All Q es
    → (e : FrontierItem) × P e × Q e
Some-All P Q [] h hs = elim h [ ]
Some-All P Q (e ∷ es) (inl h) (q, qs) = (e, h, q)
Some-All P Q (e ∷ es) (inr h) (q, qs) = Some-All P Q es h qs

pub length-heappop :
    (e : FrontierItem) (es : List FrontierItem) → length (heappop e es).1 ≡ length es
unfolding heappop
length-heappop e [] = refl
length-heappop e (f ∷ es) = ground (arith, length-heappop f es)

pub Some-heappop :
    (P : FrontierItem → Type 0) (e : FrontierItem) (es : List FrontierItem)
    → Some P (e ∷ es)
    → P (heappop e es).0 ⊎ Some P (heappop e es).1
unfolding heappop
Some-heappop P e [] h = h
Some-heappop P e (f ∷ es) h = elim (Bool-cases (precedes e (heappop f es).0)) [
  | inl first ↦ rw first h
  | inr later ↦ rw later (elim h [
    | inl here ↦ inr (inl here)
    | inr there ↦ elim (Some-heappop P f es there) [
      | inl least ↦ inl least
      | inr left ↦ inr (inr left)
    ]
  ])
]

pub All-heappop :
    (P : FrontierItem → Type 0) (e : FrontierItem) (es : List FrontierItem)
    → All P (e ∷ es)
    → P (heappop e es).0 × All P (heappop e es).1
unfolding heappop
All-heappop P e [] h = h
All-heappop P e (f ∷ es) h = elim (Bool-cases (precedes e (heappop f es).0)) [
  | inl first ↦ rw first h
  | inr later ↦ let (least, left) = All-heappop P f es h.1 in rw later (least, (h.0, left))
]

precedes-le : (a b : FrontierItem) → precedes a b ≡ true → a.estimate ≤ b.estimate
unfolding precedes
precedes-le a b h = ground arith

precedes-ge : (a b : FrontierItem) → precedes a b ≡ false → b.estimate ≤ a.estimate
unfolding precedes
precedes-ge a b h = ground arith

heappop-least :
    (e : FrontierItem) (es : List FrontierItem) (m : ℕ)
    → m ≡ (heappop e es).0.estimate
    → All (λ (f : FrontierItem). m ≤ f.estimate) (e ∷ es)
unfolding heappop
heappop-least e [] m eq = omega arith
heappop-least e (f ∷ es) m eq =
    let others = heappop-least f es (heappop f es).0.estimate refl in
    elim (Bool-cases (precedes e (heappop f es).0)) [
      | inl first ↦
          let m-e : m ≡ e.estimate = ground arith in
          let less = precedes-le e (heappop f es).0 first in
          (
            omega arith,
            All-map (λ (k : FrontierItem). (heappop f es).0.estimate ≤ k.estimate)
                (λ (k : FrontierItem). m ≤ k.estimate) (f ∷ es)
                (λ k le. omega (arith, le, less, m-e)) others,
          )
      | inr later ↦
          let m-least : m ≡ (heappop f es).0.estimate = ground arith in
          let more = precedes-ge e (heappop f es).0 later in
          (
            omega (arith, more, m-least),
            All-map (λ (k : FrontierItem). (heappop f es).0.estimate ≤ k.estimate)
                (λ (k : FrontierItem). m ≤ k.estimate) (f ∷ es) (λ k le. omega (arith, le, m-least))
                others,
          )
    ]

-- No entry that stays has a smaller estimate.
pub heappop-le :
    (e : FrontierItem) (es : List FrontierItem)
    → All (λ (f : FrontierItem). (heappop e es).0.estimate ≤ f.estimate) (heappop e es).1
heappop-le e es = (All-heappop _ e es (heappop-least e es _ refl)).1
