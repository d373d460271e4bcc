-- ===== src/MapData/Choice/Best.antt =====
-- linux/host/ntpl/mapdata.py: the map that `find_map_for_positions` ranks first.
use nostale_packet_logger.Base.{
  ℕ, zero, suc, ◌≤◌, ◌≡◌, refl, sym, ap, subst, ◌∙◌, inl, inr, true, List, [], ◌∷◌, arith, length,
  take, All, Bool-cases,
}
use nostale_packet_logger.Base.Int.{ℤ}
use nostale_packet_logger.Base.Keys.{nat_eq, int_eq}
use nostale_packet_logger.Base.Dict.{Dict}
use nostale_packet_logger.MapData.{MapGrid}
use nostale_packet_logger.MapData.Choice.{
  Points, Ranked, covers, walkable_points, rank_grids, insert_ranked, sort_ranked, ranked_leb,
  find_map_for_positions,
}

-- The first of a sorted list is not below any of them.
abbrev Tops : List Ranked → Type 0
Tops [] = Unit
Tops (r ∷ rs) = All (λ q. q.0 ≤ r.0) rs

insert_ranked-All :
    (P : Ranked → Type 0) (r : Ranked) (rs : List Ranked)
    → P r
    → All P rs
    → All P (insert_ranked r rs)
unfolding insert_ranked
insert_ranked-All P r [] h hs = (h, tt)
insert_ranked-All P r (q ∷ qs) h hs = elim (Bool-cases (ranked_leb q r)) [
  | inl e ↦ rw e (h, hs)
  | inr e ↦ rw e (hs.0, insert_ranked-All P r qs h hs.1)
]

All-insert_ranked :
    (P : Ranked → Type 0) (r : Ranked) (rs : List Ranked)
    → All P (insert_ranked r rs)
    → P r × All P rs
unfolding insert_ranked
All-insert_ranked P r [] h = h
All-insert_ranked P r (q ∷ qs) h = elim (Bool-cases (ranked_leb q r)) [
  | inl e ↦ rw e at h
  | inr e ↦
      let hs : P q × All P (insert_ranked r qs) = rw e at h in
      let rest = All-insert_ranked P r qs hs.1 in (rest.0, (hs.0, rest.1))
]

pub sort_ranked-All : (P : Ranked → Type 0) (rs : List Ranked) → All P rs → All P (sort_ranked rs)
unfolding sort_ranked
sort_ranked-All P [] h = tt
sort_ranked-All P (r ∷ rs) h = insert_ranked-All P r (sort_ranked rs) h.0 (sort_ranked-All P rs h.1)

All-sort_ranked : (P : Ranked → Type 0) (rs : List Ranked) → All P (sort_ranked rs) → All P rs
unfolding sort_ranked
All-sort_ranked P [] h = tt
All-sort_ranked P (r ∷ rs) h =
    let both = All-insert_ranked P r (sort_ranked rs) h in (both.0, All-sort_ranked P rs both.1)

pub All-weaken :
    (P Q : Ranked → Type 0) (rs : List Ranked) → ((r : Ranked) → P r → Q r) → All P rs → All Q rs
All-weaken P Q [] f h = tt
All-weaken P Q (r ∷ rs) f h = (f r h.0, All-weaken P Q rs f h.1)

insert_ranked-Tops : (r : Ranked) (rs : List Ranked) → Tops rs → Tops (insert_ranked r rs)
unfolding insert_ranked
insert_ranked-Tops r [] h = tt
insert_ranked-Tops r (q ∷ qs) h = elim (Bool-cases (ranked_leb q r)) [
  | inl e ↦
      let below : q.0 ≤ r.0 = ground arith in
      rw e (below, All-weaken (λ p. p.0 ≤ q.0) (λ p. p.0 ≤ r.0) qs (λ p hp. omega arith) h)
  | inr e ↦
      let below : r.0 ≤ q.0 = ground arith in rw e (insert_ranked-All (λ p. p.0 ≤ q.0) r qs below h)
]

sort_ranked-Tops : (rs : List Ranked) → Tops (sort_ranked rs)
unfolding sort_ranked
sort_ranked-Tops [] = tt
sort_ranked-Tops (r ∷ rs) = insert_ranked-Tops r (sort_ranked rs) (sort_ranked-Tops rs)

length-insert_ranked :
    (r : Ranked) (rs : List Ranked) → length (insert_ranked r rs) ≡ suc (length rs)
unfolding insert_ranked
length-insert_ranked r [] = refl
length-insert_ranked r (q ∷ qs) = ground (arith, length-insert_ranked r qs)

length-sort_ranked : (rs : List Ranked) → length (sort_ranked rs) ≡ length rs
unfolding sort_ranked
length-sort_ranked [] = refl
length-sort_ranked (r ∷ rs) =
    length-insert_ranked r (sort_ranked rs) ∙ ap suc (length-sort_ranked rs)

length-rank_grids :
    (points : Points) (items : List (ℤ × MapGrid)) → length (rank_grids points items) ≤ length items
unfolding rank_grids
length-rank_grids points [] = omega arith
length-rank_grids points (i ∷ is) = ground (arith, length-rank_grids points is)

pub take_all {ℓ} : {A : Type ℓ} (n : ℕ) (xs : List A) → length xs ≤ n → take n xs ≡ xs
take_all zero [] h = refl
take_all zero (x ∷ xs) h = absurd (omega arith)
take_all (suc n) [] h = refl
take_all (suc n) (x ∷ xs) h = ap (λ r. x ∷ r) (take_all n xs (omega arith))

-- With the number of grids as the limit, nothing is cut off.
pub find_map_all :
    (grids : Dict ℤ MapGrid) (p : ℤ × ℤ) (ps : Points)
    → find_map_for_positions grids (p ∷ ps) (length grids.items)
      ≡ sort_ranked (rank_grids (p ∷ ps) grids.items)
unfolding find_map_for_positions
find_map_all grids p ps =
    take_all (length grids.items) (sort_ranked (rank_grids (p ∷ ps) grids.items)) (
      omega (
        arith,
        length-sort_ranked (rank_grids (p ∷ ps) grids.items),
        length-rank_grids (p ∷ ps) grids.items,
      ))

-- No grid that covers the points has more of them walkable than `best`.
pub AtMost : Points → ℕ → List (ℤ × MapGrid) → Type 0
AtMost points best items =
    All (λ i. covers i.1 points ≡ true → walkable_points i.1 points ≤ best) items

rank_grids-AtMost :
    (points : Points) (best : ℕ) (items : List (ℤ × MapGrid))
    → All (λ r. r.0 ≤ best) (rank_grids points items)
    → AtMost points best items
unfolding rank_grids AtMost
rank_grids-AtMost points best [] h = tt
rank_grids-AtMost points best (i ∷ is) h = elim (Bool-cases (covers i.1 points)) [
  | inl e ↦
      let hs : (walkable_points i.1 points ≤ best) × All (λ r. r.0 ≤ best) (rank_grids points is) =
        rw e at h in
      (λ c. hs.0, rank_grids-AtMost points best is hs.1)
  | inr e ↦ (λ c. absurd (ground arith), rank_grids-AtMost points best is (rw e at h))
]

-- The best rank is that of the first.
pub first-AtMost :
    (points : Points) (items : List (ℤ × MapGrid)) (r : Ranked) (rs : List Ranked)
    → sort_ranked (rank_grids points items) ≡ r ∷ rs
    → AtMost points r.0 items
first-AtMost points items r rs e = rank_grids-AtMost points r.0 items (
    All-sort_ranked (λ q. q.0 ≤ r.0) (rank_grids points items)
      (subst (All (λ q. q.0 ≤ r.0)) (sym e)
        (omega arith, subst Tops e (sort_ranked-Tops (rank_grids points items)))))
