-- ===== src/MapData/Choice/Chosen.antt =====
-- linux/host/ntpl/mapdata.py: the map that `choose_map_for_positions` returns.
use mathlib.Core.List.{Memᴰ}
use nostale_packet_logger.Base.{
  ℕ, ◌*◌, ◌≤◌, ◌≡◌, refl, sym, subst, inl, inr, Bool, true, false, Option, none, some, List, [],
  ◌∷◌, arith, if◌then◌else◌, length, any, ltb, All, Bool-cases,
}
use nostale_packet_logger.Base.Int.{ℤ, int_beq_iff}
use nostale_packet_logger.Base.Keys.{◌==◌, int_eq}
use nostale_packet_logger.Base.Dict.{Dict, get}
use nostale_packet_logger.Python.Errors.{Result, ok, raise, IfOk, of_ok}
use nostale_packet_logger.MapData.{MapGrid}
use nostale_packet_logger.MapData.Choice.{
  Points, Ranked, covers, walkable_points, rank_grids, sort_ranked, ranked_leb, is_tied, tied_maps,
  add_size, sized, least, tightest, holds, or_else, find_map_for_positions, choose_ranked,
  choose_map_for_positions,
}
use nostale_packet_logger.MapData.Choice.Best.{
  All-weaken, sort_ranked-All, find_map_all, AtMost, first-AtMost,
}

-- A grid of the archive with this map id and score.
pub record IsRank (points : Points) (items : List (ℤ × MapGrid)) (r : Ranked) : Type 0 where
  pub item : ℤ × MapGrid
  pub listed : Memᴰ item items
  pub id : item.1.map_id ≡ r.1
  pub covered : covers item.1 points ≡ true
  pub score : walkable_points item.1 points ≡ r.0

IsRank-cons :
    (points : Points) (i : ℤ × MapGrid) (is : List (ℤ × MapGrid)) (r : Ranked)
    → IsRank points is r
    → IsRank points (i ∷ is) r
IsRank-cons points i is r h = record {
  item = h.item;
  listed = Memᴰ.tail h.listed;
  id = h.id;
  covered = h.covered;
  score = h.score;
}

rank_grids-IsRank :
    (points : Points) (items : List (ℤ × MapGrid))
    → All (IsRank points items) (rank_grids points items)
unfolding rank_grids
rank_grids-IsRank points [] = tt
rank_grids-IsRank points (i ∷ is) =
    let rest =
      All-weaken (IsRank points is) (IsRank points (i ∷ is)) (rank_grids points is)
        (IsRank-cons points i is) (rank_grids-IsRank points is) in
    elim (Bool-cases (covers i.1 points)) [
      | inl e ↦
          let here : IsRank points (i ∷ is) (walkable_points i.1 points, i.1.map_id) = record {
            item = i;
            listed = Memᴰ.head refl;
            id = refl;
            covered = e;
            score = refl;
          } in
          rw e (here, rest)
      | inr e ↦ rw e rest
    ]

-- A grid whose score is the best one, up to 1e-9.
pub record IsTied (points : Points) (items : List (ℤ × MapGrid)) (best : ℕ) (m : ℤ) : Type 0 where
  pub score : ℕ
  pub rank : IsRank points items (score, m)
  pub close : is_tied (length points) best (score, m) ≡ true

tied_maps-All :
    (points : Points) (items : List (ℤ × MapGrid)) (best : ℕ) (rs : List Ranked)
    → All (IsRank points items) rs
    → All (IsTied points items best) (tied_maps (length points) best rs)
unfolding tied_maps
tied_maps-All points items best [] h = tt
tied_maps-All points items best (r ∷ rs) h =
    let rest = tied_maps-All points items best rs h.1 in
    elim (Bool-cases (is_tied (length points) best r)) [
      | inl e ↦
          let here : IsTied points items best r.1 = record { score = r.0; rank = h.0; close = e } in
          rw e (here, rest)
      | inr e ↦ rw e rest
    ]

module _ (P : ℤ → Type 0) where
  holds-All : (m : ℤ) (ms : List ℤ) → any (λ m'. m' == m) ms ≡ true → All P ms → P m
  holds-All m [] e h = absurd (ground arith)
  holds-All m (m' ∷ ms) e h = elim (Bool-cases (m' == m)) [
    | inl here ↦ subst P ((int_beq_iff m' m).0 here) h.0
    | inr there ↦ holds-All m ms (ground arith) h.1
  ]

  if-All : (b : Bool) (r q : ℕ × ℤ) → P r.1 → P q.1 → P (if b then r else q).1
  if-All true r q hr hq = hr
  if-All false r q hr hq = hq

  least-All : (r : ℕ × ℤ) (qs : List (ℕ × ℤ)) → P r.1 → All (λ q. P q.1) qs → P (least r qs).1
  unfolding least
  least-All r [] h hs = h
  least-All r (q ∷ qs) h hs =
      least-All (if ranked_leb r q then r else q) qs (if-All (ranked_leb r q) r q h hs.0) hs.1

  add_size-All :
      (o : Option MapGrid) (m : ℤ) (rest : Result (List (ℕ × ℤ)))
      → P m
      → IfOk (All (λ q. P q.1)) rest
      → IfOk (All (λ q. P q.1)) (add_size o m rest)
  unfolding add_size
  add_size-All none m rest h hs = tt
  add_size-All (some g) m (raise e) h hs = tt
  add_size-All (some g) m (ok rest) h hs = (h, hs)

  sized-All :
      (grids : Dict ℤ MapGrid) (ms : List ℤ) → All P ms → IfOk (All (λ q. P q.1)) (sized grids ms)
  unfolding sized
  sized-All grids [] h = tt
  sized-All grids (m ∷ ms) h =
      add_size-All (get grids m) m (sized grids ms) h.0 (sized-All grids ms h.1)

  -- What is returned is the best score, with a map for which `P` holds.
  IsAnswer : ℕ → Option Ranked → Type 0
  IsAnswer best none = Unit
  IsAnswer best (some r) = (r.0 ≡ best) × P r.1

  tightest-All :
      (best : ℕ) (qs : Result (List (ℕ × ℤ)))
      → IfOk (All (λ q. P q.1)) qs
      → IfOk (IsAnswer best) (tightest best qs)
  unfolding tightest IsAnswer
  tightest-All best (raise e) h = tt
  tightest-All best (ok []) h = tt
  tightest-All best (ok (q ∷ qs)) h = (refl, least-All q qs h.0 h.1)

  kept-All :
      (current_id : Option ℤ) (best : ℕ) (m : ℤ) (ms : List ℤ) (other : Result (Option Ranked))
      → All P ms
      → IfOk (IsAnswer best) other
      → IfOk
          (IsAnswer best)
          (if holds current_id ms then ok (some (best, or_else current_id m)) else other)
  unfolding IsAnswer
  kept-All none best m ms other h ho = ho
  kept-All (some c) best m ms other h ho = elim (Bool-cases (any (λ m'. m' == c) ms)) [
    | inl e ↦ rw e (refl, holds-All c ms e h)
    | inr e ↦ rw e ho
  ]

-- An answer: its score is that of one of the grids with its map id, up to 1e-9; no grid that holds
-- every point scores higher; and it reaches the minimum.
pub record IsChoice (points : Points) (items : List (ℤ × MapGrid)) (num den : ℕ) (r : Ranked)
    : Type 0 where
  pub tied : IsTied points items r.0 r.1
  pub best : AtMost points r.0 items
  pub enough : num * length points ≤ r.0 * den

-- The answer, if there is one, is such a choice.
abbrev pub IfSome : (Ranked → Type 0) → Option Ranked → Type 0
IfSome P none = Unit
IfSome P (some r) = P r

answer-IsChoice :
    (points : Points) (items : List (ℤ × MapGrid)) (num den best : ℕ) (r : Result (Option Ranked))
    → AtMost points best items
    → num * length points ≤ best * den
    → IfOk (IsAnswer (IsTied points items best) best) r
    → IfOk (IfSome (IsChoice points items num den)) r
unfolding IsAnswer
answer-IsChoice points items num den best (raise x) most enough h = tt
answer-IsChoice points items num den best (ok none) most enough h = tt
answer-IsChoice points items num den best (ok (some r)) most enough h = record {
  tied = subst (λ n. IsTied points items n r.1) (sym h.0) h.1;
  best = subst (λ n. AtMost points n items) (sym h.0) most;
  enough = subst (λ n. num * length points ≤ n * den) (sym h.0) enough;
}

choose_ranked-IsChoice :
    (grids : Dict ℤ MapGrid) (points : Points) (current_id : Option ℤ) (num den : ℕ)
    (rs : List Ranked)
    → sort_ranked (rank_grids points grids.items) ≡ rs
    → IfOk
        (IfSome (IsChoice points grids.items num den))
        (choose_ranked grids (length points) current_id num den rs)
unfolding choose_ranked
choose_ranked-IsChoice grids points current_id num den [] e = tt
choose_ranked-IsChoice grids points current_id num den ((best, m) ∷ rs) e =
    let total = length points in
    let items = grids.items in
    let tied = tied_maps total best ((best, m) ∷ rs) in
    let ranks = subst (All (IsRank points items)) e (
      sort_ranked-All (IsRank points items) (rank_grids points items)
        (rank_grids-IsRank points items)) in
    let all_tied = tied_maps-All points items best ((best, m) ∷ rs) ranks in
    let P = IsTied points items best in
    let answer =
      kept-All P current_id best m tied (tightest best (sized grids tied)) all_tied
        (tightest-All P best (sized grids tied) (sized-All P grids tied all_tied)) in
    elim (Bool-cases (ltb (best * den) (num * total))) [
      | inl low ↦ rw low tt
      | inr high ↦ rw high (
          answer-IsChoice points items num den best
            (if holds current_id tied
              then ok (some (best, or_else current_id m))
              else tightest best (sized grids tied))
            (first-AtMost points items (best, m) rs e) (ground (arith, high)) answer)
    ]

choose_map-IfSome :
    (grids : Dict ℤ MapGrid) (points : Points) (current_id : Option ℤ) (num den : ℕ)
    → IfOk
        (IfSome (IsChoice points grids.items num den))
        (choose_map_for_positions grids points current_id num den)
unfolding choose_map_for_positions find_map_for_positions choose_ranked
choose_map-IfSome grids [] current_id num den = tt
choose_map-IfSome grids (p ∷ ps) current_id num den =
    subst
      (λ rs.
        IfOk (IfSome (IsChoice (p ∷ ps) grids.items num den))
          (choose_ranked grids (length (p ∷ ps)) current_id num den rs))
      (sym (find_map_all grids p ps))
      (choose_ranked-IsChoice grids (p ∷ ps) current_id num den
        (sort_ranked (rank_grids (p ∷ ps) grids.items)) refl)

-- A map that choose_map_for_positions returns has a grid on which every point lies, and the score
-- of that grid is the returned one, up to 1e-9 of the fraction; no grid on which every point lies
-- scores higher than the returned score; and the score reaches the minimum.
pub choose_map-IsChoice :
    (grids : Dict ℤ MapGrid) (points : Points) (current_id : Option ℤ) (num den : ℕ) (r : Ranked)
    → choose_map_for_positions grids points current_id num den ≡ ok (some r)
    → IsChoice points grids.items num den r
choose_map-IsChoice grids points current_id num den r e =
    of_ok (IfSome (IsChoice points grids.items num den))
      (choose_map_for_positions grids points current_id num den) (some r)
      (choose_map-IfSome grids points current_id num den) e
