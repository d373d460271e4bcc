-- ===== src/MapData/Choice.antt =====
-- linux/host/ntpl/mapdata.py: which map the seen positions are on. The scores of one call share
-- their denominator, the number of points, so a score is the number of walkable points.
pub mod Best
pub mod Chosen
use nostale_packet_logger.Base.{
  ℕ, ◌+◌, ◌*◌, ◌-◌, Bool, true, false, ◌&&◌, ◌||◌, Option, none, some, List, [], ◌∷◌, if◌then◌else◌,
  length, take, all, any, ltb, leb,
}
use nostale_packet_logger.Base.Int.{ℤ, leb_ℤ}
use nostale_packet_logger.Base.Keys.{◌==◌, nat_eq, int_eq}
use nostale_packet_logger.Base.Dict.{Dict, get}
use nostale_packet_logger.Python.Errors.{Result, ok, raise, key_error}
use nostale_packet_logger.MapData.{MapGrid, inside, is_walkable}

abbrev pub Points : Type 0
Points = List (ℤ × ℤ)

-- A number of walkable points, and a map.
abbrev pub Ranked : Type 0
Ranked = ℕ × ℤ

abbrev pub covers : MapGrid → Points → Bool
covers g points = all (λ p. inside g p.0 p.1) points

unfoldable pub walkable_points : MapGrid → Points → ℕ
walkable_points g [] = 0
walkable_points g (p ∷ ps) =
    let rest = walkable_points g ps in if is_walkable g p.0 p.1 then 1 + rest else rest

unfoldable pub rank_grids : Points → List (ℤ × MapGrid) → List Ranked
unfolding walkable_points
rank_grids points [] = []
rank_grids points (i ∷ is) =
    let rest = rank_grids points is in
    if covers i.1 points then (walkable_points i.1 points, i.1.map_id) ∷ rest else rest

-- The order of the tuples.
abbrev pub ranked_leb : Ranked → Ranked → Bool
ranked_leb (n, m) (n', m') = ltb n n' || (n == n' && leb_ℤ m m')

unfoldable pub insert_ranked : Ranked → List Ranked → List Ranked
insert_ranked r [] = r ∷ []
insert_ranked r (q ∷ qs) =
    let rest = insert_ranked r qs in if ranked_leb q r then r ∷ q ∷ qs else q ∷ rest

-- ranked.sort(reverse=True)
unfoldable pub sort_ranked : List Ranked → List Ranked
unfolding insert_ranked
sort_ranked [] = []
sort_ranked (r ∷ rs) = insert_ranked r (sort_ranked rs)

-- find_map_for_positions
unfoldable pub find_map_for_positions : Dict ℤ MapGrid → Points → ℕ → List Ranked
unfolding rank_grids sort_ranked
find_map_for_positions grids [] limit = []
find_map_for_positions grids (p ∷ ps) limit =
    take limit (sort_ranked (rank_grids (p ∷ ps) grids.items))

-- best_fraction - fraction <= 1e-9, for a map of `total` points.
abbrev pub is_tied : ℕ → ℕ → Ranked → Bool
is_tied total best (n, m) = leb ((best - n) * 1_000_000_000) total

unfoldable pub tied_maps : ℕ → ℕ → List Ranked → List ℤ
tied_maps total best [] = []
tied_maps total best (r ∷ rs) =
    let rest = tied_maps total best rs in if is_tied total best r then r.1 ∷ rest else rest

-- The key of `min`: the area, then the id; a missing map is a KeyError.
unfoldable pub add_size : Option MapGrid → ℤ → Result (List (ℕ × ℤ)) → Result (List (ℕ × ℤ))
add_size none m rest = raise key_error
add_size (some g) m (raise e) = raise e
add_size (some g) m (ok rest) = ok ((g.width * g.height, m) ∷ rest)

unfoldable pub sized : Dict ℤ MapGrid → List ℤ → Result (List (ℕ × ℤ))
unfolding add_size
sized grids [] = ok []
sized grids (m ∷ ms) = add_size (get grids m) m (sized grids ms)

unfoldable pub least : ℕ × ℤ → List (ℕ × ℤ) → ℕ × ℤ
least r [] = r
least r (q ∷ qs) = least (if ranked_leb r q then r else q) qs

unfoldable pub tightest : ℕ → Result (List (ℕ × ℤ)) → Result (Option Ranked)
unfolding least
tightest best (raise e) = raise e
tightest best (ok []) = ok none
tightest best (ok (r ∷ rs)) = ok (some (best, (least r rs).1))

abbrev pub holds : Option ℤ → List ℤ → Bool
holds none ms = false
holds (some m) ms = any (λ m'. m' == m) ms

abbrev pub or_else : Option ℤ → ℤ → ℤ
or_else none m = m
or_else (some m) m' = m

-- `minimum` is the fraction `num / den`.
unfoldable pub choose_ranked :
    Dict ℤ MapGrid → ℕ → Option ℤ → ℕ → ℕ → List Ranked → Result (Option Ranked)
unfolding tied_maps sized tightest
choose_ranked grids total current_id num den [] = ok none
choose_ranked grids total current_id num den ((best, m) ∷ rs) =
    let tied = tied_maps total best ((best, m) ∷ rs) in
    if ltb (best * den) (num * total)
    then ok none
    else if holds current_id tied
    then ok (some (best, or_else current_id m))
    else tightest best (sized grids tied)

-- choose_map_for_positions
unfoldable pub choose_map_for_positions :
    Dict ℤ MapGrid → Points → Option ℤ → ℕ → ℕ → Result (Option Ranked)
unfolding find_map_for_positions choose_ranked
choose_map_for_positions grids points current_id num den =
    choose_ranked grids (length points) current_id num den
      (find_map_for_positions grids points (length grids.items))
