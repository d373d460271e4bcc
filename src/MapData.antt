-- ===== src/MapData.antt =====
-- linux/host/ntpl/mapdata.py: the map grids and where one can walk on them.
pub mod Steps
pub mod Archive
pub mod Grids
pub mod Portals
pub mod Choice
pub mod Search
use nostale_packet_logger.Base.{
  ℕ, ◌+◌, ◌*◌, Bool, true, false, not, ◌&&◌, ◌||◌, Option, none, some, List, [], ◌∷◌, if◌then◌else◌,
  get_elem?,
}
use nostale_packet_logger.Base.Int.{ℤ, pos, negsuc, pos_part, ◌+ℤ◌, leb_ℤ, ltb_ℤ}
use nostale_packet_logger.Base.Keys.{◌==◌, nat_eq, int_eq}

pub record MapGrid : Type 0 where
  pub map_id : ℤ
  pub width : ℕ
  pub height : ℕ
  pub cells : List ℕ

-- Open ground.
abbrev pub walkable : ℕ
walkable = 0

abbrev pub inside : MapGrid → ℤ → ℤ → Bool
inside g x y = leb_ℤ (pos 0) x && ltb_ℤ x (pos g.width) && leb_ℤ (pos 0) y && ltb_ℤ y (pos g.height)

-- MapGrid.at, for a grid with a byte for each of its cells, as every grid is that `load_nstc` makes. On
-- a grid that is too short the source raises an IndexError where this is `none`.
unfoldable pub at : MapGrid → ℤ → ℤ → Option ℕ
at g x y = if inside g x y then get_elem? g.cells (pos_part y * g.width + pos_part x) else none

-- MapGrid.is_walkable
unfoldable pub is_walkable : MapGrid → ℤ → ℤ → Bool
unfolding at
is_walkable g x y = elim (at g x y) [ none ↦ false | some cell ↦ cell == walkable ]

unfoldable pub directions : List (ℤ × ℤ)
directions =
    (pos 1, pos 0)
    ∷ (negsuc 0, pos 0)
    ∷ (pos 0, pos 1)
    ∷ (pos 0, negsuc 0)
    ∷ (pos 1, pos 1)
    ∷ (pos 1, negsuc 0)
    ∷ (negsuc 0, pos 1)
    ∷ (negsuc 0, negsuc 0)
    ∷ []

abbrev pub is_diagonal : ℤ × ℤ → Bool
is_diagonal (dx, dy) = not (dx == pos 0) && not (dy == pos 0)

-- No corner is cut.
unfoldable pub can_step : MapGrid → ℤ → ℤ → ℤ × ℤ → Bool
can_step g x y (dx, dy) =
    is_walkable g (x +ℤ dx) (y +ℤ dy)
    && (not (is_diagonal (dx, dy)) || (is_walkable g (x +ℤ dx) y && is_walkable g x (y +ℤ dy)))

unfoldable pub steps : MapGrid → ℤ → ℤ → List (ℤ × ℤ) → List (ℤ × ℤ)
unfolding can_step
steps g x y [] = []
steps g x y ((dx, dy) ∷ ds) =
    let more = steps g x y ds in if can_step g x y (dx, dy) then (x +ℤ dx, y +ℤ dy) ∷ more else more

-- MapGrid.neighbours
unfoldable pub neighbours : MapGrid → ℤ → ℤ → List (ℤ × ℤ)
unfolding steps directions
neighbours g x y = steps g x y directions

unfoldable pub count : ℕ → List ℕ → ℕ
count b [] = 0
count b (c ∷ cs) = let rest = count b cs in if c == b then 1 + rest else rest

-- MapGrid.walkable_count
unfoldable pub walkable_count : MapGrid → ℕ
unfolding count
walkable_count g = count walkable g.cells
