-- ===== src/Tests/MapData.antt =====
-- Runs of mapdata.py, and its theorems at concrete inputs.
use nostale_packet_logger.Base.{
  ℕ, ◌≡◌, ◌↔◌, refl, true, none, some, Option, List, [], ◌∷◌, ◌++◌, length, ◌≤◌, ◌+◌, ◌*◌, ◌⊎◌,
  arith,
}
use nostale_packet_logger.Base.Int.{ℤ, pos, ◌+ℤ◌, ◌-ℤ◌}
use nostale_packet_logger.Base.Keys.{Cell, cell_eq, int_eq}
use nostale_packet_logger.Base.Dict.{Dict, get, put, remove}
use nostale_packet_logger.Python.{codes, starts_with}
use nostale_packet_logger.Python.Errors.{ok}
use nostale_packet_logger.MapData.{MapGrid, at, inside, is_walkable, neighbours, walkable_count}
use nostale_packet_logger.MapData.Steps.{listed, IsStep, listed-neighbours, neighbours_back}
use nostale_packet_logger.MapData.Archive.{load_nstc}
use nostale_packet_logger.MapData.Grids.{IsFull, IsLoaded, load_nstc-IsLoaded}
use nostale_packet_logger.MapData.Search.{
  Node, node_eq, astar, epsilon, octile, step_cost, search_fuel,
}
use nostale_packet_logger.MapData.Search.Trace.{Route, route_cost}
use nostale_packet_logger.MapData.Search.Routes.{astar_cheapest, astar_decides}
use nostale_packet_logger.MapData.Portals.{set_gate, normalize_portals, is_time_space_map}
use nostale_packet_logger.MapData.Choice.{choose_map_for_positions}
use nostale_packet_logger.MapData.Choice.Chosen.{IsChoice, choose_map-IsChoice}

-- A room of three by three cells, blocked at (1, 0).
abbrev room : MapGrid
room = record {
  map_id = pos 1;
  width = 3;
  height = 3;
  cells = 0 ∷ 1 ∷ 0 ∷ 0 ∷ 0 ∷ 0 ∷ 0 ∷ 0 ∷ 0 ∷ [];
}

-- No corner is cut on the way out of the cell next to the wall.
neighbours-room : neighbours room (pos 0) (pos 0) ≡ (pos 0, pos 1) ∷ []
unfolding neighbours is_walkable ◌+ℤ◌
neighbours-room = refl

walkable_room : walkable_count room ≡ 8
unfolding walkable_count
walkable_room = refl

neighbours_example :
    (listed (pos 1) (pos 1) (neighbours room (pos 0) (pos 0)) ≡ true)
    ↔ IsStep room (pos 0) (pos 0) (pos 1) (pos 1)
neighbours_example = listed-neighbours room (pos 0) (pos 0) (pos 1) (pos 1)

neighbours_back_example : listed (pos 0) (pos 0) (neighbours room (pos 0) (pos 1)) ≡ true
unfolding neighbours is_walkable ◌+ℤ◌
neighbours_back_example = neighbours_back room (pos 0) (pos 0) (pos 0) (pos 1) refl refl

-- An archive with the map 1, of two by two cells, stored as it is.
abbrev archive : List ℕ
archive =
    codes "NT Data 05......"
    ++ (1 ∷ 0 ∷ 0 ∷ 0 ∷ 0 ∷ []
        ++ (1 ∷ 0 ∷ 0 ∷ 0 ∷ 29 ∷ 0 ∷ 0 ∷ 0 ∷ []
            ++ (9 ∷ 9 ∷ 9 ∷ 9 ∷ 8 ∷ 0 ∷ 0 ∷ 0 ∷ 8 ∷ 0 ∷ 0 ∷ 0 ∷ 0 ∷ []
                ++ 2 ∷ 0 ∷ 2 ∷ 0 ∷ 0 ∷ 0 ∷ 1 ∷ 0 ∷ [])))

abbrev no_zlib : List ℕ → Option (List ℕ)
no_zlib payload = none

abbrev small : MapGrid
small = record { map_id = pos 1; width = 2; height = 2; cells = 0 ∷ 0 ∷ 1 ∷ 0 ∷ [] }

abbrev small_grids : Dict ℤ MapGrid
small_grids = record { items = (pos 1, small) ∷ [] }

load_small : load_nstc no_zlib (some archive) ≡ ok small_grids
unfolding load_nstc put starts_with
load_small = refl

load_nstc_example :
    IsLoaded (pos 1) small
    × ((x y : ℤ) → (inside small x y ≡ true) ↔ ((c : ℕ) × (at small x y ≡ some c)))
unfolding get
load_nstc_example =
    load_nstc-IsLoaded no_zlib (some archive) small_grids load_small (pos 1) small refl

-- Both maps hold the point, and the first has it blocked.
abbrev two_grids : Dict ℤ MapGrid
two_grids = record { items = (pos 1, small) ∷ (pos 2, record room { map_id = pos 2 }) ∷ [] }

choose_room :
    choose_map_for_positions two_grids ((pos 0, pos 1) ∷ []) none 3 5 ≡ ok (some (1, pos 2))
unfolding choose_map_for_positions is_walkable get
choose_room = refl

choose_map_example : IsChoice ((pos 0, pos 1) ∷ []) two_grids.items 3 5 (1, pos 2)
choose_map_example =
    choose_map-IsChoice two_grids ((pos 0, pos 1) ∷ []) none 3 5 (1, pos 2) choose_room

abbrev one_portal : Dict Cell ℤ
one_portal = record { items = ((pos 1, pos 10, pos 20), pos 2) ∷ [] }

abbrev guessed : Cell
guessed = (pos 1, pos 10, pos 20)

abbrev gate_cell : Cell
gate_cell = (pos 1, pos 12, pos 21)

set_gate_run :
    set_gate one_portal (pos 1, pos 12, pos 21) (pos 2) (pos 3)
    ≡ (true, record { items = ((pos 1, pos 12, pos 21), pos 2) ∷ [] })
unfolding set_gate get put ◌-ℤ◌ remove
set_gate_run = refl

-- Markers at x = 10 and x = 11 are merged at 10: a half is rounded to even.
normalize_run :
    normalize_portals
      (record { items = ((pos 1, pos 11, pos 20), pos 2) ∷ ((pos 1, pos 10, pos 20), pos 2) ∷ [] })
      (pos 2)
    ≡ one_portal
unfolding normalize_portals put ◌-ℤ◌ ◌+ℤ◌
normalize_run = refl

time_space_run : is_time_space_map (some (pos 2110)) ≡ true
unfolding is_time_space_map
time_space_run = refl

-- Round the wall of the room, and two cells that need no diagonal step.
astar-room :
    astar room (pos 0, pos 0) (pos 2, pos 0)
    ≡ some (some ((pos 0, pos 1) ∷ (pos 1, pos 1) ∷ (pos 2, pos 1) ∷ (pos 2, pos 0) ∷ []))
unfolding astar search_fuel is_walkable get put neighbours ◌+ℤ◌ step_cost octile ◌-ℤ◌
astar-room = refl

-- A way across the corner, in one straight step and one diagonal one.
abbrev across : List Node
across = (pos 0, pos 1) ∷ (pos 1, pos 2) ∷ []

across-Route : Route room (pos 0, pos 0) across (pos 1, pos 2)
unfolding neighbours is_walkable ◌+ℤ◌
across-Route = (
  (listed-neighbours room (pos 0) (pos 0) (pos 0) (pos 1)).0 refl,
  ((listed-neighbours room (pos 0) (pos 1) (pos 1) (pos 2)).0 refl, refl),
)

room_open : is_walkable room (pos 0) (pos 0) ≡ true
unfolding is_walkable
room_open = refl

astar_cheapest_example :
    (path : List Node) × (astar room (pos 0, pos 0) (pos 1, pos 2) ≡ some (some path))
    × Route room (pos 0, pos 0) path (pos 1, pos 2)
    × (route_cost (pos 0, pos 0) path ≤ route_cost (pos 0, pos 0) across + epsilon * length across)
astar_cheapest_example =
    astar_cheapest room (pos 0, pos 0) (pos 1, pos 2) across room_open across-Route

room-IsFull : IsFull room
room-IsFull = record {
  cells = refl;
  width = (omega arith, omega arith);
  height = (omega arith, omega arith);
}

-- The blocked cell as the goal.
astar_decides_example :
    ((x y : ℤ) → inside room x y ≡ true → (c : ℕ) × (at room x y ≡ some c))
    × (((path : List Node) × (astar room (pos 0, pos 0) (pos 1, pos 0) ≡ some (some path))
          × (is_walkable room (pos 0) (pos 0) ≡ true)
          × Route room (pos 0, pos 0) path (pos 1, pos 0))
        ⊎ ((astar room (pos 0, pos 0) (pos 1, pos 0) ≡ some none)
            × ((ns : List Node)
                → is_walkable room (pos 0) (pos 0) ≡ true
                → Route room (pos 0, pos 0) ns (pos 1, pos 0)
                → ⊥)))
astar_decides_example = astar_decides room (pos 0, pos 0) (pos 1, pos 0) room-IsFull
