-- ===== src/Engine/WellFormed.antt =====
-- The well-formed worlds of linux/host/ntpl/engine.py: what holds of the tables, whatever packets
-- arrive.
pub mod Entries
pub mod Movement
pub mod Spawns
pub mod Status
pub mod Skills
use nostale_packet_logger.Base.{
  ℕ, ◌≤◌, ◌≡◌, ◌≢◌, refl, ◌⊎◌, Bool, true, false, ◌&&◌, Option, none, some, List, [], ◌∷◌, arith,
  length, All, if◌then◌else◌,
}
use nostale_packet_logger.Base.Int.{ℤ, pos, negsuc, ◌≤ℤ◌, ◌<ℤ◌}
use nostale_packet_logger.Base.Keys.{Cell, int_eq, cell_eq}
use nostale_packet_logger.Base.Each.{Each, Each-empty}
use nostale_packet_logger.World.{
  Entity, GroundItem, TimeSpace, WorldState, new_world, chat_max, combat_max,
}
use nostale_packet_logger.Handlers.Skills.{ordered_skills}

-- What is stored under an id has that id.
abbrev pub IsNamed : ℤ → Entity → Type 0
IsNamed k e = e.entity_id ≡ k

abbrev pub IsDropped : ℤ → GroundItem → Type 0
IsDropped k i = i.drop_id ≡ k

-- A gate stands at coordinates that are not negative, and leads to a map with a positive number.
abbrev pub IsGate : Cell → ℤ → Type 0
IsGate (m, x, y) destination = (pos 0 ≤ℤ x) × (pos 0 ≤ℤ y) × (pos 0 <ℤ destination)

-- A learned portal leads to another map.
abbrev pub IsCrossing : Cell → ℤ → Type 0
IsCrossing (m, x, y) destination = destination ≢ m

abbrev pub IsEntrance : Cell → TimeSpace → Type 0
IsEntrance (m, x, y) t =
    (t.map_id ≡ m) × (t.x ≡ x) × (t.y ≡ y) × (pos 0 ≤ℤ x) × (pos 0 ≤ℤ y) × (pos 0 <ℤ t.ts_id)

abbrev pub IsPage : ℤ → List ℤ → Type 0
IsPage k vnums = All (λ v. pos 0 <ℤ v) vnums

-- Both coordinates are known, or neither is.
abbrev pub SameKnown : Option ℤ → Option ℤ → Type 0
SameKnown none none = Unit
SameKnown (some x) (some y) = Unit
SameKnown _ _ = ⊥

-- One of the eight directions.
abbrev pub IsDirection : Option (ℤ × ℤ) → Type 0
IsDirection none = Unit
IsDirection (some (dx, dy)) =
    (negsuc 0 ≤ℤ dx)
    × (dx ≤ℤ pos 1)
    × (negsuc 0 ≤ℤ dy)
    × (dy ≤ℤ pos 1)
    × ((dx ≢ pos 0) ⊎ (dy ≢ pos 0))

pub record IsWellFormed (w : WorldState) : Type 0 where
  pub entities : Each IsNamed w.entities
  pub drops : Each IsDropped w.drops
  pub gates : Each IsGate w.gates
  pub portals : Each IsCrossing w.portals
  pub timespaces : Each IsEntrance w.timespaces
  pub position : SameKnown w.x w.y
  pub facing : IsDirection w.facing
  pub pages : Each IsPage w.skill_pages
  pub skills : w.skill_list ≡ ordered_skills w.skill_pages
  pub chat : length w.chat ≤ chat_max
  pub combat : length w.combat ≤ combat_max

pub new_world-IsWellFormed : IsWellFormed new_world
unfolding ordered_skills
new_world-IsWellFormed = record {
  entities = Each-empty IsNamed;
  drops = Each-empty IsDropped;
  gates = Each-empty IsGate;
  portals = Each-empty IsCrossing;
  timespaces = Each-empty IsEntrance;
  position = tt;
  facing = tt;
  pages = Each-empty IsPage;
  skills = refl;
  chat = omega arith;
  combat = omega arith;
}

pub IsWellFormed-if :
    (b : Bool) (v w : WorldState)
    → IsWellFormed v
    → IsWellFormed w
    → IsWellFormed (if b then v else w)
IsWellFormed-if true v w hv hw = hv
IsWellFormed-if false v w hv hw = hw
