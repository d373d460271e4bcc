-- ===== src/Bot.antt =====
-- linux/host/ntpl/gui.py: the bot of the window, as far as it decides and acts: `_bot_tick` and what
-- it calls. A widget is its value, in Settings. Texts for the status bar, redraws and the timers that
-- space out warnings are left out. Times are whole microseconds; the clock is read once in a tick.
pub mod Targets
pub mod Rules
pub mod Actions
pub mod Parts
pub mod Combat
pub mod Tick
pub mod Nearest
pub mod Ready
mod Choice
pub mod Sends
pub mod Fair
mod WalkSends
mod TickSends
pub mod WholeTick
mod Lapse
pub mod Timeout
pub mod Travel
pub mod Start
pub mod Legs
use Prim.Native.Nat.{max}
use nostale_packet_logger.Base.{
  ℕ, Bool, true, false, Option, none, some, List, [], ◌∷◌, ◌++◌, if◌then◌else◌, ltb,
}
use nostale_packet_logger.Base.Int.{ℤ, pos, nat_abs, ◌-ℤ◌, ◌+ℤ◌, ltb_ℤ}
use nostale_packet_logger.Base.Keys.{Text, ◌==◌, int_eq, nat_eq}
use nostale_packet_logger.Base.Dict.{Dict, get}
use nostale_packet_logger.World.{WorldState, Entity, position}
use nostale_packet_logger.Spells.{SpellInfo}
use nostale_packet_logger.MapData.{MapGrid}

pub data MonsterMode : Type 0 where
  all only except : MonsterMode

pub data Subject : Type 0 where
  always my_hp my_mp : Subject

pub data Comparator : Type 0 where
  below above : Comparator

pub data SpellTarget : Type 0 where
  monster self : SpellTarget

-- SpellRule, as the rows of the window make it: the threshold is a whole percentage.
pub record Rule : Type 0 where
  pub enabled : Bool
  pub spell : ℤ
  pub subject : Subject
  pub comparator : Comparator
  pub threshold : ℕ
  pub cooldown : ℤ
  pub target : SpellTarget

pub record Settings : Type 0 where
  pub auto_attack : Bool
  pub retaliate : Bool
  pub skill : ℤ
  pub attack_range : ℕ
  pub attack_cooldown : ℤ
  pub pickup : Bool
  pub loot_range : ℕ
  pub recover : Bool
  pub low_hp_pct : ℕ
  pub loop : Bool
  pub monster_mode : MonsterMode
  pub target_vnums : List ℤ
  pub attack_unknown : Bool
  pub rules : List Rule

-- A line for the DLL. `cast slot kind target` is the packet that the template makes of the three.
pub data Command : Type 0 where
  rest : ℤ → Command
  take_drop : ℤ → ℤ → Command
  ncif : ℤ → Command
  cast : ℤ → ℤ → ℤ → Command
  select_entity : ℤ → Command
  move : ℤ → ℤ → Command
  where_am_i : Command

-- The client: connected, not connected, or connected to a link that the next send finds broken. That
-- send closes the client and raises ConnectionLost; the sends after it find it not connected.
pub data Link : Type 0 where
  up down failing : Link

-- The attributes of Application that the bot reads and writes, with the clocks of a tick and what
-- has been sent.
pub record Bot : Type 0 where
  pub running : Bool
  pub link : Link
  pub now : ℤ
  pub wall : ℤ
  pub settings : Settings
  pub world : WorldState
  pub map_grid : Option MapGrid
  pub spells : Dict ℤ SpellInfo
  pub log_vnums : Dict ℤ ℤ
  pub log_skill_list : List ℤ
  pub log_skill_slots : Dict ℤ ℤ
  pub char_id : Option ℤ
  pub pos_cell : Option (ℤ × ℤ)
  pub pos_at : ℤ
  pub dll_target_supported : Bool
  pub target_blocked : Dict ℤ ℤ
  pub bot_goals : List (ℤ × ℤ)
  pub path_index : ℕ
  pub pending_target : Option (ℤ × ℤ)
  pub pending_since : ℤ
  pub pending_until : ℤ
  pub pending_distance : ℕ
  pub travel_pos_at : ℤ
  pub last_move : Option (ℤ × ℤ × ℤ × ℤ)
  pub last_move_time : ℤ
  pub rejected_walks : ℕ
  pub recovering : Bool
  pub recover_rest_at : ℤ
  pub stand_sent_until : ℤ
  pub attack_cooldown_until : ℤ
  pub walk_not_before : ℤ
  pub last_attack_sent_at : ℤ
  pub last_cancel_count : ℕ
  pub spell_last_cast : Dict ℕ ℤ
  pub pickup_cooldown_until : ℤ
  pub pickup_attempts : Dict ℤ ℕ
  pub pickup_ignored : Dict ℤ ℤ
  pub sent : List Command

-- x or y, of an optional integer: None and 0 are false.
abbrev pub nonzero_or : Option ℤ → Option ℤ → Option ℤ
nonzero_or none other = other
nonzero_or (some n) other = if n == pos 0 then other else some n

-- _char_id
unfoldable pub own_char_id : Bot → Option ℤ
own_char_id b = nonzero_or b.char_id b.world.self_id

unfoldable pub entity_cell : Option Entity → Option (ℤ × ℤ)
entity_cell none = none
entity_cell (some e) = some (e.x, e.y)

unfoldable pub tracked_cell : Bot → Option ℤ → Option (ℤ × ℤ)
unfolding entity_cell
tracked_cell b none = none
tracked_cell b (some id) = entity_cell (get b.world.entities id)

unfoldable pub known_cell : Bot → Option (ℤ × ℤ) → Option (ℤ × ℤ)
unfolding tracked_cell own_char_id
known_cell b (some cell) = some cell
known_cell b none = tracked_cell b (own_char_id b)

abbrev fresh_cell : Option (ℤ × ℤ) → Bool → Option (ℤ × ℤ)
fresh_cell (some cell) true = some cell
fresh_cell _ _ = none

abbrev cell_or : Option (ℤ × ℤ) → Option (ℤ × ℤ) → Option (ℤ × ℤ)
cell_or (some cell) other = some cell
cell_or none other = other

-- _player_cell: a position that the DLL reported in the last 1.5 seconds comes first.
unfoldable pub player_cell : Bot → Option (ℤ × ℤ)
unfolding known_cell position
player_cell b =
    cell_or (fresh_cell b.pos_cell (ltb_ℤ (b.now -ℤ b.pos_at) (pos 1500000)))
      (known_cell b (position b.world))

-- max(abs(…), abs(…))
unfoldable pub cells_between : ℤ × ℤ → ℤ × ℤ → ℕ
cells_between (x, y) (px, py) = max (nat_abs (x -ℤ px)) (nat_abs (y -ℤ py))
