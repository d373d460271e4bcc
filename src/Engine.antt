-- ===== src/Engine.antt =====
-- linux/host/ntpl/engine.py: the table of handlers, and `feed`.
pub mod WellFormed
pub mod Reach
pub mod Raises
pub mod Portals
pub mod Entities
pub mod Deaths
pub mod Relocation
pub mod SkillSlots
pub mod SkillOrder
pub mod Dispatch
pub mod Chat
use nostale_packet_logger.Base.{
  Bool, true, false, ◌||◌, Option, none, some, List, [], ◌∷◌, if◌then◌else◌,
}
use nostale_packet_logger.Base.Int.{pos}
use nostale_packet_logger.Base.Keys.{Text, text_eq}
use nostale_packet_logger.Base.Dict.{Dict, get, put}
use nostale_packet_logger.Python.{codes}
use nostale_packet_logger.Python.Errors.{Exception, index_error, key_error, is_value_error}
use nostale_packet_logger.Protocol.{Kind, Packet, opcode}
use nostale_packet_logger.World.{WorldState, new_world}
use nostale_packet_logger.Handlers.{Outcome, Handler, returned}
use nostale_packet_logger.Handlers.Movement.{
  on_walk, on_map, on_mapout, on_position, on_move, on_teleport,
}
use nostale_packet_logger.Handlers.Spawns.{on_spawn, on_despawn, on_status, on_drop, on_get}
use nostale_packet_logger.Handlers.Status.{
  on_rest, on_condition, on_select, on_gate, on_waypoint, on_cancel, on_stats, on_chat,
}
use nostale_packet_logger.Handlers.Skills.{on_skill_list, on_skill_send, on_skill_used}

pub record Engine : Type 0 where
  pub world : WorldState
  pub handlers : Dict Text Handler

-- A handler that does not raise.
abbrev pub total : (WorldState → Packet → WorldState) → Handler
total f w p = returned (f w p)

-- The table of _register_defaults.
unfoldable pub default_handlers : Dict Text Handler
default_handlers = record {
  items =
      (codes "walk", total on_walk)
      ∷ (codes "c_map", on_map)
      ∷ (codes "mapout", total on_mapout)
      ∷ (codes "at", total on_position)
      ∷ (codes "mv", total on_move)
      ∷ (codes "drop", total on_drop)
      ∷ (codes "get", total on_get)
      ∷ (codes "in", total on_spawn)
      ∷ (codes "out", total on_despawn)
      ∷ (codes "st", total on_status)
      ∷ (codes "tp", total on_teleport)
      ∷ (codes "rest", total on_rest)
      ∷ (codes "cond", total on_condition)
      ∷ (codes "ncif", total on_select)
      ∷ (codes "u_s", total on_skill_send)
      ∷ (codes "gp", total on_gate)
      ∷ (codes "wp", total on_waypoint)
      ∷ (codes "ski", total on_skill_list)
      ∷ (codes "su", total on_skill_used)
      ∷ (codes "cancel", total on_cancel)
      ∷ (codes "stat", total on_stats)
      ∷ (codes "say", total on_chat)
      ∷ [];
}

-- Engine(world)
unfoldable pub new_engine : Option WorldState → Engine
new_engine none = record { world = new_world; handlers = default_handlers }
new_engine (some w) = record { world = w; handlers = default_handlers }

-- Engine.on
unfoldable pub on : Engine → Text → Handler → Engine
on e op h = record e { handlers = put e.handlers op h }

-- `except (ValueError, IndexError, KeyError)`: what is not caught goes on to the caller of `feed`.
unfoldable pub is_caught : Exception → Bool
unfolding is_value_error
is_caught index_error = true
is_caught key_error = true
is_caught e = is_value_error e

abbrev pub uncaught : Option Exception → Option Exception
uncaught none = none
uncaught (some e) = if is_caught e then none else some e

unfoldable pub handle : Option Handler → WorldState → Packet → Outcome
handle none w p = returned w
handle (some h) w p = h w p

-- Engine.feed: the engine after the packet, and the exception that leaves it, if any.
unfoldable pub feed : Engine → Packet → Engine × Option Exception
unfolding handle
feed e p =
    let w = record e.world { last_packet = some p } in
    let o = handle (get e.handlers (opcode p)) w p in
    (record e { world = o.world }, uncaught o.raised)

-- Engine.feed_text, its direction already a kind.
unfoldable pub feed_text : Engine → Kind → Text → Engine × Option Exception
unfolding feed
feed_text e direction text =
    feed e (record { direction = direction; text = text; timestamp = pos 0 })
