-- ===== src/Handlers.antt =====
-- linux/host/ntpl/engine.py: the packet handlers, one for each opcode. A handler changes the world
-- in place and may raise; what it changed before it raised stays.
pub mod Movement
pub mod Spawns
pub mod Status
pub mod Skills
use nostale_packet_logger.Base.{Option, none, some, List}
use nostale_packet_logger.Base.Int.{ℤ}
use nostale_packet_logger.Protocol.{Packet}
use nostale_packet_logger.Python.Errors.{Exception}
use nostale_packet_logger.World.{WorldState}

pub record Outcome : Type 0 where
  pub world : WorldState
  pub raised : Option Exception

abbrev pub Handler : Type 0
Handler = WorldState → Packet → Outcome

-- The handler returned.
abbrev pub returned : WorldState → Outcome
returned w = record { world = w; raised = none }

abbrev pub raised_in : WorldState → Exception → Outcome
raised_in w e = record { world = w; raised = some e }
