-- ===== src/Tests.antt =====
-- Runs of the model on small inputs, and the theorems at concrete inputs.
mod Protocol
mod Engine
mod MapData
mod SpawnLog
mod Bot
mod BotConfig
mod GameData
mod Client
