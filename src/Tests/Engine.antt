-- ===== src/Tests/Engine.antt =====
-- Runs of engine.py, and its theorems at concrete inputs.
use nostale_packet_logger.Base.{
  ℕ, ◌≡◌, ◌≢◌, ◌↔◌, refl, true, none, some, List, [], ◌∷◌, ◌⊎◌, inr, arith, if◌then◌else◌, length,
  drop, ◌-◌, ◌<◌,
}
use nostale_packet_logger.Base.Int.{ℤ, pos, ◌≤ℤ◌, ◌<ℤ◌, ◌-ℤ◌}
use nostale_packet_logger.Base.Keys.{Text, ◌==◌, int_eq, cell_eq, text_eq}
use nostale_packet_logger.Base.Dict.{Dict, get, put, remove, empty}
use nostale_packet_logger.Python.{codes, split, int?, split_max, split_once}
use nostale_packet_logger.Python.Errors.{type_error, value_error}
use nostale_packet_logger.Protocol.{recv, send, Packet, opcode, args, ints}
use nostale_packet_logger.World.{
  Entity, WorldState, new_world, chat_max, position, skill_slot, skill_vnum,
}
use nostale_packet_logger.Handlers.{Handler, raised_in}
use nostale_packet_logger.Handlers.Movement.{
  sign, on_walk, on_map, on_mapout, on_position, on_move, on_teleport,
}
use nostale_packet_logger.Handlers.Spawns.{
  NpcSpawn, int_at, read_npc, read_status, on_spawn, on_despawn, on_status,
}
use nostale_packet_logger.Handlers.Status.{say_line}
use nostale_packet_logger.Handlers.Skills.{
  contains, ordered_skills, on_skill_send, on_skill_used, on_skill_list,
}
use nostale_packet_logger.Engine.{new_engine, on, uncaught, feed}
use nostale_packet_logger.Engine.WellFormed.{IsWellFormed, new_world-IsWellFormed}
use nostale_packet_logger.Engine.WellFormed.Skills.{on_skill_list-IsWellFormed}
use nostale_packet_logger.Engine.Reach.{made, fed, Reach-IsWellFormed}
use nostale_packet_logger.Engine.Raises.{feed-raises}
use nostale_packet_logger.Engine.Portals.{Crossing, Crossing-sequence}
use nostale_packet_logger.Engine.Entities.{spawn_move_despawn, walk_moves}
use nostale_packet_logger.Engine.Deaths.{Reported, on_status-Reported}
use nostale_packet_logger.Engine.Relocation.{Relocated, moves_relocate}
use nostale_packet_logger.Engine.SkillSlots.{answer_in_time, answer_too_late}
use nostale_packet_logger.Engine.SkillOrder.{Distinct, ordered_skills_lem, skill_slot-skill_vnum}
use nostale_packet_logger.Engine.Dispatch.{feed-on}
use nostale_packet_logger.Engine.Chat.{said, hear_all, chat_history}

abbrev received : Text → Packet
received text = record { direction = recv; text = text; timestamp = pos 0 }

-- The character 7 on map 1 at (10, 20).
abbrev standing : WorldState
standing = record new_world {
  map_id = some (pos 1);
  x = some (pos 10);
  y = some (pos 20);
  self_id = some (pos 7);
}

abbrev short_map : Packet
short_map = received (codes "c_map 0")

abbrev leave : Packet
leave = received (codes "c_map 0 1 0")

abbrev out : Packet
out = received (codes "mapout")

abbrev arrive : Packet
arrive = received (codes "at 7 2 5 6 0")

abbrev spawn : Packet
spawn = received (codes "in 3 200 3481 8 9")

abbrev move : Packet
move = received (codes "mv 3 3481 11 12 5")

abbrev gone : Packet
gone = received (codes "out 3 3481")

abbrev fox : NpcSpawn
fox = record { entity_id = pos 3481; x = pos 8; y = pos 9; vnum = some (pos 200) }

abbrev walk : Packet
walk = record { direction = send; text = codes "walk 9 20 0 11"; timestamp = pos 0 }

walk-ints : ints 2 walk ≡ some (pos 9 ∷ pos 20 ∷ [])
unfolding ints args split int?
walk-ints = refl

leave-ints : ints 3 leave ≡ some (pos 0 ∷ pos 1 ∷ pos 0 ∷ [])
unfolding ints args split int?
leave-ints = refl

arrive-ints : ints 4 arrive ≡ some (pos 7 ∷ pos 2 ∷ pos 5 ∷ pos 6 ∷ [])
unfolding ints args split int?
arrive-ints = refl

move-ints : ints 5 move ≡ some (pos 3 ∷ pos 3481 ∷ pos 11 ∷ pos 12 ∷ pos 5 ∷ [])
unfolding ints args split int?
move-ints = refl

gone-ints : ints 2 gone ≡ some (pos 3 ∷ pos 3481 ∷ [])
unfolding ints args split int?
gone-ints = refl

spawn_kind : int_at (args spawn) 0 ≡ some (pos 3)
unfolding args split int?
spawn_kind = refl

spawn-fox : read_npc (args spawn) ≡ some fox
unfolding read_npc args split int?
spawn-fox = refl

stands : position standing ≡ some (pos 10, pos 20)
unfolding position
stands = refl

Reach_example : IsWellFormed (feed (new_engine none) short_map).0.world
Reach_example = Reach-IsWellFormed (fed made short_map)

-- The engine raises at a `c_map` with one argument.
feed-raises_example :
    ((feed (new_engine none) short_map).1 ≡ some type_error)
    ↔ ((type_error ≡ type_error) × (opcode short_map ≡ codes "c_map") × (ints 3 short_map ≡ none))
unfolding new_engine
feed-raises_example = feed-raises (new_engine none) short_map type_error refl

short_map_raises : (feed (new_engine none) short_map).1 ≡ some type_error
unfolding ints args split opcode split_max split_once
short_map_raises = feed-raises_example.1 (refl, refl, refl)

Crossing-sequence_example :
    Crossing
      (pos 1, pos 10, pos 20)
      (pos 2, pos 5, pos 6)
      empty
      (on_position (on_mapout (on_map standing leave).world out) arrive).portals
    × ((on_position (on_mapout (on_map standing leave).world out) arrive).pending_departure ≡ none)
Crossing-sequence_example =
    Crossing-sequence standing leave out arrive (pos 0) (pos 1) (pos 10) (pos 20) (pos 7) (pos 2)
      (pos 5) (pos 6) stands leave-ints arrive-ints (λ e. grind arith)

abbrev there : WorldState
there = on_move (on_spawn standing spawn) move

spawn_move_despawn_example :
    ((e : Entity) × (get there.entities (pos 3481) ≡ some e)
      × (e.kind ≡ pos 3)
      × (e.x ≡ pos 11)
      × (e.y ≡ pos 12)
      × ((v : ℤ) → some (pos 200) ≡ some v → e.vnum ≡ v))
    × (get (on_despawn there gone).entities (pos 3481) ≡ none)
    × ((k : ℤ) → pos 3481 ≢ k → get (on_despawn there gone).entities k ≡ get standing.entities k)
spawn_move_despawn_example =
    spawn_move_despawn standing spawn move gone fox (pos 3) (pos 11) (pos 12) (pos 5) (pos 3)
      spawn_kind (inr refl) spawn-fox move-ints gone-ints

abbrev death : Packet
death = received (codes "st 3 3481 14 0 1 100 0 108 481 108 0")

on_status-Reported_example : Reported there (on_status there death) (args death)
on_status-Reported_example = on_status-Reported there death

death_removes : get (on_status there death).entities (pos 3481) ≡ none
unfolding get put remove on_status on_move on_spawn read_status read_npc ints args split int?
death_removes = refl

abbrev teleport : Packet
teleport = received (codes "tp 3 3481 11 12")

teleport-ints : ints 4 teleport ≡ some (pos 3 ∷ pos 3481 ∷ pos 11 ∷ pos 12 ∷ [])
unfolding ints args split int?
teleport-ints = refl

moves_relocate_example :
    Relocated standing (on_move standing move) (pos 3481) (pos 11) (pos 12)
    × Relocated standing (on_teleport standing teleport) (pos 3481) (pos 11) (pos 12)
moves_relocate_example =
    moves_relocate standing move teleport (pos 3) (pos 3481) (pos 11) (pos 12) (pos 5) move-ints
      teleport-ints

walk_moves_example :
    ((pos 0 ≤ℤ pos 9)
      → (pos 0 ≤ℤ pos 20)
      → (position (on_walk standing walk) ≡ some (pos 9, pos 20))
        × ((pos 10 ≢ pos 9) ⊎ (pos 20 ≢ pos 20)
            → (on_walk standing walk).facing
              ≡ some (sign (pos 9 -ℤ pos 10), sign (pos 20 -ℤ pos 20)))
        × ((pos 10 ≡ pos 9) × (pos 20 ≡ pos 20) → (on_walk standing walk).facing ≡ standing.facing))
    × ((pos 9 <ℤ pos 0) ⊎ (pos 20 <ℤ pos 0) → on_walk standing walk ≡ standing)
walk_moves_example = walk_moves standing walk (pos 10) (pos 20) (pos 9) (pos 20) walk-ints stands

abbrev pages : Dict ℤ (List ℤ)
pages = record { items = (pos 1, pos 866 ∷ pos 867 ∷ []) ∷ (pos 0, pos 866 ∷ pos 860 ∷ []) ∷ [] }

pages_ordered : ordered_skills pages ≡ pos 866 ∷ pos 860 ∷ pos 867 ∷ []
unfolding ordered_skills get
pages_ordered = refl

ordered_skills_example :
    Distinct (ordered_skills pages)
    × ((v : ℤ)
        → (contains (ordered_skills pages) v ≡ true)
          ↔ ((k : ℤ) × (vs : List ℤ) × (get pages k ≡ some vs) × (contains vs v ≡ true)))
ordered_skills_example = ordered_skills_lem pages

abbrev ski : Packet
ski = received (codes "ski 0 866 867 866")

abbrev skilled : WorldState
skilled = on_skill_list new_world ski

skill_slot_example :
    ((v : ℤ)
      → contains skilled.skill_list v ≡ true
      → (s : ℤ) × (skill_slot skilled v ≡ some s) × (skill_vnum skilled s ≡ some v))
    × ((i : ℕ) (v : ℤ)
        → i < length skilled.skill_list
        → skill_vnum skilled (pos i) ≡ some v
        → skill_slot skilled v ≡ some (pos i))
skill_slot_example =
    skill_slot-skill_vnum skilled (on_skill_list-IsWellFormed new_world ski new_world-IsWellFormed)

abbrev cast : Packet
cast = record { direction = send; text = codes "u_s 10 3 5180"; timestamp = pos 1_000_000 }

abbrev hit : ℕ → Packet
hit at = record { direction = recv; text = codes "su 1 7 3 5180 876 9"; timestamp = pos at }

cast-ints : ints 1 cast ≡ some (pos 10 ∷ [])
unfolding ints args split int?
cast-ints = refl

ints-hit : (at : ℕ) → ints 5 (hit at) ≡ some (pos 1 ∷ pos 7 ∷ pos 3 ∷ pos 5180 ∷ pos 876 ∷ [])
unfolding ints args split int?
ints-hit at = refl

abbrev soon : WorldState
soon = on_skill_used (on_skill_send standing cast) (hit 2_000_000)

answer_in_time_example :
    (get soon.skill_learned (pos 10) ≡ some (pos 876))
    × ((other : ℤ)
        → pos 10 ≢ other
        → get soon.skill_learned other ≡ get standing.skill_learned other)
    × (soon.basic_skill ≡ (if pos 10 == pos 0 then some (pos 876) else standing.basic_skill))
    × (soon.pending_skill_slot ≡ none)
unfolding ◌-ℤ◌
answer_in_time_example =
    answer_in_time standing cast (hit 2_000_000) (pos 10) (pos 7) (pos 3) (pos 5180) (pos 876) refl
      cast-ints refl (ints-hit 2_000_000) (omega arith)

abbrev late : WorldState
late = on_skill_used (on_skill_send standing cast) (hit 7_000_000)

answer_too_late_example :
    (late.skill_learned ≡ standing.skill_learned)
    × (late.basic_skill ≡ standing.basic_skill)
    × (late.pending_skill_slot ≡ none)
unfolding ◌-ℤ◌
answer_too_late_example =
    answer_too_late standing cast (hit 7_000_000) (pos 10) (pos 7) (pos 3) (pos 5180) (pos 876) refl
      cast-ints refl (ints-hit 7_000_000) (omega arith)

abbrev unknown : Packet
unknown = received (codes "pulse 60 0")

abbrev faulty : Handler
faulty w p = raised_in w value_error

feed-on_example :
    (opcode unknown ≡ codes "pulse"
      → let o = faulty (record (new_engine none).world { last_packet = some unknown }) unknown in
        ((feed (on (new_engine none) (codes "pulse") faulty) unknown).0.world ≡ o.world)
        × ((feed (on (new_engine none) (codes "pulse") faulty) unknown).1 ≡ uncaught o.raised))
    × (opcode unknown ≢ codes "pulse"
        → ((feed (on (new_engine none) (codes "pulse") faulty) unknown).0.world
            ≡ (feed (new_engine none) unknown).0.world)
          × ((feed (on (new_engine none) (codes "pulse") faulty) unknown).1
              ≡ (feed (new_engine none) unknown).1))
feed-on_example = feed-on (new_engine none) (codes "pulse") faulty unknown

abbrev lines : List Packet
lines = received (codes "say 1 7 hello there") ∷ received (codes "say 1") ∷ []

said-lines : said lines ≡ (pos 1, pos 7, codes "hello there") ∷ []
unfolding said say_line split_max split_once int?
said-lines = refl

chat_history_example :
    (hear_all new_world lines).chat ≡ drop (length (said lines) - chat_max) (said lines)
chat_history_example = chat_history lines
