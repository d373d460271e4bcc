-- ===== src/Handlers/Spawns.antt =====
-- The handlers of engine.py for what stands and lies on the map: `in`, `out`, `st`, `drop`, `get`.
use nostale_packet_logger.Base.{
  ℕ, ◌&&◌, ◌||◌, Option, none, some, List, [], ◌∷◌, if◌then◌else◌, get_elem?, length, ltb,
}
use nostale_packet_logger.Base.Int.{ℤ, pos}
use nostale_packet_logger.Base.Keys.{Text, ◌==◌, int_eq}
use nostale_packet_logger.Base.Dict.{put, remove}
use nostale_packet_logger.Base.Options.{◌>>=◌}
use nostale_packet_logger.Protocol.{Packet, args, ints}
use nostale_packet_logger.Python.{codes, split, split_max, int?}
use nostale_packet_logger.World.{WorldState}
use nostale_packet_logger.Handlers.Movement.{entity_or_new}

-- What a player's spawn packet says.
pub record PlayerSpawn : Type 0 where
  pub name : Text
  pub char_id : ℤ
  pub x : ℤ
  pub y : ℤ

-- `a, b = parts`; any other number of parts is a ValueError.
abbrev pub two : List Text → Option (Text × Text)
two (a ∷ b ∷ []) = some (a, b)
two _ = none

-- int(values[i]); `none` is an IndexError or a ValueError.
abbrev pub int_at : List Text → ℕ → Option ℤ
int_at values i = do v ← get_elem? values i; int? v

-- in 1 <name> - <charId> <x> <y>: the name may hold spaces.
unfoldable pub read_player : Text → Option PlayerSpawn
read_player text = do
  (_, behind_opcode) ← two (split_max 1 (codes " ") text)
  (_, behind_type) ← two (split_max 1 (codes " ") behind_opcode)
  (name, tail) ← two (split_max 1 (codes " - ") behind_type)
  char_id ← int_at (split tail) 0
  x ← int_at (split tail) 1
  y ← int_at (split tail) 2
  some (record { name = name; char_id = char_id; x = x; y = y })

unfoldable pub spawn_player : WorldState → Option PlayerSpawn → WorldState
spawn_player w none = w
spawn_player w (some s) = record w {
  entities =
      put w.entities s.char_id
        (record (entity_or_new w.entities s.char_id (pos 1)) { name = s.name; x = s.x; y = s.y });
}

-- What the spawn packet of an NPC or a monster says; a vnum that is no number is not fatal.
pub record NpcSpawn : Type 0 where
  pub entity_id : ℤ
  pub x : ℤ
  pub y : ℤ
  pub vnum : Option ℤ

-- in <type> <vnum> <entityId> <x> <y>
unfoldable pub read_npc : List Text → Option NpcSpawn
read_npc values = if ltb (length values) 5 then none else do
  entity_id ← int_at values 2
  x ← int_at values 3
  y ← int_at values 4
  some (record { entity_id = entity_id; x = x; y = y; vnum = int_at values 1 })

unfoldable pub or_else : Option ℤ → ℤ → ℤ
or_else none old = old
or_else (some new) old = new

unfoldable pub spawn_npc : WorldState → ℤ → Option NpcSpawn → WorldState
unfolding or_else
spawn_npc w kind none = w
spawn_npc w kind (some s) =
    let old = entity_or_new w.entities s.entity_id kind in
    record w {
      entities =
          put w.entities s.entity_id
            (record old { kind = kind; vnum = or_else s.vnum old.vnum; x = s.x; y = s.y });
    }

unfoldable pub spawn_kind : WorldState → Packet → Option ℤ → WorldState
unfolding spawn_player spawn_npc
spawn_kind w p none = w
spawn_kind w p (some kind) =
    if kind == pos 1
    then spawn_player w (read_player p.text)
    else if kind == pos 2 || kind == pos 3
    then spawn_npc w kind (read_npc (args p))
    else w

-- _on_spawn
unfoldable pub on_spawn : WorldState → Packet → WorldState
unfolding spawn_kind
on_spawn w p = spawn_kind w p (int_at (args p) 0)

unfoldable pub despawn : WorldState → Option (List ℤ) → WorldState
despawn w (some (_ ∷ entity_id ∷ [])) = record w { entities = remove w.entities entity_id }
despawn w _ = w

-- _on_despawn
unfoldable pub on_despawn : WorldState → Packet → WorldState
unfolding despawn
on_despawn w p = despawn w (ints 2 p)

-- (kind, entity id, hp) of an `st` packet.
unfoldable pub read_status : List Text → Option (ℤ × ℤ × ℤ)
read_status values = if ltb (length values) 9 then none else do
  kind ← int_at values 0
  entity_id ← int_at values 1
  hp ← int_at values 6
  some (kind, entity_id, hp)

-- A status with no HP left is the notice of death.
unfoldable pub bury : WorldState → Option (ℤ × ℤ × ℤ) → WorldState
bury w none = w
bury w (some (kind, entity_id, hp)) =
    if (kind == pos 2 || kind == pos 3) && hp == pos 0
    then record w { entities = remove w.entities entity_id }
    else w

-- _on_status
unfoldable pub on_status : WorldState → Packet → WorldState
unfolding bury
on_status w p = bury w (read_status (args p))

unfoldable pub drop_item : WorldState → Option (List ℤ) → WorldState
drop_item w (some (item_vnum ∷ drop_id ∷ x ∷ y ∷ amount ∷ _ ∷ owner_id ∷ [])) = record w {
  drops = put w.drops drop_id (record {
    drop_id = drop_id;
    item_vnum = item_vnum;
    x = x;
    y = y;
    amount = amount;
    owner_id = owner_id;
  });
}
drop_item w _ = w

-- _on_drop
unfoldable pub on_drop : WorldState → Packet → WorldState
unfolding drop_item
on_drop w p = drop_item w (ints 7 p)

unfoldable pub take_item : WorldState → Option (List ℤ) → WorldState
take_item w (some (_ ∷ _ ∷ drop_id ∷ _ ∷ [])) = record w { drops = remove w.drops drop_id }
take_item w _ = w

-- _on_get
unfoldable pub on_get : WorldState → Packet → WorldState
unfolding take_item
on_get w p = take_item w (ints 4 p)
