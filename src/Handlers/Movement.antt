-- ===== src/Handlers/Movement.antt =====
-- The handlers of engine.py for the own position and the current map: `walk`, `c_map`, `mapout`,
-- `at`, `mv` and `tp`. Each clause for a list is the unpacking of what `ints` returned.
use nostale_packet_logger.Base.{
  Bool, false, not, ◌&&◌, ◌||◌, Option, none, some, List, [], ◌∷◌, if◌then◌else◌,
}
use nostale_packet_logger.Base.Int.{ℤ, pos, negsuc, ◌-ℤ◌, leb_ℤ, ltb_ℤ}
use nostale_packet_logger.Base.Keys.{Cell, ◌==◌, int_eq, cell_eq}
use nostale_packet_logger.Base.Dict.{Dict, empty, get, put}
use nostale_packet_logger.Protocol.{Packet, ints}
use nostale_packet_logger.Python.Errors.{type_error}
use nostale_packet_logger.World.{Entity, new_entity, WorldState, position}
use nostale_packet_logger.Handlers.{Outcome, returned, raised_in}

-- (d > 0) - (d < 0)
abbrev pub sign : ℤ → ℤ
sign d = if ltb_ℤ (pos 0) d then pos 1 else if ltb_ℤ d (pos 0) then negsuc 0 else pos 0

unfoldable pub turn : ℤ → ℤ → Option (ℤ × ℤ) → Option (ℤ × ℤ)
turn dx dy old = if not (dx == pos 0) || not (dy == pos 0) then some (sign dx, sign dy) else old

unfoldable pub facing_after : Option (ℤ × ℤ) → ℤ → ℤ → Option (ℤ × ℤ) → Option (ℤ × ℤ)
unfolding turn
facing_after none x y old = old
facing_after (some (x', y')) x y old = turn (x -ℤ x') (y -ℤ y') old

unfoldable pub walk_to : WorldState → Option (List ℤ) → WorldState
unfolding facing_after position
walk_to w (some (x ∷ y ∷ [])) =
    if leb_ℤ (pos 0) x && leb_ℤ (pos 0) y
    then record w { facing = facing_after (position w) x y w.facing; x = some x; y = some y }
    else w
walk_to w _ = w

-- _on_walk
unfoldable pub on_walk : WorldState → Packet → WorldState
unfolding walk_to
on_walk w p = walk_to w (ints 2 p)

unfoldable pub departure : Option ℤ → Option (ℤ × ℤ) → Option Cell → Option Cell
departure (some m) (some (x, y)) old = some (m, x, y)
departure _ _ old = old

-- _remember_departure
unfoldable pub remember_departure : WorldState → WorldState
unfolding departure position
remember_departure w = record w {
  pending_departure = departure w.map_id (position w) w.pending_departure;
}

unfoldable pub enter_map : WorldState → ℤ → WorldState
enter_map w m = record w { map_id = some m; entities = empty; drops = empty }

-- `len(None)` is a TypeError.
unfoldable pub change_map : WorldState → Option (List ℤ) → Outcome
unfolding remember_departure enter_map
change_map w none = raised_in w type_error
change_map w (some []) = returned (record w { entities = empty; drops = empty })
change_map w (some (m ∷ [])) = returned (enter_map w m)
change_map w (some (_ ∷ m ∷ [])) = returned (enter_map w m)
change_map w (some (_ ∷ m ∷ state ∷ _)) =
    returned (enter_map (if state == pos 0 then remember_departure w else w) m)

-- _on_map
unfoldable pub on_map : WorldState → Packet → Outcome
unfolding change_map
on_map w p = change_map w (ints 3 p)

-- _on_mapout
unfoldable pub on_mapout : WorldState → Packet → WorldState
unfolding remember_departure
on_mapout w p = record (remember_departure w) { entities = empty; drops = empty }

-- Both directions of a crossing become portals.
unfoldable pub learn_portals : Option Cell → ℤ → ℤ → ℤ → Dict Cell ℤ → Dict Cell ℤ
learn_portals none m x y portals = portals
learn_portals (some (m', x', y')) m x y portals =
    if m == m' then portals else put (put portals (m', x', y') m) (m, x, y) m'

abbrev pub other_map : Option ℤ → ℤ → Bool
other_map none m = false
other_map (some m') m = not (m == m')

unfoldable pub arrive : WorldState → Option (List ℤ) → WorldState
unfolding learn_portals
arrive w (some (char_id ∷ m ∷ x ∷ y ∷ [])) = record w {
  portals = learn_portals w.pending_departure m x y w.portals;
  pending_departure = none;
  entities = if other_map w.map_id m then empty else w.entities;
  drops = if other_map w.map_id m then empty else w.drops;
  self_id = some char_id;
  map_id = some m;
  x = some x;
  y = some y;
}
arrive w _ = w

-- _on_position
unfoldable pub on_position : WorldState → Packet → WorldState
unfolding arrive
on_position w p = arrive w (ints 4 p)

abbrev pub is_self : WorldState → ℤ → Bool
is_self w entity_id = elim w.self_id [ none ↦ false | some s ↦ entity_id == s ]

-- world.entities.setdefault(entity_id, Entity(entity_id, kind))
abbrev pub entity_or_new : Dict ℤ Entity → ℤ → ℤ → Entity
entity_or_new entities entity_id kind = elim (get entities entity_id) [
  | none ↦ new_entity entity_id kind
  | some e ↦ e
]

unfoldable pub move_to : WorldState → Option (List ℤ) → WorldState
move_to w (some (kind ∷ entity_id ∷ x ∷ y ∷ _ ∷ [])) = record w {
  entities =
      put w.entities entity_id
        (record (entity_or_new w.entities entity_id kind) { kind = kind; x = x; y = y });
  x = if is_self w entity_id then some x else w.x;
  y = if is_self w entity_id then some y else w.y;
}
move_to w _ = w

-- _on_move
unfoldable pub on_move : WorldState → Packet → WorldState
unfolding move_to
on_move w p = move_to w (ints 5 p)

-- Unlike a move, a teleport leaves the kind of a known entity alone.
unfoldable pub teleport_to : WorldState → Option (List ℤ) → WorldState
teleport_to w (some (kind ∷ entity_id ∷ x ∷ y ∷ [])) = record w {
  entities =
      put w.entities entity_id (record (entity_or_new w.entities entity_id kind) { x = x; y = y });
  x = if is_self w entity_id then some x else w.x;
  y = if is_self w entity_id then some y else w.y;
}
teleport_to w _ = w

-- _on_teleport
unfoldable pub on_teleport : WorldState → Packet → WorldState
unfolding teleport_to
on_teleport w p = teleport_to w (ints 4 p)
