-- ===== src/Handlers/Status.antt =====
-- The handlers of engine.py for the character and the map's fixtures: `rest`, `cond`, `ncif`,
-- `gp`, `wp`, `cancel`, `stat` and `say`.
use nostale_packet_logger.Base.{
  ◌+◌, Bool, true, false, ◌&&◌, ◌||◌, Option, none, some, List, [], ◌∷◌, if◌then◌else◌,
}
use nostale_packet_logger.Base.Int.{ℤ, pos, leb_ℤ, ltb_ℤ}
use nostale_packet_logger.Base.Keys.{Text, ◌==◌, int_eq, cell_eq}
use nostale_packet_logger.Base.Dict.{Dict, get, put}
use nostale_packet_logger.Base.Options.{◌>>=◌}
use nostale_packet_logger.Protocol.{Packet, ints}
use nostale_packet_logger.Python.{codes, split_max, int?}
use nostale_packet_logger.World.{Entity, WorldState, append_bounded, chat_max}

-- What is done to an entity that is known; an unknown one is not made.
abbrev pub update_known : Dict ℤ Entity → ℤ → (Entity → Entity) → Dict ℤ Entity
update_known entities entity_id f = elim (get entities entity_id) [
  | none ↦ entities
  | some e ↦ put entities entity_id (f e)
]

-- The own id is known and is another one.
abbrev pub is_other : Option ℤ → ℤ → Bool
is_other none entity_id = false
is_other (some s) entity_id = if entity_id == s then false else true

unfoldable pub sit : WorldState → Option (List ℤ) → WorldState
sit w (some (kind ∷ entity_id ∷ state ∷ [])) =
    if is_other w.self_id entity_id then w else record w {
      self_id = some entity_id;
      resting = some (state == pos 1);
      entities = update_known w.entities entity_id (λ e. record e { kind = kind });
    }
sit w _ = w

-- _on_rest
unfoldable pub on_rest : WorldState → Packet → WorldState
unfolding sit
on_rest w p = sit w (ints 3 p)

abbrev pub learn_self : Option ℤ → ℤ → ℤ → Option ℤ
learn_self none kind entity_id = if kind == pos 1 then some entity_id else none
learn_self (some s) kind entity_id = some s

unfoldable pub condition : WorldState → Option (List ℤ) → WorldState
condition w (some (kind ∷ entity_id ∷ _ ∷ _ ∷ speed ∷ [])) = record w {
  self_id = learn_self w.self_id kind entity_id;
  entities = update_known w.entities entity_id (λ e. record e { kind = kind; speed = speed });
}
condition w _ = w

-- _on_condition
unfoldable pub on_condition : WorldState → Packet → WorldState
unfolding condition
on_condition w p = condition w (ints 5 p)

unfoldable pub select : WorldState → Option (List ℤ) → WorldState
select w (some (_ ∷ entity_id ∷ [])) = record w { target_id = some entity_id }
select w _ = w

-- _on_select
unfoldable pub on_select : WorldState → Packet → WorldState
unfolding select
on_select w p = select w (ints 2 p)

unfoldable pub add_gate : WorldState → Option ℤ → Option (List ℤ) → WorldState
add_gate w (some m) (some (x ∷ y ∷ destination ∷ [])) =
    if leb_ℤ (pos 0) x && leb_ℤ (pos 0) y && ltb_ℤ (pos 0) destination
    then record w { gates = put w.gates (m, x, y) destination }
    else w
add_gate w _ _ = w

-- _on_gate
unfoldable pub on_gate : WorldState → Packet → WorldState
unfolding add_gate
on_gate w p = add_gate w w.map_id (ints 3 p)

unfoldable pub add_timespace : WorldState → Option ℤ → Option (List ℤ) → WorldState
add_timespace w (some m) (some (x ∷ y ∷ ts_id ∷ _ ∷ min_level ∷ max_level ∷ [])) =
    if ltb_ℤ x (pos 0) || ltb_ℤ y (pos 0) || leb_ℤ ts_id (pos 0) then w else record w {
      timespaces =
          put w.timespaces (m, x, y)
            (record {
              map_id = m;
              x = x;
              y = y;
              ts_id = ts_id;
              min_level = min_level;
              max_level = max_level;
            });
    }
add_timespace w _ _ = w

-- _on_waypoint
unfoldable pub on_waypoint : WorldState → Packet → WorldState
unfolding add_timespace
on_waypoint w p = add_timespace w w.map_id (ints 6 p)

-- _on_cancel
unfoldable pub on_cancel : WorldState → Packet → WorldState
on_cancel w p = record w { cancel_count = w.cancel_count + 1 }

unfoldable pub set_stats : WorldState → Option (List ℤ) → WorldState
set_stats w (some (hp ∷ hp_max ∷ mp ∷ mp_max ∷ [])) = record w {
  stats = record { hp = hp; hp_max = hp_max; mp = mp; mp_max = mp_max };
}
set_stats w _ = w

-- _on_stats
unfoldable pub on_stats : WorldState → Packet → WorldState
unfolding set_stats
on_stats w p = set_stats w (ints 4 p)

-- say <type> <id> <message>: exactly four parts, and the message is the rest of the text.
unfoldable pub read_say : List Text → Option (ℤ × ℤ × Text)
read_say (_ ∷ kind_text ∷ id_text ∷ message ∷ []) = do
  kind ← int? kind_text
  entity_id ← int? id_text
  some (kind, entity_id, message)
read_say _ = none

unfoldable pub hear : WorldState → Option (ℤ × ℤ × Text) → WorldState
hear w none = w
hear w (some line) = record w { chat = append_bounded chat_max w.chat line }

unfoldable pub say_line : Packet → Option (ℤ × ℤ × Text)
unfolding read_say
say_line p = read_say (split_max 3 (codes " ") p.text)

-- _on_chat
unfoldable pub on_chat : WorldState → Packet → WorldState
unfolding hear
on_chat w p = hear w (say_line p)
