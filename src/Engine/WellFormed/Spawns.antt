-- ===== src/Engine/WellFormed/Spawns.antt =====
-- The handlers of Handlers/Spawns.antt keep the world well-formed.
use nostale_packet_logger.Base.{refl, Option, none, some, List, [], ◌∷◌, ◌||◌, arith}
use nostale_packet_logger.Base.Int.{ℤ, pos}
use nostale_packet_logger.Base.Keys.{◌==◌, int_eq}
use nostale_packet_logger.Base.Each.{Each-put, Each-remove}
use nostale_packet_logger.World.{WorldState, GroundItem}
use nostale_packet_logger.Protocol.{Packet, args, ints}
use nostale_packet_logger.Handlers.Movement.{entity_or_new}
use nostale_packet_logger.Handlers.Spawns.{
  PlayerSpawn, NpcSpawn, read_player, read_npc, read_status, int_at, or_else, spawn_player,
  spawn_npc, spawn_kind, despawn, bury, drop_item, take_item, on_spawn, on_despawn, on_status,
  on_drop, on_get,
}
use nostale_packet_logger.Engine.WellFormed.{IsWellFormed, IsWellFormed-if, IsNamed, IsDropped}
use nostale_packet_logger.Engine.WellFormed.Entries.{entity_or_new-IsNamed, put-IsNamed}

module _ (w : WorldState) (h : IsWellFormed w) where
  spawn_player-IsWellFormed : (s : Option PlayerSpawn) → IsWellFormed (spawn_player w s)
  unfolding spawn_player
  spawn_player-IsWellFormed none = h
  spawn_player-IsWellFormed (some s) =
      let old = entity_or_new w.entities s.char_id (pos 1) in
      let new =
        put-IsNamed w.entities s.char_id (record old { name = s.name; x = s.x; y = s.y }) h.entities
          (entity_or_new-IsNamed w.entities s.char_id (pos 1) h.entities) in
      assumption

  spawn_npc-IsWellFormed : (kind : ℤ) (s : Option NpcSpawn) → IsWellFormed (spawn_npc w kind s)
  unfolding spawn_npc
  spawn_npc-IsWellFormed kind none = h
  spawn_npc-IsWellFormed kind (some s) =
      let old = entity_or_new w.entities s.entity_id kind in
      let new =
        put-IsNamed w.entities s.entity_id
          (record old { kind = kind; vnum = or_else s.vnum old.vnum; x = s.x; y = s.y }) h.entities
          (entity_or_new-IsNamed w.entities s.entity_id kind h.entities) in
      assumption

  spawn_kind-IsWellFormed : (p : Packet) (kind : Option ℤ) → IsWellFormed (spawn_kind w p kind)
  unfolding spawn_kind
  spawn_kind-IsWellFormed p none = h
  spawn_kind-IsWellFormed p (some kind) =
      IsWellFormed-if (kind == pos 1) _ _ (spawn_player-IsWellFormed (read_player p.text)) (
        IsWellFormed-if (kind == pos 2 || kind == pos 3) _ _
          (spawn_npc-IsWellFormed kind (read_npc (args p))) h)

  despawn-IsWellFormed : (values : Option (List ℤ)) → IsWellFormed (despawn w values)
  unfolding despawn
  despawn-IsWellFormed (some (kind ∷ entity_id ∷ [])) =
      let rest = Each-remove IsNamed w.entities entity_id h.entities in assumption
  despawn-IsWellFormed _ = h

  bury-IsWellFormed : (s : Option (ℤ × ℤ × ℤ)) → IsWellFormed (bury w s)
  unfolding bury
  bury-IsWellFormed none = h
  bury-IsWellFormed (some (kind, entity_id, hp)) =
      let rest = Each-remove IsNamed w.entities entity_id h.entities in ground arith

  drop_item-IsWellFormed : (values : Option (List ℤ)) → IsWellFormed (drop_item w values)
  unfolding drop_item
  drop_item-IsWellFormed (some (item_vnum ∷ drop_id ∷ x ∷ y ∷ amount ∷ _ ∷ owner_id ∷ [])) =
      let item : GroundItem = record {
        drop_id = drop_id;
        item_vnum = item_vnum;
        x = x;
        y = y;
        amount = amount;
        owner_id = owner_id;
      } in
      let new = Each-put IsDropped w.drops drop_id item h.drops refl in assumption
  drop_item-IsWellFormed _ = h

  take_item-IsWellFormed : (values : Option (List ℤ)) → IsWellFormed (take_item w values)
  unfolding take_item
  take_item-IsWellFormed (some (_ ∷ _ ∷ drop_id ∷ _ ∷ [])) =
      let rest = Each-remove IsDropped w.drops drop_id h.drops in assumption
  take_item-IsWellFormed _ = h

module _ (w : WorldState) (p : Packet) (h : IsWellFormed w) where
  pub on_spawn-IsWellFormed : IsWellFormed (on_spawn w p)
  unfolding on_spawn
  on_spawn-IsWellFormed = spawn_kind-IsWellFormed w h p (int_at (args p) 0)

  pub on_despawn-IsWellFormed : IsWellFormed (on_despawn w p)
  unfolding on_despawn
  on_despawn-IsWellFormed = despawn-IsWellFormed w h (ints 2 p)

  pub on_status-IsWellFormed : IsWellFormed (on_status w p)
  unfolding on_status
  on_status-IsWellFormed = bury-IsWellFormed w h (read_status (args p))

  pub on_drop-IsWellFormed : IsWellFormed (on_drop w p)
  unfolding on_drop
  on_drop-IsWellFormed = drop_item-IsWellFormed w h (ints 7 p)

  pub on_get-IsWellFormed : IsWellFormed (on_get w p)
  unfolding on_get
  on_get-IsWellFormed = take_item-IsWellFormed w h (ints 4 p)
