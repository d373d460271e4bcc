-- ===== src/Engine/Entities.antt =====
-- The life of an entity in the handlers of linux/host/ntpl/engine.py, and the walks of the character.
use nostale_packet_logger.Base.{
  ◌≡◌, ◌≢◌, refl, ap, ◌∙◌, true, false, ◌&&◌, Option, none, some, [], ◌∷◌, ◌⊎◌, arith, inl, inr,
}
use nostale_packet_logger.Base.Int.{ℤ, pos, int_beq_iff, ◌≤ℤ◌, ◌<ℤ◌, ◌-ℤ◌, -ℤ_self, eq_of_-ℤ, leb_ℤ}
use nostale_packet_logger.Base.Keys.{int_eq, beq_refl}
use nostale_packet_logger.Base.Dict.{Dict, get, put, remove, get-put, get-put_self, get-remove}
use nostale_packet_logger.World.{Entity, WorldState, position}
use nostale_packet_logger.Protocol.{Packet, args, ints}
use nostale_packet_logger.Handlers.Movement.{
  entity_or_new, move_to, on_move, walk_to, on_walk, facing_after, sign, turn,
}
use nostale_packet_logger.Handlers.Spawns.{
  NpcSpawn, int_at, read_npc, spawn_npc, spawn_kind, on_spawn, despawn, on_despawn, or_else,
}

pub get-put_ne : (d : Dict ℤ Entity) (k j : ℤ) (e : Entity) → k ≢ j → get (put d k e) j ≡ get d j
get-put_ne d k j e h = ground (arith, get-put d k j e, int_beq_iff k j)

pub get-remove_ne : (d : Dict ℤ Entity) (k j : ℤ) → k ≢ j → get (remove d k) j ≡ get d j
get-remove_ne d k j h = ground (arith, get-remove d k j, int_beq_iff k j)

spawned_as :
    (w : WorldState) (p : Packet) (kind : ℤ) (s : NpcSpawn)
    → int_at (args p) 0 ≡ some kind
    → (kind ≡ pos 2) ⊎ (kind ≡ pos 3)
    → read_npc (args p) ≡ some s
    → on_spawn w p ≡ spawn_npc w kind (some s)
unfolding on_spawn
spawned_as w p kind s is_kind npc spawned =
    ap (spawn_kind w p) is_kind ∙ (by_kind npc ∙ ap (spawn_npc w kind) spawned)
  where
    by_kind :
        (kind ≡ pos 2) ⊎ (kind ≡ pos 3)
        → spawn_kind w p (some kind) ≡ spawn_npc w kind (read_npc (args p))
    by_kind (inl e) = rw e
    by_kind (inr e) = rw e

-- What the move of a known entity leaves.
moved_known :
    (w : WorldState) (p : Packet) (old : Entity) (kind entity_id x y speed : ℤ)
    → get w.entities entity_id ≡ some old
    → ints 5 p ≡ some (kind ∷ entity_id ∷ x ∷ y ∷ speed ∷ [])
    → (on_move w p).entities ≡ put w.entities entity_id (record old { kind = kind; x = x; y = y })
unfolding on_move
moved_known w p old kind entity_id x y speed known e = rw (e, move_to, known, entity_or_new)

despawned :
    (w : WorldState) (p : Packet) (any entity_id : ℤ)
    → ints 2 p ≡ some (any ∷ entity_id ∷ [])
    → (on_despawn w p).entities ≡ remove w.entities entity_id
unfolding on_despawn
despawned w p any entity_id e = rw (e, despawn)

-- An NPC or monster spawns, moves, and despawns again. In between it stands where the move put it,
-- with the spawn's vnum; at the end it is gone, and every other entity is as it was.
pub spawn_move_despawn :
    (w : WorldState) (spawn move out : Packet) (s : NpcSpawn) (kind x y speed any : ℤ)
    → int_at (args spawn) 0 ≡ some kind
    → (kind ≡ pos 2) ⊎ (kind ≡ pos 3)
    → read_npc (args spawn) ≡ some s
    → ints 5 move ≡ some (kind ∷ s.entity_id ∷ x ∷ y ∷ speed ∷ [])
    → ints 2 out ≡ some (any ∷ s.entity_id ∷ [])
    → let there = on_move (on_spawn w spawn) move in
      let gone = on_despawn there out in
      ((e : Entity) × (get there.entities s.entity_id ≡ some e)
        × (e.kind ≡ kind)
        × (e.x ≡ x)
        × (e.y ≡ y)
        × ((v : ℤ) → s.vnum ≡ some v → e.vnum ≡ v))
      × (get gone.entities s.entity_id ≡ none)
      × ((k : ℤ) → s.entity_id ≢ k → get gone.entities k ≡ get w.entities k)
unfolding spawn_npc
spawn_move_despawn w spawn move out s kind x y speed any is_kind npc spawned moved left =
    let id = s.entity_id in
    let old = entity_or_new w.entities id kind in
    let new : Entity = record old {
      kind = kind;
      vnum = or_else s.vnum old.vnum;
      x = s.x;
      y = s.y;
    } in
    let first : (on_spawn w spawn).entities ≡ put w.entities id new =
      ap (λ v. v.entities) (spawned_as w spawn kind s is_kind npc spawned) in
    let known : get (on_spawn w spawn).entities id ≡ some new =
      ap (λ d. get d id) first ∙ get-put_self w.entities id new in
    let there = moved_known (on_spawn w spawn) move new kind id x y speed known moved in
    let last : Entity = record new { kind = kind; x = x; y = y } in
    let gone = despawned (on_move (on_spawn w spawn) move) out any id left in
    (
      (
        last,
        ap (λ d. get d id) there ∙ get-put_self (on_spawn w spawn).entities id last,
        refl,
        refl,
        refl,
        λ v h. ap (λ o. or_else o old.vnum) h,
      ),
      ap (λ d. get d id) gone ∙ simp (get-remove, beq_refl),
      λ k far.
          ap (λ d. get d k) gone
          ∙ (get-remove_ne _ id k far
              ∙ (ap (λ d. get d k) there
                  ∙ (get-put_ne _ id k last far
                      ∙ (ap (λ d. get d k) first ∙ get-put_ne w.entities id k new far)))),
    )

turn-some :
    (x y x' y' : ℤ) (old : Option (ℤ × ℤ))
    → (x ≢ x') ⊎ (y ≢ y')
    → turn (x' -ℤ x) (y' -ℤ y) old ≡ some (sign (x' -ℤ x), sign (y' -ℤ y))
unfolding turn
turn-some x y x' y' old h = ground (
  arith,
  int_beq_iff (x' -ℤ x) (pos 0),
  int_beq_iff (y' -ℤ y) (pos 0),
  eq_of_-ℤ x' x,
  eq_of_-ℤ y' y,
)

turn_same : (x y : ℤ) (old : Option (ℤ × ℤ)) → turn (x -ℤ x) (y -ℤ y) old ≡ old
unfolding turn
turn_same x y old = rw (-ℤ_self x, -ℤ_self y)

walked_to :
    (w : WorldState) (p : Packet) (x y : ℤ)
    → ints 2 p ≡ some (x ∷ y ∷ [])
    → pos 0 ≤ℤ x
    → pos 0 ≤ℤ y
    → on_walk w p
      ≡ record w { facing = facing_after (position w) x y w.facing; x = some x; y = some y }
unfolding on_walk
walked_to w p x y e hx hy =
    let inside : (leb_ℤ (pos 0) x && leb_ℤ (pos 0) y) ≡ true = ground arith in
    rw (e, walk_to, inside)

probed :
    (w : WorldState) (p : Packet) (x y : ℤ)
    → ints 2 p ≡ some (x ∷ y ∷ [])
    → (x <ℤ pos 0) ⊎ (y <ℤ pos 0)
    → on_walk w p ≡ w
unfolding on_walk
probed w p x y e h =
    let outside : (leb_ℤ (pos 0) x && leb_ℤ (pos 0) y) ≡ false = ground arith in
    rw (e, walk_to, outside)

-- A walk to a cell that is not negative moves the character there, and turns it towards the cell
-- if it stood somewhere else; a walk with a negative coordinate, the host's probe, changes nothing.
pub walk_moves :
    (w : WorldState) (p : Packet) (x y x' y' : ℤ)
    → ints 2 p ≡ some (x' ∷ y' ∷ [])
    → position w ≡ some (x, y)
    → ((pos 0 ≤ℤ x')
        → (pos 0 ≤ℤ y')
        → (position (on_walk w p) ≡ some (x', y'))
          × ((x ≢ x') ⊎ (y ≢ y') → (on_walk w p).facing ≡ some (sign (x' -ℤ x), sign (y' -ℤ y)))
          × ((x ≡ x') × (y ≡ y') → (on_walk w p).facing ≡ w.facing))
      × ((x' <ℤ pos 0) ⊎ (y' <ℤ pos 0) → on_walk w p ≡ w)
unfolding position facing_after
walk_moves w p x y x' y' e here = (
  λ hx hy. (
    ap position (walked_to w p x' y' e hx hy),
    λ other.
        ap (λ v. v.facing) (walked_to w p x' y' e hx hy)
        ∙ (ap (λ o. facing_after o x' y' w.facing) here ∙ turn-some x y x' y' w.facing other),
    λ same.
        ap (λ v. v.facing) (walked_to w p x' y' e hx hy)
        ∙ (ap (λ o. facing_after o x' y' w.facing) here
            ∙ rw (same.0, same.1) (turn_same x' y' w.facing)),
  ),
  λ neg. probed w p x' y' e neg,
)
