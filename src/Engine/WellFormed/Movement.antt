-- ===== src/Engine/WellFormed/Movement.antt =====
-- The handlers of Handlers/Movement.antt keep the world well-formed.
use nostale_packet_logger.Base.{
  ◌≢◌, sym, Bool, true, false, Option, none, some, List, [], ◌∷◌, ◌&&◌, arith, if◌then◌else◌,
  Bool-cases, inl, inr,
}
use nostale_packet_logger.Base.Int.{ℤ, pos, ◌-ℤ◌, leb_ℤ, int_beq_iff}
use nostale_packet_logger.Base.Keys.{Cell, ◌==◌, int_eq, cell_eq}
use nostale_packet_logger.Base.Dict.{Dict, empty, put}
use nostale_packet_logger.Base.Each.{Each, Each-put, Each-empty, Each-if}
use nostale_packet_logger.World.{WorldState, position}
use nostale_packet_logger.Protocol.{Packet, ints}
use nostale_packet_logger.Handlers.Movement.{
  turn, facing_after, walk_to, on_walk, remember_departure, enter_map, change_map, on_map,
  on_mapout, learn_portals, other_map, arrive, on_position, is_self, entity_or_new, move_to,
  on_move, teleport_to, on_teleport,
}
use nostale_packet_logger.Engine.WellFormed.{
  IsWellFormed, IsWellFormed-if, IsNamed, IsDropped, IsCrossing, IsDirection, SameKnown,
}
use nostale_packet_logger.Engine.WellFormed.Entries.{entity_or_new-IsNamed, put-IsNamed}

turn-IsDirection :
    (dx dy : ℤ) (old : Option (ℤ × ℤ)) → IsDirection old → IsDirection (turn dx dy old)
unfolding turn
turn-IsDirection dx dy old h = ground arith

facing_after-IsDirection :
    (at : Option (ℤ × ℤ)) (x y : ℤ) (old : Option (ℤ × ℤ))
    → IsDirection old
    → IsDirection (facing_after at x y old)
unfolding facing_after
facing_after-IsDirection none x y old h = h
facing_after-IsDirection (some (x', y')) x y old h = turn-IsDirection (x -ℤ x') (y -ℤ y') old h

learn_portals-IsCrossing :
    (pending : Option Cell) (m x y : ℤ) (portals : Dict Cell ℤ)
    → Each IsCrossing portals
    → Each IsCrossing (learn_portals pending m x y portals)
unfolding learn_portals
learn_portals-IsCrossing none m x y portals h = h
learn_portals-IsCrossing (some (m', x', y')) m x y portals h = elim (Bool-cases (m == m')) [
  | inl e ↦ rw e h
  | inr e ↦
      let here : m ≢ m' = λ same. cc ((int_beq_iff m m').1 same) in
      rw e (
        Each-put IsCrossing (put portals (m', x', y') m) (m, x, y) m'
          (Each-put IsCrossing portals (m', x', y') m h here) (λ same. here (sym same)))
]

SameKnown-if :
    (b : Bool) (x y : ℤ) (x' y' : Option ℤ)
    → SameKnown x' y'
    → SameKnown (if b then some x else x') (if b then some y else y')
SameKnown-if true x y x' y' h = tt
SameKnown-if false x y x' y' h = h

module _ (w : WorldState) (h : IsWellFormed w) where
  walked :
      (x y : ℤ)
      → IsWellFormed
          (record w { facing = facing_after (position w) x y w.facing; x = some x; y = some y })
  walked x y =
      let known : SameKnown (some x) (some y) = tt in
      let dir = facing_after-IsDirection (position w) x y w.facing h.facing in assumption

  walk_to-IsWellFormed : (values : Option (List ℤ)) → IsWellFormed (walk_to w values)
  unfolding walk_to
  walk_to-IsWellFormed (some (x ∷ y ∷ [])) =
      IsWellFormed-if (leb_ℤ (pos 0) x && leb_ℤ (pos 0) y) _ w (walked x y) h
  walk_to-IsWellFormed _ = h

  remember_departure-IsWellFormed : IsWellFormed (remember_departure w)
  unfolding remember_departure
  remember_departure-IsWellFormed = assumption

  enter_map-IsWellFormed : (m : ℤ) → IsWellFormed (enter_map w m)
  unfolding enter_map
  enter_map-IsWellFormed m =
      let es = Each-empty IsNamed in let ds = Each-empty IsDropped in assumption

  arrive-IsWellFormed : (values : Option (List ℤ)) → IsWellFormed (arrive w values)
  unfolding arrive
  arrive-IsWellFormed (some (char_id ∷ m ∷ x ∷ y ∷ [])) =
      let gone = other_map w.map_id m in
      let es = Each-if IsNamed gone empty w.entities (Each-empty IsNamed) h.entities in
      let ds = Each-if IsDropped gone empty w.drops (Each-empty IsDropped) h.drops in
      let ps = learn_portals-IsCrossing w.pending_departure m x y w.portals h.portals in assumption
  arrive-IsWellFormed _ = h

  move_to-IsWellFormed : (values : Option (List ℤ)) → IsWellFormed (move_to w values)
  unfolding move_to
  move_to-IsWellFormed (some (kind ∷ entity_id ∷ x ∷ y ∷ speed ∷ [])) =
      let old = entity_or_new w.entities entity_id kind in
      let new =
        put-IsNamed w.entities entity_id (record old { kind = kind; x = x; y = y }) h.entities
          (entity_or_new-IsNamed w.entities entity_id kind h.entities) in
      let known = SameKnown-if (is_self w entity_id) x y w.x w.y h.position in assumption
  move_to-IsWellFormed _ = h

  teleport_to-IsWellFormed : (values : Option (List ℤ)) → IsWellFormed (teleport_to w values)
  unfolding teleport_to
  teleport_to-IsWellFormed (some (kind ∷ entity_id ∷ x ∷ y ∷ [])) =
      let old = entity_or_new w.entities entity_id kind in
      let new =
        put-IsNamed w.entities entity_id (record old { x = x; y = y }) h.entities
          (entity_or_new-IsNamed w.entities entity_id kind h.entities) in
      let known = SameKnown-if (is_self w entity_id) x y w.x w.y h.position in assumption
  teleport_to-IsWellFormed _ = h

cleared-IsWellFormed :
    (w : WorldState) → IsWellFormed w → IsWellFormed (record w { entities = empty; drops = empty })
cleared-IsWellFormed w h =
    let es = Each-empty IsNamed in let ds = Each-empty IsDropped in assumption

change_map-IsWellFormed :
    (w : WorldState) (values : Option (List ℤ))
    → IsWellFormed w
    → IsWellFormed (change_map w values).world
unfolding change_map
change_map-IsWellFormed w none h = h
change_map-IsWellFormed w (some []) h = cleared-IsWellFormed w h
change_map-IsWellFormed w (some (m ∷ [])) h = enter_map-IsWellFormed w h m
change_map-IsWellFormed w (some (_ ∷ m ∷ [])) h = enter_map-IsWellFormed w h m
change_map-IsWellFormed w (some (_ ∷ m ∷ state ∷ _)) h =
    enter_map-IsWellFormed (if state == pos 0 then remember_departure w else w)
      (IsWellFormed-if (state == pos 0) (remember_departure w) w
        (remember_departure-IsWellFormed w h) h)
      m

module _ (w : WorldState) (p : Packet) (h : IsWellFormed w) where
  pub on_walk-IsWellFormed : IsWellFormed (on_walk w p)
  unfolding on_walk
  on_walk-IsWellFormed = walk_to-IsWellFormed w h (ints 2 p)

  pub on_map-IsWellFormed : IsWellFormed (on_map w p).world
  unfolding on_map
  on_map-IsWellFormed = change_map-IsWellFormed w (ints 3 p) h

  pub on_mapout-IsWellFormed : IsWellFormed (on_mapout w p)
  unfolding on_mapout
  on_mapout-IsWellFormed =
      cleared-IsWellFormed (remember_departure w) (remember_departure-IsWellFormed w h)

  pub on_position-IsWellFormed : IsWellFormed (on_position w p)
  unfolding on_position
  on_position-IsWellFormed = arrive-IsWellFormed w h (ints 4 p)

  pub on_move-IsWellFormed : IsWellFormed (on_move w p)
  unfolding on_move
  on_move-IsWellFormed = move_to-IsWellFormed w h (ints 5 p)

  pub on_teleport-IsWellFormed : IsWellFormed (on_teleport w p)
  unfolding on_teleport
  on_teleport-IsWellFormed = teleport_to-IsWellFormed w h (ints 4 p)
