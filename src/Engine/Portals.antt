-- ===== src/Engine/Portals.antt =====
-- A map crossing, as linux/host/ntpl/engine.py learns it from `mapout` (or the leaving `c_map`) and
-- the `at` that follows.
use nostale_packet_logger.Base.{
  ◌≡◌, ◌≢◌, refl, sym, ap, ◌∙◌, Bool, true, false, none, some, [], ◌∷◌, arith, Bool-cases, inl, inr,
  if◌then◌else◌,
}
use nostale_packet_logger.Base.Int.{ℤ, pos, int_beq_iff}
use nostale_packet_logger.Base.Keys.{Cell, ◌==◌, int_eq, cell_eq, cell_beq_iff}
use nostale_packet_logger.Base.Dict.{Dict, get, put, get-put, empty, get-put_self}
use nostale_packet_logger.World.{WorldState, position}
use nostale_packet_logger.Protocol.{Packet, ints}
use nostale_packet_logger.Handlers.{returned}
use nostale_packet_logger.Handlers.Movement.{
  remember_departure, learn_portals, arrive, on_mapout, on_position, change_map, on_map,
}

-- Cells that are not looked up keep what they had.
get-put_ne : (d : Dict Cell ℤ) (k j : Cell) (v : ℤ) → k ≢ j → get (put d k v) j ≡ get d j
get-put_ne d k j v h = ground (arith, get-put d k j v, cell_beq_iff k j)

-- The portal tables before and after a crossing from cell `a` to cell `b`: each end leads to the
-- other's map, and every other cell is as it was.
pub record Crossing (a b : Cell) (before after : Dict Cell ℤ) : Type 0 where
  pub forth : get after a ≡ some b.0
  pub back : get after b ≡ some a.0
  pub others : (k : Cell) → k ≢ a → k ≢ b → get after k ≡ get before k

learn_portals-Crossing :
    (m x y m' x' y' : ℤ) (portals : Dict Cell ℤ)
    → m' ≢ m
    → Crossing (m, x, y) (m', x', y') portals (learn_portals (some (m, x, y)) m' x' y' portals)
unfolding learn_portals
learn_portals-Crossing m x y m' x' y' portals ne = elim (Bool-cases (m' == m)) [
  | inl e ↦ absurd (ne ((int_beq_iff m' m).0 e))
  | inr e ↦
      let a : Cell = (m, x, y) in
      let b : Cell = (m', x', y') in
      let once = put portals a m' in
      let apart : b ≢ a = λ same. ne (ap (λ (c : Cell). c.0) same) in
      rw e (record {
        forth = get-put_ne once b a m apart ∙ get-put_self portals a m';
        back = get-put_self once b m;
        others = λ k far near.
            get-put_ne once b k m (λ q. near (sym q))
            ∙ get-put_ne portals a k m' (λ q. far (sym q));
      })
]

departure_known :
    (w : WorldState) (m x y : ℤ)
    → w.map_id ≡ some m
    → position w ≡ some (x, y)
    → (remember_departure w).pending_departure ≡ some (m, x, y)
unfolding remember_departure
departure_known w m x y on_m here = rw (on_m, here)

if_same {ℓ} : {A : Type ℓ} (b : Bool) {a : A} → (if b then a else a) ≡ a
if_same true = refl
if_same false = refl

-- The character stands on a cell of one map when the server takes it off that map, and the next
-- `at` names another map: both directions are learned, no other portal changes, the pending
-- departure is over, and the position is the new one on a map that is empty so far.
pub Crossing-learned :
    (w : WorldState) (out at : Packet) (m x y char_id m' x' y' : ℤ)
    → w.map_id ≡ some m
    → position w ≡ some (x, y)
    → ints 4 at ≡ some (char_id ∷ m' ∷ x' ∷ y' ∷ [])
    → m' ≢ m
    → let w' = on_position (on_mapout w out) at in
      Crossing (m, x, y) (m', x', y') w.portals w'.portals
      × (w'.pending_departure ≡ none)
      × (w'.map_id ≡ some m')
      × (position w' ≡ some (x', y'))
      × (w'.self_id ≡ some char_id)
      × (w'.entities ≡ empty)
      × (w'.drops ≡ empty)
unfolding on_mapout on_position
Crossing-learned w out at m x y char_id m' x' y' on_m here arrived ne =
    rw (arrived, arrive, departure_known w m x y on_m here)
      (
        learn_portals-Crossing m x y m' x' y' w.portals ne,
        refl,
        refl,
        refl,
        refl,
        if_same _,
        if_same _,
      )

left :
    (w : WorldState) (leave : Packet) (kind m : ℤ)
    → ints 3 leave ≡ some (kind ∷ m ∷ pos 0 ∷ [])
    → on_map w leave
      ≡ returned
          (record (remember_departure w) { map_id = some m; entities = empty; drops = empty })
unfolding on_map
left w leave kind m e = rw (e, change_map)

-- The whole sequence that the server sends: the leaving `c_map` of the map that the character is
-- on, then `mapout`, then the `at` of another map. The portals are learned as with `mapout` alone.
pub Crossing-sequence :
    (w : WorldState) (leave out at : Packet) (kind m x y char_id m' x' y' : ℤ)
    → position w ≡ some (x, y)
    → ints 3 leave ≡ some (kind ∷ m ∷ pos 0 ∷ [])
    → ints 4 at ≡ some (char_id ∷ m' ∷ x' ∷ y' ∷ [])
    → m' ≢ m
    → let w' = on_position (on_mapout (on_map w leave).world out) at in
      Crossing (m, x, y) (m', x', y') w.portals w'.portals × (w'.pending_departure ≡ none)
unfolding remember_departure position
Crossing-sequence w leave out at kind m x y char_id m' x' y' here leaving arrived ne =
    let w' : WorldState = record (remember_departure w) {
      map_id = some m;
      entities = empty;
      drops = empty;
    } in
    let learned = Crossing-learned w' out at m x y char_id m' x' y' refl here arrived ne in
    rw (left w leave kind m leaving) (learned.0, learned.1)
