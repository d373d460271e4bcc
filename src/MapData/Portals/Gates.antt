-- ===== src/MapData/Portals/Gates.antt =====
-- linux/host/ntpl/mapdata.py: what `add_portal` and `set_gate` leave in the table.
use nostale_packet_logger.Base.{
  ◌≡◌, Bool, true, false, Option, none, some, List, [], ◌∷◌, arith, Bool-cases, inl, inr,
}
use nostale_packet_logger.Base.Int.{ℤ, pos, ◌≤ℤ◌, int_beq_iff, -ℤ_self}
use nostale_packet_logger.Base.Keys.{Cell, ◌==◌, int_eq, cell_eq, cell_beq_iff}
use nostale_packet_logger.Base.Dict.{Dict, put, lookup, store}
use nostale_packet_logger.MapData.Portals.{add_portal, has_near, is_near, within}

within_self : (radius x y : ℤ) → pos 0 ≤ℤ radius → within radius x y x y ≡ true
within_self radius x y h = rw (-ℤ_self x, -ℤ_self y) (ground arith)

is_near_self :
    (radius : ℤ) (cell : Cell) (destination : ℤ)
    → pos 0 ≤ℤ radius
    → is_near radius cell destination (cell, destination) ≡ true
is_near_self radius (m, x, y) destination h =
    ground (arith, within_self radius x y h, int_beq_iff m m, int_beq_iff destination destination)

has_near-store :
    (radius : ℤ) (cell : Cell) (destination : ℤ) (items : List (Cell × ℤ))
    → pos 0 ≤ℤ radius
    → has_near radius cell destination (store cell destination items) ≡ true
unfolding has_near store
has_near-store radius cell destination [] h = rw (is_near_self radius cell destination h)
has_near-store radius cell destination ((c, d) ∷ items) h = elim (Bool-cases (c == cell)) [
  | inl e ↦ rw (e, (cell_beq_iff c cell).0 e, is_near_self radius cell destination h)
  | inr e ↦ rw (e, has_near-store radius cell destination items h) (ground arith)
]

-- A portal that was added is not added again: a second call with the same cell and destination
-- changes nothing.
add_portal_twice :
    (portals : Dict Cell ℤ) (cell : Cell) (destination radius : ℤ)
    → pos 0 ≤ℤ radius
    → add_portal (add_portal portals cell destination radius).1 cell destination radius
      ≡ (false, (add_portal portals cell destination radius).1)
unfolding add_portal put
add_portal_twice portals cell destination radius h =
    elim (Bool-cases (has_near radius cell destination portals.items)) [
      | inl e ↦ rw (e, e)
      | inr e ↦ rw (e, has_near-store radius cell destination portals.items h)
    ]

-- One entry for each key.
pub data IsTable : List (Cell × ℤ) → Type 0 where
  no_entry : IsTable []
  entry :
      (e : Cell × ℤ) (es : List (Cell × ℤ)) → lookup e.0 es ≡ none → IsTable es → IsTable (e ∷ es)

-- The entry of a key that satisfies a test.
abbrev pub found_and : (Cell × ℤ → Bool) → Cell → Option ℤ → Bool
found_and p j none = false
found_and p j (some v) = p (j, v)
