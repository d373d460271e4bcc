-- ===== src/MapData/Portals.antt =====
-- linux/host/ntpl/mapdata.py: the table of portals that is kept across runs.
pub mod Gates
use nostale_packet_logger.Base.{
  ℕ, zero, suc, ◌+◌, ◌*◌, ◌/◌, ◌%◌, Bool, true, false, not, ◌&&◌, ◌||◌, Option, none, some, List,
  [], ◌∷◌, ◌++◌, if◌then◌else◌, length, all, ltb,
}
use nostale_packet_logger.Base.Int.{ℤ, pos, negsuc, ◌+ℤ◌, ◌-ℤ◌, nat_abs, leb_ℤ, ltb_ℤ}
use nostale_packet_logger.Base.Keys.{Cell, ◌==◌, nat_eq, int_eq, cell_eq}
use nostale_packet_logger.Base.Dict.{Dict, empty, get, put, remove}

-- Time-Space maps have the ids from 2000 to 2999.
unfoldable pub is_time_space_map : Option ℤ → Bool
is_time_space_map none = false
is_time_space_map (some m) = leb_ℤ (pos 2000) m && leb_ℤ m (pos 2999)

-- abs(x' - x) <= radius and abs(y' - y) <= radius
abbrev pub within : ℤ → ℤ → ℤ → ℤ → ℤ → Bool
within radius x' y' x y =
    leb_ℤ (pos (nat_abs (x' -ℤ x))) radius && leb_ℤ (pos (nat_abs (y' -ℤ y))) radius

-- An entry for the same map and destination that is nearby.
abbrev pub is_near : ℤ → Cell → ℤ → Cell × ℤ → Bool
is_near radius (m, x, y) destination ((m', x', y'), destination') =
    m' == m && destination' == destination && within radius x' y' x y

unfoldable pub has_near : ℤ → Cell → ℤ → List (Cell × ℤ) → Bool
has_near radius cell destination [] = false
has_near radius cell destination (entry ∷ entries) =
    is_near radius cell destination entry || has_near radius cell destination entries

-- add_portal: whether the table changed, and the table.
unfoldable pub add_portal : Dict Cell ℤ → Cell → ℤ → ℤ → Bool × Dict Cell ℤ
unfolding has_near
add_portal portals cell destination radius =
    if has_near radius cell destination portals.items
    then (false, portals)
    else (true, put portals cell destination)

-- A guess near the gate: an entry that the gate takes the place of.
abbrev pub is_guess : ℤ → Cell → ℤ → Cell × ℤ → Bool
is_guess radius (m, x, y) destination ((m', x', y'), destination') =
    is_near radius (m, x, y) destination ((m', x', y'), destination') && not (x' == x && y' == y)

-- The loop of set_gate over `list(portals.items())`.
unfoldable pub drop_guesses :
    ℤ → Cell → ℤ → List (Cell × ℤ) → Bool × Dict Cell ℤ → Bool × Dict Cell ℤ
drop_guesses radius cell destination [] (changed, portals) = (changed, portals)
drop_guesses radius cell destination (entry ∷ entries) (changed, portals) =
    drop_guesses radius cell destination entries (
      if is_guess radius cell destination entry
      then (true, remove portals entry.0)
      else (changed, portals))

abbrev pub leads_to : Option ℤ → ℤ → Bool
leads_to none destination = false
leads_to (some destination') destination = destination' == destination

unfoldable pub put_gate : Cell → ℤ → Bool × Dict Cell ℤ → Bool × Dict Cell ℤ
put_gate cell destination (changed, portals) =
    if leads_to (get portals cell) destination
    then (changed, portals)
    else (true, put portals cell destination)

-- set_gate: whether the table changed, and the table.
unfoldable pub set_gate : Dict Cell ℤ → Cell → ℤ → ℤ → Bool × Dict Cell ℤ
unfolding drop_guesses put_gate
set_gate portals cell destination radius =
    put_gate cell destination (drop_guesses radius cell destination portals.items (false, portals))

-- sorted(portals.items()): by the key, since no key stands there twice.
abbrev pub cell_leb : Cell → Cell → Bool
cell_leb (m, x, y) (m', x', y') = ltb_ℤ m m' || (m == m' && (ltb_ℤ x x' || (x == x' && leb_ℤ y y')))

unfoldable pub insert_entry : Cell × ℤ → List (Cell × ℤ) → List (Cell × ℤ)
insert_entry entry [] = entry ∷ []
insert_entry entry (e ∷ es) =
    let rest = insert_entry entry es in if cell_leb entry.0 e.0 then entry ∷ e ∷ es else e ∷ rest

unfoldable pub sorted_entries : List (Cell × ℤ) → List (Cell × ℤ)
unfolding insert_entry
sorted_entries [] = []
sorted_entries (e ∷ es) = insert_entry e (sorted_entries es)

-- The markers that are taken for one portal, in order, and where it leads.
pub record Cluster : Type 0 where
  pub map_id : ℤ
  pub points : List (ℤ × ℤ)
  pub destination : ℤ

unfoldable pub joins : ℤ → Cell × ℤ → Cluster → Bool
joins radius ((m, x, y), destination) c =
    c.destination == destination && c.map_id == m && all (λ p. within radius p.0 p.1 x y) c.points

-- The first cluster that the marker joins, or a new one at the end.
unfoldable pub add_marker : ℤ → Cell × ℤ → List Cluster → List Cluster
unfolding joins
add_marker radius ((m, x, y), destination) [] =
    record { map_id = m; points = (x, y) ∷ []; destination = destination } ∷ []
add_marker radius ((m, x, y), destination) (c ∷ cs) =
    let rest = add_marker radius ((m, x, y), destination) cs in
    if joins radius ((m, x, y), destination) c
    then record c { points = c.points ++ (x, y) ∷ [] } ∷ cs
    else c ∷ rest

unfoldable pub clusters_of : ℤ → List (Cell × ℤ) → List Cluster → List Cluster
unfolding add_marker
clusters_of radius [] cs = cs
clusters_of radius (e ∷ es) cs = clusters_of radius es (add_marker radius e cs)

-- round(a / (n + 1)), half to even.
unfoldable pub round_ℕ : ℕ → ℕ → ℕ
round_ℕ a n =
    let q = a / suc n in
    let r = a % suc n in if ltb (suc n) (2 * r) || (suc n == 2 * r && q % 2 == 1) then suc q else q

abbrev pub negate : ℕ → ℤ
negate zero = pos zero
negate (suc n) = negsuc n

unfoldable pub round_ratio : ℤ → ℕ → ℤ
unfolding round_ℕ
round_ratio (pos a) n = pos (round_ℕ a n)
round_ratio (negsuc a) n = negate (round_ℕ (suc a) n)

unfoldable pub sum : List ℤ → ℤ
sum [] = pos 0
sum (n ∷ ns) = n +ℤ sum ns

unfoldable pub mean : List ℤ → ℤ
unfolding sum round_ratio
mean [] = pos 0
mean (n ∷ ns) = round_ratio (sum (n ∷ ns)) (length ns)

unfoldable pub xs_of : List (ℤ × ℤ) → List ℤ
xs_of [] = []
xs_of (p ∷ ps) = p.0 ∷ xs_of ps

unfoldable pub ys_of : List (ℤ × ℤ) → List ℤ
ys_of [] = []
ys_of (p ∷ ps) = p.1 ∷ ys_of ps

unfoldable pub center : Cluster → Cell
unfolding mean xs_of ys_of
center c = (c.map_id, mean (xs_of c.points), mean (ys_of c.points))

unfoldable pub merge : List Cluster → Dict Cell ℤ → Dict Cell ℤ
unfolding center
merge [] merged = merged
merge (c ∷ cs) merged = merge cs (put merged (center c) c.destination)

-- normalize_portals
unfoldable pub normalize_portals : Dict Cell ℤ → ℤ → Dict Cell ℤ
unfolding sorted_entries clusters_of merge
normalize_portals portals radius =
    merge (clusters_of radius (sorted_entries portals.items) []) empty
