-- ===== src/MapData/Grids.antt =====
-- linux/host/ntpl/mapdata.py: every grid that `load_nstc` returns is complete.
use nostale_packet_logger.Base.{
  ℕ, zero, suc, ◌+◌, ◌*◌, ◌<◌, ◌≡◌, refl, ◌↔◌, Bool, true, false, ◌||◌, not, Option, none, some,
  List, [], ◌∷◌, arith, if◌then◌else◌, length, get_elem?, ltb,
}
use nostale_packet_logger.Base.Int.{ℤ, pos, negsuc}
use nostale_packet_logger.Base.Keys.{◌==◌, nat_eq, int_eq, nat_beq_iff}
use nostale_packet_logger.Base.Dict.{Dict, empty, get}
use nostale_packet_logger.Base.Each.{Each, Each-empty, Each-put}
use nostale_packet_logger.Python.{codes, starts_with}
use nostale_packet_logger.Python.Errors.{Result, ok, raise, map_data_error, IfOk, of_ok}
use nostale_packet_logger.MapData.{MapGrid, at, inside}
use nostale_packet_logger.MapData.Archive.{
  slice, little_endian, unpack_u32, positive_i16, make_grid, sized_grid, raw_grid, unpack_payload,
  block_grid, keep_grid, read_index, some_items, parse_nstc, load_nstc,
}

-- A grid with a byte for each cell, of the size that two bytes can say.
pub record IsFull (g : MapGrid) : Type 0 where
  pub cells : length g.cells ≡ g.width * g.height
  pub width : (0 < g.width) × (g.width < 32768)
  pub height : (0 < g.height) × (g.height < 32768)

-- A grid that stands under its own id.
abbrev pub IsLoaded : ℤ → MapGrid → Type 0
IsLoaded map_id g = (g.map_id ≡ map_id) × IsFull g

abbrev IsSize : ℕ → Type 0
IsSize n = (0 < n) × (n < 32768)

-- What holds of the value, if there is one.
abbrev If {ℓ} : {A : Type ℓ} → (A → Type 0) → Option A → Type 0
If P none = Unit
If P (some a) = P a

If-test {ℓ} :
    {A : Type ℓ} (P : A → Type 0) (b : Bool) (a : A)
    → (b ≡ true → P a)
    → If P (if b then some a else none)
If-test P true a h = h refl
If-test P false a h = tt

If-skip {ℓ} :
    {A : Type ℓ} (P : A → Type 0) (b : Bool) (o : Option A) → If P o → If P (if b then none else o)
If-skip P true o h = tt
If-skip P false o h = h

IfOk-guard {ℓ} :
    {A : Type ℓ} (P : A → Type 0) (b : Bool) (r : Result A)
    → IfOk P r
    → IfOk P (if b then raise map_data_error else r)
IfOk-guard P true r h = tt
IfOk-guard P false r h = h

positive_i16-IsSize : (n : ℕ) → If IsSize (positive_i16 n)
unfolding positive_i16
positive_i16-IsSize zero = tt
positive_i16-IsSize (suc n) = If-test IsSize (ltb (suc n) 32768) (suc n) (λ h. ground arith)

sized_grid-IsLoaded :
    (m : ℤ) (raw : List ℕ) (width height : Option ℕ)
    → If IsSize width
    → If IsSize height
    → If (IsLoaded m) (sized_grid m raw width height)
unfolding sized_grid make_grid
sized_grid-IsLoaded m raw none height hw hh = tt
sized_grid-IsLoaded m raw (some w) none hw hh = tt
sized_grid-IsLoaded m raw (some w) (some h) hw hh =
    let cells = slice 4 (w * h) raw in
    If-test (IsLoaded m) (length cells == w * h)
      (record { map_id = m; width = w; height = h; cells = cells })
      (λ e. (
        refl,
        record { cells = (nat_beq_iff (length cells) (w * h)).0 e; width = hw; height = hh },
      ))

raw_grid-IsLoaded : (m : ℤ) (raw : Option (List ℕ)) → If (IsLoaded m) (raw_grid m raw)
unfolding raw_grid
raw_grid-IsLoaded m none = tt
raw_grid-IsLoaded m (some raw) =
    let width = little_endian (slice 0 2 raw) in
    let height = little_endian (slice 2 2 raw) in
    If-skip (IsLoaded m) (ltb (length raw) 4)
      (sized_grid m raw (positive_i16 width) (positive_i16 height))
      (sized_grid-IsLoaded m raw (positive_i16 width) (positive_i16 height)
        (positive_i16-IsSize width) (positive_i16-IsSize height))

some_items-Each :
    (items : List (ℤ × MapGrid))
    → Each IsLoaded (record { items = items })
    → IfOk (Each IsLoaded) (some_items items)
unfolding some_items
some_items-Each [] all = tt
some_items-Each (i ∷ is) all = all

module _ (decompress : List ℕ → Option (List ℕ)) where
  block_grid-IsLoaded :
      (bytes : List ℕ) (m : ℤ) (offset : ℕ) → If (IsLoaded m) (block_grid decompress bytes m offset)
  unfolding block_grid
  block_grid-IsLoaded bytes m offset =
      let raw =
        unpack_payload decompress (little_endian (slice (offset + 12) 1 bytes))
          (slice (offset + 13) (unpack_u32 bytes (offset + 8)) bytes) in
      If-skip (IsLoaded m) (ltb (length bytes) (offset + 13)) (raw_grid m raw)
        (raw_grid-IsLoaded m raw)

  keep_grid-Each :
      (m : ℤ) (o : Option MapGrid) (grids : Dict ℤ MapGrid)
      → If (IsLoaded m) o
      → Each IsLoaded grids
      → Each IsLoaded (keep_grid decompress o grids)
  unfolding keep_grid
  keep_grid-Each m none grids h all = all
  keep_grid-Each m (some g) grids h all = Each-put IsLoaded grids g.map_id g all (refl, h.1)

  read_index-Each :
      (bytes : List ℕ) (n position : ℕ) (grids : Dict ℤ MapGrid)
      → Each IsLoaded grids
      → Each IsLoaded (read_index decompress bytes n position grids)
  unfolding read_index
  read_index-Each bytes zero position grids all = all
  read_index-Each bytes (suc n) position grids all =
      let m = pos (unpack_u32 bytes position) in
      let o = block_grid decompress bytes m (unpack_u32 bytes (position + 4)) in
      read_index-Each bytes n (position + 8) (keep_grid decompress o grids) (
        keep_grid-Each m o grids (block_grid-IsLoaded bytes m (unpack_u32 bytes (position + 4)))
          all)

  parse_nstc-Each : (bytes : List ℕ) → IfOk (Each IsLoaded) (parse_nstc decompress bytes)
  unfolding parse_nstc
  parse_nstc-Each bytes =
      let count = unpack_u32 bytes 16 in
      let grids = read_index decompress bytes count 21 empty in
      let found =
        IfOk-guard (Each IsLoaded) (ltb (length bytes) (21 + count * 8)) (some_items grids.items) (
          some_items-Each grids.items
            (read_index-Each bytes count 21 empty (Each-empty IsLoaded))) in
      IfOk-guard (Each IsLoaded)
        (not (starts_with (codes "NT Data") bytes) || ltb (length bytes) 21)
        (if ltb (length bytes) (21 + count * 8)
          then raise map_data_error
          else some_items grids.items)
        found

  load_nstc-Each : (file : Option (List ℕ)) → IfOk (Each IsLoaded) (load_nstc decompress file)
  unfolding load_nstc
  load_nstc-Each none = tt
  load_nstc-Each (some bytes) = parse_nstc-Each bytes

index_lt : (x y w h : ℕ) → x < w → y < h → y * w + x < w * h
index_lt x y w zero hx hy = omega arith
index_lt x zero w (suc h) hx hy = omega arith
index_lt x (suc y) w (suc h) hx hy = omega (arith, index_lt x y w h hx (omega arith))

get_elem?-of_lt :
    (cells : List ℕ) (i : ℕ) → i < length cells → (c : ℕ) × (get_elem? cells i ≡ some c)
get_elem?-of_lt [] i h = absurd (omega arith)
get_elem?-of_lt (c ∷ cells) zero h = (c, refl)
get_elem?-of_lt (c ∷ cells) (suc i) h = get_elem?-of_lt cells i (omega arith)

pub at-inside :
    (g : MapGrid) (x y : ℤ) → IsFull g → inside g x y ≡ true → (c : ℕ) × (at g x y ≡ some c)
unfolding at
at-inside g (pos x) (pos y) full h =
    let found =
      get_elem?-of_lt g.cells (y * g.width + x)
        (omega (arith, full.cells, index_lt x y g.width g.height (ground arith) (ground arith))) in
    (found.0, ground (arith, found.1))
at-inside g (pos x) (negsuc y) full h = ground arith
at-inside g (negsuc x) y full h = ground arith

inside-at : (g : MapGrid) (x y : ℤ) (c : ℕ) → at g x y ≡ some c → inside g x y ≡ true
unfolding at
inside-at g x y c h = ground arith

-- In an archive that load_nstc reads, every grid stands under its own map id, has a byte for each
-- of its width * height cells, and sizes from 1 to 32767, so that a lookup inside the grid always
-- finds a byte: `at` raises no IndexError. This holds whatever zlib returns.
pub load_nstc-IsLoaded :
    (decompress : List ℕ → Option (List ℕ)) (file : Option (List ℕ)) (grids : Dict ℤ MapGrid)
    → load_nstc decompress file ≡ ok grids
    → (map_id : ℤ) (g : MapGrid) → get grids map_id ≡ some g
    → IsLoaded map_id g × ((x y : ℤ) → (inside g x y ≡ true) ↔ ((c : ℕ) × (at g x y ≡ some c)))
unfolding at
load_nstc-IsLoaded decompress file grids e map_id g found =
    let loaded =
      (of_ok (Each IsLoaded) (load_nstc decompress file) grids (load_nstc-Each decompress file)
          e).at
        map_id g found in
    (loaded, λ x y. (at-inside g x y loaded.1, λ c. inside-at g x y c.0 c.1))
