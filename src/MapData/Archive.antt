-- ===== src/MapData/Archive.antt =====
-- linux/host/ntpl/mapdata.py: `load_nstc`, the reader of the NStcData archive. `decompress` stands
-- for zlib.decompress; its `none` is a zlib.error.
use nostale_packet_logger.Base.{
  ℕ, zero, suc, ◌+◌, ◌*◌, not, ◌||◌, Option, none, some, List, [], ◌∷◌, if◌then◌else◌, length, take,
  drop, ltb,
}
use nostale_packet_logger.Base.Int.{ℤ, pos}
use nostale_packet_logger.Base.Keys.{◌==◌, nat_eq, int_eq}
use nostale_packet_logger.Base.Dict.{Dict, empty, put}
use nostale_packet_logger.Python.{codes, starts_with}
use nostale_packet_logger.Python.Errors.{Result, ok, raise, map_data_error}
use nostale_packet_logger.MapData.{MapGrid}

-- A little-endian number.
unfoldable pub little_endian : List ℕ → ℕ
little_endian [] = 0
little_endian (b ∷ bs) = b + 256 * little_endian bs

-- bytes[start : start + size]
abbrev pub slice : ℕ → ℕ → List ℕ → List ℕ
slice start size bytes = take size (drop start bytes)

-- struct.unpack_from("<I", bytes, start)
unfoldable pub unpack_u32 : List ℕ → ℕ → ℕ
unfolding little_endian
unpack_u32 bytes start = little_endian (slice start 4 bytes)

-- A size that "<h" reads from two bytes, if it is positive.
unfoldable pub positive_i16 : ℕ → Option ℕ
positive_i16 zero = none
positive_i16 (suc n) = if ltb (suc n) 32768 then some (suc n) else none

unfoldable pub make_grid : ℤ → ℕ → ℕ → List ℕ → Option MapGrid
make_grid map_id width height cells =
    if length cells == width * height
    then some (record { map_id = map_id; width = width; height = height; cells = cells })
    else none

unfoldable pub sized_grid : ℤ → List ℕ → Option ℕ → Option ℕ → Option MapGrid
unfolding make_grid
sized_grid map_id raw (some width) (some height) =
    make_grid map_id width height (slice 4 (width * height) raw)
sized_grid map_id raw _ _ = none

unfoldable pub raw_grid : ℤ → Option (List ℕ) → Option MapGrid
unfolding sized_grid positive_i16 little_endian
raw_grid map_id none = none
raw_grid map_id (some raw) =
    if ltb (length raw) 4
    then none
    else sized_grid map_id raw (positive_i16 (little_endian (slice 0 2 raw)))
        (positive_i16 (little_endian (slice 2 2 raw)))

-- `if not grids`
unfoldable pub some_items : List (ℤ × MapGrid) → Result (Dict ℤ MapGrid)
some_items [] = raise map_data_error
some_items (i ∷ is) = ok (record { items = i ∷ is })

module _ (decompress : List ℕ → Option (List ℕ)) where
  unfoldable pub unpack_payload : ℕ → List ℕ → Option (List ℕ)
  unpack_payload flag payload = if flag == 0 then some payload else decompress payload

  -- One entry of the index; `none` is a `continue`.
  unfoldable pub block_grid : List ℕ → ℤ → ℕ → Option MapGrid
  unfolding unpack_u32 little_endian unpack_payload raw_grid
  block_grid bytes map_id offset =
      if ltb (length bytes) (offset + 13)
      then none
      else raw_grid map_id (
          unpack_payload (little_endian (slice (offset + 12) 1 bytes))
            (slice (offset + 13) (unpack_u32 bytes (offset + 8)) bytes))

  unfoldable pub keep_grid : Option MapGrid → Dict ℤ MapGrid → Dict ℤ MapGrid
  keep_grid none grids = grids
  keep_grid (some grid) grids = put grids grid.map_id grid

  -- The loop over the index: `n` entries are left, from `position` on.
  unfoldable pub read_index : List ℕ → ℕ → ℕ → Dict ℤ MapGrid → Dict ℤ MapGrid
  unfolding block_grid keep_grid unpack_u32
  read_index bytes zero position grids = grids
  read_index bytes (suc n) position grids = read_index bytes n (position + 8) (
      keep_grid
        (block_grid bytes (pos (unpack_u32 bytes position)) (unpack_u32 bytes (position + 4)))
        grids)

  -- The bytes of the file.
  unfoldable pub parse_nstc : List ℕ → Result (Dict ℤ MapGrid)
  unfolding unpack_u32 read_index some_items
  parse_nstc bytes =
      if not (starts_with (codes "NT Data") bytes) || ltb (length bytes) 21
      then raise map_data_error
      else if ltb (length bytes) (21 + unpack_u32 bytes 16 * 8)
      then raise map_data_error
      else some_items (read_index bytes (unpack_u32 bytes 16) 21 empty).items

  -- load_nstc of a file's content; `none` is an OSError of reading it.
  unfoldable pub load_nstc : Option (List ℕ) → Result (Dict ℤ MapGrid)
  unfolding parse_nstc
  load_nstc none = raise map_data_error
  load_nstc (some bytes) = parse_nstc bytes
