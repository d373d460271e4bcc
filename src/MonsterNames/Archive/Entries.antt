-- ===== src/MonsterNames/Archive/Entries.antt =====
-- linux/host/ntpl/monsternames.py: `read_archive_entries` reads back what the archive's layout
-- says.
use nostale_packet_logger.Base.{
  ℕ, ◌+◌, ◌/◌, ◌%◌, ◌≤◌, ◌<◌, ◌≡◌, refl, ap, ◌∙◌, false, List, [], ◌∷◌, ◌++◌, arith, length, take,
  drop, All, ltb, length-append, length-drop, drop-drop, drop_front, take_front,
}
use nostale_packet_logger.Base.Keys.{Text, nat_eq, text_eq}
use nostale_packet_logger.Base.Dict.{empty, put}
use nostale_packet_logger.Python.Errors.{Result, ok}
use nostale_packet_logger.MapData.Archive.{slice, unpack_u32, little_endian}
use nostale_packet_logger.MonsterNames.Archive.{
  Entries, read_content, read_entries, read_archive_entries,
}
use nostale_packet_logger.MonsterNames.Archive.Bodies.{
  Body, stored, readable, IsMarked, decoded-readable,
}

-- A number in four bytes, the least one first.
abbrev pub u32 : ℕ → List ℕ
u32 n = n % 256 ∷ n / 256 % 256 ∷ n / 65_536 % 256 ∷ n / 16_777_216 % 256 ∷ []

abbrev pub IsU32 : ℕ → Type 0
IsU32 n = n < 4_294_967_296

little_endian-u32 : (n : ℕ) → IsU32 n → little_endian (u32 n) ≡ n
unfolding little_endian
little_endian-u32 n h = omega arith

pub record Entry : Type 0 where
  pub number : ℕ
  pub name : Text
  pub is_dat : ℕ
  pub body : Body

pub record IsEntry (e : Entry) : Type 0 where
  pub name : IsU32 (length e.name)
  pub is_dat : IsU32 e.is_dat
  pub content : IsU32 (length (stored e.body))
  pub marked : IsMarked e.is_dat e.name e.body

unfoldable pub write_entry : Entry → List ℕ → List ℕ
write_entry e rest =
    u32 e.number
    ++ (u32 (length e.name)
        ++ (e.name ++ (u32 e.is_dat ++ (u32 (length (stored e.body)) ++ (stored e.body ++ rest)))))

unfoldable pub write_entries : List Entry → List ℕ
unfolding write_entry
write_entries [] = []
write_entries (e ∷ es) = write_entry e (write_entries es)

-- An archive in the documented layout.
unfoldable pub write_archive : List Entry → List ℕ
unfolding write_entries
write_archive es = u32 (length es) ++ write_entries es

unfoldable pub keep_entries : List Entry → Entries → Entries
unfolding readable
keep_entries [] entries = entries
keep_entries (e ∷ es) entries = keep_entries es (put entries e.name (readable e.body))

unpack-drop :
    (bytes s : List ℕ) (p k : ℕ)
    → drop p bytes ≡ s
    → unpack_u32 bytes (p + k) ≡ little_endian (take 4 (drop k s))
unfolding unpack_u32
unpack-drop bytes s p k h = ap (λ t. little_endian (take 4 t)) (drop-drop p k bytes ∙ ap (drop k) h)

unpack_here :
    (bytes s : List ℕ) (p : ℕ) → drop p bytes ≡ s → unpack_u32 bytes p ≡ little_endian (take 4 s)
unfolding unpack_u32
unpack_here bytes s p h = ap (λ t. little_endian (take 4 t)) h

slice-drop :
    (bytes s : List ℕ) (p k size : ℕ)
    → drop p bytes ≡ s
    → slice (p + k) size bytes ≡ take size (drop k s)
slice-drop bytes s p k size h = ap (take size) (drop-drop p k bytes ∙ ap (drop k) h)

room :
    (bytes s : List ℕ) (p k : ℕ)
    → drop p bytes ≡ s
    → 0 < k
    → k ≤ length s
    → ltb (length bytes) (p + k) ≡ false
room bytes s p k h pos_k le = ground (arith, length-drop p bytes, ap length h)

-- The part of an entry behind its name.
read_content-written :
    (bytes : List ℕ) (e : Entry) (rest : List ℕ) (p : ℕ) (entries : Entries)
    (next : ℕ → Entries → Result Entries)
    → IsEntry e
    → drop p bytes ≡ u32 e.is_dat ++ (u32 (length (stored e.body)) ++ (stored e.body ++ rest))
    → read_content bytes e.name p entries next
      ≡ next (p + 8 + length (stored e.body)) (put entries e.name (readable e.body))
unfolding read_content
read_content-written bytes e rest p entries next fit h =
    let s = u32 e.is_dat ++ (u32 (length (stored e.body)) ++ (stored e.body ++ rest)) in
    let dat : unpack_u32 bytes p ≡ e.is_dat =
      unpack_here bytes s p h ∙ little_endian-u32 e.is_dat fit.is_dat in
    let size : unpack_u32 bytes (p + 4) ≡ length (stored e.body) =
      unpack-drop bytes s p 4 h ∙ little_endian-u32 (length (stored e.body)) fit.content in
    let content : slice (p + 8) (length (stored e.body)) bytes ≡ stored e.body =
      slice-drop bytes s p 8 (length (stored e.body)) h ∙ take_front (stored e.body) rest in
    rw (room bytes s p 8 h (omega arith) (omega arith), size, content, dat)
      (ap (λ c. next (p + 8 + length (stored e.body)) (put entries e.name c))
        (decoded-readable e.is_dat e.name e.body fit.marked))

behind_name :
    (bytes : List ℕ) (e : Entry) (rest : List ℕ) (p : ℕ)
    → drop p bytes ≡ write_entry e rest
    → drop (p + 8 + length e.name) bytes
      ≡ u32 e.is_dat ++ (u32 (length (stored e.body)) ++ (stored e.body ++ rest))
unfolding write_entry
behind_name bytes e rest p h =
    let after = u32 e.is_dat ++ (u32 (length (stored e.body)) ++ (stored e.body ++ rest)) in
    drop-drop (p + 8) (length e.name) bytes
    ∙ (ap (drop (length e.name)) (drop-drop p 8 bytes ∙ ap (drop 8) h) ∙ drop_front e.name after)

behind_content :
    (bytes : List ℕ) (e : Entry) (rest : List ℕ) (p : ℕ)
    → drop p bytes ≡ u32 e.is_dat ++ (u32 (length (stored e.body)) ++ (stored e.body ++ rest))
    → drop (p + 8 + length (stored e.body)) bytes ≡ rest
behind_content bytes e rest p h =
    drop-drop (p + 8) (length (stored e.body)) bytes
    ∙ (ap (drop (length (stored e.body))) (drop-drop p 8 bytes ∙ ap (drop 8) h)
        ∙ drop_front (stored e.body) rest)

unpack_name :
    (bytes : List ℕ) (e : Entry) (rest : List ℕ) (p : ℕ)
    → IsEntry e
    → drop p bytes ≡ write_entry e rest
    → unpack_u32 bytes (p + 4) ≡ length e.name
unfolding write_entry
unpack_name bytes e rest p fit h =
    unpack-drop bytes (write_entry e rest) p 4 h ∙ little_endian-u32 (length e.name) fit.name

slice_name :
    (bytes : List ℕ) (e : Entry) (rest : List ℕ) (p : ℕ)
    → drop p bytes ≡ write_entry e rest
    → slice (p + 8) (length e.name) bytes ≡ e.name
unfolding write_entry
slice_name bytes e rest p h =
    slice-drop bytes (write_entry e rest) p 8 (length e.name) h
    ∙ take_front e.name (u32 e.is_dat ++ (u32 (length (stored e.body)) ++ (stored e.body ++ rest)))

room_entry : (e : Entry) (rest : List ℕ) → 12 ≤ length (write_entry e rest)
unfolding write_entry
room_entry e rest = omega (
  arith,
  length-append e.name (u32 e.is_dat ++ (u32 (length (stored e.body)) ++ (stored e.body ++ rest))),
)

read_entries-written :
    (bytes : List ℕ) (es : List Entry) (p : ℕ) (entries : Entries)
    → All IsEntry es
    → drop p bytes ≡ write_entries es
    → read_entries bytes (length es) p entries ≡ ok (keep_entries es entries)
unfolding read_entries write_entries keep_entries
read_entries-written bytes [] p entries fit h = refl
read_entries-written bytes (e ∷ es) p entries fit h =
    let rest = write_entries es in
    let s = write_entry e rest in
    let size : unpack_u32 bytes (p + 4) ≡ length e.name = unpack_name bytes e rest p fit.0 h in
    let name : slice (p + 8) (length e.name) bytes ≡ e.name = slice_name bytes e rest p h in
    let here = behind_name bytes e rest p h in
    let p' = p + 8 + length e.name in
    rw (room bytes s p 12 h (omega arith) (room_entry e rest), size, name)
      (read_content-written bytes e rest p' entries (read_entries bytes (length es)) fit.0 here
        ∙ read_entries-written bytes es (p' + 8 + length (stored e.body))
            (put entries e.name (readable e.body)) fit.1 (behind_content bytes e rest p' here))

-- An archive written in the layout that the module documents is read back: every entry under its
-- name, the later one of two with the same name. An entry whose flag is set, or whose name ends in
-- `.dat`, holds its text in the runs of the codec and is read as that text; any other is read as the
-- bytes that it holds. The number and the sizes of the entries fit in 32 bits.
pub read-write_archive :
    (es : List Entry)
    → IsU32 (length es)
    → All IsEntry es
    → read_archive_entries (write_archive es) ≡ ok (keep_entries es empty)
unfolding read_archive_entries write_archive
read-write_archive es count fit =
    let bytes = write_archive es in
    let n : unpack_u32 bytes 0 ≡ length es =
      unpack_here bytes bytes 0 refl ∙ little_endian-u32 (length es) count in
    let long : ltb (length bytes) 4 ≡ false = ground arith in
    rw (long, n) (read_entries-written bytes es 4 empty fit refl)
