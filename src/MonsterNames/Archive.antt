-- ===== src/MonsterNames/Archive.antt =====
-- linux/host/ntpl/monsternames.py: the language archive and the tables of names in it. Texts are
-- lists of code points, bytes are numbers.
pub mod Bodies
pub mod Entries
use nostale_packet_logger.Base.{
  ℕ, zero, suc, ◌+◌, ◌-◌, Bool, true, false, not, ◌&&◌, ◌||◌, Option, none, some, List, [], ◌∷◌,
  ◌++◌, if◌then◌else◌, length, drop, ltb, leb, map, get_elem?,
}
use nostale_packet_logger.Base.Int.{ℤ}
use nostale_packet_logger.Base.Keys.{Text, ◌==◌, nat_eq, int_eq, text_eq}
use nostale_packet_logger.Base.Dict.{Dict, empty, put}
use nostale_packet_logger.Python.{codes, strip, starts_with, int?, digit?}
use nostale_packet_logger.Python.Errors.{
  Exception, Result, ok, raise, value_error, monster_name_error,
}
use nostale_packet_logger.MapData.Archive.{slice, unpack_u32}
use nostale_packet_logger.MonsterNames.{decrypt_text_dat}

-- text.endswith(suffix)
unfoldable pub ends_with : Text → Text → Bool
ends_with suffix text =
    leb (length suffix) (length text) && drop (length text - length suffix) text == suffix

unfoldable pub decoded : ℕ → Text → List ℕ → List ℕ
decoded is_dat name content =
    if not (is_dat == 0) || ends_with (codes ".dat") name then decrypt_text_dat content else content

abbrev pub Entries : Type 0
Entries = Dict Text (List ℕ)

-- The part of an entry behind its name, from `position` on; `next` reads the entries after it.
unfoldable pub read_content :
    List ℕ → Text → ℕ → Entries → (ℕ → Entries → Result Entries) → Result Entries
unfolding unpack_u32 decoded
read_content bytes name position entries next =
    if ltb (length bytes) (position + 8)
    then raise monster_name_error
    else next (position + 8 + unpack_u32 bytes (position + 4)) (
        put entries name (
          decoded (unpack_u32 bytes position) name
            (slice (position + 8) (unpack_u32 bytes (position + 4)) bytes)))

-- The loop over the entries, of which `count` are left. A latin1 text has the bytes as its code
-- points.
unfoldable pub read_entries : List ℕ → ℕ → ℕ → Entries → Result Entries
unfolding unpack_u32 read_content
read_entries bytes zero position entries = ok entries
read_entries bytes (suc count) position entries =
    let name_size = unpack_u32 bytes (position + 4) in
    let next = read_entries bytes count in
    if ltb (length bytes) (position + 12)
    then raise monster_name_error
    else read_content bytes (slice (position + 8) name_size bytes) (position + 8 + name_size)
        entries next

-- _read_archive_entries, and read_archive_entries
unfoldable pub read_archive_entries : List ℕ → Result Entries
unfolding unpack_u32 read_entries
read_archive_entries bytes =
    if ltb (length bytes) 4
    then raise monster_name_error
    else read_entries bytes (unpack_u32 bytes 0) 4 empty

-- The code points of cp1252 from 0x80 to 0x9f; the five holes are replaced by U+FFFD.
unfoldable pub cp1252_table : List ℕ
cp1252_table =
    0x20ac ∷ 0xfffd ∷ 0x201a ∷ 0x0192 ∷ 0x201e ∷ 0x2026 ∷ 0x2020 ∷ 0x2021 ∷ 0x02c6 ∷ 0x2030 ∷ 0x0160
    ∷ 0x2039 ∷ 0x0152 ∷ 0xfffd ∷ 0x017d ∷ 0xfffd ∷ 0xfffd ∷ 0x2018 ∷ 0x2019 ∷ 0x201c ∷ 0x201d
    ∷ 0x2022 ∷ 0x2013 ∷ 0x2014 ∷ 0x02dc ∷ 0x2122 ∷ 0x0161 ∷ 0x203a ∷ 0x0153 ∷ 0xfffd ∷ 0x017e
    ∷ 0x0178 ∷ []

abbrev code_or : Option ℕ → ℕ → ℕ
code_or none b = b
code_or (some c) b = c

unfoldable pub cp1252_code : ℕ → ℕ
unfolding cp1252_table
cp1252_code b = if ltb b 0x80 then b else code_or (get_elem? cp1252_table (b - 0x80)) b

-- content.decode("cp1252", "replace")
unfoldable pub decode_cp1252 : List ℕ → Text
unfolding cp1252_code
decode_cp1252 bytes = map cp1252_code bytes

-- str.lower of one latin1 character.
unfoldable pub lower_char : ℕ → ℕ
lower_char c =
    if (leb 0x41 c && leb c 0x5a) || (leb 0xc0 c && leb c 0xde && not (c == 0xd7))
    then c + 32
    else c

-- name.lower(), of a name read as latin1.
unfoldable pub lower : Text → Text
unfolding lower_char
lower text = map lower_char text

abbrev is_line_break : ℕ → Bool
is_line_break c = c == 13 || c == 10

-- The texts between line breaks; re.split leaves out those that are empty, which are no records.
unfoldable pub break_lines : Text → Text → List Text
break_lines line [] = line ∷ []
break_lines line (c ∷ text) =
    let ended = break_lines [] text in
    let more = break_lines (line ++ c ∷ []) text in if is_line_break c then line ∷ ended else more

abbrev is_decimal : ℕ → Bool
is_decimal c = elim (digit? c) [ none ↦ false | some d ↦ true ]

-- The digits at the start, and what follows.
unfoldable pub leading_digits : Text → Text × Text
unfolding digit?
leading_digits [] = ([], [])
leading_digits (c ∷ text) =
    let rest = leading_digits text in if is_decimal c then (c ∷ rest.0, rest.1) else ([], c ∷ text)

-- `(\d+)e`
unfoldable pub key_end : Text × Text → Option (Text × Text)
key_end ([], rest) = none
key_end (d ∷ ds, []) = none
key_end (d ∷ ds, c ∷ rest) = if c == b'e' then some (d ∷ ds, rest) else none

-- `zts(\d+)e` at the start: the digits, and what follows.
unfoldable pub match_key : Text → Option (Text × Text)
unfolding leading_digits key_end
match_key text =
    if starts_with (codes "zts") text then key_end (leading_digits (drop 3 text)) else none

unfoldable pub behind_tab : Option (Text × Text) → Option (Text × Text)
behind_tab none = none
behind_tab (some (key, [])) = none
behind_tab (some (key, c ∷ rest)) = if c == 9 then some (key, rest) else none

-- _RECORD.match
unfoldable pub match_record : Text → Option (Text × Text)
unfolding match_key behind_tab
match_record text = behind_tab (match_key text)

abbrev pub Names : Type 0
Names = Dict ℤ Text

unfoldable pub add_name : Names → Option ℤ → Text → Result Names
add_name names none name = raise value_error
add_name names (some vnum) name = if name == [] then ok names else ok (put names vnum name)

unfoldable pub parse_record : Names → Text → Result Names
unfolding match_record add_name
parse_record names record_text = elim (match_record record_text) [
  | none ↦ ok names
  | some (vnum, name) ↦ add_name names (int? vnum) (strip name)
]

unfoldable pub parse_records : Names → List Text → Result Names
unfolding parse_record
parse_records names [] = ok names
parse_records names (r ∷ rs) = elim (parse_record names r) [
  | raise e ↦ raise e
  | ok names' ↦ parse_records names' rs
]

-- parse_monster_text
unfoldable pub parse_monster_text : Text → Result Names
unfolding parse_records break_lines
parse_monster_text text = parse_records empty (break_lines [] text)

unfoldable pub find_table : Text → List (Text × List ℕ) → Result Names
unfolding ends_with lower decode_cp1252 parse_monster_text
find_table suffix [] = ok empty
find_table suffix ((name, content) ∷ entries) =
    let later = find_table suffix entries in
    if ends_with suffix (lower name) then parse_monster_text (decode_cp1252 content) else later

unfoldable pub table_of : Text → Result Entries → Result Names
unfolding find_table
table_of suffix (raise e) = ok empty
table_of suffix (ok entries) = find_table suffix entries.items

-- _load_text_table, of a file's content; `none` is an OSError of reading it.
unfoldable pub load_text_table : Text → Option (List ℕ) → Result Names
unfolding table_of read_archive_entries
load_text_table suffix none = ok empty
load_text_table suffix (some bytes) = table_of suffix (read_archive_entries bytes)

-- load_monster_names
unfoldable pub load_monster_names : Option (List ℕ) → Result Names
unfolding load_text_table
load_monster_names file = load_text_table (codes "_monster.txt") file

-- load_skill_descriptions
unfoldable pub load_skill_descriptions : Option (List ℕ) → Result Names
unfolding load_text_table
load_skill_descriptions file = load_text_table (codes "_skill.txt") file
