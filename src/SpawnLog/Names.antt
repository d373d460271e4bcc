-- ===== src/SpawnLog/Names.antt =====
-- linux/host/ntpl/spawnlog.py: `load_spawns`, with its two regular expressions. In a log read as
-- latin1, `\d` is one of the ten ASCII digits.
use nostale_packet_logger.Base.{
  ℕ, Bool, ◌&&◌, ◌||◌, Option, none, some, List, [], ◌∷◌, ◌++◌, leb, if◌then◌else◌,
}
use nostale_packet_logger.Base.Int.{ℤ}
use nostale_packet_logger.Base.Keys.{Text, ◌==◌, nat_eq, int_eq}
use nostale_packet_logger.Base.Dict.{Dict, empty, put}
use nostale_packet_logger.Python.{codes, strip, find_after, starts_with, int?}
use nostale_packet_logger.Python.Errors.{Result, ok, raise, value_error}
use nostale_packet_logger.SpawnLog.{recv_marker}

abbrev pub is_digit : ℕ → Bool
is_digit c = leb b'0' c && leb c b'9'

-- The digits that a text begins with, and what follows them.
unfoldable pub digits_then : Text → Text × Text
digits_then [] = ([], [])
digits_then (c ∷ s) =
    let more = digits_then s in if is_digit c then (c ∷ more.0, more.1) else ([], c ∷ s)

-- `(\d+) `: the digits, and what follows the space behind them.
unfoldable pub number_then : Text × Text → Option (Text × Text)
number_then ([], s) = none
number_then (d ∷ ds, []) = none
number_then (d ∷ ds, c ∷ s) = if c == b' ' then some (d ∷ ds, s) else none

unfoldable pub match_number : Text → Option (Text × Text)
unfolding digits_then number_then
match_number s = number_then (digits_then s)

unfoldable pub match_numbers : Option (Text × Text) → Option (Text × Text)
unfolding match_number
match_numbers none = none
match_numbers (some (first, rest)) = elim (match_number rest) [
  | none ↦ none
  | some (second, more) ↦ some (first, second)
]

-- _ENTITY.match: the texts of the groups 2 and 3.
unfoldable pub match_entity : Text → Option (Text × Text)
unfolding match_number match_numbers
match_entity (kind ∷ space ∷ s) =
    if (kind == b'2' || kind == b'3') && space == b' ' then match_numbers (match_number s) else none
match_entity _ = none

-- ` - (\d+) ` at the start.
unfoldable pub match_dash : Text → Option Text
unfolding match_number
match_dash (a ∷ b ∷ c ∷ s) =
    if starts_with (codes " - ") (a ∷ b ∷ c ∷ s)
    then elim (match_number s) [ none ↦ none | some (id, rest) ↦ some id ]
    else none
match_dash _ = none

unfoldable pub name_end : Text → Option Text → Option (Text × Text)
name_end [] found = none
name_end (c ∷ name) none = none
name_end (c ∷ name) (some id) = some (c ∷ name, id)

-- `(.+) - (\d+) `: the longest name that works, behind `name`. A line has no line end inside.
unfoldable pub match_name : Text → Text → Option (Text × Text)
unfolding match_dash name_end
match_name name [] = none
match_name name (c ∷ s) =
    let longer = match_name (name ++ c ∷ []) s in
    elim longer [ some found ↦ some found | none ↦ name_end name (match_dash (c ∷ s)) ]

-- _PLAYER.match: the texts of its groups.
unfoldable pub match_player : Text → Option (Text × Text)
unfolding match_name
match_player (kind ∷ space ∷ s) = if kind == b'1' && space == b' ' then match_name [] s else none
match_player _ = none

abbrev pub Spawns : Type 0
Spawns = Dict ℤ ℤ × Dict ℤ Text

unfoldable pub add_entity : Spawns → Option ℤ → Option ℤ → Result Spawns
add_entity (vnums, names) (some vnum) (some entity_id) = ok (put vnums entity_id vnum, names)
add_entity s _ _ = raise value_error

unfoldable pub add_player : Spawns → Text → Option ℤ → Result Spawns
add_player (vnums, names) name (some char_id) = ok (vnums, put names char_id (strip name))
add_player s name none = raise value_error

unfoldable pub spawn_record : Spawns → Text → Result Spawns
unfolding match_entity match_player add_entity add_player
spawn_record s text = elim (match_entity text) [
  | some (vnum, entity_id) ↦ add_entity s (int? vnum) (int? entity_id)
  | none ↦ elim (match_player text) [
    | none ↦ ok s
    | some (name, char_id) ↦ add_player s name (int? char_id)
  ]
]

unfoldable pub spawn_line : Spawns → Text → Result Spawns
unfolding spawn_record
spawn_line s line = elim (find_after (recv_marker (codes "in")) line) [
  | none ↦ ok s
  | some rest ↦ spawn_record s (strip rest)
]

unfoldable pub spawn_lines : Spawns → List Text → Result Spawns
unfolding spawn_line
spawn_lines s [] = ok s
spawn_lines s (line ∷ lines) = elim (spawn_line s line) [
  | raise e ↦ raise e
  | ok s' ↦ spawn_lines s' lines
]

-- load_spawns; `int` raises a ValueError on more than 4300 digits.
unfoldable pub load_spawns : Option (List Text) → Result Spawns
unfolding spawn_lines
load_spawns none = ok (empty, empty)
load_spawns (some lines) = spawn_lines (empty, empty) lines
