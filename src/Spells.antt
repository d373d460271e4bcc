-- ===== src/Spells.antt =====
-- linux/host/ntpl/spells.py: the spell catalog. Times are whole numbers of deciseconds, where the
-- source divides by 10.0.
pub mod Catalog
pub mod Laws
use nostale_packet_logger.Base.{
  ℕ, zero, suc, Bool, true, false, not, ◌&&◌, ◌||◌, Option, none, some, List, [], ◌∷◌, ◌++◌,
  if◌then◌else◌, get_elem?, any, length, drop,
}
use nostale_packet_logger.Base.Int.{ℤ, pos, negsuc}
use nostale_packet_logger.Base.Keys.{Text, ◌==◌, nat_eq, int_eq, text_eq}
use nostale_packet_logger.Base.Dict.{Dict, empty, get, put}
use nostale_packet_logger.Python.{codes, strip, lstrip, rstrip, starts_with, split_once, int?}
use nostale_packet_logger.Python.Errors.{Result, ok, raise, value_error}
use nostale_packet_logger.MonsterNames.Archive.{
  Entries, Names, break_lines, decode_cp1252, lower, match_key, read_archive_entries,
}

-- _KEYS
unfoldable pub field_keys : List Text
field_keys =
    codes "VNUM"
    ∷ codes "NAME"
    ∷ codes "TYPE"
    ∷ codes "COST"
    ∷ codes "LEVEL"
    ∷ codes "EFFECT"
    ∷ codes "TARGET"
    ∷ codes "DATA"
    ∷ codes "BASIC"
    ∷ codes "FCOMBO"
    ∷ codes "CELL"
    ∷ codes "Z_DESC"
    ∷ []

pub record SpellInfo : Type 0 where
  pub vnum : ℤ
  pub name : Text
  pub key : ℤ
  pub skill_type : ℤ
  pub class_id : ℤ
  pub target_type : ℤ
  pub range : ℤ
  pub cast_time : ℤ
  pub cooldown : ℤ
  pub mp_cost : ℤ

-- SpellInfo.target_mode
unfoldable pub target_mode : SpellInfo → Text
target_mode s =
    if s.target_type == pos 1
    then codes "self"
    else if s.target_type == pos 2
    then codes "ally"
    else codes "monster"

-- SpellInfo.active
unfoldable pub active : SpellInfo → Bool
active s = s.skill_type == pos 1

abbrev int_or : Option ℤ → ℤ → ℤ
int_or none default = default
int_or (some n) default = n

-- _int
unfoldable pub int_field : List Text → ℕ → ℤ → ℤ
int_field values index default = elim (get_elem? values index) [
  | none ↦ default
  | some text ↦ int_or (int? text) default
]

-- text.split(sep), for a separator that is not empty: each part takes at least one character, so
-- that the length of the text is fuel enough.
unfoldable pub split_all : ℕ → Text → Text → List Text
split_all zero sep text = text ∷ []
split_all (suc fuel) sep text = elim (split_once sep text) [
  | none ↦ text ∷ []
  | some (part, rest) ↦ part ∷ split_all fuel sep rest
]

abbrev pub Groups : Type 0
Groups = Dict Text (List Text)

abbrev values_of : Option (List Text) → List Text
values_of none = []
values_of (some values) = values

unfoldable pub add_token : Option Text × Groups → Text → Option Text × Groups
unfolding field_keys
add_token (current, groups) token =
    if any (λ k. k == token) field_keys then (some token, put groups token []) else elim current [
      | none ↦ (none, groups)
      | some key ↦ (some key, put groups key (values_of (get groups key) ++ token ∷ []))
    ]

unfoldable pub add_tokens : Option Text × Groups → List Text → Groups
unfolding add_token
add_tokens s [] = s.1
add_tokens s (token ∷ tokens) = add_tokens (add_token s (strip token)) tokens

-- _fields
unfoldable pub fields : Text → Groups
unfolding split_all add_tokens
fields block = add_tokens (none, empty) (split_all (length block) (codes "\t") block)

unfoldable pub first_filled : List Text → Text
first_filled [] = []
first_filled (line ∷ lines) = if strip line == [] then first_filled lines else strip line

-- _first_line
unfoldable pub first_line : Text → Text
unfolding break_lines first_filled
first_line text = first_filled (break_lines [] text)

-- The characters of block.strip("\r\n\t ").
abbrev is_margin : ℕ → Bool
is_margin c = c == 13 || c == 10 || c == 9 || c == 32

-- fields.get(key, [])
abbrev pub field_values : Groups → Text → List Text
field_values groups key = values_of (get groups key)

-- fields.get("NAME", [""])[0]; an empty NAME field is an IndexError.
unfoldable pub name_key : Option (List Text) → Option Text
name_key none = some []
name_key (some []) = none
name_key (some (v ∷ vs)) = some v

-- The number in the key of a name, and 0 for other names; `none` is the ValueError of `int`.
unfoldable pub key_number : Option (Text × Text) → Option ℤ
key_number none = some (pos 0)
key_number (some (number, rest)) = int? number

abbrev or_text : Text → Text → Text
or_text [] other = other
or_text (c ∷ text) other = c ∷ text

abbrev text_or_empty : Option Text → Text
text_or_empty none = []
text_or_empty (some text) = text

abbrev or_int : ℤ → ℤ → ℤ
or_int n other = if n == pos 0 then other else n

unfoldable pub spell_of : Groups → ℤ → Text → ℤ → Names → SpellInfo
unfolding int_field first_line
spell_of groups vnum name key descriptions =
    let type_values = field_values groups (codes "TYPE") in
    let target_values = field_values groups (codes "TARGET") in
    let data_values = field_values groups (codes "DATA") in
    record {
      vnum = vnum;
      name = or_text (first_line (text_or_empty (get descriptions key))) name;
      key = key;
      skill_type = int_field type_values 0 (negsuc 0);
      class_id = int_field type_values 2 (pos 0);
      target_type = int_field target_values 0 (pos 0);
      range = or_int (int_field target_values 2 (pos 0)) (int_field data_values 11 (pos 0));
      cast_time = int_field data_values 4 (pos 0);
      cooldown = int_field data_values 5 (pos 0);
      mp_cost = int_field data_values 8 (pos 0);
    }
