-- ===== src/Spells/Catalog.antt =====
-- linux/host/ntpl/spells.py: the records of Skill.dat, and the catalog made of them.
use nostale_packet_logger.Base.{
  ℕ, not, ◌||◌, Option, none, some, List, [], ◌∷◌, if◌then◌else◌, length,
}
use nostale_packet_logger.Base.Int.{ℤ}
use nostale_packet_logger.Base.Keys.{Text, ◌==◌, nat_eq, int_eq, text_eq}
use nostale_packet_logger.Base.Dict.{Dict, empty, get, put}
use nostale_packet_logger.Python.{codes, lstrip, rstrip, starts_with, int?}
use nostale_packet_logger.Python.Errors.{Result, ok, raise, ◌>>=◌, value_error, index_error}
use nostale_packet_logger.MonsterNames.Archive.{
  Entries, Names, decode_cp1252, lower, match_key, read_archive_entries, load_skill_descriptions,
}
use nostale_packet_logger.Spells.{
  SpellInfo, Groups, field_values, fields, split_all, is_margin, name_key, key_number, spell_of,
}

-- What separates the records.
abbrev pub separator : Text
separator = codes "#========================================================="

abbrev pub Catalog : Type 0
Catalog = Dict ℤ SpellInfo

unfoldable pub add_spell : Catalog → Names → Groups → ℤ → Text → Option ℤ → Result Catalog
unfolding spell_of
add_spell spells descriptions groups vnum name none = raise value_error
add_spell spells descriptions groups vnum name (some key) =
    ok (put spells vnum (spell_of groups vnum name key descriptions))

unfoldable pub add_named : Catalog → Names → Groups → ℤ → Option Text → Result Catalog
unfolding add_spell key_number match_key
add_named spells descriptions groups vnum none = raise index_error
add_named spells descriptions groups vnum (some name) =
    add_spell spells descriptions groups vnum name (key_number (match_key name))

-- int(vnum_values[0]); `none` is an IndexError or a ValueError.
unfoldable pub vnum_of : List Text → Option ℤ
vnum_of [] = none
vnum_of (text ∷ texts) = int? text

unfoldable pub add_numbered : Catalog → Names → Groups → Option ℤ → Result Catalog
unfolding add_named name_key
add_numbered spells descriptions groups none = ok spells
add_numbered spells descriptions groups (some vnum) =
    add_named spells descriptions groups vnum (name_key (get groups (codes "NAME")))

-- One block between separators.
unfoldable pub add_block : Catalog → Names → Text → Result Catalog
unfolding add_numbered vnum_of fields
add_block spells descriptions block =
    if block == [] || not (starts_with (codes "VNUM") block)
    then ok spells
    else add_numbered spells descriptions (fields block)
        (vnum_of (field_values (fields block) (codes "VNUM")))

unfoldable pub add_blocks : Catalog → Names → List Text → Result Catalog
unfolding add_block rstrip lstrip
add_blocks spells descriptions [] = ok spells
add_blocks spells descriptions (block ∷ blocks) =
    add_block spells descriptions (rstrip is_margin (lstrip is_margin block)) >>= λ spells'.
    add_blocks spells' descriptions blocks

-- parse_skill_text
unfoldable pub parse_skill_text : Text → Names → Result Catalog
unfolding add_blocks split_all
parse_skill_text text descriptions =
    add_blocks empty descriptions (split_all (length text) separator text)

-- The content of the first entry that is named Skill.dat, in any case.
unfoldable pub skill_dat : List (Text × List ℕ) → Option (List ℕ)
unfolding lower
skill_dat [] = none
skill_dat ((name, content) ∷ entries) =
    let later = skill_dat entries in if lower name == codes "skill.dat" then some content else later

unfoldable pub parse_blob : Option (List ℕ) → Result Names → Result Catalog
unfolding parse_skill_text decode_cp1252
parse_blob none descriptions = ok empty
parse_blob (some blob) (raise e) = raise e
parse_blob (some blob) (ok descriptions) = parse_skill_text (decode_cp1252 blob) descriptions

unfoldable pub spells_of : Result Entries → Result Names → Result Catalog
unfolding skill_dat parse_blob
spells_of (raise e) descriptions = ok empty
spells_of (ok entries) descriptions = parse_blob (skill_dat entries.items) descriptions

-- load_spells, of the contents of the data archive and of the language archive.
unfoldable pub load_spells : Option (List ℕ) → Option (List ℕ) → Result Catalog
unfolding read_archive_entries spells_of load_skill_descriptions
load_spells none language = ok empty
load_spells (some bytes) language =
    spells_of (read_archive_entries bytes) (load_skill_descriptions language)
