-- ===== src/Tests/GameData.antt =====
-- Runs of monsternames.py and spells.py, and their theorems at concrete inputs.
use nostale_packet_logger.Base.{◌≡◌, refl, ap, ◌∙◌, All, inl, inr, List, [], ◌∷◌, ◌++◌, arith}
use nostale_packet_logger.Base.Int.{pos}
use nostale_packet_logger.Base.Keys.{text_eq, int_eq}
use nostale_packet_logger.Base.Dict.{empty, get, put}
use nostale_packet_logger.Python.{codes, int?, split_once, starts_with, strip}
use nostale_packet_logger.Python.Errors.{ok}
use nostale_packet_logger.MonsterNames.{decrypt_text_dat}
use nostale_packet_logger.MonsterNames.Codec.{
  Run, line_end, masked, letters, IsRun, encode_runs, text_of_runs, decrypt-encode_runs,
}
use nostale_packet_logger.MonsterNames.Archive.{ends_with, read_archive_entries, parse_monster_text}
use nostale_packet_logger.MonsterNames.Archive.Entries.{
  Entry, IsEntry, write_archive, keep_entries, read-write_archive,
}
use nostale_packet_logger.MonsterNames.Archive.Bodies.{
  raw, encoded, stored, IsDatName, ends_with-append,
}
use nostale_packet_logger.Spells.{SpellInfo}
use nostale_packet_logger.Spells.Catalog.{parse_skill_text}
use nostale_packet_logger.Spells.Laws.{parse_skill_text-Each}

abbrev fox_runs : List Run
fox_runs = masked (codes "Fox") ∷ letters (5 ∷ 6 ∷ 4 ∷ []) ∷ line_end ∷ []

fox_runs-IsRun : All IsRun fox_runs
fox_runs-IsRun = (
  (omega arith, (omega arith, (omega arith, (omega arith, tt)))),
  (
    (
      omega arith,
      ((omega arith, omega arith), ((omega arith, omega arith), ((omega arith, omega arith), tt))),
    ),
    (tt, tt),
  ),
)

decrypt_example : decrypt_text_dat (encode_runs fox_runs) ≡ text_of_runs fox_runs
decrypt_example = decrypt-encode_runs fox_runs fox_runs-IsRun

decrypt_run : decrypt_text_dat (encode_runs fox_runs) ≡ codes "Fox120" ++ 0x0d ∷ []
unfolding decrypt_text_dat encode_runs
decrypt_run = refl

-- The runs of the codec are used for an entry with the flag, and for one with the name of a `.dat`.
abbrev text_entry : Entry
text_entry = record {
  number = 1;
  name = codes "_code_uk_monster.txt";
  is_dat = 1;
  body = encoded fox_runs;
}

abbrev dat_entry : Entry
dat_entry = record { number = 2; name = codes "fox.dat"; is_dat = 0; body = encoded fox_runs }

abbrev plain_entry : Entry
plain_entry = record { number = 3; name = codes "fox.txt"; is_dat = 0; body = raw (codes "Fox") }

plain_name : IsDatName (codes "fox.txt") → ⊥
unfolding ends_with
plain_name (stem, same) =
    let ends = ap (ends_with (codes ".dat")) same ∙ ends_with-append (codes ".dat") stem in cc

abbrev three_entries : List Entry
three_entries = text_entry ∷ dat_entry ∷ plain_entry ∷ []

three_entries-IsEntry : All IsEntry three_entries
unfolding stored encode_runs
three_entries-IsEntry = (
  record {
    name = omega arith;
    is_dat = omega arith;
    content = omega arith;
    marked = (inl (λ e. cc), fox_runs-IsRun);
  },
  (
    record {
      name = omega arith;
      is_dat = omega arith;
      content = omega arith;
      marked = (inr (codes "fox", refl), fox_runs-IsRun);
    },
    (
      record {
        name = omega arith;
        is_dat = omega arith;
        content = omega arith;
        marked = (refl, plain_name);
      },
      tt,
    ),
  ),
)

kept_three : keep_entries three_entries empty ≡ record {
  items =
      (codes "_code_uk_monster.txt", codes "Fox120" ++ 0x0d ∷ [])
      ∷ (codes "fox.dat", codes "Fox120" ++ 0x0d ∷ [])
      ∷ (codes "fox.txt", codes "Fox")
      ∷ [];
}
unfolding keep_entries put text_of_runs
kept_three = refl

read-write_example :
    read_archive_entries (write_archive three_entries) ≡ ok (keep_entries three_entries empty)
read-write_example = read-write_archive three_entries (omega arith) three_entries-IsEntry

names_run :
    parse_monster_text (codes "zts1e\tBaby Fox\r\nzts200e\tMountain Turtle\r\n")
    ≡ ok (record { items = (pos 1, codes "Baby Fox") ∷ (pos 200, codes "Mountain Turtle") ∷ [] })
unfolding parse_monster_text put starts_with int? strip
names_run = refl

abbrev gun : SpellInfo
gun = record {
  vnum = pos 876;
  name = codes "zts562e";
  key = pos 562;
  skill_type = pos 1;
  class_id = pos 38;
  target_type = pos 0;
  range = pos 0;
  cast_time = pos 0;
  cooldown = pos 0;
  mp_cost = pos 0;
}

skill_run :
    parse_skill_text (codes "\tVNUM\t876\t\r\n\tNAME\tzts562e\t\r\n\tTYPE\t1\t10\t38\t\r\n") empty
    ≡ ok (record { items = (pos 876, gun) ∷ [] })
unfolding parse_skill_text put get split_once strip int?
skill_run = refl

skill_example : gun.vnum ≡ pos 876
unfolding get
skill_example =
    parse_skill_text-Each (codes "\tVNUM\t876\t\r\n\tNAME\tzts562e\t\r\n\tTYPE\t1\t10\t38\t\r\n")
      empty (record { items = (pos 876, gun) ∷ [] }) skill_run (pos 876) gun refl
