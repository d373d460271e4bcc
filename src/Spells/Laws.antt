-- ===== src/Spells/Laws.antt =====
-- linux/host/ntpl/spells.py: the fuel of `split_all` is enough, and the catalog's keys.
use nostale_packet_logger.Base.{
  ℕ, zero, suc, ◌≤◌, ◌<◌, ◌≡◌, refl, sym, ap, subst, inl, inr, ◌||◌, not, Option, none, some, List,
  [], ◌∷◌, arith, length, length-drop, Bool-cases, Option-cases,
}
use nostale_packet_logger.Base.Int.{ℤ}
use nostale_packet_logger.Base.Keys.{Text, ◌==◌, int_eq, text_eq}
use nostale_packet_logger.Base.Dict.{empty, get}
use nostale_packet_logger.Base.Each.{Each, Each-empty, Each-put}
use nostale_packet_logger.Python.{codes, starts_with, split_once, put_front, lstrip, rstrip}
use nostale_packet_logger.Python.Errors.{Result, ok, raise, ◌>>=◌, IfOk, of_ok}
use nostale_packet_logger.MonsterNames.Archive.{Names, match_key}
use nostale_packet_logger.Spells.{
  SpellInfo, Groups, field_values, fields, split_all, is_margin, name_key, key_number, spell_of,
}
use nostale_packet_logger.Spells.Catalog.{
  Catalog, add_spell, add_named, add_numbered, add_block, add_blocks, vnum_of, parse_skill_text,
  separator,
}

-- What is behind the separator is shorter than `n`.
abbrev RestBelow : ℕ → Option (Text × Text) → Type 0
RestBelow n none = Unit
RestBelow n (some (a, b)) = length b < n

put_front-RestBelow :
    (n c : ℕ) (o : Option (Text × Text)) → RestBelow n o → RestBelow (suc n) (put_front c o)
unfolding put_front
put_front-RestBelow n c none h = tt
put_front-RestBelow n c (some (a, b)) h = omega arith

split_once-RestBelow :
    (c : ℕ) (sep text : Text) → RestBelow (length text) (split_once (c ∷ sep) text)
unfolding split_once starts_with
split_once-RestBelow c sep [] = tt
split_once-RestBelow c sep (d ∷ text) = elim (Bool-cases (starts_with (c ∷ sep) (d ∷ text))) [
  | inl e ↦ rw e (omega (arith, length-drop (length sep) text))
  | inr e ↦ rw e (
      put_front-RestBelow (length text) d (split_once (c ∷ sep) text)
        (split_once-RestBelow c sep text))
]

split_all_nil : (n c : ℕ) (sep : Text) → split_all n (c ∷ sep) [] ≡ [] ∷ []
unfolding split_all split_once starts_with
split_all_nil zero c sep = refl
split_all_nil (suc n) c sep = refl

-- Any fuel from the length of the text on gives the same parts, for a separator that is not empty.
split_all_fuel :
    (c : ℕ) (sep : Text) (n m : ℕ) (text : Text)
    → length text ≤ n
    → length text ≤ m
    → split_all n (c ∷ sep) text ≡ split_all m (c ∷ sep) text
unfolding split_all
split_all_fuel c sep zero zero text hn hm = refl
split_all_fuel c sep zero (suc m) [] hn hm = sym (split_all_nil (suc m) c sep)
split_all_fuel c sep zero (suc m) (d ∷ text) hn hm = absurd (omega arith)
split_all_fuel c sep (suc n) zero [] hn hm = split_all_nil (suc n) c sep
split_all_fuel c sep (suc n) zero (d ∷ text) hn hm = absurd (omega arith)
split_all_fuel c sep (suc n) (suc m) text hn hm = elim (Option-cases (split_once (c ∷ sep) text)) [
  | inl e ↦ rw (split_all, e)
  | inr (parts, e) ↦
      let less : length parts.1 < length text =
        subst (RestBelow (length text)) e (split_once-RestBelow c sep text) in
      rw (split_all, e)
        (ap (λ r. parts.0 ∷ r)
          (split_all_fuel c sep n m parts.1 (omega (arith, less)) (omega (arith, less))))
]

abbrev IsNamed : ℤ → SpellInfo → Type 0
IsNamed vnum spell = spell.vnum ≡ vnum

abbrev AllNamed : Result Catalog → Type 0
AllNamed r = IfOk (Each IsNamed) r

add_named-AllNamed :
    (spells : Catalog) (descriptions : Names) (groups : Groups) (vnum : ℤ) (name : Option Text)
    → Each IsNamed spells
    → AllNamed (add_named spells descriptions groups vnum name)
unfolding add_named add_spell spell_of
add_named-AllNamed spells descriptions groups vnum none h = tt
add_named-AllNamed spells descriptions groups vnum (some name) h =
    added (key_number (match_key name))
  where
    added : (key : Option ℤ) → AllNamed (add_spell spells descriptions groups vnum name key)
    added none = tt
    added (some key) =
        Each-put IsNamed spells vnum (spell_of groups vnum name key descriptions) h refl

add_numbered-AllNamed :
    (spells : Catalog) (descriptions : Names) (groups : Groups) (vnum : Option ℤ)
    → Each IsNamed spells
    → AllNamed (add_numbered spells descriptions groups vnum)
unfolding add_numbered
add_numbered-AllNamed spells descriptions groups none h = h
add_numbered-AllNamed spells descriptions groups (some vnum) h =
    add_named-AllNamed spells descriptions groups vnum (name_key (get groups (codes "NAME"))) h

add_block-AllNamed :
    (spells : Catalog) (descriptions : Names) (block : Text)
    → Each IsNamed spells
    → AllNamed (add_block spells descriptions block)
unfolding add_block
add_block-AllNamed spells descriptions block h =
    elim (Bool-cases (block == [] || not (starts_with (codes "VNUM") block))) [
      | inl e ↦ rw e h
      | inr e ↦ rw e (
          add_numbered-AllNamed spells descriptions (fields block)
            (vnum_of (field_values (fields block) (codes "VNUM"))) h)
    ]

then-AllNamed :
    (r : Result Catalog) (next : Catalog → Result Catalog)
    → AllNamed r
    → ((spells : Catalog) → Each IsNamed spells → AllNamed (next spells))
    → AllNamed (r >>= next)
then-AllNamed (raise e) next h f = tt
then-AllNamed (ok spells) next h f = f spells h

add_blocks-AllNamed :
    (spells : Catalog) (descriptions : Names) (blocks : List Text)
    → Each IsNamed spells
    → AllNamed (add_blocks spells descriptions blocks)
unfolding add_blocks
add_blocks-AllNamed spells descriptions [] h = h
add_blocks-AllNamed spells descriptions (block ∷ blocks) h =
    let stripped = rstrip is_margin (lstrip is_margin block) in
    then-AllNamed (add_block spells descriptions stripped)
      (λ spells'. add_blocks spells' descriptions blocks)
      (add_block-AllNamed spells descriptions stripped h)
      (λ spells' h'. add_blocks-AllNamed spells' descriptions blocks h')

parse_skill_text-AllNamed :
    (text : Text) (descriptions : Names) → AllNamed (parse_skill_text text descriptions)
unfolding parse_skill_text
parse_skill_text-AllNamed text descriptions =
    add_blocks-AllNamed empty descriptions (split_all (length text) separator text)
      (Each-empty IsNamed)

-- Every spell of a parsed catalog stands under its own vnum.
pub parse_skill_text-Each :
    (text : Text) (descriptions : Names) (spells : Catalog)
    → parse_skill_text text descriptions ≡ ok spells
    → (vnum : ℤ) (spell : SpellInfo) → get spells vnum ≡ some spell
    → spell.vnum ≡ vnum
parse_skill_text-Each text descriptions spells e vnum spell found =
    (of_ok (Each IsNamed) (parse_skill_text text descriptions) spells
        (parse_skill_text-AllNamed text descriptions) e).at
      vnum spell found
