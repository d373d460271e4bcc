-- ===== src/Engine/SkillOrder.antt =====
-- The skill list that `ski` builds in linux/host/ntpl/engine.py, and the slots read from it.
use nostale_packet_logger.Base.{
  ℕ, zero, suc, ◌<◌, ◌≡◌, ◌↔◌, refl, sym, ap, ◌∙◌, Bool, true, false, ◌||◌, Option, none, some,
  List, [], ◌∷◌, ◌++◌, arith, any, Bool-cases, Option-cases, inl, inr, length, get_elem?,
}
use nostale_packet_logger.Base.Int.{ℤ, pos, int_beq_iff}
use nostale_packet_logger.Base.Keys.{int_eq}
use nostale_packet_logger.Base.Dict.{Dict, get, lookup}
use nostale_packet_logger.World.{WorldState, index_of, skill_slot, skill_vnum, slot_or_learned}
use nostale_packet_logger.Handlers.Skills.{
  contains, add_new, add_pages, page_or_empty, keys, insert, sorted, ordered_skills,
}
use nostale_packet_logger.Engine.WellFormed.{IsWellFormed}

-- No value twice.
abbrev pub Distinct : List ℤ → Type 0
Distinct [] = Unit
Distinct (v ∷ vs) = (contains vs v ≡ false) × Distinct vs

contains-append :
    (xs ys : List ℤ) (v : ℤ) → contains (xs ++ ys) v ≡ (contains xs v || contains ys v)
contains-append [] ys v = refl
contains-append (x ∷ xs) ys v = ground (arith, contains-append xs ys v)

Distinct-append :
    (xs : List ℤ) (v : ℤ) → Distinct xs → contains xs v ≡ false → Distinct (xs ++ v ∷ [])
Distinct-append [] v h new = (refl, tt)
Distinct-append (x ∷ xs) v h new = (
  ground (arith, contains-append xs (v ∷ []) x, int_beq_iff v x, int_beq_iff x v),
  Distinct-append xs v h.1 (ground arith),
)

contains-add_new :
    (ordered vs : List ℤ) (v : ℤ)
    → contains (add_new ordered vs) v ≡ (contains ordered v || contains vs v)
unfolding add_new
contains-add_new ordered [] v = ground arith
contains-add_new ordered (u ∷ vs) v = elim (Bool-cases (contains ordered u)) [
  | inl e ↦ rw e (ground (arith, contains-add_new ordered vs v, int_beq_iff u v))
  | inr e ↦ rw e (
      ground (arith, contains-add_new (ordered ++ u ∷ []) vs v, contains-append ordered (u ∷ []) v))
]

Distinct-add_new : (ordered vs : List ℤ) → Distinct ordered → Distinct (add_new ordered vs)
unfolding add_new
Distinct-add_new ordered [] h = h
Distinct-add_new ordered (v ∷ vs) h = elim (Bool-cases (contains ordered v)) [
  | inl e ↦ rw e (Distinct-add_new ordered vs h)
  | inr e ↦ rw e (Distinct-add_new (ordered ++ v ∷ []) vs (Distinct-append ordered v h e))
]

contains-add_pages :
    (ordered : List ℤ) (pages : Dict ℤ (List ℤ)) (ks : List ℤ) (v : ℤ)
    → contains (add_pages ordered pages ks) v
      ≡ (contains ordered v || any (λ k. contains (page_or_empty (get pages k)) v) ks)
unfolding add_pages
contains-add_pages ordered pages [] v = ground arith
contains-add_pages ordered pages (k ∷ ks) v = ground (
  arith,
  contains-add_pages (add_new ordered (page_or_empty (get pages k))) pages ks v,
  contains-add_new ordered (page_or_empty (get pages k)) v,
)

Distinct-add_pages :
    (ordered : List ℤ) (pages : Dict ℤ (List ℤ)) (ks : List ℤ)
    → Distinct ordered
    → Distinct (add_pages ordered pages ks)
unfolding add_pages
Distinct-add_pages ordered pages [] h = h
Distinct-add_pages ordered pages (k ∷ ks) h =
    Distinct-add_pages (add_new ordered (page_or_empty (get pages k))) pages ks
      (Distinct-add_new ordered (page_or_empty (get pages k)) h)

any-insert : (p : ℤ → Bool) (k : ℤ) (ks : List ℤ) → any p (insert k ks) ≡ (p k || any p ks)
unfolding insert
any-insert p k [] = refl
any-insert p k (j ∷ js) = ground (arith, any-insert p k js)

any-sorted : (p : ℤ → Bool) (ks : List ℤ) → any p (sorted ks) ≡ any p ks
unfolding sorted
any-sorted p [] = refl
any-sorted p (k ∷ ks) = any-insert p k (sorted ks) ∙ ap (λ b. p k || b) (any-sorted p ks)

any-eq_true : (p : ℤ → Bool) (ks : List ℤ) → any p ks ≡ true → (k : ℤ) × (p k ≡ true)
any-eq_true p [] h = cc
any-eq_true p (k ∷ ks) h = elim (Bool-cases (p k)) [
  | inl e ↦ (k, e)
  | inr e ↦ any-eq_true p ks (ground arith)
]

any-keys :
    (p : ℤ → Bool) (k : ℤ) (items : List (ℤ × List ℤ)) (vs : List ℤ)
    → lookup k items ≡ some vs
    → p k ≡ true
    → any p (keys items) ≡ true
unfolding lookup keys
any-keys p k [] vs h e = cc
any-keys p k ((j, w) ∷ items) vs h e = ground (arith, any-keys p k items vs, int_beq_iff j k)

page_of :
    (o : Option (List ℤ)) (v : ℤ)
    → contains (page_or_empty o) v ≡ true
    → (vs : List ℤ) × (o ≡ some vs) × (contains vs v ≡ true)
page_of none v h = cc
page_of (some vs) v h = (vs, refl, h)

contains-ordered_skills :
    (pages : Dict ℤ (List ℤ)) (v : ℤ)
    → contains (ordered_skills pages) v
      ≡ any (λ k. contains (page_or_empty (get pages k)) v) (keys pages.items)
unfolding ordered_skills
contains-ordered_skills pages v =
    contains-add_pages [] pages (sorted (keys pages.items)) v
    ∙ any-sorted (λ k. contains (page_or_empty (get pages k)) v) (keys pages.items)

-- The ordered list has no skill twice, and has exactly the skills of the pages.
pub ordered_skills_lem :
    (pages : Dict ℤ (List ℤ))
    → Distinct (ordered_skills pages)
      × ((v : ℤ)
          → (contains (ordered_skills pages) v ≡ true)
            ↔ ((k : ℤ) × (vs : List ℤ) × (get pages k ≡ some vs) × (contains vs v ≡ true)))
unfolding ordered_skills get
ordered_skills_lem pages = (
  Distinct-add_pages [] pages (sorted (keys pages.items)) tt,
  λ v. (
    λ h.
        let (k, e) =
          any-eq_true (λ k. contains (page_or_empty (get pages k)) v) (keys pages.items)
            (sym (contains-ordered_skills pages v) ∙ h) in
        let (vs, found, there) = page_of (get pages k) v e in (k, vs, found, there),
    λ (k, vs, found, there).
        contains-ordered_skills pages v
        ∙ any-keys (λ j. contains (page_or_empty (get pages j)) v) k pages.items vs found
            (rw (found) there),
  ),
)

index_of_sound :
    (v : ℤ) (ns : List ℤ) (i : ℕ)
    → index_of v ns ≡ some i
    → (get_elem? ns i ≡ some v) × (i < length ns)
unfolding index_of
index_of_sound v [] i h = cc
index_of_sound v (n ∷ ns) zero h = ground (arith, int_beq_iff n v)
index_of_sound v (n ∷ ns) (suc i) h = ground (arith, index_of_sound v ns i)

contains_of_get : (v : ℤ) (ns : List ℤ) (i : ℕ) → get_elem? ns i ≡ some v → contains ns v ≡ true
contains_of_get v [] i h = cc
contains_of_get v (n ∷ ns) zero h = ground (arith, int_beq_iff n v)
contains_of_get v (n ∷ ns) (suc i) h = ground (arith, contains_of_get v ns i)

index_of_complete :
    (v : ℤ) (ns : List ℤ) (i : ℕ) → Distinct ns → get_elem? ns i ≡ some v → index_of v ns ≡ some i
unfolding index_of
index_of_complete v [] i d h = cc
index_of_complete v (n ∷ ns) zero d h = ground (arith, int_beq_iff n v)
index_of_complete v (n ∷ ns) (suc i) d h =
    ground (arith, int_beq_iff n v, contains_of_get v ns i, index_of_complete v ns i d.1)

contains-eq_false : (v : ℤ) (ns : List ℤ) → index_of v ns ≡ none → contains ns v ≡ false
unfolding index_of
contains-eq_false v [] h = refl
contains-eq_false v (n ∷ ns) h = ground (arith, contains-eq_false v ns)

skill_slot-listed :
    (w : WorldState) (v : ℤ) (i : ℕ)
    → index_of v w.skill_list ≡ some i
    → skill_slot w v ≡ some (pos i)
unfolding skill_slot
skill_slot-listed w v i e = rw (e, slot_or_learned)

skill_vnum-listed :
    (w : WorldState) (i : ℕ)
    → i < length w.skill_list
    → skill_vnum w (pos i) ≡ get_elem? w.skill_list i
unfolding skill_vnum
skill_vnum-listed w i h = ground arith

-- In a well-formed world the skill list and the slots agree. A listed skill has a slot, at which it
-- is read back; and the skill that is read at a slot of the list has that slot.
pub skill_slot-skill_vnum :
    (w : WorldState)
    → IsWellFormed w
    → ((v : ℤ)
        → contains w.skill_list v ≡ true
        → (s : ℤ) × (skill_slot w v ≡ some s) × (skill_vnum w s ≡ some v))
      × ((i : ℕ) (v : ℤ)
          → i < length w.skill_list
          → skill_vnum w (pos i) ≡ some v
          → skill_slot w v ≡ some (pos i))
skill_slot-skill_vnum w h = (
  λ v there. elim (Option-cases (index_of v w.skill_list)) [
    | inl e ↦ cc (contains-eq_false v w.skill_list e)
    | inr (i, e) ↦
        let (at, lt) = index_of_sound v w.skill_list i e in
        (pos i, skill_slot-listed w v i e, skill_vnum-listed w i lt ∙ at)
  ],
  λ i v lt e. skill_slot-listed w v i (
      index_of_complete v w.skill_list i (rw h.skills (ordered_skills_lem w.skill_pages).0)
        (sym (skill_vnum-listed w i lt) ∙ e)),
)
