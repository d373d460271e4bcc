-- ===== src/Bot/Ready.antt =====
-- linux/host/ntpl/gui.py: the rule that `_select_spell_rule` chooses.
use nostale_packet_logger.Base.{
  ℕ, suc, ◌+◌, ◌≡◌, refl, sym, subst, inl, inr, Bool, true, false, not, ◌&&◌, Option, none, some,
  List, [], ◌∷◌, arith, Bool-cases, if◌then◌else◌, get_elem?, take,
}
use nostale_packet_logger.Base.Int.{ℤ, pos, leb_ℤ}
use nostale_packet_logger.Base.Keys.{nat_eq, int_eq}
use nostale_packet_logger.Base.Dict.{get}
use nostale_packet_logger.World.{Entity}
use nostale_packet_logger.Bot.{Bot, Rule}
use nostale_packet_logger.Bot.Rules.{
  is_known, has_slot, slot_of, is_cooling, has_target, lacks_mp, spell_condition_met, known_skills,
  spell_target, select_from, select_spell_rule,
}

-- A rule that may fire now, on this monster.
pub record IsReady (b : Bot) (m : Option Entity) (id : Option ℤ) (index : ℕ) (r : Rule)
    : Type 0 where
  pub is_on : r.enabled ≡ true
  pub names_spell : leb_ℤ r.spell (pos 0) ≡ false
  pub is_learned : is_known (known_skills b) r.spell ≡ true
  pub is_slotted : has_slot (slot_of b r.spell) ≡ true
  pub is_cool : is_cooling b index r ≡ false
  pub is_aimed : has_target b r (spell_target b r) m id ≡ true
  pub is_paid : lacks_mp b (get b.spells r.spell) ≡ false
  pub is_met : spell_condition_met b r ≡ true

module _ (b : Bot) (m : Option Entity) (id : Option ℤ) where
  abbrev ready_test : ℕ → Rule → Bool
  ready_test index r =
      r.enabled
      && not (leb_ℤ r.spell (pos 0))
      && is_known (known_skills b) r.spell
      && has_slot (slot_of b r.spell)
      && not (is_cooling b index r)
      && has_target b r (spell_target b r) m id
      && not (lacks_mp b (get b.spells r.spell))
      && spell_condition_met b r

  select_from-cons :
      (index : ℕ) (r : Rule) (rs : List Rule)
      → select_from b m id index (r ∷ rs)
        ≡ (if ready_test index r then some (index, r) else select_from b m id (suc index) rs)
  unfolding select_from
  select_from-cons index r rs = ground arith

  select_from-on :
      (index : ℕ) (r : Rule) (rs : List Rule)
      → ready_test index r ≡ true
      → select_from b m id index (r ∷ rs) ≡ some (index, r)
  select_from-on index r rs on = ground (arith, select_from-cons index r rs)

  select_from-off :
      (index : ℕ) (r : Rule) (rs : List Rule)
      → ready_test index r ≡ false
      → select_from b m id index (r ∷ rs) ≡ select_from b m id (suc index) rs
  select_from-off index r rs off = ground (arith, select_from-cons index r rs)

  ready_test-IsReady : (index : ℕ) (r : Rule) → ready_test index r ≡ true → IsReady b m id index r
  ready_test-IsReady index r h = ground arith

  IsReady-ready_test : (index : ℕ) (r : Rule) → IsReady b m id index r → ready_test index r ≡ true
  IsReady-ready_test index r h = ground arith

  -- None of the rules is ready, counted from an index.
  abbrev pub NoneReady : ℕ → List Rule → Type 0
  NoneReady index [] = Unit
  NoneReady index (r ∷ rs) = (IsReady b m id index r → ⊥) × NoneReady (suc index) rs

  -- The choice: a ready rule at its place in the list with none ready before it, or nothing where no
  -- rule is ready.
  abbrev pub IsFirst : ℕ → List Rule → Option (ℕ × Rule) → Type 0
  IsFirst index rs none = NoneReady index rs
  IsFirst index rs (some (i, r)) =
      (k : ℕ) × (i ≡ index + k)
      × (get_elem? rs k ≡ some r)
      × IsReady b m id i r
      × NoneReady index (take k rs)

  not_ready : (index : ℕ) (r : Rule) → ready_test index r ≡ false → IsReady b m id index r → ⊥
  not_ready index r off h = cc (IsReady-ready_test index r h)

  later-IsFirst :
      (index : ℕ) (r : Rule) (rs : List Rule) (o : Option (ℕ × Rule))
      → (IsReady b m id index r → ⊥)
      → IsFirst (suc index) rs o
      → IsFirst index (r ∷ rs) o
  later-IsFirst index r rs none off h = (off, h)
  later-IsFirst index r rs (some (i, r')) off (k, at, elem, ready, before) =
      (suc k, omega arith, elem, ready, (off, before))

  pub select_from-IsFirst :
      (index : ℕ) (rs : List Rule) → IsFirst index rs (select_from b m id index rs)
  unfolding select_from
  select_from-IsFirst index [] = tt
  select_from-IsFirst index (r ∷ rs) = elim (Bool-cases (ready_test index r)) [
    | inl on ↦
        subst (λ (o : Option (ℕ × Rule)). IsFirst index (r ∷ rs) o)
          (sym (select_from-on index r rs on))
          (0, omega arith, refl, ready_test-IsReady index r on, tt)
    | inr off ↦
        subst (λ (o : Option (ℕ × Rule)). IsFirst index (r ∷ rs) o)
          (sym (select_from-off index r rs off))
          (later-IsFirst index r rs (select_from b m id (suc index) rs) (not_ready index r off)
            (select_from-IsFirst (suc index) rs))
  ]

-- `_select_spell_rule` returns the first rule of the list that is ready, with its index, and None
-- exactly when no rule is ready.
pub select_spell_rule-IsFirst :
    (b : Bot) (m : Option Entity) (id : Option ℤ)
    → IsFirst b m id 0 b.settings.rules (select_spell_rule b m id)
unfolding select_spell_rule
select_spell_rule-IsFirst b m id = select_from-IsFirst b m id 0 b.settings.rules
