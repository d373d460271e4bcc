-- ===== src/Bot/Rules.antt =====
-- linux/host/ntpl/gui.py: the slots of spells, and the rule that fires.
use nostale_packet_logger.Base.{
  ℕ, suc, ◌+◌, ◌*◌, Bool, true, false, not, ◌&&◌, ◌||◌, Option, none, some, List, [], ◌∷◌,
  if◌then◌else◌, ltb, any,
}
use nostale_packet_logger.Base.Int.{ℤ, pos, negsuc, pos_part, neg_part, ltb_ℤ, leb_ℤ, ◌+ℤ◌}
use nostale_packet_logger.Base.Keys.{◌==◌, int_eq, nat_eq, text_eq}
use nostale_packet_logger.Base.Dict.{Dict, get, put}
use nostale_packet_logger.Python.{codes}
use nostale_packet_logger.World.{Entity, CharacterStats, index_of, key_of, skill_slot}
use nostale_packet_logger.Spells.{SpellInfo, target_mode}
use nostale_packet_logger.Bot.{
  Bot, Rule, Subject, Comparator, SpellTarget, always, my_hp, my_mp, below, above, monster, self,
  player_cell, cells_between,
}

-- 100.0 * value / maximum < percent, for a positive maximum.
unfoldable pub is_below : ℤ → ℤ → ℕ → Bool
is_below value maximum percent =
    ltb (100 * pos_part value) (percent * pos_part maximum + 100 * neg_part value)

unfoldable pub is_above : ℤ → ℤ → ℕ → Bool
is_above value maximum percent =
    ltb (percent * pos_part maximum + 100 * neg_part value) (100 * pos_part value)

unfoldable pub compare_level : Comparator → ℤ → ℤ → ℕ → Bool
unfolding is_below is_above
compare_level above value maximum percent = is_above value maximum percent
compare_level below value maximum percent = is_below value maximum percent

unfoldable pub level_met : Rule → ℤ → ℤ → Bool
unfolding compare_level
level_met r value maximum =
    ltb_ℤ (pos 0) maximum && compare_level r.comparator value maximum r.threshold

unfoldable pub subject_met : Subject → Rule → CharacterStats → Bool
unfolding level_met
subject_met always r s = true
subject_met my_mp r s = level_met r s.mp s.mp_max
subject_met my_hp r s = level_met r s.hp s.hp_max

-- _spell_condition_met
unfoldable pub spell_condition_met : Bot → Rule → Bool
unfolding subject_met
spell_condition_met b r = subject_met r.subject r b.world.stats

abbrev list_or : List ℤ → List ℤ → List ℤ
list_or [] other = other
list_or (n ∷ ns) other = n ∷ ns

-- _known_skills
unfoldable pub known_skills : Bot → List ℤ
known_skills b = list_or b.world.skill_list b.log_skill_list

unfoldable pub update : Dict ℤ ℤ → List (ℤ × ℤ) → Dict ℤ ℤ
update d [] = d
update d ((k, v) ∷ l) = update (put d k v) l

-- _learned_slots
unfoldable pub learned_slots : Bot → Dict ℤ ℤ
unfolding update
learned_slots b = update b.log_skill_slots b.world.skill_learned.items

abbrev slot_in : Option ℕ → Option ℤ → Option ℤ
slot_in (some i) other = some (pos i)
slot_in none other = other

abbrev slot_or : Option ℤ → Option ℤ → Option ℤ
slot_or (some slot) other = some slot
slot_or none other = other

-- _skill_slot
unfoldable pub slot_of : Bot → ℤ → Option ℤ
unfolding learned_slots index_of key_of
slot_of b vnum =
    if leb_ℤ vnum (pos 0)
    then none
    else slot_or (skill_slot b.world vnum)
        (slot_in (index_of vnum b.log_skill_list) (key_of vnum (learned_slots b).items))

abbrev first_of : List ℤ → Option ℤ
first_of [] = none
first_of (n ∷ ns) = some n

-- _basic_skill_vnum
unfoldable pub basic_skill_vnum : Bot → Option ℤ
basic_skill_vnum b = slot_or b.world.basic_skill (
    slot_or (get b.log_skill_slots (pos 0))
      (slot_or (first_of b.world.skill_list) (first_of b.log_skill_list)))

-- _skill_send_id
unfoldable pub skill_send_id : Bot → ℤ → Option ℤ
skill_send_id b vnum = if leb_ℤ vnum (pos 0) then some (pos 0) else slot_of b vnum

-- `info is not None and info.target_mode in ("self", "ally")`
unfoldable pub is_on_self : Option SpellInfo → Bool
unfolding target_mode
is_on_self none = false
is_on_self (some info) = target_mode info == codes "self" || target_mode info == codes "ally"

-- _spell_target
unfoldable pub spell_target : Bot → Rule → SpellTarget
unfolding is_on_self
spell_target b r = if is_on_self (get b.spells r.spell) then self else r.target

unfoldable pub in_reach : Option (ℤ × ℤ) → Option SpellInfo → Option Entity → Bool
in_reach (some cell) (some info) (some e) =
    leb_ℤ info.range (pos 0) || leb_ℤ (pos (cells_between (e.x, e.y) cell)) info.range
in_reach _ _ _ = true

-- _spell_in_range
unfoldable pub spell_in_range : Bot → Option SpellInfo → Option Entity → Bool
unfolding is_on_self in_reach
spell_in_range b info m = is_on_self info || in_reach (player_cell b) info m

-- A decisecond of the catalog, in microseconds.
unfoldable pub micros : ℤ → ℤ
micros (pos n) = pos (n * 100000)
micros (negsuc n) = negsuc (n * 100000 + 99999)

abbrev cooldown_time : Option SpellInfo → ℤ
cooldown_time none = pos 0
cooldown_time (some info) = micros info.cooldown

abbrev pub max_ℤ : ℤ → ℤ → ℤ
max_ℤ a b = if ltb_ℤ a b then b else a

-- Whether the rule of this index waits for its cooldown.
unfoldable pub is_cooling : Bot → ℕ → Rule → Bool
unfolding micros
is_cooling b index r = ltb_ℤ b.now (
    (elim (get b.spell_last_cast index) [ none ↦ pos 0 | some t ↦ t ])
    +ℤ max_ℤ r.cooldown (cooldown_time (get b.spells r.spell)))

unfoldable pub has_target : Bot → Rule → SpellTarget → Option Entity → Option ℤ → Bool
unfolding spell_in_range
has_target b r self m none = false
has_target b r self m (some id) = true
has_target b r monster none id = false
has_target b r monster (some e) id = spell_in_range b (get b.spells r.spell) (some e)

-- `info is not None and info.mp_cost > 0 and stats.mp < info.mp_cost`
unfoldable pub lacks_mp : Bot → Option SpellInfo → Bool
lacks_mp b none = false
lacks_mp b (some info) = ltb_ℤ (pos 0) info.mp_cost && ltb_ℤ b.world.stats.mp info.mp_cost

unfoldable pub is_known : List ℤ → ℤ → Bool
is_known [] v = true
is_known (n ∷ ns) v = any (λ k. k == v) (n ∷ ns)

unfoldable pub has_slot : Option ℤ → Bool
has_slot none = false
has_slot (some slot) = true

-- _select_spell_rule, from a rule of this index on.
unfoldable pub select_from : Bot → Option Entity → Option ℤ → ℕ → List Rule → Option (ℕ × Rule)
select_from b m id index [] = none
select_from b m id index (r ∷ rs) =
    let rest = select_from b m id (suc index) rs in
    if not r.enabled || leb_ℤ r.spell (pos 0)
    then rest
    else if not (is_known (known_skills b) r.spell)
    then rest
    else if not (has_slot (slot_of b r.spell))
    then rest
    else if is_cooling b index r
    then rest
    else if not (has_target b r (spell_target b r) m id)
    then rest
    else if lacks_mp b (get b.spells r.spell)
    then rest
    else if spell_condition_met b r
    then some (index, r)
    else rest

-- _select_spell_rule
unfoldable pub select_spell_rule : Bot → Option Entity → Option ℤ → Option (ℕ × Rule)
unfolding select_from
select_spell_rule b m id = select_from b m id 0 b.settings.rules
