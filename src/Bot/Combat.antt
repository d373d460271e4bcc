-- ===== src/Bot/Combat.antt =====
-- linux/host/ntpl/gui.py: the part of `_bot_tick` on combat.
use nostale_packet_logger.Base.{
  ℕ, min, Bool, true, false, not, Option, none, some, List, [], ◌∷◌, if◌then◌else◌, leb,
}
use nostale_packet_logger.Base.Int.{ℤ, pos, pos_part, ltb_ℤ, leb_ℤ, ◌+ℤ◌}
use nostale_packet_logger.Base.Keys.{◌==◌, int_eq, nat_eq}
use nostale_packet_logger.Base.Dict.{Dict, get}
use nostale_packet_logger.World.{Entity}
use nostale_packet_logger.Spells.{SpellInfo}
use nostale_packet_logger.MapData.Search.{node_eq}
use nostale_packet_logger.Bot.{Bot, Rule, cast, own_char_id, player_cell, cells_between}
use nostale_packet_logger.Bot.Targets.{nearest_monster, retaliation_target}
use nostale_packet_logger.Bot.Rules.{
  skill_send_id, lacks_mp, micros, max_ℤ, basic_skill_vnum, select_spell_rule,
}
use nostale_packet_logger.Bot.Actions.{
  send, ensure_target, cast_spell, chase_step, attack_walk_delay,
}
use nostale_packet_logger.Bot.Parts.{Step}

abbrev pub or_nearest : Bot × Option Entity → ℕ → Bot × Option Entity
or_nearest (b, some e) radius = (b, some e)
or_nearest (b, none) radius = nearest_monster b radius

-- The monster of a tick: the one that hits the character, or the nearest.
unfoldable pub choose_monster : Bot → Bot × Option Entity
choose_monster b =
    let radius = b.settings.attack_range in
    or_nearest (if b.settings.retaliate then retaliation_target b radius else (b, none)) radius

-- The vnum of the basic attack; 0 counts as none.
unfoldable pub basic_vnum : Bot → Option ℤ
basic_vnum b = if ltb_ℤ (pos 0) b.settings.skill then some b.settings.skill else basic_skill_vnum b

abbrev pub info_at : Dict ℤ SpellInfo → Option ℤ → Option SpellInfo
info_at spells none = none
info_at spells (some v) = if v == pos 0 then none else get spells v

unfoldable pub basic_info : Bot → Option SpellInfo
basic_info b = info_at b.spells (basic_vnum b)

unfoldable pub range_with : ℕ → Option SpellInfo → ℕ
range_with radius none = radius
range_with radius (some info) =
    if ltb_ℤ (pos 0) info.range then min radius (pos_part info.range) else radius

-- basic_in_range, of the chosen monster.
unfoldable pub basic_in_range : Bot → Option Entity → Bool
basic_in_range b none = false
basic_in_range b (some e) = elim (player_cell b) [
  | none ↦ false
  | some cell ↦
      leb (cells_between (e.x, e.y) cell) (range_with b.settings.attack_range (basic_info b))
]

unfoldable pub basic_cooldown : ℤ → Option SpellInfo → ℤ
basic_cooldown delay none = max_ℤ delay (pos 1000000)
basic_cooldown delay (some info) =
    max_ℤ (max_ℤ delay (micros info.cooldown)) (micros info.cast_time)

abbrev pub pause_of : Option SpellInfo → ℤ
pause_of none = pos 0
pause_of (some info) = micros info.cast_time

-- The packet of the basic attack and the times that follow it.
unfoldable pub send_basic : Bot → Entity → ℤ → Bot
send_basic b e slot =
    let info = basic_info b in
    record (send b (cast slot (pos 3) e.entity_id)).0 {
      last_attack_sent_at = b.now;
      attack_cooldown_until = b.now +ℤ basic_cooldown b.settings.attack_cooldown info;
      walk_not_before = b.now +ℤ max_ℤ attack_walk_delay (pause_of info);
    }

abbrev pub basic_slot : Bot → Option ℤ
basic_slot b =
    if ltb_ℤ (pos 0) b.settings.skill then skill_send_id b b.settings.skill else some (pos 0)

unfoldable pub basic_with : Bot → Entity → Option ℤ → Step
basic_with b e none = (b, none)
basic_with b e (some slot) =
    let (b', ready) = ensure_target b e.entity_id in
    (if ready then send_basic b' e slot else b', some true)

-- The basic attack on a monster in range.
unfoldable pub basic_attack : Bot → Entity → Step
basic_attack b e = if lacks_mp b (basic_info b) then (b, none) else basic_with b e (basic_slot b)

-- Walking to a monster out of range, where no route is drawn.
unfoldable pub chase_part : Bot → Entity → Step
chase_part b e = let (b', walking) = chase_step b e in (b', if walking then some true else none)

abbrev pub chase_unless : List (ℤ × ℤ) → Bot → Entity → Step
chase_unless [] b e = chase_part b e
chase_unless (goal ∷ goals) b e = (b, none)

-- What is done about a monster when no rule fires.
unfoldable pub attack_or_chase : Bot → Entity → Bool → Step
attack_or_chase b e in_range =
    if not (leb_ℤ b.attack_cooldown_until b.now)
    then (b, none)
    else if in_range
    then basic_attack b e
    else chase_unless b.bot_goals b e

-- A monster in range holds the bot back from the next leg of its route.
abbrev pub hold : Bool → Step → Step
hold true (b, none) = (b, some true)
hold stays step = step

unfoldable pub without_rule : Bot → Option Entity → Step
without_rule b none = (b, none)
without_rule b (some e) =
    let in_range = basic_in_range b (some e) in hold in_range (attack_or_chase b e in_range)

abbrev pub is_some : Option Entity → Bool
is_some none = false
is_some (some e) = true

unfoldable pub with_rule : Bot → Option Entity → ℕ → Rule → Step
with_rule b m index r =
    if leb_ℤ b.attack_cooldown_until b.now
    then (let (b', done) = cast_spell b index r m (own_char_id b) in
        if done then (b', some true) else hold (is_some m) (b', none))
    else hold (is_some m) (b, none)

unfoldable pub fight : Bot → Option Entity → Option (ℕ × Rule) → Step
fight b m (some (index, r)) = with_rule b m index r
fight b m none = without_rule b m

-- The part on combat.
unfoldable pub combat_part : Bot → Step
combat_part b =
    if b.settings.auto_attack
    then (let (b', m) = choose_monster b in fight b' m (select_spell_rule b' m (own_char_id b')))
    else (b, none)
