-- ===== src/Bot/Parts.antt =====
-- linux/host/ntpl/gui.py: the parts of `_bot_tick` before combat. A part answers with `some` where
-- the tick returns, and with `none` where it goes on.
use Prim.Native.Nat.{max}
use nostale_packet_logger.Base.{
  ℕ, suc, ◌+◌, ◌*◌, ◌/◌, Bool, true, false, not, ◌&&◌, ◌||◌, Option, none, some, if◌then◌else◌, ltb,
  leb, length,
}
use nostale_packet_logger.Base.Int.{ℤ, pos, ltb_ℤ, leb_ℤ, ◌+ℤ◌, ◌-ℤ◌}
use nostale_packet_logger.Base.Keys.{◌==◌, int_eq, nat_eq}
use nostale_packet_logger.Base.Dict.{get, put}
use nostale_packet_logger.World.{GroundItem, position}
use nostale_packet_logger.MapData.Search.{node_eq}
use nostale_packet_logger.Bot.{
  Bot, rest, take_drop, where_am_i, Link, up, down, failing, own_char_id, player_cell,
  cells_between,
}
use nostale_packet_logger.Bot.Targets.{nearest_drop}
use nostale_packet_logger.Bot.Rules.{is_below}
use nostale_packet_logger.Bot.Actions.{stop_bot, emit, send, advance_path}

abbrev pub Step : Type 0
Step = Bot × Option Bool

-- The tick goes on, or returns.
infixr 2 ◌⊳◌
abbrev pub ◌⊳◌ : Step → (Bot → Step) → Step
(b, none) ⊳ f = f b
(b, some again) ⊳ f = (b, some again)

-- A cancelled cast is tried again at once.
unfoldable pub cancel_retry : Bot → Bot
cancel_retry b =
    if b.world.cancel_count == b.last_cancel_count
    then b
    else if ltb_ℤ (b.now -ℤ b.last_attack_sent_at) (pos 2000000)
    then record b {
      last_cancel_count = b.world.cancel_count;
      attack_cooldown_until = b.now +ℤ pos 100000;
    }
    else record b { last_cancel_count = b.world.cancel_count }

abbrev pub is_sitting : Option Bool → Bool
is_sitting (some true) = true
is_sitting _ = false

unfoldable pub start_recovering : Bot → Bot
unfolding is_below
start_recovering b =
    if not b.recovering && is_below b.world.stats.hp b.world.stats.hp_max b.settings.low_hp_pct
    then record b { recovering = true; pending_target = none; attack_cooldown_until = pos 0 }
    else b

-- What a bot that recovers does.
unfoldable pub go_on_recovering : Bot → ℤ → Step
go_on_recovering b id =
    if leb_ℤ b.world.stats.hp_max b.world.stats.hp
    then (let b' = record b { recovering = false } in
        (if is_sitting b.world.resting then (send b' (rest id)).0 else b', some true))
    else if not (is_sitting b.world.resting) && leb_ℤ b.recover_rest_at b.now
    then (record (send b (rest id)).0 { recover_rest_at = b.now +ℤ pos 2500000 }, some true)
    else (b, some true)

unfoldable pub recover_as : Bot → Option ℤ → Step
recover_as b none = (record b { recovering = false }, none)
recover_as b (some id) =
    if b.settings.recover && ltb_ℤ (pos 0) b.world.stats.hp_max
    then (let b' = start_recovering b in
        if b'.recovering then go_on_recovering b' id else (b', none))
    else (record b { recovering = false }, none)

-- The part on recovery.
unfoldable pub recover_part : Bot → Step
recover_part b = recover_as b (own_char_id b)

abbrev pub ask_on : Link → Bot → Bot
ask_on up b = emit b where_am_i
ask_on failing b = record b { link = down }
ask_on down b = b

-- _travel_request_position
unfoldable pub request_position : Bot → Bot
request_position b =
    if ltb_ℤ (b.now -ℤ b.travel_pos_at) (pos 200000)
    then b
    else ask_on b.link (record b { travel_pos_at = b.now })

-- The walk that was pending is over.
unfoldable pub leg_done : Bot → Bot
leg_done b = advance_path (record b { pending_target = none; rejected_walks = 0 })

abbrev pub max_rejected_walks : ℕ
max_rejected_walks = 3

-- A walk that was not confirmed in time.
unfoldable pub leg_failed : Bot → Step
leg_failed b =
    if leb max_rejected_walks (suc b.rejected_walks)
    then (stop_bot (record b { rejected_walks = suc b.rejected_walks }), some false)
    else (
      advance_path (record b { rejected_walks = suc b.rejected_walks; pending_target = none }),
      some true,
    )

unfoldable pub is_near_end : Option (ℤ × ℤ) → ℤ × ℤ → Bool
is_near_end none target = false
is_near_end (some cell) target = leb (cells_between cell target) 1

unfoldable pub is_at : Option (ℤ × ℤ) → ℤ × ℤ → Bool
is_at none target = false
is_at (some cell) target = cell == target

-- `last_move` is the last `tp` or `mv` packet: a kind, an id and a cell; kind 1 is a character.
unfoldable pub is_move_to : Option (ℤ × ℤ × ℤ × ℤ) → ℤ × ℤ → Bool
is_move_to none target = false
is_move_to (some (kind, _, x, y)) target = kind == pos 1 && (x, y) == target

unfoldable pub is_confirmed : Bot → ℤ × ℤ → Bool
is_confirmed b target =
    is_at (position b.world) target
    || (leb_ℤ b.pending_since b.last_move_time && is_move_to b.last_move target)

-- The earliest time at which an arrival counts.
unfoldable pub ready_at : Bot → ℤ
ready_at b = b.pending_since +ℤ pos (max 350000 (b.pending_distance * 9 / 20))

unfoldable pub pending_walk : Bot → ℤ × ℤ → Step
pending_walk b target =
    if (ltb (b.path_index + 1) (length b.bot_goals) || b.settings.loop)
      && is_near_end (player_cell b) target
      && leb_ℤ (pos 350000) (b.now -ℤ b.pending_since)
    then (leg_done b, some true)
    else if is_confirmed b target && leb_ℤ (ready_at b) b.now
    then (leg_done b, some true)
    else if ltb_ℤ b.pending_until b.now
    then leg_failed b
    else (b, some true)

unfoldable pub pending_with : Bot → Option (ℤ × ℤ) → Step
pending_with b none = (b, none)
pending_with b (some target) = pending_walk (request_position b) target

-- The part on a walk that is pending.
unfoldable pub pending_part : Bot → Step
unfolding pending_with
pending_part b = pending_with b b.pending_target

unfoldable pub stand_as : Bot → Option ℤ → Step
stand_as b none = (b, none)
stand_as b (some id) =
    if is_sitting b.world.resting && leb_ℤ b.stand_sent_until b.now
    then (record (send b (rest id)).0 { stand_sent_until = b.now +ℤ pos 2000000 }, some true)
    else (b, none)

-- The part on standing up.
unfoldable pub stand_part : Bot → Step
stand_part b = stand_as b (own_char_id b)

unfoldable pub picked : Bot → GroundItem → Bot
picked b d =
    let attempts = (elim (get b.pickup_attempts d.drop_id) [ none ↦ 0 | some n ↦ n ]) + 1 in
    record b {
      pickup_attempts = put b.pickup_attempts d.drop_id attempts;
      pickup_ignored =
          if leb 3 attempts
          then put b.pickup_ignored d.drop_id (b.now +ℤ pos 15000000)
          else b.pickup_ignored;
      pickup_cooldown_until = b.now +ℤ pos 600000;
    }

unfoldable pub pick_up : Bot → ℤ → Option GroundItem → Step
pick_up b id none = (b, none)
pick_up b id (some d) =
    let (b', done) = send b (take_drop id d.drop_id) in
    (if done then picked b' d else b', some true)

unfoldable pub pickup_as : Bot → Option ℤ → Step
pickup_as b none = (b, none)
pickup_as b (some id) =
    if b.settings.pickup && leb_ℤ b.pickup_cooldown_until b.now
    then pick_up b id (nearest_drop b b.settings.loot_range)
    else (b, none)

-- The part on drops.
unfoldable pub pickup_part : Bot → Step
pickup_part b = pickup_as b (own_char_id b)
