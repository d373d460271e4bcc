-- ===== src/Bot/Tick.antt =====
-- linux/host/ntpl/gui.py: walking the route, and the whole of `_bot_tick`.
use nostale_packet_logger.Base.{
  ℕ, zero, suc, ◌+◌, ◌*◌, ◌/◌, Bool, true, false, not, ◌||◌, Option, none, some, List, [], ◌∷◌,
  if◌then◌else◌, ltb, leb, length, get_elem?,
}
use nostale_packet_logger.Base.Int.{ℤ, nat_abs, ltb_ℤ, ◌+ℤ◌, ◌-ℤ◌}
use nostale_packet_logger.Base.Keys.{◌==◌, int_eq, nat_eq}
use nostale_packet_logger.MapData.Search.{node_eq}
use nostale_packet_logger.Bot.{Bot, move, Link, down, player_cell}
use nostale_packet_logger.Bot.Actions.{stop_bot, send, advance_path, leg_timeout}
use nostale_packet_logger.Bot.Parts.{
  Step, ◌⊳◌, cancel_retry, recover_part, pending_part, stand_part, pickup_part,
}
use nostale_packet_logger.Bot.Combat.{combat_part}

-- The whole part of the square root of a number below 4 ^ the first one.
unfoldable pub isqrt : ℕ → ℕ → ℕ
isqrt zero n = 0
isqrt (suc f) n = let r = 2 * isqrt f (n / 4) in if leb ((r + 1) * (r + 1)) n then r + 1 else r

-- math.hypot, in millionths of a cell.
unfoldable pub hypot : ℕ → ℕ → ℕ
unfolding isqrt
hypot dx dy = isqrt 64 ((dx * dx + dy * dy) * 1000000000000)

unfoldable pub travelled : ℤ × ℤ → Option (ℤ × ℤ) → ℕ
unfolding hypot
travelled target none = 0
travelled target (some cell) = hypot (nat_abs (target.0 -ℤ cell.0)) (nat_abs (target.1 -ℤ cell.1))

unfoldable pub walk_toward : Bot → ℤ × ℤ → Step
walk_toward b target =
    let (b', moved) = send b (move target.0 target.1) in
    let travel = travelled target (player_cell b) in
    if moved
    then (
      record b' {
        pending_target = some target;
        pending_since = b.now;
        pending_distance = travel;
        pending_until = b.now +ℤ leg_timeout travel;
      },
      some true,
    )
    else (b', some true)

abbrev pub is_current : Option (ℤ × ℤ) → ℤ × ℤ → Bool
is_current none target = false
is_current (some cell) target = cell == target

unfoldable pub leg_to : Bot → Option (ℤ × ℤ) → Step
leg_to b none = (b, some true)
leg_to b (some target) =
    if is_current (player_cell b) target
    then (advance_path b, some true)
    else if ltb_ℤ b.now b.walk_not_before
    then (b, some true)
    else walk_toward b target

-- The next leg of the route, which starts again at its end or stops the bot.
unfoldable pub route_part : Bot → Step
route_part b =
    if ltb b.path_index (length b.bot_goals)
    then leg_to b (get_elem? b.bot_goals b.path_index)
    else if b.settings.loop
    then leg_to (record b { path_index = 0 }) (get_elem? b.bot_goals 0)
    else (stop_bot b, some false)

unfoldable pub walk_along : List (ℤ × ℤ) → Bot → Step
walk_along [] b =
    if b.settings.auto_attack || b.settings.pickup || b.settings.recover
    then (b, some true)
    else (stop_bot b, some false)
walk_along (goal ∷ goals) b = route_part b

-- The part on walking; without a route the bot stays while it has something else to do.
unfoldable pub walk_part : Bot → Step
unfolding walk_along
walk_part b = walk_along b.bot_goals b

unfoldable pub running_tick : Bot → Step
running_tick b = recover_part b ⊳ λ b1.
    pending_part b1 ⊳ λ b2. stand_part b2 ⊳ λ b3. pickup_part b3 ⊳ λ b4. combat_part b4 ⊳ walk_part

abbrev pub tick_on : Link → Bot → Step
tick_on down b = (stop_bot b, some false)
tick_on l b = running_tick (cancel_retry b)

-- _bot_tick
unfoldable pub bot_tick : Bot → Step
bot_tick b = if not b.running then (b, some false) else tick_on b.link b
