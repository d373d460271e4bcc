-- ===== src/Bot/Start.antt =====
-- linux/host/ntpl/gui.py: the start of the bot (`_start_bot`).
use nostale_packet_logger.Base.{
  true, false, not, ◌&&◌, ◌||◌, Option, none, some, List, [], ◌∷◌, if◌then◌else◌,
}
use nostale_packet_logger.Base.Int.{ℤ, pos}
use nostale_packet_logger.Base.Keys.{◌==◌}
use nostale_packet_logger.Base.Dict.{empty}
use nostale_packet_logger.MapData.Search.{node_eq}
use nostale_packet_logger.Bot.{Bot, player_cell}
use nostale_packet_logger.Bot.Parts.{ask_on}
use nostale_packet_logger.Bot.Travel.{Travel, legs_to, no_targets, start_travel}

-- path_cells[-1]
unfoldable pub last_cell : ℤ × ℤ → List (ℤ × ℤ) → ℤ × ℤ
last_cell cell [] = cell
last_cell cell (next ∷ path) = last_cell next path

-- The goals of a route: the legs of the drawn path, or else the waypoints.
unfoldable pub route_goals : List (ℤ × ℤ) → List (ℤ × ℤ) → List (ℤ × ℤ)
unfolding last_cell
route_goals [] waypoints = waypoints
route_goals (cell ∷ path) waypoints = legs_to (cell ∷ path) (last_cell cell path)

-- The state in which the bot starts to run.
unfoldable pub begin : Bot → List (ℤ × ℤ) → Bot
begin b goals = record b {
  bot_goals = goals;
  running = true;
  path_index = 0;
  pending_target = none;
  stand_sent_until = pos 0;
  attack_cooldown_until = pos 0;
  walk_not_before = pos 0;
  rejected_walks = 0;
  pickup_cooldown_until = pos 0;
  pickup_attempts = empty;
  pickup_ignored = empty;
  recovering = false;
  recover_rest_at = pos 0;
  last_attack_sent_at = pos 0;
  last_cancel_count = 0;
}

unfoldable pub begin_route : Travel → Travel
unfolding begin
begin_route t = record t { bot = begin t.bot (route_goals t.path_cells t.waypoints) }

unfoldable pub start_from : Travel → ℤ × ℤ → Option (ℤ × ℤ) → Travel
unfolding begin_route
start_from t here none = begin_route t
start_from t here (some start) =
    if not (here == start)
    then start_travel (record t { start_when_located = false }) start true
    else begin_route t

unfoldable pub start_at : Travel → Option (ℤ × ℤ) → Travel
unfolding start_from
start_at t none = record t { start_when_located = true; bot = ask_on t.bot.link t.bot }
start_at t (some here) = start_from t here t.path_start

-- _start_bot
unfoldable pub start_bot : Travel → Travel
unfolding start_at
start_bot t =
    let s = t.bot.settings in
    if t.bot.running
    then t
    else if no_targets t.path_cells && not (s.auto_attack || s.pickup || s.recover)
    then t
    else start_at t (player_cell t.bot)
