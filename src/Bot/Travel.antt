-- ===== src/Bot/Travel.antt =====
-- linux/host/ntpl/gui.py: the walk to a clicked cell (`_start_travel`, `_travel_tick`) and the legs of a
-- route.
use nostale_packet_logger.Base.{
  ℕ, suc, Bool, true, false, not, ◌&&◌, ◌||◌, Option, none, some, List, [], ◌∷◌, ◌++◌,
  if◌then◌else◌, leb, length, get_elem?,
}
use nostale_packet_logger.Base.Int.{ℤ, pos, ltb_ℤ, leb_ℤ, ◌-ℤ◌}
use nostale_packet_logger.Base.Keys.{◌==◌}
use nostale_packet_logger.MapData.{MapGrid}
use nostale_packet_logger.MapData.Search.{astar, node_eq}
use nostale_packet_logger.Bot.{Bot, rest, move, own_char_id, player_cell}
use nostale_packet_logger.Bot.Actions.{send}
use nostale_packet_logger.Bot.Parts.{is_sitting, is_near_end, is_at, request_position}

-- The attributes of Application that are about the walk and the drawn route. `starts_bot` tells whether the bot is to be
-- started on arrival, and `queued` how often its start has been queued; `retries` are the walks that
-- wait for the character to stand up.
pub record Travel : Type 0 where
  pub bot : Bot
  pub closing : Bool
  pub targets : List (ℤ × ℤ)
  pub index : ℕ
  pub pending : Option ((ℤ × ℤ) × ℤ)
  pub timer : Bool
  pub starts_bot : Bool
  pub queued : ℕ
  pub retries : List ((ℤ × ℤ) × Bool)
  pub waypoints : List (ℤ × ℤ)
  pub path_cells : List (ℤ × ℤ)
  pub path_start : Option (ℤ × ℤ)
  pub start_when_located : Bool

-- path[2], path[5], …
unfoldable pub every_third : List (ℤ × ℤ) → List (ℤ × ℤ)
every_third (a ∷ b ∷ c ∷ path) = c ∷ every_third path
every_third _ = []

unfoldable pub ends_in : List (ℤ × ℤ) → ℤ × ℤ → Bool
ends_in [] cell = false
ends_in (x ∷ []) cell = x == cell
ends_in (x ∷ y ∷ l) cell = ends_in (y ∷ l) cell

-- The legs along a path to a cell.
unfoldable pub legs_to : List (ℤ × ℤ) → ℤ × ℤ → List (ℤ × ℤ)
unfolding ends_in
legs_to path cell =
    let legs = every_third path in if ends_in legs cell then legs else legs ++ cell ∷ []

-- _stop_travel
unfoldable pub stop_travel : Travel → Travel
stop_travel t = record t {
  targets = [];
  index = 0;
  pending = none;
  timer = false;
  starts_bot = false;
}

-- _finish_travel
unfoldable pub finish_travel : Travel → Travel
finish_travel t = record t {
  targets = [];
  index = 0;
  pending = none;
  timer = false;
  starts_bot = false;
  queued = if t.starts_bot then suc t.queued else t.queued;
}

unfoldable pub travel_along : Travel → ℤ × ℤ → Bool → Option (Option (List (ℤ × ℤ))) → Travel
unfolding legs_to
travel_along t cell starts (some (some path)) = record t {
  bot = record t.bot { travel_pos_at = pos 0 };
  targets = legs_to path cell;
  index = 0;
  pending = none;
  timer = true;
  starts_bot = starts;
}
travel_along t cell starts _ = t

unfoldable pub stand_first : Travel → ℤ × ℤ → Bool → Option ℤ → Travel
stand_first t cell starts none = t
stand_first t cell starts (some id) =
    let (b, done) = send t.bot (rest id) in
    if done
    then record t { bot = b; retries = t.retries ++ (cell, starts) ∷ [] }
    else record t { bot = b }

unfoldable pub travel_from : Travel → ℤ × ℤ → Bool → Option MapGrid → Option (ℤ × ℤ) → Travel
unfolding stand_first travel_along
travel_from t cell starts (some grid) (some here) =
    if here == cell
    then t
    else if is_sitting t.bot.world.resting
    then stand_first t cell starts (own_char_id t.bot)
    else travel_along t cell starts (astar grid here cell)
travel_from t cell starts _ _ = t

-- _start_travel
unfoldable pub start_travel : Travel → ℤ × ℤ → Bool → Travel
unfolding stop_travel travel_from
start_travel t cell starts =
    travel_from (stop_travel t) cell starts t.bot.map_grid (player_cell t.bot)

unfoldable pub next_leg : Travel → Travel
next_leg t = record t { index = suc t.index; pending = none }

unfoldable pub on_leg : Travel → Option (ℤ × ℤ) → ℤ × ℤ → ℤ → Travel × Bool
on_leg t actual target sent_at =
    let last_leg = leb (length t.targets) (suc t.index) in
    let waited = leb_ℤ (pos 350000) (t.bot.now -ℤ sent_at) in
    if last_leg && is_at actual target
    then (finish_travel t, false)
    else if not last_leg && (is_near_end actual target && waited)
    then (next_leg t, true)
    else if not last_leg && (is_at actual target && waited)
    then (next_leg t, true)
    else if ltb_ℤ (pos 5000000) (t.bot.now -ℤ sent_at)
    then (if last_leg then (stop_travel t, false) else (next_leg t, true))
    else (t, true)

unfoldable pub leg_from : Travel → Option (ℤ × ℤ) → Option (ℤ × ℤ) → Travel × Bool
leg_from t actual none = (finish_travel t, false)
leg_from t actual (some target) =
    if is_at actual target
    then (record t { index = suc t.index }, true)
    else (let (b, moved) = send t.bot (move target.0 target.1) in
        if moved
        then (record t { bot = b; pending = some (target, b.now) }, true)
        else (stop_travel (record t { bot = b }), false))

unfoldable pub travel_with : Travel → Option (ℤ × ℤ) → Option ((ℤ × ℤ) × ℤ) → Travel × Bool
unfolding on_leg leg_from
travel_with t actual (some (target, sent_at)) = on_leg t actual target sent_at
travel_with t actual none = leg_from t actual (get_elem? t.targets t.index)

abbrev pub no_targets : List (ℤ × ℤ) → Bool
no_targets [] = true
no_targets (x ∷ l) = false

-- _travel_tick
unfoldable pub travel_tick : Travel → Travel × Bool
unfolding travel_with
travel_tick t =
    if t.closing || (t.bot.running || no_targets t.targets)
    then (record t { timer = false }, false)
    else (let b = request_position t.bot in
        travel_with (record t { bot = b }) (player_cell b) t.pending)
