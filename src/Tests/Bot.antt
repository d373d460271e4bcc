-- ===== src/Tests/Bot.antt =====
-- Runs of the bot's tick, and its theorems at concrete inputs.
use nostale_packet_logger.Base.{◌≡◌, refl, true, false, none, some, [], ◌∷◌}
use nostale_packet_logger.Base.Int.{ℤ, pos, ◌+ℤ◌, ◌-ℤ◌}
use nostale_packet_logger.Base.Keys.{int_eq}
use nostale_packet_logger.Base.Dict.{empty, get, remove}
use nostale_packet_logger.World.{WorldState, Entity, new_world, skill_slot}
use nostale_packet_logger.Bot.{
  Bot, Settings, Rule, cast, select_entity, up, all, always, below, monster, player_cell,
  own_char_id, cells_between,
}
use nostale_packet_logger.Bot.Targets.{
  nearest_monster, nearest_drop, retaliation_target, monster_allowed,
}
use nostale_packet_logger.Bot.Rules.{
  select_spell_rule, is_known, known_skills, slot_of, has_slot, is_cooling, has_target, lacks_mp,
  spell_condition_met, spell_target, skill_send_id,
}
use nostale_packet_logger.Bot.Tick.{bot_tick, hypot, running_tick}
use nostale_packet_logger.Bot.Combat.{combat_part, fight, choose_monster, with_rule}
use nostale_packet_logger.Bot.Parts.{
  recover_part, recover_as, cancel_retry, pending_part, stand_part, stand_as, pickup_part,
  pickup_as, pick_up,
}
use nostale_packet_logger.Bot.Actions.{
  cast_spell, cast_at, send_spell, ensure_target, client_target, send,
}
use nostale_packet_logger.Bot.Nearest.{IsNearest, nearest_monster-IsNearest}
use nostale_packet_logger.Bot.Ready.{IsFirst, select_spell_rule-IsFirst}
use nostale_packet_logger.Bot.Sends.{Sends}
use nostale_packet_logger.Bot.Fair.{IsFair}
use nostale_packet_logger.MapData.{MapGrid}
use nostale_packet_logger.Bot.Travel.{Travel, legs_to, start_travel, every_third}
use nostale_packet_logger.Bot.Start.{start_bot}
use nostale_packet_logger.Bot.Legs.{Started, start_travel-LegsTo}
use nostale_packet_logger.Bot.Timeout.{bot_tick-late}
use nostale_packet_logger.Bot.WholeTick.{bot_tick-Sends}

abbrev wolf : ℤ → ℤ → Entity
wolf id x = record {
  entity_id = id;
  kind = pos 3;
  vnum = pos 200;
  name = [];
  x = x;
  y = pos 5;
  speed = pos 0;
}

abbrev meadow : WorldState
meadow = record new_world {
  x = some (pos 5);
  y = some (pos 5);
  self_id = some (pos 77);
  entities = record { items = (pos 1, wolf (pos 1) (pos 12)) ∷ (pos 2, wolf (pos 2) (pos 7)) ∷ [] };
  skill_list = pos 240 ∷ pos 241 ∷ [];
}

abbrev bolt : Rule
bolt = record {
  enabled = true;
  spell = pos 241;
  subject = always;
  comparator = below;
  threshold = 50;
  cooldown = pos 3000000;
  target = monster;
}

abbrev fighter : Settings
fighter = record {
  auto_attack = true;
  retaliate = true;
  skill = pos 0;
  attack_range = 10;
  attack_cooldown = pos 500000;
  pickup = true;
  loot_range = 5;
  recover = true;
  low_hp_pct = 30;
  loop = false;
  monster_mode = all;
  target_vnums = [];
  attack_unknown = true;
  rules = bolt ∷ [];
}

abbrev hunting : Bot
hunting = record {
  running = true;
  link = up;
  now = pos 100000000;
  wall = pos 100000000;
  settings = fighter;
  world = meadow;
  map_grid = none;
  spells = empty;
  log_vnums = empty;
  log_skill_list = [];
  log_skill_slots = empty;
  char_id = none;
  pos_cell = none;
  pos_at = pos 0;
  dll_target_supported = true;
  target_blocked = empty;
  bot_goals = (pos 9, pos 5) ∷ [];
  path_index = 0;
  pending_target = none;
  pending_since = pos 0;
  pending_until = pos 0;
  pending_distance = 0;
  travel_pos_at = pos 0;
  last_move = none;
  last_move_time = pos 0;
  rejected_walks = 0;
  recovering = false;
  recover_rest_at = pos 0;
  stand_sent_until = pos 0;
  attack_cooldown_until = pos 0;
  walk_not_before = pos 0;
  last_attack_sent_at = pos 0;
  last_cancel_count = 0;
  spell_last_cast = empty;
  pickup_cooldown_until = pos 0;
  pickup_attempts = empty;
  pickup_ignored = empty;
  sent = [];
}

-- The nearer wolf is selected, and the spell of slot 1 is cast at it.
casts_at_nearer :
    (bot_tick hunting).0.sent ≡ select_entity (pos 2) ∷ cast (pos 1) (pos 3) (pos 2) ∷ []
unfolding bot_tick running_tick recover_part recover_as cancel_retry pending_part stand_part
    stand_as pickup_part pickup_as pick_up own_char_id player_cell nearest_drop nearest_monster
    retaliation_target combat_part fight choose_monster with_rule select_spell_rule is_known
    known_skills slot_of has_slot is_cooling has_target lacks_mp spell_condition_met spell_target
    skill_send_id cast_spell cast_at send_spell ensure_target client_target send skill_slot ◌+ℤ◌ get
    monster_allowed cells_between ◌-ℤ◌ remove
casts_at_nearer = refl

hypot-pythagoras : hypot 3 4 ≡ 5000000
unfolding hypot
hypot-pythagoras = refl

nearest_monster_example : IsNearest hunting 10 (pos 5, pos 5) (nearest_monster hunting 10).1
unfolding player_cell
nearest_monster_example = nearest_monster-IsNearest hunting 10 (pos 5, pos 5) refl

select_spell_rule_example :
    IsFirst hunting
      (some (wolf (pos 2) (pos 7)))
      (some (pos 77))
      0
      (bolt ∷ [])
      (select_spell_rule hunting (some (wolf (pos 2) (pos 7))) (some (pos 77)))
select_spell_rule_example =
    select_spell_rule-IsFirst hunting (some (wolf (pos 2) (pos 7))) (some (pos 77))

bot_tick-Sends_example : Sends (IsFair hunting) hunting (bot_tick hunting).0
bot_tick-Sends_example = bot_tick-Sends hunting

-- A walk whose time is over; the character stands elsewhere.
abbrev late_walker : Bot
late_walker = record hunting { pending_target = some (pos 9, pos 5) }

bot_tick-late_example : (bot_tick late_walker).0.pending_target ≡ none
bot_tick-late_example = bot_tick-late late_walker (pos 9, pos 5) refl refl refl refl

-- A lane of four free cells, with the character at its start.
abbrev lane : MapGrid
lane = record { map_id = pos 1; width = 4; height = 1; cells = 0 ∷ 0 ∷ 0 ∷ 0 ∷ [] }

abbrev idler : Bot
idler = record hunting {
  running = false;
  world = record meadow { x = some (pos 0); y = some (pos 0) };
  map_grid = some lane;
}

abbrev at_rest : Travel
at_rest = record {
  bot = idler;
  closing = false;
  targets = [];
  index = 0;
  pending = none;
  timer = false;
  starts_bot = false;
  queued = 0;
  retries = [];
  waypoints = [];
  path_cells = [];
  path_start = none;
  start_when_located = false;
}

-- A path of four cells has its third and its last cell as legs.
legs_to-four :
    legs_to ((pos 1, pos 0) ∷ (pos 2, pos 0) ∷ (pos 3, pos 0) ∷ (pos 4, pos 0) ∷ []) (pos 4, pos 0)
    ≡ (pos 3, pos 0) ∷ (pos 4, pos 0) ∷ []
unfolding legs_to every_third
legs_to-four = refl

-- Without a route the bot starts in the place where it stands.
start_bot-in_place : (start_bot at_rest).bot.running ≡ true
unfolding start_bot player_cell
start_bot-in_place = refl

start_travel-LegsTo_example :
    Started lane (pos 0, pos 0) (pos 3, pos 0) (start_travel at_rest (pos 3, pos 0) false)
unfolding player_cell
start_travel-LegsTo_example =
    start_travel-LegsTo at_rest (pos 3, pos 0) false lane (pos 0, pos 0) refl refl refl refl
