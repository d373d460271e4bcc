-- ===== src/Bot/Actions.antt =====
-- linux/host/ntpl/gui.py: what the bot sends, and what it remembers of it.
use Prim.Native.Nat.{max}
use nostale_packet_logger.Base.{
  ℕ, suc, ◌-◌, ◌*◌, ◌/◌, min, Bool, true, false, not, Option, none, some, List, [], ◌∷◌, ◌++◌,
  if◌then◌else◌, ltb, length, get_elem?,
}
use nostale_packet_logger.Base.Int.{ℤ, pos, negsuc, ltb_ℤ, ◌+ℤ◌}
use nostale_packet_logger.Base.Keys.{◌==◌, int_eq, nat_eq}
use nostale_packet_logger.Base.Dict.{empty, get, put}
use nostale_packet_logger.World.{Entity}
use nostale_packet_logger.Spells.{SpellInfo}
use nostale_packet_logger.MapData.{MapGrid, inside, is_walkable}
use nostale_packet_logger.MapData.Search.{astar, node_eq}
use nostale_packet_logger.Bot.{
  Bot, Rule, SpellTarget, monster, self, Command, ncif, cast, select_entity, move, Link, up, down,
  failing, player_cell, cells_between,
}
use nostale_packet_logger.Bot.Targets.{target_blocked}
use nostale_packet_logger.Bot.Rules.{spell_target, skill_send_id, lacks_mp, micros, max_ℤ}

-- _stop_bot; the timer, the start that waits for the position, and the walk to a clicked cell, which it
-- stops too, are left out.
unfoldable pub stop_bot : Bot → Bot
stop_bot b = record b {
  running = false;
  pending_target = none;
  target_blocked = empty;
  recovering = false;
}

-- What a command does on the link when it succeeds.
unfoldable pub emit : Bot → Command → Bot
emit b c = record b { sent = b.sent ++ c ∷ [] }

abbrev pub send_on : Link → Bot → Command → Bot × Bool
send_on up b c = (emit b c, true)
send_on down b c = (b, false)
send_on failing b c = (record (stop_bot b) { link = down }, false)

-- _send and _client_move
unfoldable pub send : Bot → Command → Bot × Bool
unfolding emit stop_bot
send b c = send_on b.link b c

abbrev pub select_on : Link → Bot → ℤ → Bot × Bool
select_on up b id = (emit b (select_entity id), true)
select_on failing b id = (record b { link = down }, false)
select_on down b id = (b, false)

-- _client_target
unfoldable pub client_target : Bot → ℤ → Bot × Bool
unfolding emit
client_target b id = if b.dll_target_supported then select_on b.link b id else (b, false)

-- _ensure_target
unfoldable pub ensure_target : Bot → ℤ → Bot × Bool
ensure_target b id =
    let (blocked, held) = target_blocked b.now b.target_blocked id in
    let b' = record b { target_blocked = blocked } in
    if held
    then (b', false)
    else (let (b'', selected) = client_target b' id in
        (if selected then b'' else (send b'' (ncif id)).0, true))

abbrev pub attack_walk_delay : ℤ
attack_walk_delay = pos 400000

abbrev pub animation_time : Option SpellInfo → ℤ
animation_time none = pos 0
animation_time (some info) = micros info.cast_time

-- The packet of a spell and the times that follow it.
unfoldable pub send_spell : Bot → ℕ → Rule → ℤ → ℤ → Option ℤ → Bot × Bool
send_spell b index r kind id none = (b, false)
send_spell b index r kind id (some slot) =
    let info = get b.spells r.spell in
    let b' = (send b (cast slot kind id)).0 in
    (
      record b' {
        last_attack_sent_at = b.now;
        attack_cooldown_until = b.now +ℤ max_ℤ b.settings.attack_cooldown (animation_time info);
        walk_not_before = b.now +ℤ max_ℤ attack_walk_delay (animation_time info);
        spell_last_cast = put b'.spell_last_cast index b.now;
      },
      true,
    )

unfoldable pub cast_at : Bot → ℕ → Rule → Option Entity → Option ℤ → SpellTarget → Bot × Bool
cast_at b index r m none self = (b, false)
cast_at b index r m (some id) self = send_spell b index r (pos 1) id (skill_send_id b r.spell)
cast_at b index r none id monster = (b, false)
cast_at b index r (some e) id monster =
    let (b', ready) = ensure_target b e.entity_id in
    if ready
    then send_spell b' index r (pos 3) e.entity_id (skill_send_id b' r.spell)
    else (b', false)

-- _cast_spell
unfoldable pub cast_spell : Bot → ℕ → Rule → Option Entity → Option ℤ → Bot × Bool
cast_spell b index r m id =
    if lacks_mp b (get b.spells r.spell)
    then (b, false)
    else cast_at b index r m id (spell_target b r)

-- _advance_path
unfoldable pub advance_path : Bot → Bot
unfolding stop_bot
advance_path b =
    if ltb (suc b.path_index) (length b.bot_goals)
    then record b { path_index = suc b.path_index }
    else if b.settings.loop
    then record b { path_index = 0 }
    else stop_bot (record b { path_index = suc b.path_index })

abbrev pub around : List (ℤ × ℤ)
around =
    (pos 1, pos 0)
    ∷ (negsuc 0, pos 0)
    ∷ (pos 0, pos 1)
    ∷ (pos 0, negsuc 0)
    ∷ (pos 1, pos 1)
    ∷ (negsuc 0, negsuc 0)
    ∷ (pos 1, negsuc 0)
    ∷ (negsuc 0, pos 1)
    ∷ []

unfoldable pub first_walkable : MapGrid → ℤ × ℤ → List (ℤ × ℤ) → Option (ℤ × ℤ)
first_walkable g (x, y) [] = none
first_walkable g (x, y) ((dx, dy) ∷ ds) =
    let more = first_walkable g (x, y) ds in
    if is_walkable g (x +ℤ dx) (y +ℤ dy) then some (x +ℤ dx, y +ℤ dy) else more

-- _approach_cell
unfoldable pub approach_cell : MapGrid → Entity → Option (ℤ × ℤ)
unfolding first_walkable
approach_cell g e =
    if inside g e.x e.y
    then (if is_walkable g e.x e.y then some (e.x, e.y) else first_walkable g (e.x, e.y) around)
    else none

-- The time for a leg of so many millionths of a cell.
unfoldable pub leg_timeout : ℕ → ℤ
leg_timeout distance = pos (min 60000000 (max 3000000 (distance * 5 / 2)))

-- The fourth cell of a path of at least two, or its last.
unfoldable pub leg_of : Option (Option (List (ℤ × ℤ))) → Option (ℤ × ℤ)
leg_of (some (some path)) =
    if ltb (length path) 2 then none else get_elem? path (min 3 (length path - 1))
leg_of _ = none

unfoldable pub chase_leg : Bot → Entity → ℤ × ℤ → Option (ℤ × ℤ) → Bot × Bool
chase_leg b e cell none = (b, false)
chase_leg b e cell (some leg) =
    if leg == cell
    then (b, false)
    else (let (b', ready) = ensure_target b e.entity_id in
        if not ready
        then (b', false)
        else (let (b'', moved) = send b' (move leg.0 leg.1) in
            let distance = cells_between leg cell * 1000000 in
            if moved
            then (
              record b'' {
                pending_target = some leg;
                pending_since = b.now;
                pending_distance = distance;
                pending_until = b.now +ℤ leg_timeout distance;
              },
              true,
            )
            else (b'', false)))

unfoldable pub chase_to : Bot → Entity → MapGrid → ℤ × ℤ → Option (ℤ × ℤ) → Bot × Bool
chase_to b e g cell none = (b, false)
chase_to b e g cell (some goal) = chase_leg b e cell (leg_of (astar g cell goal))

unfoldable pub chase_from : Bot → Entity → Option MapGrid → Option (ℤ × ℤ) → Bot × Bool
chase_from b e (some g) (some cell) =
    if ltb_ℤ b.now b.walk_not_before then (b, true) else chase_to b e g cell (approach_cell g e)
chase_from b e _ _ = (b, false)

unfoldable pub chase_if_idle : Bot → Entity → Option (ℤ × ℤ) → Bot × Bool
chase_if_idle b e (some cell) = (b, false)
chase_if_idle b e none = chase_from b e b.map_grid (player_cell b)

-- _chase_step
unfoldable pub chase_step : Bot → Entity → Bot × Bool
unfolding chase_if_idle
chase_step b e = chase_if_idle b e b.pending_target
