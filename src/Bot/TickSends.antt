-- ===== src/Bot/TickSends.antt =====
-- linux/host/ntpl/gui.py: what the parts of the tick after recovery may send.
use nostale_packet_logger.Base.{
  ◌+◌, ◌≡◌, ◌≢◌, refl, sym, subst, Bool, true, false, ◌&&◌, ◌||◌, Option, none, some, [], ◌∷◌,
  arith, if◌then◌else◌, leb, ltb, length, suc,
}
use nostale_packet_logger.Base.Int.{ℤ, pos, ltb_ℤ, leb_ℤ, ◌-ℤ◌}
use nostale_packet_logger.Base.Keys.{int_eq, nat_eq}
use nostale_packet_logger.World.{GroundItem}
use nostale_packet_logger.Bot.{
  Bot, Command, rest, take_drop, where_am_i, Link, up, down, failing, own_char_id, player_cell,
}
use nostale_packet_logger.Bot.Targets.{nearest_drop}
use nostale_packet_logger.Bot.Actions.{send, emit, stop_bot, advance_path}
use nostale_packet_logger.Bot.Combat.{combat_part}
use nostale_packet_logger.Bot.Parts.{
  Step, ◌⊳◌, is_sitting, ask_on, request_position, leg_done, leg_failed, pending_walk, pending_with,
  pending_part, stand_as, stand_part, picked, pick_up, max_rejected_walks, pickup_as, pickup_part,
  is_near_end, is_confirmed, ready_at,
}
use nostale_packet_logger.Bot.Tick.{walk_part}
use nostale_packet_logger.Bot.Sends.{Sends, Sends-none, Sends-trans, Sends-either, send-Sends}
use nostale_packet_logger.Bot.Fair.{IsFair, combat_part-Sends}
use nostale_packet_logger.Bot.WalkSends.{
  advance_path-sent, stop_bot-sent, then-Sends, walk_part-Sends,
}

-- A part that sends what is fair, and changes nothing where the tick goes on.
abbrev Stays : Bot → Step → Type 0
Stays b s = Sends (IsFair b) b s.0 × (s.1 ≡ none → s.0 ≡ b)

Stays-when :
    (t : Bool) (b : Bot) (x y : Step)
    → (t ≡ true → Stays b x)
    → Stays b y
    → Stays b (if t then x else y)
Stays-when true b x y hx hy = hx refl
Stays-when false b x y hx hy = hy

Stays-if : (t : Bool) (b : Bot) (x y : Step) → Stays b x → Stays b y → Stays b (if t then x else y)
Stays-if true b x y hx hy = hx
Stays-if false b x y hx hy = hy

Stays-here : (b : Bot) → Stays b (b, none)
Stays-here b = (Sends-none (IsFair b) b b refl, λ _. refl)

stand_as-Stays : (b : Bot) (id : Option ℤ) → own_char_id b ≡ id → Stays b (stand_as b id)
unfolding stand_as
stand_as-Stays b none own = Stays-here b
stand_as-Stays b (some id) own =
    Stays-if (is_sitting b.world.resting && leb_ℤ b.stand_sent_until b.now) b _ (b, none)
      (send-Sends (IsFair b) b (rest id) own, λ e. cc) (Stays-here b)

pick_up-Stays :
    (b : Bot) (id : ℤ) (drop : Option GroundItem)
    → ((d : ℤ) → IsFair b (take_drop id d))
    → Stays b (pick_up b id drop)
unfolding pick_up picked
pick_up-Stays b id none h = Stays-here b
pick_up-Stays b id (some d) h =
    let sends = send-Sends (IsFair b) b (take_drop id d.drop_id) (h d.drop_id) in
    let done = send b (take_drop id d.drop_id) in
    (Sends-either (IsFair b) done.1 b (picked done.0 d) done.0 sends sends, λ e. cc)

pickup_as-Stays :
    (b : Bot) (id : Option ℤ)
    → own_char_id b ≡ id
    → b.pending_target ≡ none
    → Stays b (pickup_as b id)
unfolding pickup_as
pickup_as-Stays b none own idle = Stays-here b
pickup_as-Stays b (some id) own idle =
    Stays-when (b.settings.pickup && leb_ℤ b.pickup_cooldown_until b.now) b _ (b, none)
      (λ on.
        pick_up-Stays b id (nearest_drop b b.settings.loot_range)
          (λ d. (own, idle, ground (arith, on))))
      (Stays-here b)

-- A part at which the tick ends, with nothing sent.
abbrev pub Ends : Bot → Step → Type 0
Ends b s = (s.0.sent ≡ b.sent) × (s.1 ≢ none)

Ends-if : (t : Bool) (b : Bot) (x y : Step) → Ends b x → Ends b y → Ends b (if t then x else y)
Ends-if true b x y hx hy = hx
Ends-if false b x y hx hy = hy

leg_done-Ends : (b : Bot) → Ends b (leg_done b, some true)
unfolding leg_done
leg_done-Ends b =
    (advance_path-sent (record b { pending_target = none; rejected_walks = 0 }), λ e. cc)

leg_failed-Ends : (b : Bot) → Ends b (leg_failed b)
unfolding leg_failed
leg_failed-Ends b =
    let counted = record b { rejected_walks = suc b.rejected_walks } in
    let again = record b { rejected_walks = suc b.rejected_walks; pending_target = none } in
    Ends-if (leb max_rejected_walks (suc b.rejected_walks)) b (stop_bot counted, some false)
      (advance_path again, some true) (stop_bot-sent counted, λ e. cc)
      (advance_path-sent again, λ e. cc)

pub pending_walk-Ends : (b : Bot) (target : ℤ × ℤ) → Ends b (pending_walk b target)
unfolding pending_walk
pending_walk-Ends b target =
    let early =
      (ltb (b.path_index + 1) (length b.bot_goals) || b.settings.loop)
      && is_near_end (player_cell b) target
      && leb_ℤ (pos 350000) (b.now -ℤ b.pending_since) in
    let there = is_confirmed b target && leb_ℤ (ready_at b) b.now in
    let late = ltb_ℤ b.pending_until b.now in
    let waits = if late then leg_failed b else (b, some true) in
    Ends-if early b (leg_done b, some true) (if there then (leg_done b, some true) else waits)
      (leg_done-Ends b)
      (Ends-if there b (leg_done b, some true) waits (leg_done-Ends b)
        (Ends-if late b (leg_failed b) (b, some true) (leg_failed-Ends b) (refl, λ e. cc)))

ask_on-Sends : (P : Command → Type 0) (l : Link) (b : Bot) → P where_am_i → Sends P b (ask_on l b)
unfolding emit
ask_on-Sends P up b h = (where_am_i ∷ [], refl, (h, tt))
ask_on-Sends P down b h = Sends-none P b b refl
ask_on-Sends P failing b h = Sends-none P b (record b { link = down }) refl

request_position-Sends :
    (P : Command → Type 0) (b : Bot) → P where_am_i → Sends P b (request_position b)
unfolding request_position
request_position-Sends P b h =
    let b' = record b { travel_pos_at = b.now } in
    Sends-either P (ltb_ℤ (b.now -ℤ b.travel_pos_at) (pos 200000)) b b (ask_on b.link b')
      (Sends-none P b b refl) (ask_on-Sends P b.link b' h)

-- While a walk is pending the tick ends there, and asks for the position at most.
pending_with-Stays :
    (b : Bot) (pending : Option (ℤ × ℤ))
    → b.pending_target ≡ pending
    → Stays b (pending_with b pending)
      × ((pending_with b pending).1 ≡ none → b.pending_target ≡ none)
unfolding pending_with
pending_with-Stays b none idle = (Stays-here b, λ _. idle)
pending_with-Stays b (some target) waits =
    let asked = request_position-Sends (IsFair b) b (λ idle. cc) in
    let b' = request_position b in
    let (same, ends) = pending_walk-Ends b' target in
    (
      (
        Sends-trans (IsFair b) b b' (pending_walk b' target).0 asked
            (Sends-none (IsFair b) b' (pending_walk b' target).0 same),
        λ e. absurd (ends e),
      ),
      λ e. absurd (ends e),
    )

-- The parts after recovery.
abbrev pub after_recovery : Bot → Step
after_recovery b =
    pending_part b ⊳ λ b2. stand_part b2 ⊳ λ b3. pickup_part b3 ⊳ λ b4. combat_part b4 ⊳ walk_part

-- A part that stays, and what follows it.
stay-then :
    (b : Bot) (s : Step) (f : Bot → Step)
    → Stays b s
    → (s.1 ≡ none → Sends (IsFair b) b (f b).0)
    → Sends (IsFair b) b (s ⊳ f).0
stay-then b (b', none) f (h, same) k =
    subst (λ (x : Bot). Sends (IsFair b) b (f x).0) (sym (same refl)) (k refl)
stay-then b (b', some again) f (h, same) k = h

pub after_recovery-Sends : (b : Bot) → Sends (IsFair b) b (after_recovery b).0
unfolding pending_part stand_part pickup_part
after_recovery-Sends b =
    let (pending, idle_of) = pending_with-Stays b b.pending_target refl in
    let fight = λ (b4 : Bot). combat_part b4 ⊳ walk_part in
    let pick = λ (b3 : Bot). pickup_part b3 ⊳ fight in
    let stand = λ (b2 : Bot). stand_part b2 ⊳ pick in
    stay-then b (pending_part b) stand pending (λ e.
      let idle = idle_of e in
      stay-then b (stand_part b) pick (stand_as-Stays b (own_char_id b) refl) (λ _.
        stay-then b (pickup_part b) fight (pickup_as-Stays b (own_char_id b) refl idle) (λ _.
          then-Sends (IsFair b) b (combat_part b) walk_part (combat_part-Sends b idle)
            (λ _. walk_part-Sends (IsFair b) (combat_part b).0 (λ x y. idle)))))
