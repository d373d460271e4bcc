-- ===== src/Bot/WholeTick.antt =====
-- linux/host/ntpl/gui.py: what the whole of `_bot_tick` may send.
use nostale_packet_logger.Base.{
  ℕ, ◌≡◌, ◌≢◌, refl, sym, ap, subst, ◌∙◌, inl, inr, Bool, true, false, not, ◌&&◌, Option, none,
  some, if◌then◌else◌,
}
use nostale_packet_logger.Base.Int.{ℤ, pos, ltb_ℤ, leb_ℤ, ◌-ℤ◌, ◌+ℤ◌}
use nostale_packet_logger.Base.Keys.{◌==◌, nat_eq}
use nostale_packet_logger.World.{Entity}
use nostale_packet_logger.Bot.{
  Bot, Settings, Command, rest, take_drop, ncif, cast, select_entity, move, where_am_i, Link, up,
  down, failing, own_char_id, player_cell,
}
use nostale_packet_logger.Bot.Rules.{is_below}
use nostale_packet_logger.Bot.Targets.{monster_allowed}
use nostale_packet_logger.Bot.Actions.{send, stop_bot}
use nostale_packet_logger.Bot.Parts.{
  Step, ◌⊳◌, cancel_retry, is_sitting, start_recovering, go_on_recovering, recover_as, recover_part,
}
use nostale_packet_logger.Bot.Tick.{running_tick, tick_on, bot_tick}
use nostale_packet_logger.Bot.Choice.{Attackable}
use nostale_packet_logger.Bot.Sends.{Sends, Sends-none, Sends-if, Sends-either, send-Sends}
use nostale_packet_logger.Bot.Fair.{IsFair, InCombat, AtTarget}
use nostale_packet_logger.Bot.TickSends.{after_recovery, after_recovery-Sends}
use nostale_packet_logger.Bot.WalkSends.{Sends-weaken}

-- The bot as the parts before the pending walk leave it.
abbrev retimed : Bot → ℕ → ℤ → Bot
retimed b n t = record b { last_cancel_count = n; attack_cooldown_until = t }

abbrev marked : Bot → Bool → Bot
marked b r = record b { recovering = r }

Attackable-retimed :
    (b : Bot) (n : ℕ) (t : ℤ) (e : Entity) → Attackable (retimed b n t) e → Attackable b e
unfolding player_cell monster_allowed
Attackable-retimed b n t e (cell, here, among, (target, near)) = (
  cell,
  here,
  among,
  (
    record {
      is_monster = target.is_monster;
      is_allowed = target.is_allowed;
      is_free = target.is_free;
    },
    near,
  ),
)

Attackable-marked : (b : Bot) (r : Bool) (e : Entity) → Attackable (marked b r) e → Attackable b e
unfolding player_cell monster_allowed
Attackable-marked b r e (cell, here, among, (target, near)) = (
  cell,
  here,
  among,
  (
    record {
      is_monster = target.is_monster;
      is_allowed = target.is_allowed;
      is_free = target.is_free;
    },
    near,
  ),
)

-- What is fair depends on what is seen and set, and on the walk that is pending.
module _ (b b' : Bot) (idle : b'.pending_target ≡ b.pending_target)
    (own : own_char_id b' ≡ own_char_id b) (set : b'.settings ≡ b.settings)
    (seen : (e : Entity) → Attackable b' e → Attackable b e) where
  combat_as : InCombat b' → InCombat b
  combat_as (none_left, on) =
      (sym idle ∙ none_left, sym (ap (λ (s : Settings). s.auto_attack) set) ∙ on)

  target_as : (id : ℤ) → AtTarget b' id → AtTarget b id
  target_as id (e, same, may) = (e, same, seen e may)

  IsFair-as : (c : Command) → IsFair b' c → IsFair b c
  IsFair-as (rest id) h = sym own ∙ h
  IsFair-as (take_drop id drop) (h, none_left, on) =
      (sym own ∙ h, sym idle ∙ none_left, sym (ap (λ (s : Settings). s.pickup) set) ∙ on)
  IsFair-as (ncif id) (h, at) = (combat_as h, target_as id at)
  IsFair-as (select_entity id) (h, at) = (combat_as h, target_as id at)
  IsFair-as (cast slot kind id) (h, inl (k, same)) = (combat_as h, inl (k, sym own ∙ same))
  IsFair-as (cast slot kind id) (h, inr (k, at)) = (combat_as h, inr (k, target_as id at))
  IsFair-as (move x y) h = sym idle ∙ h
  IsFair-as where_am_i h = λ none_left. h (idle ∙ none_left)

IsFair-retimed : (b : Bot) (n : ℕ) (t : ℤ) (c : Command) → IsFair (retimed b n t) c → IsFair b c
unfolding own_char_id
IsFair-retimed b n t = IsFair-as b (retimed b n t) refl refl refl (Attackable-retimed b n t)

IsFair-marked : (b : Bot) (r : Bool) (c : Command) → IsFair (marked b r) c → IsFair b c
unfolding own_char_id
IsFair-marked b r = IsFair-as b (marked b r) refl refl refl (Attackable-marked b r)

-- Recovery sends a rest at most; where the tick goes on, only the mark has changed.
abbrev Marks : Bot → Step → Type 0
Marks b s = Sends (IsFair b) b s.0 × (s.1 ≡ none → (r : Bool) × (s.0 ≡ marked b r))

Marks-if : (t : Bool) (b : Bot) (x y : Step) → Marks b x → Marks b y → Marks b (if t then x else y)
Marks-if true b x y hx hy = hx
Marks-if false b x y hx hy = hy

-- A step that is the last of the tick.
abbrev Last : (Command → Type 0) → Bot → Step → Type 0
Last P b s = Sends P b s.0 × (s.1 ≢ none)

Last-if :
    (P : Command → Type 0) (t : Bool) (b x : Bot) (y : Step)
    → Sends P b x
    → Last P b y
    → Last P b (if t then (x, some true) else y)
Last-if P true b x y hx hy = (hx, λ e. cc)
Last-if P false b x y hx hy = hy

go_on_recovering-Sends :
    (P : Command → Type 0) (b : Bot) (id : ℤ)
    → P (rest id)
    → Sends P b (go_on_recovering b id).0 × ((go_on_recovering b id).1 ≢ none)
unfolding go_on_recovering
go_on_recovering-Sends P b id h =
    let up_again = record b { recovering = false } in
    let sat = is_sitting b.world.resting in
    let sends = send-Sends P b (rest id) h in
    let stands = if sat then (send up_again (rest id)).0 else up_again in
    let sits = record (send b (rest id)).0 { recover_rest_at = b.now +ℤ pos 2500000 } in
    let may_sit = not sat && leb_ℤ b.recover_rest_at b.now in
    Last-if P (leb_ℤ b.world.stats.hp_max b.world.stats.hp) b stands
      (if may_sit then (sits, some true) else (b, some true))
      (Sends-either P sat b (send up_again (rest id)).0 up_again (send-Sends P up_again (rest id) h)
        (Sends-none P b up_again refl))
      (Last-if P may_sit b sits (b, some true) sends (Sends-none P b b refl, λ e. cc))

-- Where the bot starts to recover, or goes on, or does not.
recovered :
    (b : Bot) (id : ℤ) (starts : Bool)
    → own_char_id b ≡ some id
    → let b' =
        if starts
        then record b { recovering = true; pending_target = none; attack_cooldown_until = pos 0 }
        else b in
      Marks b (if b'.recovering then go_on_recovering b' id else (b', none))
recovered b id true own =
    let b' = record b { recovering = true; pending_target = none; attack_cooldown_until = pos 0 } in
    let (sends, ends) = go_on_recovering-Sends (IsFair b) b' id own in (sends, λ e. absurd (ends e))
recovered b id false own =
    let (sends, ends) = go_on_recovering-Sends (IsFair b) b id own in
    Marks-if b.recovering b (go_on_recovering b id) (b, none) (sends, λ e. absurd (ends e))
      (Sends-none (IsFair b) b b refl, λ e. (b.recovering, refl))

unmarked : (b : Bot) → Marks b (record b { recovering = false }, none)
unmarked b = (Sends-none (IsFair b) b (marked b false) refl, λ e. (false, refl))

recover_as-Marks : (b : Bot) (id : Option ℤ) → own_char_id b ≡ id → Marks b (recover_as b id)
unfolding recover_as start_recovering
recover_as-Marks b none own = unmarked b
recover_as-Marks b (some id) own =
    let starts =
      not b.recovering && is_below b.world.stats.hp b.world.stats.hp_max b.settings.low_hp_pct in
    Marks-if (b.settings.recover && ltb_ℤ (pos 0) b.world.stats.hp_max) b _
      (record b { recovering = false }, none) (recovered b id starts own) (unmarked b)

after-Marks : (b : Bot) (s : Step) → Marks b s → Sends (IsFair b) b (s ⊳ after_recovery).0
after-Marks b (b', some again) (h, _) = h
after-Marks b (b', none) (h, mark) =
    let (r, same) = mark refl in
    let m = marked b r in
    subst (λ (x : Bot). Sends (IsFair b) b (after_recovery x).0) (sym same)
      (Sends-weaken (IsFair b) (IsFair m) b (after_recovery m).0 (IsFair-marked b r)
        (after_recovery-Sends m))

running_tick-Sends : (b : Bot) → Sends (IsFair b) b (running_tick b).0
unfolding running_tick recover_part
running_tick-Sends b = after-Marks b (recover_part b) (recover_as-Marks b (own_char_id b) refl)

retimed-Sends : (b : Bot) (n : ℕ) (t : ℤ) → Sends (IsFair b) b (running_tick (retimed b n t)).0
retimed-Sends b n t =
    let b' = retimed b n t in
    Sends-weaken (IsFair b) (IsFair b') b (running_tick b').0 (IsFair-retimed b n t)
      (running_tick-Sends b')

either_tick :
    (t : Bool) (b x y : Bot)
    → Sends (IsFair b) b (running_tick x).0
    → Sends (IsFair b) b (running_tick y).0
    → Sends (IsFair b) b (running_tick (if t then x else y)).0
either_tick true b x y hx hy = hx
either_tick false b x y hx hy = hy

cancel_retry-Sends : (b : Bot) → Sends (IsFair b) b (running_tick (cancel_retry b)).0
unfolding cancel_retry
cancel_retry-Sends b =
    let n = b.world.cancel_count in
    let soon = ltb_ℤ (b.now -ℤ b.last_attack_sent_at) (pos 2000000) in
    let at_once = retimed b n (b.now +ℤ pos 100000) in
    let later = retimed b n b.attack_cooldown_until in
    either_tick (n == b.last_cancel_count) b b (if soon then at_once else later)
      (running_tick-Sends b)
      (either_tick soon b at_once later (retimed-Sends b n (b.now +ℤ pos 100000))
        (retimed-Sends b n b.attack_cooldown_until))

tick_on-Sends : (l : Link) (b : Bot) → Sends (IsFair b) b (tick_on l b).0
unfolding stop_bot
tick_on-Sends up b = cancel_retry-Sends b
tick_on-Sends down b = Sends-none (IsFair b) b (stop_bot b) refl
tick_on-Sends failing b = cancel_retry-Sends b

-- Whatever `_bot_tick` sends in one tick is fair in the state that the tick starts in. A rest names
-- the character itself. A drop is picked up by the character, only where pick-up is on and no walk is
-- pending. A monster is selected, or cast at with kind 3, only where combat is on, no walk is pending,
-- and it is a tracked monster within the attack range that the settings allow and that is not
-- blocked; a cast of kind 1 is at the character itself. A walk is sent only where none is pending,
-- and the position is asked for only where one is.
pub bot_tick-Sends : (b : Bot) → Sends (IsFair b) b (bot_tick b).0
unfolding bot_tick
bot_tick-Sends b =
    Sends-if (IsFair b) (not b.running) b (b, some false) (tick_on b.link b)
      (Sends-none (IsFair b) b b refl) (tick_on-Sends b.link b)
