-- ===== src/Bot/Timeout.antt =====
-- linux/host/ntpl/gui.py: the time limit of a walk in `_bot_tick`.
use nostale_packet_logger.Base.{
  ◌≡◌, ◌≢◌, refl, ap, Bool, true, false, not, ◌&&◌, Option, none, some, if◌then◌else◌,
}
use nostale_packet_logger.Base.Int.{ℤ, pos, ltb_ℤ, leb_ℤ, ◌-ℤ◌, ◌+ℤ◌}
use nostale_packet_logger.Base.Keys.{◌==◌, nat_eq}
use nostale_packet_logger.Bot.{Bot, Command, rest, Link, up, down, failing, own_char_id}
use nostale_packet_logger.Bot.Rules.{is_below}
use nostale_packet_logger.Bot.Actions.{send, send_on, emit, stop_bot}
use nostale_packet_logger.Bot.Parts.{
  Step, ◌⊳◌, cancel_retry, is_sitting, start_recovering, go_on_recovering, recover_as, recover_part,
}
use nostale_packet_logger.Bot.Tick.{running_tick, tick_on, bot_tick}
use nostale_packet_logger.Bot.Lapse.{Idle, Late, either_of, pending_part-Idle}

send_on-Idle : (l : Link) (b : Bot) (c : Command) → Idle b → Idle (send_on l b c).0
unfolding emit stop_bot
send_on-Idle up b c h = h
send_on-Idle down b c h = h
send_on-Idle failing b c h = refl

send-Idle : (b : Bot) (c : Command) → Idle b → Idle (send b c).0
unfolding send
send-Idle b c h = send_on-Idle b.link b c h

-- Where the tick goes on the walk is still pending; where it has ended no walk is.
abbrev Settles : ℤ × ℤ → Step → Type 0
Settles target s = (s.1 ≡ none → Late target s.0) × (s.1 ≢ none → Idle s.0)

Settles-if :
    (target : ℤ × ℤ) (t : Bool) (x y : Step)
    → Settles target x
    → Settles target y
    → Settles target (if t then x else y)
Settles-if target true x y hx hy = hx
Settles-if target false x y hx hy = hy

last-Settles : (target : ℤ × ℤ) (b : Bot) → Idle b → Settles target (b, some true)
last-Settles target b h = ((λ e. cc), λ _. h)

on-Settles : (target : ℤ × ℤ) (b : Bot) → Late target b → Settles target (b, none)
on-Settles target b h = ((λ _. h), λ e. absurd (e refl))

go_on_recovering-Settles :
    (target : ℤ × ℤ) (b : Bot) (id : ℤ) → Idle b → Settles target (go_on_recovering b id)
unfolding go_on_recovering
go_on_recovering-Settles target b id h =
    let up_again = record b { recovering = false } in
    let sat = is_sitting b.world.resting in
    let stands = if sat then (send up_again (rest id)).0 else up_again in
    let sits = record (send b (rest id)).0 { recover_rest_at = b.now +ℤ pos 2500000 } in
    let may_sit = not sat && leb_ℤ b.recover_rest_at b.now in
    Settles-if target (leb_ℤ b.world.stats.hp_max b.world.stats.hp) (stands, some true)
      (if may_sit then (sits, some true) else (b, some true))
      (last-Settles target stands (
        either_of Idle sat (send up_again (rest id)).0 up_again (send-Idle up_again (rest id) h) h))
      (Settles-if target may_sit (sits, some true) (b, some true)
        (last-Settles target sits (send-Idle b (rest id) h)) (last-Settles target b h))

goes_on :
    (target : ℤ × ℤ) (t : Bool) (x y : Step)
    → t ≡ false
    → Settles target y
    → Settles target (if t then x else y)
goes_on target true x y off h = cc
goes_on target false x y off h = h

recovered-Settles :
    (target : ℤ × ℤ) (b : Bot) (id : ℤ) (starts : Bool)
    → b.recovering ≡ false
    → Late target b
    → let b' =
        if starts
        then record b { recovering = true; pending_target = none; attack_cooldown_until = pos 0 }
        else b in
      Settles target (if b'.recovering then go_on_recovering b' id else (b', none))
recovered-Settles target b id true off h =
    let b' = record b { recovering = true; pending_target = none; attack_cooldown_until = pos 0 } in
    go_on_recovering-Settles target b' id refl
recovered-Settles target b id false off h =
    goes_on target b.recovering (go_on_recovering b id) (b, none) off (on-Settles target b h)

recover_as-Settles :
    (target : ℤ × ℤ) (b : Bot) (id : Option ℤ)
    → b.recovering ≡ false
    → Late target b
    → Settles target (recover_as b id)
unfolding recover_as start_recovering
recover_as-Settles target b none off h = on-Settles target (record b { recovering = false }) h
recover_as-Settles target b (some id) off h =
    let starts =
      not b.recovering && is_below b.world.stats.hp b.world.stats.hp_max b.settings.low_hp_pct in
    Settles-if target (b.settings.recover && ltb_ℤ (pos 0) b.world.stats.hp_max) _
      (record b { recovering = false }, none) (recovered-Settles target b id starts off h)
      (on-Settles target (record b { recovering = false }) h)

settled :
    (target : ℤ × ℤ) (s : Step) (f : Bot → Step)
    → Settles target s
    → ((b : Bot) → Late target b → Idle (f b).0)
    → Idle (s ⊳ f).0
settled target (b, none) f (late, _) k = k b (late refl)
settled target (b, some again) f (_, idle) k = idle (λ e. cc)

running_tick-Idle :
    (target : ℤ × ℤ) (b : Bot) → b.recovering ≡ false → Late target b → Idle (running_tick b).0
unfolding running_tick recover_part
running_tick-Idle target b off h =
    settled target (recover_part b) _ (recover_as-Settles target b (own_char_id b) off h)
      (λ b1 late. pending_part-Idle b1 target _ late)

cancel_retry-Idle :
    (target : ℤ × ℤ) (b : Bot)
    → b.recovering ≡ false
    → Late target b
    → Idle (running_tick (cancel_retry b)).0
unfolding cancel_retry
cancel_retry-Idle target b off h =
    let n = b.world.cancel_count in
    let soon = ltb_ℤ (b.now -ℤ b.last_attack_sent_at) (pos 2000000) in
    let at_once = record b { last_cancel_count = n; attack_cooldown_until = b.now +ℤ pos 100000 } in
    let later = record b { last_cancel_count = n } in
    let Ticks = λ (x : Bot). Idle (running_tick x).0 in
    either_of Ticks (n == b.last_cancel_count) b (if soon then at_once else later)
      (running_tick-Idle target b off h)
      (either_of Ticks soon at_once later (running_tick-Idle target at_once off h)
        (running_tick-Idle target later off h))

tick_on-Idle :
    (target : ℤ × ℤ) (l : Link) (b : Bot)
    → b.recovering ≡ false
    → Late target b
    → Idle (tick_on l b).0
unfolding stop_bot
tick_on-Idle target up b off h = cancel_retry-Idle target b off h
tick_on-Idle target down b off h = refl
tick_on-Idle target failing b off h = cancel_retry-Idle target b off h

goes_tick :
    (t : Bool) (b : Bot) (y : Step)
    → t ≡ false
    → Idle y.0
    → Idle (if t then (b, some false) else y).0
goes_tick true b y off h = cc
goes_tick false b y off h = h

-- No walk holds the bot up for longer than its time: one tick of a bot that runs and does not
-- recover, at a time past the limit of the pending walk, leaves no walk pending, whatever the world,
-- the settings and the link are.
pub bot_tick-late :
    (b : Bot) (target : ℤ × ℤ)
    → b.running ≡ true
    → b.recovering ≡ false
    → b.pending_target ≡ some target
    → ltb_ℤ b.pending_until b.now ≡ true
    → (bot_tick b).0.pending_target ≡ none
unfolding bot_tick
bot_tick-late b target on off waits over =
    goes_tick (not b.running) b (tick_on b.link b) (ap not on)
      (tick_on-Idle target b.link b off (waits, over))
