-- ===== src/Bot/Lapse.antt =====
-- linux/host/ntpl/gui.py: the part of the tick on a walk whose time is over.
use nostale_packet_logger.Base.{
  ◌+◌, ◌≡◌, ◌≢◌, refl, sym, subst, Bool, true, false, ◌&&◌, ◌||◌, Option, none, some, if◌then◌else◌,
  leb, ltb, length, suc,
}
use nostale_packet_logger.Base.Int.{ℤ, pos, ltb_ℤ, leb_ℤ, ◌-ℤ◌}
use nostale_packet_logger.Base.Keys.{nat_eq}
use nostale_packet_logger.Bot.{Bot, Link, up, down, failing, player_cell}
use nostale_packet_logger.Bot.Actions.{emit, stop_bot, advance_path}
use nostale_packet_logger.Bot.Parts.{
  Step, ◌⊳◌, ask_on, request_position, leg_done, leg_failed, max_rejected_walks, is_near_end,
  is_confirmed, ready_at, pending_walk, pending_with, pending_part,
}
use nostale_packet_logger.Bot.TickSends.{pending_walk-Ends}

abbrev pub Idle : Bot → Type 0
Idle b = b.pending_target ≡ none

-- The walk is pending, and its time is over.
abbrev pub Late : ℤ × ℤ → Bot → Type 0
Late target b = (b.pending_target ≡ some target) × (ltb_ℤ b.pending_until b.now ≡ true)

-- What holds of both states holds of the one that a test chooses.
pub either_of : (P : Bot → Type 0) (t : Bool) (x y : Bot) → P x → P y → P (if t then x else y)
either_of P true x y hx hy = hx
either_of P false x y hx hy = hy

either_step :
    {A : Type 0} (P : Bot → Type 0) (t : Bool) (x y : Bot × A)
    → P x.0
    → P y.0
    → P (if t then x else y).0
either_step P true x y hx hy = hx
either_step P false x y hx hy = hy

step_on :
    {A : Type 0} (P : Bot → Type 0) (t : Bool) (x y : Bot × A)
    → t ≡ true
    → P x.0
    → P (if t then x else y).0
step_on P true x y on h = h
step_on P false x y on h = cc

advance_path-Idle : (b : Bot) → Idle b → Idle (advance_path b)
unfolding advance_path stop_bot
advance_path-Idle b h =
    let next = record b { path_index = suc b.path_index } in
    let again = record b { path_index = 0 } in
    either_of Idle (ltb (suc b.path_index) (length b.bot_goals)) next
      (if b.settings.loop then again else stop_bot next) h
      (either_of Idle b.settings.loop again (stop_bot next) h refl)

leg_done-Idle : (b : Bot) → Idle (leg_done b)
unfolding leg_done
leg_done-Idle b = advance_path-Idle (record b { pending_target = none; rejected_walks = 0 }) refl

leg_failed-Idle : (b : Bot) → Idle (leg_failed b).0
unfolding leg_failed stop_bot
leg_failed-Idle b =
    let counted = record b { rejected_walks = suc b.rejected_walks } in
    let again = record b { rejected_walks = suc b.rejected_walks; pending_target = none } in
    either_step Idle (leb max_rejected_walks (suc b.rejected_walks)) (stop_bot counted, some false)
      (advance_path again, some true) refl (advance_path-Idle again refl)

pending_walk-Idle :
    (b : Bot) (target : ℤ × ℤ) → ltb_ℤ b.pending_until b.now ≡ true → Idle (pending_walk b target).0
unfolding pending_walk
pending_walk-Idle b target late =
    let early =
      (ltb (b.path_index + 1) (length b.bot_goals) || b.settings.loop)
      && is_near_end (player_cell b) target
      && leb_ℤ (pos 350000) (b.now -ℤ b.pending_since) in
    let there = is_confirmed b target && leb_ℤ (ready_at b) b.now in
    let over = ltb_ℤ b.pending_until b.now in
    let waits = if over then leg_failed b else (b, some true) in
    either_step Idle early (leg_done b, some true)
      (if there then (leg_done b, some true) else waits) (leg_done-Idle b)
      (either_step Idle there (leg_done b, some true) waits (leg_done-Idle b)
        (step_on Idle over (leg_failed b) (b, some true) late (leg_failed-Idle b)))

abbrev Over : Bot → Type 0
Over b = ltb_ℤ b.pending_until b.now ≡ true

ask_on-Over : (l : Link) (b : Bot) → Over b → Over (ask_on l b)
unfolding emit
ask_on-Over up b h = h
ask_on-Over down b h = h
ask_on-Over failing b h = h

request_position-Over : (b : Bot) → Over b → Over (request_position b)
unfolding request_position
request_position-Over b h =
    let b' = record b { travel_pos_at = b.now } in
    either_of Over (ltb_ℤ (b.now -ℤ b.travel_pos_at) (pos 200000)) b (ask_on b.link b') h
      (ask_on-Over b.link b' h)

-- A tick that has ended stays as it is.
ended : (s : Step) (f : Bot → Step) → s.1 ≢ none → (s ⊳ f).0 ≡ s.0
ended (b, none) f h = absurd (h refl)
ended (b, some again) f h = refl

pub pending_part-Idle :
    (b : Bot) (target : ℤ × ℤ) (f : Bot → Step) → Late target b → Idle (pending_part b ⊳ f).0
unfolding pending_part pending_with
pending_part-Idle b target f (waits, over) =
    let asked = request_position b in
    let (_, ends) = pending_walk-Ends asked target in
    subst (λ (p : Option (ℤ × ℤ)). Idle (pending_with b p ⊳ f).0) (sym waits)
      (subst Idle (sym (ended (pending_walk asked target) f ends))
        (pending_walk-Idle asked target (request_position-Over b over)))
