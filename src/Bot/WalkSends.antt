-- ===== src/Bot/WalkSends.antt =====
-- linux/host/ntpl/gui.py: what the part of the tick on walking may send.
use nostale_packet_logger.Base.{
  ◌≡◌, refl, true, false, ◌||◌, Option, none, some, List, [], ◌∷◌, arith, All-map, ltb, length,
  get_elem?,
}
use nostale_packet_logger.Base.Int.{ℤ, ltb_ℤ}
use nostale_packet_logger.Base.Keys.{int_eq, nat_eq}
use nostale_packet_logger.Bot.{Bot, Command, move, player_cell}
use nostale_packet_logger.Bot.Actions.{send, stop_bot, advance_path}
use nostale_packet_logger.Bot.Parts.{Step, ◌⊳◌}
use nostale_packet_logger.Bot.Tick.{
  walk_toward, leg_to, route_part, walk_along, walk_part, is_current,
}
use nostale_packet_logger.Bot.Sends.{Sends, Sends-none, Sends-trans, Sends-if, send-Sends}

pub advance_path-sent : (b : Bot) → (advance_path b).sent ≡ b.sent
unfolding advance_path stop_bot
advance_path-sent b = ground arith

pub stop_bot-sent : (b : Bot) → (stop_bot b).sent ≡ b.sent
unfolding stop_bot
stop_bot-sent b = refl

module _ (P : Command → Type 0) where
  -- A part, and what follows it if it goes on.
  pub then-Sends :
      (b : Bot) (s : Step) (f : Bot → Step)
      → Sends P b s.0
      → (s.1 ≡ none → Sends P s.0 (f s.0).0)
      → Sends P b (s ⊳ f).0
  then-Sends b (b', none) f h k = Sends-trans P b b' (f b').0 h (k refl)
  then-Sends b (b', some again) f h k = h

  walk_toward-Sends :
      (b : Bot) (target : ℤ × ℤ) → P (move target.0 target.1) → Sends P b (walk_toward b target).0
  unfolding walk_toward
  walk_toward-Sends b target h =
      let sends = send-Sends P b (move target.0 target.1) h in
      let moved = send b (move target.0 target.1) in
      Sends-if P moved.1 b _ (moved.0, some true) sends sends

  leg_to-Sends :
      (b : Bot) (target : Option (ℤ × ℤ))
      → ((x y : ℤ) → P (move x y))
      → Sends P b (leg_to b target).0
  unfolding leg_to
  leg_to-Sends b none h = Sends-none P b b refl
  leg_to-Sends b (some target) h =
      Sends-if P (is_current (player_cell b) target) b (advance_path b, some true) _
        (Sends-none P b (advance_path b) (advance_path-sent b))
        (Sends-if P (ltb_ℤ b.now b.walk_not_before) b (b, some true) _ (Sends-none P b b refl)
          (walk_toward-Sends b target (h target.0 target.1)))

  route_part-Sends : (b : Bot) → ((x y : ℤ) → P (move x y)) → Sends P b (route_part b).0
  unfolding route_part
  route_part-Sends b h =
      Sends-if P (ltb b.path_index (length b.bot_goals)) b _ _
        (leg_to-Sends b (get_elem? b.bot_goals b.path_index) h)
        (Sends-if P b.settings.loop b _ (stop_bot b, some false)
          (leg_to-Sends (record b { path_index = 0 }) (get_elem? b.bot_goals 0) h)
          (Sends-none P b (stop_bot b) (stop_bot-sent b)))

  walk_along-Sends :
      (goals : List (ℤ × ℤ)) (b : Bot)
      → ((x y : ℤ) → P (move x y))
      → Sends P b (walk_along goals b).0
  unfolding walk_along
  walk_along-Sends [] b h =
      Sends-if P (b.settings.auto_attack || b.settings.pickup || b.settings.recover) b
        (b, some true) (stop_bot b, some false) (Sends-none P b b refl)
        (Sends-none P b (stop_bot b) (stop_bot-sent b))
  walk_along-Sends (goal ∷ goals) b h = route_part-Sends b h

  pub walk_part-Sends : (b : Bot) → ((x y : ℤ) → P (move x y)) → Sends P b (walk_part b).0
  unfolding walk_part
  walk_part-Sends b h = walk_along-Sends b.bot_goals b h

  pub Sends-weaken :
      (Q : Command → Type 0) (b b' : Bot)
      → ((c : Command) → Q c → P c)
      → Sends Q b b'
      → Sends P b b'
  Sends-weaken Q b b' f (new, eq, all) = (new, eq, All-map Q P new f all)
