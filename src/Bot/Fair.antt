-- ===== src/Bot/Fair.antt =====
-- linux/host/ntpl/gui.py: what a tick of the bot may send.
use nostale_packet_logger.Base.{
  ℕ, ◌≡◌, ◌≢◌, refl, sym, subst, ◌⊎◌, inl, inr, Bool, true, false, not, Option, none, some, List,
  [], ◌∷◌,
}
use nostale_packet_logger.Base.Int.{ℤ, pos, leb_ℤ}
use nostale_packet_logger.Base.Keys.{int_eq}
use nostale_packet_logger.Base.Dict.{Dict}
use nostale_packet_logger.World.{Entity}
use nostale_packet_logger.Bot.{
  Bot, Rule, Command, rest, take_drop, ncif, cast, select_entity, move, where_am_i, own_char_id,
}
use nostale_packet_logger.Bot.Rules.{lacks_mp, select_spell_rule}
use nostale_packet_logger.Bot.Actions.{ensure_target, cast_spell}
use nostale_packet_logger.Bot.Combat.{
  choose_monster, with_rule, without_rule, attack_or_chase, basic_attack, basic_with, basic_slot,
  send_basic, basic_info, basic_in_range, chase_part, chase_unless, hold, fight, is_some,
  combat_part,
}
use nostale_packet_logger.Bot.Parts.{Step}
use nostale_packet_logger.Bot.Choice.{Attackable, MayBe, choose_monster-IsChoice}
use nostale_packet_logger.Bot.Sends.{
  Sends, Sends-none, Sends-trans, Sends-if, Sends-when, Sends-either, send-Sends,
  ensure_target-Sends, cast_spell-Sends, chase_step-Sends, AtMonster, MayAttack, MayCastOn,
}

-- An attack is allowed: no walk is pending, combat is on, and it is aimed at a monster that the bot
-- may attack.
abbrev pub AtTarget : Bot → ℤ → Type 0
AtTarget b id = (e : Entity) × (id ≡ e.entity_id) × Attackable b e

abbrev pub InCombat : Bot → Type 0
InCombat b = (b.pending_target ≡ none) × (b.settings.auto_attack ≡ true)

-- What a tick that starts in this state may send.
abbrev pub IsFair : Bot → Command → Type 0
IsFair b (rest id) = own_char_id b ≡ some id
IsFair b (take_drop id drop) =
    (own_char_id b ≡ some id) × (b.pending_target ≡ none) × (b.settings.pickup ≡ true)
IsFair b (ncif id) = InCombat b × AtTarget b id
IsFair b (select_entity id) = InCombat b × AtTarget b id
IsFair b (cast slot kind id) =
    InCombat b × (((kind ≡ pos 1) × (own_char_id b ≡ some id)) ⊎ ((kind ≡ pos 3) × AtTarget b id))
IsFair b (move x y) = b.pending_target ≡ none
IsFair b where_am_i = b.pending_target ≢ none

module _ (P : Command → Type 0) where
  hold-Sends : (t : Bool) (b : Bot) (s : Step) → Sends P b s.0 → Sends P b (hold t s).0
  hold-Sends true b (b', none) h = h
  hold-Sends true b (b', some again) h = h
  hold-Sends false b (b', none) h = h
  hold-Sends false b (b', some again) h = h

  basic_with-Sends :
      (b : Bot) (e : Entity) (slot : Option ℤ) → AtMonster P e → Sends P b (basic_with b e slot).0
  unfolding basic_with send_basic
  basic_with-Sends b e none h = Sends-none P b b refl
  basic_with-Sends b e (some slot) (hs, hn, hc) =
      let first = ensure_target-Sends P b e.entity_id hs hn in
      let b' = (ensure_target b e.entity_id).0 in
      Sends-either P (ensure_target b e.entity_id).1 b (send_basic b' e slot) b'
        (Sends-trans P b b' (send_basic b' e slot) first
          (send-Sends P b' (cast slot (pos 3) e.entity_id) (hc slot)))
        first

  basic_attack-Sends : (b : Bot) (e : Entity) → AtMonster P e → Sends P b (basic_attack b e).0
  unfolding basic_attack
  basic_attack-Sends b e h =
      Sends-if P (lacks_mp b (basic_info b)) b (b, none) _ (Sends-none P b b refl)
        (basic_with-Sends b e (basic_slot b) h)

  chase_unless-Sends :
      (goals : List (ℤ × ℤ)) (b : Bot) (e : Entity)
      → AtMonster P e
      → (b.pending_target ≡ none → (x y : ℤ) → P (move x y))
      → Sends P b (chase_unless goals b e).0
  unfolding chase_part
  chase_unless-Sends [] b e h hm = chase_step-Sends P b e h hm
  chase_unless-Sends (goal ∷ goals) b e h hm = Sends-none P b b refl

  attack_or_chase-Sends :
      (b : Bot) (e : Entity) (in_range : Bool)
      → AtMonster P e
      → (b.pending_target ≡ none → (x y : ℤ) → P (move x y))
      → Sends P b (attack_or_chase b e in_range).0
  unfolding attack_or_chase
  attack_or_chase-Sends b e in_range h hm =
      Sends-if P (not (leb_ℤ b.attack_cooldown_until b.now)) b (b, none) _ (Sends-none P b b refl)
        (Sends-if P in_range b _ _ (basic_attack-Sends b e h)
          (chase_unless-Sends b.bot_goals b e h hm))

  fight-Sends :
      (b : Bot) (m : Option Entity) (rule : Option (ℕ × Rule))
      → MayAttack P m
      → MayCastOn P (own_char_id b)
      → (b.pending_target ≡ none → (x y : ℤ) → P (move x y))
      → Sends P b (fight b m rule).0
  unfolding fight with_rule without_rule
  fight-Sends b m (some (index, r)) h own hm =
      let done = cast_spell b index r m (own_char_id b) in
      let sends = cast_spell-Sends P b index r m (own_char_id b) h own in
      Sends-if P (leb_ℤ b.attack_cooldown_until b.now) b _ _
        (Sends-if P done.1 b (done.0, some true) _ sends
          (hold-Sends (is_some m) b (done.0, none) sends))
        (hold-Sends (is_some m) b (b, none) (Sends-none P b b refl))
  fight-Sends b none none h own hm = Sends-none P b b refl
  fight-Sends b (some e) none h own hm =
      hold-Sends (basic_in_range b (some e)) b _
        (attack_or_chase-Sends b e (basic_in_range b (some e)) h hm)

-- The part on combat, where no walk is pending.
MayAttack-IsFair : (b : Bot) (m : Option Entity) → InCombat b → MayBe b m → MayAttack (IsFair b) m
MayAttack-IsFair b none on may = tt
MayAttack-IsFair b (some e) on may =
    ((on, (e, refl, may)), (on, (e, refl, may)), λ slot. (on, inr (refl, (e, refl, may))))

MayCastOn-IsFair :
    (b : Bot) (id : Option ℤ) → InCombat b → own_char_id b ≡ id → MayCastOn (IsFair b) id
MayCastOn-IsFair b none on own = tt
MayCastOn-IsFair b (some id) on own = λ slot. (on, inl (refl, own))

fight-IsFair :
    (b : Bot) (d : Dict ℤ ℤ) (m : Option Entity)
    → InCombat b
    → MayBe b m
    → let k = record b { target_blocked = d } in
      Sends (IsFair b) b (fight k m (select_spell_rule k m (own_char_id k))).0
unfolding own_char_id
fight-IsFair b d m on may =
    let k = record b { target_blocked = d } in
    fight-Sends (IsFair b) k m (select_spell_rule k m (own_char_id k)) (MayAttack-IsFair b m on may)
      (MayCastOn-IsFair b (own_char_id b) on refl) (λ idle x y. idle)

pub combat_part-Sends : (b : Bot) → b.pending_target ≡ none → Sends (IsFair b) b (combat_part b).0
unfolding combat_part
combat_part-Sends b idle =
    let ((d, eq, same), may) = choose_monster-IsChoice b in
    let m = (choose_monster b).1 in
    Sends-when (IsFair b) b.settings.auto_attack b _ (b, none)
      (λ on.
        subst
          (λ (k : Bot). Sends (IsFair b) b (fight k m (select_spell_rule k m (own_char_id k))).0)
          (sym eq) (fight-IsFair b d m (idle, on) may))
      (λ off. Sends-none (IsFair b) b b refl)
