-- ===== src/Bot/Sends.antt =====
-- linux/host/ntpl/gui.py: what each action of the bot may send.
use nostale_packet_logger.Base.{
  ℕ, ◌≡◌, refl, sym, ap, ◌∙◌, Bool, true, false, not, Option, none, some, List, [], ◌∷◌, ◌++◌,
  append-nil, append_assoc, All, if◌then◌else◌,
}
use nostale_packet_logger.Base.Int.{ℤ, pos, ltb_ℤ}
use nostale_packet_logger.Base.Keys.{◌==◌, int_eq}
use nostale_packet_logger.Base.Dict.{get}
use nostale_packet_logger.World.{Entity}
use nostale_packet_logger.MapData.{MapGrid}
use nostale_packet_logger.MapData.Search.{astar, node_eq}
use nostale_packet_logger.Bot.{
  Bot, Rule, SpellTarget, monster, self, Command, ncif, cast, select_entity, move, Link, up, down,
  failing, player_cell,
}
use nostale_packet_logger.Bot.Targets.{target_blocked}
use nostale_packet_logger.Bot.Rules.{skill_send_id, lacks_mp, spell_target}
use nostale_packet_logger.Bot.Actions.{
  emit, stop_bot, send, send_on, select_on, client_target, ensure_target, send_spell, cast_at,
  cast_spell, chase_leg, chase_to, chase_from, chase_if_idle, chase_step, approach_cell, leg_of,
}

-- Only such commands are sent between two states of the bot.
abbrev pub Sends : (Command → Type 0) → Bot → Bot → Type 0
Sends P b b' = (new : List Command) × (b'.sent ≡ b.sent ++ new) × All P new

All-append : (P : Command → Type 0) (xs ys : List Command) → All P xs → All P ys → All P (xs ++ ys)
All-append P [] ys hs ks = ks
All-append P (x ∷ xs) ys (h, hs) ks = (h, All-append P xs ys hs ks)

module _ (P : Command → Type 0) where
  -- Nothing is sent.
  pub Sends-none : (b b' : Bot) → b'.sent ≡ b.sent → Sends P b b'
  Sends-none b b' e = ([], e ∙ sym (append-nil b.sent), tt)

  pub Sends-trans : (a b c : Bot) → Sends P a b → Sends P b c → Sends P a c
  Sends-trans a b c (xs, ex, hx) (ys, ey, hy) =
      (xs ++ ys, ey ∙ ap (λ l. l ++ ys) ex ∙ append_assoc a.sent xs ys, All-append P xs ys hx hy)

  pub Sends-if :
      {A : Type 0} (t : Bool) (b : Bot) (x y : Bot × A)
      → Sends P b x.0
      → Sends P b y.0
      → Sends P b (if t then x else y).0
  Sends-if true b x y hx hy = hx
  Sends-if false b x y hx hy = hy

  -- The same with the outcome of the test.
  pub Sends-when :
      {A : Type 0} (t : Bool) (b : Bot) (x y : Bot × A)
      → (t ≡ true → Sends P b x.0)
      → (t ≡ false → Sends P b y.0)
      → Sends P b (if t then x else y).0
  Sends-when true b x y hx hy = hx refl
  Sends-when false b x y hx hy = hy refl

  pub Sends-either :
      (t : Bool) (b x y : Bot) → Sends P b x → Sends P b y → Sends P b (if t then x else y)
  Sends-either true b x y hx hy = hx
  Sends-either false b x y hx hy = hy

  pub send_on-Sends : (l : Link) (b : Bot) (c : Command) → P c → Sends P b (send_on l b c).0
  unfolding emit stop_bot
  send_on-Sends up b c h = (c ∷ [], refl, (h, tt))
  send_on-Sends down b c h = Sends-none b b refl
  send_on-Sends failing b c h = Sends-none b (record (stop_bot b) { link = down }) refl

  pub send-Sends : (b : Bot) (c : Command) → P c → Sends P b (send b c).0
  unfolding send
  send-Sends b c h = send_on-Sends b.link b c h

  select_on-Sends :
      (l : Link) (b : Bot) (id : ℤ) → P (select_entity id) → Sends P b (select_on l b id).0
  unfolding emit
  select_on-Sends up b id h = (select_entity id ∷ [], refl, (h, tt))
  select_on-Sends down b id h = Sends-none b b refl
  select_on-Sends failing b id h = Sends-none b (record b { link = down }) refl

  client_target-Sends : (b : Bot) (id : ℤ) → P (select_entity id) → Sends P b (client_target b id).0
  unfolding client_target
  client_target-Sends b id h =
      Sends-if b.dll_target_supported b _ _ (select_on-Sends b.link b id h) (Sends-none b b refl)

  -- Selecting a monster sends nothing but the two ways of selecting it.
  pub ensure_target-Sends :
      (b : Bot) (id : ℤ) → P (select_entity id) → P (ncif id) → Sends P b (ensure_target b id).0
  unfolding ensure_target
  ensure_target-Sends b id hs hn =
      let b' = record b { target_blocked = (target_blocked b.now b.target_blocked id).0 } in
      let selected = client_target-Sends b' id hs in
      let chosen = client_target b' id in
      Sends-if (target_blocked b.now b.target_blocked id).1 b (b', false) _ (Sends-none b b' refl)
        (Sends-either chosen.1 b chosen.0 (send chosen.0 (ncif id)).0 selected (
          Sends-trans b' chosen.0 (send chosen.0 (ncif id)).0 selected
            (send-Sends chosen.0 (ncif id) hn)))

  send_spell-Sends :
      (b : Bot) (index : ℕ) (r : Rule) (kind id : ℤ) (slot : Option ℤ)
      → ((s : ℤ) → P (cast s kind id))
      → Sends P b (send_spell b index r kind id slot).0
  unfolding send_spell
  send_spell-Sends b index r kind id none h = Sends-none b b refl
  send_spell-Sends b index r kind id (some slot) h = send-Sends b (cast slot kind id) (h slot)

  -- What may be sent at a monster, and at the character.
  abbrev pub AtMonster : Entity → Type 0
  AtMonster e =
      P (select_entity e.entity_id)
      × P (ncif e.entity_id)
      × ((slot : ℤ) → P (cast slot (pos 3) e.entity_id))

  abbrev pub MayAttack : Option Entity → Type 0
  MayAttack none = Unit
  MayAttack (some e) = AtMonster e

  abbrev pub MayCastOn : Option ℤ → Type 0
  MayCastOn none = Unit
  MayCastOn (some id) = (slot : ℤ) → P (cast slot (pos 1) id)

  cast_at-Sends :
      (b : Bot) (index : ℕ) (r : Rule) (m : Option Entity) (id : Option ℤ) (t : SpellTarget)
      → MayAttack m
      → MayCastOn id
      → Sends P b (cast_at b index r m id t).0
  unfolding cast_at
  cast_at-Sends b index r m none self hm hid = Sends-none b b refl
  cast_at-Sends b index r m (some id) self hm hid =
      send_spell-Sends b index r (pos 1) id (skill_send_id b r.spell) hid
  cast_at-Sends b index r none id monster hm hid = Sends-none b b refl
  cast_at-Sends b index r (some e) id monster (hs, hn, hc) hid =
      let first = ensure_target-Sends b e.entity_id hs hn in
      let b' = (ensure_target b e.entity_id).0 in
      Sends-if (ensure_target b e.entity_id).1 b _ (b', false)
        (Sends-trans b b' (send_spell b' index r (pos 3) e.entity_id (skill_send_id b' r.spell)).0
          first (send_spell-Sends b' index r (pos 3) e.entity_id (skill_send_id b' r.spell) hc))
        first

  pub cast_spell-Sends :
      (b : Bot) (index : ℕ) (r : Rule) (m : Option Entity) (id : Option ℤ)
      → MayAttack m
      → MayCastOn id
      → Sends P b (cast_spell b index r m id).0
  unfolding cast_spell
  cast_spell-Sends b index r m id hm hid =
      Sends-if (lacks_mp b (get b.spells r.spell)) b (b, false) _ (Sends-none b b refl)
        (cast_at-Sends b index r m id (spell_target b r) hm hid)

  chase_leg-Sends :
      (b : Bot) (e : Entity) (cell : ℤ × ℤ) (leg : Option (ℤ × ℤ))
      → AtMonster e
      → ((x y : ℤ) → P (move x y))
      → Sends P b (chase_leg b e cell leg).0
  unfolding chase_leg
  chase_leg-Sends b e cell none he hm = Sends-none b b refl
  chase_leg-Sends b e cell (some leg) (hs, hn, _) hm =
      let first = ensure_target-Sends b e.entity_id hs hn in
      let b' = (ensure_target b e.entity_id).0 in
      let both =
        Sends-trans b b' (send b' (move leg.0 leg.1)).0 first
          (send-Sends b' (move leg.0 leg.1) (hm leg.0 leg.1)) in
      let moved = send b' (move leg.0 leg.1) in
      Sends-if (leg == cell) b (b, false) _ (Sends-none b b refl)
        (Sends-if (not (ensure_target b e.entity_id).1) b (b', false) _ first
          (Sends-if moved.1 b _ (moved.0, false) both both))

  chase_to-Sends :
      (b : Bot) (e : Entity) (g : MapGrid) (cell : ℤ × ℤ) (goal : Option (ℤ × ℤ))
      → AtMonster e
      → ((x y : ℤ) → P (move x y))
      → Sends P b (chase_to b e g cell goal).0
  unfolding chase_to
  chase_to-Sends b e g cell none he hm = Sends-none b b refl
  chase_to-Sends b e g cell (some goal) he hm =
      chase_leg-Sends b e cell (leg_of (astar g cell goal)) he hm

  chase_from-Sends :
      (b : Bot) (e : Entity) (g : Option MapGrid) (cell : Option (ℤ × ℤ))
      → AtMonster e
      → ((x y : ℤ) → P (move x y))
      → Sends P b (chase_from b e g cell).0
  unfolding chase_from
  chase_from-Sends b e none cell he hm = Sends-none b b refl
  chase_from-Sends b e (some g) none he hm = Sends-none b b refl
  chase_from-Sends b e (some g) (some cell) he hm =
      Sends-if (ltb_ℤ b.now b.walk_not_before) b (b, true) _ (Sends-none b b refl)
        (chase_to-Sends b e g cell (approach_cell g e) he hm)

  chase_if_idle-Sends :
      (b : Bot) (e : Entity) (pending : Option (ℤ × ℤ))
      → AtMonster e
      → (pending ≡ none → (x y : ℤ) → P (move x y))
      → Sends P b (chase_if_idle b e pending).0
  unfolding chase_if_idle
  chase_if_idle-Sends b e (some cell) he hm = Sends-none b b refl
  chase_if_idle-Sends b e none he hm = chase_from-Sends b e b.map_grid (player_cell b) he (hm refl)

  pub chase_step-Sends :
      (b : Bot) (e : Entity)
      → AtMonster e
      → (b.pending_target ≡ none → (x y : ℤ) → P (move x y))
      → Sends P b (chase_step b e).0
  unfolding chase_step
  chase_step-Sends b e he hm = chase_if_idle-Sends b e b.pending_target he hm
