-- ===== src/Engine/SkillSlots.antt =====
-- How linux/host/ntpl/engine.py pairs the own `u_s` with the `su` that answers it.
use nostale_packet_logger.Base.{
  ◌≡◌, ◌≢◌, refl, sym, ap, ◌∙◌, subst, Bool-cases, inl, inr, true, false, ◌&&◌, none, some, [], ◌∷◌,
  arith, if◌then◌else◌,
}
use nostale_packet_logger.Base.Int.{ℤ, pos, ◌-ℤ◌, ◌≤ℤ◌, ◌<ℤ◌, leb_ℤ, int_beq_iff}
use nostale_packet_logger.Base.Keys.{◌==◌, int_eq, beq_refl}
use nostale_packet_logger.Base.Dict.{Dict, get, put, get-put, get-put_self}
use nostale_packet_logger.World.{WorldState}
use nostale_packet_logger.Protocol.{send, Packet, ints}
use nostale_packet_logger.Handlers.Movement.{is_self}
use nostale_packet_logger.Handlers.Skills.{
  answer_window, use_slot, on_skill_send, learn_slot, hit_by, use_skill, on_skill_used,
}

-- What the slots of two worlds have in common.
record SameSlots (v w : WorldState) : Type 0 where
  learned : v.skill_learned ≡ w.skill_learned
  basic : v.basic_skill ≡ w.basic_skill
  pending : v.pending_skill_slot ≡ w.pending_skill_slot

hit_by-SameSlots :
    (w : WorldState) (target_type target_id attacker_id now : ℤ)
    → SameSlots (hit_by w target_type target_id attacker_id now) w
unfolding hit_by
hit_by-SameSlots w target_type target_id attacker_id now =
    elim (Bool-cases (target_type == pos 1 && is_self w target_id)) [
      | inl e ↦ rw e (record { learned = refl; basic = refl; pending = refl })
      | inr e ↦ rw e (record { learned = refl; basic = refl; pending = refl })
    ]

-- The own `su`, given what the world knew when it came.
own_answer :
    (w : WorldState) (p : Packet) (self target_type target_id skill : ℤ)
    → w.self_id ≡ some self
    → ints 5 p ≡ some (pos 1 ∷ self ∷ target_type ∷ target_id ∷ skill ∷ [])
    → SameSlots
        (on_skill_used w p)
        (learn_slot (record w { last_skill = some skill }) skill p.timestamp w.pending_skill_slot)
unfolding on_skill_used
own_answer w p self target_type target_id skill me e =
    let used : WorldState = record w { last_skill = some skill } in
    let answered = learn_slot used skill p.timestamp w.pending_skill_slot in
    let own : is_self w self ≡ true = rw (me, is_self) (beq_refl self) in
    let same = hit_by-SameSlots answered target_type target_id self p.timestamp in
    rw (e, use_skill, own)
      (record { learned = same.learned; basic = same.basic; pending = same.pending })

sent :
    (w : WorldState) (p : Packet) (slot : ℤ)
    → p.direction ≡ send
    → ints 1 p ≡ some (slot ∷ [])
    → on_skill_send w p
      ≡ record w { pending_skill_slot = some slot; pending_skill_at = p.timestamp }
unfolding on_skill_send
sent w p slot is_send asked =
    ap (λ k. use_slot k p.timestamp w (ints 1 p)) is_send ∙ ap (use_slot send p.timestamp w) asked

module _ (w : WorldState) (used answer : Packet) (slot self target_type target_id skill : ℤ)
    (is_send : used.direction ≡ send) (asked : ints 1 used ≡ some (slot ∷ []))
    (me : w.self_id ≡ some self)
    (answered : ints 5 answer ≡ some (pos 1 ∷ self ∷ target_type ∷ target_id ∷ skill ∷ [])) where
  abbrev asking : WorldState
  asking = record w { pending_skill_slot = some slot; pending_skill_at = used.timestamp }

  abbrev pub after : WorldState
  after = on_skill_used (on_skill_send w used) answer

  taught :
      SameSlots after
        (learn_slot (record asking { last_skill = some skill }) skill answer.timestamp (some slot))
  taught =
      subst
        (λ v. SameSlots (on_skill_used v answer) (
          learn_slot (record asking { last_skill = some skill }) skill answer.timestamp
            (some slot)))
        (sym (sent w used slot is_send asked))
        (own_answer asking answer self target_type target_id skill me answered)

get-put_ne : (d : Dict ℤ ℤ) (k j v : ℤ) → k ≢ j → get (put d k v) j ≡ get d j
get-put_ne d k j v h = ground (arith, get-put d k j v, int_beq_iff k j)

module _ (w : WorldState) (used answer : Packet) (slot self target_type target_id skill : ℤ)
    (is_send : used.direction ≡ send) (asked : ints 1 used ≡ some (slot ∷ []))
    (me : w.self_id ≡ some self)
    (answered : ints 5 answer ≡ some (pos 1 ∷ self ∷ target_type ∷ target_id ∷ skill ∷ [])) where
  -- The `su` of the own character that comes within five seconds of its `u_s` teaches the skill of
  -- the slot, and of no other slot; slot 0 teaches the basic skill too. The slot waits no more.
  pub answer_in_time :
      (answer.timestamp -ℤ used.timestamp ≤ℤ answer_window)
      → let w' = on_skill_used (on_skill_send w used) answer in
        (get w'.skill_learned slot ≡ some skill)
        × ((other : ℤ) → slot ≢ other → get w'.skill_learned other ≡ get w.skill_learned other)
        × (w'.basic_skill ≡ (if slot == pos 0 then some skill else w.basic_skill))
        × (w'.pending_skill_slot ≡ none)
  unfolding learn_slot
  answer_in_time soon =
      let same =
        taught w used answer slot self target_type target_id skill is_send asked me answered in
      let window : leb_ℤ (answer.timestamp -ℤ used.timestamp) answer_window ≡ true = ground arith in
      let learned =
        same.learned
        ∙ ap (λ b. if b then put w.skill_learned slot skill else w.skill_learned) window in
      (
        ap (λ d. get d slot) learned ∙ get-put_self w.skill_learned slot skill,
        λ other far.
            ap (λ d. get d other) learned ∙ get-put_ne w.skill_learned slot other skill far,
        same.basic ∙ ap (λ b. if b && slot == pos 0 then some skill else w.basic_skill) window,
        same.pending,
      )

  -- An answer that comes later teaches nothing, and the slot waits no more either.
  pub answer_too_late :
      (answer_window <ℤ answer.timestamp -ℤ used.timestamp)
      → let w' = on_skill_used (on_skill_send w used) answer in
        (w'.skill_learned ≡ w.skill_learned)
        × (w'.basic_skill ≡ w.basic_skill)
        × (w'.pending_skill_slot ≡ none)
  unfolding learn_slot
  answer_too_late late =
      let same =
        taught w used answer slot self target_type target_id skill is_send asked me answered in
      let window : leb_ℤ (answer.timestamp -ℤ used.timestamp) answer_window ≡ false =
        ground arith in
      (
        same.learned
            ∙ ap (λ b. if b then put w.skill_learned slot skill else w.skill_learned) window,
        same.basic ∙ ap (λ b. if b && slot == pos 0 then some skill else w.basic_skill) window,
        same.pending,
      )
