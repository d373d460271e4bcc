-- ===== src/Engine/Relocation.antt =====
-- linux/host/ntpl/engine.py: where `_on_move` and `_on_teleport` put an entity and the own character.
use nostale_packet_logger.Base.{
  ◌≡◌, ◌≢◌, refl, ◌↔◌, sym, subst, ap, ◌∙◌, true, false, Option, none, some, [], ◌∷◌, ◌⊎◌, arith,
  inl, inr, if◌then◌else◌, Bool-cases,
}
use nostale_packet_logger.Base.Int.{ℤ, int_beq_iff}
use nostale_packet_logger.Base.Keys.{◌==◌, int_eq}
use nostale_packet_logger.Base.Dict.{get, put, get-put_self}
use nostale_packet_logger.World.{Entity, WorldState, both, position}
use nostale_packet_logger.Protocol.{Packet, ints}
use nostale_packet_logger.Handlers.Movement.{
  entity_or_new, is_self, move_to, on_move, teleport_to, on_teleport,
}
use nostale_packet_logger.Engine.Entities.{get-put_ne}

-- An entity was put on a cell: it stands there, and so does the own position if it is the own
-- character; any other entity, and the own position else, is as it was.
abbrev pub Relocated : WorldState → WorldState → ℤ → ℤ → ℤ → Type 0
Relocated w w' entity_id x y =
    ((e : Entity) × (get w'.entities entity_id ≡ some e) × (e.x ≡ x) × (e.y ≡ y))
    × ((k : ℤ) → entity_id ≢ k → get w'.entities k ≡ get w.entities k)
    × (((w.self_id ≡ some entity_id) × (position w' ≡ some (x, y)))
        ⊎ ((w.self_id ≢ some entity_id) × (position w' ≡ position w)))

is_self_iff :
    (s : Option ℤ) (entity_id : ℤ)
    → (elim s [ none ↦ false | some own ↦ entity_id == own ] ≡ true) ↔ (s ≡ some entity_id)
is_self_iff none entity_id = (λ h. cc, λ h. cc)
is_self_iff (some own) entity_id = (
  λ h. ap some (sym ((int_beq_iff entity_id own).0 h)),
  λ h. ground (arith, int_beq_iff entity_id own),
)

both_as : (w' : WorldState) (ox oy : Option ℤ) → w'.x ≡ ox → w'.y ≡ oy → position w' ≡ both ox oy
unfolding position
both_as w' ox oy hx hy = ap (λ o. both o w'.y) hx ∙ ap (both ox) hy

relocated :
    (w w' : WorldState) (entity_id x y : ℤ) (e : Entity)
    → w'.entities ≡ put w.entities entity_id e
    → e.x ≡ x
    → e.y ≡ y
    → w'.x ≡ (if is_self w entity_id then some x else w.x)
    → w'.y ≡ (if is_self w entity_id then some y else w.y)
    → Relocated w w' entity_id x y
unfolding position
relocated w w' entity_id x y e put_e ex ey px py = (
  (e, ap (λ d. get d entity_id) put_e ∙ get-put_self w.entities entity_id e, ex, ey),
  (λ k far. ap (λ d. get d k) put_e ∙ get-put_ne w.entities entity_id k e far),
  own,
)
  where
    own :
        ((w.self_id ≡ some entity_id) × (position w' ≡ some (x, y)))
        ⊎ ((w.self_id ≢ some entity_id) × (position w' ≡ position w))
    own = elim (Bool-cases (is_self w entity_id)) [
      | inl on ↦ inl (
        (is_self_iff w.self_id entity_id).0 on,
        both_as w' (some x) (some y) (px ∙ ap (λ b. if b then some x else w.x) on)
            (py ∙ ap (λ b. if b then some y else w.y) on),
      )
      | inr off ↦ inr (
        λ same. cc ((is_self_iff w.self_id entity_id).1 same),
        both_as w' w.x w.y (px ∙ ap (λ b. if b then some x else w.x) off)
            (py ∙ ap (λ b. if b then some y else w.y) off),
      )
    ]

-- A move (`mv`) and a teleport (`tp`) alike put the entity that they name on the packet's cell, whether
-- it was known or not. The own position becomes that cell exactly if the entity is the own character;
-- else it stays as it was, and so do all other entities.
pub moves_relocate :
    (w : WorldState) (move teleport : Packet) (kind entity_id x y speed : ℤ)
    → ints 5 move ≡ some (kind ∷ entity_id ∷ x ∷ y ∷ speed ∷ [])
    → ints 4 teleport ≡ some (kind ∷ entity_id ∷ x ∷ y ∷ [])
    → Relocated w (on_move w move) entity_id x y
      × Relocated w (on_teleport w teleport) entity_id x y
unfolding on_move on_teleport
moves_relocate w move teleport kind entity_id x y speed moved teleported = (
  subst (λ v. Relocated w (move_to w v) entity_id x y) (sym moved)
      (relocated w _ entity_id x y
        (record (entity_or_new w.entities entity_id kind) { kind = kind; x = x; y = y }) refl refl
        refl refl refl),
  subst (λ v. Relocated w (teleport_to w v) entity_id x y) (sym teleported)
      (relocated w _ entity_id x y
        (record (entity_or_new w.entities entity_id kind) { x = x; y = y }) refl refl refl refl
        refl),
)
