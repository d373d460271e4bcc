-- ===== src/Engine/WellFormed/Entries.antt =====
-- The entries that the handlers of engine.py write keep the tables' predicates.
use nostale_packet_logger.Base.{
  ℕ, ◌-◌, ◌≤◌, ◌≡◌, List, [], ◌∷◌, ◌++◌, arith, length, length-drop, Option-cases, inl, inr,
}
use nostale_packet_logger.Base.Int.{ℤ}
use nostale_packet_logger.Base.Keys.{int_eq, cell_eq}
use nostale_packet_logger.Base.Dict.{Dict, get, put}
use nostale_packet_logger.Base.Each.{Each, Each-put}
use nostale_packet_logger.World.{Entity, append_bounded}
use nostale_packet_logger.Handlers.Movement.{entity_or_new}
use nostale_packet_logger.Handlers.Status.{update_known}
use nostale_packet_logger.Handlers.Skills.{positives}
use nostale_packet_logger.Engine.WellFormed.{IsNamed, IsPage}

pub entity_or_new-IsNamed :
    (entities : Dict ℤ Entity) (entity_id kind : ℤ)
    → Each IsNamed entities
    → IsNamed entity_id (entity_or_new entities entity_id kind)
entity_or_new-IsNamed entities entity_id kind h = elim (Option-cases (get entities entity_id)) [
  | inl e ↦ rw (e, entity_or_new)
  | inr (old, e) ↦ rw (e, entity_or_new) (h.at entity_id old e)
]

-- An entity that is changed under its own id.
pub put-IsNamed :
    (entities : Dict ℤ Entity) (entity_id : ℤ) (e : Entity)
    → Each IsNamed entities
    → e.entity_id ≡ entity_id
    → Each IsNamed (put entities entity_id e)
put-IsNamed entities entity_id e h named = Each-put IsNamed entities entity_id e h named

pub update_known-IsNamed :
    (entities : Dict ℤ Entity) (entity_id : ℤ) (f : Entity → Entity)
    → ((e : Entity) → (f e).entity_id ≡ e.entity_id)
    → Each IsNamed entities
    → Each IsNamed (update_known entities entity_id f)
update_known-IsNamed entities entity_id f keeps h = elim (Option-cases (get entities entity_id)) [
  | inl e ↦ rw (e, update_known) h
  | inr (old, e) ↦
      rw (e, update_known)
        (put-IsNamed entities entity_id (f old) h (ground (arith, keeps old, h.at entity_id old)))
]

-- A bounded deque stays in its bound.
pub length-append_bounded {ℓ} :
    {A : Type ℓ} (limit : ℕ) (xs : List A) (x : A) → length (append_bounded limit xs x) ≤ limit
unfolding append_bounded
length-append_bounded limit xs x =
    omega (arith, length-drop (length (xs ++ x ∷ []) - limit) (xs ++ x ∷ []))

pub positives-IsPage : (page : ℤ) (vnums : List ℤ) → IsPage page (positives vnums)
unfolding positives
positives-IsPage page [] = tt
positives-IsPage page (n ∷ ns) = ground (arith, positives-IsPage page ns)
