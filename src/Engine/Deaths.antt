-- ===== src/Engine/Deaths.antt =====
-- linux/host/ntpl/engine.py: what `_on_status` makes of the death of a monster.
use nostale_packet_logger.Base.{
  ◌≡◌, ◌≢◌, refl, Bool, true, false, ◌&&◌, ◌||◌, Option, none, some, List, [], ◌∷◌, ◌⊎◌, arith, inl,
  inr, Bool-cases, ltb, length,
}
use nostale_packet_logger.Base.Int.{ℤ, pos, int_beq_iff}
use nostale_packet_logger.Base.Keys.{Text, ◌==◌, int_eq, beq_refl}
use nostale_packet_logger.Base.Options.{◌>>=◌}
use nostale_packet_logger.Python.{int?}
use nostale_packet_logger.Base.Dict.{get, get-remove}
use nostale_packet_logger.World.{WorldState}
use nostale_packet_logger.Protocol.{Packet, args}
use nostale_packet_logger.Handlers.Spawns.{read_status, bury, on_status}
use nostale_packet_logger.Engine.Entities.{get-remove_ne}

-- What a status packet with this kind, id and HP leaves of a world; `none` is a field that is no
-- number. The death of a monster or an NPC removes it and no other entity; all else changes nothing.
abbrev pub AfterStatus : WorldState → WorldState → Option ℤ → Option ℤ → Option ℤ → Type 0
AfterStatus w w' (some kind) (some entity_id) (some hp) =
    (((kind ≡ pos 2) ⊎ (kind ≡ pos 3))
      × (hp ≡ pos 0)
      × (get w'.entities entity_id ≡ none)
      × ((k : ℤ) → entity_id ≢ k → get w'.entities k ≡ get w.entities k))
    ⊎ ((((kind ≢ pos 2) × (kind ≢ pos 3)) ⊎ (hp ≢ pos 0)) × (w' ≡ w))
AfterStatus w w' _ _ _ = w' ≡ w

-- The same by the arguments: the kind, the id, and the HP, which is the seventh of at least nine.
abbrev pub Reported : WorldState → WorldState → List Text → Type 0
Reported w w' (kind ∷ entity_id ∷ _ ∷ _ ∷ _ ∷ _ ∷ hp ∷ _ ∷ _ ∷ more) =
    AfterStatus w w' (int? kind) (int? entity_id) (int? hp)
Reported w w' _ = w' ≡ w

abbrev is_death : ℤ → ℤ → Bool
is_death kind hp = (kind == pos 2 || kind == pos 3) && hp == pos 0

dead_kind : (kind hp : ℤ) → is_death kind hp ≡ true → (kind ≡ pos 2) ⊎ (kind ≡ pos 3)
dead_kind kind hp h = ground (arith, int_beq_iff kind (pos 2), int_beq_iff kind (pos 3))

alive : (kind hp : ℤ) → is_death kind hp ≡ false → ((kind ≢ pos 2) × (kind ≢ pos 3)) ⊎ (hp ≢ pos 0)
alive kind hp h =
    ground (arith, int_beq_iff kind (pos 2), int_beq_iff kind (pos 3), int_beq_iff hp (pos 0))

buried :
    (w : WorldState) (kind entity_id hp : ℤ)
    → AfterStatus w (bury w (some (kind, entity_id, hp))) (some kind) (some entity_id) (some hp)
unfolding bury
buried w kind entity_id hp = elim (Bool-cases (is_death kind hp)) [
  | inl e ↦ rw e (
      inl (
        dead_kind kind hp e,
        (int_beq_iff hp (pos 0)).0 (ground arith),
        simp (get-remove, beq_refl),
        λ k far. get-remove_ne w.entities entity_id k far,
      ))
  | inr e ↦ rw e (inr (alive kind hp e, refl))
]

-- What is read of three fields.
three_fields : Option ℤ → Option ℤ → Option ℤ → Option (ℤ × ℤ × ℤ)
three_fields kind entity_id hp = do k ← kind; i ← entity_id; h ← hp; some (k, i, h)

bury-AfterStatus :
    (w : WorldState) (kind entity_id hp : Option ℤ)
    → AfterStatus w (bury w (three_fields kind entity_id hp)) kind entity_id hp
unfolding three_fields bury
bury-AfterStatus w (some kind) (some entity_id) (some hp) = buried w kind entity_id hp
bury-AfterStatus w (some kind) (some entity_id) none = refl
bury-AfterStatus w (some kind) none hp = refl
bury-AfterStatus w none entity_id hp = refl

bury-Reported : (w : WorldState) (l : List Text) → Reported w (bury w (read_status l)) l
unfolding bury read_status three_fields
bury-Reported w [] = refl
bury-Reported w (a ∷ []) = refl
bury-Reported w (a ∷ b ∷ []) = refl
bury-Reported w (a ∷ b ∷ c ∷ []) = refl
bury-Reported w (a ∷ b ∷ c ∷ d ∷ []) = refl
bury-Reported w (a ∷ b ∷ c ∷ d ∷ e ∷ []) = refl
bury-Reported w (a ∷ b ∷ c ∷ d ∷ e ∷ f ∷ []) = refl
bury-Reported w (a ∷ b ∷ c ∷ d ∷ e ∷ f ∷ g ∷ []) = refl
bury-Reported w (a ∷ b ∷ c ∷ d ∷ e ∷ f ∷ g ∷ h ∷ []) = refl
bury-Reported w (a ∷ b ∷ c ∷ d ∷ e ∷ f ∷ g ∷ h ∷ i ∷ more) =
    let long : ltb (length (a ∷ b ∷ c ∷ d ∷ e ∷ f ∷ g ∷ h ∷ i ∷ more)) 9 ≡ false = ground arith in
    rw long (bury-AfterStatus w (int? a) (int? b) (int? g))

-- A status packet `st` with at least nine arguments, of which the first is a kind, the second an id
-- and the seventh a number of HP, removes the entity of that id, and no other, if the kind is an NPC
-- or a monster and no HP are left. Every other status packet, one that is too short or has no number
-- in one of the three places too, changes nothing.
pub on_status-Reported : (w : WorldState) (p : Packet) → Reported w (on_status w p) (args p)
unfolding on_status
on_status-Reported w p = bury-Reported w (args p)
