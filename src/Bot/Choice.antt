-- ===== src/Bot/Choice.antt =====
-- linux/host/ntpl/gui.py: the monster of a tick, by retaliation or by distance.
use nostale_packet_logger.Base.{
  ◌≡◌, refl, sym, subst, ◌∙◌, inl, inr, Bool, true, false, not, ◌||◌, Option, none, some, List, [],
  ◌∷◌, arith, Bool-cases, if◌then◌else◌, leb, leb→le,
}
use nostale_packet_logger.Base.Int.{ℤ, pos, ltb_ℤ, ◌-ℤ◌}
use nostale_packet_logger.Base.Keys.{◌==◌, int_eq}
use nostale_packet_logger.Base.Dict.{Dict, get, lookup}
use nostale_packet_logger.World.{Entity}
use nostale_packet_logger.Bot.{Bot, player_cell, cells_between}
use nostale_packet_logger.Bot.Targets.{
  monster_allowed, target_blocked, kind_monster, nearest_from, nearest_monster, attacker_in_reach,
  retaliate_on, retaliate_to, retaliation_target, if_in_reach,
}
use nostale_packet_logger.Bot.Nearest.{
  SameBlocks, target_blocked-SameBlocks, target_blocked-eq, OneOf, IsTarget, Eligible, IsNearest,
  nearest_from-SameBlocks, nearest_from-IsNearest,
}
use nostale_packet_logger.Bot.Combat.{choose_monster, or_nearest}

-- A monster of the world that the bot may attack from where it stands.
abbrev pub Attackable : Bot → Entity → Type 0
Attackable b e =
    (cell : ℤ × ℤ) × (player_cell b ≡ some cell)
    × OneOf e b.world.entities.items
    × Eligible b b.settings.attack_range cell e

abbrev pub MayBe : Bot → Option Entity → Type 0
MayBe b none = Unit
MayBe b (some e) = Attackable b e

-- Only blocks that have run out may differ.
abbrev pub Renewed : Bot → Bot → Type 0
Renewed b b' =
    (d : Dict ℤ ℤ) × (b' ≡ record b { target_blocked = d }) × SameBlocks b.now b.target_blocked d

abbrev pub IsChoice : Bot → Bot × Option Entity → Type 0
IsChoice b s = Renewed b s.0 × MayBe b s.1

Renewed-refl : (b : Bot) → Renewed b b
Renewed-refl b = (b.target_blocked, refl, λ id. refl)

IsChoice-if :
    (t : Bool) (b : Bot) (x y : Bot × Option Entity)
    → (t ≡ true → IsChoice b x)
    → (t ≡ false → IsChoice b y)
    → IsChoice b (if t then x else y)
IsChoice-if true b x y hx hy = hx refl
IsChoice-if false b x y hx hy = hy refl

OneOf-lookup :
    (id : ℤ) (e : Entity) (items : List (ℤ × Entity)) → lookup id items ≡ some e → OneOf e items
unfolding lookup
OneOf-lookup id e [] h = cc
OneOf-lookup id e ((k, f) ∷ items) h = elim (Bool-cases (k == id)) [
  | inl here ↦ inl (ground (arith, rw here at h))
  | inr later ↦ inr (OneOf-lookup id e items (rw later at h))
]

-- A monster that is free under renewed blocks is free.
Attackable-before :
    (b : Bot) (d : Dict ℤ ℤ) (e : Entity)
    → SameBlocks b.now b.target_blocked d
    → Attackable (record b { target_blocked = d }) e
    → Attackable b e
unfolding player_cell monster_allowed
Attackable-before b d e same (cell, here, among, (target, near)) = (
  cell,
  here,
  among,
  (
    record {
      is_monster = target.is_monster;
      is_allowed = target.is_allowed;
      is_free = sym (same e.entity_id) ∙ target.is_free;
    },
    near,
  ),
)

reach-MayBe :
    (b : Bot) (e : Entity) (cell : Option (ℤ × ℤ))
    → player_cell b ≡ cell
    → OneOf e b.world.entities.items
    → IsTarget b e
    → MayBe b (if_in_reach b.settings.attack_range e cell)
reach-MayBe b e none here among ok = tt
reach-MayBe b e (some cell) here among ok =
    elim (Bool-cases (leb (cells_between (e.x, e.y) cell) b.settings.attack_range)) [
      | inl near ↦ rw near (cell, here, among, (ok, leb→le _ _ near))
      | inr far ↦ rw far tt
    ]

-- A choice that is made on renewed blocks.
MayBe-before :
    (b : Bot) (d : Dict ℤ ℤ) (m : Option Entity)
    → SameBlocks b.now b.target_blocked d
    → MayBe (record b { target_blocked = d }) m
    → MayBe b m
MayBe-before b d none same h = tt
MayBe-before b d (some e) same h = Attackable-before b d e same h

nearest_one :
    (b : Bot) (cell : ℤ × ℤ) (m : Option Entity)
    → player_cell b ≡ some cell
    → IsNearest b b.settings.attack_range cell m
    → MayBe b m
nearest_one b cell none here h = tt
nearest_one b cell (some e) here (among, ok, _) = (cell, here, among, ok)

nearest_from-IsChoice :
    (b : Bot) (cell : Option (ℤ × ℤ))
    → player_cell b ≡ cell
    → IsChoice b (nearest_from b b.settings.attack_range cell)
unfolding nearest_from
nearest_from-IsChoice b none here = (Renewed-refl b, tt)
nearest_from-IsChoice b (some cell) here = (
  (
    (nearest_from b b.settings.attack_range (some cell)).0.target_blocked,
    refl,
    nearest_from-SameBlocks b b.settings.attack_range cell,
  ),
  nearest_one b cell _ here (nearest_from-IsNearest b b.settings.attack_range cell),
)

attacker-MayBe :
    (b : Bot) (e : Entity) (id : ℤ) (d : Dict ℤ ℤ)
    → get b.world.entities id ≡ some e
    → IsTarget b e
    → MayBe b (attacker_in_reach (record b { target_blocked = d }) b.settings.attack_range e)
unfolding attacker_in_reach player_cell get
attacker-MayBe b e id d at ok =
    reach-MayBe b e (player_cell b) refl (OneOf-lookup id e b.world.entities.items at) ok

retaliate_on-IsChoice :
    (b : Bot) (id : ℤ) (m : Option Entity)
    → get b.world.entities id ≡ m
    → IsChoice b (retaliate_on b b.settings.attack_range m)
unfolding retaliate_on get
retaliate_on-IsChoice b id none at = (Renewed-refl b, tt)
retaliate_on-IsChoice b id (some e) at =
    let d = (target_blocked b.now b.target_blocked e.entity_id).0 in
    let same = target_blocked-SameBlocks b.now b.target_blocked e.entity_id in
    let b' = record b { target_blocked = d } in
    IsChoice-if (not (e.kind == kind_monster) || not (monster_allowed b e)) b (b, none) _
      (λ _. (Renewed-refl b, tt))
      (λ wanted.
        IsChoice-if (target_blocked b.now b.target_blocked e.entity_id).1 b (b', none) _
          (λ _. ((d, refl, same), tt))
          (λ free. (
            (d, refl, same),
            attacker-MayBe b e id d at (record {
              is_monster = ground (arith, wanted);
              is_allowed = ground (arith, wanted);
              is_free = sym (target_blocked-eq b.now b.target_blocked e.entity_id) ∙ free;
            }),
          )))

retaliate_to-IsChoice :
    (b : Bot) (id : Option ℤ) → IsChoice b (retaliate_to b b.settings.attack_range id)
unfolding retaliate_to
retaliate_to-IsChoice b none = (Renewed-refl b, tt)
retaliate_to-IsChoice b (some id) =
    IsChoice-if (ltb_ℤ (pos 5000000) (b.wall -ℤ b.world.last_attacker_at)) b (b, none) _
      (λ _. (Renewed-refl b, tt)) (λ _. retaliate_on-IsChoice b id (get b.world.entities id) refl)

retaliation_target-IsChoice : (b : Bot) → IsChoice b (retaliation_target b b.settings.attack_range)
unfolding retaliation_target
retaliation_target-IsChoice b = retaliate_to-IsChoice b b.world.last_attacker_id

nearest_monster-IsChoice : (b : Bot) → IsChoice b (nearest_monster b b.settings.attack_range)
unfolding nearest_monster
nearest_monster-IsChoice b = nearest_from-IsChoice b (player_cell b) refl

renewed-IsChoice :
    (b : Bot) (d : Dict ℤ ℤ)
    → SameBlocks b.now b.target_blocked d
    → IsChoice b (nearest_monster (record b { target_blocked = d }) b.settings.attack_range)
renewed-IsChoice b d same =
    let ((d', eq, again), may) = nearest_monster-IsChoice (record b { target_blocked = d }) in
    ((d', eq, λ id. again id ∙ same id), MayBe-before b d _ same may)

or_nearest-IsChoice :
    (b : Bot) (s : Bot × Option Entity)
    → IsChoice b s
    → IsChoice b (or_nearest s b.settings.attack_range)
or_nearest-IsChoice b (b', some e) h = h
or_nearest-IsChoice b (b', none) ((d, eq, same), _) =
    subst (λ (k : Bot). IsChoice b (nearest_monster k b.settings.attack_range)) (sym eq)
      (renewed-IsChoice b d same)

-- The monster of a tick is one that the bot may attack from where it stands.
pub choose_monster-IsChoice : (b : Bot) → IsChoice b (choose_monster b)
unfolding choose_monster
choose_monster-IsChoice b = or_nearest-IsChoice b _ (
    IsChoice-if b.settings.retaliate b _ (b, none) (λ _. retaliation_target-IsChoice b)
      (λ _. (Renewed-refl b, tt)))
