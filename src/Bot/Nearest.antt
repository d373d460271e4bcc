-- ===== src/Bot/Nearest.antt =====
-- linux/host/ntpl/gui.py: the monster that `_nearest_monster` chooses.
use nostale_packet_logger.Base.{
  ℕ, suc, ◌≤◌, ◌≡◌, refl, sym, subst, ap, ◌∙◌, ◌⊎◌, inl, inr, true, false, not, ◌&&◌, ◌||◌, Option,
  none, some, List, [], ◌∷◌, arith, All, All-map, Bool-cases, leb, ltb,
}
use nostale_packet_logger.Base.Int.{ℤ, int_beq_iff}
use nostale_packet_logger.Base.Keys.{◌==◌, int_eq}
use nostale_packet_logger.Base.Dict.{Dict, get, get-remove}
use nostale_packet_logger.World.{Entity}
use nostale_packet_logger.Bot.{Bot, player_cell, cells_between}
use nostale_packet_logger.Bot.Targets.{
  monster_allowed, blocked_at, target_blocked, kind_monster, Best, consider, consider_all,
  nearest_from, nearest_monster,
}

-- Dropping the entries that have run out changes nobody's being blocked.
abbrev pub SameBlocks : ℤ → Dict ℤ ℤ → Dict ℤ ℤ → Type 0
SameBlocks now d d' = (id : ℤ) → blocked_at now (get d' id) ≡ blocked_at now (get d id)

pub target_blocked-SameBlocks :
    (now : ℤ) (d : Dict ℤ ℤ) (id : ℤ) → SameBlocks now d (target_blocked now d id).0
unfolding target_blocked blocked_at
target_blocked-SameBlocks now d id j = ground (arith, get-remove d id j, int_beq_iff id j)

pub target_blocked-eq :
    (now : ℤ) (d : Dict ℤ ℤ) (id : ℤ) → (target_blocked now d id).1 ≡ blocked_at now (get d id)
unfolding target_blocked
target_blocked-eq now d id = refl

-- An entity of the world.
abbrev pub OneOf : Entity → List (ℤ × Entity) → Type 0
OneOf e [] = ⊥
OneOf e ((id, f) ∷ es) = (e ≡ f) ⊎ OneOf e es

-- What the bot may attack now: an allowed monster that is not blocked.
pub record IsTarget (b : Bot) (e : Entity) : Type 0 where
  pub is_monster : (e.kind == kind_monster) ≡ true
  pub is_allowed : monster_allowed b e ≡ true
  pub is_free : blocked_at b.now (get b.target_blocked e.entity_id) ≡ false

module _ (b : Bot) (radius : ℕ) (cell : ℤ × ℤ) where
  abbrev pub Eligible : Entity → Type 0
  Eligible e = IsTarget b e × (cells_between (e.x, e.y) cell ≤ radius)

  -- One turn: a monster that is nearer than the best is taken.
  record Turn (e : Entity) (s s' : Dict ℤ ℤ × Best) : Type 0 where
    blocks : SameBlocks b.now s.0 s'.0
    nearer : s'.1.1 ≤ s.1.1
    no_farther : Eligible e → s'.1.1 ≤ cells_between (e.x, e.y) cell
    chosen :
        (s'.1 ≡ s.1) ⊎ ((s'.1.0 ≡ some e) × Eligible e × (s'.1.1 ≡ cells_between (e.x, e.y) cell))

  consider-Turn :
      (s : Dict ℤ ℤ × Best) (e : Entity)
      → SameBlocks b.now b.target_blocked s.0
      → Turn e s (consider b radius cell s e)
  unfolding consider
  consider-Turn (d, (best, distance)) e same =
      elim (Bool-cases (not (e.kind == kind_monster) || not (monster_allowed b e))) [
        | inl passed ↦ rw passed (record {
          blocks = λ id. refl;
          nearer = omega arith;
          no_farther = λ h. absurd (ground (arith, h.0.is_monster, h.0.is_allowed));
          chosen = inl refl;
        })
        | inr wanted ↦
            let held = blocked_at b.now (get d e.entity_id) in
            let apart = cells_between (e.x, e.y) cell in
            let free = same e.entity_id in
            elim (Bool-cases (not held && (leb apart radius && ltb apart distance))) [
              | inl take ↦
                  rw (wanted, take)
                    (record {
                      blocks = target_blocked-SameBlocks b.now d e.entity_id;
                      nearer = ground (arith, take);
                      no_farther = λ h. omega arith;
                      chosen = inr (
                        refl,
                        (
                          record {
                            is_monster = ground (arith, wanted);
                            is_allowed = ground (arith, wanted);
                            is_free = ground (arith, take, free);
                          },
                          ground (arith, take),
                        ),
                        refl,
                      );
                    })
              | inr leave ↦
                  rw (wanted, leave)
                    (record {
                      blocks = target_blocked-SameBlocks b.now d e.entity_id;
                      nearer = omega arith;
                      no_farther = λ h. ground (arith, leave, free, h.0.is_free, h.1);
                      chosen = inl refl;
                    })
            ]
      ]

  -- The whole loop.
  record Run (es : List (ℤ × Entity)) (s s' : Dict ℤ ℤ × Best) : Type 0 where
    blocks : SameBlocks b.now b.target_blocked s'.0
    nearer : s'.1.1 ≤ s.1.1
    no_farther : All (λ p. Eligible p.1 → s'.1.1 ≤ cells_between (p.1.x, p.1.y) cell) es
    chosen :
        (s'.1 ≡ s.1)
        ⊎ ((e : Entity) × (s'.1.0 ≡ some e)
            × Eligible e
            × (s'.1.1 ≡ cells_between (e.x, e.y) cell)
            × OneOf e es)

  consider_all-Run :
      (s : Dict ℤ ℤ × Best) (es : List (ℤ × Entity))
      → SameBlocks b.now b.target_blocked s.0
      → Run es s (consider_all b radius cell s es)
  unfolding consider_all
  consider_all-Run s [] same = record {
    blocks = same;
    nearer = omega arith;
    no_farther = tt;
    chosen = inl refl;
  }
  consider_all-Run s ((id, e) ∷ es) same =
      let turn = consider-Turn s e same in
      let s1 = consider b radius cell s e in
      let whole_run = consider_all-Run s1 es (λ j. turn.blocks j ∙ same j) in
      record {
        blocks = whole_run.blocks;
        nearer = omega (arith, turn.nearer, whole_run.nearer);
        no_farther =
            ((λ h. omega (arith, turn.no_farther h, whole_run.nearer)), whole_run.no_farther);
        chosen = elim whole_run.chosen [
          | inr (f, is_f, ok, far, among) ↦ inr (f, is_f, ok, far, inr among)
          | inl stays ↦ elim turn.chosen [
            | inl same_best ↦ inl (stays ∙ same_best)
            | inr (is_e, ok, far) ↦ inr (
              e,
              ap (λ (k : Best). k.0) stays ∙ is_e,
              ok,
              ap (λ (k : Best). k.1) stays ∙ far,
              inl refl,
            )
          ]
        ];
      }

  -- What is chosen: a target within the radius than which none is nearer, or nothing where there is
  -- none.
  abbrev pub IsNearest : Option Entity → Type 0
  IsNearest none = All (λ p. Eligible p.1 → ⊥) b.world.entities.items
  IsNearest (some e) =
      OneOf e b.world.entities.items
      × Eligible e
      × All (λ p. Eligible p.1 → cells_between (e.x, e.y) cell ≤ cells_between (p.1.x, p.1.y) cell)
          b.world.entities.items

  abbrev last : Dict ℤ ℤ × Best
  last = consider_all b radius cell (b.target_blocked, (none, suc radius)) b.world.entities.items

  whole_run : Run b.world.entities.items (b.target_blocked, (none, suc radius)) last
  whole_run =
      consider_all-Run (b.target_blocked, (none, suc radius)) b.world.entities.items (λ j. refl)

  abbrev Farther : ℤ × Entity → Type 0
  Farther p = Eligible p.1 → last.1.1 ≤ cells_between (p.1.x, p.1.y) cell

  last-IsNearest : IsNearest last.1.0
  last-IsNearest = elim whole_run.chosen [
    | inl stays ↦
        subst (λ (k : Option Entity). IsNearest k) (sym (ap (λ (k : Best). k.0) stays))
          (All-map Farther (λ p. Eligible p.1 → ⊥) b.world.entities.items
            (λ p far h. omega (arith, far h, h.1, ap (λ (k : Best). k.1) stays))
            whole_run.no_farther)
    | inr (e, is_e, ok, far, among) ↦
        subst (λ (k : Option Entity). IsNearest k) (sym is_e)
          (
            among,
            ok,
            All-map Farther
                (λ p.
                  Eligible p.1 → cells_between (e.x, e.y) cell ≤ cells_between (p.1.x, p.1.y) cell)
                b.world.entities.items (λ p near h. omega (arith, near h, far))
                whole_run.no_farther,
          )
  ]

  pub nearest_from-SameBlocks :
      SameBlocks b.now b.target_blocked (nearest_from b radius (some cell)).0.target_blocked
  unfolding nearest_from
  nearest_from-SameBlocks = whole_run.blocks

  pub nearest_from-IsNearest : IsNearest (nearest_from b radius (some cell)).1
  unfolding nearest_from
  nearest_from-IsNearest = last-IsNearest

-- Where the bot knows its cell, `_nearest_monster` returns a monster of the world that is allowed, not
-- blocked and within the radius, and no other such monster is nearer; it returns None only if there is
-- no such monster.
pub nearest_monster-IsNearest :
    (b : Bot) (radius : ℕ) (cell : ℤ × ℤ)
    → player_cell b ≡ some cell
    → IsNearest b radius cell (nearest_monster b radius).1
unfolding nearest_monster
nearest_monster-IsNearest b radius cell here =
    subst (λ (o : Option (ℤ × ℤ)). IsNearest b radius cell (nearest_from b radius o).1) (sym here)
      (nearest_from-IsNearest b radius cell)
