-- ===== src/MapData/Search/Improve.antt =====
-- linux/host/ntpl/mapdata.py: a neighbour whose score is lowered.
use nostale_packet_logger.Base.{
  All-map, ℕ, ◌+◌, ◌*◌, ◌≤◌, ◌<◌, ◌≡◌, ◌≢◌, ◌⊎◌, inl, inr, true, false, Option, none, some, ◌∷◌,
  arith, All, length, refl, sym, subst, ◌∙◌, ap, Option-cases, suc,
}
use nostale_packet_logger.Base.Dict.{get, put, get-put_self}
use nostale_packet_logger.MapData.{MapGrid, is_walkable, neighbours}
use nostale_packet_logger.MapData.Search.{
  Node, node_eq, Search, octile, step_cost, epsilon, sqrt2, unit_cost, is_no_better,
}
use nostale_packet_logger.MapData.Search.Scores.{cell_total, cell_total-le, cell_total-put}
use nostale_packet_logger.MapData.Search.Inv.{
  put-cases, scored, Score, Lowers, Near, Live, Next, Parent, Closed, Queued, scored_cells, Inv,
  All-Near-Lowers, Queued-Lowers, Parent-Lowers,
}

pub scored-le : (o : Option ℕ) → scored o ≤ 1
scored-le none = omega arith
scored-le (some w) = omega arith

pub step_cost_bounds : (v n : Node) → (unit_cost ≤ step_cost v n) × (step_cost v n ≤ sqrt2)
unfolding step_cost
step_cost_bounds v n = ground arith

pub scaled : (c h w : ℕ) → c ≤ h * (w * 1) → c * sqrt2 ≤ h * w * sqrt2
scaled c h w le = let area : c ≤ h * w = grind arith in omega (arith, area)

module _ (grid : MapGrid) where
  abbrev pub most : ℕ
  most = grid.height * grid.width * sqrt2

  -- What a cell can still give: its score, and more than all scores while it has none.
  abbrev pub owed : Option ℕ → ℕ
  owed none = suc most
  owed (some w) = w

  -- The rounds that are left are fewer than this.
  abbrev pub work : Search → ℕ
  work s = cell_total owed grid s.g_score + length s.frontier

-- The current node, its score and a neighbour that is tried.
module _ (grid : MapGrid) (start goal cur : Node) (g : ℕ) where
  abbrev pub Held : Node → Type 0
  Held n = n ≡ cur

  pub record Tried (s s' : Search) : Type 0 where
    pub kept : Inv grid start goal Held s'
    pub lowers : Lowers s s'
    pub at_cur : Score s' cur g
    pub less_work : work grid s' ≤ work grid s

  better :
      (s : Search) (n : Node)
      → is_no_better s (g + step_cost cur n) n ≡ false
      → (w : ℕ) → Score s n w
      → g + step_cost cur n + epsilon < w
  unfolding is_no_better
  better s n h w at_n = ground arith

  pub no_better :
      (s : Search) (n : Node) → is_no_better s (g + step_cost cur n) n ≡ true → Near s cur g n
  unfolding is_no_better
  no_better s n h = elim (Option-cases (get s.g_score n)) [
    | inl new ↦ cc (rw (new, is_no_better) at h)
    | inr (u, at_n) ↦ (u, at_n, ground arith)
  ]

  module _ (s : Search) (inv : Inv grid start goal Held s) (at_cur : Score s cur g) (n : Node)
      (next : Next grid cur n) (improves : is_no_better s (g + step_cost cur n) n ≡ false) where
    abbrev t : ℕ
    t = g + step_cost cur n

    abbrev s' : Search
    s' = record {
      frontier =
          (record { estimate = t + octile n goal; g = t; counter = s.counter; node = n })
          ∷ s.frontier;
      g_score = put s.g_score n t;
      came_from = put s.came_from n (some cur);
      counter = s.counter + 1;
    }

    lowers : Lowers s s'
    lowers m w at_m = elim (put-cases s.g_score n m t) [
      | inl (same, new) ↦ (t, new, omega (arith, better s n improves w (rw same at_m)))
      | inr (other, old) ↦ (w, old ∙ at_m, omega arith)
    ]

    apart : n ≢ cur
    apart same = omega (arith, better s n improves g (rw same at_cur))

    not_start : n ≢ start
    not_start same = omega (arith, better s n improves 0 (rw same inv.first))

    still_cur : Score s' cur g
    still_cur = elim (put-cases s.g_score n cur t) [
      | inl (same, new) ↦ absurd (apart same)
      | inr (other, old) ↦ old ∙ at_cur
    ]

    linked : (m : Node) (w : ℕ) → Score s' m w → (m ≡ start) ⊎ Parent grid start goal s' m w
    linked m w at_m = elim (put-cases s.g_score n m t) [
      | inl (same, new) ↦
          let from_cur : Parent grid start goal s' n w =
            (cur, g, get-put_self s.came_from n (some cur), still_cur, ground arith, next) in
          inr (subst (λ k. Parent grid start goal s' k w) same from_cur)
      | inr (other, old) ↦ elim (inv.linked m w (sym old ∙ at_m)) [
        | inl root ↦ inl root
        | inr parent ↦ elim (put-cases s.came_from n m (some cur)) [
          | inl (same, _) ↦ absurd (other same)
          | inr (_, from) ↦ inr (Parent-Lowers grid start goal s s' m w lowers from parent)
        ]
      ]
    ]

    known : (m : Node) (p : Option Node) → get s'.came_from m ≡ some p → (w : ℕ) × Score s' m w
    known m p at_m = elim (put-cases s.g_score n m t) [
      | inl (same, new) ↦ (t, new)
      | inr (other, old) ↦ elim (put-cases s.came_from n m (some cur)) [
        | inl (same, _) ↦ absurd (other same)
        | inr (_, from) ↦ let (w, was) = inv.known m p (sym from ∙ at_m) in (w, old ∙ was)
      ]
    ]

    walks : (m : Node) (w : ℕ) → Score s' m w → is_walkable grid m.0 m.1 ≡ true
    walks m w at_m = elim (put-cases s.g_score n m t) [
      | inl (same, new) ↦ subst (λ (k : Node). is_walkable grid k.0 k.1 ≡ true) same next.target
      | inr (other, old) ↦ inv.walks m w (sym old ∙ at_m)
    ]

    queued : All (Queued grid start goal s') s'.frontier
    queued = (
      (t, get-put_self s.g_score n t, omega arith, refl),
      All-map (Queued grid start goal s) (Queued grid start goal s') s.frontier
          (Queued-Lowers grid start goal s s' lowers) inv.queued,
    )

    settled :
        (m : Node) (w : ℕ) → Score s' m w → Held m ⊎ Live s' m w ⊎ Closed grid start goal s' m w
    settled m w at_m = elim (put-cases s.g_score n m t) [
      | inl (same, new) ↦ inr (inl (inl (same, cc)))
      | inr (other, old) ↦ elim (inv.settled m w (sym old ∙ at_m)) [
        | inl held ↦ inl held
        | inr (inl live) ↦ inr (inl (inr live))
        | inr (inr closed) ↦
            inr (
              inr
                (All-Near-Lowers grid start goal s s' m w lowers (neighbours grid m.0 m.1) closed))
      ]
    ]

    counted :
        scored_cells grid start goal s' + scored (get s.g_score n)
        ≡ scored_cells grid start goal s + 1
    counted = cell_total-put scored grid s.g_score n t next.target

    bounded_new : t + sqrt2 ≤ scored_cells grid start goal s' * sqrt2
    bounded_new = elim (Option-cases (get s.g_score n)) [
      | inl new ↦
          omega (arith, counted, ap scored new, inv.bounded cur g at_cur, step_cost_bounds cur n)
      | inr (w, at_n) ↦
          omega (arith, counted, ap scored at_n, inv.bounded n w at_n, better s n improves w at_n)
    ]

    bounded :
        (m : Node) (w : ℕ) → Score s' m w → w + sqrt2 ≤ scored_cells grid start goal s' * sqrt2
    bounded m w at_m = elim (put-cases s.g_score n m t) [
      | inl (same, new) ↦ ground (arith, bounded_new)
      | inr (other, old) ↦
          omega (arith, counted, inv.bounded m w (sym old ∙ at_m), scored-le (get s.g_score n))
    ]

    kept : Inv grid start goal Held s'
    kept = record {
      first = elim (put-cases s.g_score n start t) [
        | inl (same, new) ↦ absurd (not_start same)
        | inr (other, old) ↦ old ∙ inv.first
      ];
      linked = linked;
      known = known;
      walks = walks;
      queued = queued;
      settled = settled;
      bounded = bounded;
    }

    at_most : t ≤ most grid
    at_most =
        let few =
          cell_total-le scored grid (put s.g_score n t) 1
            (λ k. scored-le (get (put s.g_score n t) k)) in
        omega (arith, bounded_new, scaled _ grid.height grid.width few)

    less_work : work grid s' ≤ work grid s
    less_work = elim (Option-cases (get s.g_score n)) [
      | inl new ↦ omega (
        arith,
        cell_total-put (owed grid) grid s.g_score n t next.target,
        ap (owed grid) new,
        at_most,
      )
      | inr (w, at_n) ↦ omega (
        arith,
        cell_total-put (owed grid) grid s.g_score n t next.target,
        ap (owed grid) at_n,
        better s n improves w at_n,
      )
    ]

    pub improved : Tried s s'
    improved = record { kept = kept; lowers = lowers; at_cur = still_cur; less_work = less_work }
