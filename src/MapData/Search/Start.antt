-- ===== src/MapData/Search/Start.antt =====
-- linux/host/ntpl/mapdata.py: the first round of `astar`, and the rounds that it is given.
use nostale_packet_logger.Base.{
  ℕ, zero, suc, ◌+◌, ◌*◌, ◌≤◌, ◌<◌, ◌≡◌, inl, inr, true, Option, none, arith, length, refl, sym,
  subst, ap,
}
use nostale_packet_logger.Base.Dict.{get, empty, get-put_self, get-empty}
use nostale_packet_logger.MapData.{MapGrid, is_walkable}
use nostale_packet_logger.MapData.Search.{Node, node_eq, Search, initial, search_fuel, sqrt2}
use nostale_packet_logger.MapData.Search.Scores.{cell_total-le, cell_total-put}
use nostale_packet_logger.MapData.Search.Inv.{put-cases, scored, Score, Inv}
use nostale_packet_logger.MapData.Search.Improve.{work, most, owed, scored-le, scaled}

-- The rounds that are allowed exceed any sum of scores.
walk_bound : (h w a : ℕ) → a ≡ h * w * sqrt2 → a < h * (w * (a + 1)) + 2
walk_bound zero w a eq = omega arith
walk_bound (suc h) zero a eq = grind arith
walk_bound (suc h) (suc w) a eq = grind arith

module _ (grid : MapGrid) (start goal : Node) where
  initial-Score : (n : Node) (w : ℕ) → Score (initial start goal) n w → (start ≡ n) × (w ≡ 0)
  unfolding initial
  initial-Score n w at_n = elim (put-cases {V = ℕ} empty start n 0) [
    | inl (same, new) ↦ (same, cc)
    | inr (_, old) ↦ cc (get-empty {V = ℕ} n)
  ]

  pub initial-Inv :
      is_walkable grid start.0 start.1 ≡ true → Inv grid start goal (λ _. ⊥) (initial start goal)
  unfolding initial
  initial-Inv here =
      let first = get-put_self {V = ℕ} empty start 0 in
      record {
        first = first;
        linked = λ n w at_n. inl (sym (initial-Score n w at_n).0);
        known = λ n p from. elim (put-cases {V = Option Node} empty start n none) [
          | inl (same, _) ↦ (0, subst (λ (k : Node). Score (initial start goal) k 0) same first)
          | inr (_, old) ↦ cc (get-empty {V = Option Node} n)
        ];
        walks = λ n w at_n.
            subst (λ (k : Node). is_walkable grid k.0 k.1 ≡ true) (initial-Score n w at_n).0 here;
        queued = ((0, first, omega arith, omega arith), tt);
        settled = λ n w at_n.
            let (same, nought) = initial-Score n w at_n in inr (inl (inl (same, sym nought)));
        bounded = λ n w at_n.
            let (same, nought) = initial-Score n w at_n in
            omega (
              arith,
              cell_total-put scored grid empty start 0 here,
              ap scored (get-empty {V = ℕ} start),
            );
      }

  initial_alone : length (initial start goal).frontier ≡ 1
  unfolding initial
  initial_alone = refl

  owed-initial : (n : Node) → owed grid (get (initial start goal).g_score n) ≤ suc (most grid)
  unfolding initial
  owed-initial n = elim (put-cases {V = ℕ} empty start n 0) [
    | inl (same, new) ↦ rw new (omega arith)
    | inr (_, old) ↦ rw (old, get-empty) (omega arith)
  ]

  pub enough_work : work grid (initial start goal) < search_fuel grid
  unfolding search_fuel
  enough_work =
      let sum =
        cell_total-le (owed grid) grid (initial start goal).g_score (suc (most grid))
          owed-initial in
      let single : length (initial start goal).frontier ≡ 1 = initial_alone in
      let area : grid.height * (grid.width * suc (most grid))
          ≡ grid.height * (grid.width * (most grid + 1)) =
        ap (λ (k : ℕ). grid.height * (grid.width * k)) (omega arith) in
      omega (arith, sum, single, area)

  pub enough_walk :
      (Held : Node → Type 0) (s : Search)
      → Inv grid start goal Held s
      → (n : Node) (w : ℕ) → Score s n w
      → w < search_fuel grid
  unfolding search_fuel
  enough_walk Held s inv n w at_n =
      let cells = cell_total-le scored grid s.g_score 1 (λ k. scored-le (get s.g_score k)) in
      omega (
        arith,
        inv.bounded n w at_n,
        scaled _ grid.height grid.width cells,
        walk_bound grid.height grid.width (most grid) refl,
      )
