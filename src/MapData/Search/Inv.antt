-- ===== src/MapData/Search/Inv.antt =====
-- linux/host/ntpl/mapdata.py: what holds of the tables and the frontier in each round of `astar`.
use nostale_packet_logger.Base.{
  ℕ, ◌+◌, ◌*◌, ◌≤◌, ◌≡◌, ◌≢◌, ◌⊎◌, inl, inr, true, Option, none, some, List, [], ◌∷◌, arith, All,
  Bool-cases, ◌∙◌,
}
use nostale_packet_logger.Base.Dict.{Dict, get, put, get-put}
use nostale_packet_logger.MapData.{MapGrid, is_walkable, neighbours}
use nostale_packet_logger.MapData.Steps.{IsStep}
use nostale_packet_logger.MapData.Search.{
  Node, node_eq, node_beq_iff, node_beq, FrontierItem, Search, octile, step_cost, epsilon, sqrt2,
}
use nostale_packet_logger.MapData.Search.Heap.{Some}
use nostale_packet_logger.MapData.Search.Scores.{cell_total}

-- A value stored under a key, looked up under that key or another.
pub put-cases :
    {V : Type 0} (d : Dict Node V) (n m : Node) (v : V)
    → ((n ≡ m) × (get (put d n v) m ≡ some v)) ⊎ ((n ≢ m) × (get (put d n v) m ≡ get d m))
put-cases d n m v = elim (Bool-cases (node_beq n m)) [
  | inl same ↦ inl ((node_beq_iff n m).0 same, rw same at (get-put d n m v))
  | inr other ↦ inr (λ e. cc ((node_beq_iff n m).1 e), rw other at (get-put d n m v))
]

-- Counts a cell that has a score.
abbrev pub scored : Option ℕ → ℕ
scored none = 0
scored (some w) = 1

abbrev pub Score : Search → Node → ℕ → Type 0
Score s n w = get s.g_score n ≡ some w

-- Scores are only ever lowered.
abbrev pub Lowers : Search → Search → Type 0
Lowers s s' = (n : Node) (w : ℕ) → Score s n w → (w' : ℕ) × Score s' n w' × (w' ≤ w)

abbrev pub Near : Search → Node → ℕ → Node → Type 0
Near s v w n = (u : ℕ) × Score s n u × (u ≤ w + step_cost v n + epsilon)

-- The frontier has the entry of a score.
abbrev pub Live : Search → Node → ℕ → Type 0
Live s n w = Some (λ e. (e.node ≡ n) × (e.g ≡ w)) s.frontier

abbrev pub Next : MapGrid → Node → Node → Type 0
Next grid v n = IsStep grid v.0 v.1 n.0 n.1

module _ (grid : MapGrid) (start goal : Node) where
  abbrev pub Parent : Search → Node → ℕ → Type 0
  Parent s n w =
      (p : Node) × (v : ℕ) × (get s.came_from n ≡ some (some p))
      × Score s p v
      × (v + step_cost p n ≤ w)
      × Next grid p n

  abbrev pub Closed : Search → Node → ℕ → Type 0
  Closed s v w = All (Near s v w) (neighbours grid v.0 v.1)

  abbrev pub Queued : Search → FrontierItem → Type 0
  Queued s e = (w : ℕ) × Score s e.node w × (w ≤ e.g) × (e.estimate ≡ e.g + octile e.node goal)

  abbrev pub scored_cells : Search → ℕ
  scored_cells s = cell_total scored grid s.g_score

  -- Between the rounds no node is held; while its neighbours are tried, the current one is.
  pub record Inv (Held : Node → Type 0) (s : Search) : Type 0 where
    pub first : Score s start 0
    pub linked : (n : Node) (w : ℕ) → Score s n w → (n ≡ start) ⊎ Parent s n w
    pub known : (n : Node) (p : Option Node) → get s.came_from n ≡ some p → (w : ℕ) × Score s n w
    pub walks : (n : Node) (w : ℕ) → Score s n w → is_walkable grid n.0 n.1 ≡ true
    pub queued : All (Queued s) s.frontier
    pub settled : (n : Node) (w : ℕ) → Score s n w → Held n ⊎ Live s n w ⊎ Closed s n w
    pub bounded : (n : Node) (w : ℕ) → Score s n w → w + sqrt2 ≤ scored_cells s * sqrt2

  -- What a lower score leaves true.
  pub Near-Lowers :
      (s s' : Search) (v : Node) (w : ℕ) → Lowers s s' → (n : Node) → Near s v w n → Near s' v w n
  Near-Lowers s s' v w low n (u, at_n, le) =
      let (u', at_n', le') = low n u at_n in (u', at_n', omega arith)

  pub All-Near-Lowers :
      (s s' : Search) (v : Node) (w : ℕ)
      → Lowers s s'
      → (ns : List Node) → All (Near s v w) ns
      → All (Near s' v w) ns
  All-Near-Lowers s s' v w low [] h = tt
  All-Near-Lowers s s' v w low (n ∷ ns) (h, hs) =
      (Near-Lowers s s' v w low n h, All-Near-Lowers s s' v w low ns hs)

  pub Queued-Lowers : (s s' : Search) → Lowers s s' → (e : FrontierItem) → Queued s e → Queued s' e
  Queued-Lowers s s' low e (w, at_e, le, est) =
      let (w', at_e', le') = low e.node w at_e in (w', at_e', omega arith, est)

  pub Parent-Lowers :
      (s s' : Search) (n : Node) (w : ℕ)
      → Lowers s s'
      → get s'.came_from n ≡ get s.came_from n
      → Parent s n w
      → Parent s' n w
  Parent-Lowers s s' n w low same (p, v, from, at_p, le, next) =
      let (v', at_p', le') = low p v at_p in (p, v', same ∙ from, at_p', omega arith, next)
