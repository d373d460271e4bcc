-- ===== src/MapData/Search/Trace.antt =====
-- linux/host/ntpl/mapdata.py: the routes of a grid, and the one that `astar` walks back.
use nostale_packet_logger.Base.{
  ℕ, zero, suc, ◌+◌, ◌≤◌, ◌<◌, ◌≡◌, inl, inr, some, List, [], ◌∷◌, arith, Bool-cases,
}
use nostale_packet_logger.MapData.{MapGrid}
use nostale_packet_logger.MapData.Search.{
  Node, node_eq, node_beq_iff, node_beq, Search, step_cost, trace,
}
use nostale_packet_logger.MapData.Search.Inv.{Score, Next, Inv}
use nostale_packet_logger.MapData.Search.Improve.{step_cost_bounds}

-- A route: the nodes after the first one, each a step from the one before.
abbrev pub Route : MapGrid → Node → List Node → Node → Type 0
Route grid v [] t = v ≡ t
Route grid v (n ∷ ns) t = Next grid v n × Route grid n ns t

unfoldable pub route_cost : Node → List Node → ℕ
route_cost v [] = 0
route_cost v (n ∷ ns) = step_cost v n + route_cost n ns

-- From a node with a score the walk back ends at the start, and the route it leaves costs at most
-- that score more than the nodes that were walked already.
pub trace-Route :
    (grid : MapGrid) (start goal : Node) (Held : Node → Type 0) (s : Search)
    → Inv grid start goal Held s
    → (fuel : ℕ) (n : Node) (path : List Node) (w : ℕ) → Score s n w
    → w < fuel
    → Route grid n path goal
    → (route : List Node) × (trace s start fuel n path ≡ some route)
      × Route grid start route goal
      × (route_cost start route ≤ w + route_cost n path)
unfolding trace route_cost
trace-Route grid start goal Held s inv zero n path w at_n lt route = absurd (omega arith)
trace-Route grid start goal Held s inv (suc fuel) n path w at_n lt route =
    elim (Bool-cases (node_beq n start)) [
      | inl same ↦
          let home = (node_beq_iff n start).0 same in
          (path, rw (same, trace), rw (← home) route, rw (← home) (omega arith))
      | inr other ↦ elim (inv.linked n w at_n) [
        | inl root ↦ cc ((node_beq_iff n start).1 root)
        | inr (p, v, from, at_p, le, next) ↦
            let step = step_cost_bounds p n in
            let (found, run, good, cost) =
              trace-Route grid start goal Held s inv fuel p (n ∷ path) v at_p (omega arith)
                (next, route) in
            (found, rw (other, trace) (rw (from, trace) run), good, omega arith)
      ]
    ]
