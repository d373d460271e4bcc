-- ===== src/MapData/Search/Best.antt =====
-- linux/host/ntpl/mapdata.py: the cost at which `astar` stops against the cost of any route.
use nostale_packet_logger.Base.{
  ℕ, ◌+◌, ◌*◌, ◌≤◌, ◌≡◌, inl, inr, List, [], ◌∷◌, arith, All, length, subst, ap,
}
use nostale_packet_logger.Base.Dict.{empty}
use nostale_packet_logger.MapData.{MapGrid, neighbours}
use nostale_packet_logger.MapData.Steps.{listed-neighbours}
use nostale_packet_logger.MapData.Search.{
  Node, node_eq, FrontierItem, Search, octile, step_cost, epsilon,
}
use nostale_packet_logger.MapData.Search.Heap.{All-both, Some, Some-All}
use nostale_packet_logger.MapData.Search.Inv.{Score, Near, Next, Closed, Queued, Inv}
use nostale_packet_logger.MapData.Search.Loop.{Ended, listed-All}
use nostale_packet_logger.MapData.Search.Trace.{Route, route_cost}
use nostale_packet_logger.MapData.Search.Admissible.{octile-le-step, octile_self}

-- The heuristic is at most the cost of any route.
octile-le-Route :
    (grid : MapGrid) (v : Node) (ns : List Node) (goal : Node)
    → Route grid v ns goal
    → octile v goal ≤ route_cost v ns
unfolding route_cost
octile-le-Route grid v [] goal same = rw same (omega (arith, octile_self goal))
octile-le-Route grid v (n ∷ ns) goal (next, route) =
    omega (arith, octile-le-step grid v n goal next, octile-le-Route grid n ns goal route)

module _ (grid : MapGrid) (start goal : Node) where
  -- A cost that a node has at most, and what the route from it can cost.
  abbrev Within : Search → Node → ℕ → Type 0
  Within s v d = (w : ℕ) × Score s v w × (w ≤ d)

  near-Next :
      (s : Search) (v n : Node) (w d : ℕ)
      → Closed grid start goal s v w
      → w ≤ d
      → Next grid v n
      → Within s n (d + step_cost v n + epsilon)
  near-Next s v n w d closed le next =
      let (u, at_n, near) =
        listed-All (Near s v w) (neighbours grid v.0 v.1) n closed
          ((listed-neighbours grid v.0 v.1 n.0 n.1).1 next) in
      (u, at_n, omega arith)

  -- With nothing left in the frontier every route has been followed.
  followed :
      (s : Search)
      → Inv grid start goal (λ _. ⊥) s
      → s.frontier ≡ []
      → (v : Node) (ns : List Node) (d : ℕ) → Route grid v ns goal
      → Within s v d
      → Within s goal (d + route_cost v ns + epsilon * length ns)
  unfolding route_cost
  followed s inv empty v [] d same (w, at_v, le) = (w, rw (← same) at_v, omega arith)
  followed s inv empty v (n ∷ ns) d (next, route) (w, at_v, le) = elim (inv.settled v w at_v) [
    | inl held ↦ absurd held
    | inr (inl live) ↦
        absurd (subst (Some (λ (e : FrontierItem). (e.node ≡ v) × (e.g ≡ w))) empty live)
    | inr (inr closed) ↦
        let (u, at_goal, near) =
          followed s inv empty n ns (d + step_cost v n + epsilon) route
            (near-Next s v n w d closed le next) in
        (u, at_goal, omega arith)
  ]

  -- With the goal as the least entry no route is cheaper.
  cheapest :
      (s : Search) (best : ℕ)
      → Inv grid start goal (λ n. n ≡ goal) s
      → Score s goal best
      → All (λ e. best + octile goal goal ≤ e.estimate) s.frontier
      → (v : Node) (ns : List Node) (d : ℕ) → Route grid v ns goal
      → Within s v d
      → best ≤ d + route_cost v ns + epsilon * length ns
  unfolding route_cost
  cheapest s best inv at_goal others v [] d same (w, at_v, le) =
      let eq : w ≡ best = ground arith in omega arith
  cheapest s best inv at_goal others v (n ∷ ns) d (next, route) (w, at_v, le) =
      elim (inv.settled v w at_v) [
        | inl held ↦ let eq : w ≡ best = ground arith in omega arith
        | inr (inl live) ↦
            let (e, (same, cost), (more, (_, _, _, est))) =
              Some-All (λ (f : FrontierItem). (f.node ≡ v) × (f.g ≡ w))
                (λ (f : FrontierItem).
                  (best + octile goal goal ≤ f.estimate) × Queued grid start goal s f)
                s.frontier live
                (All-both (λ (f : FrontierItem). best + octile goal goal ≤ f.estimate)
                  (Queued grid start goal s) s.frontier others inv.queued) in
            let cheap : octile v goal ≤ route_cost v (n ∷ ns) =
              octile-le-Route grid v (n ∷ ns) goal (next, route) in
            omega (arith, ap (λ k. octile k goal) same)
        | inr (inr closed) ↦
            let rest =
              cheapest s best inv at_goal others n ns (d + step_cost v n + epsilon) route
                (near-Next s v n w d closed le next) in
            omega arith
      ]

  pub Route-best :
      (s : Search)
      → Ended grid start goal s
      → (ns : List Node) → Route grid start ns goal
      → (w : ℕ) × Score s goal w × (w ≤ route_cost start ns + epsilon * length ns)
  Route-best s (inl (inv, empty)) ns route =
      let (w, at_goal, le) = followed s inv empty start ns 0 route (0, inv.first, omega arith) in
      (w, at_goal, omega arith)
  Route-best s (inr (w, inv, at_goal, others)) ns route = (
    w,
    at_goal,
    omega (arith, cheapest s w inv at_goal others start ns 0 route (0, inv.first, omega arith)),
  )
