-- ===== src/MapData/Search/Routes.antt =====
-- linux/host/ntpl/mapdata.py: `astar` against the routes of the grid.
use nostale_packet_logger.Base.{
  ℕ, ◌+◌, ◌*◌, ◌≤◌, ◌≡◌, ◌≢◌, ◌⊎◌, inl, inr, true, false, none, some, List, [], ◌∷◌, arith,
  Bool-cases, length, refl, sym, subst, ◌∙◌, Option-cases, ◌&&◌,
}
use nostale_packet_logger.Base.Dict.{get}
use nostale_packet_logger.Base.Int.{ℤ}
use nostale_packet_logger.MapData.{MapGrid, at, inside, is_walkable}
use nostale_packet_logger.MapData.Grids.{IsFull, at-inside}
use nostale_packet_logger.MapData.Search.{
  Node, node_eq, node_beq_iff, node_beq, Search, epsilon, astar, search_loop, initial, search_fuel,
  found,
}
use nostale_packet_logger.MapData.Search.Inv.{Score, Inv}
use nostale_packet_logger.MapData.Search.Loop.{Ended, search_loop-Ended}
use nostale_packet_logger.MapData.Search.Start.{initial-Inv, enough_work, enough_walk}
use nostale_packet_logger.MapData.Search.Trace.{Route, route_cost, trace-Route}
use nostale_packet_logger.MapData.Search.Best.{Route-best}

no_cost : (v : Node) → route_cost v [] ≡ 0
unfolding route_cost
no_cost v = refl

module _ (grid : MapGrid) where
  ends_walkable :
      (v : Node) (ns : List Node) (goal : Node)
      → is_walkable grid v.0 v.1 ≡ true
      → Route grid v ns goal
      → is_walkable grid goal.0 goal.1 ≡ true
  ends_walkable v [] goal here same =
      subst (λ (k : Node). is_walkable grid k.0 k.1 ≡ true) same here
  ends_walkable v (n ∷ ns) goal here (next, route) = ends_walkable n ns goal next.target route

  -- The path of a node that has a score: all that the search leaves to do is to walk back.
  found-Route :
      (start goal : Node) (Held : Node → Type 0) (s : Search)
      → Inv grid start goal Held s
      → start ≢ goal
      → (w : ℕ) → Score s goal w
      → (path : List Node) × (found s start goal (search_fuel grid) ≡ some (some path))
        × Route grid start path goal
        × (route_cost start path ≤ w)
  unfolding route_cost found
  found-Route start goal Held s inv apart w at_goal = elim (inv.linked goal w at_goal) [
    | inl root ↦ absurd (apart (sym root))
    | inr (p, v, from, _, _, _) ↦
        let (path, run, route, cost) =
          trace-Route grid start goal Held s inv (search_fuel grid) goal [] w at_goal
            (enough_walk grid start goal Held s inv goal w at_goal) refl in
        (path, rw (from, found) (rw run), route, omega arith)
  ]

  astar_home :
      (start goal : Node)
      → is_walkable grid start.0 start.1 ≡ true
      → is_walkable grid goal.0 goal.1 ≡ true
      → start ≡ goal
      → astar grid start goal ≡ some (some [])
  unfolding astar
  astar_home start goal here there same = rw (here, there, (node_beq_iff start goal).1 same)

  astar_blocked :
      (start goal : Node)
      → (is_walkable grid start.0 start.1 && is_walkable grid goal.0 goal.1) ≡ false
      → astar grid start goal ≡ some none
  unfolding astar
  astar_blocked start goal blocked = rw blocked

  -- A node that is not the start was reached from another, if it is in `came_from`.
  found_nothing :
      (start goal : Node) (s : Search)
      → get s.came_from goal ≡ none
      → found s start goal (search_fuel grid) ≡ some none
  unfolding found
  found_nothing start goal s new = rw (new, found)

  module _ (start goal : Node) (here : is_walkable grid start.0 start.1 ≡ true)
      (there : is_walkable grid goal.0 goal.1 ≡ true) (apart : start ≢ goal) where
    apart_beq : node_beq start goal ≡ false
    apart_beq = ground (arith, node_beq_iff start goal)

    rounds :
        (s : Search) × (search_loop grid goal (search_fuel grid) (initial start goal) ≡ some s)
        × Ended grid start goal s
    rounds =
        search_loop-Ended grid start goal (search_fuel grid) (initial start goal)
          (initial-Inv grid start goal here) (enough_work grid start goal)

    -- What `astar` returns once its guards are passed.
    astar-eq-found : astar grid start goal ≡ found rounds.0 start goal (search_fuel grid)
    unfolding astar
    astar-eq-found = rw (here, there, apart_beq) (rw rounds.1)

    ended-Inv : (Held : Node → Type 0) × Inv grid start goal Held rounds.0
    ended-Inv = elim rounds.2 [
      | inl (inv, _) ↦ ((λ _. ⊥), inv)
      | inr (_, inv, _, _) ↦ ((λ n. n ≡ goal), inv)
    ]

    astar_found :
        (w : ℕ)
        → Score rounds.0 goal w
        → (path : List Node) × (astar grid start goal ≡ some (some path))
          × Route grid start path goal
          × (route_cost start path ≤ w)
    astar_found w at_goal =
        let (path, eq, route, cost) =
          found-Route start goal ended-Inv.0 rounds.0 ended-Inv.1 apart w at_goal in
        (path, astar-eq-found ∙ eq, route, cost)

    walked :
        ((path : List Node) × (astar grid start goal ≡ some (some path))
          × Route grid start path goal)
        ⊎ ((astar grid start goal ≡ some none) × ((ns : List Node) → Route grid start ns goal → ⊥))
    walked = elim (Option-cases (get (rounds.0).came_from goal)) [
      | inl new ↦ inr (
        astar-eq-found ∙ found_nothing start goal rounds.0 new,
        λ ns route.
            let (w, at_goal, _) = Route-best grid start goal rounds.0 rounds.2 ns route in
            let (path, eq, _, _) = astar_found w at_goal in
            cc (astar-eq-found ∙ found_nothing start goal rounds.0 new),
      )
      | inr (p, from) ↦
          let (w, at_goal) = ended-Inv.1.known goal p from in
          let (path, eq, route, _) = astar_found w at_goal in inl (path, eq, route)
    ]

-- Whenever some route of the grid leads from a walkable cell to another, `astar` returns a path that
-- is a route between them, and no route is cheaper but for 1e-9 for each of its steps.
pub astar_cheapest :
    (grid : MapGrid) (start goal : Node) (ns : List Node)
    → is_walkable grid start.0 start.1 ≡ true
    → Route grid start ns goal
    → (path : List Node) × (astar grid start goal ≡ some (some path))
      × Route grid start path goal
      × (route_cost start path ≤ route_cost start ns + epsilon * length ns)
astar_cheapest grid start goal ns here route = elim (Bool-cases (node_beq start goal)) [
  | inl same ↦
      let home = (node_beq_iff start goal).0 same in
      let there = subst (λ (k : Node). is_walkable grid k.0 k.1 ≡ true) home here in
      ([], astar_home grid start goal here there home, home, omega (arith, no_cost start))
  | inr other ↦
      let apart : start ≢ goal = λ e. cc ((node_beq_iff start goal).1 e) in
      let there = ends_walkable grid start ns goal here route in
      let s = rounds grid start goal here there apart in
      let (w, at_goal, le) = Route-best grid start goal s.0 s.2 ns route in
      let (path, eq, good, cost) = astar_found grid start goal here there apart w at_goal in
      (path, eq, good, omega arith)
]

-- The two outcomes of `astar`: a route from a walkable start, or none where none exists.
pub astar_outcome :
    (grid : MapGrid) (start goal : Node)
    → ((path : List Node) × (astar grid start goal ≡ some (some path))
        × (is_walkable grid start.0 start.1 ≡ true)
        × Route grid start path goal)
      ⊎ ((astar grid start goal ≡ some none)
          × ((ns : List Node)
              → is_walkable grid start.0 start.1 ≡ true
              → Route grid start ns goal
              → ⊥))
astar_outcome grid start goal = elim (Bool-cases (is_walkable grid start.0 start.1)) [
  | inr off ↦ inr (astar_blocked grid start goal (ground arith), λ ns here route. cc)
  | inl here ↦ elim (Bool-cases (is_walkable grid goal.0 goal.1)) [
    | inr off ↦ inr (
      astar_blocked grid start goal (ground arith),
      λ ns _ route. cc (ends_walkable grid start ns goal here route),
    )
    | inl there ↦ elim (Bool-cases (node_beq start goal)) [
      | inl same ↦
          let home = (node_beq_iff start goal).0 same in
          inl ([], astar_home grid start goal here there home, here, home)
      | inr other ↦
          let apart : start ≢ goal = λ e. cc ((node_beq_iff start goal).1 e) in
          elim (walked grid start goal here there apart) [
            | inl (path, eq, route) ↦ inl (path, eq, here, route)
            | inr (eq, unreached) ↦ inr (eq, λ ns _ route. unreached ns route)
          ]
    ]
  ]
]

-- On a grid with a byte for each of its cells, as every grid is that `load_nstc` makes, `astar` always
-- ends and raises nothing: each lookup inside of the grid finds a byte, and the search comes to one of
-- two outcomes. It returns a path: then the start is walkable, and the path is a route to the goal,
-- each cell a step of the grid from the one before. Or it returns None: then the start is not walkable
-- or no route leads from it to the goal.
pub astar_decides :
    (grid : MapGrid) (start goal : Node)
    → IsFull grid
    → ((x y : ℤ) → inside grid x y ≡ true → (c : ℕ) × (at grid x y ≡ some c))
      × (((path : List Node) × (astar grid start goal ≡ some (some path))
            × (is_walkable grid start.0 start.1 ≡ true)
            × Route grid start path goal)
          ⊎ ((astar grid start goal ≡ some none)
              × ((ns : List Node)
                  → is_walkable grid start.0 start.1 ≡ true
                  → Route grid start ns goal
                  → ⊥)))
astar_decides grid start goal full =
    (λ x y h. at-inside grid x y full h, astar_outcome grid start goal)
