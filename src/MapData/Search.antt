-- ===== src/MapData/Search.antt =====
-- linux/host/ntpl/mapdata.py: `astar`, the route over a grid.
mod Heap
mod Scores
pub mod Inv
mod Improve
mod Relax
mod Loop
mod Admissible
mod Best
mod Start
pub mod Trace
pub mod Routes
use Prim.Native.Nat.{max}
use nostale_packet_logger.Base.{
  ℕ, zero, suc, ◌+◌, ◌-◌, ◌*◌, min, Bool, true, false, not, ◌&&◌, Option, none, some, List, [], ◌∷◌,
  arith, ltb, leb, if◌then◌else◌, ◌≡◌, ◌↔◌,
}
use nostale_packet_logger.Base.Int.{ℤ, int_beq, int_beq_iff, nat_abs, ◌-ℤ◌}
use nostale_packet_logger.Base.Keys.{Key, ◌==◌, nat_eq, int_eq}
use nostale_packet_logger.Base.Dict.{Dict, empty, get, put}
use nostale_packet_logger.MapData.{MapGrid, is_walkable, neighbours}

abbrev pub Node : Type 0
Node = ℤ × ℤ

abbrev pub node_beq : Node → Node → Bool
node_beq (x, y) (x', y') = int_beq x x' && int_beq y y'

pub node_beq_iff : (a b : Node) → (node_beq a b ≡ true) ↔ (a ≡ b)
node_beq_iff (x, y) (x', y') = ground (arith, int_beq_iff x x', int_beq_iff y y')

instance abbrev pub node_eq : Key Node
node_eq = record { same = node_beq; same_iff = node_beq_iff }

-- The floats of the search are fixed-point numbers with twelve decimals: 1.0, math.sqrt(2.0) and
-- the 1e-9 of the comparison.
abbrev pub unit_cost : ℕ
unit_cost = 1000000000000

abbrev pub sqrt2 : ℕ
sqrt2 = 1414213562373

abbrev pub epsilon : ℕ
epsilon = 1000

-- _octile
unfoldable pub octile : Node → Node → ℕ
octile (ax, ay) (bx, by) =
    let dx = nat_abs (ax -ℤ bx) in
    let dy = nat_abs (ay -ℤ by) in max dx dy * unit_cost + (sqrt2 - unit_cost) * min dx dy

-- An item of the frontier: the tuple (estimate, g, counter, node).
pub record FrontierItem : Type 0 where
  pub estimate : ℕ
  pub g : ℕ
  pub counter : ℕ
  pub node : Node

-- The order of the tuples. No two counters are equal, so nodes are not compared.
unfoldable pub precedes : FrontierItem → FrontierItem → Bool
precedes a b =
    if a.estimate == b.estimate
    then (if a.g == b.g then ltb a.counter b.counter else ltb a.g b.g)
    else ltb a.estimate b.estimate

-- heapq.heappop on the frontier `e ∷ es`: the least item and the others.
unfoldable pub heappop : FrontierItem → List FrontierItem → FrontierItem × List FrontierItem
unfolding precedes
heappop e [] = (e, [])
heappop e (f ∷ es) =
    let (least, rest) = heappop f es in if precedes e least then (e, f ∷ es) else (least, e ∷ rest)

pub record Search : Type 0 where
  pub frontier : List FrontierItem
  pub g_score : Dict Node ℕ
  pub came_from : Dict Node (Option Node)
  pub counter : ℕ

-- g > g_score.get(current, math.inf)
unfoldable pub is_stale : Search → FrontierItem → Bool
is_stale s e = elim (get s.g_score e.node) [ none ↦ false | some best ↦ ltb best e.g ]

-- The cost of a step to a neighbour.
unfoldable pub step_cost : Node → Node → ℕ
step_cost (x, y) (x', y') = if not (x' == x) && not (y' == y) then sqrt2 else unit_cost

-- tentative + 1e-9 >= g_score.get(neighbour, math.inf)
unfoldable pub is_no_better : Search → ℕ → Node → Bool
is_no_better s tentative n = elim (get s.g_score n) [
  | none ↦ false
  | some best ↦ leb best (tentative + epsilon)
]

-- The loop over the neighbours: one of them.
unfoldable pub relax : Node → Node → ℕ → Search → Node → Search
unfolding is_no_better
relax goal current g s n =
    let tentative = g + step_cost current n in
    if is_no_better s tentative n then s else (record {
      frontier =
          (record {
            estimate = tentative + octile n goal;
            g = tentative;
            counter = s.counter;
            node = n;
          })
          ∷ s.frontier;
      g_score = put s.g_score n tentative;
      came_from = put s.came_from n (some current);
      counter = s.counter + 1;
    })

unfoldable pub relax_all : Node → Node → ℕ → Search → List Node → Search
unfolding relax
relax_all goal current g s [] = s
relax_all goal current g s (n ∷ ns) = relax_all goal current g (relax goal current g s n) ns

-- `while frontier:`, with the rounds that are left; `none` when they run out.
unfoldable pub search_loop : MapGrid → Node → ℕ → Search → Option Search
unfolding heappop is_stale relax_all
search_loop grid goal zero s = none
search_loop grid goal (suc fuel) s = elim s.frontier [
  | [] ↦ some s
  | e ∷ es ↦
      let popped = heappop e es in
      let current = popped.0 in
      let s' = record s { frontier = popped.1 } in
      let skip = search_loop grid goal fuel s' in
      let next = search_loop grid goal fuel (
        relax_all goal current.node current.g s' (neighbours grid current.node.0 current.node.1)) in
      if is_stale s' current then skip else if current.node == goal then some s' else next
]

-- The loop that walks back from the goal. The source appends each node and reverses the list at
-- the end. `none` when the rounds run out, or for a node that came from nowhere (KeyError).
unfoldable pub trace : Search → Node → ℕ → Node → List Node → Option (List Node)
trace s start zero node path = none
trace s start (suc fuel) node path = elim (node == start) [
  | true ↦ some path
  | false ↦ elim (get s.came_from node) [
    | none ↦ none
    | some none ↦ some (node ∷ path)
    | some (some previous) ↦ trace s start fuel previous (node ∷ path)
  ]
]

unfoldable pub initial : Node → Node → Search
initial start goal = record {
  frontier = (record { estimate = octile start goal; g = 0; counter = 0; node = start }) ∷ [];
  g_score = put empty start 0;
  came_from = put empty start none;
  counter = 1;
}

-- Rounds enough for every search of the grid.
unfoldable pub search_fuel : MapGrid → ℕ
search_fuel grid = grid.height * (grid.width * (grid.height * grid.width * sqrt2 + 1)) + 2

-- The end of astar: None if the search did not reach the goal, or the path.
unfoldable pub found : Search → Node → Node → ℕ → Option (Option (List Node))
unfolding trace
found s start goal fuel = elim (get s.came_from goal) [
  | none ↦ some none
  | some _ ↦ elim (trace s start fuel goal []) [ none ↦ none | some path ↦ some (some path) ]
]

-- astar: `some none` for None, `some (some path)` for a path, and `none` where the loops would not
-- end or would raise.
unfoldable pub astar : MapGrid → Node → Node → Option (Option (List Node))
unfolding search_loop found initial
astar grid start goal =
    if is_walkable grid start.0 start.1 && is_walkable grid goal.0 goal.1
    then (if start == goal
        then some (some [])
        else elim (search_loop grid goal (search_fuel grid) (initial start goal)) [
          | none ↦ none
          | some s ↦ found s start goal (search_fuel grid)
        ])
    else some none
