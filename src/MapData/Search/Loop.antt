-- ===== src/MapData/Search/Loop.antt =====
-- linux/host/ntpl/mapdata.py: the rounds of `astar` and their end.
use nostale_packet_logger.Base.{
  All-map, ℕ, zero, suc, ◌+◌, ◌≤◌, ◌<◌, ◌≡◌, ◌⊎◌, inl, inr, true, false, some, List, [], ◌∷◌, arith,
  All, Bool-cases, length, refl, sym, subst, ◌∙◌, ap,
}
use nostale_packet_logger.Base.Int.{int_beq_iff}
use nostale_packet_logger.Base.Keys.{int_eq}
use nostale_packet_logger.MapData.{MapGrid, neighbours}
use nostale_packet_logger.MapData.Steps.{listed, listed-neighbours}
use nostale_packet_logger.MapData.Search.{
  Node, node_eq, node_beq_iff, node_beq, FrontierItem, Search, heappop, is_stale, octile, relax_all,
  search_loop,
}
use nostale_packet_logger.MapData.Search.Heap.{
  Some, length-heappop, Some-heappop, All-heappop, heappop-le,
}
use nostale_packet_logger.MapData.Search.Inv.{Score, Live, Next, Queued, Inv}
use nostale_packet_logger.MapData.Search.Improve.{work}
use nostale_packet_logger.MapData.Search.Relax.{relax_all-Tried, release}

List-cases :
    (es : List FrontierItem)
    → (es ≡ []) ⊎ ((e : FrontierItem) × (es' : List FrontierItem) × (es ≡ e ∷ es'))
List-cases [] = inl refl
List-cases (e ∷ es) = inr (e, es, refl)

listed_head : (n : Node) (ns : List Node) → listed n.0 n.1 (n ∷ ns) ≡ true
listed_head n ns = ground (arith, int_beq_iff n.0 n.0, int_beq_iff n.1 n.1)

-- What holds of all that is listed holds of each, and the other way.
pub All-of_listed :
    (P : Node → Type 0) (ns : List Node) → ((n : Node) → listed n.0 n.1 ns ≡ true → P n) → All P ns
All-of_listed P [] h = tt
All-of_listed P (n ∷ ns) h =
    (h n (listed_head n ns), All-of_listed P ns (λ m at. h m (ground (arith, at))))

pub listed-All :
    (P : Node → Type 0) (ns : List Node) (n : Node) → All P ns → listed n.0 n.1 ns ≡ true → P n
listed-All P [] n h at = cc
listed-All P (m ∷ ns) n (h, hs) at = elim (Bool-cases (node_beq m n)) [
  | inl same ↦ subst P ((node_beq_iff m n).0 same) h
  | inr other ↦ listed-All P ns n hs (ground arith)
]

neighbours-Next : (grid : MapGrid) (v : Node) → All (Next grid v) (neighbours grid v.0 v.1)
neighbours-Next grid v =
    All-of_listed (Next grid v) (neighbours grid v.0 v.1)
      (λ n at. (listed-neighbours grid v.0 v.1 n.0 n.1).0 at)

module _ (grid : MapGrid) (start goal : Node) where
  abbrev Free : Node → Type 0
  Free n = ⊥

  -- How a search ends: with nothing left, or with the goal as the lowest entry.
  abbrev pub Ended : Search → Type 0
  Ended s =
      (Inv grid start goal Free s × (s.frontier ≡ []))
      ⊎ ((w : ℕ) × Inv grid start goal (λ n. n ≡ goal) s
          × Score s goal w
          × All (λ e. w + octile goal goal ≤ e.estimate) s.frontier)

  module _ (s : Search) (e : FrontierItem) (es : List FrontierItem)
      (inv : Inv grid start goal Free s) (front : s.frontier ≡ e ∷ es) where
    abbrev lowest : FrontierItem
    lowest = (heappop e es).0

    abbrev popped : Search
    popped = record s { frontier = (heappop e es).1 }

    queued : Queued grid start goal s lowest × All (Queued grid start goal s) (heappop e es).1
    queued =
        All-heappop (Queued grid start goal s) e es
          (subst (λ es'. All (Queued grid start goal s) es') front inv.queued)

    live : (n : Node) (w : ℕ) → Live s n w → ((lowest.node ≡ n) × (lowest.g ≡ w)) ⊎ Live popped n w
    live n w h =
        Some-heappop (λ (f : FrontierItem). (f.node ≡ n) × (f.g ≡ w)) e es
          (subst (λ es'. Some (λ (f : FrontierItem). (f.node ≡ n) × (f.g ≡ w)) es') front h)

    stale_round : is_stale s lowest ≡ true → Inv grid start goal Free popped
    unfolding is_stale
    stale_round stale = record {
      first = inv.first;
      linked = inv.linked;
      known = inv.known;
      walks = inv.walks;
      queued = queued.1;
      settled = λ n w at_n. elim (inv.settled n w at_n) [
        | inl held ↦ inl held
        | inr (inl here) ↦ elim (live n w here) [
          | inl (same, cost) ↦
              let here' : Score s lowest.node lowest.g = rw (same, cost) at_n in
              absurd (ground (arith, here', stale))
          | inr there ↦ inr (inl there)
        ]
        | inr (inr closed) ↦ inr (inr closed)
      ];
      bounded = inv.bounded;
    }

    fresh-Score : is_stale s lowest ≡ false → Score s lowest.node lowest.g
    unfolding is_stale
    fresh-Score fresh =
        let (w, at_least, le, _) = queued.0 in
        let eq : w ≡ lowest.g = ground (arith, at_least, le, fresh) in at_least ∙ ap some eq

    fresh_round : is_stale s lowest ≡ false → Inv grid start goal (λ n. n ≡ lowest.node) popped
    fresh_round fresh = record {
      first = inv.first;
      linked = inv.linked;
      known = inv.known;
      walks = inv.walks;
      queued = queued.1;
      settled = λ n w at_n. elim (inv.settled n w at_n) [
        | inl held ↦ absurd held
        | inr (inl here) ↦ elim (live n w here) [
          | inl (same, cost) ↦ inl (sym same)
          | inr there ↦ inr (inl there)
        ]
        | inr (inr closed) ↦ inr (inr closed)
      ];
      bounded = inv.bounded;
    }

    abbrev expanded : Search
    expanded =
        relax_all goal lowest.node lowest.g popped (neighbours grid lowest.node.0 lowest.node.1)

    next_round :
        is_stale s lowest ≡ false
        → Inv grid start goal Free expanded × (work grid expanded ≤ work grid popped)
    next_round fresh =
        let (tried, near) =
          relax_all-Tried grid start goal lowest.node lowest.g popped
            (neighbours grid lowest.node.0 lowest.node.1) (fresh_round fresh) (fresh-Score fresh)
            (neighbours-Next grid lowest.node) in
        (
          release grid start goal lowest.node lowest.g expanded tried.kept tried.at_cur near,
          tried.less_work,
        )

    goal_round : is_stale s lowest ≡ false → lowest.node ≡ goal → Ended popped
    goal_round fresh at_goal =
        let (w, at_least, le, est) = queued.0 in
        let others =
          All-map (λ f. lowest.estimate ≤ f.estimate)
            (λ f. lowest.g + octile lowest.node goal ≤ f.estimate) (heappop e es).1
            (λ f more. omega (arith, est, more)) (heappop-le e es) in
        inr (
          lowest.g,
          subst (λ (k : Node). Inv grid start goal (λ n. n ≡ k) popped) at_goal (fresh_round fresh),
          subst (λ (k : Node). Score s k lowest.g) at_goal (fresh-Score fresh),
          subst
              (λ (k : Node).
                All (λ (f : FrontierItem). lowest.g + octile k goal ≤ f.estimate) (heappop e es).1)
              at_goal others,
        )

    less : suc (work grid popped) ≤ work grid s
    less = omega (arith, length-heappop e es, ap length front)

  -- Each round takes an entry away, and an entry is added only with a lower score.
  pub search_loop-Ended :
      (fuel : ℕ) (s : Search)
      → Inv grid start goal Free s
      → work grid s < fuel
      → (s' : Search) × (search_loop grid goal fuel s ≡ some s') × Ended s'
  unfolding search_loop
  search_loop-Ended zero s inv lt = absurd (omega arith)
  search_loop-Ended (suc fuel) s inv lt = elim (List-cases s.frontier) [
    | inl empty ↦ (s, simp (empty, search_loop), inl (inv, empty))
    | inr (e, es, front) ↦
        let fewer = less s e es inv front in
        elim (Bool-cases (is_stale s (heappop e es).0)) [
          | inl stale ↦
              let (s', run, ended) =
                search_loop-Ended fuel (popped s e es inv front)
                  (stale_round s e es inv front stale) (omega arith) in
              (s', rw (front, search_loop) (rw stale run), ended)
          | inr fresh ↦ elim (Bool-cases (node_beq (heappop e es).0.node goal)) [
            | inl at_goal ↦ (
              popped s e es inv front,
              rw (front, search_loop) (rw (fresh, at_goal)),
              goal_round s e es inv front fresh ((node_beq_iff _ goal).0 at_goal),
            )
            | inr elsewhere ↦
                let (kept, less_work) = next_round s e es inv front fresh in
                let (s', run, ended) =
                  search_loop-Ended fuel (expanded s e es inv front) kept (omega arith) in
                (s', rw (front, search_loop) (rw (fresh, elsewhere) run), ended)
          ]
        ]
  ]
