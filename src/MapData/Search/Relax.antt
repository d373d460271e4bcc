-- ===== src/MapData/Search/Relax.antt =====
-- linux/host/ntpl/mapdata.py: one neighbour of the current node, and all of them.
use nostale_packet_logger.Base.{
  ℕ, ◌+◌, ◌≡◌, inl, inr, List, [], ◌∷◌, arith, All, Bool-cases, sym, subst,
}
use nostale_packet_logger.Base.Dict.{get-put_self}
use nostale_packet_logger.MapData.{MapGrid}
use nostale_packet_logger.MapData.Search.{
  Node, node_eq, Search, step_cost, relax, relax_all, is_no_better,
}
use nostale_packet_logger.MapData.Search.Inv.{Score, Near, Next, Closed, Inv, Near-Lowers}
use nostale_packet_logger.MapData.Search.Improve.{Held, Tried, no_better, improved}

module _ (grid : MapGrid) (start goal cur : Node) (g : ℕ) where
  relax-Tried :
      (s : Search) (n : Node)
      → Inv grid start goal (Held grid start goal cur g) s
      → Score s cur g
      → Next grid cur n
      → Tried grid start goal cur g s (relax goal cur g s n) × Near (relax goal cur g s n) cur g n
  unfolding relax
  relax-Tried s n inv at_cur next = elim (Bool-cases (is_no_better s (g + step_cost cur n) n)) [
    | inl worse ↦ rw worse (
      record {
        kept = inv;
        lowers = λ m w at_m. (w, at_m, omega arith);
        at_cur = at_cur;
        less_work = omega arith;
      },
      no_better grid start goal cur g s n worse,
    )
    | inr improves ↦ rw improves (
      improved grid start goal cur g s inv at_cur n next improves,
      (g + step_cost cur n, get-put_self s.g_score n (g + step_cost cur n), omega arith),
    )
  ]

  -- After the loop over the neighbours each of them is near.
  pub relax_all-Tried :
      (s : Search) (ns : List Node)
      → Inv grid start goal (Held grid start goal cur g) s
      → Score s cur g
      → All (Next grid cur) ns
      → Tried grid start goal cur g s (relax_all goal cur g s ns)
        × All (Near (relax_all goal cur g s ns) cur g) ns
  unfolding relax_all
  relax_all-Tried s [] inv at_cur tt = (
    record {
      kept = inv;
      lowers = λ m w at_m. (w, at_m, omega arith);
      at_cur = at_cur;
      less_work = omega arith;
    },
    tt,
  )
  relax_all-Tried s (n ∷ ns) inv at_cur (next, nexts) =
      let s1 = relax goal cur g s n in
      let (tried, near) = relax-Tried s n inv at_cur next in
      let (rest, nears) = relax_all-Tried s1 ns tried.kept tried.at_cur nexts in
      let s2 = relax_all goal cur g s1 ns in
      (
        record {
          kept = rest.kept;
          lowers = λ m w at_m.
              let (w', at_m', le) = tried.lowers m w at_m in
              let (w'', at_m'', le') = rest.lowers m w' at_m' in (w'', at_m'', omega arith);
          at_cur = rest.at_cur;
          less_work = omega (arith, tried.less_work, rest.less_work);
        },
        (Near-Lowers grid start goal s1 s2 cur g rest.lowers n near, nears),
      )

  -- A node whose neighbours are all near is held no longer.
  pub release :
      (s : Search)
      → Inv grid start goal (Held grid start goal cur g) s
      → Score s cur g
      → Closed grid start goal s cur g
      → Inv grid start goal (λ _. ⊥) s
  release s inv at_cur closed = record {
    first = inv.first;
    linked = inv.linked;
    known = inv.known;
    walks = inv.walks;
    queued = inv.queued;
    settled = λ n w at_n. elim (inv.settled n w at_n) [
      | inl held ↦
          let cost : w ≡ g = cc in
          let at_node = subst (λ (k : Node). Closed grid start goal s k g) (sym held) closed in
          inr (inr (subst (λ (k : ℕ). Closed grid start goal s n k) (sym cost) at_node))
      | inr other ↦ inr other
    ];
    bounded = inv.bounded;
  }
