-- ===== src/MapData/Search/Admissible.antt =====
-- linux/host/ntpl/mapdata.py: `_octile` never overestimates.
use Prim.Native.Nat.{max}
use nostale_packet_logger.Base.{
  ℕ, ◌+◌, ◌*◌, ◌-◌, min, ◌≤◌, ◌≡◌, inl, inr, arith, Bool-cases, sym, ap,
}
use nostale_packet_logger.Base.Int.{ℤ, nat_abs, ◌-ℤ◌, int_beq, int_beq_iff, -ℤ_self}
use nostale_packet_logger.Base.Keys.{int_eq}
use nostale_packet_logger.MapData.{MapGrid}
use nostale_packet_logger.MapData.Search.{Node, octile, step_cost, unit_cost, sqrt2}
use nostale_packet_logger.MapData.Search.Inv.{Next}

-- The heuristic from the two distances.
abbrev pub heuristic : ℕ → ℕ → ℕ
heuristic p q = max p q * unit_cost + (sqrt2 - unit_cost) * min p q

nat_abs-step : (x x' g : ℤ) → nat_abs (x' -ℤ x) ≤ 1 → nat_abs (x -ℤ g) ≤ nat_abs (x' -ℤ g) + 1
unfolding ◌-ℤ◌
nat_abs-step x x' g h = ground arith

heuristic_straight : (p p' q : ℕ) → p ≤ p' + 1 → heuristic p q ≤ unit_cost + heuristic p' q
heuristic_straight p p' q h = ground arith

heuristic_straight' : (p q q' : ℕ) → q ≤ q' + 1 → heuristic p q ≤ unit_cost + heuristic p q'
heuristic_straight' p q q' h = ground arith

heuristic_diagonal :
    (p p' q q' : ℕ) → p ≤ p' + 1 → q ≤ q' + 1 → heuristic p q ≤ sqrt2 + heuristic p' q'
heuristic_diagonal p p' q q' h k = ground arith

pub octile_self : (n : Node) → octile n n ≡ 0
unfolding octile
octile_self n = ground (arith, -ℤ_self n.0, -ℤ_self n.1)

-- A step lowers the heuristic by no more than it costs.
pub octile-le-step :
    (grid : MapGrid) (v n goal : Node)
    → Next grid v n
    → octile v goal ≤ step_cost v n + octile n goal
unfolding octile step_cost
octile-le-step grid v n goal next =
    let p = nat_abs (v.0 -ℤ goal.0) in
    let q = nat_abs (v.1 -ℤ goal.1) in
    let p' = nat_abs (n.0 -ℤ goal.0) in
    let q' = nat_abs (n.1 -ℤ goal.1) in
    let across = nat_abs-step v.0 n.0 goal.0 next.touch.0 in
    let down = nat_abs-step v.1 n.1 goal.1 next.touch.1 in
    elim (Bool-cases (int_beq n.0 v.0)) [
      | inl same ↦
          let fixed : p ≡ p' =
            ap (λ x. nat_abs (x -ℤ goal.0)) (sym ((int_beq_iff n.0 v.0).0 same)) in
          rw same (rw fixed (heuristic_straight' p' q q' down))
      | inr moved ↦ elim (Bool-cases (int_beq n.1 v.1)) [
        | inl same ↦
            let fixed : q ≡ q' =
              ap (λ y. nat_abs (y -ℤ goal.1)) (sym ((int_beq_iff n.1 v.1).0 same)) in
            rw (moved, same) (rw fixed (heuristic_straight p p' q' across))
        | inr both ↦ rw (moved, both) (heuristic_diagonal p p' q q' across down)
      ]
    ]
