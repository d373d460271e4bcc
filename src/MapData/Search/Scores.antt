-- ===== src/MapData/Search/Scores.antt =====
-- linux/host/ntpl/mapdata.py: sums over the cells of a grid, for the bounds on a search.
use nostale_packet_logger.Base.{
  ℕ, zero, suc, ◌+◌, ◌*◌, ◌≤◌, ◌<◌, ◌≡◌, ◌≢◌, true, Option, some, arith, refl, ap, inl, inr,
  Bool-cases, nat_beq,
}
use nostale_packet_logger.Base.Int.{ℤ, pos, negsuc}
use nostale_packet_logger.Base.Keys.{nat_beq_iff}
use nostale_packet_logger.Base.Dict.{Dict, get, put, get-put, get-put_self}
use nostale_packet_logger.MapData.{MapGrid, is_walkable, at, inside}
use nostale_packet_logger.MapData.Search.{Node, node_eq}

-- F 0 + … + F (n - 1)
abbrev pub total : ℕ → (ℕ → ℕ) → ℕ
total zero F = 0
total (suc n) F = F n + total n F

total_same : (n : ℕ) (F G : ℕ → ℕ) → ((i : ℕ) → i < n → F i ≡ G i) → total n F ≡ total n G
total_same zero F G h = refl
total_same (suc n) F G h =
    omega (arith, h n (omega arith), total_same n F G (λ i lt. h i (omega arith)))

-- A sum whose terms are changed in one place.
total_change :
    (n k : ℕ) (F G : ℕ → ℕ)
    → ((i : ℕ) → i ≢ k → F i ≡ G i)
    → k < n
    → total n G + F k ≡ total n F + G k
total_change zero k F G h lt = elim lt [ ]
total_change (suc n) k F G h lt = elim (Bool-cases (nat_beq n k)) [
  | inl last ↦
      let here = (nat_beq_iff n k).0 last in
      let rest = total_same n F G (λ i below. h i (λ e. omega arith)) in
      omega (arith, ap F here, ap G here, rest)
  | inr before ↦
      let apart : n ≢ k = ground (arith, nat_beq_iff n k) in
      omega (arith, h n apart, total_change n k F G h (omega arith))
]

pub total-le : (n m : ℕ) (F : ℕ → ℕ) → ((i : ℕ) → F i ≤ m) → total n F ≤ n * m
total-le zero m F h = omega arith
total-le (suc n) m F h = grind (arith, h n, total-le n m F h)

module _ (f : Option ℕ → ℕ) (grid : MapGrid) where
  abbrev pub row_total : Dict Node ℕ → ℕ → ℕ
  row_total d y = total grid.width (λ x. f (get d (pos x, pos y)))

  -- The sum of a value of the score of each cell.
  abbrev pub cell_total : Dict Node ℕ → ℕ
  cell_total d = total grid.height (row_total d)

  cell_total-put_at :
      (d : Dict Node ℕ) (x y v : ℕ)
      → x < grid.width
      → y < grid.height
      → cell_total (put d (pos x, pos y) v) + f (get d (pos x, pos y)) ≡ cell_total d + f (some v)
  cell_total-put_at d x y v hx hy =
      let d' = put d (pos x, pos y) v in
      let new = get-put d (pos x, pos y) in
      let row =
        total_change grid.width x (λ i. f (get d (pos i, pos y))) (λ i. f (get d' (pos i, pos y)))
          (λ i ne. ap f (ground (arith, new (pos i, pos y) v))) hx in
      let rows =
        total_change grid.height y (row_total d) (row_total d')
          (λ j ne. total_same grid.width _ _ (λ i _. ap f (ground (arith, new (pos i, pos j) v))))
          hy in
      omega (arith, row, rows, ap f (new (pos x, pos y) v), ap f (get-put_self d (pos x, pos y) v))

  pub cell_total-le :
      (d : Dict Node ℕ) (m : ℕ)
      → ((n : Node) → f (get d n) ≤ m)
      → cell_total d ≤ grid.height * (grid.width * m)
  cell_total-le d m h =
      total-le grid.height (grid.width * m) (row_total d)
        (λ y. total-le grid.width m _ (λ x. h (pos x, pos y)))

walkable-inside : (grid : MapGrid) (x y : ℤ) → is_walkable grid x y ≡ true → inside grid x y ≡ true
unfolding is_walkable at
walkable-inside grid x y h = ground arith

-- A new score of a walkable cell changes the sum by that score.
pub cell_total-put :
    (f : Option ℕ → ℕ) (grid : MapGrid) (d : Dict Node ℕ) (n : Node) (v : ℕ)
    → is_walkable grid n.0 n.1 ≡ true
    → cell_total f grid (put d n v) + f (get d n) ≡ cell_total f grid d + f (some v)
cell_total-put f grid d (pos x, pos y) v h =
    let within = walkable-inside grid (pos x) (pos y) h in
    cell_total-put_at f grid d x y v (ground (arith, within)) (ground (arith, within))
cell_total-put f grid d (pos x, negsuc y) v h =
    absurd (ground (arith, walkable-inside grid (pos x) (negsuc y) h))
cell_total-put f grid d (negsuc x, y) v h =
    absurd (ground (arith, walkable-inside grid (negsuc x) y h))
