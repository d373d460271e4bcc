-- ===== src/Bot/Legs.antt =====
-- linux/host/ntpl/gui.py: the legs of a walk (`_start_travel`).
use nostale_packet_logger.Base.{
  ℕ, ◌+◌, ◌≤◌, ◌≡◌, refl, sym, subst, Bool, true, false, List, [], ◌∷◌, ◌++◌, arith, ◌⊎◌, inl, inr,
  Option, some, if◌then◌else◌,
}
use nostale_packet_logger.Base.Int.{ℤ, nat_abs, ◌-ℤ◌, -ℤ_self}
use nostale_packet_logger.Base.Keys.{◌==◌}
use nostale_packet_logger.MapData.{MapGrid, is_walkable}
use nostale_packet_logger.MapData.Search.{astar, node_eq, node_beq_iff}
use nostale_packet_logger.MapData.Search.Inv.{Next}
use nostale_packet_logger.MapData.Search.Trace.{Route}
use nostale_packet_logger.MapData.Search.Routes.{astar_outcome}
use nostale_packet_logger.Bot.{cells_between, player_cell, own_char_id}
use nostale_packet_logger.Bot.Travel.{
  Travel, every_third, ends_in, legs_to, start_travel, travel_from, travel_along, stop_travel,
  stand_first,
}
use nostale_packet_logger.Bot.Parts.{is_sitting}

-- Each cell is walkable, and at most so far from the one before it.
abbrev pub Strides : MapGrid → ℕ → ℤ × ℤ → List (ℤ × ℤ) → Type 0
Strides grid n from [] = Unit
Strides grid n from (cell ∷ cells) =
    (cells_between cell from ≤ n)
    × (is_walkable grid cell.0 cell.1 ≡ true)
    × Strides grid n cell cells

abbrev pub last_of : ℤ × ℤ → List (ℤ × ℤ) → ℤ × ℤ
last_of from [] = from
last_of from (cell ∷ cells) = last_of cell cells

nat_abs-via : (a b c : ℤ) → nat_abs (c -ℤ a) ≤ nat_abs (b -ℤ a) + nat_abs (c -ℤ b)
unfolding ◌-ℤ◌
nat_abs-via a b c = ground arith

cells_between-via : (a b c : ℤ × ℤ) → cells_between c a ≤ cells_between b a + cells_between c b
unfolding cells_between
cells_between-via (ax, ay) (bx, by) (cx, cy) =
    omega (arith, nat_abs-via ax bx cx, nat_abs-via ay by cy)

cells_between_self : (a : ℤ × ℤ) → cells_between a a ≤ 1
unfolding cells_between
cells_between_self (x, y) = rw (-ℤ_self x, -ℤ_self y) (omega arith)

ends_in-last_of :
    (from : ℤ × ℤ) (legs : List (ℤ × ℤ)) (cell : ℤ × ℤ)
    → ends_in legs cell ≡ true
    → last_of from legs ≡ cell
unfolding ends_in
ends_in-last_of from [] cell h = cc
ends_in-last_of from (x ∷ []) cell h = (node_beq_iff x cell).0 h
ends_in-last_of from (x ∷ y ∷ l) cell h = ends_in-last_of x (y ∷ l) cell h

last_of-append :
    (from : ℤ × ℤ) (legs : List (ℤ × ℤ)) (cell : ℤ × ℤ) → last_of from (legs ++ cell ∷ []) ≡ cell
last_of-append from [] cell = refl
last_of-append from (x ∷ l) cell = last_of-append x l cell

module _ (grid : MapGrid) where
  Strides-append :
      (n : ℕ) (from : ℤ × ℤ) (legs : List (ℤ × ℤ)) (cell : ℤ × ℤ)
      → Strides grid n from legs
      → cells_between cell (last_of from legs) ≤ n
      → is_walkable grid cell.0 cell.1 ≡ true
      → Strides grid n from (legs ++ cell ∷ [])
  Strides-append n from [] cell near h there = (h, there, tt)
  Strides-append n from (x ∷ l) cell (first, here, near) h there =
      (first, here, Strides-append n x l cell near h there)

  three_steps :
      (from a b c : ℤ × ℤ)
      → cells_between a from ≤ 1
      → cells_between b a ≤ 1
      → cells_between c b ≤ 1
      → cells_between c from ≤ 3
  three_steps from a b c h k l =
      omega (arith, cells_between-via from a b, cells_between-via from b c)

  -- Every third cell of a path, and the end of the path after the last of them.
  every_third-Strides :
      (from : ℤ × ℤ) (path : List (ℤ × ℤ))
      → Strides grid 1 from path
      → Strides grid 3 from (every_third path)
        × (cells_between (last_of from path) (last_of from (every_third path)) ≤ 3)
  unfolding every_third
  every_third-Strides from [] near = (tt, omega (arith, cells_between_self from))
  every_third-Strides from (a ∷ []) (h, _, _) = (tt, omega arith)
  every_third-Strides from (a ∷ b ∷ []) (h, _, (k, _, _)) =
      (tt, omega (arith, cells_between-via from a b))
  every_third-Strides from (a ∷ b ∷ c ∷ path) (h, _, (k, _, (l, good, near))) =
      let (legs, end) = every_third-Strides c path near in
      ((three_steps from a b c h k l, good, legs), end)

  -- The legs of a walk from here to a cell.
  abbrev pub LegsTo : ℤ × ℤ → ℤ × ℤ → List (ℤ × ℤ) → Type 0
  LegsTo here cell legs = Strides grid 3 here legs × (last_of here legs ≡ cell)

  finished :
      (t : Bool) (here : ℤ × ℤ) (legs : List (ℤ × ℤ)) (cell : ℤ × ℤ)
      → ends_in legs cell ≡ t
      → Strides grid 3 here legs
      → cells_between cell (last_of here legs) ≤ 3
      → is_walkable grid cell.0 cell.1 ≡ true
      → LegsTo here cell (if t then legs else legs ++ cell ∷ [])
  finished true here legs cell e near end there = (near, ends_in-last_of here legs cell e)
  finished false here legs cell e near end there =
      (Strides-append 3 here legs cell near end there, last_of-append here legs cell)

  Next-Strides : (v n : ℤ × ℤ) → Next grid v n → cells_between n v ≤ 1
  unfolding cells_between
  Next-Strides v n next = omega (arith, next.touch.0, next.touch.1)

  Route-Strides :
      (v : ℤ × ℤ) (path : List (ℤ × ℤ)) (goal : ℤ × ℤ)
      → Route grid v path goal
      → Strides grid 1 v path × (last_of v path ≡ goal)
  Route-Strides v [] goal same = (tt, same)
  Route-Strides v (n ∷ path) goal (next, route) =
      let (near, end) = Route-Strides n path goal route in
      ((Next-Strides v n next, next.target, near), end)

  last-Walkable :
      (v : ℤ × ℤ) (path : List (ℤ × ℤ)) (goal : ℤ × ℤ)
      → is_walkable grid v.0 v.1 ≡ true
      → Route grid v path goal
      → is_walkable grid goal.0 goal.1 ≡ true
  last-Walkable v [] goal here same =
      subst (λ (k : ℤ × ℤ). is_walkable grid k.0 k.1 ≡ true) same here
  last-Walkable v (n ∷ path) goal here (next, route) = last-Walkable n path goal next.target route

  Route-LegsTo :
      (here : ℤ × ℤ) (path : List (ℤ × ℤ)) (cell : ℤ × ℤ)
      → is_walkable grid here.0 here.1 ≡ true
      → Route grid here path cell
      → LegsTo here cell (legs_to path cell)
  unfolding legs_to
  Route-LegsTo here path cell good route =
      let (near, last) = Route-Strides here path cell route in
      let (spaced, end) = every_third-Strides here path near in
      let legs = every_third path in
      finished (ends_in legs cell) here legs cell refl spaced
        (subst (λ (k : ℤ × ℤ). cells_between k (last_of here legs) ≤ 3) last end)
        (last-Walkable here path cell good route)

  -- No route leads from here to the cell.
  abbrev pub NoRoute : ℤ × ℤ → ℤ × ℤ → Type 0
  NoRoute here cell =
      (path : List (ℤ × ℤ)) → is_walkable grid here.0 here.1 ≡ true → Route grid here path cell → ⊥

-- What a start may leave: the legs to the cell and the timer, or no legs where no route leads there.
abbrev pub Started : MapGrid → ℤ × ℤ → ℤ × ℤ → Travel → Type 0
Started grid here cell t =
    (LegsTo grid here cell t.targets × (t.timer ≡ true))
    ⊎ (NoRoute grid here cell × (t.targets ≡ []))

along-Started :
    (t : Travel) (cell : ℤ × ℤ) (starts : Bool) (grid : MapGrid) (here : ℤ × ℤ)
    → t.targets ≡ []
    → Started grid here cell (travel_along t cell starts (astar grid here cell))
unfolding travel_along
along-Started t cell starts grid here idle = elim (astar_outcome grid here cell) [
  | inl (path, found, good, route) ↦
      rw found (inl (Route-LegsTo grid here path cell good route, refl))
  | inr (none_found, no_route) ↦ rw none_found (inr (no_route, idle))
]

neither :
    {A : Type 0} (P : A → Type 0) (t u : Bool) (x y z : A)
    → t ≡ false
    → u ≡ false
    → P z
    → P (if t then x else if u then y else z)
neither P false false x y z h k p = p
neither P false true x y z h k p = cc
neither P true u x y z h k p = cc

from-Started :
    (t : Travel) (cell : ℤ × ℤ) (starts : Bool) (grid : MapGrid) (here : ℤ × ℤ)
    → t.targets ≡ []
    → (here == cell) ≡ false
    → is_sitting t.bot.world.resting ≡ false
    → Started grid here cell (travel_from t cell starts (some grid) (some here))
unfolding travel_from
from-Started t cell starts grid here idle far standing =
    neither (Started grid here cell) (here == cell) (is_sitting t.bot.world.resting) t
      (stand_first t cell starts (own_char_id t.bot))
      (travel_along t cell starts (astar grid here cell)) far standing
      (along-Started t cell starts grid here idle)

-- A click on a cell other than the character's own, for a character that does not sit, either gives a
-- walk to that cell, on legs that end in it, each of them walkable and at most three cells from the
-- one before, or leaves no walk, if the map has no route to the cell.
pub start_travel-LegsTo :
    (t : Travel) (cell : ℤ × ℤ) (starts : Bool) (grid : MapGrid) (here : ℤ × ℤ)
    → t.bot.map_grid ≡ some grid
    → player_cell t.bot ≡ some here
    → (here == cell) ≡ false
    → is_sitting t.bot.world.resting ≡ false
    → Started grid here cell (start_travel t cell starts)
unfolding start_travel stop_travel
start_travel-LegsTo t cell starts grid here map at far standing =
    let stopped = stop_travel t in
    subst
      (λ (g : Option MapGrid).
        Started grid here cell (travel_from stopped cell starts g (player_cell t.bot)))
      (sym map)
      (subst
        (λ (p : Option (ℤ × ℤ)).
          Started grid here cell (travel_from stopped cell starts (some grid) p))
        (sym at) (from-Started stopped cell starts grid here refl far standing))
