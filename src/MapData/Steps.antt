-- ===== src/MapData/Steps.antt =====
-- linux/host/ntpl/mapdata.py: which cells `neighbours` yields.
use nostale_packet_logger.Base.{
  ◌≤◌, ◌≡◌, refl, sym, ◌↔◌, ◌⊎◌, Bool, true, ◌&&◌, ◌||◌, List, [], ◌∷◌, arith, any,
}
use nostale_packet_logger.Base.Int.{
  ℤ, pos, negsuc, ◌+ℤ◌, ◌-ℤ◌, int_laws, int_beq_iff, eq_of_parts, nat_abs, eq_of_-ℤ, -ℤ_self,
}
use nostale_packet_logger.Base.Keys.{◌==◌, int_eq}
use nostale_packet_logger.MapData.{MapGrid, is_walkable, neighbours, steps, can_step, directions}

-- `(x, y) in cells`
abbrev pub listed : ℤ → ℤ → List (ℤ × ℤ) → Bool
listed x y cells = any (λ c. c.0 == x && c.1 == y) cells

-- Two cells that touch, at a side or at a corner.
abbrev pub Touch : ℤ → ℤ → ℤ → ℤ → Type 0
Touch x y x' y' = (nat_abs (x' -ℤ x) ≤ 1) × (nat_abs (y' -ℤ y) ≤ 1) × ((x ≡ x') × (y ≡ y') → ⊥)

+ℤ_cancel : (x x' : ℤ) → x +ℤ (x' -ℤ x) ≡ x'
+ℤ_cancel x x' = eq_of_parts (x +ℤ (x' -ℤ x)) x' (omega int_laws)

-ℤ_cancel : (x d : ℤ) → (x +ℤ d) -ℤ x ≡ d
-ℤ_cancel x d = eq_of_parts ((x +ℤ d) -ℤ x) d (omega int_laws)

shifted : (x d x' : ℤ) → (x +ℤ d == x') ≡ (d == x' -ℤ x)
shifted x d x' =
    ground (arith, int_beq_iff (x +ℤ d) x', int_beq_iff d (x' -ℤ x), +ℤ_cancel x x', -ℤ_cancel x d)

can_step_at :
    (g : MapGrid) (x y x' y' dx dy : ℤ)
    → dx ≡ x' -ℤ x
    → dy ≡ y' -ℤ y
    → can_step g x y (dx, dy) ≡ can_step g x y (x' -ℤ x, y' -ℤ y)
can_step_at g x y x' y' dx dy hx hy = cc

listed-steps :
    (g : MapGrid) (x y x' y' : ℤ) (ds : List (ℤ × ℤ))
    → listed x' y' (steps g x y ds)
      ≡ (listed (x' -ℤ x) (y' -ℤ y) ds && can_step g x y (x' -ℤ x, y' -ℤ y))
unfolding steps
listed-steps g x y x' y' [] = refl
listed-steps g x y x' y' ((dx, dy) ∷ ds) = ground (
  arith,
  listed-steps g x y x' y' ds,
  shifted x dx x',
  shifted y dy y',
  int_beq_iff dx (x' -ℤ x),
  int_beq_iff dy (y' -ℤ y),
  can_step_at g x y x' y' dx dy,
)

listed-of_unit :
    (d e : ℤ)
    → nat_abs d ≤ 1
    → nat_abs e ≤ 1
    → ((d ≡ pos 0) × (e ≡ pos 0) → ⊥)
    → listed d e directions ≡ true
unfolding directions
listed-of_unit (pos d) (pos e) hd he ne = ground arith
listed-of_unit (pos d) (negsuc e) hd he ne = ground arith
listed-of_unit (negsuc d) (pos e) hd he ne = ground arith
listed-of_unit (negsuc d) (negsuc e) hd he ne = ground arith

unit_of_listed :
    (d e : ℤ)
    → listed d e directions ≡ true
    → (nat_abs d ≤ 1) × (nat_abs e ≤ 1) × ((d ≡ pos 0) × (e ≡ pos 0) → ⊥)
unfolding directions
unit_of_listed (pos d) (pos e) h = ground arith
unit_of_listed (pos d) (negsuc e) h = ground arith
unit_of_listed (negsuc d) (pos e) h = ground arith
unit_of_listed (negsuc d) (negsuc e) h = ground arith

same_iff : (x x' : ℤ) → (x' -ℤ x ≡ pos 0) ↔ (x ≡ x')
same_iff x x' = (λ h. sym (eq_of_-ℤ x' x h), λ h. rw (h, -ℤ_self x'))

pub record IsStep (g : MapGrid) (x y x' y' : ℤ) : Type 0 where
  pub touch : Touch x y x' y'
  pub target : is_walkable g x' y' ≡ true
  pub corners : (x ≡ x') ⊎ (y ≡ y') ⊎ ((is_walkable g x' y ≡ true) × (is_walkable g x y' ≡ true))

can_step_iff :
    (g : MapGrid) (x y x' y' : ℤ)
    → can_step g x y (x' -ℤ x, y' -ℤ y) ≡ (
        is_walkable g x' y'
        && ((x' -ℤ x == pos 0) || (y' -ℤ y == pos 0) || (is_walkable g x' y && is_walkable g x y')))
unfolding can_step
can_step_iff g x y x' y' = ground (arith, +ℤ_cancel x x', +ℤ_cancel y y')

listed-neighbours_eq :
    (g : MapGrid) (x y x' y' : ℤ)
    → listed x' y' (neighbours g x y)
      ≡ (listed (x' -ℤ x) (y' -ℤ y) directions && can_step g x y (x' -ℤ x, y' -ℤ y))
unfolding neighbours
listed-neighbours_eq g x y x' y' = listed-steps g x y x' y' directions

is_step :
    (g : MapGrid) (x y x' y' : ℤ) → listed x' y' (neighbours g x y) ≡ true → IsStep g x y x' y'
is_step g x y x' y' h =
    let eq = listed-neighbours_eq g x y x' y' in
    let unit = unit_of_listed (x' -ℤ x) (y' -ℤ y) (ground (arith, eq)) in
    record {
      touch = (unit.0, unit.1, λ same. unit.2 ((same_iff x x').1 same.0, (same_iff y y').1 same.1));
      target = ground (arith, eq, can_step_iff g x y x' y');
      corners = ground (
        arith,
        eq,
        can_step_iff g x y x' y',
        int_beq_iff (x' -ℤ x) (pos 0),
        int_beq_iff (y' -ℤ y) (pos 0),
        same_iff x x',
        same_iff y y',
      );
    }

listed-of_step :
    (g : MapGrid) (x y x' y' : ℤ) → IsStep g x y x' y' → listed x' y' (neighbours g x y) ≡ true
listed-of_step g x y x' y' step = ground (
  arith,
  listed-neighbours_eq g x y x' y',
  can_step_iff g x y x' y',
  step.target,
  step.corners,
  listed-of_unit (x' -ℤ x) (y' -ℤ y) step.touch.0 step.touch.1
      (λ same. step.touch.2 ((same_iff x x').0 same.0, (same_iff y y').0 same.1)),
  int_beq_iff (x' -ℤ x) (pos 0),
  int_beq_iff (y' -ℤ y) (pos 0),
  same_iff x x',
  same_iff y y',
)

-- `neighbours` yields exactly the walkable cells that touch the cell and that are reached without
-- cutting a blocked corner.
pub listed-neighbours :
    (g : MapGrid) (x y x' y' : ℤ) → (listed x' y' (neighbours g x y) ≡ true) ↔ IsStep g x y x' y'
listed-neighbours g x y x' y' = (is_step g x y x' y', listed-of_step g x y x' y')

nat_abs-swap : (a b : ℤ) → nat_abs (a -ℤ b) ≤ 1 → nat_abs (b -ℤ a) ≤ 1
unfolding ◌-ℤ◌
nat_abs-swap a b h = ground arith

-- A step between two walkable cells can be taken back.
pub neighbours_back :
    (g : MapGrid) (x y x' y' : ℤ)
    → is_walkable g x y ≡ true
    → listed x' y' (neighbours g x y) ≡ true
    → listed x y (neighbours g x' y') ≡ true
neighbours_back g x y x' y' here h =
    let step = is_step g x y x' y' h in
    listed-of_step g x' y' x y (record {
      touch = (
        nat_abs-swap x' x step.touch.0,
        nat_abs-swap y' y step.touch.1,
        λ same. step.touch.2 (sym same.0, sym same.1),
      );
      target = here;
      corners = ground (arith, step.corners);
    })
