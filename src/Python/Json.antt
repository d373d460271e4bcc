-- ===== src/Python/Json.antt =====
-- The values that `json.loads` returns.
use nostale_packet_logger.Base.{◌≡◌, Bool, Option, none, some, List, [], ◌∷◌, arith, if◌then◌else◌}
use nostale_packet_logger.Base.Int.{ℤ}
use nostale_packet_logger.Base.Keys.{Text, ◌==◌, text_eq}
use nostale_packet_logger.Python.Floats.{Float}

mutual
  pub data Json : Type 0 where
    null : Json
    boolean : Bool → Json
    integer : ℤ → Json
    real : Float → Json
    text : Text → Json
    array : Items → Json
    object : Fields → Json

  pub data Items : Type 0 where
    done : Items
    item : Json → Items → Items

  pub data Fields : Type 0 where
    end : Fields
    field : Text → Json → Fields → Fields

unfoldable pub list_of : Items → List Json
list_of done = []
list_of (item v vs) = v ∷ list_of vs

unfoldable pub items_of : List Json → Items
items_of [] = done
items_of (v ∷ vs) = item v (items_of vs)

pub list_of-items_of : (vs : List Json) → list_of (items_of vs) ≡ vs
unfolding list_of items_of
list_of-items_of [] = ground arith
list_of-items_of (v ∷ vs) = ground (arith, list_of-items_of vs)

-- data.get(key)
unfoldable pub get_field : Text → Fields → Option Json
get_field k end = none
get_field k (field j v fs) = if j == k then some v else get_field k fs

-- data.get(key, default)
unfoldable pub get_or : Text → Json → Fields → Json
unfolding get_field
get_or k default fs = elim (get_field k fs) [ none ↦ default | some v ↦ v ]
