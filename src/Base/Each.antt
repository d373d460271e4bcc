-- ===== src/Base/Each.antt =====
-- A predicate of every entry of a dictionary.
use nostale_packet_logger.Base.{
  ◌≡◌, Bool, true, false, some, List, [], ◌∷◌, arith, if◌then◌else◌, All,
}
use nostale_packet_logger.Base.Keys.{Key}
use nostale_packet_logger.Base.Dict.{
  Dict, empty, get, put, remove, lookup, get-empty, get-put, get-remove,
}

module _ {ℓ} {K V : Type ℓ} ⦃key : Key K⦄ where
  pub record Each (P : K → V → Type 0) (d : Dict K V) : Type ℓ where
    pub at : (k : K) (v : V) → get d k ≡ some v → P k v

module _ {ℓ} {K V : Type ℓ} ⦃key : Key K⦄ (P : K → V → Type 0) where
  pub Each-empty : Each P empty
  Each-empty = record { at = λ k v h. cc (get-empty {V = V} k) }

  pub Each-put : (d : Dict K V) (k : K) (v : V) → Each P d → P k v → Each P (put d k v)
  Each-put d k v all new = record {
    at = λ j w h. ground (arith, get-put d k j v, key.same_iff k j, all.at j w);
  }

  pub Each-remove : (d : Dict K V) (k : K) → Each P d → Each P (remove d k)
  Each-remove d k all = record {
    at = λ j w h. ground (arith, get-remove d k j, key.same_iff k j, all.at j w);
  }

  pub Each-if : (b : Bool) (c d : Dict K V) → Each P c → Each P d → Each P (if b then c else d)
  Each-if true c d hc hd = hc
  Each-if false c d hc hd = hd

  -- A predicate of all items holds of what is looked up.
  Each-lookup :
      (items : List (K × V)) (k : K) (v : V)
      → All (λ i. P i.0 i.1) items
      → lookup k items ≡ some v
      → P k v
  unfolding lookup
  Each-lookup [] k v h found = cc
  Each-lookup ((j, w) ∷ items) k v h found =
      ground (arith, key.same_iff j k, Each-lookup items k v h.1)

  pub Each-items :
      (items : List (K × V)) → All (λ i. P i.0 i.1) items → Each P (record { items = items })
  unfolding get
  Each-items items h = record { at = λ k v found. Each-lookup items k v h found }
