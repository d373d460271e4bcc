-- ===== src/Base/Dict.antt =====
-- Python's `dict`: an association list in insertion order, one entry for each key.
use nostale_packet_logger.Base.{◌≡◌, refl, Option, none, some, List, [], ◌∷◌, arith, if◌then◌else◌}
use nostale_packet_logger.Base.Keys.{Key, ◌==◌, beq_refl}

pub record Dict {ℓ} (K V : Type ℓ) : Type ℓ where
  pub items : List (K × V)

module _ {ℓ} {K V : Type ℓ} ⦃key : Key K⦄ where
  unfoldable pub lookup : K → List (K × V) → Option V
  lookup k [] = none
  lookup k ((j, v) ∷ l) = if j == k then some v else lookup k l

  -- The value of a key that is there is replaced in its place; a new key goes to the end.
  unfoldable pub store : K → V → List (K × V) → List (K × V)
  store k v [] = (k, v) ∷ []
  store k v ((j, w) ∷ l) = let rest = store k v l in if j == k then (j, v) ∷ l else (j, w) ∷ rest

  unfoldable pub without : K → List (K × V) → List (K × V)
  without gone [] = []
  without gone (entry ∷ items) =
      let kept = without gone items in if entry.0 == gone then kept else entry ∷ kept

  pub lookup-store :
      (k j : K) (v : V) (l : List (K × V))
      → lookup j (store k v l) ≡ (if k == j then some v else lookup j l)
  unfolding lookup store
  lookup-store k j v [] = refl
  lookup-store k j v ((i, w) ∷ l) =
      ground (arith, key.same_iff k j, key.same_iff i k, key.same_iff i j, lookup-store k j v l)

  -- d.get(k)
  unfoldable pub get : Dict K V → K → Option V
  unfolding lookup
  get d k = lookup k d.items

  -- d[k] = v
  unfoldable pub put : Dict K V → K → V → Dict K V
  unfolding store
  put d k v = record { items = store k v d.items }

  -- d.pop(k, None)
  unfoldable pub remove : Dict K V → K → Dict K V
  unfolding without
  remove d k = record { items = without k d.items }

  pub get-put :
      (d : Dict K V) (k j : K) (v : V) → get (put d k v) j ≡ (if k == j then some v else get d j)
  unfolding get put
  get-put d k j v = lookup-store k j v d.items

  pub get-put_self : (d : Dict K V) (k : K) (v : V) → get (put d k v) k ≡ some v
  get-put_self d k v = simp (get-put, beq_refl)

  pub lookup-without :
      (gone j : K) (items : List (K × V))
      → lookup j (without gone items) ≡ (if gone == j then none else lookup j items)
  unfolding lookup without
  lookup-without gone j [] = ground arith
  lookup-without gone j ((i, w) ∷ items) = ground (
    arith,
    key.same_iff gone j,
    key.same_iff i gone,
    key.same_iff i j,
    lookup-without gone j items,
  )

  pub get-remove :
      (d : Dict K V) (gone j : K) → get (remove d gone) j ≡ (if gone == j then none else get d j)
  unfolding get remove
  get-remove d gone j = lookup-without gone j d.items

-- `{}`, and what `d.clear()` leaves.
abbrev pub empty {ℓ} : {K V : Type ℓ} → Dict K V
empty = record { items = [] }

pub get-empty {ℓ} : {K V : Type ℓ} ⦃key : Key K⦄ (k : K) → get (empty {V = V}) k ≡ none
unfolding get
get-empty k = refl

pub ruleset dict_laws = (get-empty, get-remove, get-put)
