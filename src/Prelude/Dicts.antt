-- ===== src/Prelude/Dicts.antt =====
-- Python's `dict`: the entries in insertion order. An assignment to a key that is there keeps its
-- place.
use mathlib.Core.Path.{◌≡◌, refl}
use mathlib.Core.Option.{Option, none, some}
use mathlib.Core.List.{List, [], ◌∷◌}
use native.Mathlib.Omega.{arith}
use queuelens.Prelude.Tests.{Equality, ◌==◌, if◌then◌else◌}

abbrev pub Dict {ℓ κ} : Type ℓ → Type κ → Type (ℓ ⊔ κ)
Dict K V = List (K × V)

abbrev pub keys {ℓ κ} : {K : Type ℓ} {V : Type κ} → Dict K V → List K
keys [] = []
keys ((k, v) ∷ d) = k ∷ keys d

module _ {ℓ κ} {K : Type ℓ} {V : Type κ} ⦃e : Equality K⦄ where
  -- `d.get(k)`
  unfoldable pub get : Dict K V → K → Option V
  get [] k = none
  get ((j, v) ∷ d) k = if j == k then some v else get d k

  -- `d[k] = v`
  unfoldable pub put : Dict K V → K → V → Dict K V
  put [] k v = (k, v) ∷ []
  put ((j, u) ∷ d) k v = if j == k then (j, v) ∷ d else (j, u) ∷ put d k v

  -- `d.pop(k, None)`
  unfoldable pub remove : Dict K V → K → Dict K V
  remove [] k = []
  remove ((j, v) ∷ d) k = let rest = remove d k in if j == k then rest else (j, v) ∷ rest

  -- `{**d, **c}`
  unfoldable pub merge : Dict K V → Dict K V → Dict K V
  merge d [] = d
  merge d ((k, v) ∷ c) = merge (put d k v) c

  pub get-put :
      (d : Dict K V) (k j : K) (v : V) → get (put d k v) j ≡ (if k == j then some v else get d j)
  unfolding get put
  get-put [] k j v = refl
  get-put ((i, u) ∷ d) k j v =
      ground (arith, e.agrees i k, e.agrees i j, e.agrees k j, get-put d k j v)

  pub get-remove :
      (d : Dict K V) (k j : K) → get (remove d k) j ≡ (if k == j then none else get d j)
  unfolding get remove
  get-remove [] k j = ground arith
  get-remove ((i, u) ∷ d) k j =
      ground (arith, e.agrees i k, e.agrees i j, e.agrees k j, get-remove d k j)

  -- The later dict wins, wherever it has the key (its keys are distinct).
  pub get-merge_absent : (d c : Dict K V) (k : K) → get c k ≡ none → get (merge d c) k ≡ get d k
  unfolding get merge
  get-merge_absent d [] k h = refl
  get-merge_absent d ((j, v) ∷ c) k h =
      ground (arith, get-put d j k v, get-merge_absent (put d j v) c k)
