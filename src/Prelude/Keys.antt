-- ===== src/Prelude/Keys.antt =====
-- Dicts whose keys are distinct, as those of a Python `dict` are.
use mathlib.Core.Path.{◌≡◌, refl, ◌∙◌}
use mathlib.Core.Logic.{inl, inr}
use mathlib.Core.Bool.{Bool, true, false, not, ◌&&◌, ◌||◌}
use mathlib.Core.Option.{none, some}
use mathlib.Core.List.{[], ◌∷◌}
use native.Mathlib.Omega.{arith}
use queuelens.Prelude.Tests.{Equality, ◌==◌, Bool-cases}
use queuelens.Prelude.Lists.{contains}
use queuelens.Prelude.Dicts.{Dict, keys, get, put, merge, get-put, get-merge_absent}

module _ {ℓ κ} {K : Type ℓ} {V : Type κ} ⦃e : Equality K⦄ where
  abbrev pub distinct : Dict K V → Bool
  distinct [] = true
  distinct ((k, v) ∷ d) = not (contains (keys d) k) && distinct d

  contains-keys-put :
      (d : Dict K V) (k j : K) (v : V)
      → contains (keys (put d k v)) j ≡ (j == k || contains (keys d) j)
  unfolding put
  contains-keys-put [] k j v = ground arith
  contains-keys-put ((i, u) ∷ d) k j v =
      ground (arith, e.agrees i k, e.agrees j i, e.agrees j k, contains-keys-put d k j v)

  pub distinct-put :
      (d : Dict K V) (k : K) (v : V) → distinct d ≡ true → distinct (put d k v) ≡ true
  unfolding put
  distinct-put [] k v h = refl
  distinct-put ((i, u) ∷ d) k v h =
      ground (arith, e.agrees i k, contains-keys-put d k i v, distinct-put d k v, h)

  pub distinct-merge : (d c : Dict K V) → distinct d ≡ true → distinct (merge d c) ≡ true
  unfolding merge
  distinct-merge d [] h = h
  distinct-merge d ((k, v) ∷ c) h = distinct-merge (put d k v) c (distinct-put d k v h)

  pub get-missing : (d : Dict K V) (k : K) → contains (keys d) k ≡ false → get d k ≡ none
  unfolding get
  get-missing [] k h = refl
  get-missing ((j, v) ∷ d) k h = ground (arith, e.agrees j k, e.agrees k j, get-missing d k, h)

  -- What the later dict has.
  pub get-merge_present :
      (d c : Dict K V) (k : K) (v : V)
      → distinct c ≡ true
      → get c k ≡ some v
      → get (merge d c) k ≡ some v
  unfolding get merge
  get-merge_present d [] k v h f = cc f
  get-merge_present d ((j, u) ∷ c) k v h f = elim (Bool-cases (j == k)) [
    | inr other ↦ get-merge_present (put d j u) c k v (ground (arith, h)) (rw other at f)
    | inl same ↦
        get-merge_absent (put d j u) c k
          (get-missing c k (ground (arith, h, (e.agrees j k).0 same)))
        ∙ (get-put d j k u ∙ rw same (rw same at f))
  ]
