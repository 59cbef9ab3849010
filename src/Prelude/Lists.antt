-- ===== src/Prelude/Lists.antt =====
-- Lists measured by native numbers, with Boolean predicates.
use Prim.Native.Nat.{ℕ, zero, suc, ◌+◌, ◌≤◌}
use mathlib.Core.Path.{◌≡◌, refl, ap}
use mathlib.Core.Logic.{◌⊎◌, inl, inr}
use mathlib.Core.Bool.{Bool, true, false, ◌&&◌, ◌||◌}
use mathlib.Core.List.{List, [], ◌∷◌, ◌++◌, map}
use native.Mathlib.Omega.{arith}
use text.Mathlib.Text.{is_le}
use Prim.Native.String.{String, compare}
use queuelens.Prelude.Tests.{Equality, ◌==◌, if◌then◌else◌, string_eq, Bool-cases}

module _ {ℓ} {A : Type ℓ} where
  abbrev pub length : List A → ℕ
  length [] = 0
  length (x ∷ xs) = suc (length xs)

  abbrev pub take : ℕ → List A → List A
  take zero xs = []
  take (suc n) [] = []
  take (suc n) (x ∷ xs) = x ∷ take n xs

  abbrev pub filter : (A → Bool) → List A → List A
  filter p [] = []
  filter p (x ∷ xs) = let rest = filter p xs in if p x then x ∷ rest else rest

  abbrev pub any : (A → Bool) → List A → Bool
  any p [] = false
  any p (x ∷ xs) = p x || any p xs

  abbrev pub all : (A → Bool) → List A → Bool
  all p [] = true
  all p (x ∷ xs) = p x && all p xs

  -- A predicate that holds of each element.
  abbrev pub All {κ} : (A → Type κ) → List A → Type κ
  All P [] = Unit
  All P (x ∷ xs) = P x × All P xs

  pub length-append : (xs ys : List A) → length (xs ++ ys) ≡ length xs + length ys
  length-append [] ys = omega arith
  length-append (x ∷ xs) ys = omega (arith, length-append xs ys)

  pub length-take-le : (n : ℕ) (xs : List A) → length (take n xs) ≤ n
  length-take-le zero xs = omega arith
  length-take-le (suc n) [] = omega arith
  length-take-le (suc n) (x ∷ xs) = omega (arith, length-take-le n xs)

  pub length-filter-le : (p : A → Bool) (xs : List A) → length (filter p xs) ≤ length xs
  length-filter-le p [] = omega arith
  length-filter-le p (x ∷ xs) = ground (arith, length-filter-le p xs)

  pub All-append {κ} : (P : A → Type κ) (xs ys : List A) → All P xs → All P ys → All P (xs ++ ys)
  All-append P [] ys h k = k
  All-append P (x ∷ xs) ys h k = (h.0, All-append P xs ys h.1 k)

module _ {ℓ κ} {A : Type ℓ} (P : A → Type κ) where
  pub take-All : (n : ℕ) (xs : List A) → All P xs → All P (take n xs)
  take-All zero xs h = tt
  take-All (suc n) [] h = tt
  take-All (suc n) (x ∷ xs) h = (h.0, take-All n xs h.1)

  pub filter-All : (keep : A → Bool) (xs : List A) → All P xs → All P (filter keep xs)
  filter-All keep [] h = tt
  filter-All keep (x ∷ xs) h = elim (Bool-cases (keep x)) [
    | inl kept ↦ rw kept (h.0, filter-All keep xs h.1)
    | inr gone ↦ rw gone (filter-All keep xs h.1)
  ]

-- The empty type at every level.
pub data Absent {ℓ} : Type ℓ where

module _ {ℓ} {A : Type ℓ} where
  abbrev pub Member : A → List A → Type ℓ
  Member a [] = Absent
  Member a (x ∷ xs) = (a ≡ x) ⊎ Member a xs

  pub All-mono {κ μ} :
      (P : A → Type κ) (Q : A → Type μ) (xs : List A) → ((a : A) → P a → Q a) → All P xs → All Q xs
  All-mono P Q [] f h = tt
  All-mono P Q (x ∷ xs) f h = (f x h.0, All-mono P Q xs f h.1)

  pub All-Member : (xs : List A) → All (λ a. Member a xs) xs
  All-Member [] = tt
  All-Member (x ∷ xs) = (
    inl refl,
    All-mono (λ a. Member a xs) (λ a. Member a (x ∷ xs)) xs (λ a m. inr m) (All-Member xs),
  )

module _ {ℓ} {A : Type ℓ} ⦃e : Equality A⦄ where
  -- `a in xs`
  abbrev pub contains : List A → A → Bool
  contains [] a = false
  contains (x ∷ xs) a = a == x || contains xs a

  -- `xs.count(a)`
  abbrev pub count : List A → A → ℕ
  count [] a = 0
  count (x ∷ xs) a = let rest = count xs a in if a == x then suc rest else rest

module _ {ℓ} {A : Type ℓ} where
  pub length-map {κ} : {B : Type κ} (f : A → B) (xs : List A) → length (map f xs) ≡ length xs
  length-map f [] = refl
  length-map f (x ∷ xs) = ap suc (length-map f xs)

-- `sorted` on texts: by code points, as their UTF-8 is ordered.
abbrev text_leb : String → String → Bool
text_leb s t = is_le (compare s t)

unfoldable pub insert : String → List String → List String
insert s [] = s ∷ []
insert s (t ∷ ts) = if text_leb s t then s ∷ t ∷ ts else t ∷ insert s ts

unfoldable pub sorted : List String → List String
unfolding insert
sorted [] = []
sorted (s ∷ ss) = insert s (sorted ss)

count-insert : (a s : String) (ts : List String) → count (insert s ts) a ≡ count (s ∷ ts) a
unfolding insert
count-insert a s [] = refl
count-insert a s (t ∷ ts) = ground (arith, count-insert a s ts)

-- Sorting only reorders.
pub count-sorted : (a : String) (ss : List String) → count (sorted ss) a ≡ count ss a
unfolding sorted
count-sorted a [] = refl
count-sorted a (s ∷ ss) = ground (arith, count-insert a s (sorted ss), count-sorted a ss)
