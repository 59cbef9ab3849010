-- ===== src/Policy/Passes/Counting.antt =====
-- Distinct entries of a list are no more than its entries.
use queuelens.Prelude.{
  suc, ◌≤◌, ◌≡◌, String, true, false, List, [], ◌∷◌, ◌==◌, if◌then◌else◌, string_eq, length,
  contains, All, All-mono, arith,
}
use queuelens.Bulk.Approval.{Distinct}

-- A list without its first copy of an entry.
drop_one : List String → String → List String
drop_one [] x = []
drop_one (y ∷ ys) x = if x == y then ys else y ∷ drop_one ys x

length-drop_one :
    (ys : List String) (x : String)
    → contains ys x ≡ true
    → suc (length (drop_one ys x)) ≡ length ys
unfolding drop_one
length-drop_one [] x h = cc h
length-drop_one (y ∷ ys) x h = ground (arith, length-drop_one ys x, h)

contains-drop_one :
    (ys : List String) (x z : String)
    → (z == x) ≡ false
    → contains ys z ≡ true
    → contains (drop_one ys x) z ≡ true
unfolding drop_one
contains-drop_one [] x z other h = h
contains-drop_one (y ∷ ys) x z other h = ground (
  arith,
  string_eq.agrees x y,
  string_eq.agrees z y,
  string_eq.agrees z x,
  contains-drop_one ys x z other,
  h,
  other,
)

-- Entries other than one that is not there.
differ : (xs : List String) (x : String) → contains xs x ≡ false → All (λ z. (z == x) ≡ false) xs
differ [] x h = tt
differ (y ∷ xs) x h =
    (ground (arith, string_eq.agrees x y, string_eq.agrees y x, h), differ xs x (ground (arith, h)))

All-both :
    (P Q : String → Type 0) (xs : List String) → All P xs → All Q xs → All (λ x. P x × Q x) xs
All-both P Q [] p q = tt
All-both P Q (x ∷ xs) p q = ((p.0, q.0), All-both P Q xs p.1 q.1)

pub length-Distinct :
    (xs ys : List String) → Distinct xs → All (λ x. contains ys x ≡ true) xs → length xs ≤ length ys
unfolding Distinct
length-Distinct [] ys d h = omega arith
length-Distinct (x ∷ xs) ys d h =
    let kept : All (λ z. contains (drop_one ys x) z ≡ true) xs =
      All-mono (λ z. ((z == x) ≡ false) × (contains ys z ≡ true))
        (λ z. contains (drop_one ys x) z ≡ true) xs
        (λ z both. contains-drop_one ys x z both.0 both.1)
        (All-both (λ z. (z == x) ≡ false) (λ z. contains ys z ≡ true) xs (differ xs x d.0) h.1) in
    omega (arith, length-drop_one ys x h.0, length-Distinct xs (drop_one ys x) d.1 kept)
