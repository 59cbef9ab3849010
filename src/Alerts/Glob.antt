-- ===== src/Alerts/Glob.antt =====
-- `fnmatch.fnmatch` of Python on a POSIX system, on the characters' codes: `*`, `?` and `[…]`.
use queuelens.Value.{codes}
use queuelens.Prelude.{
  ℕ, zero, suc, String, length, ◌≡◌, refl, Bool, true, false, not, ◌&&◌, ◌||◌, Option, none, some,
  List, [], ◌∷◌, ◌==◌, nat_eq, leb, if◌then◌else◌,
}

-- What stands for one character in a pattern, and `*`.
pub data Piece : Type 0 where
  star any : Piece
  literal : ℕ → Piece
  one_of : Bool → List (ℕ × ℕ) → Piece

-- A class up to its `]`, which may stand first in it; `none` if there is no end.
abbrev up_to_bracket : List ℕ → Option (List ℕ × List ℕ)
up_to_bracket [] = none
up_to_bracket (c ∷ cs) =
    let rest = up_to_bracket cs in
    if c == b']' then some ([], cs) else elim rest [ none ↦ none | some (a, b) ↦ some (c ∷ a, b) ]

-- The ranges of a class; a single character is a range of one.
abbrev ranges : List ℕ → List (ℕ × ℕ)
ranges [] = []
ranges (c ∷ []) = (c, c) ∷ []
ranges (c ∷ d ∷ []) = (c, c) ∷ (d, d) ∷ []
ranges (c ∷ d ∷ e ∷ cs) =
    let range = (c, e) ∷ ranges cs in
    let single = (c, c) ∷ ranges (d ∷ e ∷ cs) in if d == b'-' then range else single

abbrev class_of : List ℕ → Piece
class_of [] = one_of true []
class_of (c ∷ cs) =
    let negated : Piece = one_of false (ranges cs) in
    let plain : Piece = one_of true (ranges (c ∷ cs)) in if c == b'!' then negated else plain

abbrev past_first : List ℕ → Option (List ℕ × List ℕ)
past_first [] = none
past_first (c ∷ cs) =
    if c == b']'
    then elim (up_to_bracket cs) [ none ↦ none | some (a, b) ↦ some (c ∷ a, b) ]
    else up_to_bracket (c ∷ cs)

-- The class that starts a pattern behind `[`, and the pattern behind it.
abbrev read_class : List ℕ → Option (List ℕ × List ℕ)
read_class [] = none
read_class (c ∷ cs) =
    if c == b'!'
    then elim (past_first cs) [ none ↦ none | some (a, b) ↦ some (c ∷ a, b) ]
    else past_first (c ∷ cs)

-- A pattern's pieces; every round takes a character, so its length is fuel enough.
pieces : ℕ → List ℕ → List Piece
pieces fuel [] = []
pieces zero (c ∷ cs) = []
pieces (suc fuel) (c ∷ cs) =
    let rest = pieces fuel cs in
    let bracket : List Piece = elim (read_class cs) [
      | none ↦ literal c ∷ pieces fuel cs
      | some (class, after) ↦ class_of class ∷ pieces fuel after
    ] in
    if c == b'*'
    then star ∷ rest
    else if c == b'?'
    then any ∷ rest
    else if c == b'['
    then bracket
    else literal c ∷ rest

in_ranges : ℕ → List (ℕ × ℕ) → Bool
in_ranges c [] = false
in_ranges c ((lo, hi) ∷ rest) = (leb lo c && leb c hi) || in_ranges c rest

fits : Piece → ℕ → Bool
unfolding in_ranges
fits star c = true
fits any c = true
fits (literal d) c = c == d
fits (one_of true rs) c = in_ranges c rs
fits (one_of false rs) c = not (in_ranges c rs)

matches : List Piece → List ℕ → Bool
unfolding fits
matches [] [] = true
matches [] (c ∷ s) = false
matches (star ∷ ps) [] = matches ps []
matches (star ∷ ps) (c ∷ s) =
    let longer = matches (star ∷ ps) s in let here = matches ps (c ∷ s) in here || longer
matches (p ∷ ps) [] = false
matches (p ∷ ps) (c ∷ s) = let rest = matches ps s in fits p c && rest

unfoldable pub fnmatch : String → String → Bool
unfolding pieces matches
fnmatch name pattern = matches (pieces (length (codes pattern)) (codes pattern)) (codes name)

names_match : fnmatch "orders.dlq" "*.d[a-lx]?" ≡ true
unfolding fnmatch
names_match = refl

names_differ : fnmatch "orders.dlq" "*.d[!a-l]?" ≡ false
unfolding fnmatch
names_differ = refl
