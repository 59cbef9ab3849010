-- ===== src/Value.antt =====
-- The values that AMQP headers hold, and what Python's `int` and truth tests make of them. Floats
-- and decimals do not occur in the model. A datetime is the number of microseconds since
-- `datetime.min`, in UTC: the code reads a naive one as UTC.
use Prim.Native.Char.{code}
use queuelens.Prelude.{
  ℕ, zero, suc, ◌+◌, ◌-◌, ◌*◌, String, ◌≡◌, refl, Bool, true, false, not, ◌&&◌, ◌||◌, Option, none,
  some, List, [], ◌∷◌, leb, ◌==◌, if◌then◌else◌, all, Dict, nat_eq, string_eq,
}
use queuelens.Prelude.Int.{ℤ, pos, negsuc, sub_ℕ}
use queuelens.Failure.{Result, ok, raise, value_error, type_error}

mutual
  pub data Value : Type 0 where
    null : Value
    bool : Bool → Value
    int : ℤ → Value
    text : String → Value
    bytes : List ℕ → Value
    time : ℕ → Value
    list : Values → Value
    dict : Fields → Value

  pub data Values : Type 0 where
    nil : Values
    cons : Value → Values → Values

  pub data Fields : Type 0 where
    end : Fields
    field : String → Value → Fields → Fields

abbrev pub to_dict : Fields → Dict String Value
to_dict end = []
to_dict (field k v rest) = (k, v) ∷ to_dict rest

abbrev pub codes : String → List ℕ
codes String.[] = []
codes (String.◌∷◌ c s) = code c ∷ codes s

-- `bool(value)`
abbrev pub truthy : Value → Bool
truthy null = false
truthy (bool b) = b
truthy (int (pos zero)) = false
truthy (int (pos (suc n))) = true
truthy (int (negsuc n)) = true
truthy (text s) = not (s == "")
truthy (bytes []) = false
truthy (bytes (x ∷ xs)) = true
truthy (time t) = true
truthy (list nil) = false
truthy (list (cons v vs)) = true
truthy (dict end) = false
truthy (dict (field k v rest)) = true

abbrev is_space : ℕ → Bool
is_space c = (leb 9 c && leb c 13) || c == 32

abbrev is_digit : ℕ → Bool
is_digit c = leb 48 c && leb c 57

-- The digits of an `int` literal: single underscores stand between digits, and white space ends it.
digits_of : ℕ → Bool → List ℕ → Option ℕ
digits_of acc after_digit [] = if after_digit then some acc else none
digits_of acc after_digit (c ∷ cs) =
    let rest = digits_of (if is_digit c then acc * 10 + (c - 48) else acc) (is_digit c) cs in
    if is_digit c || (after_digit && c == b'_')
    then rest
    else if after_digit && is_space c && all is_space cs
    then some acc
    else none

signed_of : List ℕ → Option ℤ
unfolding digits_of
signed_of [] = none
signed_of (c ∷ cs) =
    if c == b'-'
    then elim (digits_of 0 false cs) [ none ↦ none | some n ↦ some (sub_ℕ 0 n) ]
    else if c == b'+'
    then elim (digits_of 0 false cs) [ none ↦ none | some n ↦ some (pos n) ]
    else elim (digits_of 0 false (c ∷ cs)) [ none ↦ none | some n ↦ some (pos n) ]

drop_spaces : List ℕ → List ℕ
drop_spaces [] = []
drop_spaces (c ∷ cs) = let rest = drop_spaces cs in if is_space c then rest else c ∷ cs

abbrev or_value_error : Option ℤ → Result ℤ
or_value_error none = raise value_error
or_value_error (some n) = ok n

-- `int(value)`. Of the digits and the white space of a text only the ASCII ones are read as such; Python
-- takes those of all of Unicode.
unfoldable pub to_int : Value → Result ℤ
unfolding signed_of drop_spaces
to_int null = raise type_error
to_int (bool b) = ok (if b then pos 1 else pos 0)
to_int (int n) = ok n
to_int (text s) = or_value_error (signed_of (drop_spaces (codes s)))
to_int (bytes b) = or_value_error (signed_of (drop_spaces b))
to_int (time t) = raise type_error
to_int (list vs) = raise type_error
to_int (dict fs) = raise type_error

-- `int(value or 0)`, where a missing value is `None`
unfoldable pub int_or_zero : Option Value → Result ℤ
unfolding to_int
int_or_zero none = ok (pos 0)
int_or_zero (some v) = if truthy v then to_int v else ok (pos 0)

spaced_literal : to_int (text " -1_000 ") ≡ ok (negsuc 999)
unfolding to_int
spaced_literal = refl

bad_literal : to_int (text "1__0") ≡ raise value_error
unfolding to_int
bad_literal = refl
