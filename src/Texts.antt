-- ===== src/Texts.antt =====
-- Python's `str.strip` and `str.split(sep)`, and the settings that are lists in one text
-- (`_entries` of app/config.py).
use Prim.Native.Char.{Char, code}
use queuelens.Prelude.{
  ℕ, String, Bool, not, ◌&&◌, ◌||◌, List, [], ◌∷◌, map, ◌==◌, if◌then◌else◌, leb, nat_eq, string_eq,
  filter, ◌≡◌, refl,
}

-- `str.isspace` up to U+00FF.
abbrev is_blank : Char → Bool
is_blank c =
    (leb 9 (code c) && leb (code c) 13)
    || (leb 28 (code c) && leb (code c) 32)
    || code c == 0x85
    || code c == 0xa0

strip_left : String → String
strip_left String.[] = String.[]
strip_left (String.◌∷◌ c s) = let rest = strip_left s in if is_blank c then rest else String.◌∷◌ c s

strip_right : String → String
strip_right String.[] = String.[]
strip_right (String.◌∷◌ c s) =
    let rest = strip_right s in if is_blank c && rest == "" then String.[] else String.◌∷◌ c rest

unfoldable pub strip : String → String
unfolding strip_left strip_right
strip s = strip_left (strip_right s)

abbrev onto_first : Char → List String → List String
onto_first c [] = String.◌∷◌ c String.[] ∷ []
onto_first c (s ∷ rest) = String.◌∷◌ c s ∷ rest

unfoldable pub split_on : ℕ → String → List String
split_on sep String.[] = String.[] ∷ []
split_on sep (String.◌∷◌ c s) =
    let rest = split_on sep s in if code c == sep then String.[] ∷ rest else onto_first c rest

-- `_entries`
unfoldable pub entries : String → List String
unfolding strip split_on
entries value = filter (λ s. not (s == "")) (map strip (split_on b',' value))

three_entries : entries " a, b ,,c " ≡ "a" ∷ "b" ∷ "c" ∷ []
unfolding entries
three_entries = refl
