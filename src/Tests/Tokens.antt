-- ===== src/Tests/Tokens.antt =====
-- Requests to the stores of bulk batches.
use queuelens.Prelude.{
  ℕ, zero, suc, ap, ◌≡◌, refl, none, some, List, [], ◌∷◌, String, string_eq, get, put, remove, map,
}
use queuelens.Failure.{ok}
use queuelens.Value.{Value, text}
use queuelens.Bulk.{Batch, take_batch, batch_of}
use queuelens.Bulk.Repository.Payload.{Texts, IsRead}
use queuelens.Bulk.Repository.Refinement.{
  Request, keeps, takes, by_memory, by_database, ordered, by_memory-by_database,
}
use queuelens.Tests.Batches.{batch}

-- A batch is kept and taken twice; another is kept until it has expired.
abbrev another : Batch
another = record batch { id = "other" }

abbrev requests : List Request
requests =
    keeps batch ∷ takes 10 "token" ∷ takes 10 "token" ∷ keeps another ∷ takes 900 "other" ∷ []

answers : by_memory 100 [] requests ≡ ok none ∷ ok (some batch) ∷ ok none ∷ ok none ∷ ok none ∷ []
unfolding take_batch get put remove batch_of
answers = refl

-- Times as texts of one character for each unit.
abbrev written : ℕ → String
written zero = String.[]
written (suc n) = String.◌∷◌ "0" (written n)

abbrev characters : String → ℕ
characters String.[] = 0
characters (String.◌∷◌ c s) = suc (characters s)

characters-written : (n : ℕ) → characters (written n) ≡ n
characters-written zero = refl
characters-written (suc n) = ap suc (characters-written n)

abbrev plainly : Value → String
plainly (text s) = s
plainly _ = ""

abbrev formats : Texts
formats = record { isoformat = written; fromisoformat = λ s. ok (characters s); str = plainly }

formats-IsRead : IsRead formats
formats-IsRead = record { time_back = λ t. ap ok (characters-written t); same_text = λ s. refl }

by_memory-by_database_example :
    map ordered (by_memory 100 [] requests) ≡ by_database formats 100 [] requests
unfolding batch_of
by_memory-by_database_example = by_memory-by_database formats formats-IsRead 100 requests refl
