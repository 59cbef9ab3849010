-- ===== src/Domain/XDeath.antt =====
-- app/domain/xdeath.py: the death history that RabbitMQ writes into a message's headers.
use queuelens.Prelude.{suc, ◌+◌, String, Option, some, List, [], ◌∷◌, Dict, get, put, string_eq}
use queuelens.Prelude.Int.{ℤ, pos, negsuc, ◌+ℤ◌, max_ℤ}
use queuelens.Value.{Value, Values, text, list, dict, nil, cons, to_dict, int_or_zero}
use queuelens.Failure.{Result, ok, raise, value_error, type_error, ◌>>=◌}

abbrev pub deaths_header : String
deaths_header = "x-queuelens-deaths"

-- `sum(int(entry.get("count") or 0) for entry in x_death)`
unfoldable pub counted : List (Dict String Value) → Result ℤ
unfolding int_or_zero get
counted [] = ok (pos 0)
counted (entry ∷ rest) = do
  n ← int_or_zero (get entry "count")
  total ← counted rest
  ok (n +ℤ total)

-- `except (TypeError, ValueError): stamped = 0`
abbrev or_unstamped : Result ℤ → Result ℤ
or_unstamped (ok n) = ok n
or_unstamped (raise value_error) = ok (pos 0)
or_unstamped (raise type_error) = ok (pos 0)
or_unstamped (raise e) = raise e

unfoldable pub stamped : Dict String Value → Result ℤ
unfolding int_or_zero get
stamped headers = or_unstamped (int_or_zero (get headers deaths_header))

-- `max(counted, stamped + 1) if stamped > 0 else counted`
abbrev pub combine : ℤ → ℤ → ℤ
combine counted (pos (suc n)) = max_ℤ counted (pos (n + 2))
combine counted (pos _) = counted
combine counted (negsuc n) = counted

unfoldable pub deaths : List (Dict String Value) → Dict String Value → Result ℤ
unfolding counted stamped
deaths x_death headers = do c ← counted x_death; s ← stamped headers; ok (combine c s)

-- A single routing key becomes a list of one.
abbrev one_routing_key : Dict String Value → Option Value → Dict String Value
one_routing_key entry (some (text k)) = put entry "routing-keys" (list (cons (text k) nil))
one_routing_key entry _ = entry

abbrev dicts_of : Values → List (Dict String Value)
dicts_of nil = []
dicts_of (cons (dict fields) rest) =
    one_routing_key (to_dict fields) (get (to_dict fields) "routing-keys") ∷ dicts_of rest
dicts_of (cons _ rest) = dicts_of rest

abbrev x_death_of : Option Value → List (Dict String Value)
x_death_of (some (list items)) = dicts_of items
x_death_of _ = []

-- `parse_x_death`: what is no list of dicts is left out.
unfoldable pub parse_x_death : Dict String Value → List (Dict String Value)
unfolding get put
parse_x_death headers = x_death_of (get headers "x-death")
