-- ===== src/Queues.antt =====
-- app/application/queue_service.py: which queues are safe to browse, and how the list describes them.
-- A raw queue is the management API's JSON object, decoded; a field that may be missing is an option.
pub mod Limits
pub mod Guard
pub mod Lowest
pub mod Listing
pub mod Order
use Prim.Native.Char.{code}
use queuelens.Prelude.{
  ℕ, ◌≤◌, String, Bool, true, false, not, ◌&&◌, ◌||◌, Option, none, some, List, [], ◌∷◌, ◌==◌,
  if◌then◌else◌, nat_eq, string_eq, option_eq, ltb, leb, is_some, or_else, filter, Dict, get,
}
use queuelens.Prelude.Int.{ℤ, pos, negsuc, ltb_ℤ, max_ℤ, min_ℤ}
use queuelens.Value.{Value, null, text, to_int}
use queuelens.Failure.{
  Failure, Result, ok, raise, value_error, unsafe_to_browse, management_error, ◌>>=◌,
}
use queuelens.Browser.{scan_bytes_budget}

pub record RawQueue : Type 0 where
  pub name : String
  pub vhost : Option String
  pub type : Option String
  pub arguments : Dict String Value
  -- empty when the API reports no policy
  pub policy : Dict String Value
  pub messages : Option ℕ
  pub messages_ready : Option ℕ
  pub messages_unacknowledged : Option ℕ
  pub message_bytes_ready : Option ℕ
  pub consumers : Option ℕ
  pub durable : Option Bool

before_dot : String → String
before_dot String.[] = String.[]
before_dot (String.◌∷◌ c s) =
    let rest = before_dot s in if code c == b'.' then String.[] else String.◌∷◌ c rest

abbrev or_zero : Result ℤ → Result ℤ
or_zero (ok n) = ok n
or_zero (raise value_error) = ok (pos 0)
or_zero (raise e) = raise e

-- `_major`
unfoldable pub major : Option String → Result ℤ
unfolding before_dot to_int
major version =
    or_zero (
      to_int
        (text (before_dot (elim version [ none ↦ "0" | some v ↦ if v == "" then "0" else v ]))))

-- `raw.get("type") or arguments.get("x-queue-type")`, compared with "quorum"
unfoldable pub is_quorum : RawQueue → Bool
unfolding get
is_quorum raw =
    if or_else raw.type "" == ""
    then elim (get raw.arguments "x-queue-type") [ some (text t) ↦ t == "quorum" | _ ↦ false ]
    else or_else raw.type "" == "quorum"

-- `[int(v) for v in … if v is not None]`
abbrev collect : Option Value → Result (List ℤ) → Result (List ℤ)
collect none later = later
collect (some null) later = later
collect (some v) later = do n ← to_int v; ns ← later; ok (n ∷ ns)

unfoldable pub configured : RawQueue → Result (List ℤ)
unfolding get
configured raw =
    collect (get raw.arguments "x-delivery-limit")
      (collect (get raw.policy "delivery-limit") (ok []))

abbrev pub minimum : ℤ → List ℤ → ℤ
minimum n [] = n
minimum n (m ∷ rest) = minimum (min_ℤ n m) rest

-- Up to 3.x every value is a limit.
unfoldable pub limit_3 : List ℤ → Option ℤ
limit_3 [] = none
limit_3 (n ∷ rest) = some (max_ℤ (pos 0) (minimum n rest))

abbrev pub non_negative : ℤ → Bool
non_negative n = not (ltb_ℤ n (pos 0))

abbrev pub lowest : List ℤ → Option ℤ → Option ℤ
lowest [] otherwise = otherwise
lowest (n ∷ rest) otherwise = some (minimum n rest)

abbrev pub default_limit : List ℤ → Option ℤ
default_limit [] = some (pos 20)
default_limit (n ∷ rest) = none

-- From 4.0 on the lowest value that is not negative is the limit, and the default is 20.
unfoldable pub limit_4 : List ℤ → Option ℤ
limit_4 values = lowest (filter non_negative values) (default_limit values)

-- `delivery_limit`
unfoldable pub delivery_limit : RawQueue → Option String → Result (Option ℤ)
unfolding is_quorum configured major limit_3 limit_4
delivery_limit raw version =
    if is_quorum raw
    then (do
      values ← configured raw
      m ← major version
      ok (if ltb_ℤ m (pos 4) then limit_3 values else limit_4 values))
    else ok none

-- The management API as a call finds it: `get_queue`, and the version that `overview` reports.
pub record Management : Type 0 where
  pub get_queue : String → Result RawQueue
  pub overview : Result (Option String)

-- `_version`: the answer, and the version that is kept. `str(None)` is "None".
unfoldable pub version : Management → Bool → Option String → Result (Option String) × Option String
version api strict (some v) = (ok (some v), some v)
version api strict none = elim api.overview [
  | ok v ↦ (ok (some (or_else v "None")), some (or_else v "None"))
  | raise e ↦ (if strict then raise e else ok none, none)
]

-- The limit, and the bytes that a whole scan would hold at once.
abbrev pub judge_limit : RawQueue → Option ℤ → Result Bool
judge_limit raw (some limit) = raise unsafe_to_browse
judge_limit raw none =
    if is_quorum raw && ltb scan_bytes_budget (or_else raw.message_bytes_ready 0)
    then raise unsafe_to_browse
    else ok (is_quorum raw)

-- The checks of `assert_browsable` once the version is known.
unfoldable pub judge : RawQueue → Option String → Result Bool
judge raw v =
    if is_quorum raw && not (is_some raw.messages)
    then raise unsafe_to_browse
    else delivery_limit raw v >>= judge_limit raw

abbrev pub judge_as :
    RawQueue → Result (Option String) × Option String → Result Bool × Option String
judge_as raw (ok v, kept) = (judge raw v, kept)
judge_as raw (raise e, kept) = (raise e, kept)

-- `error.status_code` of a `RabbitMQManagementError`
abbrev pub status_code : Failure → Option ℕ
status_code (management_error status) = status
status_code e = none

-- `except RabbitMQManagementError`: 404 is left to the AMQP path.
abbrev pub browsable_from :
    Management → Option String → Result RawQueue → Result Bool × Option String
browsable_from api kept (ok raw) = judge_as raw (version api true kept)
browsable_from api kept (raise e) = (if status_code e == some 404 then ok false else raise e, kept)

-- `QueueService.assert_browsable`, and the version that the service keeps.
unfoldable pub assert_browsable : Management → String → Option String → Result Bool × Option String
unfolding judge version
assert_browsable api queue_name kept = browsable_from api kept (api.get_queue queue_name)
