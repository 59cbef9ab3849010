-- ===== src/Bulk/Repository/Payload.antt =====
-- How a batch stands in the database: `_batch_to_payload` and `_batch_from_payload` of
-- app/application/bulk_service.py. `isoformat`, `fromisoformat` and `str` are parameters. A list or
-- dict of another shape than the service writes raises here; an operator action that none of the four
-- names stands for is written as an empty text, and read back as such a one.
use queuelens.Prelude.{
  ℕ, ◌≡◌, refl, String, Option, none, some, List, [], ◌∷◌, ◌==◌, if◌then◌else◌, string_eq, sorted,
  Dict, get,
}
use queuelens.Prelude.Int.{pos, pos_part}
use queuelens.Value.{
  Value, null, int, text, list, dict, Values, nil, cons, end, field, to_dict, to_int,
}
use queuelens.Failure.{Result, ok, raise, key_error, type_error, ◌>>=◌}
use queuelens.Domain.{ReplayTarget}
use queuelens.Operator.{Action, copy, move, park, delete, unsupported}
use queuelens.Snapshots.{Scope}
use queuelens.Bulk.Batching.{Batch}

abbrev pub Payload : Type 0
Payload = Dict String Value

-- `isoformat`, `datetime.fromisoformat` and `str`.
pub record Texts : Type 0 where
  pub isoformat : ℕ → String
  pub fromisoformat : String → Result ℕ
  pub str : Value → String

-- What Python documents of them.
pub record IsRead (f : Texts) : Type 0 where
  pub time_back : (t : ℕ) → f.fromisoformat (f.isoformat t) ≡ ok t
  pub same_text : (s : String) → f.str (text s) ≡ s

abbrev pub word : Action → String
word copy = "copy"
word move = "move"
word park = "park"
word delete = "delete"
word unsupported = ""

abbrev pub action_of : String → Action
action_of s =
    if s == "copy"
    then copy
    else if s == "move"
    then move
    else if s == "park"
    then park
    else if s == "delete"
    then delete
    else unsupported

abbrev or_null : Option String → Value
or_null none = null
or_null (some s) = text s

abbrev pub target_value : Option ReplayTarget → Value
target_value none = null
target_value (some t) = dict (
    field "type" (text t.type) (
      field "queue" (or_null t.queue)
        (field "exchange" (or_null t.exchange) (field "routing_key" (or_null t.routing_key) end))))

abbrev pub texts : List String → Values
texts [] = nil
texts (s ∷ ss) = cons (text s) (texts ss)

-- `_batch_to_payload`
unfoldable pub batch_to_payload : Texts → Batch → Payload
unfolding sorted
batch_to_payload f batch =
    ("id", text batch.id)
    ∷ ("source_queue", text batch.source_queue)
    ∷ ("action", text batch.action)
    ∷ ("operator_action", text (word batch.operator_action))
    ∷ ("target", target_value batch.target)
    ∷ ("fingerprints", list (texts (sorted batch.fingerprints)))
    ∷ ("message_count", int (pos batch.message_count))
    ∷ ("duplicate_fingerprints", int (pos batch.duplicate_fingerprints))
    ∷ ("sample_fingerprints", list (texts batch.sample_fingerprints))
    ∷ ("expires_at", text (f.isoformat batch.expires_at))
    ∷ ("scan_limit", int (pos batch.scan_limit))
    ∷ ("scope", list (cons (text batch.scope.environment) (cons (text batch.scope.vhost) nil)))
    ∷ []

-- `payload[k]`
abbrev item : Option Value → Result Value
item none = raise key_error
item (some v) = ok v

abbrev string_at : Texts → Payload → String → Result String
string_at f payload k = item (get payload k) >>= λ v. ok (f.str v)

-- `int(payload.get(k, 0))`; no count is negative.
abbrev count_of : Option Value → Result ℕ
count_of none = ok 0
count_of (some v) = to_int v >>= λ n. ok (pos_part n)

abbrev strs : Texts → Values → List String
strs f nil = []
strs f (cons v vs) = f.str v ∷ strs f vs

-- `[str(f) for f in payload.get(k, [])]`
abbrev strings_of : Texts → Option Value → Result (List String)
strings_of f none = ok []
strings_of f (some (list vs)) = ok (strs f vs)
strings_of f (some _) = raise type_error

-- An argument of `ReplayTarget(**target)` that may be `None`, as when it is left out.
abbrev optional : Option Value → Result (Option String)
optional none = ok none
optional (some null) = ok none
optional (some (text s)) = ok (some s)
optional (some _) = raise type_error

abbrev type_of : Option Value → Result String
type_of (some (text s)) = ok s
type_of _ = raise type_error

-- `ReplayTarget(**target) if isinstance(target, dict) else None`
abbrev target_of : Option Value → Result (Option ReplayTarget)
target_of (some (dict fields)) = do
  kind ← type_of (get (to_dict fields) "type")
  queue ← optional (get (to_dict fields) "queue")
  exchange ← optional (get (to_dict fields) "exchange")
  routing_key ← optional (get (to_dict fields) "routing_key")
  ok (some (record { type = kind; queue = queue; exchange = exchange; routing_key = routing_key }))
target_of _ = ok none

-- `tuple(payload.get("scope") or ("", ""))`
abbrev scope_of : Option Value → Result Scope
scope_of (some (list (cons (text environment) (cons (text vhost) nil)))) =
    ok (record { environment = environment; vhost = vhost })
scope_of none = ok (record { environment = ""; vhost = "" })
scope_of (some null) = ok (record { environment = ""; vhost = "" })
scope_of (some (list nil)) = ok (record { environment = ""; vhost = "" })
scope_of (some _) = raise type_error

-- `_batch_from_payload`
unfoldable pub batch_from_payload : Texts → Payload → Result Batch
unfolding get to_int
batch_from_payload f payload = do
  id ← string_at f payload "id"
  source_queue ← string_at f payload "source_queue"
  action ← string_at f payload "action"
  operator_action ← string_at f payload "operator_action"
  target ← target_of (get payload "target")
  fingerprints ← strings_of f (get payload "fingerprints")
  message_count ← count_of (get payload "message_count")
  duplicate_fingerprints ← count_of (get payload "duplicate_fingerprints")
  sample_fingerprints ← strings_of f (get payload "sample_fingerprints")
  expires ← string_at f payload "expires_at"
  expires_at ← f.fromisoformat expires
  scan_limit ← count_of (get payload "scan_limit")
  scope ← scope_of (get payload "scope")
  ok (record {
    id = id;
    source_queue = source_queue;
    action = action;
    operator_action = action_of operator_action;
    target = target;
    fingerprints = fingerprints;
    message_count = message_count;
    duplicate_fingerprints = duplicate_fingerprints;
    sample_fingerprints = sample_fingerprints;
    expires_at = expires_at;
    scan_limit = scan_limit;
    scope = scope;
  })

-- The batch with its set of fingerprints in order.
abbrev pub in_order : Batch → Batch
in_order batch = record batch { fingerprints = sorted batch.fingerprints }

action_of-word : (a : Action) → action_of (word a) ≡ a
action_of-word copy = refl
action_of-word move = refl
action_of-word park = refl
action_of-word delete = refl
action_of-word unsupported = refl

strs-texts : (f : Texts) → IsRead f → (ss : List String) → strs f (texts ss) ≡ ss
strs-texts f read [] = refl
strs-texts f read (s ∷ ss) = cc (read.same_text s, strs-texts f read ss)

optional-or_null : (s : Option String) → optional (some (or_null s)) ≡ ok s
optional-or_null none = refl
optional-or_null (some s) = refl

target_of-target_value : (t : Option ReplayTarget) → target_of (some (target_value t)) ≡ ok t
unfolding get
target_of-target_value none = refl
target_of-target_value (some t) =
    rw (optional-or_null t.queue, optional-or_null t.exchange, optional-or_null t.routing_key) refl

-- A batch is read back as it was written, its fingerprints in order.
pub batch_from_payload-batch_to_payload :
    (f : Texts)
    → IsRead f
    → (batch : Batch) → batch_from_payload f (batch_to_payload f batch) ≡ ok (in_order batch)
unfolding batch_from_payload batch_to_payload
batch_from_payload-batch_to_payload f read batch =
    rw
      (
        read.same_text batch.id,
        read.same_text batch.source_queue,
        read.same_text batch.action,
        read.same_text (word batch.operator_action),
        action_of-word batch.operator_action,
        target_of-target_value batch.target,
        strs-texts f read (sorted batch.fingerprints),
        strs-texts f read batch.sample_fingerprints,
        read.same_text (f.isoformat batch.expires_at),
        read.time_back batch.expires_at,
      )
      refl
