-- ===== src/Queues/Listing.antt =====
-- The list of queues (app/application/queue_service.py): which ones are dead-letter queues, their
-- status and their order. `str.lower` is a parameter, `lower`. A dead-letter routing key is a string,
-- as RabbitMQ wants it. The rate and the idle time, which are only shown, are left out.
use queuelens.Prelude.{
  ℕ, String, Bool, true, false, ◌&&◌, ◌||◌, Option, some, List, [], ◌∷◌, ◌++◌, ◌==◌, not,
  if◌then◌else◌, nat_eq, string_eq, ltb, leb, or_else, any, filter, contains, get, Dict,
}
use queuelens.Prelude.Int.{ℤ}
use queuelens.Value.{Value, text, codes}
use queuelens.Failure.{Result, ok, raise, ◌>>=◌}
use queuelens.Queues.{RawQueue, Management, version, delivery_limit}

-- `str.startswith`, `in` and `str.endswith`, on the characters' codes.
unfoldable pub starts_with : List ℕ → List ℕ → Bool
starts_with [] s = true
starts_with (c ∷ cs) [] = false
starts_with (c ∷ cs) (d ∷ s) = let rest = starts_with cs s in c == d && rest

unfoldable pub occurs : List ℕ → List ℕ → Bool
unfolding starts_with
occurs part [] = starts_with part []
occurs part (c ∷ s) = starts_with part (c ∷ s) || occurs part s

equal_codes : List ℕ → List ℕ → Bool
equal_codes [] [] = true
equal_codes (c ∷ cs) (d ∷ ds) = let rest = equal_codes cs ds in c == d && rest
equal_codes _ _ = false

unfoldable pub ends_with : List ℕ → List ℕ → Bool
unfolding equal_codes
ends_with part [] = equal_codes part []
ends_with part (c ∷ s) = equal_codes part (c ∷ s) || ends_with part s

-- `endswith((".parking", "_parking"))`
abbrev pub is_parking : String → Bool
is_parking s = ends_with (codes ".parking") (codes s) || ends_with (codes "_parking") (codes s)

abbrev has_token : String → String → Bool
has_token s token = occurs (codes token) (codes s)

pub data Kind : Type 0 where
  normal dlq retry parking : Kind

pub data Status : Type 0 where
  empty low warning attention in_parking active idle : Status

pub record QueueInfo : Type 0 where
  pub name : String
  pub vhost : String
  pub messages : ℕ
  pub messages_ready : ℕ
  pub messages_unacked : ℕ
  pub consumers : ℕ
  pub durable : Bool
  pub arguments : Dict String Value
  pub is_dlq : Bool
  pub kind : Kind
  pub delivery_limit : Option ℤ

-- `_severity`
unfoldable pub severity : ℕ → Status
severity messages =
    if messages == 0
    then empty
    else if leb messages 10
    then low
    else if leb messages 100
    then warning
    else attention

-- `_status`
unfoldable pub status : QueueInfo → Status
unfolding severity
status queue = elim queue.kind [
  | parking ↦ in_parking
  | _ ↦
      if queue.is_dlq
      then severity queue.messages
      else if ltb 0 queue.consumers
      then active
      else idle
]

abbrev dead_letter_key : RawQueue → Option Value → Option Value → List String
dead_letter_key raw (some (text exchange)) (some (text key)) =
    if exchange == "" && not (key == "") then key ∷ [] else []
dead_letter_key raw _ _ = []

-- `_dead_letter_targets`
unfoldable pub dead_letter_targets : List RawQueue → List String
unfolding get
dead_letter_targets [] = []
dead_letter_targets (raw ∷ rest) =
    dead_letter_key raw (get raw.arguments "x-dead-letter-exchange")
      (get raw.arguments "x-dead-letter-routing-key")
    ++ dead_letter_targets rest

-- `sort(key=messages, reverse=True)`, which keeps the order of equal ones.
unfoldable pub place : QueueInfo → List QueueInfo → List QueueInfo
place q [] = q ∷ []
place q (r ∷ rest) =
    let later = place q rest in if ltb q.messages r.messages then r ∷ later else q ∷ r ∷ rest

unfoldable pub riskiest_first : List QueueInfo → List QueueInfo
unfolding place
riskiest_first [] = []
riskiest_first (q ∷ rest) = place q (riskiest_first rest)

module _ (lower : String → String) where
  -- `_looks_like_dlq`
  unfoldable pub looks_like_dlq : String → List String → Bool
  unfolding occurs ends_with
  looks_like_dlq name targets =
      any (has_token (lower name)) (".dlq" ∷ "_dlq" ∷ "dead" ∷ [])
      || is_parking (lower name)
      || contains targets name

  -- `_classify`
  unfoldable pub classify : String → Kind
  unfolding occurs ends_with
  classify name =
      if is_parking (lower name)
      then parking
      else if has_token (lower name) "retry"
      then retry
      else dlq

  -- `_to_queue_info`
  unfoldable pub to_queue_info : RawQueue → List String → Option String → Result QueueInfo
  unfolding looks_like_dlq classify
  to_queue_info raw targets v = delivery_limit raw v >>= λ limit. ok (record {
    name = raw.name;
    vhost = or_else raw.vhost "/";
    messages = or_else raw.messages 0;
    messages_ready = or_else raw.messages_ready 0;
    messages_unacked = or_else raw.messages_unacknowledged 0;
    consumers = or_else raw.consumers 0;
    durable = or_else raw.durable false;
    arguments = raw.arguments;
    is_dlq = looks_like_dlq raw.name targets;
    kind = if looks_like_dlq raw.name targets then classify raw.name else normal;
    delivery_limit = limit;
  })

  unfoldable pub describe : List String → Option String → List RawQueue → Result (List QueueInfo)
  unfolding to_queue_info
  describe targets v [] = ok []
  describe targets v (raw ∷ rest) = do
    q ← to_queue_info raw targets v
    qs ← describe targets v rest
    ok (q ∷ qs)

  abbrev pub listed : Bool → List QueueInfo → List QueueInfo
  listed dlq_only queues =
      riskiest_first (if dlq_only then filter (λ q. q.is_dlq) queues else queues)

  -- `QueueService.list_queues`, from the API's list, and the version that the service keeps.
  unfoldable pub list_queues :
      Management
      → Result (List RawQueue)
      → Bool
      → Option String
      → Result (List QueueInfo) × Option String
  unfolding describe riskiest_first dead_letter_targets version
  list_queues api (raise e) dlq_only kept = (raise e, kept)
  list_queues api (ok raw_queues) dlq_only kept =
      let (v, after) = version api false kept in
      (
        (do
          known ← v
          queues ← describe (dead_letter_targets raw_queues) known raw_queues
          ok (listed dlq_only queues)),
        after,
      )
