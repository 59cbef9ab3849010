-- ===== src/Browser.antt =====
-- app/infrastructure/rabbitmq/message_browser.py: reading a queue by `basic.get` and putting every
-- message back. The decoding of payloads for display is not modelled.
pub mod Fetching
pub mod Settling
pub mod Returning
pub mod Scanning
use queuelens.Prelude.{
  ℕ, zero, suc, ◌+◌, ◌*◌, String, Bool, true, false, not, ◌&&◌, Option, none, some, List, [], ◌∷◌,
  ◌++◌, map, length, ltb, leb, ◌==◌, if◌then◌else◌, nat_eq, string_eq,
}
use queuelens.Failure.{Failure, Result, ok, raise, unsafe_to_browse, out_of_fuel}
use queuelens.Domain.{MessageRecord, Properties, RecordProperties}
use queuelens.Domain.XDeath.{parse_x_death}
use queuelens.Domain.Fingerprint.{Hashing, message_fingerprint}
use queuelens.Broker.{Broker, World, Delivery}
use queuelens.Broker.Exec.{
  Exec, pure, ◌>>=◌, ◌>>◌, get_message, nack, processed, declare_queue, with_channel, finally_do,
}

-- `SCAN_BYTES_BUDGET`
abbrev pub scan_bytes_budget : ℕ
scan_bytes_budget = 64 * 1024 * 1024

-- Why a scan stopped before the end of its queue.
pub data Stop : Type 0 where
  depth memory : Stop

-- `float(ms) / 1000`, by aio-pika
abbrev pub seconds : Option ℕ → Option ℕ
seconds none = none
seconds (some ms) = some (ms * 1000)

-- The properties that `_to_record` keeps.
abbrev pub properties_of : Properties → RecordProperties
properties_of p = record {
  content_type = p.content_type;
  content_encoding = p.content_encoding;
  delivery_mode = p.delivery_mode;
  priority = p.priority;
  correlation_id = p.correlation_id;
  reply_to = p.reply_to;
  expiration = seconds p.expiration_ms;
  message_id = p.message_id;
  timestamp = p.timestamp;
  kind = p.kind;
  user_id = p.user_id;
  app_id = p.app_id;
}

-- `MessageBrowser._to_record`, less the decoded payload.
unfoldable pub to_record : Hashing → String → Delivery → MessageRecord
to_record h queue d = record {
  fingerprint =
      message_fingerprint h queue d.body d.headers d.properties.message_id d.properties.timestamp
        d.exchange d.routing_key;
  source_queue = queue;
  body = d.body;
  headers = d.headers;
  properties = properties_of d.properties;
  exchange = d.exchange;
  routing_key = d.routing_key;
  redelivered = d.redelivered;
  x_death = parse_x_death d.headers;
}

-- `size >= max_bytes`, where there is a budget
abbrev pub over_budget : Option ℕ → ℕ → Bool
over_budget none size = false
over_budget (some m) size = leb m size

-- `message is keep`
abbrev pub is_kept : Option Delivery → Delivery → Bool
is_kept none m = false
is_kept (some k) m = m.tag == k.tag

module _ (b : Broker) where
  -- What `fetch` leaves: how it ended, and the caller's list of what was taken.
  pub record Fetched : Type 0 where
    pub outcome : Result (ℕ × Option Stop)
    pub held : List Delivery
    pub world : World b

  abbrev Continue : Type 0
  Continue = List Delivery → ℕ → World b → Fetched

  abbrev fetched : Result (ℕ × Option Stop) → List Delivery → World b → Fetched
  fetched r held w = record { outcome = r; held = held; world = w }

  -- The rest of the loop's body once `queue.get` has ended; `again` is the next round.
  unfoldable pub received :
      Bool
      → ℕ
      → Option ℕ
      → ℕ
      → Continue
      → List Delivery
      → ℕ
      → Result (Option Delivery) × World b
      → Fetched
  received whole limit max_bytes ready again held size (raise e, w) = fetched (raise e) held w
  received whole limit max_bytes ready again held size (ok none, w) =
      fetched (ok (ready, none)) held w
  received whole limit max_bytes ready again held size (ok (some m), w) =
      let held' = held ++ m ∷ [] in
      let size' = size + length m.body in
      if ltb limit (length held')
      then fetched (raise unsafe_to_browse) held' w
      else if not whole && (length held' == limit)
      then fetched (ok (ready, some depth)) held' w
      else if not whole && over_budget max_bytes size'
      then fetched (ok (ready, some memory)) held' w
      else again held' size' w

  -- `while True`, on fuel.
  unfoldable pub fetch_loop : ℕ → Bool → String → ℕ → Option ℕ → ℕ → Continue
  unfolding received
  fetch_loop zero whole queue limit max_bytes ready held size w = fetched (raise out_of_fuel) held w
  fetch_loop (suc fuel) whole queue limit max_bytes ready held size w =
      received whole limit max_bytes ready (fetch_loop fuel whole queue limit max_bytes ready) held
        size (get_message b queue w)

  -- `fetch`: `ready` is the count that the passive declaration answered.
  unfoldable pub fetch : Bool → String → ℕ → Option ℕ → ℕ → World b → Fetched
  unfolding fetch_loop
  fetch whole queue limit max_bytes ready w =
      if whole && ltb limit ready
      then fetched (raise unsafe_to_browse) [] w
      else fetch_loop (suc limit) whole queue limit max_bytes ready [] 0 w

  -- `requeue(messages, keep)`
  unfoldable pub requeue : List Delivery → Option Delivery → Exec b (Unit {0})
  requeue [] keep w = (ok tt, w)
  requeue (m ∷ rest) keep w =
      let others : Exec b (Unit {0}) = requeue rest keep in
      if not (is_kept keep m) && not (processed b m w) then ◌>>◌ b (nack b m) others w else others w

  -- `Scan`
  pub record Scan : Type 0 where
    pub records : List MessageRecord
    pub ready : ℕ
    pub stopped : Option Stop

  abbrev scan_of : Hashing → String → List Delivery → Result (ℕ × Option Stop) → Result Scan
  scan_of h queue held (raise e) = raise e
  scan_of h queue held (ok (ready, stopped)) =
      ok (record { records = map (to_record h queue) held; ready = ready; stopped = stopped })

  abbrev put_back : Hashing → String → Fetched → Result Scan × World b
  put_back h queue f =
      finally_do b (requeue f.held none) (scan_of h queue f.held f.outcome, f.world)

  abbrev scan_declared :
      Hashing → Bool → String → ℕ → Option ℕ → Result ℕ × World b → Result Scan × World b
  scan_declared h whole queue limit max_bytes (raise e, w) =
      finally_do b (requeue [] none) (raise e, w)
  scan_declared h whole queue limit max_bytes (ok ready, w) =
      put_back h queue (fetch whole queue limit max_bytes ready w)

  -- `MessageBrowser.scan`, under the queue's lock: nothing else reads the queue meanwhile.
  unfoldable pub scan : Hashing → Bool → String → ℕ → Option ℕ → Exec b Scan
  unfolding with_channel
  scan h whole queue limit max_bytes =
      with_channel b
        (λ w. scan_declared h whole queue limit max_bytes (declare_queue b queue true w))

  -- `MessageBrowser.list_messages`
  unfoldable pub list_messages : Hashing → Bool → String → ℕ → Exec b (List MessageRecord)
  unfolding scan
  list_messages h whole queue limit =
      ◌>>=◌ b (scan h whole queue limit none) (λ s. pure b s.records)
