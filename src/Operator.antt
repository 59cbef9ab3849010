-- ===== src/Operator.antt =====
-- app/infrastructure/rabbitmq/message_operator.py: replaying, parking and deleting messages. A text of
-- an error that the result shows is kept as the exception it is made from.
pub mod Bulk
pub mod Carrying
pub mod Publishing
pub mod Results
pub mod Keeping
pub mod Spine
pub mod Single
use queuelens.Prelude.{
  ℕ, String, Bool, true, false, not, ◌&&◌, ◌||◌, ◌+◌, ◌/◌, ◌%◌, ltb, Option, none, some, List, [],
  ◌∷◌, ◌++◌, map, ◌==◌, if◌then◌else◌, nat_eq, string_eq, filter, Dict, get, put, merge, length,
}
use queuelens.Value.{Value, text, int}
use queuelens.Failure.{
  Fault, Failure, Result, ok, raise, amqp, delivery_error, channel_invalid_state, value_error,
  lookup_error,
}
use queuelens.Domain.{MessageRecord, Properties, RecordProperties, ReplayTarget}
use queuelens.Domain.XDeath.{deaths, deaths_header}
use queuelens.Domain.Fingerprint.{Hashing}
use queuelens.Broker.{Broker, World, Delivery, Outgoing}
use queuelens.Broker.Exec.{
  Exec, pure, raising, lift, after, on_error, ◌>>=◌, ◌>>◌, ack, nack, publish, get_exchange,
  declare_queue, processed, with_channel,
}
use queuelens.Browser.{Fetched, fetch, requeue, to_record}

-- The actions by name; any other string is `unsupported`.
pub data Action : Type 0 where
  copy move park delete unsupported : Action

-- `action in {"copy", "move", "park"}`
abbrev pub publishes_copy : Action → Bool
publishes_copy copy = true
publishes_copy move = true
publishes_copy park = true
publishes_copy delete = false
publishes_copy unsupported = false

-- `action in {"move", "park", "delete"}`
abbrev pub removes : Action → Bool
removes copy = false
removes move = true
removes park = true
removes delete = true
removes unsupported = false

abbrev pub is_park : Action → Bool
is_park park = true
is_park _ = false

-- `not name`, for a name that may be missing
abbrev pub blank : Option String → Bool
blank none = true
blank (some s) = s == ""

-- The headers of a copy: `{**record.headers, **replay_headers}`, and the stamp.
abbrev stamp : Bool → MessageRecord → Dict String Value → Result (Dict String Value)
stamp false r headers = ok headers
stamp true r headers =
    queuelens.Failure.◌>>=◌ (deaths r.x_death r.headers)
      (λ n. ok (put headers deaths_header (int n)))

-- `round`, of thousandths: a half goes to the even number.
abbrev round : ℕ → ℕ
round n =
    if ltb (n % 1000) 500
    then n / 1000
    else if n % 1000 == 500 && n / 1000 % 2 == 0
    then n / 1000
    else n / 1000 + 1

-- `_milliseconds`
unfoldable pub milliseconds : Option ℕ → Option ℕ
milliseconds none = none
milliseconds (some microseconds) = some (round microseconds)

-- The properties of the `_Replay`, field by field: its expiration is `_milliseconds` of the record's.
abbrev pub replayed : RecordProperties → Properties
replayed p = record {
  content_type = p.content_type;
  content_encoding = p.content_encoding;
  delivery_mode = p.delivery_mode;
  priority = p.priority;
  correlation_id = p.correlation_id;
  reply_to = p.reply_to;
  expiration_ms = milliseconds p.expiration;
  message_id = p.message_id;
  timestamp = p.timestamp;
  kind = p.kind;
  user_id = p.user_id;
  app_id = p.app_id;
}

-- The message that `_publish` builds.
unfoldable pub outgoing : MessageRecord → Dict String Value → Bool → Result Outgoing
unfolding deaths put merge milliseconds
outgoing r replay_headers stamp_deaths =
    queuelens.Failure.◌>>=◌ (stamp stamp_deaths r (merge r.headers replay_headers)) λ headers.
      ok (record { body = r.body; headers = headers; properties = replayed r.properties })

-- The status of one message of a bulk action, with the exception that its error text describes.
pub data Status : Type 0 where
  success not_found skipped_duplicate not_attempted : Status
  failed : Failure → Status
  -- published, and the original could not be acknowledged
  copied_not_removed : Failure → Status

pub record Report : Type 0 where
  pub fingerprint : String
  pub status : Status

abbrev pub report : String → Status → Report
report fp s = record { fingerprint = fp; status = s }

-- `_halted`
unfoldable pub halted : String → Failure → Bool → Action → Report
halted fp e true copy = report fp success
halted fp e true action = report fp (copied_not_removed e)
halted fp e false action = report fp (failed e)

module _ (b : Broker) where
  ensure_queue : Bool → Option String → Exec b (Unit {0})
  ensure_queue create none = raising b value_error
  ensure_queue create (some q) =
      if q == ""
      then raising b value_error
      else ◌>>=◌ b (declare_queue b q (not create)) (λ n. pure b tt)

  ensure_exchange : Option String → Option String → Exec b (Unit {0})
  ensure_exchange (some x) (some key) =
      if x == "" then raising b value_error else get_exchange b x true
  ensure_exchange _ _ = raising b value_error

  -- `_ensure_target`
  unfoldable pub ensure_target : ReplayTarget → Bool → Exec b (Unit {0})
  unfolding ensure_queue ensure_exchange
  ensure_target t create =
      if t.type == "queue"
      then ensure_queue create t.queue
      else if t.type == "exchange"
      then ensure_exchange t.exchange t.routing_key
      else raising b value_error

  send_to_queue : Outgoing → Option String → Exec b (Unit {0})
  send_to_queue o none = raising b value_error
  send_to_queue o (some q) = if q == "" then raising b value_error else publish b o "" q

  send_to_exchange : Outgoing → Option String → Option String → Exec b (Unit {0})
  send_to_exchange o (some x) (some key) =
      if x == "" then raising b value_error else ◌>>◌ b (get_exchange b x false) (publish b o x key)
  send_to_exchange o _ _ = raising b value_error

  -- The end of `_publish`: where the message goes.
  unfoldable pub send : ReplayTarget → Outgoing → Exec b (Unit {0})
  unfolding send_to_queue send_to_exchange
  send t o =
      if t.type == "queue"
      then send_to_queue o t.queue
      else if t.type == "exchange"
      then send_to_exchange o t.exchange t.routing_key
      else raising b value_error

  -- `_publish`
  unfoldable pub publish_copy :
      MessageRecord → ReplayTarget → Dict String Value → Bool → Exec b (Unit {0})
  unfolding send
  publish_copy r t replay_headers stamp_deaths =
      ◌>>=◌ b (lift b (outgoing r replay_headers stamp_deaths)) (send t)

  -- `_requeue_unprocessed`: an invalid channel ends it quietly.
  abbrev pub after_nack :
      Exec b (Unit {0}) → Result (Unit {0}) × World b → Result (Unit {0}) × World b
  after_nack others (ok u, w) = others w
  after_nack others (raise (amqp (channel_invalid_state t)), w) = (ok tt, w)
  after_nack others (raise e, w) = (raise e, w)

  unfoldable pub requeue_unprocessed : List Delivery → Exec b (Unit {0})
  requeue_unprocessed [] w = (ok tt, w)
  requeue_unprocessed (m ∷ rest) w =
      let others : Exec b (Unit {0}) = requeue_unprocessed rest in
      if processed b m w then others w else after_nack others (nack b m w)

  -- What `operate` does about the message's copy: `except` for the ack, all that the publish needs.
  unfoldable pub deliver :
      Action → Option ReplayTarget → Dict String Value → Bool → MessageRecord → Exec b (Unit {0})
  unfolding publish_copy
  deliver action none headers stamp_deaths r =
      if publishes_copy action then raising b value_error else pure b tt
  deliver action (some t) headers stamp_deaths r =
      if publishes_copy action
      then ◌>>◌ b (ensure_target t (is_park action))
          (publish_copy r t headers (stamp_deaths && not (is_park action)))
      else pure b tt

  -- `ack`, `nack(requeue=True)` or ValueError, by the action.
  unfoldable pub settle : Action → Delivery → Exec b (Unit {0})
  settle copy m = nack b m
  settle unsupported m = raising b value_error
  settle _ m = ack b m

  -- What `operate` returns, less the history that it copies for display.
  pub record Operated : Type 0 where
    pub action : Action
    pub fingerprint : String
    pub target : Option ReplayTarget
    pub message_id : Option String

  -- The arguments that the two operations share.
  pub record Order : Type 0 where
    pub source_queue : String
    pub action : Action
    pub target : Option ReplayTarget
    pub replay_headers : Dict String Value
    pub max_scan : ℕ
    pub whole : Bool

-- The scanned messages with a fingerprint, in the order of the scan.
unfoldable pub matching : Hashing → String → String → List Delivery → List Delivery
matching h queue fp held = filter (λ d. (to_record h queue d).fingerprint == fp) held

module _ (h : Hashing) (b : Broker) where
  -- The part of `operate` behind the scan, for the one message found.
  unfoldable pub operate_on :
      Order b → String → Bool → List Delivery → Delivery → Exec b (Operated b)
  unfolding deliver settle requeue
  operate_on o fp stamp_deaths held m =
      ◌>>◌ b
        (deliver b o.action o.target o.replay_headers stamp_deaths (to_record h o.source_queue m))
        (◌>>◌ b (settle b o.action m) (
          ◌>>◌ b (requeue b held (some m)) (
            pure b (record {
              action = o.action;
              fingerprint = fp;
              target = o.target;
              message_id = m.properties.message_id;
            }))))

  -- `if len(matches) != 1: raise LookupError`
  abbrev pub operate_found :
      Order b → String → Bool → List Delivery → List Delivery → Exec b (Operated b)
  operate_found o fp stamp_deaths held (m ∷ []) = operate_on o fp stamp_deaths held m
  operate_found o fp stamp_deaths held _ = raising b lookup_error

  abbrev pub operate_fetched :
      Order b
      → String
      → Bool
      → List Delivery
      → Result (ℕ × Option queuelens.Browser.Stop)
      → Exec b (Operated b)
  operate_fetched o fp stamp_deaths held (raise e) = raising b e
  operate_fetched o fp stamp_deaths held (ok r) =
      operate_found o fp stamp_deaths held (matching h o.source_queue fp held)

  abbrev pub operate_scanned : Order b → String → Bool → Fetched b → Result (Operated b) × World b
  operate_scanned o fp stamp_deaths f =
      on_error b (requeue_unprocessed b f.held)
        (operate_fetched o fp stamp_deaths f.held f.outcome f.world)

  abbrev pub operate_declared :
      Order b → String → Bool → Result ℕ × World b → Result (Operated b) × World b
  operate_declared o fp stamp_deaths (raise e, w) =
      on_error b (requeue_unprocessed b []) (raise e, w)
  operate_declared o fp stamp_deaths (ok ready, w) =
      operate_scanned o fp stamp_deaths (fetch b o.whole o.source_queue o.max_scan none ready w)

  -- `MessageOperator.operate`, under the queue's lock.
  unfoldable pub operate : Order b → String → Bool → Exec b (Operated b)
  unfolding with_channel
  operate o fp stamp_deaths =
      with_channel b
        (λ w. operate_declared o fp stamp_deaths (declare_queue b o.source_queue true w))
