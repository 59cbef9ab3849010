-- ===== src/Tests/Memory.antt =====
-- A broker in memory. It routes to the queues that it lists, keeps what is published, and settles a
-- message by its tag. It meets the laws that theorems assume of aio-pika.
use queuelens.Prelude.{
  ℕ, String, true, false, ◌≡◌, ◌||◌, Option, none, some, List, [], ◌∷◌, ◌++◌, contains, length,
  nat_eq, string_eq, ◌==◌, if◌then◌else◌, not, arith,
}
use queuelens.Failure.{delivery_error, precondition_failed}
use queuelens.Broker.{Broker, Delivery, Outgoing, Answer, answer, fault, World}
use queuelens.Broker.Laws.{Laws}
use queuelens.Value.{text}
use queuelens.Domain.{Properties, queue_target}
use queuelens.Domain.Fingerprint.{Hashing}
use queuelens.Operator.{Action, Order}

pub record Memory : Type 0 where
  pub queues : List String
  pub ready : List Delivery
  pub settled : List ℕ
  pub sent : List (String × Outgoing)

abbrev pub take_first : List Delivery → Memory → Answer (Option Delivery) × Memory
take_first [] s = (answer none, s)
take_first (d ∷ rest) s = (answer (some d), record s { ready = rest })

abbrev pub memory : Broker
memory = record {
  S = Memory;
  open_channel = λ s. (answer tt, s);
  close_channel = λ s. (answer tt, s);
  declare_queue = λ q passive s.
      if contains s.queues q || not passive
      then (answer (length s.ready), s)
      else (fault (precondition_failed q), s);
  get_exchange = λ x ensure s. (answer tt, s);
  get_message = λ q s. take_first s.ready s;
  publish = λ o x key s.
      if contains s.queues key
      then (answer tt, record s { sent = s.sent ++ (key, o) ∷ [] })
      else (fault (delivery_error key), s);
  ack = λ d s. (answer tt, record s { settled = d.tag ∷ s.settled });
  nack = λ d s. (answer tt, record s { settled = d.tag ∷ s.settled });
  processed = λ d s. contains s.settled d.tag;
}

kept :
    (m d : Delivery) (settled : List ℕ)
    → contains settled m.tag ≡ true
    → contains (d.tag ∷ settled) m.tag ≡ true
kept m d settled h = ground arith

pub memory-Laws : Laws memory
memory-Laws = record {
  ack_settles = λ d s e. ground (arith, nat_eq.agrees d.tag d.tag);
  nack_settles = λ d s e. ground (arith, nat_eq.agrees d.tag d.tag);
  ack_keeps = λ m d s h. kept m d s.settled h;
  nack_keeps = λ m d s h. kept m d s.settled h;
  publish_keeps = λ m o x key s h. ground arith;
  get_exchange_keeps = λ m x ensure s h. h;
  close_keeps = λ m s h. h;
}

-- A hash that tells the two messages below apart.
abbrev pub digest : List ℕ → String
digest [] = "empty"
digest (x ∷ rest) = if x == 1 then "one" else "two"

abbrev pub hashing : Hashing
hashing = record { sha256 = digest; dumps = λ i. if i.body == "one" then 1 ∷ [] else 2 ∷ [] }

abbrev pub plain : Properties
plain = record {
  content_type = none;
  content_encoding = none;
  delivery_mode = some 2;
  priority = none;
  correlation_id = none;
  reply_to = none;
  expiration_ms = some 1001;
  message_id = some "m";
  timestamp = none;
  kind = none;
  user_id = none;
  app_id = none;
}

abbrev pub message : ℕ → Delivery
message n = record {
  tag = n;
  body = n ∷ [];
  headers = ("trace", text "t") ∷ [];
  properties = plain;
  exchange = "";
  routing_key = "orders.dlq";
  redelivered = false;
}

abbrev pub holding : List Delivery → World memory
holding ready = record {
  state = record { queues = "orders.dlq" ∷ "orders" ∷ []; ready = ready; settled = []; sent = [] };
  log = [];
}

-- A queue that holds the messages 1 and 2.
abbrev pub start : World memory
start = holding (message 1 ∷ message 2 ∷ [])

abbrev pub order : Action → Order memory
order action = record {
  source_queue = "orders.dlq";
  action = action;
  target = some (queue_target (some "orders"));
  replay_headers = [];
  max_scan = 10;
  whole = true;
}
