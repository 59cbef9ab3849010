-- ===== src/Domain.antt =====
-- app/domain: the records that the services exchange (models.py), and its children XDeath
-- (xdeath.py) and Fingerprint (fingerprint.py).
pub mod XDeath
pub mod Fingerprint
use queuelens.Prelude.{
  ℕ, String, ◌≡◌, ◌↔◌, Bool, true, ◌&&◌, Option, none, List, ◌==◌, arith, Equality, Dict, string_eq,
  option_eq, option_beq_iff,
}
use queuelens.Value.{Value}

-- `ReplayTarget`
pub record ReplayTarget : Type 0 where
  pub type : String
  pub queue : Option String
  pub exchange : Option String
  pub routing_key : Option String

abbrev pub queue_target : Option String → ReplayTarget
queue_target q = record { type = "queue"; queue = q; exchange = none; routing_key = none }

abbrev pub target_beq : ReplayTarget → ReplayTarget → Bool
target_beq s t =
    (s.type == t.type)
    && (s.queue == t.queue)
    && (s.exchange == t.exchange)
    && (s.routing_key == t.routing_key)

pub target_beq_iff : (s t : ReplayTarget) → (target_beq s t ≡ true) ↔ (s ≡ t)
target_beq_iff s t = ground (
  arith,
  string_eq.agrees s.type t.type,
  option_beq_iff s.queue t.queue,
  option_beq_iff s.exchange t.exchange,
  option_beq_iff s.routing_key t.routing_key,
)

instance abbrev pub target_eq : Equality ReplayTarget
target_eq = record { test = target_beq; agrees = target_beq_iff }

-- The AMQP basic properties of a message, as they are sent: an expiration is in milliseconds.
pub record Properties : Type 0 where
  pub content_type : Option String
  pub content_encoding : Option String
  pub delivery_mode : Option ℕ
  pub priority : Option ℕ
  pub correlation_id : Option String
  pub reply_to : Option String
  pub expiration_ms : Option ℕ
  pub message_id : Option String
  pub timestamp : Option ℕ
  pub kind : Option String
  pub user_id : Option String
  pub app_id : Option String

-- The properties that a record keeps (`properties`, `content_type`, `correlation_id`, `message_id` and
-- `timestamp`). aio-pika hands an expiration over in seconds, a float: here in microseconds.
pub record RecordProperties : Type 0 where
  pub content_type : Option String
  pub content_encoding : Option String
  pub delivery_mode : Option ℕ
  pub priority : Option ℕ
  pub correlation_id : Option String
  pub reply_to : Option String
  pub expiration : Option ℕ
  pub message_id : Option String
  pub timestamp : Option ℕ
  pub kind : Option String
  pub user_id : Option String
  pub app_id : Option String

-- `MessageRecord`, less the decoded payload, which only the display reads.
pub record MessageRecord : Type 0 where
  pub fingerprint : String
  pub source_queue : String
  pub body : List ℕ
  pub headers : Dict String Value
  pub properties : RecordProperties
  pub exchange : String
  pub routing_key : String
  pub redelivered : Bool
  pub x_death : List (Dict String Value)
