-- ===== src/Operator/Carrying.antt =====
-- What a replay makes of a message's properties (app/infrastructure/rabbitmq/message_operator.py).
use queuelens.Prelude.{ℕ, ◌+◌, ◌*◌, ◌≤◌, ◌≡◌, refl, ap, Option, none, some, nat_eq, arith}
use queuelens.Domain.{Properties, RecordProperties}
use queuelens.Browser.{seconds, properties_of}
use queuelens.Operator.{milliseconds, replayed}

-- The expiration that is sent is the number of milliseconds nearest to the record's.
pub data Nearest : Option ℕ → Option ℕ → Type 0 where
  never : Nearest none none
  after :
      (microseconds ms : ℕ)
      → ms * 1000 ≤ microseconds + 500
      → microseconds ≤ ms * 1000 + 500
      → Nearest (some microseconds) (some ms)

milliseconds-Nearest : (o : Option ℕ) → Nearest o (milliseconds o)
unfolding milliseconds
milliseconds-Nearest none = never
milliseconds-Nearest (some n) = after n _ (ground arith) (ground arith)

-- The properties that are sent for those of a record.
pub record Carries (p : RecordProperties) (q : Properties) : Type 0 where
  pub content_type : q.content_type ≡ p.content_type
  pub content_encoding : q.content_encoding ≡ p.content_encoding
  pub delivery_mode : q.delivery_mode ≡ p.delivery_mode
  pub priority : q.priority ≡ p.priority
  pub correlation_id : q.correlation_id ≡ p.correlation_id
  pub reply_to : q.reply_to ≡ p.reply_to
  pub expiration : Nearest p.expiration q.expiration_ms
  pub message_id : q.message_id ≡ p.message_id
  pub timestamp : q.timestamp ≡ p.timestamp
  pub kind : q.kind ≡ p.kind
  pub user_id : q.user_id ≡ p.user_id
  pub app_id : q.app_id ≡ p.app_id

pub replayed-Carries : (p : RecordProperties) → Carries p (replayed p)
replayed-Carries p = record {
  content_type = refl;
  content_encoding = refl;
  delivery_mode = refl;
  priority = refl;
  correlation_id = refl;
  reply_to = refl;
  expiration = milliseconds-Nearest p.expiration;
  message_id = refl;
  timestamp = refl;
  kind = refl;
  user_id = refl;
  app_id = refl;
}

-- What aio-pika reads and `_milliseconds` writes.
milliseconds-seconds : (o : Option ℕ) → milliseconds (seconds o) ≡ o
unfolding milliseconds
milliseconds-seconds none = refl
milliseconds-seconds (some ms) = ap some (ground arith)

-- A message's own properties are sent again.
pub replayed-properties_of : (p : Properties) → replayed (properties_of p) ≡ p
replayed-properties_of p = rw (milliseconds-seconds p.expiration_ms) refl
