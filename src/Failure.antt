-- ===== src/Failure.antt =====
-- The exceptions that the modelled code raises, catches and re-raises, and a call's result. The text
-- of an exception is kept only where the code reports it (Operator).
use queuelens.Prelude.{◌≡◌, refl, String, ℕ, Option}

-- What a call of aio-pika can raise: `DeliveryError`, `ChannelPreconditionFailed`,
-- `ChannelAccessRefused`, `ChannelInvalidStateError`, and any other exception.
pub data Fault : Type 0 where
  delivery_error : String → Fault
  precondition_failed : String → Fault
  access_refused : String → Fault
  channel_invalid_state : String → Fault
  connection_lost : String → Fault

pub data Failure : Type 0 where
  -- raised by the broker library
  amqp : Fault → Failure
  -- Python's own
  value_error : Failure
  type_error : Failure
  overflow_error : Failure
  lookup_error : Failure
  -- `UnsafeToBrowse`, `UnknownBulkBatch`, `RabbitMQManagementError` with its status code
  unsafe_to_browse : Failure
  unknown_bulk_batch : Failure
  management_error : Option ℕ → Failure
  -- `HTTPException` with its status code, and `KeyError`
  http : ℕ → Failure
  key_error : Failure
  -- SQLAlchemy's, for a primary key that is taken
  integrity_error : Failure
  -- no exception: the model's own sign that a loop met its fuel
  out_of_fuel : Failure

pub data Result {ℓ} (A : Type ℓ) : Type ℓ where
  ok : A → Result A
  raise : Failure → Result A

infixl 5 ◌>>=◌
abbrev pub ◌>>=◌ {ℓ κ} : {A : Type ℓ} {B : Type κ} → Result A → (A → Result B) → Result B
ok a >>= f = f a
raise e >>= f = raise e

-- How a call ended, with the equation that says so.
pub data Outcome {ℓ} {A : Type ℓ} (r : Result A) : Type ℓ where
  returned : (a : A) → r ≡ ok a → Outcome r
  raised : (e : Failure) → r ≡ raise e → Outcome r

pub Result-cases {ℓ} : {A : Type ℓ} (r : Result A) → Outcome r
Result-cases (ok a) = returned a refl
Result-cases (raise e) = raised e refl
