-- ===== src/Broker.antt =====
-- The message broker as the code sees it through aio-pika, which is not part of the program: a
-- parameter, a state with one operation for each call. A `World` is that state with the calls made so
-- far, the latest first; an action of the program is a function of `Exec` (Broker/Exec).
pub mod Exec
pub mod Log
pub mod Laws
pub mod Keeps
use queuelens.Prelude.{ℕ, String, Bool, Option, List, Dict}
use queuelens.Value.{Value}
use queuelens.Failure.{Fault, Result}
use queuelens.Domain.{Properties}

-- `AbstractIncomingMessage`; the delivery tag stands for the object's identity.
pub record Delivery : Type 0 where
  pub tag : ℕ
  pub body : List ℕ
  pub headers : Dict String Value
  pub properties : Properties
  pub exchange : String
  pub routing_key : String
  pub redelivered : Bool

-- `Message`, as it is published.
pub record Outgoing : Type 0 where
  pub body : List ℕ
  pub headers : Dict String Value
  pub properties : Properties

-- A call of aio-pika returns, or raises.
pub data Answer (A : Type 0) : Type 0 where
  answer : A → Answer A
  fault : Fault → Answer A

pub record Broker : Type 1 where
  pub S : Type 0
  -- entering and leaving `RabbitMQConnection.channel`
  pub open_channel : S → Answer (Unit {0}) × S
  pub close_channel : S → Answer (Unit {0}) × S
  -- `declare_queue(name, passive=…)`: the messages that are ready
  pub declare_queue : String → Bool → S → Answer ℕ × S
  -- `get_exchange(name, ensure=…)`
  pub get_exchange : String → Bool → S → Answer (Unit {0}) × S
  -- `queue.get(no_ack=False, fail=False)`
  pub get_message : String → S → Answer (Option Delivery) × S
  -- `exchange.publish(message, routing_key=…)`; the default exchange is ""
  pub publish : Outgoing → String → String → S → Answer (Unit {0}) × S
  pub ack : Delivery → S → Answer (Unit {0}) × S
  -- `nack(requeue=True)`
  pub nack : Delivery → S → Answer (Unit {0}) × S
  -- `message.processed`
  pub processed : Delivery → S → Bool

-- The calls, each with how it ended.
pub data Event : Type 0 where
  opens : Result (Unit {0}) → Event
  closes : Result (Unit {0}) → Event
  declares : String → Bool → Result ℕ → Event
  looks_up : String → Bool → Result (Unit {0}) → Event
  gets : Result (Option Delivery) → Event
  publishes : Outgoing → String → String → Result (Unit {0}) → Event
  acks : Delivery → Result (Unit {0}) → Event
  nacks : Delivery → Result (Unit {0}) → Event

pub record World (b : Broker) : Type 0 where
  pub state : b.S
  pub log : List Event
