-- ===== src/Broker/Laws.antt =====
-- The documented behaviour of aio-pika that theorems about settled messages rely on: a message is
-- processed once its ack or nack has returned, and stays so whatever is called afterwards.
use queuelens.Prelude.{String, Bool, true, false, ◌≡◌, ◌==◌, nat_eq, some}
use queuelens.Broker.{Broker, Delivery, Outgoing, answer}

pub record Laws (b : Broker) : Type 0 where
  pub ack_settles :
      (d : Delivery) (s : b.S) → (b.ack d s).0 ≡ answer tt → b.processed d (b.ack d s).1 ≡ true
  pub nack_settles :
      (d : Delivery) (s : b.S) → (b.nack d s).0 ≡ answer tt → b.processed d (b.nack d s).1 ≡ true
  pub ack_keeps :
      (m d : Delivery) (s : b.S) → b.processed m s ≡ true → b.processed m (b.ack d s).1 ≡ true
  pub nack_keeps :
      (m d : Delivery) (s : b.S) → b.processed m s ≡ true → b.processed m (b.nack d s).1 ≡ true
  pub publish_keeps :
      (m : Delivery) (o : Outgoing) (x key : String) (s : b.S)
      → b.processed m s ≡ true
      → b.processed m (b.publish o x key s).1 ≡ true
  pub get_exchange_keeps :
      (m : Delivery) (x : String) (ensure : Bool) (s : b.S)
      → b.processed m s ≡ true
      → b.processed m (b.get_exchange x ensure s).1 ≡ true
  pub close_keeps :
      (m : Delivery) (s : b.S) → b.processed m s ≡ true → b.processed m (b.close_channel s).1 ≡ true

-- The documented behaviour that theorems about giving messages back rely on: a message is not processed
-- when `basic.get` delivers it, `basic.get` settles none, and a nack settles the one with its delivery
-- tag.
pub record Fresh (b : Broker) : Type 0 where
  pub get_open :
      (d : Delivery) (q : String) (s : b.S)
      → (b.get_message q s).0 ≡ answer (some d)
      → b.processed d (b.get_message q s).1 ≡ false
  pub get_settles_none :
      (m : Delivery) (q : String) (s : b.S)
      → b.processed m s ≡ false
      → b.processed m (b.get_message q s).1 ≡ false
  pub nack_settles_one :
      (m d : Delivery) (s : b.S)
      → (m.tag == d.tag) ≡ false
      → b.processed m s ≡ false
      → b.processed m (b.nack d s).1 ≡ false
