-- ===== src/Operator/Keeping.antt =====
-- What every call but a read and an ack keeps, the operator's actions without these keep too.
use queuelens.Prelude.{
  ℕ, String, inl, inr, Bool, true, false, not, ◌&&◌, Option, none, some, List, [], ◌∷◌, ◌++◌,
  Bool-cases, if◌then◌else◌, length, ltb, ◌==◌, nat_eq, string_eq, Dict, ◌+◌, zero, suc,
}
use queuelens.Value.{Value}
use queuelens.Failure.{Result, ok, raise, amqp, channel_invalid_state}
use queuelens.Domain.{ReplayTarget, MessageRecord}
use queuelens.Broker.{Broker, World, Delivery, Outgoing}
use queuelens.Broker.Exec.{
  Exec, pure, lift, nack, publish, get_exchange, declare_queue, get_message, open_channel,
  close_channel, processed,
}
use queuelens.Broker.Keeps.{Keeps, Keeps-bind}
use queuelens.Browser.{Fetched, fetch, fetch_loop, received, over_budget}
use queuelens.Operator.{
  ensure_target, ensure_queue, ensure_exchange, send, send_to_queue, send_to_exchange, publish_copy,
  outgoing, requeue_unprocessed, after_nack,
}

-- The calls that neither read nor acknowledge keep a property.
pub record KeptByCalls {b : Broker} (P : World b → Type 0) : Type 0 where
  pub by_open : Keeps P (open_channel b)
  pub by_close : Keeps P (close_channel b)
  pub by_declare : (q : String) (p : Bool) → Keeps P (declare_queue b q p)
  pub by_lookup : (x : String) (e : Bool) → Keeps P (get_exchange b x e)
  pub by_publish : (o : Outgoing) (x key : String) → Keeps P (publish b o x key)
  pub by_nack : (m : Delivery) → Keeps P (nack b m)

module _ {b : Broker} (P : World b → Type 0) (calls : KeptByCalls P) where
  pub Keeps-still : {A : Type 0} (r : Result A) → Keeps P (lift b r)
  Keeps-still r = record { at = λ w h. h }

  pub Keeps-if :
      {A : Type 0} (c : Bool) (m n : Exec b A)
      → Keeps P m
      → Keeps P n
      → Keeps P (if c then m else n)
  Keeps-if true m n km kn = km
  Keeps-if false m n km kn = kn

  received-keeps :
      (whole : Bool) (limit : ℕ) (max_bytes : Option ℕ) (ready : ℕ)
      (again : List Delivery → ℕ → World b → Fetched b) (held : List Delivery) (size : ℕ)
      (r : Result (Option Delivery) × World b)
      → ((held' : List Delivery) (size' : ℕ) (w : World b) → P w → P (again held' size' w).world)
      → P r.1
      → P (received b whole limit max_bytes ready again held size r).world
  unfolding received
  received-keeps whole limit max_bytes ready again held size (raise e, w) k h = h
  received-keeps whole limit max_bytes ready again held size (ok none, w) k h = h
  received-keeps whole limit max_bytes ready again held size (ok (some m), w) k h =
      elim (Bool-cases (ltb limit (length (held ++ m ∷ [])))) [
        | inl over ↦ rw over h
        | inr fits ↦ elim (Bool-cases (not whole && (length (held ++ m ∷ []) == limit))) [
          | inl full ↦ rw (fits, full) h
          | inr room ↦
              elim (Bool-cases (not whole && over_budget max_bytes (size + length m.body))) [
                | inl heavy ↦ rw (fits, room, heavy) h
                | inr light ↦ rw (fits, room, light) (k (held ++ m ∷ []) (size + length m.body) w h)
              ]
        ]
      ]

  fetch_loop-keeps :
      (fuel : ℕ) (whole : Bool) (q : String) (limit : ℕ) (max_bytes : Option ℕ) (ready : ℕ)
      (held : List Delivery) (size : ℕ) (w : World b)
      → Keeps P (get_message b q)
      → P w
      → P (fetch_loop b fuel whole q limit max_bytes ready held size w).world
  unfolding fetch_loop
  fetch_loop-keeps zero whole q limit max_bytes ready held size w g h = h
  fetch_loop-keeps (suc fuel) whole q limit max_bytes ready held size w g h =
      received-keeps whole limit max_bytes ready (fetch_loop b fuel whole q limit max_bytes ready)
        held size (get_message b q w)
        (λ held' size' w' h'.
          fetch_loop-keeps fuel whole q limit max_bytes ready held' size' w' g h')
        (g.at w h)

  pub fetch-keeps :
      (whole : Bool) (q : String) (limit : ℕ) (max_bytes : Option ℕ) (ready : ℕ) (w : World b)
      → Keeps P (get_message b q)
      → P w
      → P (fetch b whole q limit max_bytes ready w).world
  unfolding fetch
  fetch-keeps whole q limit max_bytes ready w g h = elim (Bool-cases (whole && ltb limit ready)) [
    | inl deep ↦ rw deep h
    | inr shallow ↦
        rw shallow (fetch_loop-keeps (suc limit) whole q limit max_bytes ready [] 0 w g h)
  ]

  ensure_queue-Keeps : (create : Bool) (q : Option String) → Keeps P (ensure_queue b create q)
  unfolding ensure_queue
  ensure_queue-Keeps create none = record { at = λ w h. h }
  ensure_queue-Keeps create (some q) =
      Keeps-if (q == "") _ _ (record { at = λ w h. h })
        (Keeps-bind P (declare_queue b q (not create)) (λ n. pure b tt)
          (calls.by_declare q (not create)) (λ n. record { at = λ w h. h }))

  ensure_exchange-Keeps : (x key : Option String) → Keeps P (ensure_exchange b x key)
  unfolding ensure_exchange
  ensure_exchange-Keeps none key = record { at = λ w h. h }
  ensure_exchange-Keeps (some x) none = record { at = λ w h. h }
  ensure_exchange-Keeps (some x) (some key) =
      Keeps-if (x == "") _ _ (record { at = λ w h. h }) (calls.by_lookup x true)

  pub ensure_target-Keeps : (t : ReplayTarget) (create : Bool) → Keeps P (ensure_target b t create)
  unfolding ensure_target
  ensure_target-Keeps t create =
      Keeps-if (t.type == "queue") _ _ (ensure_queue-Keeps create t.queue) (
        Keeps-if (t.type == "exchange") _ _ (ensure_exchange-Keeps t.exchange t.routing_key)
          (record { at = λ w h. h }))

  send_to_queue-Keeps : (o : Outgoing) (q : Option String) → Keeps P (send_to_queue b o q)
  unfolding send_to_queue
  send_to_queue-Keeps o none = record { at = λ w h. h }
  send_to_queue-Keeps o (some q) =
      Keeps-if (q == "") _ _ (record { at = λ w h. h }) (calls.by_publish o "" q)

  send_to_exchange-Keeps :
      (o : Outgoing) (x key : Option String) → Keeps P (send_to_exchange b o x key)
  unfolding send_to_exchange
  send_to_exchange-Keeps o none key = record { at = λ w h. h }
  send_to_exchange-Keeps o (some x) none = record { at = λ w h. h }
  send_to_exchange-Keeps o (some x) (some key) =
      Keeps-if (x == "") _ _ (record { at = λ w h. h })
        (Keeps-bind P (get_exchange b x false) (λ u. publish b o x key) (calls.by_lookup x false)
          (λ u. calls.by_publish o x key))

  send-Keeps : (t : ReplayTarget) (o : Outgoing) → Keeps P (send b t o)
  unfolding send
  send-Keeps t o = Keeps-if (t.type == "queue") _ _ (send_to_queue-Keeps o t.queue) (
      Keeps-if (t.type == "exchange") _ _ (send_to_exchange-Keeps o t.exchange t.routing_key)
        (record { at = λ w h. h }))

  pub publish_copy-Keeps :
      (r : MessageRecord) (t : ReplayTarget) (headers : Dict String Value) (stamp_deaths : Bool)
      → Keeps P (publish_copy b r t headers stamp_deaths)
  unfolding publish_copy
  publish_copy-Keeps r t headers stamp_deaths =
      Keeps-bind P (lift b (outgoing r headers stamp_deaths)) (send b t)
        (Keeps-still (outgoing r headers stamp_deaths)) (send-Keeps t)

  after_nack-keeps :
      (others : Exec b (Unit {0})) (r : Result (Unit {0}) × World b)
      → Keeps P others
      → P r.1
      → P (after_nack b others r).1
  after_nack-keeps others (ok u, w) k h = k.at w h
  after_nack-keeps others (raise (amqp (channel_invalid_state t)), w) k h = h
  after_nack-keeps others (raise e, w) k h = h

  pub requeue_unprocessed-Keeps : (ms : List Delivery) → Keeps P (requeue_unprocessed b ms)
  unfolding requeue_unprocessed
  requeue_unprocessed-Keeps [] = record { at = λ w h. h }
  requeue_unprocessed-Keeps (m ∷ rest) = record {
    at = λ w h. elim (Bool-cases (processed b m w)) [
      | inl done ↦ rw done ((requeue_unprocessed-Keeps rest).at w h)
      | inr held ↦ rw held (
          after_nack-keeps _ (nack b m w) (requeue_unprocessed-Keeps rest)
            ((calls.by_nack m).at w h))
    ];
  }
