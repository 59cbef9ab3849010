-- ===== src/Broker/Exec.antt =====
-- Actions: they make calls, and return or raise. What was done before an exception stays done.
use queuelens.Prelude.{ℕ, String, Bool, Option, ◌∷◌}
use queuelens.Failure.{Failure, Result, ok, raise, amqp}
use queuelens.Broker.{
  Delivery, Outgoing, Answer, answer, fault, Broker, Event, World, opens, closes, declares,
  looks_up, gets, publishes, acks, nacks,
}

abbrev pub to_result : {A : Type 0} → Answer A → Result A
to_result (answer a) = ok a
to_result (fault f) = raise (amqp f)

module _ (b : Broker) where
  abbrev pub Exec : Type 0 → Type 0
  Exec A = World b → Result A × World b

  abbrev pub pure : {A : Type 0} → A → Exec A
  pure a w = (ok a, w)

  abbrev pub raising : {A : Type 0} → Failure → Exec A
  raising e w = (raise e, w)

  abbrev pub lift : {A : Type 0} → Result A → Exec A
  lift r w = (r, w)

  -- One call of the library.
  abbrev call : {A : Type 0} → (Result A → Event) → Answer A × b.S → World b → Result A × World b
  call event (a, s) w = (to_result a, record { state = s; log = event (to_result a) ∷ w.log })

  unfoldable pub open_channel : Exec (Unit {0})
  open_channel w = call opens (b.open_channel w.state) w

  unfoldable pub close_channel : Exec (Unit {0})
  close_channel w = call closes (b.close_channel w.state) w

  unfoldable pub declare_queue : String → Bool → Exec ℕ
  declare_queue q passive w = call (declares q passive) (b.declare_queue q passive w.state) w

  unfoldable pub get_exchange : String → Bool → Exec (Unit {0})
  get_exchange x ensure w = call (looks_up x ensure) (b.get_exchange x ensure w.state) w

  unfoldable pub get_message : String → Exec (Option Delivery)
  get_message q w = call gets (b.get_message q w.state) w

  unfoldable pub publish : Outgoing → String → String → Exec (Unit {0})
  publish o x key w = call (publishes o x key) (b.publish o x key w.state) w

  unfoldable pub ack : Delivery → Exec (Unit {0})
  ack d w = call (acks d) (b.ack d w.state) w

  unfoldable pub nack : Delivery → Exec (Unit {0})
  nack d w = call (nacks d) (b.nack d w.state) w

  abbrev pub processed : Delivery → World b → Bool
  processed d w = b.processed d w.state

  abbrev pub after : {A B : Type 0} → (A → Exec B) → Result A × World b → Result B × World b
  after f (ok a, w) = f a w
  after f (raise e, w) = (raise e, w)

  infixl 5 ◌>>=◌ ◌>>◌
  abbrev pub ◌>>=◌ : {A B : Type 0} → Exec A → (A → Exec B) → Exec B
  ◌>>=◌ m f w = after f (m w)

  abbrev pub ◌>>◌ : {B : Type 0} → Exec (Unit {0}) → Exec B → Exec B
  m >> k = m >>= λ _. k

  -- `finally: cleanup`: an exception of the cleanup takes the place of what was on its way.
  abbrev pub finally_then :
      {A : Type 0} → Result A → Result (Unit {0}) × World b → Result A × World b
  finally_then r (ok _, w) = (r, w)
  finally_then r (raise e, w) = (raise e, w)

  abbrev pub finally_do : {A : Type 0} → Exec (Unit {0}) → Result A × World b → Result A × World b
  finally_do cleanup (r, w) = finally_then r (cleanup w)

  -- `except Exception: cleanup; raise`
  abbrev pub on_error : {A : Type 0} → Exec (Unit {0}) → Result A × World b → Result A × World b
  on_error cleanup (ok a, w) = (ok a, w)
  on_error cleanup (raise e, w) = finally_then (raise e) (cleanup w)

  -- `async with self._connection.channel()`
  unfoldable pub with_channel : {A : Type 0} → Exec A → Exec A
  unfolding open_channel close_channel
  with_channel body = open_channel >> λ w. finally_do close_channel (body w)
