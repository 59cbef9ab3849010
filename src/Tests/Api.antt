-- ===== src/Tests/Api.antt =====
-- Runs of the queue service, against fixed replies of the management API.
use queuelens.Prelude.{
  ◌≡◌, refl, String, true, none, some, List, [], ◌∷◌, ℕ, Dict, nat_eq, string_eq, option_eq,
}
use queuelens.Prelude.Int.{pos, negsuc}
use queuelens.Value.{Value, text, int}
use queuelens.Failure.{ok}
use queuelens.Queues.{RawQueue, Management, delivery_limit, assert_browsable, is_quorum}
use queuelens.Queues.Limits.{Limits}
use queuelens.Queues.Guard.{Answered, assert_browsable-Answered}
use queuelens.Queues.Lowest.{Effective, delivery_limit-Effective}
use queuelens.Queues.Listing.{QueueInfo, dlq, list_queues}
use queuelens.Queues.Order.{Listed, list_queues-Listed}

abbrev raw_queue : String → String → Dict String Value → ℕ → RawQueue
raw_queue name type arguments messages = record {
  name = name;
  vhost = none;
  type = some type;
  arguments = arguments;
  policy = [];
  messages = some messages;
  messages_ready = none;
  messages_unacknowledged = none;
  message_bytes_ready = some 1000;
  consumers = none;
  durable = some true;
}

abbrev unlimited : RawQueue
unlimited = raw_queue "orders.dlq" "quorum" (("x-delivery-limit", int (negsuc 0)) ∷ []) 3

abbrev limited : RawQueue
limited =
    raw_queue "orders" "quorum"
      (("x-delivery-limit", int (pos 7))
        ∷ ("x-dead-letter-exchange", text "")
        ∷ ("x-dead-letter-routing-key", text "failed")
        ∷ [])
      1

abbrev plain : RawQueue
plain = raw_queue "failed" "classic" [] 9

abbrev api : Management
api = record { get_queue = λ name. ok unlimited; overview = ok (some "4.1.8") }

browsable : assert_browsable api "orders.dlq" none ≡ (ok true, some "4.1.8")
unfolding assert_browsable is_quorum delivery_limit
browsable = refl

assert_browsable-Answered_example : Answered true (ok unlimited) (some "4.1.8")
assert_browsable-Answered_example =
    assert_browsable-Answered api "orders.dlq" none (some "4.1.8") true browsable

limit_of_seven : delivery_limit limited (some "4.1.8") ≡ ok (some (pos 7))
unfolding delivery_limit
limit_of_seven = refl

delivery_limit-Effective_example :
    (is_quorum limited ≡ true) × Limits limited (some "4.1.8") (Effective (pos 7))
delivery_limit-Effective_example =
    delivery_limit-Effective limited (some "4.1.8") (pos 7) limit_of_seven

abbrev row : String → ℕ → Dict String Value → QueueInfo
row name messages arguments = record {
  name = name;
  vhost = "/";
  messages = messages;
  messages_ready = 0;
  messages_unacked = 0;
  consumers = 0;
  durable = true;
  arguments = arguments;
  is_dlq = true;
  kind = dlq;
  delivery_limit = none;
}

abbrev shown : List QueueInfo
shown = row "failed" 9 [] ∷ row "orders.dlq" 3 unlimited.arguments ∷ []

listing :
    list_queues (λ s. s) api (ok (unlimited ∷ limited ∷ plain ∷ [])) true none
    ≡ (ok shown, some "4.1.8")
unfolding list_queues delivery_limit
listing = refl

list_queues-Listed_example :
    Listed (λ s. s) api (ok (unlimited ∷ limited ∷ plain ∷ [])) true none shown
list_queues-Listed_example =
    list_queues-Listed (λ s. s) api (ok (unlimited ∷ limited ∷ plain ∷ [])) true none (some "4.1.8")
      shown listing
