-- ===== src/Tests/Actions.antt =====
-- Scans and actions on the broker in memory.
use queuelens.Prelude.{◌≡◌, ◌≢◌, ◌⊎◌, refl, String, true, false, none, some, List, [], ◌∷◌, sorted}
use queuelens.Prelude.Int.{pos}
use queuelens.Value.{text, int}
use queuelens.Domain.XDeath.{deaths_header, parse_x_death}
use queuelens.Domain.Fingerprint.{message_fingerprint}
use queuelens.Failure.{ok, raise, out_of_fuel}
use queuelens.Domain.{queue_target, MessageRecord}
use queuelens.Broker.{Outgoing}
use queuelens.Broker.Log.{acked}
use queuelens.Broker.Exec.{
  declare_queue, ack, nack, publish, get_exchange, get_message, open_channel, close_channel,
}
use queuelens.Browser.{properties_of, depth, scan, fetch, to_record}
use queuelens.Browser.Fetching.{fetch_terminates}
use queuelens.Browser.Scanning.{Untouched, scan-Untouched}
use queuelens.Operator.{
  move, delete, operate, operate_on, matching, report, success, not_found, ensure_target, outgoing,
}
use queuelens.Operator.Bulk.{operate_bulk}
use queuelens.Operator.Results.{operate_bulk-names}
use queuelens.Operator.Spine.{PublishedFirst, operate_bulk_publishes_first}
use queuelens.Operator.Single.{OneAcked, operate-OneAcked}
use queuelens.Tests.Memory.{memory, hashing, message, plain, start, order}

abbrev three : List String
three = "two" ∷ "one" ∷ "gone" ∷ []

-- Moving the two messages and one that is not there.
moved :
    (operate_bulk hashing memory (order move) three start).0
    ≡ ok (report "gone" not_found ∷ report "one" success ∷ report "two" success ∷ [])
unfolding operate_bulk fetch declare_queue ack nack publish get_exchange get_message open_channel
    close_channel ensure_target sorted to_record message_fingerprint outgoing parse_x_death
moved = refl

operate_bulk-names_example : "gone" ∷ "one" ∷ "two" ∷ [] ≡ sorted three
operate_bulk-names_example = operate_bulk-names hashing memory (order move) three start _ moved

operate_bulk_publishes_first_example :
    PublishedFirst
      (queue_target (some "orders"))
      (operate_bulk hashing memory (order move) three start).1.log
operate_bulk_publishes_first_example =
    operate_bulk_publishes_first hashing memory (order move) (queue_target (some "orders")) three
      start refl refl tt

-- The log of that run does hold acknowledgements.
moved_acks :
    acked (operate_bulk hashing memory (order move) three start).1.log ≡ message 1 ∷ message 2 ∷ []
unfolding operate_bulk fetch declare_queue ack nack publish get_exchange get_message open_channel
    close_channel ensure_target sorted to_record message_fingerprint outgoing parse_x_death
moved_acks = refl

operate-OneAcked_example :
    let after = (operate hashing memory (order delete) "two" true start).1.log in
    (acked after ≡ []) ⊎ OneAcked hashing memory (order delete) "two" [] after
operate-OneAcked_example = operate-OneAcked hashing memory (order delete) "two" true start

deleted_acks : acked (operate hashing memory (order delete) "two" true start).1.log ≡ message 2 ∷ []
unfolding operate fetch declare_queue ack nack get_message open_channel close_channel to_record
    message_fingerprint parse_x_death matching operate_on
deleted_acks = refl

fetch_terminates_example :
    (fetch memory false "orders.dlq" 1 none 2 start).outcome ≢ raise out_of_fuel
fetch_terminates_example = fetch_terminates memory false "orders.dlq" 1 none 2 start

fetched_one : (fetch memory false "orders.dlq" 1 none 2 start).outcome ≡ ok (2, some depth)
unfolding fetch get_message
fetched_one = refl

scan-Untouched_example : Untouched [] (scan memory hashing true "orders.dlq" 10 none start).1
scan-Untouched_example = scan-Untouched memory hashing true "orders.dlq" 10 none start

abbrev dead : MessageRecord
dead = record {
  fingerprint = "one";
  source_queue = "orders.dlq";
  body = 1 ∷ [];
  headers = ("trace", text "t") ∷ (deaths_header, int (pos 2)) ∷ [];
  properties = properties_of plain;
  exchange = "";
  routing_key = "orders.dlq";
  redelivered = false;
  x_death = (("count", int (pos 1)) ∷ []) ∷ [];
}

abbrev copied : Outgoing
copied = record {
  body = 1 ∷ [];
  headers = ("trace", text "t") ∷ (deaths_header, int (pos 3)) ∷ ("x-by", text "u") ∷ [];
  properties = plain;
}
