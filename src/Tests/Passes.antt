-- ===== src/Tests/Passes.antt =====
-- A pass of a policy, audited runs and shown messages.
use queuelens.Prelude.{
  ℕ, ◌≡◌, ◌≤◌, ◌+◌, ◌*◌, ◌⊎◌, refl, String, Bool, true, false, none, some, List, [], ◌∷◌, ◌++◌,
  string_eq, get, arith,
}
use queuelens.Prelude.Int.{pos}
use queuelens.Value.{Value, text, int, time, list, cons, nil, dict, field, end}
use queuelens.Failure.{Result, ok}
use queuelens.Broker.{Delivery, Outgoing}
use queuelens.Operator.{move}
use queuelens.Queues.Listing.{QueueInfo, Kind}
use queuelens.Audited.{Audit, Entry, Shop, execute_audited, started}
use queuelens.Audited.Trail.{Trail, execute_audited-Announced, execute_audited-Trail}
use queuelens.Policy.Plan.{minute}
use queuelens.Policy.Passes.{Policy, Tick, Pass, run}
use queuelens.Policy.Passes.Cap.{run-within_cap}
use queuelens.Policy.Passes.Preview.{run-preview}
use queuelens.Browser.Scanning.{Untouched}
use queuelens.Policy.Passes.{summed}
use queuelens.Operator.{report, success, Report}
use queuelens.Bulk.{Executed, summarise}
use queuelens.Browser.{to_record}
use queuelens.Domain.{MessageRecord}
use queuelens.Prelude.{Dict, merge}
use queuelens.Actions.{annotated}
use queuelens.Actions.Provenance.{replayed_by, outgoing-Marked}
use queuelens.Broker.Exec.{declare_queue, get_message, nack, ack, publish, get_exchange}
use queuelens.Browser.{requeue, fetch}
use queuelens.Policy.Plan.{classify, retry, last_death, backoff, settle, add_replay}
use queuelens.Domain.XDeath.{deaths, parse_x_death}
use queuelens.Domain.Fingerprint.{message_fingerprint}
use queuelens.Prelude.Int.{◌+ℤ◌}
use queuelens.Operator.{ensure_target, outgoing}
use queuelens.Bulk.{batch_of}
use queuelens.Tests.Memory.{hashing, message}
use queuelens.Tests.Shelf.{shelf, stocked}
use queuelens.Tests.Batches.{settings, production, batch}

-- An audit log that takes everything.
abbrev ledger : Audit
ledger = record { S = ℕ; record_entry = λ e n. (none, n) }

abbrev dead : ℕ → Delivery
dead n = record (message n) {
  headers =
      (
        "x-death",
        list (
            cons
              (dict (
                field "count" (int (pos 1)) (
                  field "time" (time (90 * minute))
                    (field "queue" (text "orders") (field "exchange" (text "") end)))))
              nil),
      )
      ∷ [];
}

abbrev shop : Shop hashing shelf settings production ledger
shop = record {
  batches = [];
  world = stocked (dead 1 ∷ dead 2 ∷ []);
  book = record { state = 0; trail = [] };
}

abbrev policy : Policy
policy = record {
  queue = "orders.dlq";
  max_deaths = 3;
  backoff_minutes = 5;
  cap = 1;
  username = "policy:retry";
}

abbrev ticks : ℕ → Tick
ticks n = record { token = "token"; dry_run_at = 100; execute_at = 101; stamp = "now" }

abbrev consumed : String → Result QueueInfo
consumed q = ok (record {
  name = q;
  vhost = "/";
  messages = 0;
  messages_ready = 0;
  messages_unacked = 0;
  consumers = 1;
  durable = true;
  arguments = [];
  is_dlq = false;
  kind = Kind.normal;
  delivery_limit = none;
})

abbrev passing : Bool → Result Pass × Shop hashing shelf settings production ledger
passing preview =
    run hashing shelf settings production ledger policy ticks [] (λ q. ok false) consumed 10 5
      (100 * minute) preview shop

abbrev passed : Pass
passed = record {
  scanned = 2;
  waiting = 0;
  no_history = 0;
  no_target = 0;
  capped = 1;
  replayed = 1;
  parked = 0;
  failed = 0;
  skipped_no_consumers = 0;
  to_park = 0;
  targets =
      (
        "orders",
        summed (record {
          fingerprints_requested = 1;
          succeeded = 1;
          failed = 0;
          skipped_duplicates = 0;
          not_found = 0;
          not_attempted = 0;
        }),
      )
      ∷ [];
  errors = [];
}

passes : (passing false).0 ≡ ok passed
unfolding run declare_queue requeue fetch get_message nack classify deaths to_record parse_x_death
    ◌+ℤ◌ retry last_death backoff settle add_replay ensure_target message_fingerprint ack publish
    get_exchange batch_of outgoing
passes = refl

run-within_cap_example : (1 + 0 + 0 + 0 ≤ 1) × (1 + 0 + 0 + 0 ≤ 5)
run-within_cap_example =
    run-within_cap hashing shelf settings production ledger policy ticks [] (λ q. ok false) consumed
      10 5 (100 * minute) false shop passed (λ n. omega arith) passes

run-preview_example :
    Untouched [] (passing true).1.world
    × ((passing true).1.batches ≡ [])
    × ((passing true).1.book ≡ shop.book)
run-preview_example =
    run-preview hashing shelf settings production ledger policy ticks [] (λ q. ok false) consumed 10
      5 (100 * minute) shop

abbrev stored : Shop hashing shelf settings production ledger
stored = record {
  batches = ("token", batch) ∷ [];
  world = stocked (message 1 ∷ message 2 ∷ []);
  book = record { state = 0; trail = [] };
}

abbrev audited : Result Executed × Shop hashing shelf settings production ledger
audited =
    execute_audited hashing shelf settings production ledger "ann" "token" [] "now" 200
      (λ q. ok false) stored

abbrev results : List Report
results = report "one" success ∷ report "two" success ∷ []

abbrev done : Executed
done = record { batch = batch; summary = summarise batch results; results = results }

deletes : audited.0 ≡ ok done
unfolding execute_audited batch_of declare_queue fetch get_message to_record message_fingerprint ack
deletes = refl

execute_audited-Announced_example :
    ((audited.1.batches ≡ stored.batches) × (audited.1.world ≡ stored.world))
    ⊎ ((rest : List Entry) × (audited.1.book.trail ≡ [] ++ started "ann" "token" batch ∷ rest))
unfolding get
execute_audited-Announced_example =
    execute_audited-Announced hashing shelf settings production ledger "ann" "token" [] "now" 200
      (λ q. ok false) batch stored refl

execute_audited-Trail_example : Trail "ann" "token" batch done [] audited.1.book.trail
unfolding get
execute_audited-Trail_example =
    execute_audited-Trail hashing shelf settings production ledger "ann" "token" [] "now" 200
      (λ q. ok false) batch stored done refl deletes

-- A replay's marks, on a message that claims to have been replayed by somebody else.
abbrev forged : Dict String Value
forged = ("x-queuelens-replayed-by", text "nobody") ∷ ("team", text "billing") ∷ []

abbrev replayed_message : MessageRecord
replayed_message = to_record hashing "orders.dlq" (message 1)

abbrev marked : Outgoing
marked = record {
  body = replayed_message.body;
  headers = merge replayed_message.headers (annotated forged move "orders.dlq" "ann" "now" "one");
  properties = (message 1).properties;
}

outgoing-Marked_example : get marked.headers "x-queuelens-replayed-by" ≡ some (text "ann")
unfolding outgoing to_record
outgoing-Marked_example =
    outgoing-Marked replayed_message forged move "orders.dlq" "ann" "now" "one"
      "x-queuelens-replayed-by" (text "ann") false marked refl refl (replayed_by move (λ same. cc))
