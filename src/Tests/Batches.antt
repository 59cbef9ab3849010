-- ===== src/Tests/Batches.antt =====
-- Runs of the bulk service on the broker in memory.
use queuelens.Prelude.{◌≡◌, refl, false, none, [], ◌∷◌, map, sorted}
use queuelens.Failure.{Result, ok, raise, unknown_bulk_batch}
use queuelens.Broker.{World}
use queuelens.Broker.Exec.{declare_queue, ack, nack, get_message, open_channel, close_channel}
use queuelens.Domain.XDeath.{parse_x_death}
use queuelens.Domain.Fingerprint.{message_fingerprint}
use queuelens.Browser.{to_record, fetch, requeue}
use queuelens.Operator.{delete, report, success}
use queuelens.Snapshots.{Scope}
use queuelens.Bulk.{
  Settings, Request, Batch, Batches, Executed, batch_of, dry_run, execute, summarise,
}
use queuelens.Bulk.Approval.{Approved}
use queuelens.Bulk.DryRuns.{dry_run-Approved}
use queuelens.Bulk.Summaries.{Done, execute-Done}
use queuelens.Bulk.Tokens.{execute_once}
use queuelens.Tests.Memory.{memory, hashing, message, start}

abbrev pub settings : Settings
settings = record { replay_targets = []; max_bulk_size = 500; bulk_dry_run_ttl = 600 }

abbrev pub production : Scope
production = record { environment = "prod"; vhost = "/" }

abbrev pub request : Request
request = record {
  source_queue = "orders.dlq";
  action = "delete";
  mode = delete;
  target = none;
  payload_contains = [];
  selected_fingerprints = none;
  max_bulk = none;
  scan_limit = none;
  depth = none;
}

abbrev pub batch : Batch
batch =
    batch_of settings production request (delete, none) "token" 100 false
      (map (to_record hashing "orders.dlq") (message 1 ∷ message 2 ∷ []))

abbrev ran : Result Batch × Batches × World memory
ran = dry_run hashing memory settings production request "token" 100 (ok false) [] start

approves : ran ≡ (ok batch, ran.1, ran.2)
unfolding dry_run declare_queue requeue fetch get_message nack
approves = refl

dry_run-Approved_example :
    Approved hashing settings production request "token" 100 (ok false) [] start batch ran.1 ran.2
dry_run-Approved_example =
    dry_run-Approved hashing memory settings production request "token" 100 (ok false) [] ran.1
      start ran.2 batch approves

-- The broker hands the same messages out again.
abbrev executing : Result Executed × Batches × World memory
executing =
    execute hashing memory settings production "token" [] 200 (λ queue. ok false) ran.1 start

abbrev outcome : Executed
outcome =
    let results = report "one" success ∷ report "two" success ∷ [] in
    record { batch = batch; summary = summarise batch results; results = results }

executes : executing ≡ (ok outcome, executing.1, executing.2)
unfolding execute dry_run requeue fetch declare_queue ack nack get_message open_channel
    close_channel sorted to_record message_fingerprint parse_x_death
executes = refl

execute-Done_example : Done production 200 "token" ran.1 outcome
execute-Done_example =
    execute-Done hashing memory settings production "token" [] 200 (λ queue. ok false) ran.1
      executing.1 start executing.2 outcome executes

execute_once_example :
    ((execute hashing memory settings production "token" [] 300
        (λ queue. ok false)
        executing.1
        executing.2).0
      ≡ raise unknown_bulk_batch)
    × ((execute hashing memory settings production "token" [] 300
          (λ queue. ok false)
          executing.1
          executing.2).2
        ≡ executing.2)
execute_once_example =
    execute_once hashing memory settings production "token" [] [] 200 300 (λ queue. ok false) ran.1
      start executing.2
