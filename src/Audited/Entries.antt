-- ===== src/Audited/Entries.antt =====
-- The audit entries of a bulk execution (app/application/bulk_runs.py), and the log that takes them.
use Prim.Native.String.{◌++◌ as joined}
use queuelens.Prelude.{
  ℕ, String, Option, none, some, List, [], ◌∷◌, ◌++◌, nat_eq, ◌==◌, if◌then◌else◌, string_eq,
  length,
}
use queuelens.Failure.{Failure}
use queuelens.Domain.{ReplayTarget}
use queuelens.Operator.{
  Action, copy, move, park, delete, unsupported, Status, success, not_found, skipped_duplicate,
  not_attempted, copied_not_removed, Report,
}
use queuelens.Bulk.{Batch, Summary}

-- An `AuditEntry`, with what it says of a batch.
pub record Entry : Type 0 where
  pub username : String
  pub action : String
  pub source_queue : Option String
  pub message_fingerprint : Option String
  pub target : Option ReplayTarget
  pub result : String
  pub error : Option Failure
  pub batch_id : String
  pub mode : Option Action
  pub fingerprints : Option ℕ
  pub summary : Option Summary

-- `AuditRepository.record`
pub record Audit : Type 1 where
  pub S : Type 0
  pub record_entry : Entry → S → Option Failure × S

-- The audit log, and the entries that it took, in order.
pub record Book (a : Audit) : Type 0 where
  pub state : a.S
  pub trail : List Entry

abbrev pub taken : {a : Audit} → Entry → Book a → Option Failure × a.S → Option Failure × Book a
taken e book (none, s) = (none, record { state = s; trail = book.trail ++ e ∷ [] })
taken e book (some f, s) = (some f, record book { state = s })

-- `await audit.record(…)`
unfoldable pub write : {a : Audit} → Entry → Book a → Option Failure × Book a
write {a} e book = taken e book (a.record_entry e book.state)

abbrev pub started : String → String → Batch → Entry
started username batch_id pending = record {
  username = username;
  action = joined "bulk_" pending.action;
  source_queue = some pending.source_queue;
  message_fingerprint = none;
  target = pending.target;
  result = "started";
  error = none;
  batch_id = batch_id;
  mode = some pending.operator_action;
  fingerprints = some (length pending.fingerprints);
  summary = none;
}

abbrev pub name_of : Option Batch → String
name_of none = "bulk"
name_of (some pending) = joined "bulk_" pending.action

abbrev pub of_batch : {A : Type 0} → (Batch → A) → Option Batch → Option A
of_batch f none = none
of_batch f (some pending) = some (f pending)

abbrev pub target_of : Option Batch → Option ReplayTarget
target_of none = none
target_of (some pending) = pending.target

-- The entry of an execution that raised.
abbrev pub broken : String → String → Option Batch → Failure → Entry
broken username batch_id pending e = record {
  username = username;
  action = name_of pending;
  source_queue = of_batch (λ p. p.source_queue) pending;
  message_fingerprint = none;
  target = target_of pending;
  result = "failed";
  error = some e;
  batch_id = batch_id;
  mode = of_batch (λ p. p.operator_action) pending;
  fingerprints = none;
  summary = none;
}

abbrev pub status_name : Status → String
status_name success = "success"
status_name not_found = "not_found"
status_name skipped_duplicate = "skipped_duplicate"
status_name not_attempted = "not_attempted"
status_name (queuelens.Operator.failed e) = "failed"
status_name (copied_not_removed e) = "failed"

abbrev pub error_of : Status → Option Failure
error_of (queuelens.Operator.failed e) = some e
error_of (copied_not_removed e) = some e
error_of _ = none

-- The entry of one message.
abbrev pub outcome_entry : String → String → Batch → Report → Entry
outcome_entry username batch_id batch r = record {
  username = username;
  action = batch.action;
  source_queue = some batch.source_queue;
  message_fingerprint = some r.fingerprint;
  target = none;
  result = status_name r.status;
  error = error_of r.status;
  batch_id = batch_id;
  mode = none;
  fingerprints = none;
  summary = none;
}

-- The entry of the batch.
abbrev pub closing : String → String → Batch → Summary → Entry
closing username batch_id batch summary = record {
  username = username;
  action = joined "bulk_" batch.action;
  source_queue = some batch.source_queue;
  message_fingerprint = none;
  target = batch.target;
  result = if summary.failed == 0 then "success" else "partial";
  error = none;
  batch_id = batch_id;
  mode = some batch.operator_action;
  fingerprints = none;
  summary = some summary;
}

-- One entry after the other: the first that fails ends it.
abbrev pub then_write :
    {a : Audit}
    → (Book a → Option Failure × Book a)
    → Option Failure × Book a
    → Option Failure × Book a
then_write rest (some f, book) = (some f, book)
then_write rest (none, book) = rest book

unfoldable pub write_all : {a : Audit} → List Entry → Book a → Option Failure × Book a
unfolding write
write_all [] book = (none, book)
write_all (e ∷ rest) book = then_write (write_all rest) (write e book)
