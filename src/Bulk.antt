-- ===== src/Bulk.antt =====
-- app/application/bulk_service.py: a dry run approves the messages that it saw, behind a token that an
-- execution spends once. The batches are those of the process's memory. Clock, token and the guard's
-- answer are arguments, and so is the payload filter's text, encoded.
pub mod Tokens
pub mod Repository
pub mod DryRuns
pub mod Approval
pub mod Summaries
mod Batching
unfoldable pub use Batching.*
use Prim.Native.String.{◌++◌ as joined}
use queuelens.Prelude.{
  ℕ, zero, suc, ◌+◌, String, Bool, true, false, not, ◌&&◌, Option, none, some, List, [], ◌∷◌, map,
  ◌==◌, if◌then◌else◌, nat_eq, string_eq, ltb, is_some, or_else, length, take, filter, contains,
  count, sorted, Dict, get, put, remove,
}
use queuelens.Value.{Value}
use queuelens.Failure.{Failure, Result, ok, raise, value_error, unknown_bulk_batch, ◌>>=◌}
use queuelens.Domain.{MessageRecord, ReplayTarget, queue_target}
use queuelens.Domain.Fingerprint.{Hashing}
use queuelens.Broker.{Broker, World}
use queuelens.Browser.{list_messages}
use queuelens.Operator.{
  Action, copy, move, park, delete, unsupported, Order, Report, Status, success, not_found,
  skipped_duplicate, not_attempted, failed, copied_not_removed,
}
use queuelens.Operator.Bulk.{operate_bulk}
use queuelens.Queues.Listing.{occurs}
use queuelens.Snapshots.{Scope, same_scope}

-- The summary of an execution.
pub record Summary : Type 0 where
  pub fingerprints_requested : ℕ
  pub succeeded : ℕ
  pub failed : ℕ
  pub skipped_duplicates : ℕ
  pub not_found : ℕ
  pub not_attempted : ℕ

abbrev pub is_success : Status → Bool
is_success success = true
is_success _ = false

-- Both kinds of failure have the status "failed".
abbrev pub is_failed : Status → Bool
is_failed (queuelens.Operator.failed e) = true
is_failed (copied_not_removed e) = true
is_failed _ = false

abbrev pub is_skipped : Status → Bool
is_skipped skipped_duplicate = true
is_skipped _ = false

abbrev pub is_not_found : Status → Bool
is_not_found queuelens.Operator.not_found = true
is_not_found _ = false

abbrev pub is_not_attempted : Status → Bool
is_not_attempted queuelens.Operator.not_attempted = true
is_not_attempted _ = false

-- `statuses.count(…)`
abbrev pub tally : (Status → Bool) → List Report → ℕ
tally p [] = 0
tally p (r ∷ rest) = let others = tally p rest in if p r.status then suc others else others

unfoldable pub summarise : Batch → List Report → Summary
summarise batch results = record {
  fingerprints_requested = length batch.fingerprints;
  succeeded = tally is_success results;
  failed = tally is_failed results;
  skipped_duplicates = tally is_skipped results;
  not_found = tally is_not_found results;
  not_attempted = tally is_not_attempted results;
}

pub record Executed : Type 0 where
  pub batch : Batch
  pub summary : Summary
  pub results : List Report

module _ (h : Hashing) (b : Broker) (s : Settings) (scope : Scope) where
  abbrev pub stored :
      Request
      → Action × Option ReplayTarget
      → String
      → ℕ
      → Bool
      → Batches
      → Result (List MessageRecord) × World b
      → Result Batch × Batches × World b
  stored r what token now whole batches (raise e, w) = (raise e, batches, w)
  stored r what token now whole batches (ok records, w) =
      let batch = batch_of s scope r what token now whole records in
      (ok batch, put batches token batch, w)

  abbrev pub scanned :
      Request
      → Action × Option ReplayTarget
      → String
      → ℕ
      → Result Bool
      → Batches
      → World b
      → Result Batch × Batches × World b
  scanned r what token now (raise e) batches w = (raise e, batches, w)
  scanned r what token now (ok whole) batches w =
      stored r what token now whole batches
        (list_messages b h whole r.source_queue (scan_limit s r whole) w)

  abbrev pub resolved :
      Request
      → String
      → ℕ
      → Result Bool
      → Batches
      → World b
      → Result (Action × Option ReplayTarget)
      → Result Batch × Batches × World b
  resolved r token now guard batches w (raise e) = (raise e, batches, w)
  resolved r token now guard batches w (ok what) = scanned r what token now guard batches w

  -- `dry_run`; what it returns describes the batch.
  unfoldable pub dry_run :
      Request → String → ℕ → Result Bool → Batches → World b → Result Batch × Batches × World b
  unfolding resolve batch_of list_messages put
  dry_run r token now guard batches w = resolved r token now guard batches w (resolve s r)

  abbrev pub order_of : Batch → Dict String Value → Bool → Order b
  order_of batch replay_headers whole = record {
    source_queue = batch.source_queue;
    action = batch.operator_action;
    target = batch.target;
    replay_headers = replay_headers;
    max_scan = nonzero_or (some batch.scan_limit) s.max_bulk_size;
    whole = whole;
  }

  abbrev pub finished :
      Batch → Batches → Result (List Report) × World b → Result Executed × Batches × World b
  finished batch kept (raise e, w) = (raise e, kept, w)
  finished batch kept (ok results, w) =
      (ok (record { batch = batch; summary = summarise batch results; results = results }), kept, w)

  abbrev pub guarded :
      Batch
      → Dict String Value
      → Batches
      → Result Bool
      → World b
      → Result Executed × Batches × World b
  guarded batch headers kept (raise e) w = (raise e, kept, w)
  guarded batch headers kept (ok whole) w =
      finished batch kept (operate_bulk h b (order_of batch headers whole) batch.fingerprints w)

  -- The token is spent whatever follows.
  abbrev pub spent :
      Dict String Value
      → (String → Result Bool)
      → Option Batch
      → Batches
      → World b
      → Result Executed × Batches × World b
  spent headers guard none kept w = (raise unknown_bulk_batch, kept, w)
  spent headers guard (some batch) kept w =
      if same_scope batch.scope scope
      then guarded batch headers kept (guard batch.source_queue) w
      else (raise unknown_bulk_batch, kept, w)

  -- `execute`, under the service's lock.
  unfoldable pub execute :
      String
      → Dict String Value
      → ℕ
      → (String → Result Bool)
      → Batches
      → World b
      → Result Executed × Batches × World b
  unfolding take_batch operate_bulk summarise
  execute id headers now guard batches w =
      let (batch, kept) = take_batch now id batches in spent headers guard batch kept w
