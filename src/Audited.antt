-- ===== src/Audited.antt =====
-- app/application/bulk_runs.py: executing a bulk batch with its audit trail. The audit log is a
-- parameter that may fail; an entry keeps its fields but times, durations and error texts.
pub mod Telling
pub mod Trail
pub mod Runs
mod Entries
unfoldable pub use Entries.*
use Prim.Native.String.{◌++◌ as joined}
use queuelens.Prelude.{
  ℕ, zero, suc, String, Bool, true, false, Option, none, some, List, [], ◌∷◌, ◌++◌, map, nat_eq,
  ◌==◌, if◌then◌else◌, string_eq, length, or_else, Dict, get, merge,
}
use queuelens.Value.{Value}
use queuelens.Failure.{Failure, Result, ok, raise, unknown_bulk_batch}
use queuelens.Domain.{ReplayTarget}
use queuelens.Domain.Fingerprint.{Hashing}
use queuelens.Broker.{Broker, World}
use queuelens.Operator.{
  Action, copy, move, park, delete, unsupported, Status, success, not_found, skipped_duplicate,
  not_attempted, copied_not_removed, Report,
}
use queuelens.Snapshots.{Scope}
use queuelens.Bulk.{Settings, Batch, Batches, Summary, Executed, execute}
use queuelens.Actions.{provenance_headers}

-- The headers of a batch's copies: the given ones under the provenance of the operator's action.
abbrev pub is_delete : Action → Bool
is_delete delete = true
is_delete _ = false

unfoldable pub batch_headers :
    Dict String Value → Option Batch → String → String → Dict String Value
unfolding merge
batch_headers headers none username now = headers
batch_headers headers (some pending) username now =
    if is_delete pending.operator_action
    then headers
    else merge headers
        (provenance_headers pending.operator_action pending.source_queue username now)

module _ (h : Hashing) (b : Broker) (s : Settings) (scope : Scope) (a : Audit) where
  -- What an execution may change.
  pub record Shop : Type 0 where
    pub batches : Batches
    pub world : World b
    pub book : Book a

  -- The entries after an execution that returned, and its result if they are all taken.
  abbrev pub closed :
      Executed → Batches → World b → Option Failure × Book a → Result Executed × Shop
  closed done kept w (none, book) = (ok done, record { batches = kept; world = w; book = book })
  closed done kept w (some f, book) = (raise f, record { batches = kept; world = w; book = book })

  abbrev pub entries_of : String → String → Executed → List Entry
  entries_of username batch_id done =
      map (outcome_entry username batch_id done.batch) done.results
      ++ closing username batch_id done.batch done.summary ∷ []

  -- An exception is re-raised behind its entry; `UnknownBulkBatch` leaves none.
  abbrev pub is_unknown : Failure → Bool
  is_unknown unknown_bulk_batch = true
  is_unknown _ = false

  abbrev pub reraised :
      Failure → Batches → World b → Option Failure × Book a → Result Executed × Shop
  reraised e kept w (none, book) = (raise e, record { batches = kept; world = w; book = book })
  reraised e kept w (some f, book) = (raise f, record { batches = kept; world = w; book = book })

  abbrev pub executed :
      String
      → String
      → Option Batch
      → Book a
      → Result Executed × Batches × World b
      → Result Executed × Shop
  executed username batch_id pending book (ok done, kept, w) =
      closed done kept w (write_all (entries_of username batch_id done) book)
  executed username batch_id pending book (raise e, kept, w) =
      if is_unknown e
      then (raise e, record { batches = kept; world = w; book = book })
      else reraised e kept w (write (broken username batch_id pending e) book)

  -- What follows the peek.
  abbrev pub attempted :
      String
      → String
      → Dict String Value
      → String
      → ℕ
      → (String → Result Bool)
      → Option Batch
      → Shop
      → Option Failure × Book a
      → Result Executed × Shop
  attempted username batch_id headers stamp now guard pending shop (some f, book) =
      (raise f, record shop { book = book })
  attempted username batch_id headers stamp now guard pending shop (none, book) =
      executed username batch_id pending book (
        execute h b s scope batch_id (batch_headers headers pending username stamp) now guard
          shop.batches shop.world)

  abbrev pub announced : String → String → Option Batch → Book a → Option Failure × Book a
  announced username batch_id none book = (none, book)
  announced username batch_id (some pending) book = write (started username batch_id pending) book

  -- `execute_audited`; `stamp` is the time as text.
  unfoldable pub execute_audited :
      String
      → String
      → Dict String Value
      → String
      → ℕ
      → (String → Result Bool)
      → Shop
      → Result Executed × Shop
  unfolding get write write_all batch_headers execute
  execute_audited username batch_id headers stamp now guard shop =
      let pending = get shop.batches batch_id in
      attempted username batch_id headers stamp now guard pending shop
        (announced username batch_id pending shop.book)
