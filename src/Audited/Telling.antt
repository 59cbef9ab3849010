-- ===== src/Audited/Telling.antt =====
-- What the audit entries of a bulk execution have to say (app/application/bulk_runs.py), field by field.
use Prim.Native.String.{◌++◌ as joined}
use queuelens.Prelude.{
  ◌≡◌, ◌≢◌, refl, ◌⊎◌, inl, inr, String, ◌==◌, nat_eq, Option, none, some, List, [], ◌∷◌, map,
  length, arith, Bool-cases,
}
use queuelens.Failure.{Failure}
use queuelens.Operator.{
  Status, success, not_found, skipped_duplicate, not_attempted, copied_not_removed, Report,
}
use queuelens.Bulk.{Batch, Summary}
use queuelens.Audited.{Entry, started, outcome_entry, closing, status_name, error_of}

-- Who acted, on which batch, on which queue.
pub record IsOf (username batch_id : String) (batch : Batch) (e : Entry) : Type 0 where
  pub who : e.username ≡ username
  pub run : e.batch_id ≡ batch_id
  pub queue : e.source_queue ≡ some batch.source_queue

-- The entry that announces a batch.
pub record Opens (username batch_id : String) (pending : Batch) (e : Entry) : Type 0 where
  pub of : IsOf username batch_id pending e
  pub action : e.action ≡ joined "bulk_" pending.action
  pub target : e.target ≡ pending.target
  pub mode : e.mode ≡ some pending.operator_action
  pub count : e.fingerprints ≡ some (length pending.fingerprints)
  pub result : e.result ≡ "started"

-- The word for a message's status, and the exception that it shows.
pub data Named : Status → String → Option Failure → Type 0 where
  succeeded : Named success "success" none
  missing : Named not_found "not_found" none
  duplicate : Named skipped_duplicate "skipped_duplicate" none
  left : Named not_attempted "not_attempted" none
  fell : (f : Failure) → Named (queuelens.Operator.failed f) "failed" (some f)
  half_done : (f : Failure) → Named (copied_not_removed f) "failed" (some f)

-- The entry of one message.
pub record Tells (username batch_id : String) (batch : Batch) (r : Report) (e : Entry)
    : Type 0 where
  pub of : IsOf username batch_id batch e
  pub action : e.action ≡ batch.action
  pub about : e.message_fingerprint ≡ some r.fingerprint
  pub outcome : Named r.status e.result e.error

-- One entry for each message, in the order of the results.
pub data AllTold (username batch_id : String) (batch : Batch)
    : List Report → List Entry → Type 0 where
  all_told : AllTold username batch_id batch [] []
  then_told :
      (r : Report) (e : Entry) (rs : List Report) (es : List Entry)
      → Tells username batch_id batch r e
      → AllTold username batch_id batch rs es
      → AllTold username batch_id batch (r ∷ rs) (e ∷ es)

-- The entry of a whole batch.
pub record Closes (username batch_id : String) (batch : Batch) (summary : Summary) (e : Entry)
    : Type 0 where
  pub of : IsOf username batch_id batch e
  pub action : e.action ≡ joined "bulk_" batch.action
  pub target : e.target ≡ batch.target
  pub mode : e.mode ≡ some batch.operator_action
  pub counts : e.summary ≡ some summary
  pub result :
      ((summary.failed ≡ 0) × (e.result ≡ "success"))
      ⊎ ((summary.failed ≢ 0) × (e.result ≡ "partial"))

pub started-Opens :
    (username batch_id : String) (pending : Batch)
    → Opens username batch_id pending (started username batch_id pending)
started-Opens username batch_id pending = record {
  of = record { who = refl; run = refl; queue = refl };
  action = refl;
  target = refl;
  mode = refl;
  count = refl;
  result = refl;
}

status_name-Named : (s : Status) → Named s (status_name s) (error_of s)
status_name-Named success = succeeded
status_name-Named not_found = missing
status_name-Named skipped_duplicate = duplicate
status_name-Named not_attempted = left
status_name-Named (queuelens.Operator.failed f) = fell f
status_name-Named (copied_not_removed f) = half_done f

pub outcome_entry-AllTold :
    (username batch_id : String) (batch : Batch) (rs : List Report)
    → AllTold username batch_id batch rs (map (outcome_entry username batch_id batch) rs)
outcome_entry-AllTold username batch_id batch [] = all_told
outcome_entry-AllTold username batch_id batch (r ∷ rs) =
    then_told r _ rs _
      (record {
        of = record { who = refl; run = refl; queue = refl };
        action = refl;
        about = refl;
        outcome = status_name-Named r.status;
      })
      (outcome_entry-AllTold username batch_id batch rs)

closing-result :
    (username batch_id : String) (batch : Batch) (summary : Summary)
    → ((summary.failed ≡ 0) × ((closing username batch_id batch summary).result ≡ "success"))
      ⊎ ((summary.failed ≢ 0) × ((closing username batch_id batch summary).result ≡ "partial"))
closing-result username batch_id batch summary = elim (Bool-cases (summary.failed == 0)) [
  | inl fine ↦ inl (ground arith, rw fine refl)
  | inr bad ↦ inr ((λ same. ground arith), rw bad refl)
]

pub closing-Closes :
    (username batch_id : String) (batch : Batch) (summary : Summary)
    → Closes username batch_id batch summary (closing username batch_id batch summary)
closing-Closes username batch_id batch summary = record {
  of = record { who = refl; run = refl; queue = refl };
  action = refl;
  target = refl;
  mode = refl;
  counts = refl;
  result = closing-result username batch_id batch summary;
}
