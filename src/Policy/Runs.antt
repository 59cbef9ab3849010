-- ===== src/Policy/Runs.antt =====
-- `PolicyRunner._finish` and `run_due` of app/application/replay_policies.py, with `record_run` and
-- `update` of ReplayPolicyRepository (app/infrastructure/persistence/store.py): the count of failed
-- runs in a row, and the pause. A time is a number of microseconds. A policy's row keeps only the
-- fields that these operations read or write.
pub mod Pausing
pub mod Enabled
use queuelens.Prelude.{
  ℕ, suc, ◌+◌, ◌*◌, Bool, true, false, not, ◌&&◌, ◌||◌, Option, none, some, List, [], ◌∷◌, ◌++◌,
  if◌then◌else◌, nat_eq, ltb, leb, Dict, get, put, filter,
}
use queuelens.Failure.{Failure, Result, ok, raise}

-- `PAUSE_AFTER_FAILED_RUNS`
abbrev pub pause_after_failed_runs : ℕ
pause_after_failed_runs = 3

pub record Row : Type 0 where
  pub enabled : Bool
  pub interval_minutes : ℕ
  pub last_run_at : Option ℕ
  pub consecutive_failures : ℕ

abbrev pub Rows : Type 0
Rows = Dict ℕ Row

-- The counts of a run's result that `_finish` reads.
pub record Counts : Type 0 where
  pub replayed : ℕ
  pub parked : ℕ
  pub failed : ℕ

pub data Outcome : Type 0 where
  failed partial success : Outcome

-- The audit entries of a run, by policy.
pub data Entry : Type 0 where
  run_replay_policy : ℕ → Outcome → Entry
  pause_replay_policy : ℕ → ℕ → Entry

abbrev pub after_run : ℕ → Bool → Row → Row
after_run now failed_run row = record row {
  last_run_at = some now;
  consecutive_failures = if failed_run then suc row.consecutive_failures else 0;
}

abbrev pub recorded : ℕ → ℕ → Bool → Rows → Option Row → ℕ × Rows
recorded id now failed_run rows none = (0, rows)
recorded id now failed_run rows (some row) = (
  (after_run now failed_run row).consecutive_failures,
  put rows id (after_run now failed_run row),
)

-- `record_run`: the failed runs in a row, 0 for a policy that is gone.
unfoldable pub record_run : ℕ → ℕ → Bool → Rows → ℕ × Rows
record_run id now failed_run rows = recorded id now failed_run rows (get rows id)

-- `update(id, enabled=…)`: enabling starts the count over.
abbrev pub with_enabled : Bool → Row → Row
with_enabled true row = record row { enabled = true; consecutive_failures = 0 }
with_enabled false row = record row { enabled = false }

abbrev pub updated : ℕ → Bool → Rows → Option Row → Rows
updated id enabled rows none = rows
updated id enabled rows (some row) = put rows id (with_enabled enabled row)

unfoldable pub update_enabled : ℕ → Bool → Rows → Rows
update_enabled id enabled rows = updated id enabled rows (get rows id)

abbrev pub is_failed : Bool → Counts → Bool
is_failed unreachable result = unreachable || ltb 0 result.failed

abbrev pub has_moved : Counts → Bool
has_moved result = ltb 0 result.replayed || ltb 0 result.parked

abbrev pub outcome_of : Bool → Counts → Outcome
outcome_of unreachable result =
    if unreachable
    then Outcome.failed
    else if is_failed unreachable result
    then partial
    else success

-- A finish's rows, the audit entries that were taken, and how it ends.
abbrev pub Finished : Type 0
Finished = Rows × List Entry × Result (Unit {0})

-- `await audit_repository.record(…)`, and what comes after it: one that raises ends the finish.
abbrev pub logged : Option Failure → Entry → Rows → Finished → Finished
logged none e rows (later, entries, outcome) = (later, e ∷ entries, outcome)
logged (some f) e rows rest = (rows, [], raise f)

module _ (audit : Entry → Option Failure) where
  -- The pause, and the entry that `_notify_paused` begins with; the notification after it changes no
  -- policy.
  abbrev pub pause : ℕ → ℕ × Rows → Finished
  pause id (failed_runs, rows) =
      if leb pause_after_failed_runs failed_runs
      then (let off = update_enabled id false rows in
          let e = pause_replay_policy id failed_runs in logged (audit e) e off (off, [], ok tt))
      else (rows, [], ok tt)

  -- `_finish`. `audit` says which entries the audit log fails to take, and how.
  unfoldable pub finish : ℕ → ℕ → Bool → Counts → Rows → Finished
  unfolding record_run update_enabled
  finish id now unreachable result rows =
      let run = record_run id now (is_failed unreachable result) rows in
      let e = run_replay_policy id (outcome_of unreachable result) in
      if has_moved result || is_failed unreachable result
      then logged (audit e) e run.1 (pause id run)
      else pause id run

-- Which policies `run_due` runs.
unfoldable pub is_due : ℕ → Row → Bool
is_due now row = elim row.last_run_at [
  | none ↦ row.enabled
  | some last ↦ row.enabled && leb (last + row.interval_minutes * 60 * 1000000) now
]
