-- ===== src/Policy/Runs/Pausing.antt =====
-- A policy is paused after three failed runs in a row (app/application/replay_policies.py).
use queuelens.Prelude.{
  ℕ, suc, ◌≡◌, ◌≢◌, ◌⊎◌, List, [], Option, refl, ap, ◌∙◌, inl, inr, Bool, false, not, ◌&&◌, ◌||◌,
  none, some, ◌==◌, if◌then◌else◌, nat_eq, ltb, leb, get, put, get-put, beq_self, arith, Bool-cases,
  Option-cases,
}
use queuelens.Failure.{Failure, Result, ok}
use queuelens.Policy.Runs.{
  Row, Rows, Counts, Entry, run_replay_policy, pause_replay_policy, Finished, logged, outcome_of,
  has_moved, after_run, record_run, with_enabled, update_enabled, is_failed, pause, finish,
  pause_after_failed_runs,
}

-- What a finished run makes of its policy's row.
abbrev pub finished_row : ℕ → Bool → Row → Row
finished_row now failed_run row =
    if leb pause_after_failed_runs (after_run now failed_run row).consecutive_failures
    then with_enabled false (after_run now failed_run row)
    else after_run now failed_run row

pub get-put_same : (rows : Rows) (id : ℕ) (row : Row) → get (put rows id row) id ≡ some row
get-put_same rows id row = get-put rows id id row ∙ rw (beq_self id) refl

pub get-put_other :
    (rows : Rows) (id j : ℕ) (row : Row) → (id == j) ≡ false → get (put rows id row) j ≡ get rows j
get-put_other rows id j row other = get-put rows id j row ∙ rw other refl

record_run-there :
    (id now : ℕ) (failed_run : Bool) (rows : Rows) (row : Row)
    → get rows id ≡ some row
    → record_run id now failed_run rows ≡ (
      (after_run now failed_run row).consecutive_failures,
      put rows id (after_run now failed_run row),
    )
unfolding record_run
record_run-there id now failed_run rows row there = rw there refl

pub update_enabled-there :
    (id : ℕ) (enabled : Bool) (rows : Rows) (row : Row)
    → get rows id ≡ some row
    → get (update_enabled id enabled rows) id ≡ some (with_enabled enabled row)
unfolding update_enabled
update_enabled-there id enabled rows row there =
    rw there (get-put_same rows id (with_enabled enabled row))

logged-rows :
    (o : Option Failure) (e : Entry) (rows : Rows) (entries : List Entry)
    (outcome : Result (Unit {0}))
    → (logged o e rows (rows, entries, outcome)).0 ≡ rows
logged-rows none e rows entries outcome = refl
logged-rows (some f) e rows entries outcome = refl

-- The rows that a pause leaves, whether its entry is taken or not.
abbrev paused : ℕ → ℕ × Rows → Rows
paused id (n, rows) = if leb pause_after_failed_runs n then update_enabled id false rows else rows

pause-rows :
    (audit : Entry → Option Failure) (id n : ℕ) (rows : Rows)
    → (pause audit id (n, rows)).0 ≡ paused id (n, rows)
pause-rows audit id n rows = elim (Bool-cases (leb pause_after_failed_runs n)) [
  | inl enough ↦ rw enough (
      logged-rows (audit (pause_replay_policy id n)) (pause_replay_policy id n)
        (update_enabled id false rows) [] (ok tt))
  | inr few ↦ rw few refl
]

paused-row :
    (id n : ℕ) (rows : Rows) (row : Row)
    → get rows id ≡ some row
    → get (paused id (n, rows)) id
      ≡ some (if leb pause_after_failed_runs n then with_enabled false row else row)
paused-row id n rows row there = elim (Bool-cases (leb pause_after_failed_runs n)) [
  | inl enough ↦ rw enough (update_enabled-there id false rows row there)
  | inr few ↦ rw few there
]

-- A write that raised leaves the rows at hand; any other goes on.
logged-cases :
    (o : Option Failure) (e : Entry) (rows : Rows) (rest : Finished)
    → ((logged o e rows rest).0 ≡ rest.0)
      ⊎ (((logged o e rows rest).0 ≡ rows) × ((logged o e rows rest).2 ≢ ok tt))
logged-cases none e rows (later, entries, outcome) = inl refl
logged-cases (some f) e rows rest = inr (refl, λ same. cc same)

-- The rows after a finish: those of the pause, or those of the count alone, if it raised.
finish-rows :
    (audit : Entry → Option Failure) (id now : ℕ) (unreachable : Bool) (result : Counts)
    (rows : Rows)
    → let run = record_run id now (is_failed unreachable result) rows in
      let done = finish audit id now unreachable result rows in
      (done.0 ≡ paused id run) ⊎ ((done.0 ≡ run.1) × (done.2 ≢ ok tt))
unfolding finish
finish-rows audit id now unreachable result rows =
    let run = record_run id now (is_failed unreachable result) rows in
    let e = run_replay_policy id (outcome_of unreachable result) in
    elim (Bool-cases (has_moved result || is_failed unreachable result)) [
      | inr quiet ↦ rw quiet (inl (pause-rows audit id run.0 run.1))
      | inl told ↦ elim (logged-cases (audit e) e run.1 (pause audit id run)) [
        | inl on ↦ rw told (inl (on ∙ pause-rows audit id run.0 run.1))
        | inr (rows_at_hand, raises) ↦ rw told (inr (rows_at_hand, raises))
      ]
    ]

module _ (audit : Entry → Option Failure) where
  pub finish-row :
      (id now : ℕ) (unreachable : Bool) (result : Counts) (rows : Rows) (row : Row)
      → get rows id ≡ some row
      → let done = finish audit id now unreachable result rows in
        (get done.0 id ≡ some (finished_row now (is_failed unreachable result) row))
        ⊎ ((get done.0 id ≡ some (after_run now (is_failed unreachable result) row))
            × (done.2 ≢ ok tt))
  finish-row id now unreachable result rows row there =
      let f = is_failed unreachable result in
      let run = record_run-there id now f rows row there in
      let counted = get-put_same rows id (after_run now f row) in
      elim (finish-rows audit id now unreachable result rows) [
        | inl through ↦ inl (
            ap (λ r. get r id) through
            ∙ ap (λ p. get (paused id p) id) run
            ∙ paused-row id (after_run now f row).consecutive_failures
                (put rows id (after_run now f row)) (after_run now f row) counted)
        | inr (at_hand, raises) ↦
            inr (ap (λ r. get r id) at_hand ∙ ap (λ p. get p.1 id) run ∙ counted, raises)
      ]

row_counts :
    (now : ℕ) (failed_run : Bool) (row : Row)
    → (finished_row now failed_run row).consecutive_failures
      ≡ (if failed_run then suc row.consecutive_failures else 0)
row_counts now failed_run row = ground arith

row_enabled :
    (now : ℕ) (failed_run : Bool) (row : Row)
    → (finished_row now failed_run row).enabled
      ≡ (row.enabled && (not failed_run || ltb row.consecutive_failures 2))
row_enabled now failed_run row = ground arith

pub update_enabled-other :
    (id j : ℕ) (enabled : Bool) (rows : Rows)
    → (id == j) ≡ false
    → get (update_enabled id enabled rows) j ≡ get rows j
unfolding update_enabled
update_enabled-other id j enabled rows other = elim (Option-cases (get rows id)) [
  | inl missing ↦ rw missing refl
  | inr (row, there) ↦ rw there (get-put_other rows id j (with_enabled enabled row) other)
]

record_run-other :
    (id j now : ℕ) (failed_run : Bool) (rows : Rows)
    → (id == j) ≡ false
    → get (record_run id now failed_run rows).1 j ≡ get rows j
unfolding record_run
record_run-other id j now failed_run rows other = elim (Option-cases (get rows id)) [
  | inl missing ↦ rw missing refl
  | inr (row, there) ↦ rw there (get-put_other rows id j (after_run now failed_run row) other)
]

paused-other :
    (id j n : ℕ) (rows : Rows) → (id == j) ≡ false → get (paused id (n, rows)) j ≡ get rows j
paused-other id j n rows other = elim (Bool-cases (leb pause_after_failed_runs n)) [
  | inl enough ↦ rw enough (update_enabled-other id j false rows other)
  | inr few ↦ rw few refl
]

module _ (audit : Entry → Option Failure) where
  pub finish-other :
      (id j now : ℕ) (unreachable : Bool) (result : Counts) (rows : Rows)
      → (id == j) ≡ false
      → get (finish audit id now unreachable result rows).0 j ≡ get rows j
  finish-other id j now unreachable result rows other =
      let run = record_run id now (is_failed unreachable result) rows in
      let same = record_run-other id j now (is_failed unreachable result) rows other in
      elim (finish-rows audit id now unreachable result rows) [
        | inl through ↦ ap (λ r. get r j) through ∙ paused-other id j run.0 run.1 other ∙ same
        | inr (at_hand, raises) ↦ ap (λ r. get r j) at_hand ∙ same
      ]

pub update_enabled-missing :
    (id : ℕ) (enabled : Bool) (rows : Rows)
    → get rows id ≡ none
    → update_enabled id enabled rows ≡ rows
unfolding update_enabled
update_enabled-missing id enabled rows missing = rw missing refl

record_run-missing :
    (id now : ℕ) (failed_run : Bool) (rows : Rows)
    → get rows id ≡ none
    → record_run id now failed_run rows ≡ (0, rows)
unfolding record_run
record_run-missing id now failed_run rows missing = rw missing refl

pub finish-missing :
    (audit : Entry → Option Failure) (id now : ℕ) (unreachable : Bool) (result : Counts)
    (rows : Rows)
    → get rows id ≡ none
    → (finish audit id now unreachable result rows).0 ≡ rows
finish-missing audit id now unreachable result rows missing =
    let run = record_run-missing id now (is_failed unreachable result) rows missing in
    elim (finish-rows audit id now unreachable result rows) [
      | inl through ↦ through ∙ ap (λ p. paused id p) run
      | inr (at_hand, raises) ↦ at_hand ∙ ap (λ p. p.1) run
    ]

-- When a run of a policy finishes, a failed one (its broker could not be reached, or messages failed)
-- adds one to the policy's count and any other run sets it to 0, whatever audit entries the log takes;
-- and an enabled policy stays enabled unless the run failed and the two before it had, or else the
-- finish raised and left the policy as it was, enabled or not.
pub finish-counts :
    (audit : Entry → Option Failure) (id now : ℕ) (unreachable : Bool) (result : Counts)
    (rows : Rows) (row : Row)
    → get rows id ≡ some row
    → let done = finish audit id now unreachable result rows in
      (after : Row) × (get done.0 id ≡ some after)
      × (after.consecutive_failures
          ≡ (if is_failed unreachable result then suc row.consecutive_failures else 0))
      × ((after.enabled ≡ (
            row.enabled && (not (is_failed unreachable result) || ltb row.consecutive_failures 2)))
          ⊎ ((done.2 ≢ ok tt) × (after.enabled ≡ row.enabled)))
finish-counts audit id now unreachable result rows row there =
    let f = is_failed unreachable result in
    elim (finish-row audit id now unreachable result rows row there) [
      | inl made ↦ (finished_row now f row, made, row_counts now f row, inl (row_enabled now f row))
      | inr (made, raises) ↦ (after_run now f row, made, refl, inr (raises, refl))
    ]
