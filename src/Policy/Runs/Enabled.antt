-- ===== src/Policy/Runs/Enabled.antt =====
-- Which policies stay enabled (app/application/replay_policies.py and the repository of policies).
use queuelens.Prelude.{
  ℕ, suc, ◌+◌, ◌<◌, ◌≡◌, sym, ◌∙◌, inl, inr, subst, Bool, true, false, not, ◌||◌, Option, none,
  some, [], ◌==◌, nat_eq, ltb, get, put, arith, Bool-cases, Option-cases,
}
use queuelens.Failure.{Failure, ok, raise}
use queuelens.Policy.Runs.{
  Row, Rows, Counts, Entry, after_run, with_enabled, update_enabled, is_failed, finish,
  pause_after_failed_runs,
}
use queuelens.Policy.Runs.Pausing.{
  finished_row, get-put_same, get-put_other, update_enabled-there, update_enabled-other,
  update_enabled-missing, finish-row, finish-other, finish-missing,
}

-- The rows that creating policies, finishing their runs and switching them on and off make, and how
-- many of the finishes raised.
pub data Reachable : ℕ → Rows → Type 0 where
  created : Reachable 0 []
  added :
      (n id : ℕ) (row : Row) (rows : Rows)
      → row.consecutive_failures ≡ 0
      → Reachable n rows
      → Reachable n (put rows id row)
  ran :
      (audit : Entry → Option Failure) (n id now : ℕ) (unreachable : Bool) (result : Counts)
      (rows : Rows)
      → (finish audit id now unreachable result rows).2 ≡ ok tt
      → Reachable n rows
      → Reachable n (finish audit id now unreachable result rows).0
  cut_short :
      (audit : Entry → Option Failure) (f : Failure) (n id now : ℕ) (unreachable : Bool)
      (result : Counts) (rows : Rows)
      → (finish audit id now unreachable result rows).2 ≡ raise f
      → Reachable n rows
      → Reachable (suc n) (finish audit id now unreachable result rows).0
  switched :
      (n id : ℕ) (enabled : Bool) (rows : Rows)
      → Reachable n rows
      → Reachable n (update_enabled id enabled rows)

abbrev Below : ℕ → Row → Type 0
Below n row = (not row.enabled || ltb row.consecutive_failures (3 + n)) ≡ true

finished_row-Below :
    (n now : ℕ) (failed_run : Bool) (row : Row)
    → Below n row
    → Below n (finished_row now failed_run row)
finished_row-Below n now failed_run row h = ground arith

after_run-Below :
    (n now : ℕ) (failed_run : Bool) (row : Row)
    → Below n row
    → Below (suc n) (after_run now failed_run row)
after_run-Below n now failed_run row h = ground (arith, h)

wider : (n : ℕ) (row : Row) → Below n row → Below (suc n) row
wider n row h = ground (arith, h)

with_enabled-Below :
    (n : ℕ) (enabled : Bool) (row : Row) → Below n row → Below n (with_enabled enabled row)
with_enabled-Below n true row h = ground arith
with_enabled-Below n false row h = ground arith

-- A step from rows that are below one limit to rows below another: it changes one row into such a
-- one, or none.
record Step (n m id : ℕ) (before after : Rows) : Type 0 where
  kept : (row : Row) → Below n row → Below m row
  others : (j : ℕ) → (id == j) ≡ false → get after j ≡ get before j
  missing : get before id ≡ none → (row : Row) → get after id ≡ some row → Below m row
  there :
      (old : Row)
      → get before id ≡ some old
      → Below n old
      → (row : Row) → get after id ≡ some row
      → Below m row

some-Below :
    (n : ℕ) (o : Option Row) (r row : Row) → o ≡ some r → o ≡ some row → Below n r → Below n row
some-Below n o r row e f h = cc (e, f, h)

Step-Below :
    (n m id : ℕ) (before after : Rows)
    → Step n m id before after
    → ((j : ℕ) (row : Row) → get before j ≡ some row → Below n row)
    → (j : ℕ) (row : Row) → get after j ≡ some row
    → Below m row
Step-Below n m id before after step h j row e = elim (Bool-cases (id == j)) [
  | inr other ↦ step.kept row (h j row (sym (step.others j other) ∙ e))
  | inl same ↦
      let e' : get after id ≡ some row =
        subst (λ k. get after k ≡ some row) (sym ((nat_eq.agrees id j).0 same)) e in
      elim (Option-cases (get before id)) [
        | inl gone ↦ step.missing gone row e'
        | inr (old, found) ↦ step.there old found (h id old found) row e'
      ]
]

ran-Step :
    (audit : Entry → Option Failure) (n id now : ℕ) (unreachable : Bool) (result : Counts)
    (rows : Rows)
    → (finish audit id now unreachable result rows).2 ≡ ok tt
    → Step n n id rows (finish audit id now unreachable result rows).0
ran-Step audit n id now unreachable result rows returns = record {
  kept = λ row h. h;
  others = λ j other. finish-other audit id j now unreachable result rows other;
  missing = λ gone row e. cc (finish-missing audit id now unreachable result rows gone, gone, e);
  there = λ old found below row e.
      elim (finish-row audit id now unreachable result rows old found) [
        | inr (made, raises) ↦ absurd (raises returns)
        | inl made ↦
            some-Below n _ (finished_row now (is_failed unreachable result) old) row made e
              (finished_row-Below n now (is_failed unreachable result) old below)
      ];
}

cut_short-Step :
    (audit : Entry → Option Failure) (n id now : ℕ) (unreachable : Bool) (result : Counts)
    (rows : Rows)
    → Step n (suc n) id rows (finish audit id now unreachable result rows).0
cut_short-Step audit n id now unreachable result rows = record {
  kept = wider n;
  others = λ j other. finish-other audit id j now unreachable result rows other;
  missing = λ gone row e. cc (finish-missing audit id now unreachable result rows gone, gone, e);
  there = λ old found below row e.
      elim (finish-row audit id now unreachable result rows old found) [
        | inr (made, raises) ↦
            some-Below (suc n) _ (after_run now (is_failed unreachable result) old) row made e
              (after_run-Below n now (is_failed unreachable result) old below)
        | inl made ↦
            some-Below (suc n) _ (finished_row now (is_failed unreachable result) old) row made e (
              wider n (finished_row now (is_failed unreachable result) old)
                (finished_row-Below n now (is_failed unreachable result) old below))
      ];
}

Reachable-Below :
    (n : ℕ) (rows : Rows)
    → Reachable n rows
    → (j : ℕ) (row : Row) → get rows j ≡ some row
    → Below n row
unfolding get
Reachable-Below _ _ created = λ j row e. cc e
Reachable-Below _ _ (added n id new rows fresh r) =
    Step-Below n n id rows (put rows id new)
      (record {
        kept = λ row h. h;
        others = λ j other. get-put_other rows id j new other;
        missing = λ gone row e.
            some-Below n _ new row (get-put_same rows id new) e (ground (arith, fresh));
        there = λ old found below row e.
            some-Below n _ new row (get-put_same rows id new) e (ground (arith, fresh));
      })
      (Reachable-Below n rows r)
Reachable-Below _ _ (ran audit n id now unreachable result rows returns r) =
    Step-Below n n id rows (finish audit id now unreachable result rows).0
      (ran-Step audit n id now unreachable result rows returns) (Reachable-Below n rows r)
Reachable-Below _ _ (cut_short audit f n id now unreachable result rows raises r) =
    Step-Below n (suc n) id rows (finish audit id now unreachable result rows).0
      (cut_short-Step audit n id now unreachable result rows) (Reachable-Below n rows r)
Reachable-Below _ _ (switched n id enabled rows r) =
    Step-Below n n id rows (update_enabled id enabled rows)
      (record {
        kept = λ row h. h;
        others = λ j other. update_enabled-other id j enabled rows other;
        missing = λ gone row e. cc (update_enabled-missing id enabled rows gone, gone, e);
        there = λ old found below row e.
            some-Below n _ (with_enabled enabled old) row
              (update_enabled-there id enabled rows old found) e
              (with_enabled-Below n enabled old below);
      })
      (Reachable-Below n rows r)

-- A policy that is enabled has had fewer failed runs in a row than three and as many more as finishes
-- have raised because the audit log failed: fewer than three where none has. That holds whatever
-- policies were created, whichever runs finished and whoever switched policies on and off before.
pub enabled_below_limit :
    (n : ℕ) (rows : Rows) (id : ℕ) (row : Row)
    → Reachable n rows
    → get rows id ≡ some row
    → row.enabled ≡ true
    → row.consecutive_failures < pause_after_failed_runs + n
enabled_below_limit n rows id row r there on =
    let below = Reachable-Below n rows r id row there in ground (arith, below, on)
