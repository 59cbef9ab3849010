-- ===== src/Tests/Pauses.antt =====
-- Runs of a replay policy that fail.
use queuelens.Prelude.{
  ℕ, ◌<◌, ◌≡◌, ◌≢◌, ◌⊎◌, Option, refl, Bool, true, false, none, some, [], ◌∷◌, nat_eq, get, put,
}
use queuelens.Policy.Runs.{Row, Rows, Counts, Entry, finish}
use queuelens.Failure.{Failure, ok, raise, type_error}
use queuelens.Policy.Runs.Pausing.{finish-counts}
use queuelens.Policy.Runs.Enabled.{created, added, ran, cut_short, enabled_below_limit}

abbrev row_with : Bool → ℕ → Row
row_with enabled failures = record {
  enabled = enabled;
  interval_minutes = 5;
  last_run_at = none;
  consecutive_failures = failures;
}

abbrev two_failures : Rows
two_failures = (1, row_with true 2) ∷ []

abbrev nothing : Counts
nothing = record { replayed = 0; parked = 0; failed = 0 }

two_failed : get two_failures 1 ≡ some (row_with true 2)
unfolding get
two_failed = refl

abbrev taken : Entry → Option Failure
taken e = none

finish-counts_example :
    let done = finish taken 1 60 true nothing two_failures in
    (after : Row) × (get done.0 1 ≡ some after)
    × (after.consecutive_failures ≡ 3)
    × ((after.enabled ≡ false) ⊎ ((done.2 ≢ ok tt) × (after.enabled ≡ true)))
finish-counts_example =
    finish-counts taken 1 60 true nothing two_failures (row_with true 2) two_failed

abbrev fresh : Rows
fresh = put [] 1 (row_with true 0)

abbrev failures : ℕ → Row
failures n = record {
  enabled = true;
  interval_minutes = 5;
  last_run_at = some 60;
  consecutive_failures = n;
}

-- Two failed runs, and a third whose audit entry is not taken: the policy stays enabled.
abbrev refused : Entry → Option Failure
refused e = some type_error

abbrev after_two : Rows
after_two = (finish taken 1 60 true nothing (finish taken 1 60 true nothing fresh).0).0

third : get (finish refused 1 60 true nothing after_two).0 1 ≡ some (failures 3)
unfolding finish get put
third = refl

first_returns : (finish taken 1 60 true nothing fresh).2 ≡ ok tt
unfolding finish get put
first_returns = refl

second_returns : (finish taken 1 60 true nothing (finish taken 1 60 true nothing fresh).0).2 ≡ ok tt
unfolding finish get put
second_returns = refl

third_raises : (finish refused 1 60 true nothing after_two).2 ≡ raise type_error
unfolding finish get put
third_raises = refl

enabled_below_limit_example : 3 < 4
enabled_below_limit_example =
    enabled_below_limit 1 (finish refused 1 60 true nothing after_two).0 1 (failures 3)
      (cut_short refused type_error 0 1 60 true nothing after_two third_raises (
        ran taken 0 1 60 true nothing (finish taken 1 60 true nothing fresh).0 second_returns (
          ran taken 0 1 60 true nothing fresh first_returns
            (added 0 1 (row_with true 0) [] refl created))))
      third refl
