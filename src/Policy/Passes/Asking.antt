-- ===== src/Policy/Passes/Asking.antt =====
-- What a pass of app/application/replay_policies.py starts from, and whom it asks for consumers.
use Prim.Native.String.{◌++◌ as joined}
use queuelens.Prelude.{
  ℕ, zero, suc, String, Bool, true, false, Option, none, some, List, [], ◌∷◌, ◌++◌, ◌==◌,
  if◌then◌else◌, nat_eq, string_eq, leb, length, or_else, Dict, get, put,
}
use queuelens.Failure.{Failure, Result, ok, raise}
use queuelens.Domain.{ReplayTarget, target_eq}
use queuelens.Operator.{blank}
use queuelens.Queues.Listing.{QueueInfo}
use queuelens.Bulk.{Summary, nonzero_or}
use queuelens.Policy.Plan.{Plan}

-- The fields of a policy that a run reads.
pub record Policy : Type 0 where
  pub queue : String
  pub max_deaths : ℕ
  pub backoff_minutes : ℕ
  pub cap : ℕ
  pub username : String

-- What a bulk action takes from outside: its token, its clocks and its time as text.
pub record Tick : Type 0 where
  pub token : String
  pub dry_run_at : ℕ
  pub execute_at : ℕ
  pub stamp : String

-- `min` and `max` on numbers
abbrev pub at_most : ℕ → ℕ → ℕ
at_most a b = if leb a b then a else b

abbrev pub at_least_one : ℕ → ℕ
at_least_one zero = 1
at_least_one (suc n) = suc n

-- `_limit`
unfoldable pub limit : Option ℕ → ℕ → ℕ → ℕ
limit stored setting ceiling = at_least_one (at_most (nonzero_or stored setting) ceiling)

-- `_target_name`
unfoldable pub target_name : ReplayTarget → String
target_name t =
    if blank t.queue
    then joined (or_else t.exchange "None") (joined " / " (or_else t.routing_key ""))
    else or_else t.queue ""

-- What a run says of a target.
pub data Note : Type 0 where
  due_with : ℕ → Option ℕ → Note
  no_consumers : ℕ → Note
  summed : Summary → Note
  all_failed : ℕ → Note

-- A run's result.
pub record Pass : Type 0 where
  pub scanned : ℕ
  pub waiting : ℕ
  pub no_history : ℕ
  pub no_target : ℕ
  pub capped : ℕ
  pub replayed : ℕ
  pub parked : ℕ
  pub failed : ℕ
  pub skipped_no_consumers : ℕ
  pub to_park : ℕ
  pub targets : Dict String Note
  pub errors : List (String × Failure)

-- `_empty`, with the plan's counts
abbrev pub planned_pass : ℕ → Plan → Pass
planned_pass scanned p = record {
  scanned = scanned;
  waiting = p.waiting;
  no_history = p.no_history;
  no_target = p.no_target;
  capped = p.capped;
  replayed = 0;
  parked = 0;
  failed = 0;
  skipped_no_consumers = 0;
  to_park = 0;
  targets = [];
  errors = [];
}

-- Who consumes a target's queue; for an exchange that cannot be known. A queue that cannot be
-- described counts as one without consumers.
abbrev pub asked :
    ReplayTarget
    → Result QueueInfo
    → Dict ReplayTarget (Option ℕ) × Pass
    → Dict ReplayTarget (Option ℕ) × Pass
asked t (ok info) (known, pass) = (put known t (some info.consumers), pass)
asked t (raise e) (known, pass) =
    (put known t (some 0), record pass { errors = pass.errors ++ (or_else t.queue "", e) ∷ [] })

abbrev pub ask :
    (String → Result QueueInfo)
    → ReplayTarget
    → Dict ReplayTarget (Option ℕ) × Pass
    → Dict ReplayTarget (Option ℕ) × Pass
ask get_queue t (known, pass) =
    if t.type == "queue"
    then (if blank t.queue
        then (put known t none, pass)
        else asked t (get_queue (or_else t.queue "")) (known, pass))
    else (put known t none, pass)

unfoldable pub ask_all :
    (String → Result QueueInfo)
    → Dict ReplayTarget (List String)
    → Dict ReplayTarget (Option ℕ) × Pass
    → Dict ReplayTarget (Option ℕ) × Pass
unfolding put
ask_all get_queue [] so_far = so_far
ask_all get_queue ((t, fps) ∷ rest) so_far = ask_all get_queue rest (ask get_queue t so_far)

abbrev pub is_zero : Option (Option ℕ) → Bool
is_zero (some (some zero)) = true
is_zero _ = false

abbrev pub consumers_at : Dict ReplayTarget (Option ℕ) → ReplayTarget → Option ℕ
consumers_at known t = or_else (get known t) none

-- What a preview says of the targets.
unfoldable pub previewed :
    Dict ReplayTarget (Option ℕ)
    → Dict ReplayTarget (List String)
    → Dict String Note
    → Dict String Note
unfolding get put target_name
previewed known [] notes = notes
previewed known ((t, fps) ∷ rest) notes =
    previewed known rest (put notes (target_name t) (due_with (length fps) (consumers_at known t)))
