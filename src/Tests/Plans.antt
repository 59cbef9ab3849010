-- ===== src/Tests/Plans.antt =====
-- Plans for concrete queues.
use queuelens.Prelude.{
  ℕ, suc, ◌*◌, ◌≤◌, ◌<◌, ◌≡◌, ◌≢◌, inl, inr, refl, String, false, none, some, List, [], ◌∷◌, All,
  arith, Dict, put,
}
use queuelens.Prelude.Int.{pos, ◌+ℤ◌}
use queuelens.Value.{Value, text, int, time}
use queuelens.Failure.{ok}
use queuelens.Domain.{MessageRecord, queue_target}
use queuelens.Domain.XDeath.{deaths, stamped, deaths_header}
use queuelens.Policy.Plan.{
  Plan, Rules, plan, minute, classify, last_death, backoff, add_replay, settle, retry,
}
use queuelens.Policy.Plan.Accounting.{plan_accounts}
use queuelens.Policy.Plan.Soundness.{FromRecord, IsExhausted, AllDue, plan_sound}
use queuelens.Policy.Plan.Crashes.{no_plan_of_overflow, no_plan_of_stamp}
use queuelens.Browser.{properties_of}
use queuelens.Tests.Memory.{plain}

abbrev rules : Rules
rules = record {
  dlq = "orders.dlq";
  now = 100 * minute;
  max_deaths = 100;
  backoff_minutes = 5;
  cap = 2;
  fallback = none;
}

abbrev record_of : String → Dict String Value → List (Dict String Value) → MessageRecord
record_of fp headers x_death = record {
  fingerprint = fp;
  source_queue = "orders.dlq";
  body = [];
  headers = headers;
  properties = properties_of plain;
  exchange = "";
  routing_key = "orders.dlq";
  redelivered = false;
  x_death = x_death;
}

abbrev died : ℕ → ℕ → List (Dict String Value)
died n at = (("count", int (pos n)) ∷ ("time", time at) ∷ ("queue", text "orders") ∷ []) ∷ []

-- One due, one waiting, one exhausted, one with no history, and one more than the cap.
abbrev queue : List MessageRecord
queue =
    record_of "due" [] (died 1 (90 * minute))
    ∷ record_of "early" [] (died 2 (95 * minute))
    ∷ record_of "spent" [] (died 100 (95 * minute))
    ∷ record_of "fresh" [] []
    ∷ record_of "later" [] (died 1 (80 * minute))
    ∷ []

abbrev sorted_queue : Plan
sorted_queue = record {
  replay = (queue_target (some "orders"), "due" ∷ []) ∷ [];
  park = "spent" ∷ [];
  waiting = 1;
  no_history = 1;
  no_target = 0;
  capped = 1;
}

sorted_queue_lem : plan rules queue ≡ ok sorted_queue
unfolding plan classify settle deaths last_death backoff add_replay retry ◌+ℤ◌ put
sorted_queue_lem = refl

plan_accounts_example : (◌≡◌ {A = ℕ} 5 5) × (◌≤◌ 2 2) × (◌<◌ 0 1 → ◌≡◌ {A = ℕ} 2 2)
plan_accounts_example = plan_accounts rules queue sorted_queue sorted_queue_lem

plan_sound_example :
    All (FromRecord (IsExhausted rules) queue) ("spent" ∷ [])
    × AllDue rules queue sorted_queue.replay
plan_sound_example = plan_sound rules queue sorted_queue sorted_queue_lem

abbrev forty : MessageRecord
forty = record_of "forty" [] (died 40 0)

forty_deaths : deaths forty.x_death forty.headers ≡ ok (pos (suc 39))
unfolding deaths ◌+ℤ◌
forty_deaths = refl

no_plan_of_overflow_example : plan rules (forty ∷ queue) ≢ ok sorted_queue
no_plan_of_overflow_example =
    no_plan_of_overflow rules (forty ∷ queue) forty 39 (inl refl) forty_deaths (omega arith)
      (omega arith) sorted_queue

abbrev stamp_only : MessageRecord
stamp_only = record_of "stamp" ((deaths_header, int (pos 1)) ∷ []) []

stamp_only_lem : stamped stamp_only.headers ≡ ok (pos (suc 0))
unfolding stamped
stamp_only_lem = refl

no_plan_of_stamp_example : plan rules (forty ∷ stamp_only ∷ []) ≢ ok sorted_queue
no_plan_of_stamp_example =
    no_plan_of_stamp rules (forty ∷ stamp_only ∷ []) stamp_only 0 (inr (inl refl)) refl
      stamp_only_lem (omega arith) sorted_queue
