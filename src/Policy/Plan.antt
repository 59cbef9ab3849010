-- ===== src/Policy/Plan.antt =====
-- `plan` of app/application/replay_policies.py. `now` and the times of death are microseconds since
-- `datetime.min`; the numbers of a policy are naturals (its API admits no others).
pub mod Accounting
pub mod Soundness
pub mod Crashes
use queuelens.Prelude.{
  ℕ, zero, suc, ◌+◌, ◌*◌, ◌/◌, ◌^◌, String, Bool, true, false, not, ◌&&◌, Option, none, some, List,
  [], ◌∷◌, ◌++◌, ltb, leb, ◌==◌, if◌then◌else◌, string_eq, Dict, get, put,
}
use queuelens.Prelude.Int.{ℤ, pos, negsuc, ltb_ℤ}
use queuelens.Value.{Value, text, time}
use queuelens.Failure.{Result, ok, raise, value_error, overflow_error, ◌>>=◌}
use queuelens.Domain.{MessageRecord, ReplayTarget, queue_target, target_eq}
use queuelens.Domain.XDeath.{deaths}

-- `Plan`
pub record Plan : Type 0 where
  pub replay : Dict ReplayTarget (List String)
  pub park : List String
  pub waiting : ℕ
  pub no_history : ℕ
  pub no_target : ℕ
  pub capped : ℕ

abbrev pub empty : Plan
empty = record { replay = []; park = []; waiting = 0; no_history = 0; no_target = 0; capped = 0 }

-- The arguments of `plan` but the records.
pub record Rules : Type 0 where
  pub dlq : String
  pub now : ℕ
  pub max_deaths : ℕ
  pub backoff_minutes : ℕ
  pub cap : ℕ
  pub fallback : Option ReplayTarget

-- `at`: when an entry says that it happened.
abbrev pub died_at : Option Value → Option ℕ
died_at (some (time t)) = some t
died_at _ = none

-- A queue's name in an entry. Only a text, which is what the broker writes, is one here; the source
-- would take any truthy value for it.
abbrev pub queue_of : Option Value → Option String
queue_of (some (text q)) = some q
queue_of _ = none

-- The key of `max`: no time counts as `datetime.min`.
abbrev time_or_min : Option ℕ → ℕ
time_or_min none = 0
time_or_min (some t) = t

abbrev entry_time : Dict String Value → Option ℕ
unfolding get
entry_time entry = died_at (get entry "time")

-- `max(timed, key=…)`: the first entry with the latest time.
latest : Dict String Value → List (Dict String Value) → Dict String Value
unfolding get
latest best [] = best
latest best (entry ∷ rest) =
    latest
      (if ltb (time_or_min (entry_time best)) (time_or_min (entry_time entry)) then entry else best)
      rest

-- `_last_death`. `max` of no entries raises.
unfoldable pub last_death : List (Dict String Value) → Result (Option ℕ × Option String)
unfolding latest get
last_death [] = raise value_error
last_death (entry ∷ rest) =
    let last = latest entry rest in ok (entry_time last, queue_of (get last "queue"))

-- `timedelta(minutes=…)` holds at most 999999999 days.
abbrev pub max_minutes : ℕ
max_minutes = 1_440_000_000_000

abbrev pub minute : ℕ
minute = 60_000_000

abbrev pub minutes : ℕ → Result ℕ
minutes n = if ltb n max_minutes then ok (n * minute) else raise overflow_error

-- `timedelta(minutes=backoff_minutes * 2 ** (died - 1))`. A negative count, which no broker writes,
-- makes a fraction, here rounded down.
unfoldable pub backoff : ℕ → ℤ → Result ℕ
backoff b (pos zero) = ok (b * minute / 2)
backoff b (pos (suc n)) = minutes (b * 2 ^ n)
backoff b (negsuc n) = ok (b * minute / 2 ^ (n + 2))

-- `now - died_at < wait`
abbrev pub not_due : ℕ → ℕ → Option ℕ → Bool
not_due now wait none = false
not_due now wait (some t) = ltb now (t + wait)

-- `ReplayTarget(type="queue", queue=origin) if origin and origin != dlq else fallback`
unfoldable pub target_for : Rules → Option String → Option ReplayTarget
target_for rules none = rules.fallback
target_for rules (some origin) =
    if not (origin == "") && not (origin == rules.dlq)
    then some (queue_target (some origin))
    else rules.fallback

-- What one message is, before the cap.
pub data Verdict : Type 0 where
  without_history waits without_target exhausted : Verdict
  due : ReplayTarget → Verdict

abbrev pub verdict_of : Option ReplayTarget → Verdict
verdict_of none = without_target
verdict_of (some t) = due t

-- The branch for a message that has died `died` times, fewer than `max_deaths`.
unfoldable pub retry : Rules → ℤ → MessageRecord → Result Verdict
unfolding target_for
retry rules died r = do
  (at, origin) ← last_death r.x_death
  wait ← backoff rules.backoff_minutes died
  ok (if not_due rules.now wait at then waits else verdict_of (target_for rules origin))

unfoldable pub judge : Rules → ℤ → MessageRecord → Result Verdict
judge rules (pos zero) r = ok without_history
judge rules died r = if ltb_ℤ died (pos rules.max_deaths) then retry rules died r else ok exhausted

unfoldable pub classify : Rules → MessageRecord → Result Verdict
unfolding judge
classify rules r = do died ← deaths r.x_death r.headers; judge rules died r

abbrev pub fingerprints_at : Option (List String) → List String
fingerprints_at none = []
fingerprints_at (some fps) = fps

-- The loop's state: the plan so far and how many messages are acted on.
pub record Progress : Type 0 where
  pub out : Plan
  pub acted : ℕ

-- `out.replay.setdefault(target, []).append(record.fingerprint)`
unfoldable pub add_replay : Plan → ReplayTarget → String → Plan
add_replay out t fp = record out {
  replay = put out.replay t (fingerprints_at (get out.replay t) ++ fp ∷ []);
}

abbrev act_on : ℕ → Progress → Plan → Progress
act_on cap p acted_on =
    if leb cap p.acted
    then record p { out = record out { capped = out.capped + 1 } }
    else record { out = acted_on; acted = p.acted + 1 }
  where
    open p use {out}

-- One message's effect on the loop's state.
unfoldable pub settle : ℕ → String → Progress → Verdict → Progress
settle cap fp p without_history = record p { out = record out { no_history = out.no_history + 1 } }
  where
    open p use {out}
settle cap fp p waits = record p { out = record out { waiting = out.waiting + 1 } }
  where
    open p use {out}
settle cap fp p without_target = record p { out = record out { no_target = out.no_target + 1 } }
  where
    open p use {out}
settle cap fp p exhausted = act_on cap p (record out { park = out.park ++ fp ∷ [] })
  where
    open p use {out}
settle cap fp p (due t) = act_on cap p (add_replay p.out t fp)

-- `for record in records`
unfoldable pub sort_from : Rules → Progress → List MessageRecord → Result Plan
sort_from rules p [] = ok p.out
sort_from rules p (r ∷ rest) =
    classify rules r >>= λ v. sort_from rules (settle rules.cap r.fingerprint p v) rest

unfoldable pub plan : Rules → List MessageRecord → Result Plan
unfolding sort_from
plan rules records = sort_from rules (record { out = empty; acted = 0 }) records
