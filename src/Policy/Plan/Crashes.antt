-- ===== src/Policy/Plan/Crashes.antt =====
-- Messages that make `plan` raise: the run then ends in `run_due`, which only logs it.
use queuelens.Prelude.{
  ℕ, suc, ◌+◌, ◌*◌, ◌^◌, ◌≤◌, ◌<◌, ◌≡◌, ◌≢◌, inl, inr, true, List, [], ◌∷◌, arith, Member,
}
use queuelens.Prelude.Int.{pos, ltb_ℤ}
use queuelens.Failure.{ok, raise, Result-cases, returned, raised, overflow_error}
use queuelens.Domain.{MessageRecord}
use queuelens.Domain.XDeath.{deaths, stamped, counted}
use queuelens.Policy.Plan.{
  Plan, Rules, Progress, Verdict, classify, settle, sort_from, plan, empty, judge, retry,
  last_death, backoff, max_minutes,
}

-- A plan that is made has a verdict on every record.
sort_from-verdict :
    (rules : Rules) (p : Progress) (records : List MessageRecord) (out : Plan) (r : MessageRecord)
    → Member r records
    → sort_from rules p records ≡ ok out
    → (v : Verdict) × (classify rules r ≡ ok v)
unfolding sort_from
sort_from-verdict rules p [] out r m e = elim m [ ]
sort_from-verdict rules p (x ∷ rest) out r m e = elim (Result-cases (classify rules x)) [
  | raised f found ↦ cc (rw found at e)
  | returned v found ↦ elim m [
    | inl same ↦ (v, rw same found)
    | inr later ↦
        sort_from-verdict rules (settle rules.cap x.fingerprint p v) rest out r later
          (rw found at e)
  ]
]

no_plan :
    (rules : Rules) (records : List MessageRecord) (r : MessageRecord)
    → Member r records
    → ((v : Verdict) → classify rules r ≢ ok v)
    → (out : Plan) → plan rules records ≢ ok out
unfolding plan
no_plan rules records r m stuck out e =
    let (v, found) =
      sort_from-verdict rules (record { out = empty; acted = 0 }) records out r m e in
    stuck v found

too_long :
    (rules : Rules) (n : ℕ)
    → max_minutes ≤ rules.backoff_minutes * 2 ^ n
    → backoff rules.backoff_minutes (pos (suc n)) ≡ raise overflow_error
unfolding backoff
too_long rules n h = ground arith

stopped :
    (r : MessageRecord) (n : ℕ)
    → r.x_death ≡ []
    → stamped r.headers ≡ ok (pos (suc n))
    → deaths r.x_death r.headers ≡ ok (pos (suc (suc n)))
unfolding deaths counted
stopped r n e s = rw (e, s) (ground arith)

-- Whatever else the queue holds, there is no plan while it holds a message that has died n + 1 times,
-- fewer than `max_deaths`, where `backoff_minutes` times 2 to the n is 999999999 days and one or more.
pub no_plan_of_overflow :
    (rules : Rules) (records : List MessageRecord) (r : MessageRecord) (n : ℕ)
    → Member r records
    → deaths r.x_death r.headers ≡ ok (pos (suc n))
    → suc n < rules.max_deaths
    → max_minutes ≤ rules.backoff_minutes * 2 ^ n
    → (out : Plan) → plan rules records ≢ ok out
unfolding classify retry backoff
no_plan_of_overflow rules records r n m died few long = no_plan rules records r m λ v e.
    elim (Result-cases (last_death r.x_death)) [
      | raised f last ↦ cc (rw (died, judge, runs few, last) at e)
      | returned (at, origin) last ↦
          cc (rw (died, judge, runs few, last, too_long rules n long) at e)
    ]
  where
    runs : suc n < rules.max_deaths → ltb_ℤ (pos (suc n)) (pos rules.max_deaths) ≡ true
    runs h = ground arith

-- No plan is made while the queue holds a message with no `x-death` entries that carries the stamp
-- n + 1 of `x-queuelens-deaths`, where n + 2 is below `max_deaths`.
pub no_plan_of_stamp :
    (rules : Rules) (records : List MessageRecord) (r : MessageRecord) (n : ℕ)
    → Member r records
    → r.x_death ≡ []
    → stamped r.headers ≡ ok (pos (suc n))
    → n + 2 < rules.max_deaths
    → (out : Plan) → plan rules records ≢ ok out
unfolding classify retry deaths counted last_death
no_plan_of_stamp rules records r n m none_listed stamp few =
    no_plan rules records r m
      λ v e. cc (rw (stopped r n none_listed stamp, judge, ltb_of n few, none_listed) at e)
  where
    ltb_of :
        (n : ℕ) → n + 2 < rules.max_deaths → ltb_ℤ (pos (suc (suc n))) (pos rules.max_deaths) ≡ true
    ltb_of n h = ground arith
