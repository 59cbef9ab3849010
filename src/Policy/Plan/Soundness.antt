-- ===== src/Policy/Plan/Soundness.antt =====
-- What a plan acts on is what the policy says: parked messages are exhausted, and replayed ones are
-- due and go where they died, or to the queue's configured target.
use queuelens.Prelude.{
  ℕ, zero, ◌+◌, ◌≤◌, ◌≡◌, ◌≢◌, ◌⊎◌, inl, inr, refl, sym, String, Option, none, some, true, false,
  not, ◌&&◌, List, [], ◌∷◌, Dict, get, put, ◌==◌, string_eq, leb, subst, if◌then◌else◌, arith, All,
  All-append, All-Member, Member, Bool-cases,
}
use queuelens.Prelude.Int.{ℤ, pos, ltb_ℤ, ◌≤ℤ◌}
use queuelens.Failure.{ok, Result-cases, returned, raised}
use queuelens.Domain.{MessageRecord, ReplayTarget, queue_target, target_eq, target_beq_iff}
use queuelens.Domain.XDeath.{deaths}
use queuelens.Policy.Plan.{
  Plan, Rules, Progress, Verdict, without_history, waits, without_target, exhausted, due, classify,
  fingerprints_at, add_replay, settle, sort_from, plan, empty, judge, retry, last_death, backoff,
  target_for, not_due, verdict_of,
}

-- The wait since the last death is over; a death of unknown time is not waited for.
abbrev pub Elapsed : ℕ → ℕ → Option ℕ → Type 0
Elapsed now wait none = Unit
Elapsed now wait (some t) = t + wait ≤ now

-- `t` is the queue that the message died in, another one than the DLQ, or the configured target.
abbrev pub TargetOf : Rules → Option String → ReplayTarget → Type 0
TargetOf rules origin t =
    ((q : String) × (origin ≡ some q) × (q ≢ rules.dlq) × (t ≡ queue_target (some q)))
    ⊎ (rules.fallback ≡ some t)

-- A message that may be replayed to `t`.
pub record IsDue (rules : Rules) (t : ReplayTarget) (r : MessageRecord) : Type 0 where
  pub died : ℤ
  pub at : Option ℕ
  pub origin : Option String
  pub wait : ℕ
  pub counted : deaths r.x_death r.headers ≡ ok died
  pub some_death : died ≢ pos 0
  pub retries_left : ltb_ℤ died (pos rules.max_deaths) ≡ true
  pub last : last_death r.x_death ≡ ok (at, origin)
  pub backed_off : backoff rules.backoff_minutes died ≡ ok wait
  pub elapsed : Elapsed rules.now wait at
  pub goes_to : TargetOf rules origin t

-- A message that has died `max_deaths` times or more.
pub record IsExhausted (rules : Rules) (r : MessageRecord) : Type 0 where
  pub died : ℤ
  pub counted : deaths r.x_death r.headers ≡ ok died
  pub some_death : died ≢ pos 0
  pub no_retry : pos rules.max_deaths ≤ℤ died

not_due-Elapsed : (now wait : ℕ) (at : Option ℕ) → not_due now wait at ≡ false → Elapsed now wait at
not_due-Elapsed now wait none h = tt
not_due-Elapsed now wait (some t) h = ground arith

target_for-TargetOf :
    (rules : Rules) (origin : Option String) (t : ReplayTarget)
    → target_for rules origin ≡ some t
    → TargetOf rules origin t
unfolding target_for
target_for-TargetOf rules none t h = inr h
target_for-TargetOf rules (some q) t h = elim (Bool-cases (not (q == "") && not (q == rules.dlq))) [
  | inl allowed ↦ inl (q, refl, (λ e. ground (arith, string_eq.agrees q rules.dlq)), ground arith)
  | inr blocked ↦ inr (ground arith)
]

retry-ne-exhausted :
    (rules : Rules) (died : ℤ) (r : MessageRecord) → retry rules died r ≢ ok exhausted
unfolding retry
retry-ne-exhausted rules died r h = ground arith

due_cases :
    (rules : Rules) (wait : ℕ) (at : Option ℕ) (origin : Option String) (t : ReplayTarget)
    → ok (if not_due rules.now wait at then waits else verdict_of (target_for rules origin))
      ≡ ok (due t)
    → (not_due rules.now wait at ≡ false) × (target_for rules origin ≡ some t)
due_cases rules wait at origin t h = ground arith

retry-IsDue :
    (rules : Rules) (died : ℤ) (r : MessageRecord) (t : ReplayTarget)
    → deaths r.x_death r.headers ≡ ok died
    → died ≢ pos 0
    → ltb_ℤ died (pos rules.max_deaths) ≡ true
    → retry rules died r ≡ ok (due t)
    → IsDue rules t r
unfolding retry
retry-IsDue rules died r t counted some_death left h = elim (Result-cases (last_death r.x_death)) [
  | raised f e ↦ cc (rw e at h)
  | returned (at, origin) last ↦ elim (Result-cases (backoff rules.backoff_minutes died)) [
    | raised f e ↦ cc (rw (last, e) at h)
    | returned wait backed_off ↦
        let (over, chosen) = due_cases rules wait at origin t (rw (last, backed_off) at h) in
        record {
          died = died;
          at = at;
          origin = origin;
          wait = wait;
          counted = counted;
          some_death = some_death;
          retries_left = left;
          last = last;
          backed_off = backed_off;
          elapsed = not_due-Elapsed rules.now wait at over;
          goes_to = target_for-TargetOf rules origin t chosen;
        }
  ]
]

judge-IsDue :
    (rules : Rules) (died : ℤ) (r : MessageRecord) (t : ReplayTarget)
    → deaths r.x_death r.headers ≡ ok died
    → judge rules died r ≡ ok (due t)
    → IsDue rules t r
unfolding judge
judge-IsDue rules (pos zero) r t counted h = absurd (ground arith)
judge-IsDue rules died r t counted h =
    retry-IsDue rules died r t counted (λ e. cc) (ground arith) (ground arith)

judge-IsExhausted :
    (rules : Rules) (died : ℤ) (r : MessageRecord)
    → deaths r.x_death r.headers ≡ ok died
    → judge rules died r ≡ ok exhausted
    → IsExhausted rules r
unfolding judge
judge-IsExhausted rules (pos zero) r counted h = absurd (ground arith)
judge-IsExhausted rules died r counted h = record {
  died = died;
  counted = counted;
  some_death = λ e. cc;
  no_retry = ground (arith, retry-ne-exhausted rules died r);
}

-- What the verdict on a message says of it.
abbrev Justified : Rules → MessageRecord → Verdict → Type 0
Justified rules r exhausted = IsExhausted rules r
Justified rules r (due t) = IsDue rules t r
Justified rules r _ = Unit

judge-Justified :
    (rules : Rules) (died : ℤ) (r : MessageRecord) (v : Verdict)
    → deaths r.x_death r.headers ≡ ok died
    → judge rules died r ≡ ok v
    → Justified rules r v
judge-Justified rules died r exhausted counted h = judge-IsExhausted rules died r counted h
judge-Justified rules died r (due t) counted h = judge-IsDue rules died r t counted h
judge-Justified rules died r without_history counted h = tt
judge-Justified rules died r waits counted h = tt
judge-Justified rules died r without_target counted h = tt

classify-Justified :
    (rules : Rules) (r : MessageRecord) (v : Verdict)
    → classify rules r ≡ ok v
    → Justified rules r v
unfolding classify
classify-Justified rules r v h = elim (Result-cases (deaths r.x_death r.headers)) [
  | raised f e ↦ cc (rw e at h)
  | returned died counted ↦ judge-Justified rules died r v counted (rw counted at h)
]

-- A fingerprint of a plan comes from a record that the verdict fits.
abbrev pub FromRecord : (MessageRecord → Type 0) → List MessageRecord → String → Type 0
FromRecord Fits records fp = (r : MessageRecord) × Member r records × (r.fingerprint ≡ fp) × Fits r

module _ (rules : Rules) (records : List MessageRecord) where
  abbrev pub AllDue : Dict ReplayTarget (List String) → Type 0
  AllDue [] = Unit
  AllDue ((t, fps) ∷ d) = All (FromRecord (IsDue rules t) records) fps × AllDue d

  record Sound (out : Plan) : Type 0 where
    parked : All (FromRecord (IsExhausted rules) records) out.park
    replayed : AllDue out.replay

  AllDue-get :
      (d : Dict ReplayTarget (List String)) (t : ReplayTarget)
      → AllDue d
      → All (FromRecord (IsDue rules t) records) (fingerprints_at (get d t))
  unfolding get
  AllDue-get [] t h = tt
  AllDue-get ((u, fps) ∷ d) t h = elim (Bool-cases (u == t)) [
    | inl same ↦ rw same (
        subst (λ w. All (FromRecord (IsDue rules w) records) fps) ((target_beq_iff u t).0 same) h.0)
    | inr other ↦ rw other (AllDue-get d t h.1)
  ]

  AllDue-put :
      (d : Dict ReplayTarget (List String)) (t : ReplayTarget) (fps : List String)
      → AllDue d
      → All (FromRecord (IsDue rules t) records) fps
      → AllDue (put d t fps)
  unfolding put
  AllDue-put [] t fps h k = (k, tt)
  AllDue-put ((u, old) ∷ d) t fps h k = elim (Bool-cases (u == t)) [
    | inl same ↦ rw same (
      subst (λ w. All (FromRecord (IsDue rules w) records) fps) (sym ((target_beq_iff u t).0 same))
          k,
      h.1,
    )
    | inr other ↦ rw other (h.0, AllDue-put d t fps h.1 k)
  ]

  settle-Sound :
      (p : Progress) (r : MessageRecord) (v : Verdict)
      → Member r records
      → Justified rules r v
      → Sound p.out
      → Sound (settle rules.cap r.fingerprint p v).out
  unfolding settle add_replay
  settle-Sound p r without_history m j h = record { parked = h.parked; replayed = h.replayed }
  settle-Sound p r waits m j h = record { parked = h.parked; replayed = h.replayed }
  settle-Sound p r without_target m j h = record { parked = h.parked; replayed = h.replayed }
  settle-Sound p r exhausted m j h = elim (Bool-cases (leb rules.cap p.acted)) [
    | inl full ↦ rw full (record { parked = h.parked; replayed = h.replayed })
    | inr room ↦ rw room (record {
      parked = All-append _ p.out.park (r.fingerprint ∷ []) h.parked ((r, m, refl, j), tt);
      replayed = h.replayed;
    })
  ]
  settle-Sound p r (due t) m j h = elim (Bool-cases (leb rules.cap p.acted)) [
    | inl full ↦ rw full (record { parked = h.parked; replayed = h.replayed })
    | inr room ↦ rw room (record {
      parked = h.parked;
      replayed = AllDue-put _ t _ h.replayed (
          All-append _ (fingerprints_at (get p.out.replay t)) (r.fingerprint ∷ [])
            (AllDue-get p.out.replay t h.replayed) ((r, m, refl, j), tt));
    })
  ]

  sort_from-Sound :
      (p : Progress) (rest : List MessageRecord) (out : Plan)
      → All (λ r. Member r records) rest
      → Sound p.out
      → sort_from rules p rest ≡ ok out
      → Sound out
  unfolding sort_from
  sort_from-Sound p [] out m h e = subst Sound (ground arith) h
  sort_from-Sound p (r ∷ rest) out m h e = elim (Result-cases (classify rules r)) [
    | raised f found ↦ cc (rw found at e)
    | returned v found ↦
        sort_from-Sound (settle rules.cap r.fingerprint p v) rest out m.1
          (settle-Sound p r v m.0 (classify-Justified rules r v found) h) (rw found at e)
  ]

-- What a plan acts on is what the policy says. A parked message has died `max_deaths` times or more.
-- A replayed one has died fewer times, its count of deaths is not 0 (a forged `x-death` can make it
-- negative), its wait since the last death is over, and it goes to the queue that it died in, never the
-- DLQ itself, or to the queue's configured target.
pub plan_sound :
    (rules : Rules) (records : List MessageRecord) (out : Plan)
    → plan rules records ≡ ok out
    → All (FromRecord (IsExhausted rules) records) out.park × AllDue rules records out.replay
unfolding plan
plan_sound rules records out e =
    let s =
      sort_from-Sound rules records (record { out = empty; acted = 0 }) records out
        (All-Member records) (record { parked = tt; replayed = tt }) e in
    (s.parked, s.replayed)
