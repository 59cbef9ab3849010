-- ===== src/Queues/Limits.antt =====
-- Delivery limits and the guard on browsing (app/application/queue_service.py).
use queuelens.Prelude.{
  ◌≤◌, ◌≡◌, refl, ◌∙◌, ◌≢◌, ◌⊎◌, inl, inr, String, true, false, not, ◌&&◌, Option, none, some, List,
  [], ◌∷◌, if◌then◌else◌, ltb, is_some, or_else, filter, All, arith, Bool-cases,
}
use queuelens.Prelude.Int.{ℤ, pos, ltb_ℤ}
use queuelens.Failure.{ok, Result-cases, returned, raised}
use queuelens.Browser.{scan_bytes_budget}
use queuelens.Queues.{
  RawQueue, is_quorum, configured, major, limit_3, limit_4, non_negative, lowest, delivery_limit,
  judge_limit, judge,
}

-- Version and limits under which no return of a message drops it: up to 3.x no limit is configured;
-- from 4.0 on one is, and all that are configured are negative.
pub Harmless : ℤ → List ℤ → Type 0
Harmless m values =
    ((ltb_ℤ m (pos 4) ≡ true) × (values ≡ []))
    ⊎ ((ltb_ℤ m (pos 4) ≡ false) × (values ≢ []) × All (λ n. ltb_ℤ n (pos 0) ≡ true) values)

-- The delivery limit of a queue, read off its configuration.
pub record Limits (raw : RawQueue) (v : Option String) (P : ℤ → List ℤ → Type 0) : Type 0 where
  pub m : ℤ
  pub values : List ℤ
  pub version_read : major v ≡ ok m
  pub values_read : configured raw ≡ ok values
  pub holds : P m values

pub delivery_limit-Limits :
    (raw : RawQueue) (v : Option String) (limit : Option ℤ)
    → is_quorum raw ≡ true
    → delivery_limit raw v ≡ ok limit
    → Limits raw v
        (λ m values. (if ltb_ℤ m (pos 4) then limit_3 values else limit_4 values) ≡ limit)
unfolding delivery_limit
delivery_limit-Limits raw v limit quorum e = elim (Result-cases (configured raw)) [
  | raised f bad ↦ cc (rw (quorum, bad) at e)
  | returned values read ↦ elim (Result-cases (major v)) [
    | raised f bad ↦ cc (rw (quorum, read, bad) at e)
    | returned m known ↦ record {
      m = m;
      values = values;
      version_read = known;
      values_read = read;
      holds = cc (rw (quorum, read, known) at e);
    }
  ]
]

filter-none :
    (values : List ℤ) → filter non_negative values ≡ [] → All (λ n. ltb_ℤ n (pos 0) ≡ true) values
filter-none [] e = tt
filter-none (n ∷ rest) e = elim (Bool-cases (ltb_ℤ n (pos 0))) [
  | inl below ↦ (below, filter-none rest (rw below at e))
  | inr above ↦ cc (rw above at e)
]

limit_3-none : (values : List ℤ) → limit_3 values ≡ none → values ≡ []
unfolding limit_3
limit_3-none [] e = refl
limit_3-none (n ∷ rest) e = cc e

lowest-none :
    (values : List ℤ) (otherwise : Option ℤ) → lowest values otherwise ≡ none → values ≡ []
lowest-none [] otherwise e = refl
lowest-none (n ∷ rest) otherwise e = cc e

limit_4-none :
    (values : List ℤ)
    → limit_4 values ≡ none
    → (values ≢ []) × All (λ n. ltb_ℤ n (pos 0) ≡ true) values
unfolding limit_4
limit_4-none [] e = cc e
limit_4-none (n ∷ rest) e =
    ((λ bad. cc bad), filter-none (n ∷ rest) (lowest-none (filter non_negative (n ∷ rest)) none e))

limit-Harmless :
    (m : ℤ) (values : List ℤ)
    → (if ltb_ℤ m (pos 4) then limit_3 values else limit_4 values) ≡ none
    → Harmless m values
unfolding Harmless
limit-Harmless m values e = elim (Bool-cases (ltb_ℤ m (pos 4))) [
  | inl old ↦ inl (old, limit_3-none values (rw old at e))
  | inr new ↦
      inr (new, (limit_4-none values (rw new at e)).0, (limit_4-none values (rw new at e)).1)
]

-- What `assert_browsable` has made sure of before a queue is scanned whole.
pub record WholeScan (raw : RawQueue) (v : Option String) : Type 0 where
  pub quorum : is_quorum raw ≡ true
  pub reported : is_some raw.messages ≡ true
  pub fits : or_else raw.message_bytes_ready 0 ≤ scan_bytes_budget
  pub unlimited : Limits raw v Harmless

judge_limit-fits :
    (raw : RawQueue) (limit : Option ℤ)
    → is_quorum raw ≡ true
    → judge_limit raw limit ≡ ok true
    → (limit ≡ none) × (or_else raw.message_bytes_ready 0 ≤ scan_bytes_budget)
judge_limit-fits raw (some n) quorum e = cc e
judge_limit-fits raw none quorum e =
    elim (Bool-cases (ltb scan_bytes_budget (or_else raw.message_bytes_ready 0))) [
      | inl over ↦ cc (rw (quorum, over) at e)
      | inr fits ↦ (refl, ground arith)
    ]

judge_limit-quorum :
    (raw : RawQueue) (limit : Option ℤ) → judge_limit raw limit ≡ ok true → is_quorum raw ≡ true
judge_limit-quorum raw (some n) e = cc e
judge_limit-quorum raw none e = elim (Bool-cases (is_quorum raw)) [
  | inl quorum ↦ quorum
  | inr other ↦ cc (rw other at e)
]

pub judge-WholeScan : (raw : RawQueue) (v : Option String) → judge raw v ≡ ok true → WholeScan raw v
unfolding judge
judge-WholeScan raw v e = elim (Bool-cases (is_quorum raw && not (is_some raw.messages))) [
  | inl unknown ↦ cc (rw unknown at e)
  | inr known ↦ elim (Result-cases (delivery_limit raw v)) [
    | raised f bad ↦ cc (rw (known, bad) at e)
    | returned limit read ↦
        let passed : judge_limit raw limit ≡ ok true = rw (known, read) at e in
        let quorum = judge_limit-quorum raw limit passed in
        let (unlimited, fits) = judge_limit-fits raw limit quorum passed in
        let l = delivery_limit-Limits raw v limit quorum read in
        record {
          quorum = quorum;
          reported = ground (arith, known, quorum);
          fits = fits;
          unlimited = record {
            m = l.m;
            values = l.values;
            version_read = l.version_read;
            values_read = l.values_read;
            holds = limit-Harmless l.m l.values (l.holds ∙ unlimited);
          };
        }
  ]
]
