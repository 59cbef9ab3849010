-- ===== src/Queues/Guard.antt =====
-- What `assert_browsable` answers (app/application/queue_service.py), from the management API's
-- replies on.
use queuelens.Prelude.{
  ℕ, ◌≡◌, refl, sym, ap, subst, ◌∙◌, ◌⊎◌, inl, inr, String, Bool, true, false, ◌&&◌, ◌==◌, nat_eq,
  not, Option, none, some, if◌then◌else◌, is_some, ltb, or_else, option_eq, Bool-cases,
  Option-cases, arith,
}
use queuelens.Failure.{Failure, Result, ok, raise, Result-cases, returned, raised}
use queuelens.Broker.Keeps.{ok-injective}
use queuelens.Browser.{scan_bytes_budget}
use queuelens.Queues.{
  RawQueue, is_quorum, delivery_limit, Management, version, judge_limit, judge, judge_as,
  status_code, browsable_from, assert_browsable,
}
use queuelens.Queues.Limits.{WholeScan, judge-WholeScan}

version-kept :
    (api : Management) (kept after v : Option String)
    → version api true kept ≡ (ok v, after)
    → v ≡ after
unfolding version
version-kept api (some k) after v e = cc e
version-kept api none after v e = elim (Result-cases api.overview) [
  | returned o told ↦ cc (rw told at e)
  | raised f silent ↦ cc (rw silent at e)
]

judge_limit-false :
    (raw : RawQueue) (limit : Option queuelens.Prelude.Int.ℤ)
    → judge_limit raw limit ≡ ok false
    → is_quorum raw ≡ false
judge_limit-false raw (some n) e = cc e
judge_limit-false raw none e = elim (Bool-cases (is_quorum raw)) [
  | inr other ↦ other
  | inl quorum ↦ elim (Bool-cases (ltb scan_bytes_budget (or_else raw.message_bytes_ready 0))) [
    | inl over ↦ cc (rw (quorum, over) at e)
    | inr fits ↦ cc (rw (quorum, fits) at e)
  ]
]

judge-false : (raw : RawQueue) (v : Option String) → judge raw v ≡ ok false → is_quorum raw ≡ false
unfolding judge
judge-false raw v e = elim (Bool-cases (is_quorum raw && not (is_some raw.messages))) [
  | inl unknown ↦ cc (rw unknown at e)
  | inr known ↦ elim (Result-cases (delivery_limit raw v)) [
    | raised f bad ↦ cc (rw (known, bad) at e)
    | returned limit read ↦ judge_limit-false raw limit (rw (known, read) at e)
  ]
]

-- What an answer tells about the queue that the API reported.
pub Answered : Bool → Result RawQueue → Option String → Type 0
Answered true reply v = (raw : RawQueue) × (reply ≡ ok raw) × WholeScan raw v
Answered false reply v =
    ((f : Failure) × (reply ≡ raise f) × ((status_code f == some 404) ≡ true))
    ⊎ ((raw : RawQueue) × (reply ≡ ok raw) × (is_quorum raw ≡ false))

judge-Answered :
    (whole : Bool) (raw : RawQueue) (v : Option String)
    → judge raw v ≡ ok whole
    → Answered whole (ok raw) v
unfolding Answered
judge-Answered true raw v e = (raw, refl, judge-WholeScan raw v e)
judge-Answered false raw v e = inr (raw, refl, judge-false raw v e)

refused-Answered :
    (whole : Bool) (api : Management) (kept after : Option String) (f : Failure)
    → browsable_from api kept (raise f) ≡ (ok whole, after)
    → Answered whole (raise f) after
unfolding Answered
refused-Answered whole api kept after f e = elim (Bool-cases (status_code f == some 404)) [
  | inr other ↦ cc (rw other at e)
  | inl gone ↦
      subst (λ w. Answered w (raise f) after) (ok-injective (ap (λ p. p.0) (rw gone at e)))
        (inl (f, refl, gone))
]

judged-Answered :
    (whole : Bool) (raw : RawQueue) (after : Option String)
    (p : Result (Option String) × Option String)
    → ((v : Option String) → p ≡ (ok v, p.1) → v ≡ p.1)
    → judge_as raw p ≡ (ok whole, after)
    → Answered whole (ok raw) after
judged-Answered whole raw after (raise f, k) same e = cc e
judged-Answered whole raw after (ok v, k) same e =
    subst (Answered whole (ok raw)) (same v refl ∙ ap (λ p. p.1) e)
      (judge-Answered whole raw v (ap (λ p. p.0) e))

-- When `assert_browsable` has the queue scanned whole, then it is a quorum queue whose statistics are
-- reported, whose ready messages fit into one scan's budget, and which has no delivery limit under
-- the broker's version, as it then knows it, so that no scan drops a message. When it has it scanned
-- in part, the API knows no such queue or the queue is no quorum queue.
pub assert_browsable-Answered :
    (api : Management) (queue_name : String) (kept after : Option String) (whole : Bool)
    → assert_browsable api queue_name kept ≡ (ok whole, after)
    → Answered whole (api.get_queue queue_name) after
unfolding assert_browsable
assert_browsable-Answered api queue_name kept after whole e =
    elim (Result-cases (api.get_queue queue_name)) [
      | returned raw read ↦ rw read (
          judged-Answered whole raw after (version api true kept)
            (λ v. version-kept api kept (version api true kept).1 v) (rw read at e))
      | raised f failed ↦ rw failed (refused-Answered whole api kept after f (rw failed at e))
    ]
