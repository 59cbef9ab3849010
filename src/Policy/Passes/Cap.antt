-- ===== src/Policy/Passes/Cap.antt =====
-- A pass acts on at most its cap of messages (app/application/replay_policies.py).
use queuelens.Prelude.{
  ℕ, suc, ◌+◌, ◌≤◌, ◌≡◌, refl, ◌∙◌, subst, inl, inr, String, Bool, true, false, Option, none, some,
  List, [], ◌∷◌, ◌==◌, string_eq, or_else, length, arith, Bool-cases, Dict, get,
}
use queuelens.Value.{Value}
use queuelens.Failure.{Result, ok, raise}
use queuelens.Domain.{ReplayTarget, target_eq}
use queuelens.Domain.Fingerprint.{Hashing}
use queuelens.Broker.{Broker, World}
use queuelens.Browser.{Scan}
use queuelens.Broker.Keeps.{ok-injective}
use queuelens.Queues.Listing.{QueueInfo}
use queuelens.Snapshots.{Scope}
use queuelens.Operator.{blank}
use queuelens.Bulk.{Settings}
use queuelens.Audited.{Audit, Shop}
use queuelens.Policy.Passes.Bulks.{Accounted, bulk-Accounted}
use queuelens.Policy.Plan.{Plan, plan}
use queuelens.Policy.Plan.Accounting.{acted_on as acts, replays, plan_accounts}
use queuelens.Policy.Passes.{
  Policy, Tick, Pass, Note, at_most, bulk, replay_all, replayed_to, skipped, park_all, parked_by,
  is_zero, ask_all, ask, asked, planned_pass, acted_on, planned, scanned, rules_of, run,
}

-- What a pass has accounted for.
abbrev pub handled : Pass → ℕ
handled pass = pass.replayed + pass.parked + pass.failed + pass.skipped_no_consumers

-- Asking for consumers counts nothing.
asked-handled :
    (t : ReplayTarget) (answer : Result QueueInfo) (known : Dict ReplayTarget (Option ℕ))
    (pass : Pass)
    → handled (asked t answer (known, pass)).1 ≡ handled pass
asked-handled t (ok info) known pass = refl
asked-handled t (raise e) known pass = refl

ask-handled :
    (get_queue : String → Result QueueInfo) (t : ReplayTarget)
    (known : Dict ReplayTarget (Option ℕ)) (pass : Pass)
    → handled (ask get_queue t (known, pass)).1 ≡ handled pass
ask-handled get_queue t known pass = elim (Bool-cases (t.type == "queue")) [
  | inr exchange ↦ rw exchange refl
  | inl queue ↦ elim (Bool-cases (blank t.queue)) [
    | inl unnamed ↦ rw (queue, unnamed) refl
    | inr named ↦ rw (queue, named) (asked-handled t (get_queue (or_else t.queue "")) known pass)
  ]
]

ask_all-handled :
    (get_queue : String → Result QueueInfo) (d : Dict ReplayTarget (List String))
    (known : Dict ReplayTarget (Option ℕ)) (pass : Pass)
    → handled (ask_all get_queue d (known, pass)).1 ≡ handled pass
unfolding ask_all
ask_all-handled get_queue [] known pass = refl
ask_all-handled get_queue ((t, fps) ∷ rest) known pass =
    let next = ask get_queue t (known, pass) in
    ask_all-handled get_queue rest next.0 next.1 ∙ ask-handled get_queue t known pass

module _ (h : Hashing) (b : Broker) (s : Settings) (scope : Scope) (a : Audit) where
  -- Each batch is executed before its dry run expires.
  abbrev pub Soon : (ℕ → Tick) → Type 0
  Soon ticks = (n : ℕ) → (ticks n).execute_at ≤ (ticks n).dry_run_at + s.bulk_dry_run_ttl

  replayed_to-handled :
      (t : ReplayTarget) (pass : Pass) (n : ℕ) (step : Note × Pass × Shop h b s scope a)
      → Accounted h b s scope a pass n step
      → handled (replayed_to h b s scope a t step).0 ≤ handled pass + n
  replayed_to-handled t pass n (note, after, shop) (few, r, p, k) = omega (arith, few, r, p, k)

  parked_by-handled :
      (pass : Pass) (n : ℕ) (step : Note × Pass × Shop h b s scope a)
      → Accounted h b s scope a pass n step
      → handled (parked_by h b s scope a step).0 ≤ handled pass + n
  parked_by-handled pass n (note, after, shop) (few, r, p, k) = omega (arith, few, r, p, k)

  replay_all-handled :
      (policy : Policy) (ticks : ℕ → Tick) (headers : Dict String Value)
      (guard : String → Result Bool) (depth : ℕ) (known : Dict ReplayTarget (Option ℕ)) (n : ℕ)
      (d : Dict ReplayTarget (List String)) (pass : Pass) (shop : Shop h b s scope a)
      → Soon ticks
      → handled (replay_all h b s scope a policy ticks headers guard depth known n d (pass, shop)).0
        ≤ handled pass + replays d
  unfolding replay_all
  replay_all-handled policy ticks headers guard depth known n [] pass shop soon = omega arith
  replay_all-handled policy ticks headers guard depth known n ((t, fps) ∷ rest) pass shop soon =
      elim (Bool-cases (is_zero (get known t))) [
        | inl idle ↦ rw idle (
            omega (
              arith,
              replay_all-handled policy ticks headers guard depth known (suc n) rest
                  (skipped h b s scope a t fps pass) shop soon,
            ))
        | inr active ↦
            let step =
              bulk h b s scope a policy (ticks n) headers guard "replay" fps (some t) depth pass
                shop in
            let next = replayed_to h b s scope a t step in
            rw active (
              omega (
                arith,
                replay_all-handled policy ticks headers guard depth known (suc n) rest next.0 next.1
                    soon,
                replayed_to-handled t pass (length fps) step (
                    bulk-Accounted h b s scope a policy (ticks n) headers guard "replay" fps
                      (some t) depth pass shop (soon n)),
              ))
      ]

  park_all-handled :
      (policy : Policy) (ticks : ℕ → Tick) (headers : Dict String Value)
      (guard : String → Result Bool) (depth : ℕ) (fps : List String) (pass : Pass)
      (shop : Shop h b s scope a)
      → Soon ticks
      → handled (park_all h b s scope a policy (ticks 0) headers guard depth fps (pass, shop)).0
        ≤ handled pass + length fps
  unfolding park_all
  park_all-handled policy ticks headers guard depth [] pass shop soon = omega arith
  park_all-handled policy ticks headers guard depth (fp ∷ fps) pass shop soon =
      parked_by-handled pass (length (fp ∷ fps))
        (bulk h b s scope a policy (ticks 0) headers guard "park" (fp ∷ fps) none depth pass shop)
        (bulk-Accounted h b s scope a policy (ticks 0) headers guard "park" (fp ∷ fps) none depth
          pass shop (soon 0))

  acted_on-handled :
      (policy : Policy) (ticks : ℕ → Tick) (headers : Dict String Value)
      (guard : String → Result Bool) (depth : ℕ) (preview : Bool) (p : Plan)
      (known : Dict ReplayTarget (Option ℕ)) (pass : Pass) (shop : Shop h b s scope a)
      → Soon ticks
      → handled
          (acted_on h b s scope a policy ticks headers guard depth preview p (known, pass) shop).0
        ≤ handled pass + acts p
  acted_on-handled policy ticks headers guard depth true p known pass shop soon = omega arith
  acted_on-handled policy ticks headers guard depth false p known pass shop soon =
      let next =
        replay_all h b s scope a policy ticks headers guard depth known 1 p.replay (pass, shop) in
      omega (
        arith,
        replay_all-handled policy ticks headers guard depth known 1 p.replay pass shop soon,
        park_all-handled policy ticks headers guard depth p.park next.0 next.1 soon,
      )

  planned-handled :
      (policy : Policy) (ticks : ℕ → Tick) (headers : Dict String Value)
      (guard : String → Result Bool) (get_queue : String → Result QueueInfo) (depth : ℕ)
      (preview : Bool) (n : ℕ) (shop : Shop h b s scope a) (most : ℕ) (planned_ : Result Plan)
      (pass : Pass)
      → Soon ticks
      → ((p : Plan) → planned_ ≡ ok p → acts p ≤ most)
      → (planned h b s scope a policy ticks headers guard get_queue depth preview n shop planned_).0
        ≡ ok pass
      → handled pass ≤ most
  planned-handled policy ticks headers guard get_queue depth preview n shop most (raise e) pass soon
        few ran =
      cc ran
  planned-handled policy ticks headers guard get_queue depth preview n shop most (ok p) pass soon
        few ran =
      let start = ask_all get_queue p.replay ([], planned_pass n p) in
      let done = acted_on h b s scope a policy ticks headers guard depth preview p start shop in
      let same : done.0 ≡ pass = ok-injective ran in
      let bound =
        acted_on-handled policy ticks headers guard depth preview p start.0 start.1 shop soon in
      let empty = ask_all-handled get_queue p.replay [] (planned_pass n p) in
      subst (λ x. handled x ≤ most) same (omega (arith, bound, empty, few p refl))

  scanned-handled :
      (policy : Policy) (ticks : ℕ → Tick) (headers : Dict String Value)
      (guard : String → Result Bool) (get_queue : String → Result QueueInfo) (depth cap now : ℕ)
      (preview : Bool) (shop : Shop h b s scope a) (answer : Result (Scan b) × World b)
      (pass : Pass)
      → Soon ticks
      → (scanned h b s scope a policy ticks headers guard get_queue depth cap now preview shop
          answer).0
        ≡ ok pass
      → handled pass ≤ at_most policy.cap cap
  scanned-handled policy ticks headers guard get_queue depth cap now preview shop (raise e, w) pass
        soon ran =
      cc ran
  scanned-handled policy ticks headers guard get_queue depth cap now preview shop (ok scan, w) pass
        soon ran =
      let rules = rules_of h b s scope a policy now (at_most policy.cap cap) in
      planned-handled policy ticks headers guard get_queue depth preview (length scan.records)
        (record shop { world = w }) (at_most policy.cap cap) (plan rules scan.records) pass soon
        (λ p made. (plan_accounts rules scan.records p made).1) ran

-- A pass of a policy replays, parks, fails and holds back at most its cap of messages, and at most the
-- limit on bulk actions, whatever the broker, the audit log and the management API do, when each of its
-- batches is executed before its dry run expires.
pub run-within_cap :
    (h : Hashing) (b : Broker) (s : Settings) (scope : Scope) (a : Audit) (policy : Policy)
    (ticks : ℕ → Tick) (headers : Dict String Value) (guard : String → Result Bool)
    (get_queue : String → Result QueueInfo) (depth cap now : ℕ) (preview : Bool)
    (shop : Shop h b s scope a) (pass : Pass)
    → Soon h b s scope a ticks
    → (run h b s scope a policy ticks headers guard get_queue depth cap now preview shop).0
      ≡ ok pass
    → (pass.replayed + pass.parked + pass.failed + pass.skipped_no_consumers ≤ policy.cap)
      × (pass.replayed + pass.parked + pass.failed + pass.skipped_no_consumers ≤ cap)
unfolding run
run-within_cap h b s scope a policy ticks headers guard get_queue depth cap now preview shop pass
      soon ran =
    let few =
      scanned-handled h b s scope a policy ticks headers guard get_queue depth cap now preview shop
        _ pass soon ran in
    (ground (arith, few), ground (arith, few))
