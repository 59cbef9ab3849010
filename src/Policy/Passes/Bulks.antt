-- ===== src/Policy/Passes/Bulks.antt =====
-- What a bulk action of a pass adds up to (app/application/replay_policies.py).
use queuelens.Prelude.{
  ℕ, ◌+◌, ◌≤◌, ◌≡◌, refl, sym, ◌∙◌, subst, String, Bool, true, Option, some, List, string_eq,
  length, contains, All, All-mono, arith, Dict, get,
}
use queuelens.Value.{Value}
use queuelens.Failure.{Result, ok, raise}
use queuelens.Domain.{ReplayTarget, target_eq}
use queuelens.Domain.Fingerprint.{Hashing}
use queuelens.Broker.{Broker, World}
use queuelens.Snapshots.{Scope}
use queuelens.Bulk.{Settings, Batch, Batches, Executed, dry_run, take_batch}
use queuelens.Bulk.Approval.{Distinct, Wanted}
use queuelens.Bulk.DryRuns.{dry_run-Approved, take_batch-dry_run}
use queuelens.Bulk.Summaries.{execute-Done}
use queuelens.Audited.{Audit, Book, Shop, execute_audited, batch_headers}
use queuelens.Audited.Runs.{execute_audited-Ran}
use queuelens.Policy.Passes.Counting.{length-Distinct}
use queuelens.Policy.Passes.{
  Policy, Tick, Pass, Note, bulk, bulk_tried, bulk_ran, request_of, succeeded_in,
}

some-injective : {A : Type 0} {x y : A} → some x ≡ some y → x ≡ y
some-injective h = cc h

-- A batch of selected messages is no larger than the selection.
selected-few :
    (P : String → Type 0) (batch : Batch) (fps : List String)
    → Distinct batch.fingerprints
    → All (λ fp. P fp × Wanted (some fps) fp) batch.fingerprints
    → length batch.fingerprints ≤ length fps
unfolding Wanted
selected-few P batch fps apart wanted = length-Distinct batch.fingerprints fps apart (
    All-mono (λ fp. P fp × (contains fps fp ≡ true)) (λ fp. contains fps fp ≡ true)
      batch.fingerprints (λ fp both. both.1) wanted)

module _ (h : Hashing) (b : Broker) (s : Settings) (scope : Scope) (a : Audit) where
  -- What a bulk action adds up to.
  abbrev pub Accounted : Pass → ℕ → Note × Pass × Shop h b s scope a → Type 0
  Accounted before n (note, pass, shop) =
      (succeeded_in h b s scope a note + pass.failed ≤ before.failed + n)
      × (pass.replayed ≡ before.replayed)
      × (pass.parked ≡ before.parked)
      × (pass.skipped_no_consumers ≡ before.skipped_no_consumers)

  executed-within :
      (policy : Policy) (tick : Tick) (headers : Dict String Value) (guard : String → Result Bool)
      (action : String) (fps : List String) (target : Option ReplayTarget) (depth : ℕ)
      (batches after : Batches) (w v : World b) (batch : Batch) (book : Book a) (done : Executed)
      → tick.execute_at ≤ tick.dry_run_at + s.bulk_dry_run_ttl
      → dry_run h b s scope
          (request_of h b s scope a policy action fps target depth)
          tick.token
          tick.dry_run_at
          (guard policy.queue)
          batches
          w
        ≡ (ok batch, after, v)
      → (execute_audited h b s scope a policy.username batch.id headers tick.stamp tick.execute_at
          guard
          (record { batches = after; world = v; book = book })).0
        ≡ ok done
      → done.summary.succeeded + done.summary.failed ≤ length fps
  executed-within policy tick headers guard action fps target depth batches after w v batch book
        done soon made ran =
      let request = request_of h b s scope a policy action fps target depth in
      let approved =
        dry_run-Approved h b s scope request tick.token tick.dry_run_at (guard policy.queue) batches
          after w v batch made in
      let (kept, v', ran') =
        execute_audited-Ran h b s scope a policy.username batch.id headers tick.stamp
          tick.execute_at guard (record { batches = after; world = v; book = book }) done ran in
      let result =
        execute-Done h b s scope batch.id
          (batch_headers headers (get after batch.id) policy.username tick.stamp) tick.execute_at
          guard after kept v v' done ran' in
      let found =
        take_batch-dry_run h b s scope request tick.token tick.dry_run_at tick.execute_at
          (guard policy.queue) batches after w v batch made soon in
      let same : batch ≡ done.batch = some-injective (
        sym found
        ∙ subst (λ id. (take_batch tick.execute_at id after).0 ≡ some done.batch) approved.named
            result.taken) in
      let few : length batch.fingerprints ≤ length fps =
        selected-few _ batch fps approved.distinct approved.justified in
      let few' = subst (λ (c : Batch). length c.fingerprints ≤ length fps) same few in
      omega (arith, few', result.accounted, result.requested)

  bulk_ran-Accounted :
      (action : String) (fps : List String) (pass : Pass)
      (answer : Result Executed × Shop h b s scope a)
      → ((done : Executed)
          → answer.0 ≡ ok done
          → done.summary.succeeded + done.summary.failed ≤ length fps)
      → Accounted pass (length fps) (bulk_ran h b s scope a action fps pass answer)
  bulk_ran-Accounted action fps pass (raise e, shop) few = (omega arith, refl, refl, refl)
  bulk_ran-Accounted action fps pass (ok done, shop) few =
      (omega (arith, few done refl), refl, refl, refl)

  bulk_tried-Accounted :
      (policy : Policy) (tick : Tick) (headers : Dict String Value) (guard : String → Result Bool)
      (action : String) (fps : List String) (target : Option ReplayTarget) (depth : ℕ) (pass : Pass)
      (shop : Shop h b s scope a) (answer : Result Batch × Batches × World b)
      → tick.execute_at ≤ tick.dry_run_at + s.bulk_dry_run_ttl
      → dry_run h b s scope
          (request_of h b s scope a policy action fps target depth)
          tick.token
          tick.dry_run_at
          (guard policy.queue)
          shop.batches
          shop.world
        ≡ answer
      → Accounted pass
          (length fps)
          (bulk_tried h b s scope a policy tick headers guard action fps pass shop answer)
  bulk_tried-Accounted policy tick headers guard action fps target depth pass shop
        (raise e, after, v) soon made =
      (omega arith, refl, refl, refl)
  bulk_tried-Accounted policy tick headers guard action fps target depth pass shop
        (ok batch, after, v) soon made =
      bulk_ran-Accounted action fps pass
        (execute_audited h b s scope a policy.username batch.id headers tick.stamp tick.execute_at
          guard (record shop { batches = after; world = v }))
        (λ done ran.
          executed-within policy tick headers guard action fps target depth shop.batches after
            shop.world v batch shop.book done soon made ran)

  pub bulk-Accounted :
      (policy : Policy) (tick : Tick) (headers : Dict String Value) (guard : String → Result Bool)
      (action : String) (fps : List String) (target : Option ReplayTarget) (depth : ℕ) (pass : Pass)
      (shop : Shop h b s scope a)
      → tick.execute_at ≤ tick.dry_run_at + s.bulk_dry_run_ttl
      → Accounted pass
          (length fps)
          (bulk h b s scope a policy tick headers guard action fps target depth pass shop)
  unfolding bulk
  bulk-Accounted policy tick headers guard action fps target depth pass shop soon =
      bulk_tried-Accounted policy tick headers guard action fps target depth pass shop _ soon refl
