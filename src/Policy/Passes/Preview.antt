-- ===== src/Policy/Passes/Preview.antt =====
-- A preview moves nothing (app/application/replay_policies.py, app/application/message_service.py).
use queuelens.Prelude.{ℕ, ◌≡◌, refl, String, Bool, true, some, length, Dict}
use queuelens.Value.{Value}
use queuelens.Failure.{Result, ok, raise}
use queuelens.Domain.Fingerprint.{Hashing}
use queuelens.Broker.{Broker, World}
use queuelens.Browser.{Scan, scan, scan_bytes_budget}
use queuelens.Browser.Scanning.{Untouched, scan-Untouched}
use queuelens.Queues.Listing.{QueueInfo}
use queuelens.Snapshots.{Scope}
use queuelens.Messages.{snapshot, copied}
use queuelens.Bulk.{Settings}
use queuelens.Audited.{Audit, Shop}
use queuelens.Policy.Plan.{Plan}
use queuelens.Policy.Passes.{Policy, Tick, planned, scanned, run}

copied-Untouched :
    (h : Hashing) (b : Broker) (queue : String) (depth : ℕ) (guard : Result Bool) (w : World b)
    → Untouched w.log (copied h b queue depth guard w).1
copied-Untouched h b queue depth (raise e) w = (refl, refl)
copied-Untouched h b queue depth (ok whole) w =
    scan-Untouched b h whole queue depth (some scan_bytes_budget) w

snapshot-Untouched :
    (h : Hashing) (b : Broker) (queue : String) (depth : ℕ) (guard : Result Bool) (w : World b)
    → Untouched w.log (snapshot h b queue depth guard w).1
unfolding snapshot
snapshot-Untouched h b queue depth guard w = copied-Untouched h b queue depth guard w

module _ (h : Hashing) (b : Broker) (s : Settings) (scope : Scope) (a : Audit) where
  -- Only the broker's state may differ.
  planned-shop :
      (policy : Policy) (ticks : ℕ → Tick) (headers : Dict String Value)
      (guard : String → Result Bool) (get_queue : String → Result QueueInfo) (depth n : ℕ)
      (shop : Shop h b s scope a) (planned_ : Result Plan)
      → (planned h b s scope a policy ticks headers guard get_queue depth true n shop planned_).1
        ≡ shop
  planned-shop policy ticks headers guard get_queue depth n shop (raise e) = refl
  planned-shop policy ticks headers guard get_queue depth n shop (ok p) = refl

  scanned-shop :
      (policy : Policy) (ticks : ℕ → Tick) (headers : Dict String Value)
      (guard : String → Result Bool) (get_queue : String → Result QueueInfo) (depth cap now : ℕ)
      (shop : Shop h b s scope a) (answer : Result (Scan b) × World b)
      → (scanned h b s scope a policy ticks headers guard get_queue depth cap now true shop
          answer).1
        ≡ record shop { world = answer.1 }
  scanned-shop policy ticks headers guard get_queue depth cap now shop (raise e, w) = refl
  scanned-shop policy ticks headers guard get_queue depth cap now shop (ok scan, w) =
      planned-shop policy ticks headers guard get_queue depth (length scan.records)
        (record shop { world = w }) _

-- A preview of a policy changes nothing, whatever the broker answers and however it ends: no message is
-- acknowledged or published, no batch is stored or spent, and nothing is entered in the audit log.
pub run-preview :
    (h : Hashing) (b : Broker) (s : Settings) (scope : Scope) (a : Audit) (policy : Policy)
    (ticks : ℕ → Tick) (headers : Dict String Value) (guard : String → Result Bool)
    (get_queue : String → Result QueueInfo) (depth cap now : ℕ) (shop : Shop h b s scope a)
    → let after =
        (run h b s scope a policy ticks headers guard get_queue depth cap now true shop).1 in
      Untouched shop.world.log after.world
      × (after.batches ≡ shop.batches)
      × (after.book ≡ shop.book)
unfolding run
run-preview h b s scope a policy ticks headers guard get_queue depth cap now shop =
    let answer = snapshot h b policy.queue depth (guard policy.queue) shop.world in
    rw (scanned-shop h b s scope a policy ticks headers guard get_queue depth cap now shop answer)
      (snapshot-Untouched h b policy.queue depth (guard policy.queue) shop.world, refl, refl)
