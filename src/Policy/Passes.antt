-- ===== src/Policy/Passes.antt =====
-- `PolicyRunner.run` of app/application/replay_policies.py: what one pass of a policy does to the broker,
-- the batches and the audit log. The clocks, tokens and time texts of its bulk actions come in a
-- supply, by their number; limits, custom headers and the queues' descriptions are arguments.
mod Counting
pub mod Bulks
pub mod Cap
pub mod Preview
mod Asking
unfoldable pub use Asking.*
use Prim.Native.String.{◌++◌ as joined}
use queuelens.Prelude.{
  ℕ, zero, suc, ◌+◌, String, Bool, true, false, Option, none, some, List, [], ◌∷◌, ◌++◌, ◌==◌,
  if◌then◌else◌, nat_eq, string_eq, leb, length, or_else, Dict, get, put,
}
use queuelens.Value.{Value}
use queuelens.Failure.{Failure, Result, ok, raise}
use queuelens.Domain.{ReplayTarget, target_eq}
use queuelens.Domain.Fingerprint.{Hashing}
use queuelens.Broker.{Broker, World}
use queuelens.Browser.{Scan}
use queuelens.Operator.{Action, move, blank}
use queuelens.Queues.Listing.{QueueInfo}
use queuelens.Snapshots.{Scope}
use queuelens.Messages.{snapshot}
use queuelens.Bulk.{
  Settings, Request, Batch, Batches, Summary, Executed, configured_target, nonzero_or, dry_run,
}
use queuelens.Audited.{Audit, Shop, execute_audited}
use queuelens.Policy.Plan.{Plan, Rules, plan}

module _ (h : Hashing) (b : Broker) (s : Settings) (scope : Scope) (a : Audit) where
  -- The request that `_bulk` makes of the bulk service.
  abbrev pub request_of : Policy → String → List String → Option ReplayTarget → ℕ → Request
  request_of policy action fps target depth = record {
    source_queue = policy.queue;
    action = action;
    mode = move;
    target = target;
    payload_contains = [];
    selected_fingerprints = some fps;
    max_bulk = some (length fps);
    scan_limit = some depth;
    depth = some depth;
  }

  abbrev pub Step : Type 0
  Step = Note × Pass × Shop h b s scope a

  -- `except Exception`: all its messages count as failed.
  abbrev pub bulk_failed : String → List String → Failure → Pass → Shop h b s scope a → Step
  bulk_failed action fps e pass shop = (
    all_failed (length fps),
    record pass { failed = pass.failed + length fps; errors = pass.errors ++ (action, e) ∷ [] },
    shop,
  )

  abbrev pub bulk_ran : String → List String → Pass → Result Executed × Shop h b s scope a → Step
  bulk_ran action fps pass (raise e, shop) = bulk_failed action fps e pass shop
  bulk_ran action fps pass (ok done, shop) =
      (summed done.summary, record pass { failed = pass.failed + done.summary.failed }, shop)

  abbrev pub bulk_tried :
      Policy
      → Tick
      → Dict String Value
      → (String → Result Bool)
      → String
      → List String
      → Pass
      → Shop h b s scope a
      → Result Batch × Batches × World b
      → Step
  bulk_tried policy tick headers guard action fps pass shop (raise e, batches, w) =
      bulk_failed action fps e pass (record shop { batches = batches; world = w })
  bulk_tried policy tick headers guard action fps pass shop (ok batch, batches, w) =
      bulk_ran action fps pass (
        execute_audited h b s scope a policy.username batch.id headers tick.stamp tick.execute_at
          guard (record shop { batches = batches; world = w }))

  -- `_bulk`
  unfoldable pub bulk :
      Policy
      → Tick
      → Dict String Value
      → (String → Result Bool)
      → String
      → List String
      → Option ReplayTarget
      → ℕ
      → Pass
      → Shop h b s scope a
      → Step
  unfolding dry_run execute_audited
  bulk policy tick headers guard action fps target depth pass shop =
      bulk_tried policy tick headers guard action fps pass shop (
        dry_run h b s scope (request_of policy action fps target depth) tick.token tick.dry_run_at
          (guard policy.queue) shop.batches shop.world)

  -- `summary.get("succeeded", 0)`
  abbrev pub succeeded_in : Note → ℕ
  succeeded_in (summed summary) = summary.succeeded
  succeeded_in _ = 0

  abbrev pub replayed_to : ReplayTarget → Step → Pass × Shop h b s scope a
  replayed_to t (note, pass, shop) = (
    record pass {
      replayed = pass.replayed + succeeded_in note;
      targets = put pass.targets (target_name t) note;
    },
    shop,
  )

  abbrev pub skipped : ReplayTarget → List String → Pass → Pass
  skipped t fps pass = record pass {
    skipped_no_consumers = pass.skipped_no_consumers + length fps;
    targets = put pass.targets (target_name t) (no_consumers (length fps));
  }

  -- The replays, one target after the other; the ticks start at number `n`.
  unfoldable pub replay_all :
      Policy
      → (ℕ → Tick)
      → Dict String Value
      → (String → Result Bool)
      → ℕ
      → Dict ReplayTarget (Option ℕ)
      → ℕ
      → Dict ReplayTarget (List String)
      → Pass × Shop h b s scope a
      → Pass × Shop h b s scope a
  unfolding bulk get put target_name
  replay_all policy ticks headers guard depth known n [] so_far = so_far
  replay_all policy ticks headers guard depth known n ((t, fps) ∷ rest) (pass, shop) =
      let others = replay_all policy ticks headers guard depth known (suc n) rest in
      if is_zero (get known t)
      then others (skipped t fps pass, shop)
      else others (
          replayed_to t (bulk policy (ticks n) headers guard "replay" fps (some t) depth pass shop))

  abbrev pub parked_by : Step → Pass × Shop h b s scope a
  parked_by (note, pass, shop) = (record pass { parked = pass.parked + succeeded_in note }, shop)

  unfoldable pub park_all :
      Policy
      → Tick
      → Dict String Value
      → (String → Result Bool)
      → ℕ
      → List String
      → Pass × Shop h b s scope a
      → Pass × Shop h b s scope a
  unfolding bulk
  park_all policy tick headers guard depth [] so_far = so_far
  park_all policy tick headers guard depth (fp ∷ fps) (pass, shop) =
      parked_by (bulk policy tick headers guard "park" (fp ∷ fps) none depth pass shop)

  -- `if preview: …` and what follows it
  abbrev pub acted_on :
      Policy
      → (ℕ → Tick)
      → Dict String Value
      → (String → Result Bool)
      → ℕ
      → Bool
      → Plan
      → Dict ReplayTarget (Option ℕ) × Pass
      → Shop h b s scope a
      → Pass × Shop h b s scope a
  acted_on policy ticks headers guard depth preview p (known, pass) shop =
      if preview
      then (record pass { targets = previewed known p.replay []; to_park = length p.park }, shop)
      else park_all policy (ticks 0) headers guard depth p.park
          (replay_all policy ticks headers guard depth known 1 p.replay (pass, shop))

  abbrev pub rules_of : Policy → ℕ → ℕ → Rules
  rules_of policy now cap = record {
    dlq = policy.queue;
    now = now;
    max_deaths = policy.max_deaths;
    backoff_minutes = policy.backoff_minutes;
    cap = cap;
    fallback = configured_target s policy.queue;
  }

  abbrev pub planned :
      Policy
      → (ℕ → Tick)
      → Dict String Value
      → (String → Result Bool)
      → (String → Result QueueInfo)
      → ℕ
      → Bool
      → ℕ
      → Shop h b s scope a
      → Result Plan
      → Result Pass × Shop h b s scope a
  planned policy ticks headers guard get_queue depth preview scanned shop (raise e) =
      (raise e, shop)
  planned policy ticks headers guard get_queue depth preview scanned shop (ok p) =
      let done =
        acted_on policy ticks headers guard depth preview p
          (ask_all get_queue p.replay ([], planned_pass scanned p)) shop in
      (ok done.0, done.1)

  abbrev pub scanned :
      Policy
      → (ℕ → Tick)
      → Dict String Value
      → (String → Result Bool)
      → (String → Result QueueInfo)
      → ℕ
      → ℕ
      → ℕ
      → Bool
      → Shop h b s scope a
      → Result (Scan b) × World b
      → Result Pass × Shop h b s scope a
  scanned policy ticks headers guard get_queue depth cap now preview shop (raise e, w) =
      (raise e, record shop { world = w })
  scanned policy ticks headers guard get_queue depth cap now preview shop (ok scan, w) =
      planned policy ticks headers guard get_queue depth preview (length scan.records)
        (record shop { world = w })
        (plan (rules_of policy now (at_most policy.cap cap)) scan.records)

  -- `_run`, up to `_finish`; `depth` and `cap` are the limits.
  unfoldable pub run :
      Policy
      → (ℕ → Tick)
      → Dict String Value
      → (String → Result Bool)
      → (String → Result QueueInfo)
      → ℕ
      → ℕ
      → ℕ
      → Bool
      → Shop h b s scope a
      → Result Pass × Shop h b s scope a
  unfolding snapshot plan configured_target ask_all previewed replay_all park_all
  run policy ticks headers guard get_queue depth cap now preview shop =
      scanned policy ticks headers guard get_queue depth cap now preview shop
        (snapshot h b policy.queue depth (guard policy.queue) shop.world)
