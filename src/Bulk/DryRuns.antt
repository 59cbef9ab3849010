-- ===== src/Bulk/DryRuns.antt =====
-- What a dry run leaves behind, and that an execution finds it (app/application/bulk_service.py).
use queuelens.Prelude.{
  ℕ, ◌+◌, ◌≤◌, ◌≡◌, refl, sym, ap, subst, inl, inr, String, Bool, true, not, Option, some, List, [],
  ◌∷◌, ◌==◌, string_eq, ltb, filter, get, put, beq_self, arith, Bool-cases,
}
use queuelens.Failure.{Result, ok, raise, Result-cases, returned, raised}
use queuelens.Domain.{MessageRecord, ReplayTarget}
use queuelens.Domain.Fingerprint.{Hashing}
use queuelens.Broker.{Broker, World}
use queuelens.Broker.Keeps.{ok-injective}
use queuelens.Browser.{list_messages}
use queuelens.Operator.{Action}
use queuelens.Snapshots.{Scope}
use queuelens.Bulk.{
  Settings, Request, Batch, Batches, resolve, scan_limit, batch_of, prune_expired, take_batch,
  stored, scanned, dry_run,
}
use queuelens.Bulk.Approval.{Approved, batch_of-Approved}

module _ (h : Hashing) (b : Broker) (s : Settings) (scope : Scope) where
  -- What a dry run answers when it stores a batch.
  record Stored (r : Request) (what : Action × Option ReplayTarget) (token : String) (now : ℕ)
      (whole : Bool) (batches : Batches) (p : Result (List MessageRecord) × World b) (batch : Batch)
      (after : Batches) (v : World b) : Type 0 where
    records : List MessageRecord
    scan : p ≡ (ok records, v)
    made : batch_of s scope r what token now whole records ≡ batch
    kept : put batches token (batch_of s scope r what token now whole records) ≡ after

  stored-Stored :
      (r : Request) (what : Action × Option ReplayTarget) (token : String) (now : ℕ) (whole : Bool)
      (batches : Batches) (p : Result (List MessageRecord) × World b) (batch : Batch)
      (after : Batches) (v : World b)
      → stored h b s scope r what token now whole batches p ≡ (ok batch, after, v)
      → Stored r what token now whole batches p batch after v
  stored-Stored r what token now whole batches (raise e, w) batch after v same = cc same
  stored-Stored r what token now whole batches (ok records, w) batch after v same = record {
    records = records;
    scan = ap (λ t. (ok records, t.2)) same;
    made = ok-injective (ap (λ t. t.0) same);
    kept = ap (λ t. t.1) same;
  }

  scanned-Approved :
      (r : Request) (what : Action × Option ReplayTarget) (token : String) (now : ℕ)
      (guard : Result Bool) (batches : Batches) (w v : World b) (batch : Batch) (after : Batches)
      → resolve s r ≡ ok what
      → scanned h b s scope r what token now guard batches w ≡ (ok batch, after, v)
      → Approved h s scope r token now guard batches w batch after v
  scanned-Approved r what token now (raise e) batches w v batch after asked same = cc same
  scanned-Approved r what token now (ok whole) batches w v batch after asked same =
      let f =
        stored-Stored r what token now whole batches
          (list_messages b h whole r.source_queue (scan_limit s r whole) w) batch after v same in
      subst (λ c. Approved h s scope r token now (ok whole) batches w c after v) f.made
        (subst
          (λ k.
            Approved h s scope r token now (ok whole) batches w
              (batch_of s scope r what token now whole f.records) k v)
          f.kept
          (batch_of-Approved h b s scope r what token now (ok whole) batches w v whole f.records
            asked refl f.scan))

-- A dry run that returns a batch has stored exactly it, under its token and with that token as its id, for the service's scope and
-- the queue and target asked for. Its fingerprints are distinct, no more than its messages, and each
-- is that of a message that this run's scan saw and, when there is a selection, that was selected.
pub dry_run-Approved :
    (h : Hashing) (b : Broker) (s : Settings) (scope : Scope) (r : Request) (token : String)
    (now : ℕ) (guard : Result Bool) (batches after : Batches) (w v : World b) (batch : Batch)
    → dry_run h b s scope r token now guard batches w ≡ (ok batch, after, v)
    → Approved h s scope r token now guard batches w batch after v
unfolding dry_run
dry_run-Approved h b s scope r token now guard batches after w v batch e =
    elim (Result-cases (resolve s r)) [
      | raised f bad ↦ cc (rw bad at e)
      | returned what asked ↦
          scanned-Approved h b s scope r what token now guard batches w v batch after asked
            (rw asked at e)
    ]

get-filter-put :
    (keep : (String × Batch) → Bool) (batches : Batches) (id : String) (batch : Batch)
    → ((j : String) → (j == id) ≡ true → keep (j, batch) ≡ true)
    → get (filter keep (put batches id batch)) id ≡ some batch
unfolding get put
get-filter-put keep [] id batch stays = rw (stays id (beq_self id), beq_self id) refl
get-filter-put keep ((j, other) ∷ rest) id batch stays = elim (Bool-cases (j == id)) [
  | inl same ↦ rw (same, stays j same, same) refl
  | inr differs ↦ elim (Bool-cases (keep (j, other))) [
    | inl kept ↦ rw (differs, kept, differs) (get-filter-put keep rest id batch stays)
    | inr gone ↦ rw (differs, gone) (get-filter-put keep rest id batch stays)
  ]
]

-- The batch of a dry run is the one that its token takes, at any time up to its expiry.
pub take_batch-dry_run :
    (h : Hashing) (b : Broker) (s : Settings) (scope : Scope) (r : Request) (token : String)
    (now later : ℕ) (guard : Result Bool) (batches after : Batches) (w v : World b) (batch : Batch)
    → dry_run h b s scope r token now guard batches w ≡ (ok batch, after, v)
    → later ≤ now + s.bulk_dry_run_ttl
    → (take_batch later token after).0 ≡ some batch
unfolding take_batch
take_batch-dry_run h b s scope r token now later guard batches after w v batch e soon =
    let a = dry_run-Approved h b s scope r token now guard batches after w v batch e in
    subst (λ k. get (prune_expired later k) token ≡ some batch) (sym a.kept)
      (get-filter-put (λ e. not (ltb e.1.expires_at later)) batches token batch
        (λ j same. ground (arith, a.addressed.2, soon)))
