-- ===== src/Bulk/Repository/Refinement.antt =====
-- The process's memory of batches (app/application/bulk_service.py) and the database's
-- (app/infrastructure/persistence/store.py) answer alike.
use mathlib.Core.Option
use queuelens.Prelude.{
  ℕ, ◌+◌, ◌≡◌, refl, sym, ap, ◌∙◌, inl, inr, String, Bool, true, false, not, Option, none, some,
  List, [], ◌∷◌, ◌==◌, string_eq, ltb, contains, get, put, ◌&&◌, map, get-put, get-remove, distinct,
  distinct-put, arith, Bool-cases,
}
use queuelens.Bulk.{Batch, Batches, prune_expired, take_batch}
use queuelens.Failure.{Result, ok, raise}
use queuelens.Bulk.Repository.Payload.{
  Payload, Texts, IsRead, batch_to_payload, batch_from_payload, in_order,
  batch_from_payload-batch_to_payload,
}
use queuelens.Bulk.Repository.{Stored, Table, save, peek, take, deleted}
use queuelens.Bulk.Repository.Agreeing.{
  distinct-filter, distinct-remove, Agree, with_row, save-Agree, take-Agree,
}

-- What the service asks of its store: to keep a batch (`_store_batch`), or to take one after some time
-- (`_take_batch`).
pub data Request : Type 0 where
  keeps : Batch → Request
  takes : ℕ → String → Request

-- The answers of the memory: a batch or none where one is taken, and none where one is kept.
abbrev pub by_memory : ℕ → Batches → List Request → List (Result (Option Batch))
by_memory now d [] = []
by_memory now d (keeps b ∷ rest) = ok none ∷ by_memory now (put d b.id b) rest
by_memory now d (takes wait id ∷ rest) =
    let step = take_batch (now + wait) id d in ok step.0 ∷ by_memory (now + wait) step.1 rest

-- `_batch_from_payload(payload) if payload else None`
abbrev read : Texts → Option Payload → Result (Option Batch)
read f none = ok none
read f (some []) = ok none
read f (some (e ∷ payload)) =
    queuelens.Failure.◌>>=◌ (batch_from_payload f (e ∷ payload)) λ b. ok (some b)

abbrev saved : Table Payload → Result (Table Payload) → Result (Option Batch) × Table Payload
saved before (ok after) = (ok none, after)
saved before (raise e) = (raise e, before)

-- Those of the database; a `save` that raises leaves the table as it was.
abbrev pub by_database : Texts → ℕ → Table Payload → List Request → List (Result (Option Batch))
by_database f now table [] = []
by_database f now table (keeps b ∷ rest) =
    let step = saved table (save Payload b.id (batch_to_payload f b) b.expires_at table) in
    step.0 ∷ by_database f now step.1 rest
by_database f now table (takes wait id ∷ rest) =
    let step = take Payload (now + wait) id table in
    read f step.0 ∷ by_database f (now + wait) step.1 rest

-- Every kept batch has an id that none had before.
abbrev pub new_ids : List String → List Request → Bool
new_ids seen [] = true
new_ids seen (keeps b ∷ rest) = not (contains seen b.id) && new_ids (b.id ∷ seen) rest
new_ids seen (takes wait id ∷ rest) = new_ids seen rest

-- An answer, the fingerprints of its batch in order.
abbrev pub ordered : Result (Option Batch) → Result (Option Batch)
ordered (ok found) = ok (Option.map in_order found)
ordered (raise e) = raise e

module _ (f : Texts) (known : IsRead f) where
  read-written :
      (found : Option Batch)
      → read f (Option.map (batch_to_payload f) found) ≡ ok (Option.map in_order found)
  unfolding batch_to_payload
  read-written none = refl
  read-written (some b) = rw (batch_from_payload-batch_to_payload f known b) refl

  later-Agree :
      (now wait : ℕ) (d : Batches) (table : Table Payload)
      → Agree f now d table
      → Agree f (now + wait) d table
  unfolding Agree
  later-Agree now wait d table same later id order = same later id (omega (arith, order))

  -- No row but those of ids that were kept.
  abbrev Rows : List String → Table Payload → Type 0
  Rows seen table = (k : String) → contains seen k ≡ false → get table k ≡ none

  Rows-save :
      (seen : List String) (b : Batch) (table : Table Payload)
      → Rows seen table
      → Rows (b.id ∷ seen) (with_row f b table)
  Rows-save seen b table rows k h =
      let other : (b.id == k) ≡ false =
        ground (arith, string_eq.agrees b.id k, string_eq.agrees k b.id, h) in
      rw other at (
        get-put table b.id k (record { payload = batch_to_payload f b; expires_at = b.expires_at }))
      ∙ rows k (ground (arith, h))

  Rows-deleted :
      (seen : List String) (now : ℕ) (id : String) (table : Table Payload)
      (row : Option (Stored Payload))
      → Rows seen table
      → Rows seen (deleted Payload now id table row).1
  Rows-deleted seen now id table none rows k h = rows k h
  Rows-deleted seen now id table (some row) rows k h = elim (Bool-cases (ltb row.expires_at now)) [
    | inl old ↦ rw old (rows k h)
    | inr kept ↦ rw kept (elim (Bool-cases (id == k)) [
      | inl here ↦ rw here at (get-remove table id k)
      | inr other ↦ (rw other at (get-remove table id k)) ∙ rows k h
    ])
  ]

  save-new :
      (b : Batch) (table : Table Payload)
      → get table b.id ≡ none
      → save Payload b.id (batch_to_payload f b) b.expires_at table ≡ ok (with_row f b table)
  unfolding save
  save-new b table missing = rw missing refl

  by_memory-Agree :
      (now : ℕ) (seen : List String) (d : Batches) (table : Table Payload) (requests : List Request)
      → distinct d ≡ true
      → Agree f now d table
      → Rows seen table
      → new_ids seen requests ≡ true
      → map ordered (by_memory now d requests) ≡ by_database f now table requests
  unfolding take_batch take
  by_memory-Agree now seen d table [] apart same rows fresh = refl
  by_memory-Agree now seen d table (keeps b ∷ rest) apart same rows fresh =
      rw (save-new b table (rows b.id (ground (arith, fresh)))) (
        ap (λ answers. ok none ∷ answers)
          (by_memory-Agree now (b.id ∷ seen) (put d b.id b) (with_row f b table) rest
            (distinct-put d b.id b apart) (save-Agree f now b d table same)
            (Rows-save seen b table rows) (ground (arith, fresh))))
  by_memory-Agree now seen d table (takes wait id ∷ rest) apart same rows fresh =
      let (answer, after) =
        take-Agree f (now + wait) id d table apart (later-Agree now wait d table same) in
      cc (
        sym (read-written (take_batch (now + wait) id d).0) ∙ ap (read f) answer,
        by_memory-Agree (now + wait) seen (take_batch (now + wait) id d).1
            (take Payload (now + wait) id table).1 rest
            (distinct-remove (prune_expired (now + wait) d) id
              (distinct-filter (λ e. not (ltb e.1.expires_at (now + wait))) d apart))
            after (Rows-deleted seen (now + wait) id table (get table id) rows) fresh,
      )

  nothing-Agree : (now : ℕ) → Agree f now [] []
  unfolding Agree get peek
  nothing-Agree now later id order = refl

-- The table of the database refines the memory of the process. Starting with nothing stored, whatever
-- batches the service keeps, each under a new id, and takes, at times that do not go back, `save` never
-- raises, each batch is read back from its payload, and both answer each request alike, but for the
-- order of a batch's set of fingerprints, which the database sorts.
pub by_memory-by_database :
    (f : Texts)
    → IsRead f
    → (now : ℕ) (requests : List Request) → new_ids [] requests ≡ true
    → map ordered (by_memory now [] requests) ≡ by_database f now [] requests
unfolding get
by_memory-by_database f known now requests fresh =
    by_memory-Agree f known now [] [] [] requests refl (nothing-Agree f known now) (λ k h. refl)
      fresh
