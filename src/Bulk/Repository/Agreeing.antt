-- ===== src/Bulk/Repository/Agreeing.antt =====
-- The process's memory of batches (app/application/bulk_service.py) and the database's
-- (app/infrastructure/persistence/store.py) hold the same.
use mathlib.Core.Option
use queuelens.Prelude.{
  ℕ, ◌≤◌, ◌≡◌, refl, sym, ap, ◌∙◌, subst, inl, inr, String, Bool, true, false, Option, none, some,
  [], ◌∷◌, if◌then◌else◌, ◌==◌, string_eq, ltb, filter, contains, keys, get, put, remove, get-put,
  get-remove, distinct, get-missing, arith, Bool-cases,
}
use queuelens.Bulk.{Batch, Batches, prune_expired, take_batch}
use queuelens.Bulk.Repository.Payload.{Payload, Texts, batch_to_payload}
use queuelens.Bulk.Repository.{Stored, Table, unexpired, peek, take, deleted}

-- Python's dicts keep distinct keys when entries go.
contains-keys-filter :
    (p : String × Batch → Bool) (d : Batches) (k : String)
    → contains (keys d) k ≡ false
    → contains (keys (filter p d)) k ≡ false
contains-keys-filter p [] k h = refl
contains-keys-filter p ((j, b) ∷ d) k h = ground (arith, contains-keys-filter p d k, h)

pub distinct-filter :
    (p : String × Batch → Bool) (d : Batches) → distinct d ≡ true → distinct (filter p d) ≡ true
distinct-filter p [] h = refl
distinct-filter p ((j, b) ∷ d) h =
    ground (arith, contains-keys-filter p d j, distinct-filter p d, h)

contains-keys-remove :
    (d : Batches) (i k : String)
    → contains (keys d) k ≡ false
    → contains (keys (remove d i)) k ≡ false
unfolding remove
contains-keys-remove [] i k h = refl
contains-keys-remove ((j, b) ∷ d) i k h = ground (arith, contains-keys-remove d i k, h)

pub distinct-remove : (d : Batches) (i : String) → distinct d ≡ true → distinct (remove d i) ≡ true
unfolding remove
distinct-remove [] i h = refl
distinct-remove ((j, b) ∷ d) i h =
    ground (arith, contains-keys-remove d i j, distinct-remove d i, h)

-- What a look at a batch finds at a time.
abbrev valid : ℕ → Option Batch → Option Batch
valid now none = none
valid now (some b) = if ltb b.expires_at now then none else some b

get-prune_expired :
    (now : ℕ) (d : Batches) (id : String)
    → distinct d ≡ true
    → get (prune_expired now d) id ≡ valid now (get d id)
unfolding get
get-prune_expired now [] id h = refl
get-prune_expired now ((j, b) ∷ d) id h = elim (Bool-cases (ltb b.expires_at now)) [
  | inr kept ↦ elim (Bool-cases (j == id)) [
    | inl same ↦ rw (kept, same) (rw kept refl)
    | inr other ↦ rw (kept, other) (get-prune_expired now d id (ground (arith, h)))
  ]
  | inl old ↦ elim (Bool-cases (j == id)) [
    | inl same ↦
        let gone : get d id ≡ none = get-missing d id (
          subst (λ k. contains (keys d) k ≡ false) ((string_eq.agrees j id).0 same)
            (ground (arith, h))) in
        rw (old, same)
          (get-prune_expired now d id (ground (arith, h)) ∙ ap (valid now) gone ∙ sym (rw old refl))
    | inr other ↦ rw (old, other) (get-prune_expired now d id (ground (arith, h)))
  ]
]

valid-later :
    (now later : ℕ) (found : Option Batch)
    → now ≤ later
    → valid later (valid now found) ≡ valid later found
valid-later now later none h = refl
valid-later now later (some b) h = ground (arith, h)

-- From a time on, each token finds the same in both, as it is written in the database.
module _ (f : Texts) where
  unfoldable pub Agree : ℕ → Batches → Table Payload → Type 0
  Agree now d table =
      (later : ℕ) (id : String)
      → now ≤ later
      → Option.map (batch_to_payload f) (valid later (get d id)) ≡ peek Payload later id table

  -- The table with a batch saved in it, under a new id.
  abbrev pub with_row : Batch → Table Payload → Table Payload
  with_row b table =
      put table b.id (record { payload = batch_to_payload f b; expires_at = b.expires_at })

  found-valid :
      (later : ℕ) (b : Batch)
      → Option.map (batch_to_payload f) (valid later (some b))
        ≡ unexpired Payload later
            (some (record { payload = batch_to_payload f b; expires_at = b.expires_at }))
  found-valid later b = elim (Bool-cases (ltb b.expires_at later)) [
    | inl old ↦ rw old refl
    | inr kept ↦ rw kept refl
  ]

  pub save-Agree :
      (now : ℕ) (b : Batch) (d : Batches) (table : Table Payload)
      → Agree now d table
      → Agree now (put d b.id b) (with_row b table)
  unfolding Agree peek
  save-Agree now b d table same later k order =
      let row : Stored Payload = record {
        payload = batch_to_payload f b;
        expires_at = b.expires_at;
      } in
      elim (Bool-cases (b.id == k)) [
        | inl here ↦
            ap (λ o. Option.map (batch_to_payload f) (valid later o))
              (rw here at (get-put d b.id k b))
            ∙ found-valid later b
            ∙ ap (unexpired Payload later) (sym (rw here at (get-put table b.id k row)))
        | inr other ↦
            ap (λ o. Option.map (batch_to_payload f) (valid later o))
              (rw other at (get-put d b.id k b))
            ∙ same later k order
            ∙ ap (unexpired Payload later) (sym (rw other at (get-put table b.id k row)))
      ]

-- What taking a batch leaves in the table.
peek-deleted :
    (now later : ℕ) (id k : String) (table : Table Payload) (row : Option (Stored Payload))
    → now ≤ later
    → get table id ≡ row
    → peek Payload later k (deleted Payload now id table row).1
      ≡ (if id == k then none else peek Payload later k table)
unfolding peek
peek-deleted now later id k table none order there = elim (Bool-cases (id == k)) [
  | inr other ↦ rw other refl
  | inl here ↦ rw here (
      ap (unexpired Payload later)
        (subst (λ j. get table j ≡ none) ((string_eq.agrees id k).0 here) there))
]
peek-deleted now later id k table (some row) order there =
    elim (Bool-cases (ltb row.expires_at now)) [
      | inl old ↦ elim (Bool-cases (id == k)) [
        | inr other ↦ rw (old, other) refl
        | inl here ↦
            let gone : ltb row.expires_at later ≡ true = ground (arith, old, order) in
            rw (old, here)
              (ap (unexpired Payload later)
                  (subst (λ j. get table j ≡ some row) ((string_eq.agrees id k).0 here) there)
                ∙ rw gone refl)
      ]
      | inr kept ↦ elim (Bool-cases (id == k)) [
        | inl here ↦
            rw (kept, here) (ap (unexpired Payload later) (rw here at (get-remove table id k)))
        | inr other ↦
            rw (kept, other) (ap (unexpired Payload later) (rw other at (get-remove table id k)))
      ]
    ]

deleted-found :
    (now : ℕ) (id : String) (table : Table Payload) (row : Option (Stored Payload))
    → (deleted Payload now id table row).0 ≡ unexpired Payload now row
deleted-found now id table none = refl
deleted-found now id table (some row) = elim (Bool-cases (ltb row.expires_at now)) [
  | inl old ↦ rw old refl
  | inr kept ↦ rw kept refl
]

module _ (f : Texts) where
  pub take-Agree :
      (now : ℕ) (id : String) (d : Batches) (table : Table Payload)
      → distinct d ≡ true
      → Agree f now d table
      → (Option.map (batch_to_payload f) (take_batch now id d).0 ≡ (take Payload now id table).0)
        × Agree f now (take_batch now id d).1 (take Payload now id table).1
  unfolding Agree take_batch take peek
  take-Agree now id d table apart same = (
    ap (Option.map (batch_to_payload f)) (get-prune_expired now d id apart)
        ∙ same now id (omega arith)
        ∙ sym (deleted-found now id table (get table id)),
    λ later k order.
        ap (λ o. Option.map (batch_to_payload f) (valid later o))
          (get-remove (prune_expired now d) id k)
        ∙ elim (Bool-cases (id == k)) [
          | inl here ↦
              rw here
                (sym (peek-deleted now later id k table (get table id) order refl ∙ rw here refl))
          | inr other ↦ rw other (
              ap (λ o. Option.map (batch_to_payload f) (valid later o))
                (get-prune_expired now d k apart)
              ∙ ap (Option.map (batch_to_payload f)) (valid-later now later (get d k) order)
              ∙ same later k order
              ∙ sym (peek-deleted now later id k table (get table id) order refl ∙ rw other refl))
        ],
  )
