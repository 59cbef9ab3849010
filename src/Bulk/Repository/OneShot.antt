-- ===== src/Bulk/Repository/OneShot.antt =====
-- Tokens in the database are spent once (app/infrastructure/persistence/store.py).
use queuelens.Prelude.{
  ℕ, ◌≤◌, ◌≡◌, refl, sym, ap, ◌∙◌, inl, inr, String, true, false, none, some, ◌==◌, string_eq, ltb,
  get, remove, get-remove, beq_self, arith, Bool-cases, Option-cases,
}
use queuelens.Bulk.Repository.{Stored, Table, unexpired, peek, take}

module _ (P : Type 0) where
  peek-missing :
      (now : ℕ) (id : String) (table : Table P) → get table id ≡ none → peek P now id table ≡ none
  unfolding peek
  peek-missing now id table missing = rw missing refl

  peek-expired :
      (now : ℕ) (id : String) (table : Table P) (row : Stored P)
      → get table id ≡ some row
      → ltb row.expires_at now ≡ true
      → peek P now id table ≡ none
  unfolding peek
  peek-expired now id table row there old = rw there (rw old refl)

  peek-valid :
      (now : ℕ) (id : String) (table : Table P) (row : Stored P)
      → get table id ≡ some row
      → ltb row.expires_at now ≡ false
      → peek P now id table ≡ some row.payload
  unfolding peek
  peek-valid now id table row there valid = rw there (rw valid refl)

  peek-same :
      (now : ℕ) (id : String) (before after : Table P)
      → get after id ≡ get before id
      → peek P now id after ≡ peek P now id before
  unfolding peek
  peek-same now id before after same = ap (unexpired P now) same

  -- Taking a batch returns what a look at it returned; afterwards, for as long as the clock does not go
  -- back, its token finds nothing, and every other token finds what it found.
  pub take-peek :
      (now later : ℕ) (id other : String) (table : Table P)
      → now ≤ later
      → (id == other) ≡ false
      → ((take P now id table).0 ≡ peek P now id table)
        × (peek P later id (take P now id table).1 ≡ none)
        × (peek P later other (take P now id table).1 ≡ peek P later other table)
  unfolding take
  take-peek now later id other table order differs = elim (Option-cases (get table id)) [
    | inl missing ↦
        rw missing
          (sym (peek-missing now id table missing), peek-missing later id table missing, refl)
    | inr (row, there) ↦ elim (Bool-cases (ltb row.expires_at now)) [
      | inl old ↦
          rw (there, old)
            (
              sym (peek-expired now id table row there old),
              peek-expired later id table row there (ground (arith, old, order)),
              refl,
            )
      | inr valid ↦
          rw (there, valid)
            (
              sym (peek-valid now id table row there valid),
              peek-missing later id (remove table id)
                  (get-remove table id id ∙ rw (beq_self id) refl),
              peek-same later other table (remove table id)
                  (get-remove table id other ∙ rw differs refl),
            )
    ]
  ]
