-- ===== src/Bulk/Repository.antt =====
-- `BulkBatchRepository` of app/infrastructure/persistence/store.py: the batches in the database, by
-- their primary key. The clock is an argument.
pub mod Payload
pub mod OneShot
pub mod Agreeing
pub mod Refinement
use queuelens.Prelude.{
  ℕ, String, Bool, true, false, not, Option, none, some, List, [], ◌∷◌, if◌then◌else◌, string_eq,
  ltb, length, filter, Dict, get, put, remove,
}
use queuelens.Failure.{Result, ok, raise, integrity_error}

module _ (P : Type 0) where
  pub record Stored : Type 0 where
    pub payload : P
    pub expires_at : ℕ

  abbrev pub Table : Type 0
  Table = Dict String Stored

  abbrev inserted : String → Stored → Table → Option Stored → Result Table
  inserted id row table none = ok (put table id row)
  inserted id row table (some taken) = raise integrity_error

  -- `save`: an INSERT, which a taken primary key makes raise.
  unfoldable pub save : String → P → ℕ → Table → Result Table
  unfolding put get
  save id payload expires_at table =
      inserted id (record { payload = payload; expires_at = expires_at }) table (get table id)

  abbrev pub unexpired : ℕ → Option Stored → Option P
  unexpired now none = none
  unexpired now (some row) = if ltb row.expires_at now then none else some row.payload

  -- `peek`
  unfoldable pub peek : ℕ → String → Table → Option P
  peek now id table = unexpired now (get table id)

  abbrev pub deleted : ℕ → String → Table → Option Stored → Option P × Table
  deleted now id table none = (none, table)
  deleted now id table (some row) =
      if ltb row.expires_at now then (none, table) else (some row.payload, remove table id)

  -- `take`: one statement deletes the row and returns its payload.
  unfoldable pub take : ℕ → String → Table → Option P × Table
  take now id table = deleted now id table (get table id)

  -- `prune_expired`: how many rows it deletes, and the rest.
  unfoldable pub prune_expired : ℕ → Table → ℕ × Table
  prune_expired now table = (
    length (filter (λ e. ltb e.1.expires_at now) table),
    filter (λ e. not (ltb e.1.expires_at now)) table,
  )
