-- ===== src/Bulk/Tokens.antt =====
-- The tokens of bulk batches (app/application/bulk_service.py): an execution spends its token.
use queuelens.Prelude.{
  ℕ, ◌≡◌, refl, ap, ◌∙◌, inl, inr, String, Bool, Option, none, some, List, [], ◌∷◌, ◌==◌, string_eq,
  filter, Dict, get, remove, get-remove, beq_self, Bool-cases,
}
use queuelens.Value.{Value}
use queuelens.Failure.{Result, ok, raise, unknown_bulk_batch}
use queuelens.Domain.Fingerprint.{Hashing}
use queuelens.Broker.{Broker, World}
use queuelens.Operator.{Report}
use queuelens.Snapshots.{Scope, same_scope}
use queuelens.Bulk.{
  Settings, Batch, Batches, prune_expired, take_batch, finished, guarded, spent, execute,
}

get-filter-none :
    (keep : (String × Batch) → Bool) (batches : Batches) (id : String)
    → get batches id ≡ none
    → get (filter keep batches) id ≡ none
unfolding get
get-filter-none keep [] id h = refl
get-filter-none keep ((j, batch) ∷ rest) id h = elim (Bool-cases (j == id)) [
  | inl same ↦ cc (rw same at h)
  | inr differs ↦ elim (Bool-cases (keep (j, batch))) [
    | inl kept ↦ rw (kept, differs) (get-filter-none keep rest id (rw differs at h))
    | inr gone ↦ rw gone (get-filter-none keep rest id (rw differs at h))
  ]
]

take_batch-again :
    (now later : ℕ) (id : String) (batches : Batches)
    → (take_batch later id (take_batch now id batches).1).0 ≡ none
unfolding take_batch
take_batch-again now later id batches =
    get-filter-none _ (remove (prune_expired now batches) id) id
      (get-remove (prune_expired now batches) id id ∙ rw (beq_self id) refl)

module _ (h : Hashing) (b : Broker) (s : Settings) (scope : Scope) where
  finished-kept :
      (batch : Batch) (kept : Batches) (p : Result (List Report) × World b)
      → (finished h b s scope batch kept p).1 ≡ kept
  finished-kept batch kept (raise e, w) = refl
  finished-kept batch kept (ok rs, w) = refl

  guarded-kept :
      (batch : Batch) (headers : Dict String Value) (kept : Batches) (answer : Result Bool)
      (w : World b)
      → (guarded h b s scope batch headers kept answer w).1 ≡ kept
  guarded-kept batch headers kept (raise e) w = refl
  guarded-kept batch headers kept (ok whole) w = finished-kept batch kept _

  spent-kept :
      (headers : Dict String Value) (guard : String → Result Bool) (found : Option Batch)
      (kept : Batches) (w : World b)
      → (spent h b s scope headers guard found kept w).1 ≡ kept
  spent-kept headers guard none kept w = refl
  spent-kept headers guard (some batch) kept w = elim (Bool-cases (same_scope batch.scope scope)) [
    | inl here ↦ rw here (guarded-kept batch headers kept (guard batch.source_queue) w)
    | inr elsewhere ↦ rw elsewhere refl
  ]

  execute-kept :
      (id : String) (headers : Dict String Value) (now : ℕ) (guard : String → Result Bool)
      (batches : Batches) (w : World b)
      → (execute h b s scope id headers now guard batches w).1 ≡ (take_batch now id batches).1
  unfolding execute
  execute-kept id headers now guard batches w =
      spent-kept headers guard (take_batch now id batches).0 (take_batch now id batches).1 w

  execute-missing :
      (id : String) (headers : Dict String Value) (now : ℕ) (guard : String → Result Bool)
      (batches : Batches) (w : World b)
      → (take_batch now id batches).0 ≡ none
      → execute h b s scope id headers now guard batches w
        ≡ (raise unknown_bulk_batch, (take_batch now id batches).1, w)
  unfolding execute
  execute-missing id headers now guard batches w missing = rw missing refl

-- A token is spent by its first execution, however that one ended: a second execution, at any time
-- and with any headers, raises `UnknownBulkBatch` and makes no call to the broker.
pub execute_once :
    (h : Hashing) (b : Broker) (s : Settings) (scope : Scope) (id : String)
    (headers more : Dict String Value) (now later : ℕ) (guard : String → Result Bool)
    (batches : Batches) (w v : World b)
    → ((execute h b s scope id more later guard
          (execute h b s scope id headers now guard batches w).1
          v).0
        ≡ raise unknown_bulk_batch)
      × ((execute h b s scope id more later guard
            (execute h b s scope id headers now guard batches w).1
            v).2
          ≡ v)
execute_once h b s scope id headers more now later guard batches w v =
    let left = execute-kept h b s scope id headers now guard batches w in
    let again =
      execute-missing h b s scope id more later guard
        (execute h b s scope id headers now guard batches w).1 v
        (ap (λ k. (take_batch later id k).0) left ∙ take_batch-again now later id batches) in
    (ap (λ t. t.0) again, ap (λ t. t.2) again)
