-- ===== src/Audited/Runs.antt =====
-- An audited run that returns is a run of the bulk service (app/application/bulk_runs.py).
use queuelens.Prelude.{
  ℕ, ◌≡◌, ap, inl, inr, String, Bool, Option, none, some, Dict, get, string_eq, Bool-cases,
}
use queuelens.Value.{Value}
use queuelens.Failure.{Failure, Result, ok, raise}
use queuelens.Domain.Fingerprint.{Hashing}
use queuelens.Broker.{Broker, World}
use queuelens.Snapshots.{Scope}
use queuelens.Bulk.{Settings, Batch, Batches, Executed, execute}
use queuelens.Audited.{
  Audit, Book, Shop, write, write_all, broken, entries_of, is_unknown, executed, attempted,
  announced, batch_headers, execute_audited,
}
use queuelens.Audited.Trail.{closed-ok, reraised-fails}

module _ (h : Hashing) (b : Broker) (s : Settings) (scope : Scope) (a : Audit) where
  executed-Ran :
      (username id : String) (pending : Option Batch) (book : Book a)
      (answer : Result Executed × Batches × World b) (done : Executed)
      → (executed h b s scope a username id pending book answer).0 ≡ ok done
      → answer ≡ (ok done, answer.1, answer.2)
  executed-Ran username id pending book (ok result, kept, w) done e =
      ap (λ (d : Executed). (ok d, kept, w))
        (closed-ok h b s scope a result done kept w
          (write_all (entries_of h b s scope a username id result) book) e).1
  executed-Ran username id pending book (raise x, kept, w) done e =
      elim (Bool-cases (is_unknown h b s scope a x)) [
        | inl unknown ↦ cc (rw unknown at e)
        | inr other ↦
            elim (reraised-fails h b s scope a x done kept w
              (write (broken username id pending x) book) (rw other at e)) [ ]
      ]

  -- Its run, under the headers that the batch calls for.
  abbrev pub Ran :
      String
      → String
      → Dict String Value
      → String
      → ℕ
      → (String → Result Bool)
      → Shop h b s scope a
      → Executed
      → Type 0
  Ran username id headers stamp now guard shop done =
      let headers' = batch_headers headers (get shop.batches id) username stamp in
      (kept : Batches) × (v : World b) × (execute h b s scope id headers' now guard shop.batches
          shop.world
        ≡ (ok done, kept, v))

  attempted-Ran :
      (username id : String) (headers : Dict String Value) (stamp : String) (now : ℕ)
      (guard : String → Result Bool) (shop : Shop h b s scope a) (done : Executed)
      (first : Option Failure × Book a)
      → (attempted h b s scope a username id headers stamp now guard
          (get shop.batches id)
          shop
          first).0
        ≡ ok done
      → Ran username id headers stamp now guard shop done
  attempted-Ran username id headers stamp now guard shop done (some f, book) e = cc e
  attempted-Ran username id headers stamp now guard shop done (none, book) e =
      let answer =
        execute h b s scope id (batch_headers headers (get shop.batches id) username stamp) now
          guard shop.batches shop.world in
      (answer.1, answer.2, executed-Ran username id (get shop.batches id) book answer done e)

  pub execute_audited-Ran :
      (username id : String) (headers : Dict String Value) (stamp : String) (now : ℕ)
      (guard : String → Result Bool) (shop : Shop h b s scope a) (done : Executed)
      → (execute_audited h b s scope a username id headers stamp now guard shop).0 ≡ ok done
      → Ran username id headers stamp now guard shop done
  unfolding execute_audited
  execute_audited-Ran username id headers stamp now guard shop done e =
      attempted-Ran username id headers stamp now guard shop done
        (announced h b s scope a username id (get shop.batches id) shop.book) e
