-- ===== src/Audited/Trail.antt =====
-- What the audit log holds of a bulk execution (app/application/bulk_runs.py).
use queuelens.Prelude.{
  ℕ, ◌≡◌, ◌≢◌, refl, sym, ◌∙◌, ap, ◌⊎◌, inl, inr, String, Bool, Option, none, some, List, [], ◌∷◌,
  ◌++◌, map, append_assoc, append-nil, string_eq, Dict, get, Bool-cases,
}
use queuelens.Value.{Value}
use queuelens.Failure.{Failure, Result, ok, raise}
use queuelens.Domain.Fingerprint.{Hashing}
use queuelens.Broker.{Broker, World}
use queuelens.Snapshots.{Scope}
use queuelens.Bulk.{Settings, Batch, Batches, Executed, execute}
use queuelens.Audited.{
  Entry, Audit, Book, taken, write, write_all, then_write, started, broken, closing, outcome_entry,
  batch_headers, Shop, closed, entries_of, is_unknown, reraised, executed, attempted,
  execute_audited,
}
use queuelens.Audited.Telling.{
  Opens, AllTold, Closes, started-Opens, outcome_entry-AllTold, closing-Closes,
}

-- The entries that were taken since.
abbrev pub Grown : {a : Audit} → Book a → Book a → Type 0
Grown before after = (new : List Entry) × (after.trail ≡ before.trail ++ new)

module _ {a : Audit} where
  same_trail : (book : Book a) → Grown book book
  same_trail book = ([], sym (append-nil book.trail))

  Grown-trans : (x y z : Book a) → Grown x y → Grown y z → Grown x z
  Grown-trans x y z (first, e) (second, f) =
      (first ++ second, f ∙ ap (λ t. t ++ second) e ∙ append_assoc x.trail first second)

  taken-adds :
      (e : Entry) (book : Book a) (answer : Option Failure × a.S)
      → (taken e book answer).0 ≡ none
      → (taken e book answer).1.trail ≡ book.trail ++ e ∷ []
  taken-adds e book (none, s) h = refl
  taken-adds e book (some f, s) h = cc h

  taken-Grown :
      (e : Entry) (book : Book a) (answer : Option Failure × a.S)
      → Grown book (taken e book answer).1
  taken-Grown e book (none, s) = (e ∷ [], refl)
  taken-Grown e book (some f, s) = ([], sym (append-nil book.trail))

  write-adds :
      (e : Entry) (book : Book a)
      → (write e book).0 ≡ none
      → (write e book).1.trail ≡ book.trail ++ e ∷ []
  unfolding write
  write-adds e book h = taken-adds e book (a.record_entry e book.state) h

  write-Grown : (e : Entry) (book : Book a) → Grown book (write e book).1
  unfolding write
  write-Grown e book = taken-Grown e book (a.record_entry e book.state)

  then_write-adds :
      (e : Entry) (rest : List Entry) (book : Book a) (first : Option Failure × Book a)
      → (first.0 ≡ none → first.1.trail ≡ book.trail ++ e ∷ [])
      → ((next : Book a)
          → (write_all rest next).0 ≡ none
          → (write_all rest next).1.trail ≡ next.trail ++ rest)
      → (then_write (write_all rest) first).0 ≡ none
      → (then_write (write_all rest) first).1.trail ≡ book.trail ++ e ∷ rest
  then_write-adds e rest book (some f, next) one others h = cc h
  then_write-adds e rest book (none, next) one others h =
      others next h ∙ ap (λ t. t ++ rest) (one refl) ∙ append_assoc book.trail (e ∷ []) rest

  write_all-adds :
      (es : List Entry) (book : Book a)
      → (write_all es book).0 ≡ none
      → (write_all es book).1.trail ≡ book.trail ++ es
  unfolding write_all
  write_all-adds [] book h = sym (append-nil book.trail)
  write_all-adds (e ∷ rest) book h =
      then_write-adds e rest book (write e book) (write-adds e book) (write_all-adds rest) h

  then_write-Grown :
      (rest : List Entry) (book : Book a) (first : Option Failure × Book a)
      → Grown book first.1
      → ((next : Book a) → Grown next (write_all rest next).1)
      → Grown book (then_write (write_all rest) first).1
  then_write-Grown rest book (some f, next) one others = one
  then_write-Grown rest book (none, next) one others =
      Grown-trans book next (write_all rest next).1 one (others next)

  write_all-Grown : (es : List Entry) (book : Book a) → Grown book (write_all es book).1
  unfolding write_all
  write_all-Grown [] book = same_trail book
  write_all-Grown (e ∷ rest) book =
      then_write-Grown rest book (write e book) (write-Grown e book) (write_all-Grown rest)

module _ (h : Hashing) (b : Broker) (s : Settings) (scope : Scope) (a : Audit) where
  closed-book :
      (done : Executed) (kept : Batches) (w : World b) (answer : Option Failure × Book a)
      → (closed h b s scope a done kept w answer).1.book ≡ answer.1
  closed-book done kept w (none, book) = refl
  closed-book done kept w (some f, book) = refl

  reraised-book :
      (e : Failure) (kept : Batches) (w : World b) (answer : Option Failure × Book a)
      → (reraised h b s scope a e kept w answer).1.book ≡ answer.1
  reraised-book e kept w (none, book) = refl
  reraised-book e kept w (some f, book) = refl

  executed-Grown :
      (username batch_id : String) (pending : Option Batch) (book : Book a)
      (answer : Result Executed × Batches × World b)
      → Grown book (executed h b s scope a username batch_id pending book answer).1.book
  executed-Grown username batch_id pending book (ok done, kept, w) =
      rw
        (closed-book done kept w (write_all (entries_of h b s scope a username batch_id done) book))
        (write_all-Grown (entries_of h b s scope a username batch_id done) book)
  executed-Grown username batch_id pending book (raise e, kept, w) =
      elim (Bool-cases (is_unknown h b s scope a e)) [
        | inl unknown ↦ rw unknown (same_trail book)
        | inr other ↦
            rw (other, reraised-book e kept w (write (broken username batch_id pending e) book))
              (write-Grown (broken username batch_id pending e) book)
      ]

  pub closed-ok :
      (done result : Executed) (kept : Batches) (w : World b) (answer : Option Failure × Book a)
      → (closed h b s scope a done kept w answer).0 ≡ ok result
      → (answer.0 ≡ none) × (done ≡ result)
  closed-ok done result kept w (none, book) e = (refl, cc e)
  closed-ok done result kept w (some f, book) e = cc e

  pub reraised-fails :
      (e : Failure) (result : Executed) (kept : Batches) (w : World b)
      (answer : Option Failure × Book a)
      → (reraised h b s scope a e kept w answer).0 ≢ ok result
  reraised-fails e result kept w (none, book) same = cc same
  reraised-fails e result kept w (some f, book) same = cc same

  executed-adds :
      (username batch_id : String) (pending : Option Batch) (book : Book a)
      (answer : Result Executed × Batches × World b) (done : Executed)
      → (executed h b s scope a username batch_id pending book answer).0 ≡ ok done
      → (executed h b s scope a username batch_id pending book answer).1.book.trail
        ≡ book.trail ++ entries_of h b s scope a username batch_id done
  executed-adds username batch_id pending book (ok result, kept, w) done e =
      let answer = write_all (entries_of h b s scope a username batch_id result) book in
      let (all_taken, same) = closed-ok result done kept w answer e in
      ap (λ (x : Book a). x.trail) (closed-book result kept w answer)
      ∙ write_all-adds (entries_of h b s scope a username batch_id result) book all_taken
      ∙ ap (λ d. book.trail ++ entries_of h b s scope a username batch_id d) same
  executed-adds username batch_id pending book (raise x, kept, w) done e =
      elim (Bool-cases (is_unknown h b s scope a x)) [
        | inl unknown ↦ cc (rw unknown at e)
        | inr other ↦
            elim (reraised-fails x done kept w (write (broken username batch_id pending x) book)
              (rw other at e)) [ ]
      ]

  attempted-Announced :
      (username batch_id : String) (headers : Dict String Value) (stamp : String) (now : ℕ)
      (guard : String → Result Bool) (pending : Batch) (shop : Shop h b s scope a)
      (first : Option Failure × Book a)
      → (first.0 ≡ none → first.1.trail ≡ shop.book.trail ++ started username batch_id pending ∷ [])
      → let after =
          (attempted h b s scope a username batch_id headers stamp now guard
            (some pending)
            shop
            first).1 in
        ((after.batches ≡ shop.batches) × (after.world ≡ shop.world))
        ⊎ ((rest : List Entry) × (after.book.trail
              ≡ shop.book.trail ++ started username batch_id pending ∷ rest))
  attempted-Announced username batch_id headers stamp now guard pending shop (some f, book) one =
      inl (refl, refl)
  attempted-Announced username batch_id headers stamp now guard pending shop (none, book) one =
      let (rest, grown) = executed-Grown username batch_id (some pending) book (
        execute h b s scope batch_id (batch_headers headers (some pending) username stamp) now guard
          shop.batches shop.world) in
      inr (
        rest,
        grown
            ∙ ap (λ t. t ++ rest) (one refl)
            ∙ append_assoc shop.book.trail (started username batch_id pending ∷ []) rest,
      )

  attempted-adds :
      (username batch_id : String) (headers : Dict String Value) (stamp : String) (now : ℕ)
      (guard : String → Result Bool) (pending : Batch) (shop : Shop h b s scope a)
      (first : Option Failure × Book a) (done : Executed)
      → (first.0 ≡ none → first.1.trail ≡ shop.book.trail ++ started username batch_id pending ∷ [])
      → (attempted h b s scope a username batch_id headers stamp now guard
          (some pending)
          shop
          first).0
        ≡ ok done
      → (attempted h b s scope a username batch_id headers stamp now guard
          (some pending)
          shop
          first).1.book.trail
        ≡ shop.book.trail
          ++ started username batch_id pending ∷ entries_of h b s scope a username batch_id done
  attempted-adds username batch_id headers stamp now guard pending shop (some f, book) done one e =
      cc e
  attempted-adds username batch_id headers stamp now guard pending shop (none, book) done one e =
      executed-adds username batch_id (some pending) book
        (execute h b s scope batch_id (batch_headers headers (some pending) username stamp) now
          guard shop.batches shop.world)
        done e
      ∙ ap (λ t. t ++ entries_of h b s scope a username batch_id done) (one refl)
      ∙ append_assoc shop.book.trail (started username batch_id pending ∷ [])
          (entries_of h b s scope a username batch_id done)

-- No audit, no action: whatever the audit log, the broker and the guard do, and however the run of a
-- stored batch ends, either neither the broker nor the batches were touched, or the log holds the entry
-- that says who started it, as the first of the run.
pub execute_audited-Announced :
    (h : Hashing) (b : Broker) (s : Settings) (scope : Scope) (a : Audit)
    (username batch_id : String) (headers : Dict String Value) (stamp : String) (now : ℕ)
    (guard : String → Result Bool) (pending : Batch) (shop : Shop h b s scope a)
    → get shop.batches batch_id ≡ some pending
    → let after =
        (execute_audited h b s scope a username batch_id headers stamp now guard shop).1 in
      ((after.batches ≡ shop.batches) × (after.world ≡ shop.world))
      ⊎ ((rest : List Entry) × (after.book.trail
            ≡ shop.book.trail ++ started username batch_id pending ∷ rest))
unfolding execute_audited
execute_audited-Announced h b s scope a username batch_id headers stamp now guard pending shop
      there =
    rw there (
      attempted-Announced h b s scope a username batch_id headers stamp now guard pending shop
        (write (started username batch_id pending) shop.book)
        (write-adds (started username batch_id pending) shop.book))

-- What a run wrote, after the entries that were there.
pub record Trail (username batch_id : String) (pending : Batch) (done : Executed)
    (before after : List Entry) : Type 0 where
  pub first : Entry
  pub outcomes : List Entry
  pub last : Entry
  pub written : after ≡ before ++ first ∷ (outcomes ++ last ∷ [])
  pub opens : Opens username batch_id pending first
  pub told : AllTold username batch_id done.batch done.results outcomes
  pub closes : Closes username batch_id done.batch done.summary last

-- A run of a stored batch that returns left exactly its trail: an entry that it was started, for how
-- many messages; one for each result in the order of the results, with the message's fingerprint and
-- its status, or "failed" and the exception; and one for the batch with its summary, "success" where
-- that counts no failed message and "partial" otherwise. Each names the user, the batch and the queue.
pub execute_audited-Trail :
    (h : Hashing) (b : Broker) (s : Settings) (scope : Scope) (a : Audit)
    (username batch_id : String) (headers : Dict String Value) (stamp : String) (now : ℕ)
    (guard : String → Result Bool) (pending : Batch) (shop : Shop h b s scope a) (done : Executed)
    → get shop.batches batch_id ≡ some pending
    → (execute_audited h b s scope a username batch_id headers stamp now guard shop).0 ≡ ok done
    → Trail username batch_id pending done shop.book.trail
        (execute_audited h b s scope a username batch_id headers stamp now guard shop).1.book.trail
unfolding execute_audited
execute_audited-Trail h b s scope a username batch_id headers stamp now guard pending shop done
      there e =
    record {
      first = started username batch_id pending;
      outcomes = map (outcome_entry username batch_id done.batch) done.results;
      last = closing username batch_id done.batch done.summary;
      written = rw there (
          attempted-adds h b s scope a username batch_id headers stamp now guard pending shop
            (write (started username batch_id pending) shop.book) done
            (write-adds (started username batch_id pending) shop.book) (rw there at e));
      opens = started-Opens username batch_id pending;
      told = outcome_entry-AllTold username batch_id done.batch done.results;
      closes = closing-Closes username batch_id done.batch done.summary;
    }
