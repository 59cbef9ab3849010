-- ===== src/Bulk/Summaries.antt =====
-- The summary of a bulk execution (app/application/bulk_service.py).
use queuelens.Prelude.{
  ℕ, suc, ◌+◌, ◌≡◌, refl, sym, ap, ◌∙◌, subst, inl, inr, String, Bool, true, Option, none, some,
  List, [], ◌∷◌, sorted, insert, length, length-map, Dict, if◌then◌else◌, arith, Bool-cases,
}
use queuelens.Value.{Value}
use queuelens.Failure.{Result, ok, raise}
use queuelens.Domain.Fingerprint.{Hashing}
use queuelens.Broker.{Broker, World}
use queuelens.Broker.Keeps.{ok-injective}
use queuelens.Operator.{
  Report, Status, success, not_found, skipped_duplicate, not_attempted, failed, copied_not_removed,
}
use queuelens.Operator.Bulk.{operate_bulk}
use queuelens.Operator.Results.{names, operate_bulk-names}
use queuelens.Snapshots.{Scope, same_scope}
use queuelens.Bulk.{
  Settings, Batch, Batches, take_batch, Summary, Executed, is_success, is_failed, is_skipped,
  is_not_found, is_not_attempted, tally, summarise, order_of, finished, guarded, spent, execute,
}

length-insert : (s : String) (ts : List String) → length (insert s ts) ≡ length ts + 1
unfolding insert
length-insert s [] = omega arith
length-insert s (t ∷ ts) = ground (arith, length-insert s ts)

length-sorted : (ss : List String) → length (sorted ss) ≡ length ss
unfolding sorted
length-sorted [] = refl
length-sorted (s ∷ ss) = ground (arith, length-insert s (sorted ss), length-sorted ss)

-- All that a summary counts, each report once.
abbrev pub counted : Summary → ℕ
counted s = s.succeeded + s.failed + s.skipped_duplicates + s.not_found + s.not_attempted

one_status :
    (status : Status) (a b c d e : ℕ)
    → (if is_success status then suc a else a)
        + (if is_failed status then suc b else b)
        + (if is_skipped status then suc c else c)
        + (if is_not_found status then suc d else d)
        + (if is_not_attempted status then suc e else e)
      ≡ suc (a + b + c + d + e)
one_status success a b c d e = omega arith
one_status (failed f) a b c d e = omega arith
one_status (copied_not_removed f) a b c d e = omega arith
one_status skipped_duplicate a b c d e = omega arith
one_status not_found a b c d e = omega arith
one_status not_attempted a b c d e = omega arith

tally-all :
    (rs : List Report)
    → tally is_success rs
        + tally is_failed rs
        + tally is_skipped rs
        + tally is_not_found rs
        + tally is_not_attempted rs
      ≡ length rs
tally-all [] = omega arith
tally-all (r ∷ rest) =
    one_status r.status (tally is_success rest) (tally is_failed rest) (tally is_skipped rest)
      (tally is_not_found rest) (tally is_not_attempted rest)
    ∙ omega (arith, tally-all rest)

-- What an execution that returns a result has done.
pub record Done (scope : Scope) (now : ℕ) (id : String) (batches : Batches) (x : Executed)
    : Type 0 where
  pub taken : (take_batch now id batches).0 ≡ some x.batch
  pub own_scope : same_scope x.batch.scope scope ≡ true
  pub named : names x.results ≡ sorted x.batch.fingerprints
  pub accounted : counted x.summary ≡ x.summary.fingerprints_requested
  pub requested : x.summary.fingerprints_requested ≡ length x.batch.fingerprints

summarise-requested :
    (batch : Batch) (rs : List Report)
    → (summarise batch rs).fingerprints_requested ≡ length batch.fingerprints
unfolding summarise
summarise-requested batch rs = refl

summarise-counted :
    (batch : Batch) (rs : List Report)
    → names rs ≡ sorted batch.fingerprints
    → counted (summarise batch rs) ≡ length batch.fingerprints
unfolding summarise
summarise-counted batch rs e =
    tally-all rs
    ∙ sym (length-map (λ r. r.fingerprint) rs)
    ∙ ap length e
    ∙ length-sorted batch.fingerprints

module _ (h : Hashing) (b : Broker) (s : Settings) (scope : Scope) where
  finished-Executed :
      (batch : Batch) (kept after : Batches) (p : Result (List Report) × World b) (v : World b)
      (x : Executed)
      → finished h b s scope batch kept p ≡ (ok x, after, v)
      → (p.0 ≡ ok x.results)
        × (x ≡ record { batch = batch; summary = summarise batch x.results; results = x.results })
  finished-Executed batch kept after (raise e, w) v x same = cc same
  finished-Executed batch kept after (ok rs, w) v x same =
      let made : record { batch = batch; summary = summarise batch rs; results = rs } ≡ x =
        ok-injective (ap (λ t. t.0) same) in
      (
        ap (λ y. ok y.results) made,
        sym made
            ∙ ap
                (λ y. record {
                  batch = batch;
                  summary = summarise batch y.results;
                  results = y.results;
                })
                made,
      )

  guarded-Executed :
      (batch : Batch) (headers : Dict String Value) (kept after : Batches) (answer : Result Bool)
      (w v : World b) (x : Executed)
      → guarded h b s scope batch headers kept answer w ≡ (ok x, after, v)
      → (names x.results ≡ sorted batch.fingerprints)
        × (x ≡ record { batch = batch; summary = summarise batch x.results; results = x.results })
  guarded-Executed batch headers kept after (raise e) w v x same = cc same
  guarded-Executed batch headers kept after (ok whole) w v x same =
      let order = order_of h b s scope batch headers whole in
      let (returned_results, made) =
        finished-Executed batch kept after (operate_bulk h b order batch.fingerprints w) v x same in
      (operate_bulk-names h b order batch.fingerprints w x.results returned_results, made)

  spent-Done :
      (now : ℕ) (id : String) (batches : Batches) (headers : Dict String Value)
      (guard : String → Result Bool) (w v : World b) (after : Batches) (x : Executed)
      (found : Option Batch) (kept : Batches)
      → (take_batch now id batches).0 ≡ found
      → spent h b s scope headers guard found kept w ≡ (ok x, after, v)
      → Done scope now id batches x
  spent-Done now id batches headers guard w v after x none kept taken e = cc e
  spent-Done now id batches headers guard w v after x (some batch) kept taken e =
      elim (Bool-cases (same_scope batch.scope scope)) [
        | inr elsewhere ↦ cc (rw elsewhere at e)
        | inl here ↦
            let (named, made) =
              guarded-Executed batch headers kept after (guard batch.source_queue) w v x
                (rw here at e) in
            subst (Done scope now id batches) (sym made) (record {
              taken = taken;
              own_scope = here;
              named = named;
              accounted =
                  summarise-counted batch x.results named
                  ∙ sym (summarise-requested batch x.results);
              requested = summarise-requested batch x.results;
            })
      ]

-- An execution that returns a result had a batch that was stored under its token and not expired, of
-- the service's own environment and virtual host. Its results name the batch's fingerprints, each
-- once and in order, and the counts of its summary add up to their number.
pub execute-Done :
    (h : Hashing) (b : Broker) (s : Settings) (scope : Scope) (id : String)
    (headers : Dict String Value) (now : ℕ) (guard : String → Result Bool) (batches after : Batches)
    (w v : World b) (x : Executed)
    → execute h b s scope id headers now guard batches w ≡ (ok x, after, v)
    → Done scope now id batches x
unfolding execute
execute-Done h b s scope id headers now guard batches after w v x e =
    spent-Done h b s scope now id batches headers guard w v after x (take_batch now id batches).0
      (take_batch now id batches).1 refl e
