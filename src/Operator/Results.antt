-- ===== src/Operator/Results.antt =====
-- The results of a bulk action name the approved fingerprints, each once and in order.
use queuelens.Prelude.{
  ℕ, String, ◌≡◌, refl, ap, Bool, true, false, Option, inl, inr, subst, none, List, [], ◌∷◌, map,
  sorted, arith, Bool-cases,
}
use queuelens.Failure.{Failure, Result, ok, raise}
use queuelens.Domain.Fingerprint.{Hashing}
use queuelens.Broker.{Broker, World, Delivery}
use queuelens.Broker.Exec.{Exec, after, pure, nack, declare_queue}
use queuelens.Broker.Keeps.{after-inverts, with_channel-ok, on_error-ok, ok-injective, raise-ne-ok}
use queuelens.Browser.{Stop, fetch}
use queuelens.Operator.{
  Action, copy, move, park, delete, unsupported, publishes_copy, Order, Report, report, halted,
  matching, not_attempted, not_found, skipped_duplicate, failed, success, requeue_unprocessed,
}
use queuelens.Operator.Bulk.{
  supported, is_delivery_error, Round, next, halt, caught, attempt, act_on, act_on_group, follow,
  bulk_loop, operate_bulk, publish_bulk, settle_bulk, settle_round, bulk_fetched, bulk_declared,
  verify_target,
}

-- The fingerprints that results are about.
abbrev pub names : List Report → List String
names = map (λ r. r.fingerprint)

abbrev pub round_report : Round → Report
round_report (next r) = r
round_report (halt r) = r

module _ (b : Broker) (fp : String) where
  -- A round that returns reports on `fp`.
  abbrev Names : Result Round × World b → Type 0
  Names r = (rd : Round) → r.0 ≡ ok rd → (round_report rd).fingerprint ≡ fp

  after-Names :
      {A : Type 0} (f : A → Exec b Round) (r : Result A × World b)
      → ((a : A) (w : World b) → Names (f a w))
      → Names (after b f r)
  after-Names f (ok a, w) h = h a w
  after-Names f (raise e, w) h = λ rd x. cc

  halted-fingerprint : (e : Failure) (p : Bool) (a : Action) → (halted fp e p a).fingerprint ≡ fp
  unfolding halted
  halted-fingerprint e true copy = refl
  halted-fingerprint e true move = refl
  halted-fingerprint e true park = refl
  halted-fingerprint e true delete = refl
  halted-fingerprint e true unsupported = refl
  halted-fingerprint e false a = refl

  next-Names : (r : Report) (w : World b) → r.fingerprint ≡ fp → Names (pure b (next r) w)
  next-Names r w e rd x = ground arith

  caught-Names :
      (a : Action) (p : Bool) (m : Delivery) (e : Failure) (w : World b)
      → Names (caught b a fp p m e w)
  caught-Names a p m e w = elim (Bool-cases (is_delivery_error e)) [
    | inl returned_to_sender ↦ rw returned_to_sender (
        after-Names (λ u. pure b (next (report fp (failed e)))) (nack b m w)
          (λ u w'. next-Names (report fp (failed e)) w' refl))
    | inr other ↦ rw other (λ rd x. ground (arith, halted-fingerprint e p a))
  ]

  attempt-Names :
      (a : Action) (p : Bool) (m : Delivery) (go : Unit {0} → Exec b Round)
      (r : Result (Unit {0}) × World b)
      → ((u : Unit {0}) (w : World b) → Names (go u w))
      → Names (attempt b a fp p m go r)
  attempt-Names a p m go (ok u, w) k = k u w
  attempt-Names a p m go (raise e, w) k = caught-Names a p m e w

module _ (h : Hashing) (b : Broker) (o : Order b) where
  settle_round-Names :
      (fp : String) (p : Bool) (m : Delivery) (w : World b)
      → Names b fp (settle_round h b o fp p m w)
  settle_round-Names fp p m w =
      attempt-Names b fp o.action p m _ (settle_bulk b o.action m w)
        (λ u w'. next-Names b fp (report fp success) w' refl)

  act_on-Names : (fp : String) (m : Delivery) (w : World b) → Names b fp (act_on h b o fp m w)
  unfolding act_on
  act_on-Names fp m w = elim (Bool-cases (publishes_copy o.action)) [
    | inl copies ↦ rw copies (
        attempt-Names b fp o.action false m _ (publish_bulk h b o m w)
          (λ u w'. settle_round-Names fp true m w'))
    | inr plain ↦ rw plain (settle_round-Names fp false m w)
  ]

  act_on_group-Names :
      (fp : String) (group : List Delivery) (w : World b)
      → Names b fp (act_on_group h b o fp group w)
  unfolding act_on_group
  act_on_group-Names fp [] w = next-Names b fp (report fp not_found) w refl
  act_on_group-Names fp (m ∷ []) w = act_on-Names fp m w
  act_on_group-Names fp (m ∷ n ∷ rest) w = next-Names b fp (report fp skipped_duplicate) w refl

  unattempted : (later : List String) → names (map (λ fp. report fp not_attempted) later) ≡ later
  unattempted [] = refl
  unattempted (fp ∷ later) = ap (◌∷◌ fp) (unattempted later)

  follow-names :
      (fp : String) (later : List String) (held : List Delivery) (rd : Round) (w : World b)
      (rs : List Report)
      → (round_report rd).fingerprint ≡ fp
      → ((w' : World b) (rest : List Report)
          → (bulk_loop h b o held later w').0 ≡ ok rest
          → names rest ≡ later)
      → (follow h b later (bulk_loop h b o held later) rd w).0 ≡ ok rs
      → names rs ≡ fp ∷ later
  follow-names fp later held (halt r) w rs e ih x = ground (arith, unattempted later)
  follow-names fp later held (next r) w rs e ih x =
      let (rest, f, last, _) =
        after-inverts (λ rest. pure b (r ∷ rest)) (bulk_loop h b o held later w) rs x in
      ground (arith, ih w rest f)

  bulk_loop-names :
      (held : List Delivery) (fps : List String) (w : World b) (rs : List Report)
      → (bulk_loop h b o held fps w).0 ≡ ok rs
      → names rs ≡ fps
  unfolding bulk_loop
  bulk_loop-names held [] w rs x = ground arith
  bulk_loop-names held (fp ∷ later) w rs x =
      let group = matching h o.source_queue fp held in
      let (rd, f, rest, _) =
        after-inverts (follow h b later (bulk_loop h b o held later))
          (act_on_group h b o fp group w) rs x in
      follow-names fp later held rd (act_on_group h b o fp group w).1 rs
        (act_on_group-Names fp group w rd f) (λ w' rest' y. bulk_loop-names held later w' rest' y)
        rest

  fetched-names :
      (fps : List String) (held : List Delivery) (r : Result (ℕ × Option Stop)) (w : World b)
      (rs : List Report)
      → (bulk_fetched h b o fps held r w).0 ≡ ok rs
      → names rs ≡ sorted fps
  fetched-names fps held (raise e) w rs x = absurd (cc)
  fetched-names fps held (ok n) w rs x =
      let (u, verified, x', _) = after-inverts _ (verify_target h b o w) rs x in
      let (results, looped, x'', _) =
        after-inverts _ (bulk_loop h b o held (sorted fps) (verify_target h b o w).1) rs x' in
      let (v, returned_all, last, _) =
        after-inverts _
          (requeue_unprocessed b held
            (bulk_loop h b o held (sorted fps) (verify_target h b o w).1).1)
          rs x'' in
      subst (λ rs'. names rs' ≡ sorted fps) (ok-injective last)
        (bulk_loop-names held (sorted fps) _ results looped)

  declared-names :
      (fps : List String) (r : Result ℕ × World b) (rs : List Report)
      → (bulk_declared h b o fps r).0 ≡ ok rs
      → names rs ≡ sorted fps
  declared-names fps (raise e, w) rs x =
      let r : Result (List Report) × World b = (raise e, w) in
      absurd (raise-ne-ok e rs (on_error-ok (requeue_unprocessed b []) r rs x))
  declared-names fps (ok ready, w) rs x =
      let f = fetch b o.whole o.source_queue o.max_scan none ready w in
      fetched-names fps f.held f.outcome f.world rs (
        on_error-ok (requeue_unprocessed b f.held) (bulk_fetched h b o fps f.held f.outcome f.world)
          rs x)

-- A bulk action that returns reports on each approved fingerprint once, in sorted order, whatever the
-- broker answered and wherever it stopped.
pub operate_bulk-names :
    (h : Hashing) (b : Broker) (o : Order b) (fingerprints : List String) (w : World b)
    (rs : List Report)
    → (operate_bulk h b o fingerprints w).0 ≡ ok rs
    → names rs ≡ sorted fingerprints
unfolding operate_bulk
operate_bulk-names h b o fps w rs x = elim (Bool-cases (supported o.action)) [
  | inr other ↦ cc (rw other at x)
  | inl known ↦
      let (inner, _) =
        with_channel-ok (λ v. bulk_declared h b o fps (declare_queue b o.source_queue true v)) w rs
          (rw known at x) in
      declared-names h b o fps _ rs inner
]
