-- ===== src/Operator/Spine.antt =====
-- Publish before ack: an action that publishes acknowledges a message only straight after the broker
-- has confirmed its copy.
use queuelens.Prelude.{
  ℕ, String, ◌≡◌, inl, inr, refl, sym, subst, Bool, true, false, not, Option, none, some, List, [],
  ◌∷◌, Bool-cases, sorted, nat_eq, string_eq, Dict, put,
}
use queuelens.Value.{Value, text}
use queuelens.Failure.{Failure, Result, ok, raise}
use queuelens.Domain.{ReplayTarget}
use queuelens.Domain.Fingerprint.{Hashing}
use queuelens.Broker.{Broker, World, Delivery, Outgoing, Event, publishes, acks}
use queuelens.Broker.Exec.{
  Exec, pure, ack, nack, publish, get_exchange, declare_queue, get_message, open_channel,
  close_channel,
}
use queuelens.Broker.Keeps.{Keeps, Keeps-bind, after-keeps, on_error-keeps, Keeps-with_channel}
use queuelens.Browser.{Stop, fetch, to_record}
use queuelens.Operator.{
  Action, copy, move, park, delete, unsupported, publishes_copy, is_park, publish_copy,
  requeue_unprocessed, Order, matching, Report, report, success, failed,
}
use queuelens.Operator.Keeping.{
  KeptByCalls, fetch-keeps, ensure_target-Keeps, publish_copy-Keeps, requeue_unprocessed-Keeps,
}
use queuelens.Operator.Bulk.{
  Round, next, halt, caught, attempt, act_on, act_on_group, follow, bulk_loop, operate_bulk,
  publish_bulk, settle_bulk, settle_round, bulk_fetched, bulk_declared, verify_target, supported,
  is_delivery_error,
}
use queuelens.Operator.Publishing.{
  SentTo, LastSent, publish_copy-LastSent, outgoing-IsCopy, outgoing-to_record,
}

-- The latest call was a confirmed publish of a copy of the message to the target.
abbrev pub Confirmed : ReplayTarget → Delivery → List Event → Type 0
Confirmed t m [] = ⊥
Confirmed t m (publishes o x key (ok u) ∷ log) =
    (o.body ≡ m.body) × (o.properties ≡ m.properties) × SentTo t x key
Confirmed t m (_ ∷ log) = ⊥

-- Every attempt to acknowledge a message came straight after the confirmed publish of its copy.
abbrev pub PublishedFirst : ReplayTarget → List Event → Type 0
PublishedFirst t [] = Unit
PublishedFirst t (acks m r ∷ log) = Confirmed t m log × PublishedFirst t log
PublishedFirst t (_ ∷ log) = PublishedFirst t log

module _ (b : Broker) (t : ReplayTarget) where
  abbrev Spine : World b → Type 0
  Spine w = PublishedFirst t w.log

  Spine-calls : KeptByCalls Spine
  unfolding open_channel close_channel declare_queue get_exchange publish nack
  Spine-calls = record {
    by_open = record { at = λ w h. h };
    by_close = record { at = λ w h. h };
    by_declare = λ q p. record { at = λ w h. h };
    by_lookup = λ x e. record { at = λ w h. h };
    by_publish = λ o x key. record { at = λ w h. h };
    by_nack = λ m. record { at = λ w h. h };
  }

  get-Spine : (q : String) → Keeps Spine (get_message b q)
  unfolding get_message
  get-Spine q = record { at = λ w h. h }

  ack-Spine : (m : Delivery) (w : World b) → Confirmed t m w.log → Spine w → Spine (ack b m w).1
  unfolding ack
  ack-Spine m w c h = (c, h)

  LastSent-Confirmed :
      (m : Delivery) (o : Outgoing) (log : List Event)
      → o.body ≡ m.body
      → o.properties ≡ m.properties
      → LastSent t o log
      → Confirmed t m log
  LastSent-Confirmed m o log body properties (x, key, before, last, sent) =
      subst (Confirmed t m) (sym last) (body, properties, sent)

  publish_copy-Confirmed :
      (h : Hashing) (q : String) (m : Delivery) (headers : Dict String Value) (stamp_deaths : Bool)
      (w : World b)
      → (publish_copy b (to_record h q m) t headers stamp_deaths w).0 ≡ ok tt
      → Confirmed t m (publish_copy b (to_record h q m) t headers stamp_deaths w).1.log
  unfolding to_record
  publish_copy-Confirmed h q m headers stamp_deaths w e =
      let (o, built, last) = publish_copy-LastSent b (to_record h q m) t headers stamp_deaths w e in
      let copied = outgoing-IsCopy (to_record h q m) headers stamp_deaths o built in
      LastSent-Confirmed m o _ copied.body (outgoing-to_record h q m headers stamp_deaths o built)
        last

  caught-Spine :
      (a : Action) (fp : String) (p : Bool) (m : Delivery) (e : Failure)
      → Keeps Spine (caught b a fp p m e)
  caught-Spine a fp p m e = record {
    at = λ w s. elim (Bool-cases (is_delivery_error e)) [
      | inl unroutable ↦ rw unroutable (
          after-keeps Spine (λ u. pure b (next (report fp (failed e)))) (nack b m w)
            ((Spine-calls.by_nack m).at w s) (λ u. record { at = λ w' s'. s' }))
      | inr other ↦ rw other s
    ];
  }

  settle_bulk-Spine :
      (a : Action) (m : Delivery) (w : World b)
      → Confirmed t m w.log
      → Spine w
      → Spine (settle_bulk b a m w).1
  settle_bulk-Spine copy m w c h = (Spine-calls.by_nack m).at w h
  settle_bulk-Spine move m w c h = ack-Spine m w c h
  settle_bulk-Spine park m w c h = ack-Spine m w c h
  settle_bulk-Spine delete m w c h = ack-Spine m w c h
  settle_bulk-Spine unsupported m w c h = ack-Spine m w c h

  attempt-Spine :
      (a : Action) (fp : String) (p : Bool) (m : Delivery) (go : Unit {0} → Exec b Round)
      (r : Result (Unit {0}) × World b)
      → (r.0 ≡ ok tt → Spine (go tt r.1).1)
      → Spine r.1
      → Spine (attempt b a fp p m go r).1
  attempt-Spine a fp p m go (ok u, w) k h = k refl
  attempt-Spine a fp p m go (raise e, w) k h = (caught-Spine a fp p m e).at w h

module _ (h : Hashing) (b : Broker) (o : Order b) (t : ReplayTarget)
    (copies : publishes_copy o.action ≡ true) (to : o.target ≡ some t) where
  publish_bulk-to :
      (m : Delivery) (w : World b)
      → publish_bulk h b o m w
        ≡ publish_copy b
            (to_record h o.source_queue m)
            t
            (put o.replay_headers "x-queuelens-original-fingerprint"
              (text (to_record h o.source_queue m).fingerprint))
            (not (is_park o.action))
            w
  publish_bulk-to m w = rw to

  publish_bulk-Spine : (m : Delivery) → Keeps (Spine b t) (publish_bulk h b o m)
  publish_bulk-Spine m = record {
    at = λ w s. rw (publish_bulk-to m w) (
        (publish_copy-Keeps (Spine b t) (Spine-calls b t) (to_record h o.source_queue m) t _
            (not (is_park o.action))).at
          w s);
  }

  publish_bulk-Confirmed :
      (m : Delivery) (w : World b)
      → (publish_bulk h b o m w).0 ≡ ok tt
      → Confirmed t m (publish_bulk h b o m w).1.log
  publish_bulk-Confirmed m w e = rw (publish_bulk-to m w) (
      publish_copy-Confirmed b t h o.source_queue m _ (not (is_park o.action)) w
        (rw (publish_bulk-to m w) at e))

  settle_round-Spine :
      (fp : String) (m : Delivery) (w : World b)
      → Confirmed t m w.log
      → Spine b t w
      → Spine b t (settle_round h b o fp true m w).1
  settle_round-Spine fp m w c s =
      let settled = settle_bulk-Spine b t o.action m w c s in
      attempt-Spine b t o.action fp true m (λ u. pure b (next (report fp success)))
        (settle_bulk b o.action m w) (λ e. settled) settled

  act_on-Spine : (fp : String) (m : Delivery) → Keeps (Spine b t) (act_on h b o fp m)
  unfolding act_on
  act_on-Spine fp m = record {
    at = λ w s.
        let sent = (publish_bulk-Spine m).at w s in
        rw copies (
          attempt-Spine b t o.action fp false m (λ u. settle_round h b o fp true m)
            (publish_bulk h b o m w)
            (λ e. settle_round-Spine fp m _ (publish_bulk-Confirmed m w e) sent) sent);
  }

  act_on_group-Spine :
      (fp : String) (group : List Delivery) → Keeps (Spine b t) (act_on_group h b o fp group)
  unfolding act_on_group
  act_on_group-Spine fp [] = record { at = λ w s. s }
  act_on_group-Spine fp (m ∷ []) = act_on-Spine fp m
  act_on_group-Spine fp (m ∷ n ∷ rest) = record { at = λ w s. s }

  follow-Spine :
      (later : List String) (others : Exec b (List Report)) (rd : Round)
      → Keeps (Spine b t) others
      → Keeps (Spine b t) (follow h b later others rd)
  follow-Spine later others (next r) k =
      Keeps-bind (Spine b t) others (λ rs. pure b (r ∷ rs)) k (λ rs. record { at = λ w s. s })
  follow-Spine later others (halt r) k = record { at = λ w s. s }

  bulk_loop-Spine :
      (held : List Delivery) (fps : List String) → Keeps (Spine b t) (bulk_loop h b o held fps)
  unfolding bulk_loop
  bulk_loop-Spine held [] = record { at = λ w s. s }
  bulk_loop-Spine held (fp ∷ later) =
      Keeps-bind (Spine b t) (act_on_group h b o fp (matching h o.source_queue fp held))
        (follow h b later (bulk_loop h b o held later))
        (act_on_group-Spine fp (matching h o.source_queue fp held))
        (λ rd. follow-Spine later (bulk_loop h b o held later) rd (bulk_loop-Spine held later))

  verify_target-Spine : Keeps (Spine b t) (verify_target h b o)
  verify_target-Spine = record {
    at = λ w s.
        rw (copies, to)
          ((ensure_target-Keeps (Spine b t) (Spine-calls b t) t (is_park o.action)).at w s);
  }

  bulk_fetched-Spine :
      (fps : List String) (held : List Delivery) (r : Result (ℕ × Option Stop))
      → Keeps (Spine b t) (bulk_fetched h b o fps held r)
  bulk_fetched-Spine fps held (raise e) = record { at = λ w s. s }
  bulk_fetched-Spine fps held (ok n) =
      Keeps-bind (Spine b t) (verify_target h b o) _ verify_target-Spine λ u.
        Keeps-bind (Spine b t) (bulk_loop h b o held (sorted fps)) _
          (bulk_loop-Spine held (sorted fps))
          λ rs.
            Keeps-bind (Spine b t) (requeue_unprocessed b held) (λ u. pure b rs)
              (requeue_unprocessed-Keeps (Spine b t) (Spine-calls b t) held)
              (λ u. record { at = λ w s. s })

  bulk_declared-Spine :
      (fps : List String) (r : Result ℕ × World b)
      → Spine b t r.1
      → Spine b t (bulk_declared h b o fps r).1
  bulk_declared-Spine fps (raise e, w) s =
      let r : Result (List Report) × World b = (raise e, w) in
      on_error-keeps (Spine b t) (requeue_unprocessed b []) r
        (requeue_unprocessed-Keeps (Spine b t) (Spine-calls b t) []) s
  bulk_declared-Spine fps (ok ready, w) s =
      let f = fetch b o.whole o.source_queue o.max_scan none ready w in
      on_error-keeps (Spine b t) (requeue_unprocessed b f.held)
        (bulk_fetched h b o fps f.held f.outcome f.world)
        (requeue_unprocessed-Keeps (Spine b t) (Spine-calls b t) f.held)
        ((bulk_fetched-Spine fps f.held f.outcome).at f.world (
          fetch-keeps (Spine b t) (Spine-calls b t) o.whole o.source_queue o.max_scan none ready w
            (get-Spine b t o.source_queue) s))

-- In a bulk copy, move or park to a target every attempt to acknowledge a message comes straight after
-- the broker's confirmation of a publish of that message, the same body and properties, to the target.
-- This holds whatever the broker answers, and however the action ends.
pub operate_bulk_publishes_first :
    (h : Hashing) (b : Broker) (o : Order b) (t : ReplayTarget) (fingerprints : List String)
    (w : World b)
    → publishes_copy o.action ≡ true
    → o.target ≡ some t
    → PublishedFirst t w.log
    → PublishedFirst t (operate_bulk h b o fingerprints w).1.log
unfolding operate_bulk
operate_bulk_publishes_first h b o t fps w copies to s = elim (Bool-cases (supported o.action)) [
  | inr other ↦ rw other s
  | inl known ↦ rw known (
      (Keeps-with_channel (Spine b t) _ (Spine-calls b t).by_open (Spine-calls b t).by_close
          (record {
            at = λ w' s'.
                bulk_declared-Spine h b o t copies to fps (declare_queue b o.source_queue true w')
                  (((Spine-calls b t).by_declare o.source_queue true).at w' s');
          })).at
        w s)
]
