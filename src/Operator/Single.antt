-- ===== src/Operator/Single.antt =====
-- A single action: it acknowledges the one message that its fingerprint names, or none.
use queuelens.Prelude.{
  ℕ, String, ◌≡◌, ◌⊎◌, inl, inr, refl, ap, ◌∙◌, Bool, true, not, ◌&&◌, Option, none, some, List, [],
  ◌∷◌, ◌++◌, nat_eq, string_eq, Dict,
}
use queuelens.Value.{Value}
use queuelens.Failure.{Result, ok, raise}
use queuelens.Domain.{ReplayTarget, MessageRecord}
use queuelens.Domain.Fingerprint.{Hashing}
use queuelens.Broker.{Broker, World, Delivery, Event}
use queuelens.Broker.Exec.{
  after, on_error, ack, nack, publish, get_exchange, declare_queue, open_channel, close_channel,
  with_channel,
}
use queuelens.Broker.Keeps.{
  Keeps, Keeps-bind, after-keeps, after-leads, on_error-keeps, finally_do-keeps,
}
use queuelens.Browser.{Stop, fetch, requeue, to_record}
use queuelens.Browser.Settling.{requeue-Keeps}
use queuelens.Operator.{
  Action, copy, move, park, delete, unsupported, publishes_copy, is_park, ensure_target,
  publish_copy, requeue_unprocessed, Order, matching, deliver, settle, operate, operate_on,
  operate_found, operate_fetched, operate_declared, Operated, removes,
}
use queuelens.Operator.Keeping.{
  KeptByCalls, Keeps-if, ensure_target-Keeps, publish_copy-Keeps, requeue_unprocessed-Keeps,
}
use queuelens.Broker.Log.{taken, acked}
use queuelens.Browser.Fetching.{fetch-Reads}

-- `m` is the one message with the fingerprint among those that were read, and it alone was acknowledged.
pub record OneAcked (h : Hashing) (b : Broker) (o : Order b) (fp : String)
    (before after : List Event) : Type 0 where
  pub held : List Delivery
  pub m : Delivery
  pub read : taken after ≡ taken before ++ held
  pub unique : matching h o.source_queue fp held ≡ m ∷ []
  pub one : acked after ≡ acked before ++ m ∷ []
  pub removing : removes o.action ≡ true

module _ (b : Broker) (a t : List Delivery) where
  -- The acknowledged and the read messages so far.
  abbrev Seen : World b → Type 0
  Seen w = (acked w.log ≡ a) × (taken w.log ≡ t)

  Seen-calls : KeptByCalls Seen
  unfolding open_channel close_channel declare_queue get_exchange publish nack
  Seen-calls = record {
    by_open = record { at = λ w h. h };
    by_close = record { at = λ w h. h };
    by_declare = λ q p. record { at = λ w h. h };
    by_lookup = λ x e. record { at = λ w h. h };
    by_publish = λ o x key. record { at = λ w h. h };
    by_nack = λ m. record { at = λ w h. h };
  }

module _ (b : Broker) (action : Action) (m : Delivery) (a t : List Delivery) where
  -- Nothing more acknowledged, or `m`.
  abbrev Perhaps : World b → Type 0
  Perhaps w =
      Seen b a t w ⊎ ((removes action ≡ true) × (acked w.log ≡ a ++ m ∷ []) × (taken w.log ≡ t))

  Perhaps-calls : KeptByCalls Perhaps
  unfolding open_channel close_channel declare_queue get_exchange publish nack
  Perhaps-calls = record {
    by_open = record { at = λ w h. h };
    by_close = record { at = λ w h. h };
    by_declare = λ q p. record { at = λ w h. h };
    by_lookup = λ x e. record { at = λ w h. h };
    by_publish = λ o x key. record { at = λ w h. h };
    by_nack = λ m. record { at = λ w h. h };
  }

  ack-Perhaps : (w : World b) → removes action ≡ true → Seen b a t w → Perhaps (ack b m w).1
  unfolding ack
  ack-Perhaps w r (acks_so_far, read) = inr (r, ap (λ xs. xs ++ m ∷ []) acks_so_far, read)

settle-Perhaps :
    (b : Broker) (action : Action) (m : Delivery) (a t : List Delivery) (w : World b)
    → Seen b a t w
    → Perhaps b action m a t (settle b action m w).1
unfolding settle
settle-Perhaps b copy m a t w s = inl (((Seen-calls b a t).by_nack m).at w s)
settle-Perhaps b move m a t w s = ack-Perhaps b move m a t w refl s
settle-Perhaps b park m a t w s = ack-Perhaps b park m a t w refl s
settle-Perhaps b delete m a t w s = ack-Perhaps b delete m a t w refl s
settle-Perhaps b unsupported m a t w s = inl s

deliver-Seen :
    (b : Broker) (a t : List Delivery) (action : Action) (target : Option ReplayTarget)
    (headers : Dict String Value) (stamp_deaths : Bool) (r : MessageRecord)
    → Keeps (Seen b a t) (deliver b action target headers stamp_deaths r)
unfolding deliver
deliver-Seen b a t action none headers stamp_deaths r =
    Keeps-if (Seen b a t) (Seen-calls b a t) (publishes_copy action) _ _ (record { at = λ w s. s })
      (record { at = λ w s. s })
deliver-Seen b a t action (some to) headers stamp_deaths r =
    Keeps-if (Seen b a t) (Seen-calls b a t) (publishes_copy action) _ _
      (Keeps-bind (Seen b a t) (ensure_target b to (is_park action))
        (λ u. publish_copy b r to headers (stamp_deaths && not (is_park action)))
        (ensure_target-Keeps (Seen b a t) (Seen-calls b a t) to (is_park action))
        (λ u. publish_copy-Keeps (Seen b a t) (Seen-calls b a t) r to headers _))
      (record { at = λ w s. s })

module _ (h : Hashing) (b : Broker) (o : Order b) (fp : String) (stamp_deaths : Bool) where
  operate_on-Perhaps :
      (held : List Delivery) (m : Delivery) (a t : List Delivery) (w : World b)
      → Seen b a t w
      → Perhaps b o.action m a t (operate_on h b o fp stamp_deaths held m w).1
  unfolding operate_on
  operate_on-Perhaps held m a t w s =
      let r = to_record h o.source_queue m in
      let Q = Perhaps b o.action m a t in
      let calls = Perhaps-calls b o.action m a t in
      let sent = (deliver-Seen b a t o.action o.target o.replay_headers stamp_deaths r).at w s in
      let w' = (deliver b o.action o.target o.replay_headers stamp_deaths r w).1 in
      after-leads Q _ (deliver b o.action o.target o.replay_headers stamp_deaths r w) (inl sent)
        λ u. after-keeps Q _ (settle b o.action m w') (settle-Perhaps b o.action m a t w' sent) λ v.
          Keeps-bind Q (requeue b held (some m)) _ (requeue-Keeps Q calls.by_nack held (some m))
            λ x. record { at = λ w'' q. q }

  abbrev Outcome : List Event → List Event → Type 0
  Outcome before after = (acked after ≡ acked before) ⊎ OneAcked h b o fp before after

  Perhaps-Outcome :
      (held : List Delivery) (m : Delivery) (before : List Event) (w : World b)
      → matching h o.source_queue fp held ≡ m ∷ []
      → Perhaps b o.action m (acked before) (taken before ++ held) w
      → Outcome before w.log
  Perhaps-Outcome held m before w unique (inl s) = inl s.0
  Perhaps-Outcome held m before w unique (inr (removing, one, read)) =
      inr (record {
        held = held;
        m = m;
        read = read;
        unique = unique;
        one = one;
        removing = removing;
      })

  on_error-Outcome :
      (held : List Delivery) (m : Delivery) (before : List Event)
      (r : Result (Operated b) × World b)
      → matching h o.source_queue fp held ≡ m ∷ []
      → Perhaps b o.action m (acked before) (taken before ++ held) r.1
      → Outcome before (on_error b (requeue_unprocessed b held) r).1.log
  on_error-Outcome held m before r unique p =
      let Q = Perhaps b o.action m (acked before) (taken before ++ held) in
      Perhaps-Outcome held m before (on_error b (requeue_unprocessed b held) r).1 unique (
        on_error-keeps Q (requeue_unprocessed b held) r
          (requeue_unprocessed-Keeps Q
            (Perhaps-calls b o.action m (acked before) (taken before ++ held)) held)
          p)

  -- Where no message is acted on, none is acknowledged.
  idle-Outcome :
      (held : List Delivery) (before : List Event) (r : Result (Operated b) × World b)
      → acked r.1.log ≡ acked before
      → Outcome before (on_error b (requeue_unprocessed b held) r).1.log
  idle-Outcome held before r s =
      let t = taken r.1.log in
      inl (
        (on_error-keeps (Seen b (acked before) t) (requeue_unprocessed b held) r
          (requeue_unprocessed-Keeps (Seen b (acked before) t) (Seen-calls b (acked before) t) held)
          (s, refl)).0)

  found-Outcome :
      (held group : List Delivery) (before : List Event) (w : World b)
      → matching h o.source_queue fp held ≡ group
      → Seen b (acked before) (taken before ++ held) w
      → Outcome before
          (on_error b
            (requeue_unprocessed b held)
            (operate_found h b o fp stamp_deaths held group w)).1.log
  found-Outcome held [] before w e s =
      idle-Outcome held before (operate_found h b o fp stamp_deaths held [] w) s.0
  found-Outcome held (m ∷ n ∷ rest) before w e s =
      idle-Outcome held before (operate_found h b o fp stamp_deaths held (m ∷ n ∷ rest) w) s.0
  found-Outcome held (m ∷ []) before w e s =
      on_error-Outcome held m before (operate_on h b o fp stamp_deaths held m w) e
        (operate_on-Perhaps held m (acked before) (taken before ++ held) w s)

  fetched-Outcome :
      (held : List Delivery) (r : Result (ℕ × Option Stop)) (before : List Event) (w : World b)
      → Seen b (acked before) (taken before ++ held) w
      → Outcome before
          (on_error b
            (requeue_unprocessed b held)
            (operate_fetched h b o fp stamp_deaths held r w)).1.log
  fetched-Outcome held (raise e) before w s =
      idle-Outcome held before (operate_fetched h b o fp stamp_deaths held (raise e) w) s.0
  fetched-Outcome held (ok n) before w s =
      found-Outcome held (matching h o.source_queue fp held) before w refl s

  declared-Outcome :
      (r : Result ℕ × World b) (before : List Event)
      → Seen b (acked before) (taken before) r.1
      → Outcome before (operate_declared h b o fp stamp_deaths r).1.log
  declared-Outcome (raise e, w) before s =
      let r : Result (Operated b) × World b = (raise e, w) in idle-Outcome [] before r s.0
  declared-Outcome (ok ready, w) before s =
      let f = fetch b o.whole o.source_queue o.max_scan none ready w in
      let reads = fetch-Reads b o.whole o.source_queue o.max_scan none ready w in
      fetched-Outcome f.held f.outcome before f.world
        (reads.no_ack ∙ s.0, reads.took ∙ ap (λ xs. xs ++ f.held) s.1)

  close-Outcome : (before : List Event) → Keeps (λ w. Outcome before w.log) (close_channel b)
  unfolding close_channel
  close-Outcome before = record {
    at = λ w out. elim out [
      | inl same ↦ inl same
      | inr one ↦ inr (record {
        held = one.held;
        m = one.m;
        read = one.read;
        unique = one.unique;
        one = one.one;
        removing = one.removing;
      })
    ];
  }

-- A single action acknowledges at most one message, and only if it moves, parks or deletes: the one
-- message with the fingerprint among all that it read. If none or several have it, it acknowledges
-- nothing. This holds whatever the broker answers, and however the action ends.
pub operate-OneAcked :
    (h : Hashing) (b : Broker) (o : Order b) (fp : String) (stamp_deaths : Bool) (w : World b)
    → let after = (operate h b o fp stamp_deaths w).1.log in
      (acked after ≡ acked w.log) ⊎ OneAcked h b o fp w.log after
unfolding operate with_channel open_channel declare_queue
operate-OneAcked h b o fp stamp_deaths w =
    after-leads (λ w'. Outcome h b o fp stamp_deaths w.log w'.log) _ (open_channel b w) (inl refl)
      λ u.
        let declared = declare_queue b o.source_queue true (open_channel b w).1 in
        finally_do-keeps (λ w'. Outcome h b o fp stamp_deaths w.log w'.log) (close_channel b)
          (operate_declared h b o fp stamp_deaths declared)
          (close-Outcome h b o fp stamp_deaths w.log)
          (declared-Outcome h b o fp stamp_deaths declared w.log (refl, refl))
