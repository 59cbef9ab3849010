-- ===== src/Operator/Publishing.antt =====
-- What a replay publishes, and where.
use queuelens.Prelude.{
  String, ◌≡◌, ◌≢◌, ◌⊎◌, inl, inr, refl, sym, ap, ◌∙◌, subst, Bool, true, false, Option, none, some,
  List, ◌∷◌, ◌==◌, string_eq, Dict, get, put, merge, get-put, get-merge_absent, arith, Bool-cases,
}
use queuelens.Prelude.Int.{ℤ}
use queuelens.Value.{Value, int}
use queuelens.Failure.{ok, Result-cases, returned, raised}
use queuelens.Domain.{MessageRecord, ReplayTarget}
use queuelens.Domain.XDeath.{deaths, deaths_header}
use queuelens.Domain.Fingerprint.{Hashing}
use queuelens.Browser.{to_record}
use queuelens.Broker.{Broker, Delivery, World, Outgoing, Event, publishes}
use queuelens.Broker.Exec.{publish, get_exchange}
use queuelens.Broker.Keeps.{after-ok, after-raise, ok-injective}
use queuelens.Operator.Carrying.{Carries, replayed-Carries, replayed-properties_of}
use queuelens.Operator.{outgoing, replayed, send, send_to_queue, send_to_exchange, publish_copy}

ne→beq : (s t : String) → s ≢ t → (s == t) ≡ false
ne→beq s t ne = ground (arith, string_eq.agrees s t)

-- What a copy keeps of its record.
pub record IsCopy (r : MessageRecord) (replay_headers : Dict String Value) (stamped : Bool)
    (o : Outgoing) : Type 0 where
  pub body : o.body ≡ r.body
  pub properties : Carries r.properties o.properties
  pub kept :
      (k : String)
      → get replay_headers k ≡ none
      → k ≢ deaths_header
      → get o.headers k ≡ get r.headers k
  pub stamp :
      stamped ≡ true
      → (n : ℤ) × (deaths r.x_death r.headers ≡ ok n) × (get o.headers deaths_header ≡ some (int n))

-- The message that `outgoing` builds once the deaths are counted.
abbrev with_stamp : MessageRecord → Dict String Value → ℤ → Outgoing
with_stamp r hs n = record {
  body = r.body;
  headers = put (merge r.headers hs) deaths_header (int n);
  properties = replayed r.properties;
}

stamped-IsCopy :
    (r : MessageRecord) (hs : Dict String Value) (n : ℤ) (o : Outgoing)
    → deaths r.x_death r.headers ≡ ok n
    → ok (with_stamp r hs n) ≡ ok o
    → IsCopy r hs true o
stamped-IsCopy r hs n o f e = subst (IsCopy r hs true) (ok-injective e) (record {
  body = refl;
  properties = replayed-Carries r.properties;
  kept = λ k absent ne.
      get-put (merge r.headers hs) deaths_header k (int n)
      ∙ rw (ne→beq deaths_header k (λ x. ne (sym x))) (get-merge_absent r.headers hs k absent);
  stamp = λ h. (n, f, get-put (merge r.headers hs) deaths_header deaths_header (int n));
})

pub outgoing-IsCopy :
    (r : MessageRecord) (replay_headers : Dict String Value) (stamp_deaths : Bool) (o : Outgoing)
    → outgoing r replay_headers stamp_deaths ≡ ok o
    → IsCopy r replay_headers stamp_deaths o
unfolding outgoing
outgoing-IsCopy r hs false o e = record {
  body = ground arith;
  properties =
      subst (Carries r.properties) (ap (λ m. m.properties) (ok-injective e))
        (replayed-Carries r.properties);
  kept = λ k absent ne.
      ap (λ (h : Dict String Value). get h k) (ground arith)
      ∙ get-merge_absent r.headers hs k absent;
  stamp = λ h. cc;
}
outgoing-IsCopy r hs true o e = elim (Result-cases (deaths r.x_death r.headers)) [
  | raised x f ↦ cc (rw f at e)
  | returned n f ↦ stamped-IsCopy r hs n o f (rw f at e)
]

stamp_properties :
    (r : MessageRecord) (hs : Dict String Value) (stamp_deaths : Bool) (o : Outgoing)
    → outgoing r hs stamp_deaths ≡ ok o
    → o.properties ≡ replayed r.properties
unfolding outgoing
stamp_properties r hs false o e = sym (ap (λ m. m.properties) (ok-injective e))
stamp_properties r hs true o e = elim (Result-cases (deaths r.x_death r.headers)) [
  | raised x f ↦ cc (rw f at e)
  | returned n f ↦ sym (ap (λ m. m.properties) (ok-injective (rw f at e)))
]

-- What was read from the queue is sent again with the very properties it had.
pub outgoing-to_record :
    (h : Hashing) (q : String) (m : Delivery) (hs : Dict String Value) (stamp_deaths : Bool)
    (o : Outgoing)
    → outgoing (to_record h q m) hs stamp_deaths ≡ ok o
    → o.properties ≡ m.properties
unfolding to_record
outgoing-to_record h q m hs stamp_deaths o e =
    stamp_properties (to_record h q m) hs stamp_deaths o e ∙ replayed-properties_of m.properties

-- The exchange and the routing key that a target stands for.
abbrev pub SentTo : ReplayTarget → String → String → Type 0
SentTo t x key =
    ((t.type ≡ "queue") × (x ≡ "") × (t.queue ≡ some key))
    ⊎ ((t.type ≡ "exchange") × (t.exchange ≡ some x) × (t.routing_key ≡ some key))

-- The last call was a publish of `o` to the target, and the broker confirmed it.
abbrev pub LastSent : ReplayTarget → Outgoing → List Event → Type 0
LastSent t o log =
    (x : String) × (key : String) × (before : List Event) × (log
      ≡ publishes o x key (ok tt) ∷ before)
    × SentTo t x key

module _ (b : Broker) (o : Outgoing) where
  publish-last :
      (x key : String) (w : World b)
      → (publish b o x key w).0 ≡ ok tt
      → (publish b o x key w).1.log ≡ publishes o x key (ok tt) ∷ w.log
  unfolding publish
  publish-last x key w e = rw e

  send_to_queue-LastSent :
      (t : ReplayTarget) (q : Option String) (w : World b)
      → t.type ≡ "queue"
      → t.queue ≡ q
      → (send_to_queue b o q w).0 ≡ ok tt
      → LastSent t o (send_to_queue b o q w).1.log
  unfolding send_to_queue
  send_to_queue-LastSent t none w kind same e = cc
  send_to_queue-LastSent t (some q) w kind same e = elim (Bool-cases (q == "")) [
    | inl blank ↦ cc
    | inr named ↦
        rw named ("", q, w.log, publish-last "" q w (rw named at e), inl (kind, refl, same))
  ]

  send_to_exchange-LastSent :
      (t : ReplayTarget) (x key : Option String) (w : World b)
      → t.type ≡ "exchange"
      → t.exchange ≡ x
      → t.routing_key ≡ key
      → (send_to_exchange b o x key w).0 ≡ ok tt
      → LastSent t o (send_to_exchange b o x key w).1.log
  unfolding send_to_exchange
  send_to_exchange-LastSent t none key w kind same same' e = cc
  send_to_exchange-LastSent t (some x) none w kind same same' e = cc
  send_to_exchange-LastSent t (some x) (some key) w kind same same' e =
      elim (Bool-cases (x == "")) [
        | inl blank ↦ cc
        | inr named ↦ rw named (elim (Result-cases (get_exchange b x false w).0) [
          | raised y f ↦
              cc (
                rw (named, after-raise (λ u. publish b o x key) (get_exchange b x false w) y f) at
                  e)
          | returned u f ↦
              let step = after-ok (λ v. publish b o x key) (get_exchange b x false w) u f in
              rw step (
                x,
                key,
                (get_exchange b x false w).1.log,
                publish-last x key _ (rw (named, step) at e),
                inr (kind, same, same'),
              )
        ])
      ]

  send-LastSent :
      (t : ReplayTarget) (w : World b)
      → (send b t o w).0 ≡ ok tt
      → LastSent t o (send b t o w).1.log
  unfolding send
  send-LastSent t w e = elim (Bool-cases (t.type == "queue")) [
    | inl queue ↦ rw queue (
        send_to_queue-LastSent t t.queue w ((string_eq.agrees t.type "queue").0 queue) refl
          (rw queue at e))
    | inr other ↦ elim (Bool-cases (t.type == "exchange")) [
      | inl exchange ↦
          rw (other, exchange)
            (send_to_exchange-LastSent t t.exchange t.routing_key w
              ((string_eq.agrees t.type "exchange").0 exchange) refl refl
              (rw (other, exchange) at e))
      | inr neither ↦ cc (rw (other, neither) at e)
    ]
  ]

-- A publish that returned has sent a copy of the record to the target with its last call.
pub publish_copy-LastSent :
    (b : Broker) (r : MessageRecord) (t : ReplayTarget) (headers : Dict String Value)
    (stamp_deaths : Bool) (w : World b)
    → (publish_copy b r t headers stamp_deaths w).0 ≡ ok tt
    → (o : Outgoing) × (outgoing r headers stamp_deaths ≡ ok o)
      × LastSent t o (publish_copy b r t headers stamp_deaths w).1.log
unfolding publish_copy
publish_copy-LastSent b r t headers stamp_deaths w e =
    elim (Result-cases (outgoing r headers stamp_deaths)) [
      | raised x f ↦ cc (rw f at e)
      | returned o f ↦ rw f (o, refl, send-LastSent b o t w (rw f at e))
    ]
