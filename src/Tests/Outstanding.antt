-- ===== src/Tests/Outstanding.antt =====
-- A broker that keeps the delivery tags that are not settled, and a scan of two messages against it.
use queuelens.Prelude.{
  ℕ, ◌≡◌, refl, true, false, not, Option, none, some, List, [], ◌∷◌, map, filter, contains, length,
  nat_eq, ◌==◌, arith,
}
use queuelens.Failure.{ok}
use queuelens.Broker.{Broker, Delivery, Answer, answer, World}
use queuelens.Broker.Laws.{Laws, Fresh}
use queuelens.Broker.Exec.{declare_queue, get_message, nack, open_channel, close_channel}
use queuelens.Browser.{Scan, scan, fetch, requeue, to_record}
use queuelens.Browser.Scanning.{GaveBack, scan_gives_back}
use queuelens.Tests.Memory.{hashing, message}

record Outstanding : Type 0 where
  ready : List Delivery
  tags : List ℕ

abbrev take_first : List Delivery → Outstanding → Answer (Option Delivery) × Outstanding
take_first [] s = (answer none, s)
take_first (d ∷ rest) s = (answer (some d), record { ready = rest; tags = d.tag ∷ s.tags })

abbrev settled : Delivery → Outstanding → Outstanding
settled d s = record s { tags = filter (λ t. not (t == d.tag)) s.tags }

abbrev outstanding : Broker
outstanding = record {
  S = Outstanding;
  open_channel = λ s. (answer tt, s);
  close_channel = λ s. (answer tt, s);
  declare_queue = λ q passive s. (answer (length s.ready), s);
  get_exchange = λ x ensure s. (answer tt, s);
  get_message = λ q s. take_first s.ready s;
  publish = λ o x key s. (answer tt, s);
  ack = λ d s. (answer tt, settled d s);
  nack = λ d s. (answer tt, settled d s);
  processed = λ d s. not (contains s.tags d.tag);
}

gone : (tags : List ℕ) (t : ℕ) → contains (filter (λ u. not (u == t)) tags) t ≡ false
gone [] t = refl
gone (u ∷ tags) t = ground (arith, gone tags t)

stays_gone :
    (tags : List ℕ) (t u : ℕ)
    → contains tags u ≡ false
    → contains (filter (λ v. not (v == t)) tags) u ≡ false
stays_gone [] t u h = refl
stays_gone (v ∷ tags) t u h = ground (arith, stays_gone tags t u)

stays_open :
    (tags : List ℕ) (t u : ℕ)
    → (u == t) ≡ false
    → contains tags u ≡ true
    → contains (filter (λ v. not (v == t)) tags) u ≡ true
stays_open [] t u other h = cc h
stays_open (v ∷ tags) t u other h = ground (arith, stays_open tags t u other)

settled_keeps :
    (tags : List ℕ) (t u : ℕ)
    → not (contains tags u) ≡ true
    → not (contains (filter (λ v. not (v == t)) tags) u) ≡ true
settled_keeps tags t u h = ground (arith, stays_gone tags t u)

outstanding-Laws : Laws outstanding
outstanding-Laws = record {
  ack_settles = λ d s e. ground (arith, gone s.tags d.tag);
  nack_settles = λ d s e. ground (arith, gone s.tags d.tag);
  ack_keeps = λ m d s h. settled_keeps s.tags d.tag m.tag h;
  nack_keeps = λ m d s h. settled_keeps s.tags d.tag m.tag h;
  publish_keeps = λ m o x key s h. h;
  get_exchange_keeps = λ m x ensure s h. h;
  close_keeps = λ m s h. h;
}

take_first-open :
    (d : Delivery) (ready : List Delivery) (s : Outstanding)
    → (take_first ready s).0 ≡ answer (some d)
    → not (contains (take_first ready s).1.tags d.tag) ≡ false
take_first-open d [] s e = cc e
take_first-open d (m ∷ rest) s e = ground (arith, e)

take_first-keeps :
    (m : Delivery) (ready : List Delivery) (s : Outstanding)
    → not (contains s.tags m.tag) ≡ false
    → not (contains (take_first ready s).1.tags m.tag) ≡ false
take_first-keeps m [] s h = h
take_first-keeps m (d ∷ rest) s h = ground (arith, h)

outstanding-Fresh : Fresh outstanding
outstanding-Fresh = record {
  get_open = λ d q s e. take_first-open d s.ready s e;
  get_settles_none = λ m q s h. take_first-keeps m s.ready s h;
  nack_settles_one = λ m d s other h. ground (arith, stays_open s.tags d.tag m.tag other);
}

abbrev start : World outstanding
start = record { state = record { ready = message 1 ∷ message 2 ∷ []; tags = [] }; log = [] }

abbrev both : Scan outstanding
both = record {
  records = map (to_record hashing "orders.dlq") (message 1 ∷ message 2 ∷ []);
  ready = 2;
  stopped = none;
}

scanned : (scan outstanding hashing true "orders.dlq" 10 none start).0 ≡ ok both
unfolding scan fetch requeue declare_queue nack get_message open_channel close_channel
scanned = refl

scan_gives_back_example :
    GaveBack outstanding hashing true "orders.dlq" 10 [] both
      (scan outstanding hashing true "orders.dlq" 10 none start).1
scan_gives_back_example =
    scan_gives_back outstanding outstanding-Laws outstanding-Fresh hashing true "orders.dlq" 10 none
      start both scanned
