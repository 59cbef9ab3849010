-- ===== src/Browser/Scanning.antt =====
-- Browsing never consumes: what `scan` does to the queue.
use queuelens.Prelude.{
  ℕ, ◌≤◌, String, ◌≡◌, inl, inr, refl, sym, ap, subst, ◌∙◌, Bool, true, Option, none, List, [],
  ◌++◌, map, length, arith, All, All-mono,
}
use queuelens.Failure.{Result, ok, raise}
use queuelens.Domain.Fingerprint.{Hashing}
use queuelens.Broker.{Broker, World, Delivery, Event}
use queuelens.Broker.Exec.{open_channel, close_channel, declare_queue, nack, processed}
use queuelens.Broker.Log.{taken, acked, nacked, published}
use queuelens.Broker.Laws.{Laws, Fresh}
use queuelens.Broker.Keeps.{
  Keeps, Keeps-with_channel, finally_do-keeps, finally_do-ok, with_channel-ok, raise-ne-ok,
}
use queuelens.Browser.{
  Stop, Fetched, fetch, requeue, Scan, scan, scan_of, scan_declared, put_back, to_record,
}
use queuelens.Browser.Fetching.{fetch-Reads, fetch_limits}
use queuelens.Browser.Returning.{GivenBack, fetch-Open, requeue-GivenBack}
use queuelens.Browser.Settling.{requeue-Keeps, requeue-settles, Settled}

-- Neither acknowledged nor published anything: the logs agree on both.
abbrev pub Untouched : {b : Broker} → List Event → World b → Type 0
Untouched before w = (acked w.log ≡ acked before) × (published w.log ≡ published before)

module _ (b : Broker) (before : List Event) where
  pub nack-Untouched : (d : Delivery) → Keeps (Untouched before) (nack b d)
  unfolding nack
  nack-Untouched d = record { at = λ w h. h }

  pub open-Untouched : Keeps (Untouched before) (open_channel b)
  unfolding open_channel
  open-Untouched = record { at = λ w h. h }

  pub close-Untouched : Keeps (Untouched before) (close_channel b)
  unfolding close_channel
  close-Untouched = record { at = λ w h. h }

  declare-Untouched : (q : String) (p : Bool) → Keeps (Untouched before) (declare_queue b q p)
  unfolding declare_queue
  declare-Untouched q p = record { at = λ w h. h }

  put_back-Untouched :
      (h : Hashing) (queue : String) (f : Fetched b)
      → Untouched before f.world
      → Untouched before (put_back b h queue f).1
  put_back-Untouched h queue f u =
      finally_do-keeps (Untouched before) (requeue b f.held none) _
        (requeue-Keeps (Untouched before) nack-Untouched f.held none) u

  scan_declared-Untouched :
      (h : Hashing) (whole : Bool) (queue : String) (limit : ℕ) (max_bytes : Option ℕ)
      (r : Result ℕ × World b)
      → Untouched before r.1
      → Untouched before (scan_declared b h whole queue limit max_bytes r).1
  scan_declared-Untouched h whole queue limit max_bytes (raise e, w) u =
      let r : Result (Scan b) × World b = (raise e, w) in
      finally_do-keeps (Untouched before) (requeue b [] none) r
        (requeue-Keeps (Untouched before) nack-Untouched [] none) u
  scan_declared-Untouched h whole queue limit max_bytes (ok ready, w) u =
      let reads = fetch-Reads b whole queue limit max_bytes ready w in
      put_back-Untouched h queue (fetch b whole queue limit max_bytes ready w)
        (reads.no_ack ∙ u.0, reads.no_publish ∙ u.1)

-- Whatever the broker answers and however `scan` ends, it acknowledges no message and publishes none.
pub scan-Untouched :
    (b : Broker) (h : Hashing) (whole : Bool) (queue : String) (limit : ℕ) (max_bytes : Option ℕ)
    (w : World b)
    → Untouched w.log (scan b h whole queue limit max_bytes w).1
unfolding scan
scan-Untouched b h whole queue limit max_bytes w =
    (Keeps-with_channel (Untouched w.log) _ (open-Untouched b w.log) (close-Untouched b w.log)
        (record {
          at = λ w' u.
              scan_declared-Untouched b w.log h whole queue limit max_bytes _
                ((declare-Untouched b w.log queue true).at w' u);
        })).at
      w (refl, refl)

-- A scan that returned: what it took, what it shows of it, and that all of it is settled.
pub record GaveBack (b : Broker) (h : Hashing) (whole : Bool) (queue : String) (limit : ℕ)
    (before : List Event) (s : Scan b) (w : World b) : Type 0 where
  pub held : List Delivery
  pub took : taken w.log ≡ taken before ++ held
  pub shown : s.records ≡ map (to_record h queue) held
  pub within : length held ≤ limit
  pub complete : whole ≡ true → s.stopped ≡ none
  pub given_back : GivenBack (nacked before) (nacked w.log) held
  pub settled : All (λ m. processed b m w ≡ true) held

scan_of-ok :
    (b : Broker) (h : Hashing) (queue : String) (held : List Delivery)
    (r : Result (ℕ × Option Stop)) (s : Scan b)
    → scan_of b h queue held r ≡ ok s
    → (n : ℕ) × (st : Option Stop) × (r ≡ ok (n, st))
      × (s.records ≡ map (to_record h queue) held)
      × (s.stopped ≡ st)
scan_of-ok b h queue held (raise x) s e = absurd (cc)
scan_of-ok b h queue held (ok (n, st)) s e = (n, st, refl, ground arith, ground arith)

rebase :
    (b : Broker) (h : Hashing) (whole : Bool) (queue : String) (limit : ℕ)
    (before start : List Event) (s : Scan b) (w : World b)
    → taken before ≡ taken start
    → nacked before ≡ nacked start
    → GaveBack b h whole queue limit before s w
    → GaveBack b h whole queue limit start s w
rebase b h whole queue limit before start s w e f g = record {
  held = g.held;
  took = g.took ∙ ap (λ t. t ++ g.held) e;
  shown = g.shown;
  within = g.within;
  complete = g.complete;
  given_back = subst (λ l. GivenBack l (nacked w.log) g.held) f g.given_back;
  settled = g.settled;
}

not_kept : (b : Broker) (m : Delivery) (w : World b) → Settled b none w m → processed b m w ≡ true
not_kept b m w (inl e) = absurd (cc)
not_kept b m w (inr h) = h

module _ (b : Broker) (laws : Laws b) (fresh : Fresh b) where
  nack-took : (d : Delivery) (t : List Delivery) → Keeps (λ w. taken w.log ≡ t) (nack b d)
  unfolding nack
  nack-took d t = record { at = λ w h. h }

  put_back-GaveBack :
      (h : Hashing) (whole : Bool) (queue : String) (limit : ℕ) (max_bytes : Option ℕ) (ready : ℕ)
      (w : World b) (s : Scan b)
      → (put_back b h queue (fetch b whole queue limit max_bytes ready w)).0 ≡ ok s
      → GaveBack b h whole queue limit w.log s
          (put_back b h queue (fetch b whole queue limit max_bytes ready w)).1
  put_back-GaveBack h whole queue limit max_bytes ready w s e =
      let f = fetch b whole queue limit max_bytes ready w in
      let r : Result (Scan b) × World b = (scan_of b h queue f.held f.outcome, f.world) in
      let (found, back, same) = finally_do-ok (requeue b f.held none) r s e in
      let (n, st, outcome, shown, stopped) = scan_of-ok b h queue f.held f.outcome s found in
      let (count, within, complete) =
        fetch_limits b whole queue limit max_bytes ready w n st outcome in
      let reads = fetch-Reads b whole queue limit max_bytes ready w in
      subst (GaveBack b h whole queue limit w.log s) (sym same) (record {
        held = f.held;
        took =
            (requeue-Keeps (λ v. taken v.log ≡ taken w.log ++ f.held)
                (λ d. nack-took d (taken w.log ++ f.held)) f.held none).at
              f.world reads.took;
        shown = shown;
        within = within;
        complete = λ all. stopped ∙ complete all;
        given_back =
            subst (λ l. GivenBack l (nacked (requeue b f.held none f.world).1.log) f.held)
              reads.no_nack
              (requeue-GivenBack b laws fresh f.held f.world
                (fetch-Open b fresh whole queue limit max_bytes ready w) back);
        settled =
            All-mono _ (λ m. processed b m (requeue b f.held none f.world).1 ≡ true) f.held
              (λ m. not_kept b m (requeue b f.held none f.world).1)
              (requeue-settles b laws f.held none f.world back);
      })

  scan_declared-GaveBack :
      (h : Hashing) (whole : Bool) (queue : String) (limit : ℕ) (max_bytes : Option ℕ)
      (r : Result ℕ × World b) (s : Scan b)
      → (scan_declared b h whole queue limit max_bytes r).0 ≡ ok s
      → GaveBack b h whole queue limit r.1.log s (scan_declared b h whole queue limit max_bytes r).1
  scan_declared-GaveBack h whole queue limit max_bytes (raise x, w) s e =
      let r : Result (Scan b) × World b = (raise x, w) in
      absurd (raise-ne-ok x s (finally_do-ok (requeue b [] none) r s e).0)
  scan_declared-GaveBack h whole queue limit max_bytes (ok ready, w) s e =
      put_back-GaveBack h whole queue limit max_bytes ready w s e

  close-GaveBack :
      (h : Hashing) (whole : Bool) (queue : String) (limit : ℕ) (before : List Event) (s : Scan b)
      → Keeps (GaveBack b h whole queue limit before s) (close_channel b)
  unfolding close_channel
  close-GaveBack h whole queue limit before s = record {
    at = λ w g. record {
      held = g.held;
      took = g.took;
      shown = g.shown;
      within = g.within;
      complete = g.complete;
      given_back = g.given_back;
      settled =
          All-mono (λ m. processed b m w ≡ true) (λ m. processed b m (close_channel b w).1 ≡ true)
            g.held (λ m. laws.close_keeps m w.state) g.settled;
    };
  }

-- A scan that returns shows what it took, in the order of the reads and at most `limit` messages; a
-- whole scan has met the end of the queue. It gave back (`nack` with requeue) each message that it took,
-- by its delivery tag, and no other, and all of them are settled when the channel has been closed.
pub scan_gives_back :
    (b : Broker) (laws : Laws b) (fresh : Fresh b) (h : Hashing) (whole : Bool) (queue : String)
    (limit : ℕ) (max_bytes : Option ℕ) (w : World b) (s : Scan b)
    → (scan b h whole queue limit max_bytes w).0 ≡ ok s
    → GaveBack b h whole queue limit w.log s (scan b h whole queue limit max_bytes w).1
unfolding scan open_channel declare_queue
scan_gives_back b laws fresh h whole queue limit max_bytes w s e =
    let (inner, last) = with_channel-ok _ w s e in
    let declared = declare_queue b queue true (open_channel b w).1 in
    let f = scan_declared b h whole queue limit max_bytes declared in
    let given =
      rebase b h whole queue limit declared.1.log w.log s f.1 refl refl
        (scan_declared-GaveBack b laws fresh h whole queue limit max_bytes declared s inner) in
    subst (GaveBack b h whole queue limit w.log s) (sym last)
      ((close-GaveBack b laws fresh h whole queue limit w.log s).at f.1 given)
