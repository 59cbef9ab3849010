-- ===== src/Browser/Fetching.antt =====
-- `fetch` ends, keeps to its limit and hands over all that it took.
use queuelens.Prelude.{
  ℕ, zero, suc, ◌+◌, ◌≤◌, ◌<◌, ◌≡◌, ◌≢◌, inl, inr, refl, sym, ap, String, Bool, true, not, ◌&&◌,
  Option, none, some, List, [], ◌∷◌, ◌++◌, append_assoc, append-nil, length, length-append, ltb,
  ◌==◌, nat_eq, arith, Bool-cases,
}
use queuelens.Failure.{Failure, Result, ok, raise, out_of_fuel, unsafe_to_browse}
use queuelens.Broker.{Broker, World, Delivery, Event, gets, Answer, answer, fault}
use queuelens.Broker.Exec.{get_message, to_result}
use queuelens.Broker.Log.{taken, acked, nacked, published}
use queuelens.Browser.{Stop, depth, memory, Fetched, received, fetch_loop, fetch, over_budget}

get_message-log :
    (b : Broker) (queue : String) (w : World b)
    → (get_message b queue w).1.log ≡ gets (get_message b queue w).0 ∷ w.log
unfolding get_message
get_message-log b queue w = refl

to_result-fuel : {A : Type 0} (a : Answer A) → to_result a ≢ raise out_of_fuel
to_result-fuel (answer a) e = cc
to_result-fuel (fault f) e = cc

get_message-fuel :
    (b : Broker) (queue : String) (w : World b) → (get_message b queue w).0 ≢ raise out_of_fuel
unfolding get_message
get_message-fuel b queue w = to_result-fuel (b.get_message queue w.state).0

-- Between two points of a run only reads were made, and they delivered `held`.
pub record Reads (before after : List Event) (held : List Delivery) : Type 0 where
  pub took : taken after ≡ taken before ++ held
  pub no_ack : acked after ≡ acked before
  pub no_nack : nacked after ≡ nacked before
  pub no_publish : published after ≡ published before

Reads-get :
    (before log : List Event) (held : List Delivery) (m : Delivery)
    → Reads before log held
    → Reads before (gets (ok (some m)) ∷ log) (held ++ m ∷ [])
Reads-get before log held m h = record {
  took = rw h.took (append_assoc (taken before) held (m ∷ []));
  no_ack = h.no_ack;
  no_nack = h.no_nack;
  no_publish = h.no_publish;
}

module _ (b : Broker) (whole : Bool) (queue : String) (limit : ℕ) (max_bytes : Option ℕ)
    (ready : ℕ) where
  -- A run of the loop from `start`: it has not met its fuel, it hands over what it took, and a normal
  -- end keeps to the limit and, for a whole scan, is the end of the queue.
  record Ends (start : List Event) (f : Fetched b) : Type 0 where
    ended : f.outcome ≢ raise out_of_fuel
    reads : Reads start f.world.log f.held
    within :
        (n : ℕ) (s : Option Stop) → f.outcome ≡ ok (n, s) → (n ≡ ready) × (length f.held ≤ limit)
    complete : (n : ℕ) (s : Option Stop) → f.outcome ≡ ok (n, s) → whole ≡ true → s ≡ none

  stops :
      (start : List Event) (f : Fetched b) (s : Option Stop)
      → f.outcome ≡ ok (ready, s)
      → Reads start f.world.log f.held
      → length f.held ≤ limit
      → (whole ≡ true → s ≡ none)
      → Ends start f
  stops start f s e r le c = record {
    ended = λ x. cc;
    reads = r;
    within = λ n t x. (ground arith, le);
    complete = λ n t x y. cc (c y);
  }

  fails :
      (start : List Event) (f : Fetched b) (e : Failure)
      → f.outcome ≡ raise e
      → e ≢ out_of_fuel
      → Reads start f.world.log f.held
      → Ends start f
  fails start f e h ne r = record {
    ended = λ x. ne (ground arith);
    reads = r;
    within = λ n t x. cc;
    complete = λ n t x y. cc;
  }

  received-Ends :
      (start : List Event) (held : List Delivery) (size : ℕ) (w : World b)
      (r : Result (Option Delivery)) (w' : World b)
      (again : List Delivery → ℕ → World b → Fetched b)
      → w'.log ≡ gets r ∷ w.log
      → r ≢ raise out_of_fuel
      → Reads start w.log held
      → length held ≤ limit
      → ((m : Delivery)
          → length (held ++ m ∷ []) ≤ limit
          → Reads start w'.log (held ++ m ∷ [])
          → Ends start (again (held ++ m ∷ []) (size + length m.body) w'))
      → Ends start (received b whole limit max_bytes ready again held size (r, w'))
  unfolding received
  received-Ends start held size w (raise e) w' again l ne h le go =
      fails start _ e refl (λ x. ne (ap raise x))
        (rw l (record {
          took = h.took;
          no_ack = h.no_ack;
          no_nack = h.no_nack;
          no_publish = h.no_publish;
        }))
  received-Ends start held size w (ok none) w' again l ne h le go =
      stops start _ none refl
        (rw l (record {
          took = h.took;
          no_ack = h.no_ack;
          no_nack = h.no_nack;
          no_publish = h.no_publish;
        }))
        le (λ x. refl)
  received-Ends start held size w (ok (some m)) w' again l ne h le go =
      elim (Bool-cases (ltb limit (length (held ++ m ∷ [])))) [
        | inl over ↦ rw over (fails start _ unsafe_to_browse refl (λ x. cc) reads)
        | inr fits ↦ elim (Bool-cases (not whole && (length (held ++ m ∷ []) == limit))) [
          | inl full ↦
              rw (fits, full)
                (stops start _ (some depth) refl reads (ground arith) (λ x. absurd (ground arith)))
          | inr room ↦
              elim (Bool-cases (not whole && over_budget max_bytes (size + length m.body))) [
                | inl heavy ↦
                    rw (fits, room, heavy)
                      (stops start _ (some memory) refl reads (ground arith)
                        (λ x. absurd (ground arith)))
                | inr light ↦ rw (fits, room, light) (go m (ground arith) reads)
              ]
        ]
      ]
    where
      reads : Reads start w'.log (held ++ m ∷ [])
      reads = rw l (Reads-get start w.log held m h)

  fetch_loop-Ends :
      (fuel : ℕ) (start : List Event) (held : List Delivery) (size : ℕ) (w : World b)
      → length held ≤ limit
      → suc limit ≤ length held + fuel
      → Reads start w.log held
      → Ends start (fetch_loop b fuel whole queue limit max_bytes ready held size w)
  unfolding fetch_loop
  fetch_loop-Ends zero start held size w le enough h = absurd (omega arith)
  fetch_loop-Ends (suc fuel) start held size w le enough h =
      received-Ends start held size w _ _ (fetch_loop b fuel whole queue limit max_bytes ready)
        (get_message-log b queue w) (get_message-fuel b queue w) h le
        λ m le' h'.
          fetch_loop-Ends fuel start (held ++ m ∷ []) (size + length m.body) _ le'
            (omega (arith, length-append {0} held (m ∷ []))) h'

  fetch-Ends : (w : World b) → Ends w.log (fetch b whole queue limit max_bytes ready w)
  unfolding fetch
  fetch-Ends w = elim (Bool-cases (whole && ltb limit ready)) [
    | inl deep ↦ rw deep (fails w.log _ unsafe_to_browse refl (λ x. cc) none_read)
    | inr shallow ↦
        rw shallow (fetch_loop-Ends (suc limit) w.log [] 0 w (omega arith) (omega arith) none_read)
  ]
    where
      none_read : Reads w.log w.log []
      none_read = record {
        took = sym (append-nil (taken w.log));
        no_ack = refl;
        no_nack = refl;
        no_publish = refl;
      }

-- `fetch` ends: with fuel for one message more than the limit it does not run out.
pub fetch_terminates :
    (b : Broker) (whole : Bool) (queue : String) (limit : ℕ) (max_bytes : Option ℕ) (ready : ℕ)
    (w : World b)
    → (fetch b whole queue limit max_bytes ready w).outcome ≢ raise out_of_fuel
fetch_terminates b whole queue limit max_bytes ready w =
    (fetch-Ends b whole queue limit max_bytes ready w).ended

-- However `fetch` ends, the caller's list holds what `basic.get` delivered meanwhile, in that order,
-- and nothing was settled or published.
pub fetch-Reads :
    (b : Broker) (whole : Bool) (queue : String) (limit : ℕ) (max_bytes : Option ℕ) (ready : ℕ)
    (w : World b)
    → let f = fetch b whole queue limit max_bytes ready w in Reads w.log f.world.log f.held
fetch-Reads b whole queue limit max_bytes ready w =
    (fetch-Ends b whole queue limit max_bytes ready w).reads

-- A `fetch` that returns has taken at most `limit` messages, and a whole one has met the end of the
-- queue.
pub fetch_limits :
    (b : Broker) (whole : Bool) (queue : String) (limit : ℕ) (max_bytes : Option ℕ) (ready : ℕ)
    (w : World b) (n : ℕ) (s : Option Stop)
    → (fetch b whole queue limit max_bytes ready w).outcome ≡ ok (n, s)
    → (n ≡ ready)
      × (length (fetch b whole queue limit max_bytes ready w).held ≤ limit)
      × (whole ≡ true → s ≡ none)
fetch_limits b whole queue limit max_bytes ready w n s e =
    let ends = fetch-Ends b whole queue limit max_bytes ready w in
    let (count, le) = ends.within n s e in (count, le, ends.complete n s e)

-- A whole scan of a queue deeper than its limit is refused before the first `basic.get`.
pub fetch_too_deep :
    (b : Broker) (queue : String) (limit : ℕ) (max_bytes : Option ℕ) (ready : ℕ) (w : World b)
    → limit < ready
    → let f = fetch b true queue limit max_bytes ready w in
      (f.outcome ≡ raise unsafe_to_browse) × (f.held ≡ []) × (f.world.log ≡ w.log)
unfolding fetch
fetch_too_deep b queue limit max_bytes ready w deep =
    let over : ltb limit ready ≡ true = ground arith in rw over (refl, refl, refl)
