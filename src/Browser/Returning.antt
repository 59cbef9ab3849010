-- ===== src/Browser/Returning.antt =====
-- A scan gives back each message that it took (app/infrastructure/rabbitmq/message_browser.py).
use queuelens.Prelude.{
  ℕ, zero, suc, ◌+◌, ◌≡◌, refl, sym, ap, ◌∙◌, subst, ◌⊎◌, inl, inr, String, Bool, false, not, ◌&&◌,
  Option, none, some, List, [], ◌∷◌, ◌++◌, map, append_assoc, append-nil, length, ltb, ◌==◌, nat_eq,
  All, All-append, All-mono, Member, Bool-cases,
}
use queuelens.Failure.{Result, ok, raise, Result-cases, returned, raised}
use queuelens.Broker.{Broker, World, Delivery}
use queuelens.Broker.Exec.{get_message, nack, processed}
use queuelens.Broker.Log.{nacked}
use queuelens.Broker.Laws.{Laws, Fresh}
use queuelens.Browser.{Fetched, received, fetch_loop, fetch, over_budget, requeue}
use queuelens.Browser.Settling.{to_result-ok, requeue-nacks, requeue-refused, requeue-skips}

-- None of the messages is settled.
abbrev pub Open : (b : Broker) → World b → List Delivery → Type 0
Open b w held = All (λ m. processed b m w ≡ false) held

module _ (b : Broker) (fresh : Fresh b) (whole : Bool) (queue : String) (limit : ℕ)
    (max_bytes : Option ℕ) (ready : ℕ) where
  get_message-Open :
      (held : List Delivery) (w : World b) → Open b w held → Open b (get_message b queue w).1 held
  unfolding get_message
  get_message-Open held w =
      All-mono (λ m. processed b m w ≡ false) (λ m. processed b m (get_message b queue w).1 ≡ false)
        held (λ m. fresh.get_settles_none m queue w.state)

  get_message-found :
      (m : Delivery) (w : World b)
      → (get_message b queue w).0 ≡ ok (some m)
      → processed b m (get_message b queue w).1 ≡ false
  unfolding get_message
  get_message-found m w e = fresh.get_open m queue w.state (to_result-ok _ (some m) e)

  received-Open :
      (held : List Delivery) (size : ℕ) (r : Result (Option Delivery)) (w : World b)
      (again : List Delivery → ℕ → World b → Fetched b)
      → Open b w held
      → ((m : Delivery) → r ≡ ok (some m) → processed b m w ≡ false)
      → ((m : Delivery)
          → Open b w (held ++ m ∷ [])
          → Open b
              (again (held ++ m ∷ []) (size + length m.body) w).world
              (again (held ++ m ∷ []) (size + length m.body) w).held)
      → Open b
          (received b whole limit max_bytes ready again held size (r, w)).world
          (received b whole limit max_bytes ready again held size (r, w)).held
  unfolding received
  received-Open held size (raise e) w again h found go = h
  received-Open held size (ok none) w again h found go = h
  received-Open held size (ok (some m)) w again h found go =
      let more : Open b w (held ++ m ∷ []) =
        All-append (λ d. processed b d w ≡ false) held (m ∷ []) h (found m refl, tt) in
      elim (Bool-cases (ltb limit (length (held ++ m ∷ [])))) [
        | inl over ↦ rw over more
        | inr fits ↦ elim (Bool-cases (not whole && (length (held ++ m ∷ []) == limit))) [
          | inl full ↦ rw (fits, full) more
          | inr room ↦
              elim (Bool-cases (not whole && over_budget max_bytes (size + length m.body))) [
                | inl heavy ↦ rw (fits, room, heavy) more
                | inr light ↦ rw (fits, room, light) (go m more)
              ]
        ]
      ]

  fetch_loop-Open :
      (fuel : ℕ) (held : List Delivery) (size : ℕ) (w : World b)
      → Open b w held
      → Open b
          (fetch_loop b fuel whole queue limit max_bytes ready held size w).world
          (fetch_loop b fuel whole queue limit max_bytes ready held size w).held
  unfolding fetch_loop
  fetch_loop-Open zero held size w h = h
  fetch_loop-Open (suc fuel) held size w h =
      received-Open held size (get_message b queue w).0 (get_message b queue w).1
        (fetch_loop b fuel whole queue limit max_bytes ready) (get_message-Open held w h)
        (λ m. get_message-found m w)
        (λ m.
          fetch_loop-Open fuel (held ++ m ∷ []) (size + length m.body) (get_message b queue w).1)

  -- What a fetch hands over is not settled.
  pub fetch-Open :
      (w : World b)
      → Open b
          (fetch b whole queue limit max_bytes ready w).world
          (fetch b whole queue limit max_bytes ready w).held
  unfolding fetch
  fetch-Open w = elim (Bool-cases (whole && ltb limit ready)) [
    | inl deep ↦ rw deep tt
    | inr fits ↦ rw fits (fetch_loop-Open (suc limit) [] 0 w tt)
  ]

abbrev pub tags : List Delivery → List ℕ
tags ds = map (λ d. d.tag) ds

-- The messages that were given back since: of those named, and each of them by its tag.
pub record GivenBack (before after held : List Delivery) : Type 0 where
  pub back : List Delivery
  pub since : after ≡ before ++ back
  pub each : All (λ m. Member m.tag (tags back)) held
  pub only : All (λ m. Member m held) back

module _ (b : Broker) (laws : Laws b) (fresh : Fresh b) where
  nack-log : (d : Delivery) (w : World b) → nacked (nack b d w).1.log ≡ nacked w.log ++ d ∷ []
  unfolding nack
  nack-log d w = refl

  -- A message that is due: open still, or one with its tag was given back.
  abbrev Due : List Delivery → World b → Delivery → Type 0
  Due back w m = (processed b m w ≡ false) ⊎ Member m.tag (tags back)

  nack-Due :
      (d m : Delivery) (back : List Delivery) (w : World b)
      → Due back w m
      → Due (d ∷ back) (nack b d w).1 m
  unfolding nack
  nack-Due d m back w (inr member) = inr (inr member)
  nack-Due d m back w (inl still) = elim (Bool-cases (m.tag == d.tag)) [
    | inl same ↦ inr (inl ((nat_eq.agrees m.tag d.tag).0 same))
    | inr other ↦ inl (fresh.nack_settles_one m d w.state other still)
  ]

  -- Where a message's tag was seen: before, or among those given back.
  abbrev Seen : List Delivery → List Delivery → Delivery → Type 0
  Seen before back m = Member m.tag (tags before) ⊎ Member m.tag (tags back)

  abbrev Returns : List Delivery → List Delivery → World b → World b → Type 0
  Returns seen ms w after =
      (back : List Delivery) × (nacked after.log ≡ nacked w.log ++ back)
      × All (Seen seen back) ms
      × All (λ m. Member m ms) back

  moved :
      (seen back : List Delivery) (d m : Delivery) → Seen (d ∷ seen) back m → Seen seen (d ∷ back) m
  moved seen back d m (inl (inl same)) = inr (inl same)
  moved seen back d m (inl (inr member)) = inl member
  moved seen back d m (inr member) = inr (inr member)

  over_is_seen :
      (seen : List Delivery) (w : World b) (m : Delivery)
      → (not (processed b m w)) ≡ false
      → Due seen w m
      → Member m.tag (tags seen)
  over_is_seen seen w m over (inl still) = cc (rw still at over)
  over_is_seen seen w m over (inr member) = member

  requeue-Returns :
      (ms seen : List Delivery) (w : World b)
      → All (Due seen w) ms
      → (requeue b ms none w).0 ≡ ok tt
      → Returns seen ms w (requeue b ms none w).1
  unfolding requeue
  requeue-Returns [] seen w due e = ([], sym (append-nil (nacked w.log)), tt, tt)
  requeue-Returns (m ∷ rest) seen w due e = elim (Bool-cases (not (processed b m w))) [
    | inr over ↦
        let step = requeue-skips b laws m rest none w over in
        let (back, since, each, only) = requeue-Returns rest seen w due.1 (rw step at e) in
        subst (λ r. Returns seen (m ∷ rest) w r.1) (sym step)
          (
            back,
            since,
            (inl (over_is_seen seen w m over due.0), each),
            All-mono (λ d. Member d rest) (λ d. Member d (m ∷ rest)) back (λ d. inr) only,
          )
    | inl open_still ↦ elim (Result-cases (nack b m w).0) [
      | raised x f ↦ cc (requeue-refused b laws m rest none w x open_still f)
      | returned u f ↦
          let step = requeue-nacks b laws m rest none w open_still f in
          let next = (nack b m w).1 in
          let (back, since, each, only) =
            requeue-Returns rest (m ∷ seen) next
              (All-mono (Due seen w) (Due (m ∷ seen) next) rest (λ j. nack-Due m j seen w) due.1)
              (rw step at e) in
          subst (λ r. Returns seen (m ∷ rest) w r.1) (sym step)
            (
              m ∷ back,
              since
                  ∙ ap (λ l. l ++ back) (nack-log m w)
                  ∙ append_assoc (nacked w.log) (m ∷ []) back,
              (
                inr (inl refl),
                All-mono (Seen (m ∷ seen) back) (Seen seen (m ∷ back)) rest
                    (λ j. moved seen back m j) each,
              ),
              (
                inl refl,
                All-mono (λ d. Member d rest) (λ d. Member d (m ∷ rest)) back (λ d. inr) only,
              ),
            )
    ]
  ]

  unseen : (back : List Delivery) (m : Delivery) → Seen [] back m → Member m.tag (tags back)
  unseen back m (inl none_of) = elim none_of [ ]
  unseen back m (inr member) = member

  -- A `requeue` of open messages that returns has given back each of them, and no other.
  pub requeue-GivenBack :
      (ms : List Delivery) (w : World b)
      → Open b w ms
      → (requeue b ms none w).0 ≡ ok tt
      → GivenBack (nacked w.log) (nacked (requeue b ms none w).1.log) ms
  requeue-GivenBack ms w still e =
      let (back, since, each, only) =
        requeue-Returns ms [] w
          (All-mono (λ m. processed b m w ≡ false) (Due [] w) ms (λ m. inl) still) e in
      record {
        back = back;
        since = since;
        each = All-mono (Seen [] back) (λ m. Member m.tag (tags back)) ms (unseen back) each;
        only = only;
      }
