-- ===== src/Actions/Provenance.antt =====
-- The marks that replays and parks leave on what they publish (app/application/action_service.py).
use queuelens.Prelude.{
  ◌≡◌, ◌≢◌, refl, sym, ◌∙◌, ap, subst, inl, inr, String, Bool, true, false, ◌==◌, none, some,
  string_eq, Dict, get, put, merge, get-put, distinct, distinct-put, distinct-merge,
  get-merge_present, arith, Bool-cases,
}
use queuelens.Value.{Value, text, int, bool}
use queuelens.Failure.{ok, Result-cases, returned, raised}
use queuelens.Domain.{MessageRecord}
use queuelens.Domain.XDeath.{deaths, deaths_header}
use queuelens.Broker.{Outgoing}
use queuelens.Broker.Keeps.{ok-injective}
use queuelens.Operator.{Action, copy, move, park, delete, unsupported, outgoing}
use queuelens.Actions.{replayed_headers, provenance_headers, annotated}

-- The marks: who did what, from where, and to which message.
abbrev marks : Action → String → String → String → String → Dict String Value
marks action source_queue username now fingerprint =
    put (provenance_headers action source_queue username now) "x-queuelens-original-fingerprint"
      (text fingerprint)

provenance_headers-distinct :
    (action : Action) (source_queue username now : String)
    → distinct (provenance_headers action source_queue username now) ≡ true
provenance_headers-distinct copy source_queue username now = refl
provenance_headers-distinct move source_queue username now = refl
provenance_headers-distinct park source_queue username now = refl
provenance_headers-distinct delete source_queue username now = refl
provenance_headers-distinct unsupported source_queue username now = refl

-- A header of the caller's never takes the place of a mark.
get-annotated :
    (extra : Dict String Value) (action : Action) (source_queue username now fingerprint k : String)
    (v : Value)
    → get (marks action source_queue username now fingerprint) k ≡ some v
    → get (annotated extra action source_queue username now fingerprint) k ≡ some v
unfolding annotated
get-annotated extra action source_queue username now fingerprint k v h =
    let own : String = "x-queuelens-original-fingerprint" in
    let given = provenance_headers action source_queue username now in
    let merged = get-put (merge extra given) own k (text fingerprint) in
    let marked = get-put given own k (text fingerprint) in
    elim (Bool-cases (own == k)) [
      | inl same ↦ (rw same at merged) ∙ sym (rw same at marked) ∙ h
      | inr other ↦
          (rw other at merged)
          ∙ get-merge_present extra given k v
              (provenance_headers-distinct action source_queue username now)
              (sym (rw other at marked) ∙ h)
    ]

-- The marks of a message that is published under an action, one by one: of a park, and of any other.
pub data IsMark (source_queue username now fingerprint : String)
    : Action → String → Value → Type 0 where
  copied_as :
      IsMark source_queue username now fingerprint copy "x-queuelens-action" (text "replay_copy")
  moved_as :
      IsMark source_queue username now fingerprint move "x-queuelens-action" (text "replay_move")
  parked_as : IsMark source_queue username now fingerprint park "x-queuelens-action" (text "park")
  parked_at : IsMark source_queue username now fingerprint park "x-queuelens-parked-at" (text now)
  parked_by :
      IsMark source_queue username now fingerprint park "x-queuelens-parked-by" (text username)
  replayed :
      (action : Action)
      → action ≢ park
      → IsMark source_queue username now fingerprint action "x-queuelens-replayed" (bool true)
  replayed_at :
      (action : Action)
      → action ≢ park
      → IsMark source_queue username now fingerprint action "x-queuelens-replayed-at" (text now)
  replayed_by :
      (action : Action)
      → action ≢ park
      → IsMark source_queue username now fingerprint action "x-queuelens-replayed-by"
          (text username)
  from_queue :
      (action : Action)
      → IsMark source_queue username now fingerprint action "x-queuelens-source-queue"
          (text source_queue)
  asked_for :
      (action : Action)
      → IsMark source_queue username now fingerprint action "x-queuelens-original-fingerprint"
          (text fingerprint)

replayed-marks :
    (action : Action) (source_queue username now : String)
    → action ≢ park
    → provenance_headers action source_queue username now
      ≡ replayed_headers action source_queue username now
replayed-marks copy source_queue username now other = refl
replayed-marks move source_queue username now other = refl
replayed-marks park source_queue username now other = absurd (other refl)
replayed-marks delete source_queue username now other = refl
replayed-marks unsupported source_queue username now other = refl

queue-marks :
    (action : Action) (source_queue username now fingerprint : String)
    → get (marks action source_queue username now fingerprint) "x-queuelens-source-queue"
      ≡ some (text source_queue)
unfolding get put
queue-marks copy source_queue username now fingerprint = refl
queue-marks move source_queue username now fingerprint = refl
queue-marks park source_queue username now fingerprint = refl
queue-marks delete source_queue username now fingerprint = refl
queue-marks unsupported source_queue username now fingerprint = refl

IsMark-marks :
    (source_queue username now fingerprint : String) (action : Action) (k : String) (v : Value)
    → IsMark source_queue username now fingerprint action k v
    → get (marks action source_queue username now fingerprint) k ≡ some v
unfolding get put
IsMark-marks source_queue username now fingerprint _ _ _ copied_as = refl
IsMark-marks source_queue username now fingerprint _ _ _ moved_as = refl
IsMark-marks source_queue username now fingerprint _ _ _ parked_as = refl
IsMark-marks source_queue username now fingerprint _ _ _ parked_at = refl
IsMark-marks source_queue username now fingerprint _ _ _ parked_by = refl
IsMark-marks source_queue username now fingerprint _ _ _ (replayed action other) =
    rw (replayed-marks action source_queue username now other) refl
IsMark-marks source_queue username now fingerprint _ _ _ (replayed_at action other) =
    rw (replayed-marks action source_queue username now other) refl
IsMark-marks source_queue username now fingerprint _ _ _ (replayed_by action other) =
    rw (replayed-marks action source_queue username now other) refl
IsMark-marks source_queue username now fingerprint _ _ _ (from_queue action) =
    queue-marks action source_queue username now fingerprint
IsMark-marks source_queue username now fingerprint _ _ _ (asked_for action) =
    get-put (provenance_headers action source_queue username now) "x-queuelens-original-fingerprint"
      "x-queuelens-original-fingerprint" (text fingerprint)

-- The count of deaths is no mark.
marks-deaths :
    (action : Action) (source_queue username now fingerprint : String)
    → get (marks action source_queue username now fingerprint) deaths_header ≡ none
unfolding get put
marks-deaths copy source_queue username now fingerprint = refl
marks-deaths move source_queue username now fingerprint = refl
marks-deaths park source_queue username now fingerprint = refl
marks-deaths delete source_queue username now fingerprint = refl
marks-deaths unsupported source_queue username now fingerprint = refl

annotated-distinct :
    (extra : Dict String Value) (action : Action) (source_queue username now fingerprint : String)
    → distinct extra ≡ true
    → distinct (annotated extra action source_queue username now fingerprint) ≡ true
unfolding annotated
annotated-distinct extra action source_queue username now fingerprint fresh =
    distinct-put (merge extra (provenance_headers action source_queue username now))
      "x-queuelens-original-fingerprint" (text fingerprint)
      (distinct-merge extra (provenance_headers action source_queue username now) fresh)

differs : {k j : String} → k ≢ j → (k == j) ≡ false
differs {k} {j} ne = ground (arith, string_eq.agrees k j)

outgoing-headers :
    (r : MessageRecord) (headers : Dict String Value) (stamp_deaths : Bool) (o : Outgoing)
    (k : String)
    → outgoing r headers stamp_deaths ≡ ok o
    → k ≢ deaths_header
    → get o.headers k ≡ get (merge r.headers headers) k
unfolding outgoing
outgoing-headers r headers false o k e other =
    ap (λ (h : Dict String Value). get h k) (ground arith)
outgoing-headers r headers true o k e other = elim (Result-cases (deaths r.x_death r.headers)) [
  | raised x f ↦ cc (rw f at e)
  | returned n f ↦
      let stamped : put (merge r.headers headers) deaths_header (int n) ≡ o.headers =
        ap (λ x. x.headers) (ok-injective (rw f at e)) in
      ap (λ (h : Dict String Value). get h k) (sym stamped)
      ∙ (get-put (merge r.headers headers) deaths_header k (int n)
          ∙ rw (differs (λ same. other (sym same))) refl)
]

-- A message that is published with the headers of a park, or of a replay that annotates (the default),
-- carries each of the marks listed, with its value: the action, when and by whom, from which queue, and
-- the fingerprint that was asked for, and for a replay that it was replayed. That holds whatever headers
-- the message had and the caller gave (each a dict).
pub outgoing-Marked :
    (r : MessageRecord) (extra : Dict String Value) (action : Action)
    (source_queue username now fingerprint k : String) (v : Value) (stamp_deaths : Bool)
    (o : Outgoing)
    → distinct extra ≡ true
    → outgoing r (annotated extra action source_queue username now fingerprint) stamp_deaths ≡ ok o
    → IsMark source_queue username now fingerprint action k v
    → get o.headers k ≡ some v
outgoing-Marked r extra action source_queue username now fingerprint k v stamp_deaths o fresh e
      mark =
    let h = IsMark-marks source_queue username now fingerprint action k v mark in
    let mark_differs : k ≢ deaths_header = λ same. cc (
      marks-deaths action source_queue username now fingerprint,
      subst (λ j. get (marks action source_queue username now fingerprint) j ≡ some v) same h,
    ) in
    outgoing-headers r (annotated extra action source_queue username now fingerprint) stamp_deaths o
      k e mark_differs
    ∙ get-merge_present r.headers (annotated extra action source_queue username now fingerprint) k v
        (annotated-distinct extra action source_queue username now fingerprint fresh)
        (get-annotated extra action source_queue username now fingerprint k v h)
