-- ===== src/Queues/Order.antt =====
-- The order of the queue list (app/application/queue_service.py).
use mathlib.Core.List.{Perm}
use mathlib.Core.List.Perm
use queuelens.Prelude.{
  ℕ, ◌≤◌, ◌≡◌, refl, sym, ap, subst, inl, inr, String, Bool, false, Option, List, [], ◌∷◌, ltb,
  if◌then◌else◌, filter, All, All-mono, arith, Bool-cases,
}
use queuelens.Failure.{Result, ok, raise, Result-cases, returned, raised}
use queuelens.Broker.Keeps.{ok-injective}
use queuelens.Queues.{RawQueue, Management, version, delivery_limit}
use queuelens.Queues.Listing.{
  QueueInfo, place, riskiest_first, dead_letter_targets, to_queue_info, describe, listed,
  list_queues,
}

-- No queue stands before one with more messages.
pub Descending : List QueueInfo → Type 0
Descending [] = Unit
Descending (q ∷ rest) = All (λ r. r.messages ≤ q.messages) rest × Descending rest

place-All :
    (n : ℕ) (q : QueueInfo) (rest : List QueueInfo)
    → q.messages ≤ n
    → All (λ r. r.messages ≤ n) rest
    → All (λ r. r.messages ≤ n) (place q rest)
unfolding place
place-All n q [] small h = (small, tt)
place-All n q (r ∷ rest) small h = elim (Bool-cases (ltb q.messages r.messages)) [
  | inl less ↦ rw less (h.0, place-All n q rest small h.1)
  | inr more ↦ rw more (small, h)
]

place-Descending :
    (q : QueueInfo) (rest : List QueueInfo) → Descending rest → Descending (place q rest)
unfolding Descending place
place-Descending q [] h = (tt, tt)
place-Descending q (r ∷ rest) h = elim (Bool-cases (ltb q.messages r.messages)) [
  | inl less ↦ rw less (place-All r.messages q rest (ground arith) h.0, place-Descending q rest h.1)
  | inr more ↦
      let below : r.messages ≤ q.messages = ground arith in
      rw more (
        (
          below,
          All-mono (λ t. t.messages ≤ r.messages) (λ t. t.messages ≤ q.messages) rest
              (λ t le. omega arith) h.0,
        ),
        h,
      )
]

riskiest_first-Descending : (queues : List QueueInfo) → Descending (riskiest_first queues)
unfolding riskiest_first Descending
riskiest_first-Descending [] = tt
riskiest_first-Descending (q ∷ rest) =
    place-Descending q (riskiest_first rest) (riskiest_first-Descending rest)

place-Perm : (q : QueueInfo) (rest : List QueueInfo) → Perm (place q rest) (q ∷ rest)
unfolding place
place-Perm q [] = Perm.refl (q ∷ [])
place-Perm q (r ∷ rest) = elim (Bool-cases (ltb q.messages r.messages)) [
  | inl less ↦ rw less (Perm.trans (Perm.cons r (place-Perm q rest)) (Perm.swap q r rest))
  | inr more ↦ rw more (Perm.refl (q ∷ r ∷ rest))
]

riskiest_first-Perm : (queues : List QueueInfo) → Perm (riskiest_first queues) queues
unfolding riskiest_first
riskiest_first-Perm [] = Perm.refl []
riskiest_first-Perm (q ∷ rest) =
    Perm.trans (place-Perm q (riskiest_first rest)) (Perm.cons q (riskiest_first-Perm rest))

-- A queue for each entry of the API's list, in its order: it has the entry's name, and it is what
-- `to_queue_info` answers for that entry alone.
pub data Describes (lower : String → String) (targets : List String) (known : Option String)
    : List RawQueue → List QueueInfo → Type 0 where
  no_queue : Describes lower targets known [] []
  next_queue :
      (raw : RawQueue) (q : QueueInfo) (raws : List RawQueue) (queues : List QueueInfo)
      → q.name ≡ raw.name
      → to_queue_info lower raw targets known ≡ ok q
      → Describes lower targets known raws queues
      → Describes lower targets known (raw ∷ raws) (q ∷ queues)

module _ (lower : String → String) (targets : List String) (known : Option String) where
  to_queue_info-name :
      (raw : RawQueue) (q : QueueInfo)
      → to_queue_info lower raw targets known ≡ ok q
      → q.name ≡ raw.name
  unfolding to_queue_info
  to_queue_info-name raw q e = elim (Result-cases (delivery_limit raw known)) [
    | raised f bad ↦ cc (rw bad at e)
    | returned limit told ↦ sym (ap (λ i. i.name) (ok-injective (rw told at e)))
  ]

  describe-Describes :
      (raws : List RawQueue) (queues : List QueueInfo)
      → describe lower targets known raws ≡ ok queues
      → Describes lower targets known raws queues
  unfolding describe
  describe-Describes [] queues e =
      subst (Describes lower targets known []) (ok-injective e) no_queue
  describe-Describes (raw ∷ rest) queues e =
      elim (Result-cases (to_queue_info lower raw targets known)) [
        | raised f bad ↦ cc (rw bad at e)
        | returned q made ↦ elim (Result-cases (describe lower targets known rest)) [
          | raised f bad ↦ cc (rw (made, bad) at e)
          | returned qs others ↦
              subst (Describes lower targets known (raw ∷ rest))
                (ok-injective (rw (made, others) at e))
                (next_queue raw q rest qs (to_queue_info-name raw q made) made
                  (describe-Describes rest qs others))
        ]
      ]

-- A list that `list_queues` answers, against the API's list.
pub record Listed (lower : String → String) (api : Management) (reply : Result (List RawQueue))
    (dlq_only : Bool) (kept : Option String) (out : List QueueInfo) : Type 0 where
  pub raw_queues : List RawQueue
  pub known : Option String
  pub queues : List QueueInfo
  pub replied : reply ≡ ok raw_queues
  pub version_known : (version api false kept).0 ≡ ok known
  pub described : Describes lower (dead_letter_targets raw_queues) known raw_queues queues
  pub ordered : Descending out
  pub complete : Perm out (if dlq_only then filter (λ q. q.is_dlq) queues else queues)

-- The list that `list_queues` answers holds one description for each queue that the API reports, with
-- its name and as `to_queue_info` answers for it alone, or those of them that are dead-letter queues
-- when only these are asked for, each once; no queue stands before one with more messages.
pub list_queues-Listed :
    (lower : String → String) (api : Management) (reply : Result (List RawQueue)) (dlq_only : Bool)
    (kept after : Option String) (out : List QueueInfo)
    → list_queues lower api reply dlq_only kept ≡ (ok out, after)
    → Listed lower api reply dlq_only kept out
unfolding list_queues
list_queues-Listed lower api (raise f) dlq_only kept after out e = cc e
list_queues-Listed lower api (ok raws) dlq_only kept after out e =
    elim (Result-cases (version api false kept).0) [
      | raised f bad ↦ cc (rw bad at e)
      | returned known told ↦
          elim (Result-cases (describe lower (dead_letter_targets raws) known raws)) [
            | raised f bad ↦ cc (rw (told, bad) at e)
            | returned queues made ↦
                let same : listed lower dlq_only queues ≡ out =
                  ok-injective (ap (λ p. p.0) (rw (told, made) at e)) in
                record {
                  raw_queues = raws;
                  known = known;
                  queues = queues;
                  replied = refl;
                  version_known = told;
                  described =
                      describe-Describes lower (dead_letter_targets raws) known raws queues made;
                  ordered = subst Descending same (
                      riskiest_first-Descending
                        (if dlq_only then filter (λ q. q.is_dlq) queues else queues));
                  complete =
                      subst
                        (λ l. Perm l (if dlq_only then filter (λ q. q.is_dlq) queues else queues))
                        same
                        (riskiest_first-Perm
                          (if dlq_only then filter (λ q. q.is_dlq) queues else queues));
                }
          ]
    ]
