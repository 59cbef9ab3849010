-- ===== src/Queues/Lowest.antt =====
-- Which number `delivery_limit` answers (app/application/queue_service.py).
use queuelens.Prelude.{
  ◌≡◌, refl, subst, ◌∙◌, ◌⊎◌, inl, inr, String, true, false, Option, none, some, List, [], ◌∷◌,
  if◌then◌else◌, filter, All, All-mono, Member, arith, Bool-cases,
}
use queuelens.Prelude.Int.{ℤ, pos, ltb_ℤ, ◌≤ℤ◌, min_ℤ, max_ℤ}
use queuelens.Failure.{ok}
use queuelens.Queues.{
  RawQueue, is_quorum, minimum, limit_3, limit_4, non_negative, lowest, default_limit,
  delivery_limit,
}
use queuelens.Queues.Limits.{Limits, delivery_limit-Limits}

minimum-le : (n : ℤ) (rest : List ℤ) → (minimum n rest ≤ℤ n) × All (λ k. minimum n rest ≤ℤ k) rest
minimum-le n [] = (omega arith, tt)
minimum-le n (m ∷ rest) =
    let (least, others) = minimum-le (min_ℤ n m) rest in
    (ground (arith, least), (ground (arith, least), others))

minimum-Member : (n : ℤ) (rest : List ℤ) → (minimum n rest ≡ n) ⊎ Member (minimum n rest) rest
minimum-Member n [] = inl refl
minimum-Member n (m ∷ rest) = elim (minimum-Member (min_ℤ n m) rest) [
  | inr later ↦ inr (inr later)
  | inl it ↦ elim (Bool-cases (ltb_ℤ m n)) [
    | inl less ↦ inr (inl (it ∙ rw less refl))
    | inr more ↦ inl (it ∙ rw more refl)
  ]
]

-- The number a limit answers to: up to 3.x one of the values configured, or 0 in place of a negative
-- one, that none of them (a negative one counted as 0) is below; from 4.0 on the lowest of those that are not negative, or 20 when nothing is configured.
pub Effective : ℤ → ℤ → List ℤ → Type 0
Effective n m values =
    ((ltb_ℤ m (pos 4) ≡ true)
      × All (λ k. n ≤ℤ max_ℤ (pos 0) k) values
      × ((k : ℤ) × (Member k values × (n ≡ max_ℤ (pos 0) k))))
    ⊎ ((ltb_ℤ m (pos 4) ≡ false)
        × All (λ k. n ≤ℤ k) (filter non_negative values)
        × (((values ≡ []) × (n ≡ pos 20)) ⊎ Member n (filter non_negative values)))

max-le : (a k : ℤ) → a ≤ℤ k → max_ℤ (pos 0) a ≤ℤ max_ℤ (pos 0) k
max-le a k h = ground arith

lowest_of :
    (k : ℤ) (rest : List ℤ)
    → (minimum k rest ≡ k) ⊎ Member (minimum k rest) rest
    → Member (minimum k rest) (k ∷ rest)
lowest_of k rest (inl it) = inl it
lowest_of k rest (inr later) = inr later

limit_3-Effective :
    (n m : ℤ) (values : List ℤ)
    → ltb_ℤ m (pos 4) ≡ true
    → limit_3 values ≡ some n
    → Effective n m values
unfolding limit_3 Effective
limit_3-Effective n m [] old e = cc e
limit_3-Effective n m (k ∷ rest) old e =
    subst (λ n. Effective n m (k ∷ rest)) (cc e)
      (inl (
        old,
        All-mono (λ j. minimum k rest ≤ℤ j) (λ j. max_ℤ (pos 0) (minimum k rest) ≤ℤ max_ℤ (pos 0) j)
            (k ∷ rest) (max-le (minimum k rest)) (minimum-le k rest),
        (minimum k rest, (lowest_of k rest (minimum-Member k rest), refl)),
      ))

lowest-Effective :
    (n : ℤ) (values found : List ℤ)
    → lowest found (default_limit values) ≡ some n
    → All (λ k. n ≤ℤ k) found × (((values ≡ []) × (n ≡ pos 20)) ⊎ Member n found)
lowest-Effective n [] [] e = (tt, inl (refl, cc e))
lowest-Effective n (v ∷ values) [] e = cc e
lowest-Effective n values (k ∷ rest) e =
    let it : minimum k rest ≡ n = cc e in
    subst
      (λ n. All (λ k. n ≤ℤ k) (k ∷ rest) × (((values ≡ []) × (n ≡ pos 20)) ⊎ Member n (k ∷ rest)))
      it (minimum-le k rest, inr (minimum-Member k rest))

delivery_limit-other :
    (raw : RawQueue) (v : Option String) → is_quorum raw ≡ false → delivery_limit raw v ≡ ok none
unfolding delivery_limit
delivery_limit-other raw v other = rw other refl

limit-Effective :
    (n m : ℤ) (values : List ℤ)
    → (if ltb_ℤ m (pos 4) then limit_3 values else limit_4 values) ≡ some n
    → Effective n m values
unfolding limit_4 Effective
limit-Effective n m values e = elim (Bool-cases (ltb_ℤ m (pos 4))) [
  | inl old ↦ limit_3-Effective n m values old (rw old at e)
  | inr new ↦
      let (least, member) = lowest-Effective n values (filter non_negative values) (rw new at e) in
      inr (new, least, member)
]

-- The delivery limit that is answered for a queue is a quorum queue's. Under a version up to 3.x it
-- is the least value that the queue's argument and its policy set, at least 0. From 4.0 on it is the
-- least of those values that are not negative, or 20 when neither sets one.
pub delivery_limit-Effective :
    (raw : RawQueue) (v : Option String) (n : ℤ)
    → delivery_limit raw v ≡ ok (some n)
    → (is_quorum raw ≡ true) × Limits raw v (Effective n)
delivery_limit-Effective raw v n e = elim (Bool-cases (is_quorum raw)) [
  | inr other ↦ cc (delivery_limit-other raw v other, e)
  | inl quorum ↦
      let l = delivery_limit-Limits raw v (some n) quorum e in
      (
        quorum,
        record {
          m = l.m;
          values = l.values;
          version_read = l.version_read;
          values_read = l.values_read;
          holds = limit-Effective n l.m l.values l.holds;
        },
      )
]
