-- ===== src/Browser/Settling.antt =====
-- `requeue` gives back what it is handed.
use queuelens.Prelude.{
  ◌≡◌, ◌⊎◌, inl, inr, sym, subst, true, false, not, ◌&&◌, Option, List, [], ◌∷◌, arith, All,
  Bool-cases,
}
use queuelens.Failure.{Failure, ok, raise, Result-cases, returned, raised}
use queuelens.Broker.{Broker, World, Delivery, Answer, answer, fault}
use queuelens.Broker.Exec.{nack, processed, to_result}
use queuelens.Broker.Laws.{Laws}
use queuelens.Broker.Keeps.{Keeps, Keeps-bind, after-ok, after-raise}
use queuelens.Browser.{requeue, is_kept}

module _ {b : Broker} (P : World b → Type 0)
    (nacks_keep : (d : Delivery) → Keeps P (nack b d)) where
  pub requeue-Keeps : (ms : List Delivery) (keep : Option Delivery) → Keeps P (requeue b ms keep)
  unfolding requeue
  requeue-Keeps [] keep = record { at = λ w h. h }
  requeue-Keeps (m ∷ rest) keep = record {
    at = λ w h. elim (Bool-cases (not (is_kept keep m) && not (processed b m w))) [
      | inl due ↦ rw due (
          (Keeps-bind P (nack b m) (λ u. requeue b rest keep) (nacks_keep m)
              (λ u. requeue-Keeps rest keep)).at
            w h)
      | inr over ↦ rw over ((requeue-Keeps rest keep).at w h)
    ];
  }

abbrev pub Settled : (b : Broker) → Option Delivery → World b → Delivery → Type 0
Settled b keep w m = (is_kept keep m ≡ true) ⊎ (processed b m w ≡ true)

pub to_result-ok : {A : Type 0} (a : Answer A) (x : A) → to_result a ≡ ok x → a ≡ answer x
to_result-ok (answer y) x e = ground arith
to_result-ok (fault f) x e = cc

module _ (b : Broker) (laws : Laws b) where
  pub nack-Keeps : (m d : Delivery) → Keeps (λ w. processed b m w ≡ true) (nack b d)
  unfolding nack
  nack-Keeps m d = record { at = λ w h. laws.nack_keeps m d w.state h }

  nack-settles :
      (d : Delivery) (w : World b) → (nack b d w).0 ≡ ok tt → processed b d (nack b d w).1 ≡ true
  unfolding nack
  nack-settles d w e = laws.nack_settles d w.state (to_result-ok _ tt e)

  pub requeue-Keeps_all :
      (m : Delivery) (ms : List Delivery) (keep : Option Delivery)
      → Keeps (λ w. processed b m w ≡ true) (requeue b ms keep)
  requeue-Keeps_all m = requeue-Keeps _ (nack-Keeps m)

  pub requeue-nacks :
      (m : Delivery) (rest : List Delivery) (keep : Option Delivery) (w : World b)
      → (not (is_kept keep m) && not (processed b m w)) ≡ true
      → (nack b m w).0 ≡ ok tt
      → requeue b (m ∷ rest) keep w ≡ requeue b rest keep (nack b m w).1
  unfolding requeue
  requeue-nacks m rest keep w due f = rw due (after-ok (λ u. requeue b rest keep) (nack b m w) tt f)

  pub requeue-refused :
      (m : Delivery) (rest : List Delivery) (keep : Option Delivery) (w : World b) (x : Failure)
      → (not (is_kept keep m) && not (processed b m w)) ≡ true
      → (nack b m w).0 ≡ raise x
      → (requeue b (m ∷ rest) keep w).0 ≡ raise x
  unfolding requeue
  requeue-refused m rest keep w x due f =
      rw (due, after-raise (λ u. requeue b rest keep) (nack b m w) x f)

  pub requeue-skips :
      (m : Delivery) (rest : List Delivery) (keep : Option Delivery) (w : World b)
      → (not (is_kept keep m) && not (processed b m w)) ≡ false
      → requeue b (m ∷ rest) keep w ≡ requeue b rest keep w
  unfolding requeue
  requeue-skips m rest keep w over = rw over

  skipped :
      (m : Delivery) (rest : List Delivery) (keep : Option Delivery) (w : World b)
      → (not (is_kept keep m) && not (processed b m w)) ≡ false
      → Settled b keep (requeue b rest keep w).1 m
  skipped m rest keep w over = elim (Bool-cases (processed b m w)) [
    | inl done ↦ inr ((requeue-Keeps_all m rest keep).at w done)
    | inr open_still ↦ inl (ground arith)
  ]

  -- After a `requeue` that returns, every message but the kept one is settled.
  pub requeue-settles :
      (ms : List Delivery) (keep : Option Delivery) (w : World b)
      → (requeue b ms keep w).0 ≡ ok tt
      → All (Settled b keep (requeue b ms keep w).1) ms
  requeue-settles [] keep w e = tt
  requeue-settles (m ∷ rest) keep w e =
      elim (Bool-cases (not (is_kept keep m) && not (processed b m w))) [
        | inl due ↦ elim (Result-cases (nack b m w).0) [
          | raised x f ↦ cc (requeue-refused m rest keep w x due f)
          | returned u f ↦
              let step = requeue-nacks m rest keep w due f in
              subst (λ r. All (Settled b keep r.1) (m ∷ rest)) (sym step)
                (
                  inr ((requeue-Keeps_all m rest keep).at _ (nack-settles m w f)),
                  requeue-settles rest keep (nack b m w).1 (rw step at e),
                )
        ]
        | inr over ↦
            let step = requeue-skips m rest keep w over in
            subst (λ r. All (Settled b keep r.1) (m ∷ rest)) (sym step)
              (skipped m rest keep w over, requeue-settles rest keep w (rw step at e))
      ]
