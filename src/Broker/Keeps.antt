-- ===== src/Broker/Keeps.antt =====
-- Properties of a world that an action keeps, however it ends.
use queuelens.Prelude.{◌≡◌, ◌≢◌, refl, ap, ◌∙◌, arith}
use queuelens.Failure.{Failure, Result, ok, raise, Result-cases, returned, raised}
use queuelens.Broker.{Broker, World}
use queuelens.Broker.Exec.{
  Exec, after, ◌>>=◌, finally_then, finally_do, on_error, with_channel, open_channel, close_channel,
}

-- What is left of a bind once its first part has ended.
pub after-ok :
    {b : Broker} {A B : Type 0} (f : A → Exec b B) (r : Result A × World b) (a : A)
    → r.0 ≡ ok a
    → after b f r ≡ f a r.1
after-ok f (ok x, w) a e = ground arith
after-ok f (raise x, w) a e = cc

pub after-raise :
    {b : Broker} {A B : Type 0} (f : A → Exec b B) (r : Result A × World b) (x : Failure)
    → r.0 ≡ raise x
    → after b f r ≡ (raise x, r.1)
after-raise f (ok a, w) x e = cc
after-raise f (raise y, w) x e = ground arith

finally_then-ok :
    {b : Broker} {A : Type 0} (r : Result A) (c : Result (Unit {0}) × World b) (a : A)
    → (finally_then b r c).0 ≡ ok a
    → (r ≡ ok a) × (c.0 ≡ ok tt) × ((finally_then b r c).1 ≡ c.1)
finally_then-ok r (ok u, w) a e = (e, refl, refl)
finally_then-ok r (raise x, w) a e = absurd (cc)

-- A bind that returns: its first part returned, and the rest went on from there.
pub after-inverts :
    {b : Broker} {A B : Type 0} (f : A → Exec b B) (r : Result A × World b) (x : B)
    → (after b f r).0 ≡ ok x
    → (a : A) × (r.0 ≡ ok a) × ((f a r.1).0 ≡ ok x) × (after b f r ≡ f a r.1)
after-inverts f (ok a, w) x e = (a, refl, e, refl)
after-inverts f (raise y, w) x e = absurd (cc)

-- An `ok` behind a `finally` was one before it, and the cleanup returned.
pub finally_do-ok :
    {b : Broker} {A : Type 0} (cleanup : Exec b (Unit {0})) (r : Result A × World b) (a : A)
    → (finally_do b cleanup r).0 ≡ ok a
    → (r.0 ≡ ok a) × ((cleanup r.1).0 ≡ ok tt) × ((finally_do b cleanup r).1 ≡ (cleanup r.1).1)
finally_do-ok cleanup (r, w) a e = finally_then-ok r (cleanup w) a e

pub ok-injective : {A : Type 0} {a c : A} → ok a ≡ ok c → a ≡ c
ok-injective e = ground arith

pub raise-ne-ok : {A : Type 0} (x : Failure) (a : A) → raise x ≢ ok a
raise-ne-ok x a e = cc

finally_then-raise :
    {b : Broker} {A : Type 0} (e : Failure) (c : Result (Unit {0}) × World b) (a : A)
    → (finally_then b (raise e) c).0 ≢ ok a
finally_then-raise e (ok u, w) a x = cc
finally_then-raise e (raise f, w) a x = cc

-- An `ok` behind an `except … raise` was one before it.
pub on_error-ok :
    {b : Broker} {A : Type 0} (cleanup : Exec b (Unit {0})) (r : Result A × World b) (a : A)
    → (on_error b cleanup r).0 ≡ ok a
    → r.0 ≡ ok a
on_error-ok cleanup (ok x, w) a e = e
on_error-ok cleanup (raise y, w) a e = absurd (finally_then-raise y (cleanup w) a e)

-- A `with_channel` that returns has run its body between the opening and the closing.
pub with_channel-ok :
    {b : Broker} {A : Type 0} (body : Exec b A) (w : World b) (a : A)
    → (with_channel b body w).0 ≡ ok a
    → ((body (open_channel b w).1).0 ≡ ok a)
      × ((with_channel b body w).1 ≡ (close_channel b (body (open_channel b w).1).1).1)
unfolding with_channel
with_channel-ok {b} {A} body w a e = elim (Result-cases (open_channel b w).0) [
  | raised x f ↦ absurd (cc (rw (after-raise inner (open_channel b w) x f) at e))
  | returned u f ↦
      let step = after-ok inner (open_channel b w) u f in
      let (found, back, same) =
        finally_do-ok (close_channel b) (body (open_channel b w).1) a (rw step at e) in
      (found, ap (λ r. r.1) step ∙ same)
]
  where
    inner : Unit {0} → Exec b A
    inner u w' = finally_do b (close_channel b) (body w')

module _ {b : Broker} (P : World b → Type 0) where
  pub record Keeps {A : Type 0} (m : Exec b A) : Type 0 where
    pub at : (w : World b) → P w → P (m w).1

  pub after-leads :
      {A B : Type 0} (f : A → Exec b B) (r : Result A × World b)
      → P r.1
      → ((a : A) → P (f a r.1).1)
      → P (after b f r).1
  after-leads f (ok a, w) h k = k a
  after-leads f (raise e, w) h k = h

  pub after-keeps :
      {A B : Type 0} (f : A → Exec b B) (r : Result A × World b)
      → P r.1
      → ((a : A) → Keeps (f a))
      → P (after b f r).1
  after-keeps f (ok a, w) h k = (k a).at w h
  after-keeps f (raise e, w) h k = h

  pub Keeps-bind :
      {A B : Type 0} (m : Exec b A) (f : A → Exec b B)
      → Keeps m
      → ((a : A) → Keeps (f a))
      → Keeps (◌>>=◌ b m f)
  Keeps-bind m f km kf = record { at = λ w h. after-keeps f (m w) (km.at w h) kf }

  finally_then-keeps :
      {A : Type 0} (r : Result A) (c : Result (Unit {0}) × World b)
      → P c.1
      → P (finally_then b r c).1
  finally_then-keeps r (ok u, w) h = h
  finally_then-keeps r (raise e, w) h = h

  pub finally_do-keeps :
      {A : Type 0} (cleanup : Exec b (Unit {0})) (r : Result A × World b)
      → Keeps cleanup
      → P r.1
      → P (finally_do b cleanup r).1
  finally_do-keeps cleanup (r, w) k h = finally_then-keeps r (cleanup w) (k.at w h)

  pub on_error-keeps :
      {A : Type 0} (cleanup : Exec b (Unit {0})) (r : Result A × World b)
      → Keeps cleanup
      → P r.1
      → P (on_error b cleanup r).1
  on_error-keeps cleanup (ok a, w) k h = h
  on_error-keeps cleanup (raise e, w) k h = finally_then-keeps (raise e) (cleanup w) (k.at w h)

  pub Keeps-with_channel :
      {A : Type 0} (body : Exec b A)
      → Keeps (open_channel b)
      → Keeps (close_channel b)
      → Keeps body
      → Keeps (with_channel b body)
  unfolding with_channel
  Keeps-with_channel body ko kc kb = record {
    at = λ w h.
        after-keeps _ (open_channel b w) (ko.at w h)
          λ u. record { at = λ w' h'. finally_do-keeps _ (body w') kc (kb.at w' h') };
  }
