-- ===== src/Accounts/Cache.antt =====
-- The cache of verified passwords changes no answer (app/infrastructure/persistence/store.py).
use queuelens.Prelude.{
  ℕ, ◌≡◌, refl, sym, ap, ◌∙◌, subst, inl, inr, String, Bool, true, false, ◌&&◌, Option, none, some,
  [], ◌==◌, string_eq, pair_eq, pair_beq_iff, ◌+◌, get, put, get-put, arith, Bool-cases,
  Option-cases,
}
use queuelens.Accounts.{
  Hashes, User, Users, Verified, verify_password, remembers, checked_for, verify,
  verified_for_seconds,
}

-- The answer without a cache.
abbrev pub answer : Hashes → String → Option User → Bool
answer h password none = false
answer h password (some row) = row.active && verify_password h password row.password_hash

-- The caches of a process: any checks, against whatever the accounts were at the time.
pub data Reachable (h : Hashes) : Verified → Type 0 where
  started : Reachable h []
  checked :
      (users : Users) (now : ℕ) (username password : String) (cache : Verified)
      → Reachable h cache
      → Reachable h (verify h users now username password cache).1

-- What an entry says: some password with its keyed hash was checked against its stored hash.
abbrev Proven : Hashes → String × String → String × ℕ → Type 0
Proven h key entry =
    (password : String) × (h.mac password ≡ key.1) × (verify_password h password entry.0 ≡ true)

abbrev Sound : Hashes → Verified → Type 0
Sound h cache =
    (key : String × String) (entry : String × ℕ) → get cache key ≡ some entry → Proven h key entry

put-Sound :
    (h : Hashes) (cache : Verified) (username password stored : String) (until : ℕ)
    → verify_password h password stored ≡ true
    → Sound h cache
    → Sound h (put cache (username, h.mac password) (stored, until))
put-Sound h cache username password stored until good sound key entry e =
    let key_eq = pair_beq_iff (username, h.mac password) key in
    elim (Bool-cases ((username, h.mac password) == key)) [
      | inr other ↦
          sound key entry
            (sym (get-put cache (username, h.mac password) key (stored, until) ∙ rw other refl) ∙ e)
      | inl same ↦
          let found : some (stored, until) ≡ some entry =
            sym (get-put cache (username, h.mac password) key (stored, until) ∙ rw same refl) ∙ e in
          let equal : (stored, until) ≡ entry = cc found in
          (
            password,
            ap (λ k. k.1) (key_eq.0 same),
            subst {A = String × ℕ} (λ x. verify_password h password x.0 ≡ true) equal good,
          )
    ]

checked_for-Sound :
    (h : Hashes) (now : ℕ) (username password : String) (cache : Verified) (row : User)
    → Sound h cache
    → Sound h (checked_for h now username password cache row).1
checked_for-Sound h now username password cache row sound =
    elim (Bool-cases (remembers (get cache (username, h.mac password)) row.password_hash now)) [
      | inl hit ↦ rw hit sound
      | inr miss ↦ elim (Bool-cases (verify_password h password row.password_hash)) [
        | inr bad ↦ rw (miss, bad) sound
        | inl good ↦
            rw (miss, good)
              (put-Sound h cache username password row.password_hash (now + verified_for_seconds)
                good sound)
      ]
    ]

Reachable-Sound : (h : Hashes) (cache : Verified) → Reachable h cache → Sound h cache
unfolding get verify
Reachable-Sound h _ started = λ key entry e. cc e
Reachable-Sound h _ (checked users now username password cache r) =
    elim (Option-cases (get users username)) [
      | inl missing ↦ rw missing (Reachable-Sound h cache r)
      | inr (row, there) ↦ elim (Bool-cases row.active) [
        | inl on ↦
            rw (there, on)
              (checked_for-Sound h now username password cache row (Reachable-Sound h cache r))
        | inr off ↦ rw (there, off) (Reachable-Sound h cache r)
      ]
    ]

-- The keyed hash tells passwords apart.
abbrev pub Separates : Hashes → Type 0
Separates h = (p q : String) → h.mac p ≡ h.mac q → p ≡ q

remembers-verifies :
    (h : Hashes) (now : ℕ) (password stored : String) (key : String × String)
    (found : Option (String × ℕ))
    → Separates h
    → key.1 ≡ h.mac password
    → ((entry : String × ℕ) → found ≡ some entry → Proven h key entry)
    → remembers found stored now ≡ true
    → verify_password h password stored ≡ true
remembers-verifies h now password stored key none apart own proven hit = ground (arith, hit)
remembers-verifies h now password stored key (some (kept, until)) apart own proven hit =
    let (known, same, good) = proven (kept, until) refl in
    let equal : kept ≡ stored = (string_eq.agrees kept stored).0 (ground (arith, hit)) in
    subst (λ p. verify_password h p stored ≡ true) (apart known password (same ∙ own))
      (subst (λ k. verify_password h known k ≡ true) equal good)

checked_for-answer :
    (h : Hashes) (now : ℕ) (username password : String) (cache : Verified) (row : User)
    → Separates h
    → Sound h cache
    → (checked_for h now username password cache row).0
      ≡ verify_password h password row.password_hash
checked_for-answer h now username password cache row apart sound =
    elim (Bool-cases (remembers (get cache (username, h.mac password)) row.password_hash now)) [
      | inl hit ↦ rw hit (
          sym (
            remembers-verifies h now password row.password_hash (username, h.mac password)
              (get cache (username, h.mac password)) apart refl
              (λ entry e. sound (username, h.mac password) entry e) hit))
      | inr miss ↦ elim (Bool-cases (verify_password h password row.password_hash)) [
        | inl good ↦ rw (miss, good) refl
        | inr bad ↦ rw (miss, bad) refl
      ]
    ]

-- With a keyed hash that tells passwords apart, `verify` answers at any time what a check of the
-- password against the account's row as it is now would answer, whatever was verified before: a
-- password that was changed or an account that was deactivated counts at once.
pub verify-answer :
    (h : Hashes) (users : Users) (now : ℕ) (username password : String) (cache : Verified)
    → Separates h
    → Reachable h cache
    → (verify h users now username password cache).0 ≡ answer h password (get users username)
unfolding verify
verify-answer h users now username password cache apart r =
    elim (Option-cases (get users username)) [
      | inl missing ↦ rw missing refl
      | inr (row, there) ↦ elim (Bool-cases row.active) [
        | inr off ↦ rw (there, off) refl
        | inl on ↦
            rw (there, on)
              (checked_for-answer h now username password cache row apart
                (Reachable-Sound h cache r))
      ]
    ]
