-- ===== src/SignIn/RateLimit.antt =====
-- The limits on failed logins (app/auth/basic.py), for attempts that follow one another.
use queuelens.Prelude.{
  ℕ, ◌≡◌, ◌≤◌, ◌<◌, ◌+◌, ◌-◌, sym, subst, inl, inr, String, false, not, List, [], ◌∷◌, ◌++◌, map,
  ◌==◌, if◌then◌else◌, string_eq, ltb, filter, count, arith, Bool-cases,
}
use queuelens.Accounts.{Users, Verified, Failures, count_since, add_failures}
use queuelens.SignIn.{
  AuthSettings, Request, Outside, Memory, keys_of, limited, record_failure, max_failures,
  max_ip_failures, window_seconds, authenticate,
}
use queuelens.SignIn.Attempts.{authenticate-Recorded}

-- What the sign-in tables can become: attempts at times that do not go back.
pub data Reachable (out : Outside) : ℕ → Memory → Type 0 where
  started :
      (now : ℕ) (cache : Verified) → Reachable out now (record { failures = []; cache = cache })
  waited :
      (before now : ℕ) (m : Memory) → before ≤ now → Reachable out before m → Reachable out now m
  attempted :
      (s : AuthSettings) (users : Users) (now : ℕ) (request : Request) (m : Memory)
      → Reachable out now m
      → Reachable out now (authenticate s out users now request m).1

-- The limiter's hash tells its parts apart.
abbrev pub TellsApart : (List String → String) → Type 0
TellsApart digest = (xs ys : List String) → digest xs ≡ digest ys → xs ≡ ys

-- The failures of a name from an address, and of all names from it, in the last minute.
abbrev pub Within : Outside → ℕ → Failures → Type 0
Within out now rows =
    (ip username : String)
    → (count_since (out.digest (ip ∷ username ∷ [])) (now - window_seconds) rows ≤ max_failures)
      × (count_since (out.digest (ip ∷ [])) (now - window_seconds) rows ≤ max_ip_failures)

-- Time only takes failures out of the window.
count_since-later :
    (key : String) (a b : ℕ) (rows : Failures)
    → a ≤ b
    → count_since key b rows ≤ count_since key a rows
unfolding count_since
count_since-later key a b [] h = omega arith
count_since-later key a b ((k, at) ∷ rows) h = ground (arith, count_since-later key a b rows h)

count_since-kept :
    (key : String) (since forget : ℕ) (rows : Failures)
    → count_since key since (filter (λ r. not (ltb r.1 forget)) rows) ≤ count_since key since rows
unfolding count_since
count_since-kept key since forget [] = omega arith
count_since-kept key since forget ((k, at) ∷ rows) =
    ground (arith, count_since-kept key since forget rows)

count_since-append :
    (key : String) (since : ℕ) (rows : Failures) (keys : List String) (at : ℕ)
    → count_since key since (rows ++ map (λ k. (k, at)) keys)
      ≤ count_since key since rows + count keys key
unfolding count_since
count_since-append key since [] [] at = omega arith
count_since-append key since [] (k ∷ keys) at =
    ground (
      arith,
      string_eq.agrees k key,
      string_eq.agrees key k,
      count_since-append key since [] keys at,
    )
count_since-append key since ((k, t) ∷ rows) keys at =
    ground (arith, count_since-append key since rows keys at)

-- A recorded failure counts once for each of its keys.
count_since-add_failures :
    (key : String) (since : ℕ) (rows : Failures) (keys : List String) (at forget : ℕ)
    → count_since key since (add_failures keys at forget rows)
      ≤ count_since key since rows + count keys key
unfolding add_failures
count_since-add_failures key since rows keys at forget = omega (
  arith,
  count_since-kept key since forget (rows ++ map (λ k. (k, at)) keys),
  count_since-append key since rows keys at,
)

-- No key of a name is the key of an address.
digest-differs :
    (digest : List String → String) (ip username address : String)
    → TellsApart digest
    → (digest (ip ∷ username ∷ []) == digest (address ∷ [])) ≡ false
digest-differs digest ip username address apart =
    elim (Bool-cases (digest (ip ∷ username ∷ []) == digest (address ∷ []))) [
      | inr other ↦ other
      | inl same ↦ cc (
          apart (ip ∷ username ∷ []) (address ∷ [])
            ((string_eq.agrees (digest (ip ∷ username ∷ [])) (digest (address ∷ []))).0 same))
    ]

differs-digest :
    (digest : List String → String) (ip username address : String)
    → TellsApart digest
    → (digest (address ∷ []) == digest (ip ∷ username ∷ [])) ≡ false
differs-digest digest ip username address apart = ground (
  arith,
  digest-differs digest ip username address apart,
  string_eq.agrees (digest (ip ∷ username ∷ [])) (digest (address ∷ [])),
  string_eq.agrees (digest (address ∷ [])) (digest (ip ∷ username ∷ [])),
)

-- A count below its limit has room for one more.
room :
    (key own : String) (limit now : ℕ) (rows : Failures) (n : ℕ)
    → n ≤ (if key == own then 1 else 0)
    → count_since own (now - window_seconds) rows < limit
    → count_since key (now - window_seconds) rows ≤ limit
    → count_since key (now - window_seconds) rows + n ≤ limit
room key own limit now rows n once below within = elim (Bool-cases (key == own)) [
  | inr other ↦ let none_more : n ≤ 0 = rw other at once in omega (arith, none_more, within)
  | inl same ↦
      let one_more : n ≤ 1 = rw same at once in
      let equal : key ≡ own = (string_eq.agrees key own).0 same in
      let below_here : count_since key (now - window_seconds) rows < limit =
        subst (λ k. count_since k (now - window_seconds) rows < limit) (sym equal) below in
      omega (arith, one_more, below_here)
]

open-below :
    (by_name by_ip : String) (now : ℕ) (rows : Failures)
    → limited ((by_name, max_failures) ∷ (by_ip, max_ip_failures) ∷ []) now rows ≡ false
    → (count_since by_name (now - window_seconds) rows < max_failures)
      × (count_since by_ip (now - window_seconds) rows < max_ip_failures)
unfolding limited
open-below by_name by_ip now rows h = ground (arith, h)

-- An attempt that is not refused leaves both counts within their limits.
record_failure-Within :
    (out : Outside) (ip username : String) (now : ℕ) (rows : Failures)
    → TellsApart out.digest
    → Within out now rows
    → limited (keys_of out ip username) now rows ≡ false
    → Within out now (record_failure (keys_of out ip username) now rows)
unfolding record_failure
record_failure-Within out ip username now rows apart within open_ address name =
    let by_name = out.digest (ip ∷ username ∷ []) in
    let by_ip = out.digest (ip ∷ []) in
    let since = now - window_seconds in
    let keys = by_name ∷ by_ip ∷ [] in
    let name_key = out.digest (address ∷ name ∷ []) in
    let ip_key = out.digest (address ∷ []) in
    let (name_below, ip_below) = open-below by_name by_ip now rows open_ in
    let (name_within, ip_within) = within address name in
    let name_once : count keys name_key ≤ (if name_key == by_name then 1 else 0) =
      ground (arith, digest-differs out.digest address name ip apart) in
    let ip_once : count keys ip_key ≤ (if ip_key == by_ip then 1 else 0) =
      ground (arith, differs-digest out.digest ip username address apart) in
    (
      omega (
        arith,
        count_since-add_failures name_key since rows keys now since,
        room name_key by_name max_failures now rows (count keys name_key) name_once name_below
            name_within,
      ),
      omega (
        arith,
        count_since-add_failures ip_key since rows keys now since,
        room ip_key by_ip max_ip_failures now rows (count keys ip_key) ip_once ip_below ip_within,
      ),
    )

-- With a limiter's hash that tells its parts apart, and attempts one after another at times that do
-- not go back, whatever settings, accounts and requests they have: at no time are more than 10 failed
-- logins of the last minute recorded for one name from one address, nor more than 50 from one address.
pub Reachable-Within :
    (out : Outside) (now : ℕ) (m : Memory)
    → TellsApart out.digest
    → Reachable out now m
    → Within out now m.failures
unfolding count_since
Reachable-Within out now m apart (started _ cache) = λ ip username. (omega arith, omega arith)
Reachable-Within out now m apart (waited before _ _ h r) = λ ip username.
    let (by_name, by_ip) = Reachable-Within out before m apart r ip username in
    (
      omega (
        arith,
        by_name,
        count_since-later (out.digest (ip ∷ username ∷ [])) (before - window_seconds)
            (now - window_seconds) m.failures (omega (arith, h)),
      ),
      omega (
        arith,
        by_ip,
        count_since-later (out.digest (ip ∷ [])) (before - window_seconds) (now - window_seconds)
            m.failures (omega (arith, h)),
      ),
    )
Reachable-Within out now _ apart (attempted s users _ request m r) =
    elim (authenticate-Recorded s out users now request m) [
      | inl same ↦ rw same (Reachable-Within out now m apart r)
      | inr (ip, username, open_, more) ↦ rw more (
          record_failure-Within out ip username now m.failures apart
            (Reachable-Within out now m apart r) open_)
    ]
