-- ===== src/Leadership.antt =====
-- `Coordinator.is_leader` of app/infrastructure/persistence/coordination.py: which of several replicas
-- evaluates the alert rules. PostgreSQL's sessions and its advisory lock are part of the state: the
-- lock is a session's and ends with it, and a session can end at any time.
pub mod Exclusion
pub mod Takeover
use queuelens.Prelude.{
  ℕ, suc, Bool, true, false, not, Option, none, some, List, [], ◌∷◌, ◌==◌, if◌then◌else◌, nat_eq,
  option_eq, filter, contains, Dict, get, put, remove,
}

pub record Cluster : Type 0 where
  -- the sessions that are open, and the one that holds the lock
  pub live : List ℕ
  pub holder : Option ℕ
  -- the next session's number
  pub next : ℕ
  -- each replica's `_leader`
  pub leaders : Dict ℕ ℕ

abbrev pub fresh : Cluster
fresh = record { live = []; holder = none; next = 0; leaders = [] }

-- How the database answers one call: not at all, an exception behind the lock's query, or as asked.
pub data Answer : Type 0 where
  unreachable broken served : Answer

-- A session ends.
unfoldable pub release : ℕ → Cluster → Cluster
release n c = record c {
  live = filter (λ m. not (m == n)) c.live;
  holder = if c.holder == some n then none else c.holder;
}

abbrev opened : Cluster → Cluster
opened c = record c { live = c.next ∷ c.live; next = suc c.next }

-- `pg_try_advisory_lock` on a new session; what raises leaves the session behind, and a session that
-- did not get the lock is closed.
abbrev pub take_lock : ℕ → Answer → Cluster → Option ℕ → Bool × Cluster
take_lock r unreachable c holder = (false, c)
take_lock r broken c none = (false, record (opened c) { holder = some c.next })
take_lock r broken c (some m) = (false, opened c)
take_lock r served c none =
    (true, record (opened c) { holder = some c.next; leaders = put c.leaders r c.next })
take_lock r served c (some m) = (false, record c { next = suc c.next })

abbrev pub is_served : Answer → Bool
is_served served = true
is_served _ = false

-- `_drop_leader`
unfoldable pub drop_leader : ℕ → ℕ → Cluster → Cluster
unfolding release remove
drop_leader r n c = release n (record c { leaders = remove c.leaders r })

-- `SELECT 1` on the leader's session
abbrev pub confirm : ℕ → Answer → Cluster → ℕ → Bool × Cluster
confirm r answer c n =
    if contains c.live n
    then (if is_served answer then (true, c) else (false, drop_leader r n c))
    else (false, drop_leader r n c)

abbrev pub asked : ℕ → Answer → Cluster → Option ℕ → Bool × Cluster
asked r answer c none = take_lock r answer c c.holder
asked r answer c (some n) = confirm r answer c n

-- `is_leader`, by a replica that shares its database.
unfoldable pub is_leader : ℕ → Answer → Cluster → Bool × Cluster
unfolding get put drop_leader
is_leader r answer c = asked r answer c (get c.leaders r)

-- `close`
abbrev pub closed : ℕ → Cluster → Option ℕ → Cluster
closed r c none = c
closed r c (some n) = drop_leader r n c

unfoldable pub close : ℕ → Cluster → Cluster
unfolding get drop_leader
close r c = closed r c (get c.leaders r)

-- What can happen to the replicas: any order of their calls, with sessions ending in between.
pub data Reachable : Cluster → Type 0 where
  started : Reachable fresh
  asks : (r : ℕ) (answer : Answer) (c : Cluster) → Reachable c → Reachable (is_leader r answer c).1
  closes : (r : ℕ) (c : Cluster) → Reachable c → Reachable (close r c)
  ends : (n : ℕ) (c : Cluster) → Reachable c → Reachable (release n c)
