-- ===== src/Leadership/Takeover.antt =====
-- Who leads after a replica asked (app/infrastructure/persistence/coordination.py).
use queuelens.Prelude.{
  ℕ, ◌≡◌, refl, ◌∙◌, ap, inl, inr, true, false, Option, none, some, nat_eq, option_eq, contains,
  beq_self, get, get-put, get-remove, Bool-cases, arith,
}
use queuelens.Leadership.{
  Cluster, Answer, unreachable, broken, served, release, take_lock, is_served, drop_leader, confirm,
  asked, is_leader, Reachable, asks,
}
use queuelens.Leadership.Exclusion.{IsSound, Reachable-IsSound}

-- The replica's session is open.
abbrev Open : Cluster → ℕ → ℕ → Type 0
Open c r n = (get c.leaders r ≡ some n) × (contains c.live n ≡ true)

take_lock-Open :
    (r : ℕ) (answer : Answer) (c : Cluster) (holder : Option ℕ)
    → (take_lock r answer c holder).0 ≡ true
    → (holder ≡ none) × (n : ℕ) × Open (take_lock r answer c holder).1 r n
take_lock-Open r unreachable c holder h = cc h
take_lock-Open r broken c none h = cc h
take_lock-Open r broken c (some m) h = cc h
take_lock-Open r served c none h = (
  refl,
  c.next,
  (
    get-put c.leaders r r c.next ∙ rw (beq_self r) refl,
    ground (arith, nat_eq.agrees c.next c.next),
  ),
)
take_lock-Open r served c (some m) h = cc h

confirm-Open :
    (r : ℕ) (answer : Answer) (c : Cluster) (n : ℕ)
    → (confirm r answer c n).0 ≡ true
    → (contains c.live n ≡ true) × ((confirm r answer c n).1 ≡ c)
confirm-Open r answer c n h = elim (Bool-cases (contains c.live n)) [
  | inr gone ↦ cc (rw gone at h)
  | inl there ↦ elim (Bool-cases (is_served answer)) [
    | inl fine ↦ rw (there, fine) (refl, refl)
    | inr bad ↦ cc (rw (there, bad) at h)
  ]
]

asked-Open :
    (r : ℕ) (answer : Answer) (c : Cluster) (leader : Option ℕ)
    → get c.leaders r ≡ leader
    → (asked r answer c leader).0 ≡ true
    → (n : ℕ) × Open (asked r answer c leader).1 r n
asked-Open r answer c none e h =
    let (free, n, open_) = take_lock-Open r answer c c.holder h in (n, open_)
asked-Open r answer c (some n) e h =
    let (there, same) = confirm-Open r answer c n h in
    (
      n,
      (
        ap (λ (x : Cluster). get x.leaders r) same ∙ e,
        ap (λ (x : Cluster). contains x.live n) same ∙ there,
      ),
    )

is_leader-Open :
    (r : ℕ) (answer : Answer) (c : Cluster)
    → (is_leader r answer c).0 ≡ true
    → (n : ℕ) × Open (is_leader r answer c).1 r n
unfolding is_leader
is_leader-Open r answer c h = asked-Open r answer c (get c.leaders r) refl h

-- While the lock is held, a replica leads only by a session of its own.
asked-owns :
    (r : ℕ) (answer : Answer) (c : Cluster) (leader : Option ℕ) (m : ℕ)
    → get c.leaders r ≡ leader
    → c.holder ≡ some m
    → (asked r answer c leader).0 ≡ true
    → (n : ℕ) × Open c r n
asked-owns r answer c none m e held h = cc ((take_lock-Open r answer c c.holder h).0, held)
asked-owns r answer c (some n) m e held h = (n, (e, (confirm-Open r answer c n h).0))

is_leader-owns :
    (r : ℕ) (answer : Answer) (c : Cluster) (m : ℕ)
    → c.holder ≡ some m
    → (is_leader r answer c).0 ≡ true
    → (n : ℕ) × Open c r n
unfolding is_leader
is_leader-owns r answer c m held h = asked-owns r answer c (get c.leaders r) m refl held h

-- At most one replica leads: whatever happened before, two replicas that ask one after the other, with
-- no session ending in between, are not both told that they lead.
pub is_leader-exclusive :
    (c : Cluster) (r t : ℕ) (answer answer' : Answer)
    → Reachable c
    → (is_leader r answer c).0 ≡ true
    → (is_leader t answer' (is_leader r answer c).1).0 ≡ true
    → r ≡ t
is_leader-exclusive c r t answer answer' reach first second =
    let after = (is_leader r answer c).1 in
    let s : IsSound after = Reachable-IsSound after (asks r answer c reach) in
    let (n, (leads, there)) = is_leader-Open r answer c first in
    let held : after.holder ≡ some n = s.leads r n leads there in
    let (m, (leads', there')) = is_leader-owns t answer' after n held second in
    let held' : after.holder ≡ some m = s.leads t m leads' there' in
    let same : m ≡ n = cc (held, held') in s.own r t n leads (leads' ∙ ap some same)

-- The answers to two calls in a row.
twice :
    (r : ℕ) (c : Cluster) (leader : Option ℕ)
    → get c.leaders r ≡ leader
    → c.holder ≡ none
    → ((n : ℕ) → leader ≡ some n → contains c.live n ≡ false)
    → (is_leader r served (asked r served c leader).1).0 ≡ true
unfolding is_leader drop_leader release
twice r c none e free stale =
    rw free
      (rw (get-put c.leaders r r c.next, beq_self r) (ground (arith, nat_eq.agrees c.next c.next)))
twice r c (some n) e free stale =
    let gone = stale n refl in rw gone (rw (get-remove c.leaders r r, beq_self r, free) refl)

-- A free lock is taken: whatever happened before, when no session holds the lock, a replica that asks
-- twice while the database answers leads at the second call, if not before.
pub is_leader-takes_over :
    (c : Cluster) (r : ℕ)
    → Reachable c
    → c.holder ≡ none
    → (is_leader r served (is_leader r served c).1).0 ≡ true
unfolding is_leader
is_leader-takes_over c r reach free =
    let s : IsSound c = Reachable-IsSound c reach in
    twice r c (get c.leaders r) refl free (λ n leads. elim (Bool-cases (contains c.live n)) [
      | inl there ↦ cc (s.leads r n leads there, free)
      | inr gone ↦ gone
    ])
