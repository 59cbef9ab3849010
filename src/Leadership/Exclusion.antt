-- ===== src/Leadership/Exclusion.antt =====
-- At most one replica leads, and a free lock is taken (app/infrastructure/persistence/coordination.py).
use queuelens.Prelude.{
  ℕ, suc, ◌<◌, ◌≡◌, refl, sym, ◌∙◌, ap, ◌⊎◌, inl, inr, true, false, not, Option, none, some, List,
  [], ◌∷◌, ◌==◌, nat_eq, option_eq, filter, contains, Dict, get, put, remove, get-put, get-remove,
  Bool-cases, arith,
}
use queuelens.Leadership.{
  Cluster, Answer, unreachable, broken, served, release, take_lock, is_served, drop_leader, confirm,
  asked, is_leader, closed, close, Reachable, started, asks, closes, ends,
}

-- A leader's session that is open holds the lock, no two replicas share one, and the sessions are numbered.
pub record IsSound (c : Cluster) : Type 0 where
  pub leads : (r n : ℕ) → get c.leaders r ≡ some n → contains c.live n ≡ true → c.holder ≡ some n
  pub own : (r t n : ℕ) → get c.leaders r ≡ some n → get c.leaders t ≡ some n → r ≡ t
  pub numbered : (r n : ℕ) → get c.leaders r ≡ some n → n < c.next
  pub open_ : (n : ℕ) → contains c.live n ≡ true → n < c.next

contains-filter :
    (xs : List ℕ) (n m : ℕ)
    → contains (filter (λ x. not (x == n)) xs) m ≡ true
    → (contains xs m ≡ true) × ((m == n) ≡ false)
contains-filter [] n m h = cc h
contains-filter (x ∷ xs) n m h =
    ground
      (arith, nat_eq.agrees x n, nat_eq.agrees m x, nat_eq.agrees m n, contains-filter xs n m, h)

release-IsSound : (n : ℕ) (c : Cluster) → IsSound c → IsSound (release n c)
unfolding release
release-IsSound n c s = record {
  leads = λ r m e h.
      let (there, other) = contains-filter c.live n m h in
      let held = s.leads r m e there in rw held (ground (arith, other));
  own = s.own;
  numbered = s.numbered;
  open_ = λ m h. s.open_ m (contains-filter c.live n m h).0;
}

get-remove-some : (d : Dict ℕ ℕ) (r t n : ℕ) → get (remove d r) t ≡ some n → get d t ≡ some n
get-remove-some d r t n h = elim (Bool-cases (r == t)) [
  | inl same ↦ cc (rw same at (get-remove d r t), h)
  | inr other ↦ sym (rw other at (get-remove d r t)) ∙ h
]

forget-IsSound :
    (r : ℕ) (c : Cluster) → IsSound c → IsSound (record c { leaders = remove c.leaders r })
forget-IsSound r c s = record {
  leads = λ t n e h. s.leads t n (get-remove-some c.leaders r t n e) h;
  own = λ t u n e f.
      s.own t u n (get-remove-some c.leaders r t n e) (get-remove-some c.leaders r u n f);
  numbered = λ t n e. s.numbered t n (get-remove-some c.leaders r t n e);
  open_ = s.open_;
}

drop_leader-IsSound : (r n : ℕ) (c : Cluster) → IsSound c → IsSound (drop_leader r n c)
unfolding drop_leader
drop_leader-IsSound r n c s =
    release-IsSound n (record c { leaders = remove c.leaders r }) (forget-IsSound r c s)

-- A session that is opened, and perhaps takes the lock while it is free.
opened-IsSound :
    (c : Cluster) (holder : Option ℕ)
    → IsSound c
    → (c.holder ≡ none) ⊎ (c.holder ≡ holder)
    → IsSound (record c { live = c.next ∷ c.live; next = suc c.next; holder = holder })
opened-IsSound c holder s kept = record {
  leads =
      λ t n e h. ground (arith, s.numbered t n e, s.leads t n e, nat_eq.agrees n c.next, h, kept);
  own = s.own;
  numbered = λ t n e. omega (arith, s.numbered t n e);
  open_ = λ n h. ground (arith, s.open_ n, nat_eq.agrees n c.next, h);
}

get-put-some :
    (d : Dict ℕ ℕ) (r m t n : ℕ)
    → get (put d r m) t ≡ some n
    → ((r ≡ t) × (m ≡ n)) ⊎ (get d t ≡ some n)
get-put-some d r m t n h = elim (Bool-cases (r == t)) [
  | inl same ↦ inl ((nat_eq.agrees r t).0 same, cc (rw same at (get-put d r t m), h))
  | inr other ↦ inr (sym (rw other at (get-put d r t m)) ∙ h)
]

won-IsSound :
    (r : ℕ) (c : Cluster)
    → IsSound c
    → c.holder ≡ none
    → IsSound (record c {
      live = c.next ∷ c.live;
      next = suc c.next;
      holder = some c.next;
      leaders = put c.leaders r c.next;
    })
won-IsSound r c s free = record {
  leads = λ t n e h. elim (get-put-some c.leaders r c.next t n e) [
    | inl (same, new) ↦ ap some new
    | inr old ↦ ground (arith, s.numbered t n old, s.leads t n old, nat_eq.agrees n c.next, h, free)
  ];
  own = λ t u n e f. elim (get-put-some c.leaders r c.next t n e) [
    | inl (t_is, new) ↦ elim (get-put-some c.leaders r c.next u n f) [
      | inl (u_is, new') ↦ sym t_is ∙ u_is
      | inr old ↦ omega (arith, new, s.numbered u n old)
    ]
    | inr old ↦ elim (get-put-some c.leaders r c.next u n f) [
      | inl (u_is, new) ↦ omega (arith, new, s.numbered t n old)
      | inr old' ↦ s.own t u n old old'
    ]
  ];
  numbered = λ t n e. elim (get-put-some c.leaders r c.next t n e) [
    | inl (same, new) ↦ omega (arith, new)
    | inr old ↦ omega (arith, s.numbered t n old)
  ];
  open_ = λ n h. ground (arith, s.open_ n, nat_eq.agrees n c.next, h);
}

take_lock-IsSound :
    (r : ℕ) (answer : Answer) (c : Cluster) (holder : Option ℕ)
    → IsSound c
    → c.holder ≡ holder
    → IsSound (take_lock r answer c holder).1
take_lock-IsSound r unreachable c holder s e = s
take_lock-IsSound r broken c none s e = opened-IsSound c (some c.next) s (inl e)
take_lock-IsSound r broken c (some m) s e = opened-IsSound c c.holder s (inr refl)
take_lock-IsSound r served c none s e = won-IsSound r c s e
take_lock-IsSound r served c (some m) s e = record {
  leads = s.leads;
  own = s.own;
  numbered = λ t n f. omega (arith, s.numbered t n f);
  open_ = λ n h. omega (arith, s.open_ n h);
}

confirm-IsSound :
    (r : ℕ) (answer : Answer) (c : Cluster) (n : ℕ) → IsSound c → IsSound (confirm r answer c n).1
confirm-IsSound r answer c n s = elim (Bool-cases (contains c.live n)) [
  | inr gone ↦ rw gone (drop_leader-IsSound r n c s)
  | inl there ↦ elim (Bool-cases (is_served answer)) [
    | inl fine ↦ rw (there, fine) s
    | inr bad ↦ rw (there, bad) (drop_leader-IsSound r n c s)
  ]
]

asked-IsSound :
    (r : ℕ) (answer : Answer) (c : Cluster) (leader : Option ℕ)
    → IsSound c
    → IsSound (asked r answer c leader).1
asked-IsSound r answer c none s = take_lock-IsSound r answer c c.holder s refl
asked-IsSound r answer c (some n) s = confirm-IsSound r answer c n s

closed-IsSound : (r : ℕ) (c : Cluster) (leader : Option ℕ) → IsSound c → IsSound (closed r c leader)
closed-IsSound r c none s = s
closed-IsSound r c (some n) s = drop_leader-IsSound r n c s

pub Reachable-IsSound : (c : Cluster) → Reachable c → IsSound c
unfolding get is_leader close
Reachable-IsSound _ started = record {
  leads = λ r n e h. cc e;
  own = λ r t n e f. cc e;
  numbered = λ r n e. cc e;
  open_ = λ n h. cc h;
}
Reachable-IsSound _ (asks r answer c reach) =
    asked-IsSound r answer c (get c.leaders r) (Reachable-IsSound c reach)
Reachable-IsSound _ (closes r c reach) =
    closed-IsSound r c (get c.leaders r) (Reachable-IsSound c reach)
Reachable-IsSound _ (ends n c reach) = release-IsSound n c (Reachable-IsSound c reach)
