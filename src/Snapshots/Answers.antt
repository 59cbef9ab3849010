-- ===== src/Snapshots/Answers.antt =====
-- What clients of the snapshot store may rely on (app/application/snapshots.py).
use queuelens.Prelude.{
  filter-All, ℕ, suc, ◌+◌, ◌≤◌, ◌<◌, ◌≡◌, refl, sym, ap, subst, ◌∙◌, inl, inr, String, true, false,
  some, List, [], ◌∷◌, ◌==◌, string_eq, ltb, ltb→lt, length, All, All-append, arith, Bool-cases,
  Option-cases, get as dict_get, put, remove,
}
use queuelens.Snapshots.{Snapshot, Scope, Store, expires_at, prune, add, admits, get}
use queuelens.Snapshots.Entries.{
  evict-All, remove-All, put-All, get-All, prune-length, length-remove, prune-All,
}
use queuelens.Snapshots.Store.{
  evict-length, Recent, get-Recent, evict-Recent, prune-Recent, put-Recent, move_to_end-Recent,
  get-Found,
}

-- The stores that calls of `add` and `get` make from the empty one.
pub data Reachable : Store → Type 0 where
  created : Reachable []
  added : (now : ℕ) (s : Snapshot) (store : Store) → Reachable store → Reachable (add now s store)
  read :
      (now : ℕ) (id : String) (scope : Scope) (queue : String) (store : Store)
      → Reachable store
      → Reachable (get now id scope queue store).1

-- At most four snapshots, each under its own token.
pub record WellFormed (store : Store) : Type 0 where
  pub bounded : length store ≤ 4
  pub named : All (λ e. e.1.id ≡ e.0) store

add-WellFormed :
    (now : ℕ) (s : Snapshot) (store : Store) → WellFormed store → WellFormed (add now s store)
unfolding add
add-WellFormed now s store h = record {
  bounded = evict-length (put (prune now store) s.id s);
  named =
      evict-All (λ e. e.1.id ≡ e.0) _
        (put-All (λ e. e.1.id ≡ e.0) (prune now store) s.id s
          (λ j same. sym ((string_eq.agrees j s.id).0 same))
          (filter-All (λ e. e.1.id ≡ e.0) (λ e. ltb now (expires_at e.1)) store h.named));
}

prune-WellFormed : (now : ℕ) (store : Store) → WellFormed store → WellFormed (prune now store)
prune-WellFormed now store h = record {
  bounded = ground (arith, prune-length now store, h.bounded);
  named = filter-All (λ e. e.1.id ≡ e.0) (λ e. ltb now (expires_at e.1)) store h.named;
}

get-named :
    (store : Store) (id : String) (s : Snapshot)
    → WellFormed store
    → dict_get store id ≡ some s
    → s.id ≡ id
get-named store id s h there =
    let (j, same, name) = get-All (λ e. e.1.id ≡ e.0) store id s h.named there in
    name ∙ (string_eq.agrees j id).0 same

get-WellFormed :
    (now : ℕ) (id : String) (scope : Scope) (queue : String) (store : Store)
    → WellFormed store
    → WellFormed (get now id scope queue store).1
unfolding get
get-WellFormed now id scope queue store h = elim (Option-cases (dict_get (prune now store) id)) [
  | inl missing ↦ rw missing (prune-WellFormed now store h)
  | inr (s, there) ↦ elim (Bool-cases (admits scope queue s)) [
    | inr refused ↦ rw (there, refused) (prune-WellFormed now store h)
    | inl allowed ↦
        rw (there, allowed)
          (record {
            bounded = ground (
              arith,
              length-remove (prune now store) id s there,
              prune-length now store,
              h.bounded,
            );
            named =
                All-append (λ e. e.1.id ≡ e.0) (remove (prune now store) id) ((id, s) ∷ [])
                  (remove-All (λ e. e.1.id ≡ e.0) (prune now store) id
                    (prune-WellFormed now store h).named)
                  (get-named (prune now store) id s (prune-WellFormed now store h) there, tt);
          })
  ]
]

-- Whatever calls of `add` and `get` came before, in whatever order and at whatever times, the store
-- holds at most four snapshots, each under its own token.
pub Reachable-WellFormed : (store : Store) → Reachable store → WellFormed store
Reachable-WellFormed _ created = record { bounded = omega arith; named = tt }
Reachable-WellFormed _ (added now s store r) =
    add-WellFormed now s store (Reachable-WellFormed store r)
Reachable-WellFormed _ (read now id scope queue store r) =
    get-WellFormed now id scope queue store (Reachable-WellFormed store r)

-- What `get` returns is the snapshot of the token asked for, taken in the environment and virtual
-- host and of the queue asked for, and it has not expired.
pub get_returns_own :
    (now : ℕ) (id : String) (scope : Scope) (queue : String) (store : Store) (s : Snapshot)
    → Reachable store
    → (get now id scope queue store).0 ≡ some s
    → (s.id ≡ id)
      × (s.scope.environment ≡ scope.environment)
      × (s.scope.vhost ≡ scope.vhost)
      × (s.queue ≡ queue)
      × (now < expires_at s)
get_returns_own now id scope queue store s r e =
    let f =
      get-Found now id scope queue store s (get now id scope queue store).1
        (ap (λ o. (o, (get now id scope queue store).1)) e) in
    let (j, same, valid) =
      get-All (λ e. ltb now (expires_at e.1) ≡ true) (prune now store) id s (prune-All now store)
        f.stored in
    (
      get-named (prune now store) id s (prune-WellFormed now store (Reachable-WellFormed store r))
          f.stored,
      (string_eq.agrees s.scope.environment scope.environment).0 (ground (arith, f.admitted)),
      (string_eq.agrees s.scope.vhost scope.vhost).0 (ground (arith, f.admitted)),
      (string_eq.agrees s.queue queue).0 (ground (arith, f.admitted)),
      ltb→lt now (expires_at s) valid,
    )

-- Further calls of `add`, each with its time.
abbrev pub adds : List (ℕ × Snapshot) → Store → Store
adds [] store = store
adds ((now, s) ∷ rest) store = adds rest (add now s store)

adds-Recent :
    (id : String) (s : Snapshot) (n : ℕ) (news : List (ℕ × Snapshot)) (store : Store)
    → n + length news ≤ 3
    → All (λ e. (e.0 < expires_at s) × ((id == e.1.id) ≡ false)) news
    → Recent id s n store
    → Recent id s (n + length news) (adds news store)
unfolding add
adds-Recent id s n [] store few others h = subst (λ k. Recent id s k store) (omega arith) h
adds-Recent id s n ((now, t) ∷ rest) store few others h =
    subst (λ k. Recent id s k (adds rest (add now t store))) (omega arith)
      (adds-Recent id s (suc n) rest (add now t store) (omega arith) others.1 (
        evict-Recent id s (suc n) (put (prune now store) t.id t) (omega arith) (
          put-Recent id s n (prune now store) t.id t others.0.1
            (prune-Recent id s n now store (ground (arith, others.0.0)) h))))

-- A snapshot that `get` returned is returned again, by the same call at any later time before it
-- expires, when nothing else was done to the store in between than adding at most three snapshots with
-- other tokens: the least recently used ones give way first.
pub found_again :
    (now later : ℕ) (id : String) (scope : Scope) (queue : String) (store : Store) (s : Snapshot)
    (news : List (ℕ × Snapshot))
    → (get now id scope queue store).0 ≡ some s
    → length news ≤ 3
    → All (λ e. (e.0 < expires_at s) × ((id == e.1.id) ≡ false)) news
    → later < expires_at s
    → (get later id scope queue (adds news (get now id scope queue store).1)).0 ≡ some s
unfolding get
found_again now later id scope queue store s news e few others valid =
    let f =
      get-Found now id scope queue store s (get now id scope queue store).1
        (ap (λ o. (o, (get now id scope queue store).1)) e) in
    let kept : Recent id s (0 + length news) (adds news (get now id scope queue store).1) =
      adds-Recent id s 0 news (get now id scope queue store).1 (omega arith) others
        (subst (Recent id s 0) (sym f.moved) (move_to_end-Recent id s (prune now store))) in
    rw
      (
        get-Recent id s (0 + length news) (prune later (adds news (get now id scope queue store).1))
            (prune-Recent id s (0 + length news) later (adds news (get now id scope queue store).1)
              (ground (arith, valid)) kept),
        f.admitted,
      )
      refl
