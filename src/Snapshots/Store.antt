-- ===== src/Snapshots/Store.antt =====
-- What the snapshot store of app/application/snapshots.py keeps and answers.
use queuelens.Prelude.{
  ℕ, suc, ◌≤◌, ◌≡◌, refl, sym, ap, ◌∙◌, subst, ◌⊎◌, inl, inr, String, true, false, some, [], ◌∷◌,
  ◌==◌, if◌then◌else◌, string_eq, ltb, length, length-filter-le, Absent, arith, Bool-cases,
  Option-cases, beq_self, get as dict_get, put, remove,
}
use queuelens.Snapshots.{
  Snapshot, Scope, Store, max_snapshots, expires_at, prune, evict, admits, move_to_end, get,
}

pub evict-length : (store : Store) → length (evict store) ≤ 4
unfolding evict
evict-length [] = omega arith
evict-length (e ∷ rest) = ground (arith, evict-length rest)

-- A snapshot is stored, with at most `n` others used after it.
pub Recent : String → Snapshot → ℕ → Store → Type 0
Recent id s n [] = Absent
Recent id s n ((k, t) ∷ rest) =
    ((k ≡ id) × (t ≡ s) × (length rest ≤ n)) ⊎ (((k == id) ≡ false) × Recent id s n rest)

module _ (id : String) (s : Snapshot) where
  weaken : (n : ℕ) (store : Store) → Recent id s n store → Recent id s (suc n) store
  unfolding Recent
  weaken n [] h = elim h [ ]
  weaken n ((k, t) ∷ rest) (inl (key, it, few)) = inl (key, it, omega arith)
  weaken n ((k, t) ∷ rest) (inr (other, later)) = inr (other, weaken n rest later)

  pub get-Recent : (n : ℕ) (store : Store) → Recent id s n store → dict_get store id ≡ some s
  unfolding Recent dict_get
  get-Recent n [] h = elim h [ ]
  get-Recent n ((k, t) ∷ rest) (inl (key, it, few)) =
      subst (λ j. (if j == id then some t else dict_get rest id) ≡ some s) (sym key)
        (rw (beq_self id) (ap some it))
  get-Recent n ((k, t) ∷ rest) (inr (other, later)) = rw other (get-Recent n rest later)

  pub evict-Recent :
      (n : ℕ) (store : Store) → n ≤ 3 → Recent id s n store → Recent id s n (evict store)
  unfolding Recent evict
  evict-Recent n [] small h = elim h [ ]
  evict-Recent n ((k, t) ∷ rest) small h =
      elim (Bool-cases (ltb max_snapshots (length ((k, t) ∷ rest)))) [
        | inr fits ↦ rw fits h
        | inl full ↦ rw full (elim h [
          | inl (key, it, few) ↦ ground arith
          | inr (other, later) ↦ evict-Recent n rest small later
        ])
      ]

  pub prune-Recent :
      (n now : ℕ) (store : Store)
      → ltb now (expires_at s) ≡ true
      → Recent id s n store
      → Recent id s n (prune now store)
  unfolding Recent
  prune-Recent n now [] valid h = elim h [ ]
  prune-Recent n now ((k, t) ∷ rest) valid (inl (key, it, few)) =
      rw (ap (λ u. ltb now (expires_at u)) it, valid)
        (inl (key, it, ground (arith, length-filter-le (λ e. ltb now (expires_at e.1)) rest)))
  prune-Recent n now ((k, t) ∷ rest) valid (inr (other, later)) =
      elim (Bool-cases (ltb now (expires_at t))) [
        | inl kept ↦ rw kept (inr (other, prune-Recent n now rest valid later))
        | inr gone ↦ rw gone (prune-Recent n now rest valid later)
      ]

  length-put :
      (store : Store) (k : String) (t : Snapshot) → length (put store k t) ≤ suc (length store)
  unfolding put
  length-put [] k t = omega arith
  length-put ((j, u) ∷ rest) k t = ground (arith, length-put rest k t)

  pub put-Recent :
      (n : ℕ) (store : Store) (k : String) (t : Snapshot)
      → (id == k) ≡ false
      → Recent id s n store
      → Recent id s (suc n) (put store k t)
  unfolding Recent put
  put-Recent n [] k t new h = elim h [ ]
  put-Recent n ((j, u) ∷ rest) k t new (inl (key, it, few)) =
      rw (ap (λ i. i == k) key, new) (inl (key, it, ground (arith, length-put rest k t)))
  put-Recent n ((j, u) ∷ rest) k t new (inr (other, later)) = elim (Bool-cases (j == k)) [
    | inl same ↦ rw same (inr (other, weaken n rest later))
    | inr differs ↦ rw differs (inr (other, put-Recent n rest k t new later))
  ]

  pub move_to_end-Recent : (store : Store) → Recent id s 0 (move_to_end id s store)
  unfolding Recent remove
  move_to_end-Recent [] = inl (refl, refl, omega arith)
  move_to_end-Recent ((j, u) ∷ rest) = elim (Bool-cases (j == id)) [
    | inl same ↦ rw same (move_to_end-Recent rest)
    | inr differs ↦ rw differs (inr (differs, move_to_end-Recent rest))
  ]

-- What `get` found.
pub record Found (now : ℕ) (id : String) (scope : Scope) (queue : String) (store : Store)
    (s : Snapshot) (after : Store) : Type 0 where
  pub stored : dict_get (prune now store) id ≡ some s
  pub admitted : admits scope queue s ≡ true
  pub moved : after ≡ move_to_end id s (prune now store)

pub get-Found :
    (now : ℕ) (id : String) (scope : Scope) (queue : String) (store : Store) (s : Snapshot)
    (after : Store)
    → get now id scope queue store ≡ (some s, after)
    → Found now id scope queue store s after
unfolding get
get-Found now id scope queue store s after e = elim (Option-cases (dict_get (prune now store) id)) [
  | inl none_there ↦ cc (rw none_there at e)
  | inr (t, there) ↦ elim (Bool-cases (admits scope queue t)) [
    | inl allowed ↦
        let same : (some t, move_to_end id t (prune now store)) ≡ (some s, after) =
          rw (there, allowed) at e in
        record {
          stored = there ∙ ap (λ p. p.0) same;
          admitted = cc (ap (λ p. p.0) same, allowed);
          moved = cc same;
        }
    | inr refused ↦ cc (rw (there, refused) at e)
  ]
]
