-- ===== src/Snapshots/Entries.antt =====
-- What holds of every entry of the snapshot store, and the sizes of what its operations make.
use queuelens.Prelude.{
  ℕ, ◌≤◌, ◌≡◌, subst, inl, inr, String, true, some, [], ◌∷◌, ◌++◌, ◌==◌, string_eq, ltb, length,
  length-append, All, arith, Bool-cases, beq_self, get as dict_get, put, remove,
}
use queuelens.Snapshots.{Snapshot, Store, max_snapshots, expires_at, prune, evict}

-- What holds of every entry is a property of the entry that a key finds, and the operations keep it.
module _ {κ} (P : (String × Snapshot) → Type κ) where
  pub evict-All : (store : Store) → All P store → All P (evict store)
  unfolding evict
  evict-All [] h = h
  evict-All (e ∷ rest) h = elim (Bool-cases (ltb max_snapshots (length (e ∷ rest)))) [
    | inl full ↦ rw full (evict-All rest h.1)
    | inr fits ↦ rw fits h
  ]

  pub remove-All : (store : Store) (k : String) → All P store → All P (remove store k)
  unfolding remove
  remove-All [] k h = h
  remove-All ((j, u) ∷ rest) k h = elim (Bool-cases (j == k)) [
    | inl same ↦ rw same (remove-All rest k h.1)
    | inr differs ↦ rw differs (h.0, remove-All rest k h.1)
  ]

  pub put-All :
      (store : Store) (k : String) (s : Snapshot)
      → ((j : String) → (j == k) ≡ true → P (j, s))
      → All P store
      → All P (put store k s)
  unfolding put
  put-All [] k s new h = (new k (beq_self k), h)
  put-All ((j, u) ∷ rest) k s new h = elim (Bool-cases (j == k)) [
    | inl same ↦ rw same (new j same, h.1)
    | inr differs ↦ rw differs (h.0, put-All rest k s new h.1)
  ]

  pub get-All :
      (store : Store) (k : String) (s : Snapshot)
      → All P store
      → dict_get store k ≡ some s
      → (j : String) × ((j == k) ≡ true) × P (j, s)
  unfolding dict_get
  get-All [] k s h e = cc e
  get-All ((j, u) ∷ rest) k s h e = elim (Bool-cases (j == k)) [
    | inl same ↦ (j, same, subst (λ t. P (j, t)) (cc (rw same at e)) h.0)
    | inr differs ↦ get-All rest k s h.1 (rw differs at e)
  ]

pub prune-length : (now : ℕ) (store : Store) → length (prune now store) ≤ length store
prune-length now [] = omega arith
prune-length now (e ∷ rest) = ground (arith, prune-length now rest)

length-remove-le : (store : Store) (k : String) → length (remove store k) ≤ length store
unfolding remove
length-remove-le [] k = omega arith
length-remove-le ((j, u) ∷ rest) k = ground (arith, length-remove-le rest k)

pub length-remove :
    (store : Store) (k : String) (s : Snapshot)
    → dict_get store k ≡ some s
    → length (remove store k ++ (k, s) ∷ []) ≤ length store
unfolding dict_get remove
length-remove [] k s e = cc e
length-remove ((j, u) ∷ rest) k s e = elim (Bool-cases (j == k)) [
  | inl same ↦
      rw same (ground (arith, length-append (remove rest k) ((k, s) ∷ []), length-remove-le rest k))
  | inr differs ↦ rw differs (ground (arith, length-remove rest k s (rw differs at e)))
]

pub prune-All :
    (now : ℕ) (store : Store) → All (λ e. ltb now (expires_at e.1) ≡ true) (prune now store)
prune-All now [] = tt
prune-All now (e ∷ rest) = elim (Bool-cases (ltb now (expires_at e.1))) [
  | inl valid ↦ rw valid (valid, prune-All now rest)
  | inr expired ↦ rw expired (prune-All now rest)
]
