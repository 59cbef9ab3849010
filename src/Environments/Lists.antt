-- ===== src/Environments/Lists.antt =====
-- Which list of vhosts a profile refers to (app/application/environments.py).
use queuelens.Prelude.{
  ℕ, Bool, ◌<◌, ◌≡◌, refl, sym, ◌∙◌, ap, subst, inl, inr, String, true, false, ◌||◌, Option, none,
  some, or_else, List, [], ◌∷◌, ◌++◌, ◌==◌, nat_eq, string_eq, contains, filter, keys, get, get-put,
  distinct, Dict, Bool-cases, arith,
}
use queuelens.Environments.{
  Base, Profile, Profiles, Given, load_from, or_root, configured, merged, append_missing,
  named_vhosts, default_profile, updated, overrides, list_at,
}

-- A profile is there, and has the list object `ref`.
abbrev pub Refers : Profiles → String → ℕ → Type 0
Refers p name ref =
    (profile : Profile) × (get p.by_name name ≡ some profile) × (profile.vhosts ≡ ref)

-- One name, one profile.
one_profile :
    (p : Profiles) (name n : String) (ref : ℕ) (q : Profile)
    → n ≡ name
    → get p.by_name n ≡ some q
    → Refers p name ref
    → q.vhosts ≡ ref
one_profile p name n ref q same_name e (profile, there, same) =
    let is : some q ≡ some profile = sym e ∙ ap (λ k. get p.by_name k) same_name ∙ there in
    let it : q ≡ profile = cc is in ap (λ (r : Profile). r.vhosts) it ∙ same

contains-append :
    (have : List String) (v w : String) → contains (have ++ w ∷ []) v ≡ (contains have v || v == w)
contains-append [] v w = ground arith
contains-append (x ∷ have) v w = ground (arith, contains-append have v w)

append_missing-keeps :
    (vs have : List String) (v : String)
    → contains have v ≡ true
    → contains (append_missing vs have) v ≡ true
unfolding append_missing
append_missing-keeps [] have v h = h
append_missing-keeps (w ∷ vs) have v h = elim (Bool-cases (contains have w)) [
  | inl there ↦ rw there (append_missing-keeps vs have v h)
  | inr lacking ↦
      rw lacking
        (append_missing-keeps vs (have ++ w ∷ []) v (ground (arith, contains-append have v w, h)))
]

append_missing-adds :
    (vs have : List String) (v : String)
    → contains vs v ≡ true
    → contains (append_missing vs have) v ≡ true
unfolding append_missing
append_missing-adds [] have v h = cc h
append_missing-adds (w ∷ vs) have v h = elim (Bool-cases (contains vs v)) [
  | inl later ↦ append_missing-adds vs _ v later
  | inr not_later ↦ elim (Bool-cases (contains have w)) [
    | inl there ↦ rw there (
        append_missing-keeps vs have v
          (ground (arith, string_eq.agrees v w, string_eq.agrees w v, h)))
    | inr lacking ↦ rw lacking (
        append_missing-keeps vs (have ++ w ∷ []) v
          (ground (arith, contains-append have v w, string_eq.agrees v w, string_eq.agrees w v, h)))
  ]
]

pub contains-filter :
    (p : String → Bool) (vs : List String) (v : String)
    → p v ≡ true
    → contains vs v ≡ true
    → contains (filter p vs) v ≡ true
contains-filter p [] v h there = cc there
contains-filter p (w ∷ vs) v h there =
    ground (arith, string_eq.agrees v w, string_eq.agrees w v, contains-filter p vs v, h, there)

module _ (s : Base) where
  -- What an environment of the configuration does not touch.
  configured-other :
      (n name : String) (g : Given) (from : Profile) (p : Profiles) (vhosts : Option (List String))
      → (n == name) ≡ false
      → get (configured n g from p vhosts).by_name name ≡ get p.by_name name
  configured-other n name g from p none other =
      rw (get-put p.by_name n name (updated from g), other) refl
  configured-other n name g from p (some vs) other =
      rw (get-put p.by_name n name (record (updated from g) { vhosts = p.next }), other) refl

  configured-grows :
      (n : String) (g : Given) (from : Profile) (p : Profiles) (vhosts : Option (List String))
      (ref : ℕ)
      → ref < p.next
      → ref < (configured n g from p vhosts).next
  configured-grows n g from p none ref h = h
  configured-grows n g from p (some vs) ref h = omega (arith, h)

  pub load_from-grows :
      (given : Dict String Given) (p : Profiles) (ref : ℕ)
      → ref < p.next
      → ref < (load_from s given p).next
  unfolding load_from
  load_from-grows [] p ref h = h
  load_from-grows ((n, g) ∷ rest) p ref h =
      load_from-grows rest _ ref (configured-grows n g _ p g.vhosts ref h)

  pub load_from-other :
      (given : Dict String Given) (p : Profiles) (name : String)
      → contains (keys given) name ≡ false
      → get (load_from s given p).by_name name ≡ get p.by_name name
  unfolding load_from
  load_from-other [] p name h = refl
  load_from-other ((n, g) ∷ rest) p name h =
      load_from-other rest _ name (ground (arith, h))
      ∙ configured-other n name g _ p g.vhosts
          (ground (arith, string_eq.agrees n name, string_eq.agrees name n, h))

  -- An environment that is configured without vhosts has the default's list.
  pub load_from-Refers :
      (given : Dict String Given) (p : Profiles) (name : String) (g : Given) (default : Profile)
      → distinct given ≡ true
      → contains (keys given) s.environment ≡ false
      → get given name ≡ some g
      → g.vhosts ≡ none
      → get p.by_name s.environment ≡ some default
      → Refers (load_from s given p) name default.vhosts
  unfolding load_from get
  load_from-Refers [] p name g default fresh own there bare here = cc there
  load_from-Refers ((n, f) ∷ rest) p name g default fresh own there bare here =
      elim (Bool-cases (n == name)) [
        | inl same ↦
            let it : f ≡ g = cc (rw same at there) in
            let from = or_else (get p.by_name s.environment) (default_profile s) in
            let none_given : f.vhosts ≡ none = ap (λ e. e.vhosts) it ∙ bare in
            (
              updated from f,
              load_from-other rest _ name (ground (arith, string_eq.agrees n name, fresh, same))
                  ∙ rw none_given (get-put p.by_name n name (updated from f) ∙ rw same refl),
              rw here refl,
            )
        | inr other ↦
            load_from-Refers rest _ name g default (ground (arith, fresh)) (ground (arith, own))
              (rw other at there) bare
              (configured-other n s.environment f _ p f.vhosts (
                  ground (
                    arith,
                    string_eq.agrees n s.environment,
                    string_eq.agrees s.environment n,
                    own,
                  ))
                ∙ here)
      ]

  -- What a stored environment leaves: every profile that is there keeps its list object.
  pub merged-Refers :
      (n name : String) (g : Given) (p : Profiles) (ref : ℕ) (old : Option Profile)
      → get p.by_name n ≡ old
      → Refers p name ref
      → Refers (merged s n g p old) name ref
  merged-Refers n name g p ref (some q) e (profile, there, same) = elim (Bool-cases (n == name)) [
    | inl it ↦ (
      updated q (overrides g),
      get-put p.by_name n name (updated q (overrides g)) ∙ rw it refl,
      one_profile p name n ref q ((string_eq.agrees n name).0 it) e (profile, there, same),
    )
    | inr other ↦
        (profile, get-put p.by_name n name (updated q (overrides g)) ∙ rw other there, same)
  ]
  merged-Refers n name g p ref none e (profile, there, same) = elim (Bool-cases (n == name)) [
    | inl it ↦ cc (subst (λ k. get p.by_name k ≡ none) ((string_eq.agrees n name).0 it) e, there)
    | inr other ↦ (profile, get-put p.by_name n name _ ∙ rw other there, same)
  ]

  pub merged-grows :
      (n : String) (g : Given) (p : Profiles) (ref : ℕ) (old : Option Profile)
      → ref < p.next
      → ref < (merged s n g p old).next
  merged-grows n g p ref (some q) h = h
  merged-grows n g p ref none h = omega (arith, h)

  pub merged-keeps :
      (n v : String) (g : Given) (p : Profiles) (ref : ℕ) (old : Option Profile)
      → ref < p.next
      → contains (list_at p ref) v ≡ true
      → contains (list_at (merged s n g p old) ref) v ≡ true
  merged-keeps n v g p ref (some q) h there = elim (Bool-cases (q.vhosts == ref)) [
    | inl it ↦
        rw (get-put p.lists q.vhosts ref (append_missing (named_vhosts g) (list_at p q.vhosts)), it)
          (append_missing-keeps (named_vhosts g) (list_at p q.vhosts) v (
            subst (λ r. contains (list_at p r) v ≡ true) (sym ((nat_eq.agrees q.vhosts ref).0 it))
              there))
    | inr other ↦
        rw
          (
            get-put p.lists q.vhosts ref (append_missing (named_vhosts g) (list_at p q.vhosts)),
            other,
          )
          there
  ]
  merged-keeps n v g p ref none h there =
      let other : (p.next == ref) ≡ false = ground (arith, h) in
      rw (get-put p.lists p.next ref (or_root (named_vhosts g)), other) there

  -- The vhosts that are stored for an environment come into its list.
  pub merged-adds :
      (n v : String) (g : Given) (p : Profiles) (ref : ℕ) (old : Option Profile)
      → get p.by_name n ≡ old
      → Refers p n ref
      → contains (named_vhosts g) v ≡ true
      → contains (list_at (merged s n g p old) ref) v ≡ true
  merged-adds n v g p ref none e (profile, there, same) h = cc (there, e)
  merged-adds n v g p ref (some q) e (profile, there, same) h =
      let at : q.vhosts ≡ ref = one_profile p n n ref q refl e (profile, there, same) in
      let its : (q.vhosts == ref) ≡ true = (nat_eq.agrees q.vhosts ref).1 at in
      rw (get-put p.lists q.vhosts ref (append_missing (named_vhosts g) (list_at p q.vhosts)), its)
        (append_missing-adds (named_vhosts g) (list_at p q.vhosts) v h)
