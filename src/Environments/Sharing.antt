-- ===== src/Environments/Sharing.antt =====
-- Environments that share a list of vhosts with the default one (app/application/environments.py).
use queuelens.Prelude.{
  ℕ, ◌<◌, ◌≡◌, refl, ◌∙◌, ap, subst, inl, inr, String, true, false, not, none, some, List, [], ◌∷◌,
  ◌==◌, nat_eq, string_eq, contains, keys, get, distinct, Dict, Member, Bool-cases, arith,
}
use queuelens.Texts.{strip}
use queuelens.Failure.{ok}
use queuelens.Environments.{
  Base, Profiles, Given, Manager, load_from, load_profiles, manager_of, apply_custom, named_vhosts,
  default_profile, list_at, scope,
}
use queuelens.Environments.Lists.{
  Refers, contains-filter, load_from-grows, load_from-other, load_from-Refers, merged-Refers,
  merged-grows, merged-keeps, merged-adds,
}

module _ (s : Base) where
  -- What the default environment accepts stays accepted.
  apply_custom-keeps :
      (stored : Dict String Given) (m : Manager) (v : String) (ref : ℕ)
      → Refers m.profiles s.environment ref
      → ref < m.profiles.next
      → contains (list_at m.profiles ref) v ≡ true
      → Refers (apply_custom s stored m).profiles s.environment ref
        × (contains (list_at (apply_custom s stored m).profiles ref) v ≡ true)
  unfolding apply_custom
  apply_custom-keeps [] m v ref own below there = (own, there)
  apply_custom-keeps ((n, g) ∷ rest) m v ref own below there =
      let p = m.profiles in
      let old = get p.by_name n in
      apply_custom-keeps rest _ v ref (merged-Refers s n s.environment g p ref old refl own)
        (merged-grows s n g p ref old below) (merged-keeps s n v g p ref old below there)

  apply_custom-adds :
      (stored : Dict String Given) (m : Manager) (name v : String) (g : Given) (ref : ℕ)
      → Member (name, g) stored
      → contains (named_vhosts g) v ≡ true
      → Refers m.profiles name ref
      → Refers m.profiles s.environment ref
      → ref < m.profiles.next
      → Refers (apply_custom s stored m).profiles s.environment ref
        × (contains (list_at (apply_custom s stored m).profiles ref) v ≡ true)
  unfolding apply_custom
  apply_custom-adds [] m name v g ref member has its own below = elim member [ ]
  apply_custom-adds ((n, f) ∷ rest) m name v g ref (inl here) has its own below =
      let p = m.profiles in
      let old = get p.by_name n in
      let named : name ≡ n = ap (λ e. e.0) here in
      let given : g ≡ f = ap (λ e. e.1) here in
      apply_custom-keeps rest _ v ref (merged-Refers s n s.environment f p ref old refl own)
        (merged-grows s n f p ref old below)
        (merged-adds s n v f p ref old refl (subst (λ k. Refers p k ref) named its)
          (subst (λ e. contains (named_vhosts e) v ≡ true) given has))
  apply_custom-adds ((n, f) ∷ rest) m name v g ref (inr later) has its own below =
      let p = m.profiles in
      let old = get p.by_name n in
      apply_custom-adds rest _ name v g ref later has (merged-Refers s n name f p ref old refl its)
        (merged-Refers s n s.environment f p ref old refl own) (merged-grows s n f p ref old below)

  not_blank : (v : String) → (strip v == "") ≡ false → (v == "") ≡ false
  unfolding strip
  not_blank v h = elim (Bool-cases (v == "")) [
    | inr named ↦ named
    | inl empty ↦ cc (subst (λ w. (strip w == "") ≡ false) ((string_eq.agrees v "").0 empty) h)
  ]

-- An environment that is configured without vhosts has the list of the default environment, where that
-- is not configured itself: when the stored environments are applied at the start, a vhost that one of
-- them gives for it and that is not blank is accepted for the default environment.
pub scope-shared :
    (s : Base) (stored : Dict String Given) (name v : String) (g custom : Given)
    (vhosts : List String)
    → distinct s.environments ≡ true
    → contains (keys s.environments) s.environment ≡ false
    → get s.environments name ≡ some g
    → g.vhosts ≡ none
    → Member (name, custom) stored
    → custom.vhosts ≡ some vhosts
    → contains vhosts v ≡ true
    → (strip v == "") ≡ false
    → scope s none (some v) (apply_custom s stored (manager_of s)) ≡ ok (s.environment, v)
unfolding scope load_profiles
scope-shared s stored name v g custom vhosts fresh own there bare member given has kept =
    let start : Profiles = record {
      by_name = (s.environment, default_profile s) ∷ [];
      lists = (0, s.rabbitmq_vhost ∷ []) ∷ [];
      next = 1;
    } in
    let here : get start.by_name s.environment ≡ some (default_profile s) =
      ground (arith, string_eq.agrees s.environment s.environment) in
    let its =
      load_from-Refers s s.environments start name g (default_profile s) fresh own there bare
        here in
    let default : Refers (load_from s s.environments start) s.environment 0 =
      (default_profile s, load_from-other s s.environments start s.environment own ∙ here, refl) in
    let named : contains (named_vhosts custom) v ≡ true =
      rw given (contains-filter (λ w. not (strip w == "")) vhosts v (rw kept refl) has) in
    let ((profile, found, ref), accepted) =
      apply_custom-adds s stored (manager_of s) name v custom 0 member named its default
        (load_from-grows s s.environments start 0 (omega arith)) in
    rw (found, ref, not_blank s v kept, accepted) refl
