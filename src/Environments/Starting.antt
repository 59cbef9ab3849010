-- ===== src/Environments/Starting.antt =====
-- A bundle is started for what it is kept under (app/application/environments.py).
use queuelens.Prelude.{
  ◌≡◌, refl, sym, ◌∙◌, ap, subst, inl, inr, String, Bool, true, false, not, Option, none, some,
  List, [], ◌∷◌, ◌==◌, string_eq, pair_eq, pair_beq_iff, filter, Dict, get, put, get-put,
  Bool-cases,
}
use queuelens.Failure.{Result, ok, raise}
use queuelens.Broker.Keeps.{ok-injective}
use queuelens.Environments.{Base, Bundle, Profile, Given, Manager, apply_custom, drop, drop_all}
use queuelens.Environments.Bundles.{
  Starts, settings_of, settings_for, stored, begun, unless_started, running, built, ensured,
  ensure_bundle,
}

-- A bundle is for the environment and the vhost that it is kept under.
abbrev pub IsFor : String × String → Bundle → Type 0
IsFor key b = (b.environment ≡ key.0) × (b.rabbitmq_vhost ≡ key.1)

abbrev pub Bundles : Type 0
Bundles = Dict (String × String) Bundle

unfoldable pub Own : Bundles → Type 0
Own d = (key : String × String) (b : Bundle) → get d key ≡ some b → IsFor key b

pub put-Own :
    (d : Bundles) (key : String × String) (b : Bundle) → IsFor key b → Own d → Own (put d key b)
unfolding Own
put-Own d key b fits own other c e = elim (Bool-cases (key == other)) [
  | inr differs ↦ own other c (sym (rw differs at (get-put d key other b)) ∙ e)
  | inl same ↦
      let found_ : some b ≡ some c = sym (rw same at (get-put d key other b)) ∙ e in
      let here : b ≡ c = cc found_ in
      subst (λ k. IsFor k c) ((pair_beq_iff key other).0 same) (subst (λ x. IsFor key x) here fits)
]

-- Entries that are kept by their key.
module _ (keep : String × String → Bool) where
  get-filter_gone :
      (d : Bundles) (key : String × String)
      → keep key ≡ false
      → get (filter (λ e. keep e.0) d) key ≡ none
  unfolding get
  get-filter_gone [] key gone = refl
  get-filter_gone ((j, u) ∷ d) key gone = elim (Bool-cases (keep j)) [
    | inr left_out ↦ rw left_out (get-filter_gone d key gone)
    | inl kept ↦ elim (Bool-cases (j == key)) [
      | inr differs ↦ rw (kept, differs) (get-filter_gone d key gone)
      | inl same ↦ cc (subst (λ k. keep k ≡ true) ((pair_beq_iff j key).0 same) kept, gone)
    ]
  ]

  get-filter_found :
      (d : Bundles) (key : String × String) (b : Bundle)
      → get (filter (λ e. keep e.0) d) key ≡ some b
      → get d key ≡ some b
  unfolding get
  get-filter_found [] key b h = cc h
  get-filter_found ((j, u) ∷ d) key b h = elim (Bool-cases (j == key)) [
    | inr differs ↦ elim (Bool-cases (keep j)) [
      | inl kept ↦ rw differs (get-filter_found d key b (rw (kept, differs) at h))
      | inr left_out ↦ rw differs (get-filter_found d key b (rw left_out at h))
    ]
    | inl same ↦ elim (Bool-cases (keep j)) [
      | inl kept ↦ rw same (rw (kept, same) at h)
      | inr left_out ↦
          let gone =
            get-filter_gone d key
              (subst (λ k. keep k ≡ false) ((pair_beq_iff j key).0 same) left_out) in
          cc (gone, rw left_out at h)
    ]
  ]

pub drop-Own : (name : String) (m : Manager) → Own m.bundles → Own (drop name m).bundles
unfolding drop Own
drop-Own name m own key b e =
    own key b (get-filter_found (λ k. not (k.0 == name)) m.bundles key b e)

pub drop_all-Own :
    (names : List String) (m : Manager) → Own m.bundles → Own (drop_all names m).bundles
unfolding drop_all
drop_all-Own [] m own = own
drop_all-Own (name ∷ rest) m own = drop_all-Own rest (drop name m) (drop-Own name m own)

pub apply_custom-bundles :
    (s : Base) (g : Dict String Given) (m : Manager) → (apply_custom s g m).bundles ≡ m.bundles
unfolding apply_custom
apply_custom-bundles s [] m = refl
apply_custom-bundles s ((name, g) ∷ rest) m = apply_custom-bundles s rest _

-- What starting a bundle leaves, and what it answers.
abbrev pub Fits : String × String → Result Bundle × Manager → Type 0
Fits key (answer, m) =
    Own m.bundles × ((b : Bundle) → answer ≡ ok b → IsFor key b × (b.started ≡ true))

begun-Fits :
    (management connection : Result (Unit {0})) (key : String × String) (b : Bundle) (m : Manager)
    → IsFor key b
    → Own m.bundles
    → Fits key (begun management connection key b m)
begun-Fits (raise e) connection key b m fits own = (own, λ c h. cc h)
begun-Fits (ok _) (raise e) key b m fits own = (own, λ c h. cc h)
begun-Fits (ok _) (ok _) key b m fits own = (
  put-Own m.bundles key (record b { started = true }) fits own,
  λ c h.
      let same : record b { started = true } ≡ c = ok-injective h in
      subst (λ x. IsFor key x × (x.started ≡ true)) same (fits, refl),
)

unless_started-Fits :
    (on : Bool) (starts : Starts) (key : String × String) (b : Bundle) (m : Manager)
    → b.started ≡ on
    → IsFor key b
    → Own m.bundles
    → Fits key (unless_started on starts key b m)
unless_started-Fits true starts key b m runs fits own =
    (own, λ c h. subst (λ x. IsFor key x × (x.started ≡ true)) (ok-injective h) (fits, runs))
unless_started-Fits false starts key b m idle fits own =
    begun-Fits starts.management starts.connection key b m fits own

running-Fits :
    (starts : Starts) (key : String × String) (b : Bundle) (m : Manager)
    → IsFor key b
    → Own m.bundles
    → Fits key (running starts key b m)
running-Fits starts key b m fits own = unless_started-Fits b.started starts key b m refl fits own

pub settings_of-IsFor :
    (quote : String → String) (key : String × String) (p : Option Profile) (b : Bundle)
    → settings_of quote key.0 key.1 p ≡ ok b
    → IsFor key b
settings_of-IsFor quote key none b h = cc h
settings_of-IsFor quote key (some p) b h =
    let same = ok-injective h in
    (ap (λ x. x.environment) (sym same), ap (λ x. x.rabbitmq_vhost) (sym same))

built-Fits :
    (starts : Starts) (key : String × String) (m : Manager) (answer : Result Bundle)
    → ((b : Bundle) → answer ≡ ok b → IsFor key b)
    → Own m.bundles
    → Fits key (built starts key m answer)
built-Fits starts key m (raise e) fits own = (own, λ c h. cc h)
built-Fits starts key m (ok b) fits own =
    running-Fits starts key b (stored key b m) (fits b refl)
      (put-Own m.bundles key b (fits b refl) own)

ensured-Fits :
    (quote : String → String) (starts : Starts) (key : String × String) (m : Manager)
    (known : Option Bundle)
    → ((b : Bundle) → known ≡ some b → IsFor key b)
    → Own m.bundles
    → Fits key (ensured quote starts key m known)
unfolding settings_for
ensured-Fits quote starts key m (some b) fits own = running-Fits starts key b m (fits b refl) own
ensured-Fits quote starts key m none fits own =
    built-Fits starts key m (settings_for quote key.0 key.1 m.profiles)
      (λ b h. settings_of-IsFor quote key (get m.profiles.by_name key.0) b h) own

pub ensure_bundle-Fits :
    (quote : String → String) (starts : Starts) (key : String × String) (m : Manager)
    → Own m.bundles
    → Fits key (ensure_bundle quote starts key m)
unfolding ensure_bundle Own
ensure_bundle-Fits quote starts key m own =
    ensured-Fits quote starts key m (get m.bundles key) (λ b e. own key b e) own
