-- ===== src/Environments/Isolation.antt =====
-- A request reaches only the environment and the vhost that it names (app/application/environments.py).
use queuelens.Prelude.{
  ◌≡◌, refl, sym, ap, subst, inl, inr, String, true, Option, none, some, [], ◌==◌, string_eq,
  pair_eq, Dict, get, Bool-cases,
}
use queuelens.Failure.{Result, ok, raise}
use queuelens.Environments.{
  Base, Bundle, Given, Manager, manager_of, apply_custom, drop, drop_all, stale, sync_custom, scope,
}
use queuelens.Environments.Bundles.{
  Starts, settings_for, stored, ensure_bundle, default_key, as_own, resolved, resolve, watched,
  made, found, monitored, queue_service_for,
}
use queuelens.Environments.Starting.{
  IsFor, Own, put-Own, drop-Own, drop_all-Own, apply_custom-bundles, settings_of-IsFor,
  ensure_bundle-Fits,
}

-- The manager after any requests and changes of the stored environments.
pub data Reachable (s : Base) (quote : String → String) : Manager → Type 0 where
  started : Reachable s quote (manager_of s)
  applied :
      (g : Dict String Given) (m : Manager)
      → Reachable s quote m
      → Reachable s quote (apply_custom s g m)
  dropped : (name : String) (m : Manager) → Reachable s quote m → Reachable s quote (drop name m)
  synced :
      (g : Dict String Given) (m : Manager)
      → Reachable s quote m
      → Reachable s quote (sync_custom s g m)
  asked :
      (starts : Starts) (env vhost : Option String) (m : Manager)
      → Reachable s quote m
      → Reachable s quote (resolve s quote starts env vhost m).1
  watched_ :
      (start : Result (Unit {0})) (env vhost : Option String) (m : Manager)
      → Reachable s quote m
      → Reachable s quote (queue_service_for s quote start env vhost m).1

as_own-Own :
    (answer : Result Bundle × Manager) → Own answer.1.bundles → Own (as_own answer).1.bundles
as_own-Own (raise e, m) own = own
as_own-Own (ok b, m) own = own

resolved-Own :
    (s : Base) (quote : String → String) (starts : Starts) (m : Manager)
    (key : Result (String × String))
    → Own m.bundles
    → Own (resolved s quote starts m key).1.bundles
resolved-Own s quote starts m (raise e) own = own
resolved-Own s quote starts m (ok key) own = elim (Bool-cases (key == default_key s)) [
  | inl default ↦ rw default own
  | inr other ↦
      rw other (
        as_own-Own (ensure_bundle quote starts key m) (ensure_bundle-Fits quote starts key m own).0)
]

watched-Own :
    (start : Result (Unit {0})) (b : Bundle) (m : Manager)
    → Own m.bundles
    → Own (watched start b m).1.bundles
watched-Own (raise e) b m own = own
watched-Own (ok _) b m own = own

made-Own :
    (start : Result (Unit {0})) (key : String × String) (m : Manager) (answer : Result Bundle)
    → ((b : Bundle) → answer ≡ ok b → IsFor key b)
    → Own m.bundles
    → Own (made start key m answer).1.bundles
made-Own start key m (raise e) fits own = own
made-Own start key m (ok b) fits own =
    watched-Own start b (stored key b m) (put-Own m.bundles key b (fits b refl) own)

found-Own :
    (quote : String → String) (start : Result (Unit {0})) (key : String × String) (m : Manager)
    (known : Option Bundle)
    → Own m.bundles
    → Own (found quote start key m known).1.bundles
unfolding settings_for
found-Own quote start key m (some b) own = watched-Own start b m own
found-Own quote start key m none own =
    made-Own start key m (settings_for quote key.0 key.1 m.profiles)
      (λ b h. settings_of-IsFor quote key (get m.profiles.by_name key.0) b h) own

monitored-Own :
    (s : Base) (quote : String → String) (start : Result (Unit {0})) (m : Manager)
    (key : Result (String × String))
    → Own m.bundles
    → Own (monitored s quote start m key).1.bundles
monitored-Own s quote start m (raise e) own = own
monitored-Own s quote start m (ok key) own = elim (Bool-cases (key == default_key s)) [
  | inl default ↦ rw default own
  | inr other ↦ rw other (found-Own quote start key m (get m.bundles key) own)
]

as_own-ok :
    (answer : Result Bundle × Manager) (b : Bundle)
    → (as_own answer).0 ≡ ok (some b)
    → answer.0 ≡ ok b
as_own-ok (raise e, m) b h = cc h
as_own-ok (ok c, m) b h = ap ok (cc h)

no_bundles-Own : Own []
unfolding Own get
no_bundles-Own key b e = cc e

Reachable-Own :
    (s : Base) (quote : String → String) (m : Manager) → Reachable s quote m → Own m.bundles
unfolding get resolve queue_service_for sync_custom
Reachable-Own s quote _ started = no_bundles-Own
Reachable-Own s quote _ (applied g m r) =
    subst Own (sym (apply_custom-bundles s g m)) (Reachable-Own s quote m r)
Reachable-Own s quote _ (dropped name m r) = drop-Own name m (Reachable-Own s quote m r)
Reachable-Own s quote _ (synced g m r) =
    subst Own (sym (apply_custom-bundles s g (drop_all (stale s g m) m)))
      (drop_all-Own (stale s g m) m (Reachable-Own s quote m r))
Reachable-Own s quote _ (asked starts env vhost m r) =
    resolved-Own s quote starts m (scope s env vhost m) (Reachable-Own s quote m r)
Reachable-Own s quote _ (watched_ start env vhost m r) =
    monitored-Own s quote start m (scope s env vhost m) (Reachable-Own s quote m r)

resolved-Fits :
    (s : Base) (quote : String → String) (starts : Starts) (m : Manager)
    (key : Result (String × String)) (b : Bundle)
    → Own m.bundles
    → (resolved s quote starts m key).0 ≡ ok (some b)
    → (k : String × String) × (key ≡ ok k) × IsFor k b × (b.started ≡ true)
resolved-Fits s quote starts m (raise e) b own h = cc h
resolved-Fits s quote starts m (ok key) b own h = elim (Bool-cases (key == default_key s)) [
  | inl default ↦ cc (rw default at h)
  | inr other ↦
      let answer = ensure_bundle quote starts key m in
      let (fits, runs) =
        (ensure_bundle-Fits quote starts key m own).1 b (as_own-ok answer b (rw other at h)) in
      (key, refl, fits, runs)
]

-- A request that is resolved to a bundle gets one whose clients run and that was built for exactly the
-- environment and the vhost that the request's scope names, whatever was requested, added, dropped and
-- synchronised before, and whatever became of starting clients.
pub resolve-IsFor :
    (s : Base) (quote : String → String) (starts : Starts) (env vhost : Option String) (m : Manager)
    (b : Bundle)
    → Reachable s quote m
    → (resolve s quote starts env vhost m).0 ≡ ok (some b)
    → (key : String × String) × (scope s env vhost m ≡ ok key)
      × ((b.environment ≡ key.0) × (b.rabbitmq_vhost ≡ key.1))
      × (b.started ≡ true)
unfolding resolve
resolve-IsFor s quote starts env vhost m b r h =
    resolved-Fits s quote starts m (scope s env vhost m) b (Reachable-Own s quote m r) h
