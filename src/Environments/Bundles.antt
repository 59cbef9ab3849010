-- ===== src/Environments/Bundles.antt =====
-- The bundles of app/application/environments.py: built for one environment and vhost, started on first use.
use Prim.Native.Char.{code}
use Prim.Native.String.{◌++◌ as joined}
use queuelens.Prelude.{
  ℕ, suc, String, Bool, true, false, ◌&&◌, Option, none, some, ◌==◌, if◌then◌else◌, nat_eq,
  string_eq, pair_eq, ltb, or_else, get, put,
}
use queuelens.Failure.{Result, ok, raise, key_error}
use queuelens.Environments.{Base, Bundle, Profile, Profiles, Manager, scope}

abbrev slashes : String → ℕ
slashes String.[] = 0
slashes (String.◌∷◌ c s) = let rest = slashes s in if code c == b'/' then suc rest else rest

-- `rsplit("/", 1)[0]`, where there is a slash
abbrev before_last : String → Option String
before_last String.[] = none
before_last (String.◌∷◌ c s) =
    let rest = before_last s in
    elim rest [
      | some head ↦ some (String.◌∷◌ c head)
      | none ↦ if code c == b'/' then some String.[] else none
    ]

-- `rstrip("/")`
abbrev without_slashes : String → String
without_slashes String.[] = String.[]
without_slashes (String.◌∷◌ c s) =
    let rest = without_slashes s in
    if code c == b'/' && rest == "" then String.[] else String.◌∷◌ c rest

-- `_amqp_url_for_vhost`
unfoldable pub amqp_url_for_vhost : (String → String) → String → String → String
amqp_url_for_vhost quote url vhost =
    joined (if ltb 2 (slashes url) then or_else (before_last url) url else without_slashes url)
      (joined "/" (if vhost == "/" then "" else quote vhost))

-- `_settings_for`
abbrev pub settings_of : (String → String) → String → String → Option Profile → Result Bundle
settings_of quote env vhost none = raise key_error
settings_of quote env vhost (some p) = ok (record {
  environment = env;
  rabbitmq_url = amqp_url_for_vhost quote p.rabbitmq_url vhost;
  rabbitmq_management_url = p.management_url;
  rabbitmq_management_username = p.management_username;
  rabbitmq_management_password = p.management_password;
  rabbitmq_vhost = vhost;
  started = false;
})

unfoldable pub settings_for : (String → String) → String → String → Profiles → Result Bundle
unfolding get amqp_url_for_vhost
settings_for quote env vhost p = settings_of quote env vhost (get p.by_name env)

-- How starting the two clients ends.
pub record Starts : Type 0 where
  pub management : Result (Unit {0})
  pub connection : Result (Unit {0})

abbrev pub stored : String × String → Bundle → Manager → Manager
stored key b m = record m { bundles = put m.bundles key b }

-- Its clients are started one after the other.
abbrev pub begun :
    Result (Unit {0})
    → Result (Unit {0})
    → String × String
    → Bundle
    → Manager
    → Result Bundle × Manager
begun (raise e) connection key b m = (raise e, m)
begun (ok _) (raise e) key b m = (raise e, m)
begun (ok _) (ok _) key b m =
    (ok (record b { started = true }), stored key (record b { started = true }) m)

-- `if not bundle.started`
abbrev pub unless_started :
    Bool → Starts → String × String → Bundle → Manager → Result Bundle × Manager
unless_started true starts key b m = (ok b, m)
unless_started false starts key b m = begun starts.management starts.connection key b m

abbrev pub running : Starts → String × String → Bundle → Manager → Result Bundle × Manager
running starts key b m = unless_started b.started starts key b m

abbrev pub built : Starts → String × String → Manager → Result Bundle → Result Bundle × Manager
built starts key m (raise e) = (raise e, m)
built starts key m (ok b) = running starts key b (stored key b m)

-- `_ensure_bundle`
abbrev pub ensured :
    (String → String) → Starts → String × String → Manager → Option Bundle → Result Bundle × Manager
ensured quote starts key m (some b) = running starts key b m
ensured quote starts key m none = built starts key m (settings_for quote key.0 key.1 m.profiles)

unfoldable pub ensure_bundle :
    (String → String) → Starts → String × String → Manager → Result Bundle × Manager
unfolding get put settings_for
ensure_bundle quote starts key m = ensured quote starts key m (get m.bundles key)

abbrev pub default_key : Base → String × String
default_key s = (s.environment, s.rabbitmq_vhost)

abbrev pub as_own : Result Bundle × Manager → Result (Option Bundle) × Manager
as_own (raise e, m) = (raise e, m)
as_own (ok b, m) = (ok (some b), m)

abbrev pub resolved :
    Base
    → (String → String)
    → Starts
    → Manager
    → Result (String × String)
    → Result (Option Bundle) × Manager
resolved s quote starts m (raise e) = (raise e, m)
resolved s quote starts m (ok key) =
    if key == default_key s then (ok none, m) else as_own (ensure_bundle quote starts key m)

-- `resolve`: none stands for the default's services, on `app.state`.
unfoldable pub resolve :
    Base
    → (String → String)
    → Starts
    → Option String
    → Option String
    → Manager
    → Result (Option Bundle) × Manager
unfolding scope ensure_bundle
resolve s quote starts env vhost m = resolved s quote starts m (scope s env vhost m)

-- `queue_service_for` starts only the management client.
abbrev pub watched : Result (Unit {0}) → Bundle → Manager → Result (Option Bundle) × Manager
watched (raise e) b m = (raise e, m)
watched (ok _) b m = (ok (some b), m)

abbrev pub made :
    Result (Unit {0}) → String × String → Manager → Result Bundle → Result (Option Bundle) × Manager
made start key m (raise e) = (raise e, m)
made start key m (ok b) = watched start b (stored key b m)

abbrev pub found :
    (String → String)
    → Result (Unit {0})
    → String × String
    → Manager
    → Option Bundle
    → Result (Option Bundle) × Manager
found quote start key m (some b) = watched start b m
found quote start key m none = made start key m (settings_for quote key.0 key.1 m.profiles)

abbrev pub monitored :
    Base
    → (String → String)
    → Result (Unit {0})
    → Manager
    → Result (String × String)
    → Result (Option Bundle) × Manager
monitored s quote start m (raise e) = (raise e, m)
monitored s quote start m (ok key) =
    if key == default_key s then (ok none, m) else found quote start key m (get m.bundles key)

unfoldable pub queue_service_for :
    Base
    → (String → String)
    → Result (Unit {0})
    → Option String
    → Option String
    → Manager
    → Result (Option Bundle) × Manager
unfolding scope get put settings_for
queue_service_for s quote start env vhost m = monitored s quote start m (scope s env vhost m)
