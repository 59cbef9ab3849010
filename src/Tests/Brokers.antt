-- ===== src/Tests/Brokers.antt =====
-- Environments: one more is configured, without vhosts of its own, and one is stored.
use queuelens.Prelude.{◌≡◌, refl, inl, String, true, none, some, [], ◌∷◌, string_eq, pair_eq, get}
use queuelens.Failure.{ok}
use queuelens.Texts.{strip}
use queuelens.Environments.{
  Base, Bundle, Given, Manager, manager_of, apply_custom, scope, load_profiles,
}
use queuelens.Environments.Bundles.{Starts, resolve}
use queuelens.Environments.Isolation.{started, applied, resolve-IsFor}
use queuelens.Environments.Sharing.{scope-shared}

-- A stored environment that gives vhosts only.
abbrev one_vhost : String → Given
one_vhost v = record {
  rabbitmq_url = none;
  management_url = none;
  management_username = none;
  management_password = none;
  vhosts = some (v ∷ []);
}

abbrev nothing_given : Given
nothing_given = record {
  rabbitmq_url = some "amqp://staging/";
  management_url = none;
  management_username = none;
  management_password = none;
  vhosts = none;
}

abbrev base : Base
base = record {
  environment = "prod";
  rabbitmq_url = "amqp://broker/";
  rabbitmq_management_url = "http://broker";
  rabbitmq_management_username = "guest";
  rabbitmq_management_password = "guest";
  rabbitmq_vhost = "orders";
  environments = ("staging", nothing_given) ∷ [];
}

abbrev with_test : Manager
with_test = apply_custom base (("test", one_vhost "billing") ∷ []) (manager_of base)

abbrev starts : Starts
starts = record { management = ok tt; connection = ok tt }

abbrev bundle : Bundle
bundle = record {
  environment = "test";
  rabbitmq_url = "amqp://broker/billing";
  rabbitmq_management_url = "http://broker";
  rabbitmq_management_username = "guest";
  rabbitmq_management_password = "guest";
  rabbitmq_vhost = "billing";
  started = true;
}

resolves : (resolve base (λ v. v) starts (some "test") none with_test).0 ≡ ok (some bundle)
unfolding resolve apply_custom load_profiles
resolves = refl

resolve-IsFor_example :
    (key : String × String) × (scope base (some "test") none with_test ≡ ok key)
    × (("test" ≡ key.0) × ("billing" ≡ key.1))
    × (true ≡ true)
resolve-IsFor_example =
    resolve-IsFor base (λ v. v) starts (some "test") none with_test bundle
      (applied (("test", one_vhost "billing") ∷ []) (manager_of base) started) resolves

-- "/" is stored for staging, and the default environment takes it.
scope-shared_example :
    scope base none
      (some "/")
      (apply_custom base (("staging", one_vhost "/") ∷ []) (manager_of base))
    ≡ ok ("prod", "/")
unfolding strip get
scope-shared_example =
    scope-shared base (("staging", one_vhost "/") ∷ []) "staging" "/" nothing_given (one_vhost "/")
      ("/" ∷ []) refl refl refl refl (inl refl) refl refl refl
