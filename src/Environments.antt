-- ===== src/Environments.antt =====
-- app/application/environments.py: the brokers that requests can name. A profile keeps its vhosts in a
-- list object, which profiles can share: a profile holds a reference, and the lists stand in a store.
-- Starting a bundle's clients is an argument, by how it ends; so is `urllib.parse.quote`.
pub mod Bundles
pub mod Starting
pub mod Isolation
pub mod Lists
pub mod Sharing
use Prim.Native.Char.{code}
use Prim.Native.String.{◌++◌ as joined}
use queuelens.Prelude.{
  ℕ, suc, ◌+◌, String, Bool, true, false, not, ◌&&◌, Option, none, some, List, [], ◌∷◌, ◌++◌, map,
  ◌==◌, if◌then◌else◌, nat_eq, string_eq, pair_eq, ltb, filter, contains, or_else, Dict, keys, get,
  put, remove,
}
use queuelens.Failure.{Failure, Result, ok, raise, key_error, lookup_error}
use queuelens.Texts.{strip}

-- A profile's fields; `vhosts` is the reference of a list.
pub record Profile : Type 0 where
  pub rabbitmq_url : String
  pub management_url : String
  pub management_username : String
  pub management_password : String
  pub vhosts : ℕ

-- An environment in the configuration or in the settings store: the fields that it gives.
pub record Given : Type 0 where
  pub rabbitmq_url : Option String
  pub management_url : Option String
  pub management_username : Option String
  pub management_password : Option String
  pub vhosts : Option (List String)

-- The base settings that the manager reads.
pub record Base : Type 0 where
  pub environment : String
  pub rabbitmq_url : String
  pub rabbitmq_management_url : String
  pub rabbitmq_management_username : String
  pub rabbitmq_management_password : String
  pub rabbitmq_vhost : String
  pub environments : Dict String Given

-- The settings that a bundle is built from, and whether its clients run.
pub record Bundle : Type 0 where
  pub environment : String
  pub rabbitmq_url : String
  pub rabbitmq_management_url : String
  pub rabbitmq_management_username : String
  pub rabbitmq_management_password : String
  pub rabbitmq_vhost : String
  pub started : Bool

-- The profiles and the lists that they refer to.
pub record Profiles : Type 0 where
  pub by_name : Dict String Profile
  pub lists : Dict ℕ (List String)
  pub next : ℕ

pub record Manager : Type 0 where
  pub profiles : Profiles
  pub custom : List String
  pub bundles : Dict (String × String) Bundle

abbrev pub list_at : Profiles → ℕ → List String
list_at p ref = or_else (get p.lists ref) []

-- A new list object.
abbrev pub with_list : Profiles → List String → Profiles
with_list p vs = record p { lists = put p.lists p.next vs; next = suc p.next }

abbrev pub default_profile : Base → Profile
default_profile s = record {
  rabbitmq_url = s.rabbitmq_url;
  management_url = s.rabbitmq_management_url;
  management_username = s.rabbitmq_management_username;
  management_password = s.rabbitmq_management_password;
  vhosts = 0;
}

-- `dict.update` by the fields that are given
abbrev pub updated : Profile → Given → Profile
updated p g = record p {
  rabbitmq_url = or_else g.rabbitmq_url p.rabbitmq_url;
  management_url = or_else g.management_url p.management_url;
  management_username = or_else g.management_username p.management_username;
  management_password = or_else g.management_password p.management_password;
}

-- One environment of the configuration. Without vhosts of its own it has the default's list object.
abbrev pub configured : String → Given → Profile → Profiles → Option (List String) → Profiles
configured name g from p none = record p { by_name = put p.by_name name (updated from g) }
configured name g from p (some vs) =
    let q = with_list p vs in
    record q { by_name = put q.by_name name (record (updated from g) { vhosts = p.next }) }

unfoldable pub load_from : Base → Dict String Given → Profiles → Profiles
unfolding get put
load_from s [] p = p
load_from s ((name, g) ∷ rest) p =
    load_from s rest
      (configured name g (or_else (get p.by_name s.environment) (default_profile s)) p g.vhosts)

-- `_load_profiles`
unfoldable pub load_profiles : Base → Profiles
unfolding load_from
load_profiles s = load_from s s.environments (record {
  by_name = (s.environment, default_profile s) ∷ [];
  lists = (0, s.rabbitmq_vhost ∷ []) ∷ [];
  next = 1;
})

abbrev pub manager_of : Base → Manager
manager_of s = record { profiles = load_profiles s; custom = []; bundles = [] }

-- `custom.get(k)`, where a blank counts as missing
abbrev pub given : Option String → Option String
given none = none
given (some v) = if v == "" then none else some v

abbrev pub overrides : Given → Given
overrides g = record g {
  rabbitmq_url = given g.rabbitmq_url;
  management_url = given g.management_url;
  management_username = given g.management_username;
  management_password = given g.management_password;
}

-- `append`, for the vhosts that the list lacks
unfoldable pub append_missing : List String → List String → List String
append_missing [] have = have
append_missing (v ∷ vs) have = append_missing vs (if contains have v then have else have ++ v ∷ [])

abbrev pub named_vhosts : Given → List String
named_vhosts g = filter (λ v. not (strip v == "")) (or_else g.vhosts [])

abbrev pub or_root : List String → List String
or_root [] = "/" ∷ []
or_root (v ∷ vs) = v ∷ vs

-- A stored environment that is known, or a new one.
abbrev pub merged : Base → String → Given → Profiles → Option Profile → Profiles
merged s name g p (some profile) = record p {
  by_name = put p.by_name name (updated profile (overrides g));
  lists = put p.lists profile.vhosts (append_missing (named_vhosts g) (list_at p profile.vhosts));
}
merged s name g p none =
    let q = with_list p (or_root (named_vhosts g)) in
    record q {
      by_name =
          put q.by_name name
            (record (updated (or_else (get p.by_name s.environment) (default_profile s))
              (overrides g)) { vhosts = p.next });
    }

abbrev pub also : String → List String → List String
also name names = if contains names name then names else name ∷ names

-- `apply_custom`
unfoldable pub apply_custom : Base → Dict String Given → Manager → Manager
unfolding get put strip append_missing
apply_custom s [] m = m
apply_custom s ((name, g) ∷ rest) m = apply_custom s rest (record m {
  profiles = merged s name g m.profiles (get m.profiles.by_name name);
  custom = if name == s.environment then m.custom else also name m.custom;
})

-- Dropping an environment: its profile, and its bundles, which are stopped.
unfoldable pub drop : String → Manager → Manager
unfolding remove
drop name m = record m {
  custom = filter (λ n. not (n == name)) m.custom;
  profiles = record m.profiles { by_name = remove m.profiles.by_name name };
  bundles = filter (λ b. not (b.0.0 == name)) m.bundles;
}

-- `remove_custom`
unfoldable pub remove_custom : String → Manager → Result Manager
unfolding drop
remove_custom name m = if contains m.custom name then ok (drop name m) else raise key_error

unfoldable pub drop_all : List String → Manager → Manager
unfolding drop
drop_all [] m = m
drop_all (name ∷ rest) m = drop_all rest (drop name m)

-- The environments that are stored no more and are not in the configuration.
abbrev pub stale : Base → Dict String Given → Manager → List String
stale s stored m =
    filter (λ n. not (contains (keys stored) n) && not (contains (keys s.environments) n)) m.custom

-- `sync_custom`
unfoldable pub sync_custom : Base → Dict String Given → Manager → Manager
unfolding drop_all apply_custom
sync_custom s stored m = apply_custom s stored (drop_all (stale s stored m) m)

abbrev pub nonblank_or : Option String → String → String
nonblank_or none d = d
nonblank_or (some v) d = if v == "" then d else v

-- The vhost that a blank one means; an environment without vhosts has no first.
abbrev pub first_of : List String → Result String
first_of [] = raise lookup_error
first_of (v ∷ vs) = ok v

abbrev pub chosen : Base → String → List String → Option String → Result String
chosen s env vhosts none = if env == s.environment then ok s.rabbitmq_vhost else first_of vhosts
chosen s env vhosts (some v) =
    if v == ""
    then (if env == s.environment then ok s.rabbitmq_vhost else first_of vhosts)
    else ok v

abbrev pub known : String → List String → Result String → Result (String × String)
known env vhosts (raise e) = raise e
known env vhosts (ok v) = if contains vhosts v then ok (env, v) else raise key_error

abbrev pub scope_in :
    Base → Profiles → String → Option String → Option Profile → Result (String × String)
scope_in s p env vhost none = raise key_error
scope_in s p env vhost (some profile) =
    known env (list_at p profile.vhosts) (chosen s env (list_at p profile.vhosts) vhost)

-- `scope`
unfoldable pub scope : Base → Option String → Option String → Manager → Result (String × String)
unfolding get
scope s env vhost m =
    scope_in s m.profiles (nonblank_or env s.environment) vhost
      (get m.profiles.by_name (nonblank_or env s.environment))
