-- ===== src/SignIn/Proxy.antt =====
-- app/auth/proxy.py: the user that an authenticating proxy vouches for, and what signing in reads.
use queuelens.Prelude.{
  String, Bool, true, false, Option, none, some, List, [], ◌∷◌, any, ◌==◌, if◌then◌else◌, nat_eq,
  string_eq, or_else, Dict, get,
}
use queuelens.Failure.{Result, ok, raise, http}
use queuelens.Texts.{strip, split_on}
use queuelens.Accounts.{Role, viewer, operator, admin, Hashes, User, Users}

-- The settings that signing in reads, parsed.
pub record AuthSettings : Type 0 where
  pub auth_enabled : Bool
  pub auth_proxy_header : String
  pub auth_proxy_groups_header : String
  pub auth_proxy_roles : Dict String Role
  pub auth_proxy_default_role : Option Role
  pub trusted_proxy_list : List String
  pub users : Dict String String
  pub admin_username : String

pub record Credentials : Type 0 where
  pub username : String
  pub password : String

-- A request; `peer` is what `KeepPeer` kept of the connection.
pub record Request : Type 0 where
  pub headers : Dict String String
  pub client : Option String
  pub peer : Option String
  pub path : String
  pub credentials : Option Credentials

-- `ip_address` and `in ip_network(…)`: none for a host that is no address.
pub record Outside : Type 0 where
  pub in_network : String → String → Option Bool
  -- the limiter's `sha256` of parts
  pub digest : List String → String
  pub hashes : Hashes

abbrev pub in_some : Option Bool → Bool
in_some (some b) = b
in_some none = false

-- `trusted`: a host that is no address is in no network.
unfoldable pub trusted : Outside → Option String → List String → Bool
trusted out host proxies = any (λ entry. in_some (out.in_network (or_else host "") entry)) proxies

pub record CurrentUser : Type 0 where
  pub username : String
  pub role : Role
  pub must_change_password : Bool

abbrev pub is_admin : Role → Bool
is_admin admin = true
is_admin _ = false

abbrev pub can_operate : Role → Bool
can_operate viewer = false
can_operate _ = true

-- The later of two in `ROLES`.
abbrev pub higher : Role → Role → Role
higher admin r = admin
higher operator admin = admin
higher operator r = operator
higher viewer r = r

abbrev pub max_of : Role → List Role → Role
max_of best [] = best
max_of best (s ∷ later) = max_of (higher best s) later

-- `max(mapped, key=ROLES.index) if mapped else …`
unfoldable pub highest : List Role → Option Role → Option Role
highest [] otherwise = otherwise
highest (r ∷ rest) otherwise = some (max_of r rest)

abbrev onto : Option Role → List Role → List Role
onto none roles = roles
onto (some r) roles = r ∷ roles

-- The roles that the groups of a header map to.
unfoldable pub mapped_roles : Dict String Role → List String → List Role
unfolding strip get
mapped_roles roles [] = []
mapped_roles roles (group ∷ groups) = onto (get roles (strip group)) (mapped_roles roles groups)

abbrev pub or_forbidden : String → Option Role → Result (Option (String × Role))
or_forbidden username none = raise (http 403)
or_forbidden username (some role) = ok (some (username, role))

-- The groups' roles, for a user without a local account.
unfoldable pub role_of_groups : AuthSettings → Request → Option Role
unfolding highest mapped_roles split_on get
role_of_groups s request =
    highest
      (mapped_roles s.auth_proxy_roles (
        split_on b',' (
          if s.auth_proxy_groups_header == ""
          then ""
          else or_else (get request.headers s.auth_proxy_groups_header) "")))
      s.auth_proxy_default_role

abbrev pub vouched_for :
    AuthSettings → Request → String → Option User → Result (Option (String × Role))
vouched_for s request username (some account) =
    if account.active then ok (some (username, account.role)) else raise (http 403)
vouched_for s request username none = or_forbidden username (role_of_groups s request)

-- `proxy_user`
unfoldable pub proxy_user :
    AuthSettings → Outside → Users → Request → Result (Option (String × Role))
unfolding strip get trusted
proxy_user s out users request =
    let username = strip (or_else (get request.headers s.auth_proxy_header) "") in
    if username == ""
    then ok none
    else if trusted out request.peer s.trusted_proxy_list
    then vouched_for s request username (get users username)
    else ok none
