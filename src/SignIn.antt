-- ===== src/SignIn.antt =====
-- app/auth/basic.py and app/auth/proxy.py: who a request acts as. The parsing of network addresses is a
-- parameter, as are the limiter's hash and the clocks. Headers are looked up by name.
pub mod Identity
pub mod Attempts
pub mod RateLimit
mod Proxy
unfoldable pub use Proxy.*
use queuelens.Prelude.{
  ℕ, ◌+◌, ◌-◌, String, Bool, true, false, not, ◌&&◌, ◌||◌, Option, none, some, List, [], ◌∷◌, map,
  any, ◌==◌, if◌then◌else◌, nat_eq, string_eq, leb, ltb, or_else, contains, Dict, get,
}
use queuelens.Failure.{Failure, Result, ok, raise, http, ◌>>=◌}
use queuelens.Texts.{strip, split_on}
use queuelens.Accounts.{
  Role, viewer, operator, admin, Hashes, User, Users, Verified, verify, Failures, count_since,
  add_failures,
}

abbrev pub max_failures : ℕ
max_failures = 10

abbrev pub max_ip_failures : ℕ
max_ip_failures = 50

abbrev pub window_seconds : ℕ
window_seconds = 60

-- `_keys`, the limiter's keys with their limits
abbrev pub keys_of : Outside → String → String → List (String × ℕ)
keys_of out ip username =
    (out.digest (ip ∷ username ∷ []), max_failures) ∷ (out.digest (ip ∷ []), max_ip_failures) ∷ []

-- `_check_rate_limit`: whether a limit is reached.
unfoldable pub limited : List (String × ℕ) → ℕ → Failures → Bool
unfolding count_since
limited keys now rows = any (λ k. leb k.1 (count_since k.0 (now - window_seconds) rows)) keys

-- `_record_failure`
unfoldable pub record_failure : List (String × ℕ) → ℕ → Failures → Failures
unfolding add_failures
record_failure keys now rows = add_failures (map (λ k. k.0) keys) now (now - window_seconds) rows

-- `FIRST_LOGIN_PATHS`
abbrev pub first_login_paths : List String
first_login_paths = "/api/me" ∷ "/api/users/me/password" ∷ "/app" ∷ "/" ∷ []

-- The configured accounts: whether one has the name and the password.
unfoldable pub configured : Dict String String → Credentials → Bool
configured [] c = false
configured ((username, password) ∷ rest) c =
    let others = configured rest c in (c.username == username && c.password == password) || others

-- What a request leaves in the process and the database.
pub record Memory : Type 0 where
  pub failures : Failures
  pub cache : Verified

-- A stored account whose password was verified.
abbrev pub stored_user : Request → String → Option User → Result CurrentUser
stored_user request username none =
    ok (record { username = username; role = operator; must_change_password = false })
stored_user request username (some account) =
    if account.must_change_password && not (contains first_login_paths request.path)
    then raise (http 403)
    else ok (record {
      username = username;
      role = account.role;
      must_change_password = account.must_change_password;
    })

abbrev pub client_ip : Request → String
client_ip request = or_else request.client "unknown"

abbrev pub after_verify :
    AuthSettings
    → Outside
    → Users
    → ℕ
    → Request
    → Credentials
    → Memory
    → Bool × Verified
    → Result CurrentUser × Memory
after_verify s out users now request c m (true, cache) =
    (stored_user request c.username (get users c.username), record m { cache = cache })
after_verify s out users now request c m (false, cache) = (
  raise (http 401),
  record {
    failures = record_failure (keys_of out (client_ip request) c.username) now m.failures;
    cache = cache;
  },
)

abbrev pub with_credentials :
    AuthSettings
    → Outside
    → Users
    → ℕ
    → Request
    → Memory
    → Option Credentials
    → Result CurrentUser × Memory
with_credentials s out users now request m none = (raise (http 401), m)
with_credentials s out users now request m (some c) =
    if configured s.users c
    then (
      ok (record {
        username = c.username;
        role = if c.username == s.admin_username then admin else operator;
        must_change_password = false;
      }),
      m,
    )
    else after_verify s out users now request c m
        (verify out.hashes users now c.username c.password m.cache)

abbrev pub name_of : Option Credentials → String
name_of none = ""
name_of (some c) = c.username

abbrev pub basic :
    AuthSettings → Outside → Users → ℕ → Request → Memory → Result CurrentUser × Memory
basic s out users now request m =
    if limited (keys_of out (client_ip request) (name_of request.credentials)) now m.failures
    then (raise (http 429), m)
    else with_credentials s out users now request m request.credentials

abbrev pub after_proxy :
    AuthSettings
    → Outside
    → Users
    → ℕ
    → Request
    → Memory
    → Result (Option (String × Role))
    → Result CurrentUser × Memory
after_proxy s out users now request m (raise e) = (raise e, m)
after_proxy s out users now request m (ok (some (username, role))) =
    (ok (record { username = username; role = role; must_change_password = false }), m)
after_proxy s out users now request m (ok none) = basic s out users now request m

-- `_authenticate`. One state of the accounts stands for the two reads of them, for the password and for
-- the role: no account changes in between. Names and passwords are ASCII: `compare_digest` raises
-- TypeError on other texts, where these compare.
unfoldable pub authenticate :
    AuthSettings → Outside → Users → ℕ → Request → Memory → Result CurrentUser × Memory
unfolding proxy_user limited configured record_failure
authenticate s out users now request m =
    if s.auth_enabled
    then (if s.auth_proxy_header == ""
        then basic s out users now request m
        else after_proxy s out users now request m (proxy_user s out users request))
    else (ok (record { username = "local"; role = admin; must_change_password = false }), m)

-- `require_operator` and `require_admin`
unfoldable pub require_operator : CurrentUser → Result CurrentUser
require_operator user = if can_operate user.role then ok user else raise (http 403)

unfoldable pub require_admin : CurrentUser → Result CurrentUser
require_admin user = if is_admin user.role then ok user else raise (http 403)
