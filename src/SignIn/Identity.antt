-- ===== src/SignIn/Identity.antt =====
-- Who a request that was let in acts as (app/auth/basic.py, app/auth/proxy.py).
use queuelens.Prelude.{
  ℕ, ◌≡◌, refl, ap, subst, ◌∙◌, ◌⊎◌, inl, inr, String, Bool, true, false, not, ◌&&◌, ◌||◌, Option,
  none, some, ◌==◌, if◌then◌else◌, string_eq, or_else, contains, get, arith, Bool-cases, sym,
  Option-cases,
}
use queuelens.Failure.{Result, ok, raise}
use queuelens.Texts.{strip}
use queuelens.Accounts.{Role, operator, admin, User, Users, Verified, verify, verify_password}
use queuelens.Accounts.Cache.{Separates, Reachable, answer, verify-answer}
use queuelens.SignIn.{
  AuthSettings, Credentials, Request, Outside, CurrentUser, Memory, trusted, proxy_user,
  vouched_for, role_of_groups, configured, stored_user, after_verify, with_credentials, basic,
  after_proxy, authenticate, first_login_paths, limited, keys_of, client_ip, name_of,
}

-- The role that the proxy's word gives a name.
abbrev pub proxy_role : AuthSettings → Request → Option User → Option Role
proxy_role s request (some row) = if row.active then some row.role else none
proxy_role s request none = role_of_groups s request

-- The proxy named the user, on a connection of its own.
abbrev pub Vouched : AuthSettings → Outside → Users → Request → CurrentUser → Type 0
Vouched s out users request user =
    (trusted out request.peer s.trusted_proxy_list ≡ true)
    × (strip (or_else (get request.headers s.auth_proxy_header) "") ≡ user.username)
    × (proxy_role s request (get users user.username) ≡ some user.role)

-- The request gave the name and the password of a configured account.
abbrev pub Configured : AuthSettings → Request → CurrentUser → Type 0
Configured s request user =
    (c : Credentials) × (request.credentials ≡ some c)
    × (configured s.users c ≡ true)
    × (user.username ≡ c.username)
    × (user.role ≡ (if c.username == s.admin_username then admin else operator))

-- The request gave the name and the password of a stored account that is active, and one that must
-- change its password went where that is done.
abbrev pub Stored : Outside → Users → Request → CurrentUser → Type 0
Stored out users request user =
    (c : Credentials) × (row : User) × (request.credentials ≡ some c)
    × (get users c.username ≡ some row)
    × ((row.active && verify_password out.hashes c.password row.password_hash) ≡ true)
    × (user.username ≡ c.username)
    × (user.role ≡ row.role)
    × ((not row.must_change_password || contains first_login_paths request.path) ≡ true)

abbrev pub Known : AuthSettings → Outside → Users → Request → CurrentUser → Type 0
Known s out users request user = Configured s request user ⊎ Stored out users request user

stored_user-row :
    (request : Request) (username : String) (row : User) (user : CurrentUser)
    → stored_user request username (some row) ≡ ok user
    → (user.username ≡ username)
      × (user.role ≡ row.role)
      × ((not row.must_change_password || contains first_login_paths request.path) ≡ true)
stored_user-row request username row user h = ground (arith, h)

-- A request whose password was checked.
after_verify-Stored :
    (s : AuthSettings) (out : Outside) (users : Users) (now : ℕ) (request : Request) (m : Memory)
    (user : CurrentUser) (c : Credentials) (checked : Bool × Verified)
    → request.credentials ≡ some c
    → checked.0 ≡ answer out.hashes c.password (get users c.username)
    → (after_verify s out users now request c m checked).0 ≡ ok user
    → Stored out users request user
after_verify-Stored s out users now request m user c (false, cache) given same h = cc h
after_verify-Stored s out users now request m user c (true, cache) given same h =
    elim (Option-cases (get users c.username)) [
      | inl missing ↦ cc (rw missing at same)
      | inr (row, there) ↦
          let good : answer out.hashes c.password (some row) ≡ true = sym (rw there at same) in
          let at_row : stored_user request c.username (some row) ≡ ok user = rw there at h in
          let (named, as_row, right_path) = stored_user-row request c.username row user at_row in
          (c, row, given, there, good, named, as_row, right_path)
    ]

with_credentials-Known :
    (s : AuthSettings) (out : Outside) (users : Users) (now : ℕ) (request : Request) (m : Memory)
    (user : CurrentUser) (credentials : Option Credentials)
    → Separates out.hashes
    → Reachable out.hashes m.cache
    → request.credentials ≡ credentials
    → (with_credentials s out users now request m credentials).0 ≡ ok user
    → Known s out users request user
with_credentials-Known s out users now request m user none apart r given h = cc h
with_credentials-Known s out users now request m user (some c) apart r given h =
    elim (Bool-cases (configured s.users c)) [
      | inl match ↦ inl (c, given, match, ground (arith, h), ground (arith, h))
      | inr unknown ↦ inr (
          after_verify-Stored s out users now request m user c
            (verify out.hashes users now c.username c.password m.cache) given
            (verify-answer out.hashes users now c.username c.password m.cache apart r)
            (rw unknown at h))
    ]

basic-Known :
    (s : AuthSettings) (out : Outside) (users : Users) (now : ℕ) (request : Request) (m : Memory)
    (user : CurrentUser)
    → Separates out.hashes
    → Reachable out.hashes m.cache
    → (basic s out users now request m).0 ≡ ok user
    → Known s out users request user
basic-Known s out users now request m user apart r h =
    elim (Bool-cases
      (limited (keys_of out (client_ip request) (name_of request.credentials)) now m.failures)) [
        | inl stop ↦ cc (rw stop at h)
        | inr go ↦
            with_credentials-Known s out users now request m user request.credentials apart r refl
              (rw go at h)
      ]

vouched_for-role :
    (s : AuthSettings) (request : Request) (username name : String) (role : Role)
    (account : Option User)
    → vouched_for s request username account ≡ ok (some (name, role))
    → (name ≡ username) × (proxy_role s request account ≡ some role)
vouched_for-role s request username name role (some row) h = ground (arith, h)
vouched_for-role s request username name role none h =
    elim (Option-cases (role_of_groups s request)) [
      | inl nothing ↦ cc (rw nothing at h)
      | inr (r, known) ↦
          let same : ok (some (username, r)) ≡ ok (some (name, role)) = rw known at h in
          (cc same, known ∙ cc same)
    ]

proxy_user-Vouched :
    (s : AuthSettings) (out : Outside) (users : Users) (request : Request) (name : String)
    (role : Role)
    → proxy_user s out users request ≡ ok (some (name, role))
    → (trusted out request.peer s.trusted_proxy_list ≡ true)
      × (strip (or_else (get request.headers s.auth_proxy_header) "") ≡ name)
      × (proxy_role s request (get users name) ≡ some role)
unfolding proxy_user
proxy_user-Vouched s out users request name role h =
    let username = strip (or_else (get request.headers s.auth_proxy_header) "") in
    elim (Bool-cases (username == "")) [
      | inl empty ↦ cc (rw empty at h)
      | inr given ↦ elim (Bool-cases (trusted out request.peer s.trusted_proxy_list)) [
        | inr stranger ↦ cc (rw (given, stranger) at h)
        | inl known ↦
            let (same, entitled) =
              vouched_for-role s request username name role (get users username)
                (rw (given, known) at h) in
            (
              known,
              sym same,
              subst (λ n. proxy_role s request (get users n) ≡ some role) (sym same) entitled,
            )
      ]
    ]

after_proxy-Known :
    (s : AuthSettings) (out : Outside) (users : Users) (now : ℕ) (request : Request) (m : Memory)
    (user : CurrentUser) (said : Result (Option (String × Role)))
    → Separates out.hashes
    → Reachable out.hashes m.cache
    → proxy_user s out users request ≡ said
    → (after_proxy s out users now request m said).0 ≡ ok user
    → Vouched s out users request user ⊎ Known s out users request user
after_proxy-Known s out users now request m user (raise e) apart r said h = cc h
after_proxy-Known s out users now request m user (ok none) apart r said h =
    inr (basic-Known s out users now request m user apart r h)
after_proxy-Known s out users now request m user (ok (some (name, role))) apart r said h =
    let (known, named, entitled) = proxy_user-Vouched s out users request name role said in
    let as_name : name ≡ user.username = cc h in
    let as_role : role ≡ user.role = cc h in
    inl (
      known,
      named ∙ as_name,
      subst (λ n. proxy_role s request (get users n) ≡ some user.role) as_name
          (entitled ∙ ap some as_role),
    )

-- With authentication on, and a cache that arose from checks under a keyed hash that tells passwords
-- apart, a request that is let in acts as a user that a proxy at a trusted address named and that has
-- the role (an active stored account's, or else the groups'), or as a configured account whose
-- password it gave, or as a stored account that is active now and whose present password it gave,
-- with the account's role; an account that must still change its password is let in that way only on
-- the paths where that is done.
pub authenticate-Known :
    (s : AuthSettings) (out : Outside) (users : Users) (now : ℕ) (request : Request) (m : Memory)
    (user : CurrentUser)
    → s.auth_enabled ≡ true
    → Separates out.hashes
    → Reachable out.hashes m.cache
    → (authenticate s out users now request m).0 ≡ ok user
    → Vouched s out users request user ⊎ Known s out users request user
unfolding authenticate role_of_groups
authenticate-Known s out users now request m user on apart r h =
    elim (Bool-cases (s.auth_proxy_header == "")) [
      | inl direct ↦ inr (basic-Known s out users now request m user apart r (rw (on, direct) at h))
      | inr behind ↦
          after_proxy-Known s out users now request m user (proxy_user s out users request) apart r
            refl (rw (on, behind) at h)
    ]
