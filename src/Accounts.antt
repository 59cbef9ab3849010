-- ===== src/Accounts.antt =====
-- `UserRepository` and `LoginFailureRepository` of app/infrastructure/persistence/store.py. The
-- password hash (PBKDF2), the keyed hash of the cache (HMAC), salts and clocks are parameters; a
-- password is stored as salt and hash, in one text with a `$` between.
pub mod Cache
use Prim.Native.Char.{code}
use Prim.Native.String.{◌++◌ as joined}
use queuelens.Prelude.{
  ℕ, ◌+◌, String, Bool, true, false, not, ◌&&◌, ◌||◌, Option, none, some, List, [], ◌∷◌, ◌++◌, map,
  ◌==◌, if◌then◌else◌, nat_eq, string_eq, pair_eq, ltb, filter, length, or_else, contains, Dict,
  get, put, remove,
}

pub data Role : Type 0 where
  viewer operator admin : Role

pub record Hashes : Type 0 where
  -- `pbkdf2_hmac` of a password and a salt, in hex
  pub pbkdf2 : String → String → String
  -- the cache's `hmac` of a password under the process's key
  pub mac : String → String

-- The salt of a stored password: what stands before its first `$`.
unfoldable pub salt_of : String → Option String
salt_of String.[] = none
salt_of (String.◌∷◌ c s) =
    let rest = salt_of s in
    if code c == b'$'
    then some String.[]
    else elim rest [ none ↦ none | some salt ↦ some (String.◌∷◌ c salt) ]

-- `hash_password` under a salt
unfoldable pub hash_password : Hashes → String → String → String
hash_password h password salt = joined salt (joined "$" (h.pbkdf2 password salt))

-- `verify_password`
abbrev verify_salted : Hashes → String → String → Option String → Bool
verify_salted h password stored none = false
verify_salted h password stored (some salt) = hash_password h password salt == stored

unfoldable pub verify_password : Hashes → String → String → Bool
unfolding salt_of hash_password
verify_password h password stored = verify_salted h password stored (salt_of stored)

pub record User : Type 0 where
  pub password_hash : String
  pub role : Role
  pub email : Option String
  pub invited_by : Option String
  pub active : Bool
  pub must_change_password : Bool

abbrev pub Users : Type 0
Users = Dict String User

-- `create`, under a fresh salt: false for a name that is taken.
unfoldable pub create :
    Hashes → String → String → Role → Option String → String → Bool → String → Users → Bool × Users
unfolding get put hash_password
create h username password role email invited_by must_change salt users =
    elim (get users username) [
      | some row ↦ (false, users)
      | none ↦ (
        true,
        put users username (record {
          password_hash = hash_password h password salt;
          role = role;
          email = email;
          invited_by = some invited_by;
          active = true;
          must_change_password = must_change;
        }),
      )
    ]

-- `seed_env_users`: configured accounts that are missing, each under a salt of its own.
unfoldable pub seed_env_users :
    Hashes → Dict String String → String → (String → String) → Users → Users
unfolding get put hash_password
seed_env_users h [] admin_username salts users = users
seed_env_users h ((username, password) ∷ rest) admin_username salts users =
    seed_env_users h rest admin_username salts (elim (get users username) [
      | some row ↦ users
      | none ↦ put users username (record {
        password_hash = hash_password h password (salts username);
        role = if username == admin_username then admin else operator;
        email = none;
        invited_by = none;
        active = true;
        must_change_password = false;
      })
    ])

-- `update`: an Admin's change of role or active switch.
unfoldable pub update_user : String → Option Role → Option Bool → Users → Bool × Users
unfolding get put
update_user username role active users = elim (get users username) [
  | none ↦ (false, users)
  | some row ↦ (
    true,
    put users username
        (record row { role = or_else role row.role; active = or_else active row.active }),
  )
]

-- `delete`
unfoldable pub delete_user : String → Users → Bool × Users
unfolding get remove
delete_user username users = elim (get users username) [
  | none ↦ (false, users)
  | some row ↦ (true, remove users username)
]

-- `change_password`, under a fresh salt
abbrev changed_for : Hashes → String → String → String → String → Users → User → Bool × Users
changed_for h username current new salt users row =
    if verify_password h current row.password_hash
    then (
      true,
      put users username
          (record row { password_hash = hash_password h new salt; must_change_password = false }),
    )
    else (false, users)

unfoldable pub change_password : Hashes → String → String → String → String → Users → Bool × Users
unfolding get put verify_password hash_password
change_password h username current new salt users = elim (get users username) [
  | none ↦ (false, users)
  | some row ↦ changed_for h username current new salt users row
]

-- `VERIFIED_FOR_SECONDS`
abbrev pub verified_for_seconds : ℕ
verified_for_seconds = 60

-- Successful checks, by name and keyed hash: the stored hash that was checked, and until when it counts.
abbrev pub Verified : Type 0
Verified = Dict (String × String) (String × ℕ)

abbrev pub remembers : Option (String × ℕ) → String → ℕ → Bool
remembers none stored now = "" == stored && ltb now 0
remembers (some (checked, until)) stored now = checked == stored && ltb now until

abbrev pub checked_for : Hashes → ℕ → String → String → Verified → User → Bool × Verified
checked_for h now username password cache row =
    if remembers (get cache (username, h.mac password)) row.password_hash now
    then (true, cache)
    else if verify_password h password row.password_hash
    then (
      true,
      put cache (username, h.mac password) (row.password_hash, now + verified_for_seconds),
    )
    else (false, cache)

abbrev pub verified_row : Hashes → ℕ → String → String → Verified → Option User → Bool × Verified
verified_row h now username password cache none = (false, cache)
verified_row h now username password cache (some row) =
    if row.active then checked_for h now username password cache row else (false, cache)

-- `verify`: the row is read for every request.
unfoldable pub verify : Hashes → Users → ℕ → String → String → Verified → Bool × Verified
unfolding get put verify_password
verify h users now username password cache =
    verified_row h now username password cache (get users username)

-- The failed logins: limiter key and time.
abbrev pub Failures : Type 0
Failures = List (String × ℕ)

-- `counts`, for one key
unfoldable pub count_since : String → ℕ → Failures → ℕ
count_since key since rows = length (filter (λ r. r.0 == key && ltb since r.1) rows)

-- `add`: the keys' failures, and the old ones forgotten
unfoldable pub add_failures : List String → ℕ → ℕ → Failures → Failures
add_failures keys at forget_before rows =
    filter (λ r. not (ltb r.1 forget_before)) (rows ++ map (λ key. (key, at)) keys)
