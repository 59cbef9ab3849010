-- ===== src/SignIn/Attempts.antt =====
-- What one attempt records of failed logins (app/auth/basic.py).
use queuelens.Prelude.{
  ℕ, ◌≡◌, refl, ◌⊎◌, inl, inr, String, Bool, true, false, Option, none, some, ◌==◌, string_eq,
  Bool-cases,
}
use queuelens.Failure.{Result, ok, raise}
use queuelens.Accounts.{Users, Verified, verify, Failures}
use queuelens.SignIn.{
  AuthSettings, Credentials, Request, Outside, Memory, keys_of, limited, record_failure, client_ip,
  name_of, configured, role_of_groups, after_verify, with_credentials, basic, after_proxy,
  authenticate, proxy_user, Role,
}

-- What an attempt does to the failures.
abbrev pub Recorded : Outside → ℕ → Failures → Failures → Type 0
Recorded out now before after =
    (after ≡ before)
    ⊎ ((ip : String) × (username : String) × (limited (keys_of out ip username) now before ≡ false)
        × (after ≡ record_failure (keys_of out ip username) now before))

after_verify-failures :
    (s : AuthSettings) (out : Outside) (users : Users) (now : ℕ) (request : Request) (m : Memory)
    (c : Credentials) (checked : Bool × Verified)
    → ((after_verify s out users now request c m checked).1.failures ≡ m.failures)
      ⊎ ((after_verify s out users now request c m checked).1.failures
          ≡ record_failure (keys_of out (client_ip request) c.username) now m.failures)
after_verify-failures s out users now request m c (true, cache) = inl refl
after_verify-failures s out users now request m c (false, cache) = inr refl

with_credentials-failures :
    (s : AuthSettings) (out : Outside) (users : Users) (now : ℕ) (request : Request) (m : Memory)
    (credentials : Option Credentials)
    → ((with_credentials s out users now request m credentials).1.failures ≡ m.failures)
      ⊎ ((with_credentials s out users now request m credentials).1.failures
          ≡ record_failure (keys_of out (client_ip request) (name_of credentials)) now m.failures)
with_credentials-failures s out users now request m none = inl refl
with_credentials-failures s out users now request m (some c) =
    elim (Bool-cases (configured s.users c)) [
      | inl match ↦ inl (rw match refl)
      | inr unknown ↦ rw unknown (
          after_verify-failures s out users now request m c
            (verify out.hashes users now c.username c.password m.cache))
    ]

basic-Recorded :
    (s : AuthSettings) (out : Outside) (users : Users) (now : ℕ) (request : Request) (m : Memory)
    → Recorded out now m.failures (basic s out users now request m).1.failures
basic-Recorded s out users now request m =
    elim (Bool-cases
      (limited (keys_of out (client_ip request) (name_of request.credentials)) now m.failures)) [
        | inl stop ↦ inl (rw stop refl)
        | inr go ↦
            rw go (elim (with_credentials-failures s out users now request m request.credentials) [
              | inl same ↦ inl same
              | inr more ↦ inr (client_ip request, name_of request.credentials, go, more)
            ])
      ]

after_proxy-Recorded :
    (s : AuthSettings) (out : Outside) (users : Users) (now : ℕ) (request : Request) (m : Memory)
    (said : Result (Option (String × Role)))
    → Recorded out now m.failures (after_proxy s out users now request m said).1.failures
after_proxy-Recorded s out users now request m (raise e) = inl refl
after_proxy-Recorded s out users now request m (ok none) = basic-Recorded s out users now request m
after_proxy-Recorded s out users now request m (ok (some who)) = inl refl

pub authenticate-Recorded :
    (s : AuthSettings) (out : Outside) (users : Users) (now : ℕ) (request : Request) (m : Memory)
    → Recorded out now m.failures (authenticate s out users now request m).1.failures
unfolding authenticate role_of_groups
authenticate-Recorded s out users now request m = elim (Bool-cases s.auth_enabled) [
  | inr off ↦ inl (rw off refl)
  | inl on ↦ elim (Bool-cases (s.auth_proxy_header == "")) [
    | inl direct ↦ rw (on, direct) (basic-Recorded s out users now request m)
    | inr behind ↦
        rw (on, behind)
          (after_proxy-Recorded s out users now request m (proxy_user s out users request))
  ]
]
