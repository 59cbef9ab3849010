-- ===== src/Tests/Entry.antt =====
-- Runs of the sign-in.
use Prim.Native.Char.{code}
use Prim.Native.String.{◌++◌ as joined}
use queuelens.Prelude.{
  ℕ, ◌≡◌, ◌≤◌, refl, ap, String, true, false, none, some, List, [], ◌∷◌, string_eq, pair_eq, get,
  ◌==◌, ◌-◌, arith, ◌⊎◌,
}
use queuelens.Failure.{ok}
use queuelens.Accounts.{Hashes, User, Users, operator, verify, count_since}
use queuelens.Accounts.Cache.{started, checked, Separates, answer, verify-answer}
use queuelens.SignIn.{AuthSettings, Outside, Request, Memory, authenticate, window_seconds}
use queuelens.SignIn.Identity.{Vouched, Known, authenticate-Known}
use queuelens.SignIn.RateLimit.{TellsApart, attempted, waited, Reachable-Within}
use queuelens.SignIn.RateLimit.{started as opened}

-- A toy hash, and a keyed hash under an empty key.
abbrev hashes : Hashes
hashes = record { pbkdf2 = λ password salt. joined password salt; mac = λ password. password }

mac_apart : Separates hashes
mac_apart p q same = same

-- Parts, each character behind a 1 and each part ended by a 0.
abbrev part : String → String → String
part String.[] rest = String.◌∷◌ "0" rest
part (String.◌∷◌ c s) rest = String.◌∷◌ "1" (String.◌∷◌ c (part s rest))

abbrev digest : List String → String
digest [] = ""
digest (s ∷ ss) = part s (digest ss)

-- The first character's number.
abbrev head : String → ℕ
head String.[] = 0
head (String.◌∷◌ c s) = code c

part-inj : (s t a b : String) → part s a ≡ part t b → (s ≡ t) × (a ≡ b)
part-inj String.[] String.[] a b h = (refl, cc h)
part-inj String.[] (String.◌∷◌ d t) a b h = ground (arith, ap head h)
part-inj (String.◌∷◌ c s) String.[] a b h = ground (arith, ap head h)
part-inj (String.◌∷◌ c s) (String.◌∷◌ d t) a b h =
    let (same, rests) = part-inj s t a b (cc h) in
    let first : c ≡ d = cc h in (cc (same, first), rests)

digest_apart : TellsApart digest
digest_apart [] [] h = refl
digest_apart [] (String.[] ∷ ts) h = cc h
digest_apart [] (String.◌∷◌ d t ∷ ts) h = cc h
digest_apart (String.[] ∷ ss) [] h = cc h
digest_apart (String.◌∷◌ c s ∷ ss) [] h = cc h
digest_apart (s ∷ ss) (t ∷ ts) h =
    let (same, rests) = part-inj s t (digest ss) (digest ts) h in
    let later = digest_apart ss ts rests in cc (same, later)

abbrev outside : Outside
outside = record {
  in_network = λ host network. some (host == network);
  digest = digest;
  hashes = hashes;
}

abbrev settings : AuthSettings
settings = record {
  auth_enabled = true;
  auth_proxy_header = "";
  auth_proxy_groups_header = "";
  auth_proxy_roles = [];
  auth_proxy_default_role = none;
  trusted_proxy_list = [];
  users = [];
  admin_username = "root";
}

abbrev ann : User
ann = record {
  password_hash = "s1$s3cretss1";
  role = operator;
  email = none;
  invited_by = none;
  active = true;
  must_change_password = false;
}

abbrev users : Users
users = ("ann", ann) ∷ []

abbrev from_ann : String → Request
from_ann password = record {
  headers = [];
  client = some "10.0.0.9";
  peer = some "10.0.0.9";
  path = "/api/queues";
  credentials = some (record { username = "ann"; password = password });
}

abbrev once : Memory
once = record { failures = []; cache = (verify hashes users 100 "ann" "s3crets" []).1 }

verify-answer_example :
    (verify hashes users 130 "ann" "s3crets" once.cache).0
    ≡ answer hashes "s3crets" (get users "ann")
verify-answer_example =
    verify-answer hashes users 130 "ann" "s3crets" once.cache mac_apart
      (checked users 100 "ann" "s3crets" [] started)

let_in :
    (authenticate settings outside users 130 (from_ann "s3crets") once).0
    ≡ ok (record { username = "ann"; role = operator; must_change_password = false })
unfolding authenticate verify get
let_in = refl

authenticate-Known_example :
    Vouched settings outside users
      (from_ann "s3crets")
      (record { username = "ann"; role = operator; must_change_password = false })
    ⊎ Known settings outside users
        (from_ann "s3crets")
        (record { username = "ann"; role = operator; must_change_password = false })
authenticate-Known_example =
    authenticate-Known settings outside users 130 (from_ann "s3crets") once
      (record { username = "ann"; role = operator; must_change_password = false }) refl mac_apart
      (checked users 100 "ann" "s3crets" [] started) let_in

abbrev refused : Memory
refused =
    (authenticate settings outside users 100 (from_ann "guess")
      (record { failures = []; cache = [] })).1

Reachable-Within_example :
    (count_since (digest ("10.0.0.9" ∷ "ann" ∷ [])) (130 - window_seconds) refused.failures ≤ 10)
    × (count_since (digest ("10.0.0.9" ∷ [])) (130 - window_seconds) refused.failures ≤ 50)
Reachable-Within_example =
    Reachable-Within outside 130 refused digest_apart
      (waited 100 130 refused (omega arith) (
        attempted settings users 100 (from_ann "guess") (record { failures = []; cache = [] })
          (opened 100 [])))
      "10.0.0.9" "ann"

-- The refused attempt is counted.
refused_counts :
    count_since (digest ("10.0.0.9" ∷ "ann" ∷ [])) (130 - window_seconds) refused.failures ≡ 1
unfolding authenticate count_since verify
refused_counts = refl
