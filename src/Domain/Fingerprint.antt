-- ===== src/Domain/Fingerprint.antt =====
-- app/domain/fingerprint.py: the identity under which a message is found again. The hash and the JSON
-- encoder are Python's, and are parameters.
use queuelens.Prelude.{ℕ, String, not, Option, List, [], ◌∷◌, string_eq, Dict, filter, contains}
use queuelens.Value.{Value}

-- What `json.dumps` is given.
pub record Identity : Type 0 where
  pub queue : String
  pub body : String
  pub headers : Dict String Value
  pub message_id : Option String
  pub timestamp : Option ℕ
  pub exchange : String
  pub routing_key : String

-- `hashlib.sha256(…).hexdigest()`, and `json.dumps(identity, sort_keys=True, …)` encoded in UTF-8.
pub record Hashing : Type 0 where
  pub sha256 : List ℕ → String
  pub dumps : Identity → List ℕ

-- `VOLATILE_HEADERS`
abbrev pub volatile_headers : List String
volatile_headers = "x-delivery-count" ∷ []

-- `{k: v for k, v in headers.items() if k not in VOLATILE_HEADERS}`
unfoldable pub stable : Dict String Value → Dict String Value
stable headers = filter (λ e. not (contains volatile_headers e.0)) headers

unfoldable pub message_fingerprint :
    Hashing
    → String
    → List ℕ
    → Dict String Value
    → Option String
    → Option ℕ
    → String
    → String
    → String
unfolding stable
message_fingerprint h queue body headers message_id timestamp exchange routing_key =
    h.sha256 (h.dumps identity)
  where
    identity : Identity
    identity = record {
      queue = queue;
      body = h.sha256 body;
      headers = stable headers;
      message_id = message_id;
      timestamp = timestamp;
      exchange = exchange;
      routing_key = routing_key;
    }
