-- ===== src/Messages.antt =====
-- app/application/message_service.py: listing and showing messages. What the guard answers is an
-- argument; so is a payload, decoded. The rendering of texts is a parameter.
pub mod Masking
use Prim.Native.Char.{code}
use queuelens.Prelude.{
  ℕ, String, Bool, true, false, not, ◌&&◌, ◌||◌, Option, none, some, List, [], ◌∷◌, map, ◌==◌,
  if◌then◌else◌, nat_eq, string_eq, ltb, take, filter, contains, Dict,
}
use queuelens.Texts.{strip}
use queuelens.Value.{
  Value, null, bool, int, text, bytes, time, list, dict, Values, nil, cons, Fields, end, field,
}
use queuelens.Prelude.Int.{ℤ}
use queuelens.Failure.{Result, ok, raise, lookup_error, ◌>>=◌}
use queuelens.Domain.XDeath.{deaths}
use queuelens.Domain.{MessageRecord}
use queuelens.Domain.Fingerprint.{Hashing}
use queuelens.Broker.{Broker, World}
use queuelens.Browser.{Scan, scan, scan_bytes_budget}
use queuelens.Bulk.{nonzero_or}

module _ (h : Hashing) (b : Broker) where
  abbrev pub scan_depth : ℕ → Option ℕ → Bool → ℕ
  scan_depth limit depth whole = if whole then nonzero_or depth limit else limit

  abbrev pub first : ℕ → Result (Scan b) × World b → Result (List MessageRecord) × World b
  first limit (raise e, w) = (raise e, w)
  first limit (ok s, w) = (ok (take limit s.records), w)

  abbrev pub listed :
      String → ℕ → Option ℕ → Result Bool → World b → Result (List MessageRecord) × World b
  listed queue limit depth (raise e) w = (raise e, w)
  listed queue limit depth (ok whole) w =
      first limit (scan b h whole queue (scan_depth limit depth whole) none w)

  -- `MessageService.list_messages`
  unfoldable pub list_messages :
      String → ℕ → Option ℕ → Result Bool → World b → Result (List MessageRecord) × World b
  unfolding scan
  list_messages queue limit depth guard w = listed queue limit depth guard w

  -- `snapshot`
  abbrev pub copied : String → ℕ → Result Bool → World b → Result (Scan b) × World b
  copied queue depth (raise e) w = (raise e, w)
  copied queue depth (ok whole) w = scan b h whole queue depth (some scan_bytes_budget) w

  unfoldable pub snapshot : String → ℕ → Result Bool → World b → Result (Scan b) × World b
  unfolding scan
  snapshot queue depth guard w = copied queue depth guard w

  -- `matches[0]`, if there is no other: `MessageNotUniquelyIdentifiable` is a LookupError.
  abbrev pub only : List MessageRecord → Result MessageRecord
  only (m ∷ []) = ok m
  only _ = raise lookup_error

  abbrev pub one_of :
      String → Result (List MessageRecord) × World b → Result MessageRecord × World b
  one_of fingerprint (raise e, w) = (raise e, w)
  one_of fingerprint (ok messages, w) =
      (only (filter (λ m. m.fingerprint == fingerprint) messages), w)

  -- `get_message`
  unfoldable pub get_message :
      String → String → ℕ → Option ℕ → Result Bool → World b → Result MessageRecord × World b
  unfolding list_messages
  get_message queue fingerprint limit depth guard w =
      one_of fingerprint (list_messages queue limit depth guard w)

-- How values become texts: `isoformat`, `decode("utf-8", errors="replace")`, `lower`,
-- `str` of a number.
pub record Rendering : Type 0 where
  pub isoformat : ℕ → String
  pub decode : List ℕ → String
  pub lower : String → String
  pub decimal : ℕ → String
  -- `==`, on rendered values
  pub equal : Value → Value → Bool

-- `replace(c, "")`
abbrev pub without : ℕ → String → String
without c String.[] = String.[]
without c (String.◌∷◌ d s) =
    let rest = without c s in if code d == c then rest else String.◌∷◌ d rest

-- `_normalize_key`
unfoldable pub normalize_key : Rendering → String → String
unfolding strip
normalize_key f key = without b'_' (without b'-' (f.lower (strip key)))

-- `MASKED_VALUE`
abbrev pub masked_value : Value
masked_value = text "***"

-- `_jsonable`, for lists and dicts too
unfoldable mutual
  unfolding normalize_key

  pub jsonable : Rendering → List String → Value → Value
  jsonable f masked (time t) = text (f.isoformat t)
  jsonable f masked (bytes bs) = text (f.decode bs)
  jsonable f masked (dict fields) = dict (jsonable_fields f masked fields)
  jsonable f masked (list vs) = list (jsonable_values f masked vs)
  jsonable f masked null = null
  jsonable f masked (bool b) = bool b
  jsonable f masked (int n) = int n
  jsonable f masked (text s) = text s

  pub jsonable_values : Rendering → List String → Values → Values
  jsonable_values f masked nil = nil
  jsonable_values f masked (cons v vs) = cons (jsonable f masked v) (jsonable_values f masked vs)

  pub jsonable_fields : Rendering → List String → Fields → Fields
  jsonable_fields f masked end = end
  jsonable_fields f masked (field k v rest) =
      let shown = jsonable f masked v in
      let others = jsonable_fields f masked rest in
      field k (if contains masked (normalize_key f k) then masked_value else shown) others

-- What decoding a body gave: `payload`, `payload_format`, `payload_size`, `decoded_from`, and the raw
-- body in base64 if it was compressed.
pub record Decoded : Type 0 where
  pub payload : Value
  pub payload_format : String
  pub payload_size : ℕ
  pub decoded_from : Option String
  pub payload_encoded : Option String

-- The dict that `message_to_dict` returns.
pub record Shown : Type 0 where
  pub fingerprint : String
  pub queue : String
  pub payload : Value
  pub payload_truncated : Bool
  pub payload_format : String
  pub payload_size : ℕ
  pub decoded_from : Option String
  pub payload_encoded : Option String
  pub content_type : Option String
  pub message_id : Option String
  pub correlation_id : Option String
  pub timestamp : Option String
  pub exchange : String
  pub routing_key : String
  pub headers : Value
  pub properties : Value
  pub redelivered : Bool
  pub x_death : Value
  pub deaths : ℤ

abbrev pub is_over : Option ℕ → ℕ → Bool
is_over none size = false
is_over (some limit) size = ltb limit size

abbrev pub truncation : Rendering → Option ℕ → Value
truncation f none = null
truncation f (some limit) = text (
    Prim.Native.String.◌++◌ "[payload truncated at "
      (Prim.Native.String.◌++◌ (f.decimal limit) " bytes]"))

abbrev pub fields_of : Dict String Value → Fields
fields_of [] = end
fields_of ((k, v) ∷ rest) = field k v (fields_of rest)

abbrev pub dicts_of : List (Dict String Value) → Values
dicts_of [] = nil
dicts_of (d ∷ rest) = cons (dict (fields_of d)) (dicts_of rest)

abbrev is_empty : List String → Bool
is_empty [] = true
is_empty (k ∷ ks) = false

-- The raw body, where nothing of it was masked or cut off.
abbrev pub encoded : Rendering → Option ℕ → List String → Decoded → Option String
encoded f max_size masked d =
    if is_over max_size d.payload_size
    then none
    else if not (is_empty masked)
        && not (f.equal (jsonable f masked d.payload) (jsonable f [] d.payload))
    then none
    else d.payload_encoded

abbrev isoformat_of : Rendering → Option ℕ → Option String
isoformat_of f none = none
isoformat_of f (some t) = some (f.isoformat t)

-- `message_to_dict`, of a message and its decoded payload; `properties` is the record's dict of them.
unfoldable pub message_to_dict :
    Rendering → Option ℕ → List String → Decoded → Fields → MessageRecord → Result Shown
unfolding jsonable normalize_key deaths
message_to_dict f max_size masked_fields d properties m =
    let masked = map (normalize_key f) masked_fields in
    deaths m.x_death m.headers >>= λ n. ok (record {
      fingerprint = m.fingerprint;
      queue = m.source_queue;
      payload =
          if is_over max_size d.payload_size
          then truncation f max_size
          else jsonable f masked d.payload;
      payload_truncated = is_over max_size d.payload_size;
      payload_format = d.payload_format;
      payload_size = d.payload_size;
      decoded_from = d.decoded_from;
      payload_encoded = encoded f max_size masked d;
      content_type = m.properties.content_type;
      message_id = m.properties.message_id;
      correlation_id = m.properties.correlation_id;
      timestamp = isoformat_of f m.properties.timestamp;
      exchange = m.exchange;
      routing_key = m.routing_key;
      headers = jsonable f masked (dict (fields_of m.headers));
      properties = jsonable f masked (dict properties);
      redelivered = m.redelivered;
      x_death = jsonable f [] (list (dicts_of m.x_death));
      deaths = n;
    })
