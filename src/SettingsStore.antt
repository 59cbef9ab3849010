-- ===== src/SettingsStore.antt =====
-- `SettingsRepository` of app/infrastructure/persistence/store.py: settings by name, some of them encrypted
-- at rest. Fernet and JSON are a parameter: a cipher seals a value as a text and opens it again.
pub mod Secrets
use queuelens.Prelude.{
  String, Bool, true, false, not, ◌&&◌, Option, none, some, List, [], ◌∷◌, ◌==◌, if◌then◌else◌,
  string_eq, contains, is_some, or_else, Dict, get, put,
}
use queuelens.Value.{
  Value, null, bool, int, text, bytes, time, list, dict, Fields, field, end, to_dict,
}
use queuelens.Failure.{Failure, Result, ok, raise, value_error, type_error, ◌>>=◌}

-- A Fernet key at work: `encrypt(dumps(value))` and `loads(decrypt(token))`.
pub record Cipher : Type 0 where
  pub seal : Value → String
  pub open_ : String → Result Value

-- `SECRET_SETTING_KEYS`
abbrev pub secret_setting_keys : List String
secret_setting_keys = "channels" ∷ "custom_environments" ∷ []

abbrev pub sealed : Cipher → Value → Value
sealed c value = dict (field "__encrypted__" (text (c.seal value)) end)

-- `_encrypt`
unfoldable pub encrypt : Option Cipher → String → Value → Value
encrypt none key value = value
encrypt (some c) key value = if contains secret_setting_keys key then sealed c value else value

-- What stands under `__encrypted__`, in a dict that has it.
unfoldable pub token_of : Value → Option Value
unfolding get
token_of (dict fields) = get (to_dict fields) "__encrypted__"
token_of null = none
token_of (bool b) = none
token_of (int n) = none
token_of (text s) = none
token_of (bytes bs) = none
token_of (time t) = none
token_of (list vs) = none

abbrev pub opened : Cipher → Value → Result Value
opened c (text token) = c.open_ token
opened c _ = raise type_error

abbrev pub with_token : Option Cipher → Value → Option Value → Result Value
with_token cipher value none = ok value
with_token none value (some token) = raise value_error
with_token (some c) value (some token) = opened c token

-- `_decrypt`
unfoldable pub decrypt : Option Cipher → Value → Result Value
unfolding token_of
decrypt cipher value = with_token cipher value (token_of value)

-- The table, by name.
abbrev pub Rows : Type 0
Rows = Dict String Value

abbrev pub read : Option Cipher → Value → Option Value → Result Value
read cipher default none = ok default
read cipher default (some stored) = decrypt cipher stored

-- `get`
unfoldable pub get_setting : Option Cipher → Rows → String → Value → Result Value
unfolding get decrypt
get_setting cipher rows key default = read cipher default (get rows key)

-- `get_safe`: any exception becomes the default.
abbrev pub or_default : Value → Result Value → Value
or_default default (ok value) = value
or_default default (raise e) = default

unfoldable pub get_safe : Option Cipher → Rows → String → Value → Value
unfolding get_setting
get_safe cipher rows key default = or_default default (get_setting cipher rows key default)

abbrev pub with_entry :
    String → Result Value → Result (Dict String Value) → Result (Dict String Value)
with_entry key (raise e) rest = raise e
with_entry key (ok value) (raise e) = raise e
with_entry key (ok value) (ok rest) = ok ((key, value) ∷ rest)

-- `get_all`
unfoldable pub get_all : Option Cipher → Rows → Result (Dict String Value)
unfolding decrypt
get_all cipher [] = ok []
get_all cipher ((key, value) ∷ rows) = with_entry key (decrypt cipher value) (get_all cipher rows)

-- The rows that `put` leaves.
unfoldable pub put_rows : Option Cipher → Dict String Value → Rows → Rows
unfolding put encrypt
put_rows cipher [] rows = rows
put_rows cipher ((key, value) ∷ rest) rows =
    put_rows cipher rest (put rows key (encrypt cipher key value))

-- `put`
unfoldable pub put_settings :
    Option Cipher → Dict String Value → Rows → Result (Dict String Value) × Rows
unfolding put_rows get_all
put_settings cipher values rows =
    (get_all cipher (put_rows cipher values rows), put_rows cipher values rows)
