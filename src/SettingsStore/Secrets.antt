-- ===== src/SettingsStore/Secrets.antt =====
-- What is put can be read, and secrets are sealed (app/infrastructure/persistence/store.py).
use queuelens.Prelude.{
  ◌≡◌, refl, ◌∙◌, ap, subst, inl, inr, ◌⊎◌, String, true, false, Option, none, some, [], ◌∷◌, ◌==◌,
  string_eq, contains, Dict, keys, get, put, distinct, get-put, get-missing, Bool-cases, arith,
}
use queuelens.Value.{Value}
use queuelens.Failure.{ok}
use queuelens.SettingsStore.{
  Cipher, Rows, secret_setting_keys, sealed, encrypt, token_of, decrypt, get_setting, put_rows,
  put_settings,
}

put_rows-other :
    (cipher : Option Cipher) (values : Dict String Value) (rows : Rows) (key : String)
    → get values key ≡ none
    → get (put_rows cipher values rows) key ≡ get rows key
unfolding get put_rows
put_rows-other cipher [] rows key absent = refl
put_rows-other cipher ((j, v) ∷ rest) rows key absent = elim (Bool-cases (j == key)) [
  | inl same ↦ cc (rw same at absent)
  | inr other ↦
      put_rows-other cipher rest (put rows j (encrypt cipher j v)) key (rw other at absent)
      ∙ (get-put rows j key (encrypt cipher j v) ∙ rw other refl)
]

put_rows-there :
    (cipher : Option Cipher) (values : Dict String Value) (rows : Rows) (key : String)
    (value : Value)
    → distinct values ≡ true
    → get values key ≡ some value
    → get (put_rows cipher values rows) key ≡ some (encrypt cipher key value)
unfolding get put_rows
put_rows-there cipher [] rows key value apart there = cc there
put_rows-there cipher ((j, v) ∷ rest) rows key value apart there = elim (Bool-cases (j == key)) [
  | inr other ↦
      put_rows-there cipher rest (put rows j (encrypt cipher j v)) key value (ground (arith, apart))
        (rw other at there)
  | inl same ↦
      let equal : j ≡ key = (string_eq.agrees j key).0 same in
      let given : v ≡ value = cc (rw same at there) in
      put_rows-other cipher rest (put rows j (encrypt cipher j v)) key (
        get-missing rest key
          (subst (λ k. contains (keys rest) k ≡ false) equal (ground (arith, apart))))
      ∙ (get-put rows j key (encrypt cipher j v) ∙ rw same (ap some (cc (equal, given))))
]

decrypt-encrypt :
    (c : Cipher) (key : String) (value : Value)
    → c.open_ (c.seal value) ≡ ok value
    → token_of value ≡ none
    → decrypt (some c) (encrypt (some c) key value) ≡ ok value
unfolding get decrypt encrypt
decrypt-encrypt c key value opens plain = elim (Bool-cases (contains secret_setting_keys key)) [
  | inl secret ↦ rw secret opens
  | inr public_ ↦ rw (public_, plain) refl
]

-- With a key, a setting that is put (the names are distinct, and its cipher opens what it sealed of the
-- value) is read back as it was given, if it is not itself a dict with the entry `__encrypted__`; under
-- a name for secrets it stands in the table only sealed; and a setting that is not put is read as before.
pub put_settings-read :
    (c : Cipher) (values : Dict String Value) (rows : Rows) (key other : String)
    (value default : Value)
    → c.open_ (c.seal value) ≡ ok value
    → distinct values ≡ true
    → get values key ≡ some value
    → token_of value ≡ none
    → get values other ≡ none
    → let after = (put_settings (some c) values rows).1 in
      (get_setting (some c) after key default ≡ ok value)
      × ((contains secret_setting_keys key ≡ false) ⊎ (get after key ≡ some (sealed c value)))
      × (get_setting (some c) after other default ≡ get_setting (some c) rows other default)
unfolding put_settings get_setting encrypt
put_settings-read c values rows key other value default opens apart there plain absent =
    let found = put_rows-there (some c) values rows key value apart there in
    (
      rw found (decrypt-encrypt c key value opens plain),
      elim (Bool-cases (contains secret_setting_keys key)) [
        | inl secret ↦ inr (found ∙ rw secret refl)
        | inr open_to_all ↦ inl open_to_all
      ],
      rw (put_rows-other (some c) values rows other absent) refl,
    )
