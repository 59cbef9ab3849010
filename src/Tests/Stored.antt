-- ===== src/Tests/Stored.antt =====
-- Settings with a key.
use queuelens.Prelude.{◌≡◌, refl, String, false, some, [], ◌∷◌, Dict, get, ◌⊎◌, contains, string_eq}
use queuelens.Value.{Value, null, text}
use queuelens.Failure.{ok}
use queuelens.SettingsStore.{
  Cipher, sealed, put_settings, get_setting, secret_setting_keys, token_of,
}
use queuelens.SettingsStore.Secrets.{put_settings-read}

-- A cipher for texts, that shows them.
abbrev shown : Value → String
shown (text s) = s
shown _ = ""

abbrev cipher : Cipher
cipher = record { seal = shown; open_ = λ token. ok (text token) }

abbrev values : Dict String Value
values = ("theme", text "dark") ∷ ("channels", text "hook") ∷ []

put_settings-read_example :
    (get_setting (some cipher) (put_settings (some cipher) values []).1 "channels" null
      ≡ ok (text "hook"))
    × ((contains secret_setting_keys "channels" ≡ false)
        ⊎ (get (put_settings (some cipher) values []).1 "channels"
            ≡ some (sealed cipher (text "hook"))))
    × (get_setting (some cipher) (put_settings (some cipher) values []).1 "limits" null
        ≡ get_setting (some cipher) [] "limits" null)
unfolding get token_of
put_settings-read_example =
    put_settings-read cipher values [] "channels" "limits" (text "hook") null refl refl refl refl
      refl
