-- ===== src/ConfigApi/Settings.antt =====
-- config-api/handlers/settings.go: the handlers of /settings.
use beacon_v.Prelude.{
  String, Bool, false, ◌||◌, Option, none, some, eqb, ◌==◌, if◌then◌else◌, ℤ, pos, negsuc,
  parse_int, itoa, suc, ◌<>◌,
}
use beacon_v.Exec.{Result, ok, err, pure, fail, lift, ◌>>=◌, ◌>>◌, map_err, or_fail}
use beacon_v.World.{Error, message, Env}
use beacon_v.Store.Settings
use beacon_v.ConfigApi.{
  Handler, write_json, write_error, answer, polling_interval, credential_duplication,
}

abbrev pub polling_interval_key : String
polling_interval_key = "polling_interval_seconds"

abbrev pub credential_duplication_key : String
credential_duplication_key = "credential_duplication_enabled"

-- `allowedPollingIntervals[seconds]`.
unfoldable pub allowed_polling_interval : ℤ → Bool
allowed_polling_interval (pos n) = eqb n 30 || (eqb n 60 || (eqb n 120 || (eqb n 300 || eqb n 600)))
allowed_polling_interval (negsuc n) = false

-- `strconv.Atoi`.
abbrev pub atoi : Option ℤ → Result Error ℤ
atoi none = err (message "strconv.Atoi: parsing the value")
atoi (some n) = ok n

-- `strconv.Itoa`.
abbrev pub int_text : ℤ → String
int_text (pos n) = itoa n
int_text (negsuc n) = "-" <> itoa (suc n)

module _ (env : Env) where
  unfoldable pub get_polling_interval : Handler
  get_polling_interval = answer do
    value ← or_fail (write_error 500) (Settings.get env polling_interval_key)
    seconds ← lift (map_err (write_error 500) (atoi (parse_int value)))
    pure (write_json 200 (polling_interval seconds))

  unfoldable pub set_polling_interval : Result Error ℤ → Handler
  unfolding allowed_polling_interval
  set_polling_interval body = answer do
    seconds ← lift (map_err (write_error 400) body)
    if allowed_polling_interval seconds
        then (do
          or_fail (write_error 500) (Settings.set env polling_interval_key (int_text seconds))
          pure (write_json 200 (polling_interval seconds)))
        else fail (
            write_error 400
              (message "polling_interval_seconds must be one of 30, 60, 120, 300, 600"))

  unfoldable pub get_credential_duplication : Handler
  get_credential_duplication = answer do
    value ← or_fail (write_error 500) (Settings.get env credential_duplication_key)
    pure (write_json 200 (credential_duplication (value == "1")))

  unfoldable pub set_credential_duplication : Result Error Bool → Handler
  set_credential_duplication body = answer do
    enabled ← lift (map_err (write_error 400) body)
    or_fail (write_error 500)
        (Settings.set env credential_duplication_key (if enabled then "1" else "0"))
    pure (write_json 200 (credential_duplication enabled))
