-- ===== src/ConfigApi/Preservation.antt =====
-- The handlers of config-api/handlers keep what every write of the services keeps.
use beacon_v.Prelude.{some, parse_int, ◌≡◌, String, ℤ, List, [], ◌∷◌, Option-cases, inl, inr, Bool}
use beacon_v.Exec.{Exec, lift, ◌>>=◌, Result}
use beacon_v.Exec.Keeps.{Keeps, Keeps-bind, Keeps-pure, Keeps-or_fail, keeps_rules}
use beacon_v.World.{Error, Json, World, Env}
use beacon_v.Crypto.RoundTrip.{encrypt-keeps}
use beacon_v.Snmp.{Credentials}
use beacon_v.Snmp.TrapNames.{lookup}
use beacon_v.Snmp.Probing.{verify-keeps}
use beacon_v.Store.{Device}
use beacon_v.Store.Preservation.{get-keeps}
use beacon_v.System.Stable.{Stable}
use beacon_v.ConfigApi.{Response}
use beacon_v.ConfigApi.Reading.{HandlerKeeps, answers}
use beacon_v.World.Ticks.{IgnoresTicks}
use beacon_v.Store.Devices as StoreDevices
use beacon_v.ConfigApi.Devices
use beacon_v.ConfigApi.Devices.{
  parsed_id, DeviceHandler, DeviceRequest, create_valid, credential_updates, probe_status, reprobe,
}
use beacon_v.ConfigApi.Settings

module _ {P : World → Type 0} (env : Env) (ignores : IgnoresTicks P) (h : DeviceHandler) where
  encrypts : (p : String) → Keeps P (Devices.encrypt_field env h p)
  unfolding Devices.encrypt_field
  encrypts p = Keeps-or_fail _ _ (encrypt-keeps ignores env h.key p)

  probes : (ip : String) (creds : Credentials) → Keeps P (probe_status env h ip creds)
  unfolding probe_status
  probes ip creds = search (keeps_rules, verify-keeps ignores env)

  credential_updates-Keeps :
      (keys : List String) (req : List (String × Json))
      → Keeps P (credential_updates env h keys req)
  unfolding credential_updates
  credential_updates-Keeps [] req = search keeps_rules
  credential_updates-Keeps (key ∷ keys) req = elim (Option-cases (lookup key req)) [
    | inl missing ↦ rw (missing, credential_updates) (credential_updates-Keeps keys req)
    | inr (v, given) ↦
        rw (given, credential_updates)
          (Keeps-bind _ _ (encrypts _)
            λ encrypted. Keeps-bind _ _ (credential_updates-Keeps keys req) (λ rest. Keeps-pure _))
  ]

  decrypts : (c : String) → Keeps P (Devices.decrypt_field env h c)
  unfolding Devices.decrypt_field
  decrypts c = search keeps_rules

  -- The handlers that have an id in their path, from what the operation on that id keeps.
  module _ (path_id : String) where
    with_id :
        {A : Type 0} (go_on : ℤ → Exec World Response A)
        → ((id : ℤ) → parse_int path_id ≡ some id → Keeps P (go_on id))
        → Keeps P (lift (parsed_id (parse_int path_id)) >>= go_on)
    unfolding ◌>>=◌
    with_id go_on k = elim (Option-cases (parse_int path_id)) [
      | inl bad ↦ record { after = λ w p. rw bad p }
      | inr (id, parsed) ↦ record { after = λ w p. rw parsed ((k id parsed).after w p) }
    ]

    reprobe-Keeps :
        (id : ℤ) (d : Device)
        → ((us : List (String × Json)) → Keeps P (StoreDevices.update env id us))
        → Keeps P (reprobe env h id d)
    unfolding reprobe
    reprobe-Keeps id d updates = search (keeps_rules, probes, updates) depth 14

    pub update-HandlerKeeps_by :
        (body : Result Error (List (String × Json)))
        → ((id : ℤ)
            → parse_int path_id ≡ some id
            → (us : List (String × Json)) → Keeps P (StoreDevices.update env id us))
        → HandlerKeeps P (Devices.update env h path_id body)
    unfolding Devices.update
    update-HandlerKeeps_by body updates = answers _ (
        with_id _ λ id parsed.
          search
            (
              keeps_rules,
              credential_updates-Keeps,
              updates id parsed,
              get-keeps ignores env,
              reprobe-Keeps,
            )
            depth 14)

    pub delete-HandlerKeeps_by :
        ((id : ℤ) → parse_int path_id ≡ some id → Keeps P (StoreDevices.delete env id))
        → HandlerKeeps P (Devices.delete env h path_id)
    unfolding Devices.delete
    delete-HandlerKeeps_by deletes = answers _ (
        with_id _ λ id parsed.
          Keeps-bind _ _ (Keeps-or_fail _ _ (deletes id parsed)) (λ done. Keeps-pure _))

module _ {P : World → Type 0} (env : Env) (stable : Stable env P) where
  module _ (h : DeviceHandler) where
    create_valid-Keeps : (req : DeviceRequest) → Keeps P (create_valid env h req)
    unfolding create_valid
    create_valid-Keeps req =
        search
          (
            keeps_rules,
            encrypts env stable.ignores h,
            probes env stable.ignores h,
            stable.creates,
            get-keeps stable.ignores env,
          )
          depth 14

    pub create-HandlerKeeps :
        (body : Result Error DeviceRequest) → HandlerKeeps P (Devices.create env h body)
    unfolding Devices.create
    create-HandlerKeeps body = answers _ (search (keeps_rules, create_valid-Keeps))

    pub update-HandlerKeeps :
        (path_id : String) (body : Result Error (List (String × Json)))
        → HandlerKeeps P (Devices.update env h path_id body)
    update-HandlerKeeps path_id body =
        update-HandlerKeeps_by env stable.ignores h path_id body (λ id parsed. stable.updates id)

    pub delete-HandlerKeeps : (path_id : String) → HandlerKeeps P (Devices.delete env h path_id)
    delete-HandlerKeeps path_id =
        delete-HandlerKeeps_by env stable.ignores h path_id (λ id parsed. stable.deletes id)

  pub set_polling_interval-HandlerKeeps :
      (body : Result Error ℤ) → HandlerKeeps P (Settings.set_polling_interval env body)
  unfolding Settings.set_polling_interval
  set_polling_interval-HandlerKeeps body = answers _ (search (keeps_rules, stable.sets_interval))

  pub set_credential_duplication-HandlerKeeps :
      (body : Result Error Bool) → HandlerKeeps P (Settings.set_credential_duplication env body)
  unfolding Settings.set_credential_duplication
  set_credential_duplication-HandlerKeeps body =
      answers _ (search (keeps_rules, stable.sets_duplication))
