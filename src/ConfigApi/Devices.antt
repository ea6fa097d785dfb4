-- ===== src/ConfigApi/Devices.antt =====
-- config-api/handlers/devices.go: the handlers of /devices.
use beacon_v.Prelude.{
  ℕ, ◌*◌, String, Bool, true, false, Option, none, some, List, [], ◌∷◌, ◌++◌, map, ◌==◌, ltb,
  if◌then◌else◌, ℤ, pos, parse_int,
}
use beacon_v.Exec.{Result, ok, err, Exec, pure, fail, lift, ◌>>=◌, ◌>>◌, attempt, map_err, or_fail}
use beacon_v.Netutil.{is_public}
use beacon_v.World.{Error, message, is_not_found, Json, str, World, Env}
use beacon_v.Crypto.{Key, encrypt, decrypt}
use beacon_v.Snmp.{Credentials, verdict, verify, second}
use beacon_v.Snmp.TrapNames.{lookup}
use beacon_v.Store.{Device}
use beacon_v.Store.Devices
use beacon_v.ConfigApi.{
  Handler, Response, write_json, write_error, answer, device, devices, no_content,
  to_device_response,
}

abbrev pub default_probe_timeout : ℕ
default_probe_timeout = 3 * second

pub record DeviceRequest : Type 0 where
  pub ip_address : String
  pub hostname : String
  pub snmp_version : String
  pub community : String
  pub v3_user : String
  pub v3_auth_key : String
  pub v3_priv_key : String
  pub v3_auth_protocol : String
  pub v3_priv_protocol : String
  pub group_name : String
  pub status : String

-- `DeviceHandler`: the store is the world, the rest is fixed.
pub record DeviceHandler : Type 0 where
  pub key : Key
  pub probe_timeout : ℕ

unfoldable pub effective_timeout : DeviceHandler → ℕ
effective_timeout h = if ltb 0 h.probe_timeout then h.probe_timeout else default_probe_timeout

abbrev pub request_credentials : DeviceRequest → Credentials
request_credentials req = record {
  version = req.snmp_version;
  community = req.community;
  v3_user = req.v3_user;
  v3_auth_key = req.v3_auth_key;
  v3_priv_key = req.v3_priv_key;
  v3_auth_protocol = req.v3_auth_protocol;
  v3_priv_protocol = req.v3_priv_protocol;
}

-- The row that a request asks for, with the fields that the server derives.
abbrev pub requested : DeviceRequest → (community auth_key priv_key status : String) → Bool → Device
requested req community auth_key priv_key status public = record {
  id = 0;
  ip_address = req.ip_address;
  hostname = req.hostname;
  snmp_version = req.snmp_version;
  community = community;
  v3_user = req.v3_user;
  v3_auth_key = auth_key;
  v3_priv_key = priv_key;
  v3_auth_protocol = req.v3_auth_protocol;
  v3_priv_protocol = req.v3_priv_protocol;
  group_name = req.group_name;
  status = status;
  is_public_ip = public;
  discovered_via = "manual";
  created_at = "";
  updated_at = "";
}

-- The JSON keys are the names of the columns.
abbrev pub plain_keys : List String
plain_keys =
    "hostname" ∷ "snmp_version" ∷ "v3_user" ∷ "v3_auth_protocol" ∷ "v3_priv_protocol" ∷ "group_name"
    ∷ "status" ∷ []

abbrev pub credential_keys : List String
credential_keys = "community" ∷ "v3_auth_key" ∷ "v3_priv_key" ∷ []

abbrev pub snmp_keys : List String
snmp_keys =
    "snmp_version" ∷ "community" ∷ "v3_user" ∷ "v3_auth_key" ∷ "v3_priv_key" ∷ "v3_auth_protocol"
    ∷ "v3_priv_protocol" ∷ []

abbrev pub is_present {ℓ} : {A : Type ℓ} → Option A → Bool
is_present none = false
is_present (some _) = true

abbrev put_if {ℓ} : {A : Type ℓ} → Option A → String → List (String × A) → List (String × A)
put_if none key rest = rest
put_if (some v) key rest = (key, v) ∷ rest

unfoldable pub plain_updates : List String → List (String × Json) → List (String × Json)
unfolding lookup
plain_updates [] req = []
plain_updates (key ∷ keys) req = put_if (lookup key req) key (plain_updates keys req)

-- A value that is no string counts as the empty plaintext.
abbrev plaintext_of : Json → String
plaintext_of (str s) = s
plaintext_of _ = ""

unfoldable pub any_present : List String → List (String × Json) → Bool
unfolding lookup
any_present [] req = false
any_present (key ∷ keys) req = if is_present (lookup key req) then true else any_present keys req

unfoldable pub snmp_fields_changed : List (String × Json) → Bool
unfolding any_present
snmp_fields_changed req = any_present snmp_keys req

-- `errors.Is(err, store.ErrNotFound)` decides between two responses.
abbrev pub not_found_or : ℕ → Error → Response
not_found_or status e = if is_not_found e then write_error 404 e else write_error status e

abbrev pub parsed_id : Option ℤ → Result Response ℤ
parsed_id none = err (write_error 400 (message "invalid device id"))
parsed_id (some id) = ok id

module _ (env : Env) (h : DeviceHandler) where
  unfoldable pub probe_status : String → Credentials → Exec World Response String
  unfolding effective_timeout
  probe_status ip creds =
      if creds.version == ""
      then pure "pending"
      else do r ← attempt (verify env ip creds (effective_timeout h)); pure (verdict r)

  unfoldable pub list : Handler
  list = answer do
    ds ← or_fail (write_error 500) (Devices.list env)
    pure (write_json 200 (devices (map to_device_response ds)))

  unfoldable pub get : String → Handler
  get path_id = answer do
    id ← lift (parsed_id (parse_int path_id))
    d ← or_fail (not_found_or 500) (Devices.get env id)
    pure (write_json 200 (device (to_device_response d)))

  unfoldable pub encrypt_field : String → Exec World Response String
  encrypt_field plaintext = or_fail (write_error 500) (encrypt env h.key plaintext)

  unfoldable pub create_valid : DeviceRequest → Exec World Response Response
  unfolding encrypt_field probe_status
  create_valid req = do
    community ← encrypt_field req.community
    auth_key ← encrypt_field req.v3_auth_key
    priv_key ← encrypt_field req.v3_priv_key
    status ← probe_status req.ip_address (request_credentials req)
    let public = is_public env.v6_text req.ip_address
    id ←
        or_fail (write_error 500)
          (Devices.create env (requested req community auth_key priv_key status public))
    created ← or_fail (write_error 500) (Devices.get env (pos id))
    pure (write_json 201 (device (to_device_response created)))

  unfoldable pub create : Result Error DeviceRequest → Handler
  unfolding create_valid
  create body = answer do
    req ← lift (map_err (write_error 400) body)
    if req.ip_address == ""
        then fail (write_error 400 (message "ip_address is required"))
        else create_valid req

  -- The loop over the credential keys of a request.
  unfoldable pub credential_updates :
      List String → List (String × Json) → Exec World Response (List (String × Json))
  unfolding lookup encrypt_field
  credential_updates [] req = pure []
  credential_updates (key ∷ keys) req = elim (lookup key req) [
    | none ↦ credential_updates keys req
    | some v ↦ do
      encrypted ← encrypt_field (plaintext_of v)
      rest ← credential_updates keys req
      pure ((key, str encrypted) ∷ rest)
  ]

  unfoldable pub decrypt_field : String → Exec World Response String
  decrypt_field encoded = lift (map_err (write_error 500) (decrypt h.key encoded))

  -- The device as it is stored, probed with its own credentials.
  unfoldable pub reprobe : ℤ → Device → Exec World Response Device
  unfolding decrypt_field probe_status
  reprobe id d = do
    community ← decrypt_field d.community
    auth_key ← decrypt_field d.v3_auth_key
    priv_key ← decrypt_field d.v3_priv_key
    status ← probe_status d.ip_address (record {
      version = d.snmp_version;
      community = community;
      v3_user = d.v3_user;
      v3_auth_key = auth_key;
      v3_priv_key = priv_key;
      v3_auth_protocol = d.v3_auth_protocol;
      v3_priv_protocol = d.v3_priv_protocol;
    })
    or_fail (write_error 500) (Devices.update env id (("status", str status) ∷ []))
    pure (record d { status = status })

  unfoldable pub update : String → Result Error (List (String × Json)) → Handler
  unfolding lookup plain_updates credential_updates snmp_fields_changed reprobe
  update path_id body = answer do
    id ← lift (parsed_id (parse_int path_id))
    req ← lift (map_err (write_error 400) body)
    credentials ← credential_updates credential_keys req
    or_fail (not_found_or 500) (Devices.update env id (plain_updates plain_keys req ++ credentials))
    d ← or_fail (write_error 500) (Devices.get env id)
    shown ←
        if snmp_fields_changed req
        then (if is_present (lookup "status" req) then pure d else reprobe id d)
        else pure d
    pure (write_json 200 (device (to_device_response shown)))

  unfoldable pub delete : String → Handler
  delete path_id = answer do
    id ← lift (parsed_id (parse_int path_id))
    or_fail (not_found_or 500) (Devices.delete env id)
    pure (write_json 204 no_content)
