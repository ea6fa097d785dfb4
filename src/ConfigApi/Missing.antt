-- ===== src/ConfigApi/Missing.antt =====
-- PATCH /devices/{id} of config-api/handlers/devices.go for an id that no device has.
use beacon_v.Prelude.{
  ℕ, String, Bool, true, false, ◌&&◌, none, some, List, [], ◌∷◌, ◌<>◌, ℤ, append-nil, parse_int,
  if◌then◌else◌, ◌≡◌, refl, ◌∙◌, and-parts, and-intro, Bool-cases, Option-cases, inl, inr,
}
use beacon_v.Exec.{ok, err, ◌>>=◌, or_fail}
use beacon_v.World.{not_found, Json, World, Env, tick}
use beacon_v.Snmp.TrapNames.{lookup}
use beacon_v.Store.{find_id, statement, timed, allowed_device_column}
use beacon_v.Store.Devices
use beacon_v.Store.Devices.{all_allowed, bindable, in_context, id_text, update_body}
use beacon_v.ConfigApi.{answer}
use beacon_v.ConfigApi.Devices.{
  DeviceHandler, plain_keys, credential_keys, plain_updates, credential_updates, update,
}

-- The request has none of the fields that hold credentials.
abbrev pub NoCredentials : List (String × Json) → Type 0
NoCredentials req =
    (lookup "community" req ≡ none)
    × (lookup "v3_auth_key" req ≡ none)
    × (lookup "v3_priv_key" req ≡ none)

abbrev pub is_empty : List (String × Json) → Bool
is_empty [] = true
is_empty (_ ∷ _) = false

all_keys_allowed : List String → Bool
all_keys_allowed [] = true
all_keys_allowed (key ∷ keys) = allowed_device_column key && all_keys_allowed keys

plain_updates-allowed :
    (keys : List String) (req : List (String × Json))
    → all_keys_allowed keys ≡ true
    → all_allowed (plain_updates keys req) ≡ true
unfolding plain_updates all_allowed all_keys_allowed
plain_updates-allowed [] req h = refl
plain_updates-allowed (key ∷ keys) req h =
    let (here, later) = and-parts (allowed_device_column key) (all_keys_allowed keys) h in
    let rest = plain_updates-allowed keys req later in
    elim (Option-cases (lookup key req)) [
      | inl absent ↦ rw absent rest
      | inr (v, present) ↦ rw present (and-intro _ _ here rest)
    ]

plain_keys-allowed : all_keys_allowed plain_keys ≡ true
unfolding all_keys_allowed allowed_device_column
plain_keys-allowed = refl

module _ (env : Env) (h : DeviceHandler) where
  credential_skipped :
      (key : String) (keys : List String) (req : List (String × Json)) (w : World)
      → lookup key req ≡ none
      → credential_updates env h (key ∷ keys) req w ≡ credential_updates env h keys req w
  unfolding credential_updates
  credential_skipped key keys req w e = rw (e, credential_updates) refl

  no_credential_updates :
      (req : List (String × Json)) (w : World)
      → NoCredentials req
      → credential_updates env h credential_keys req w ≡ (ok [], w)
  unfolding credential_updates ◌>>=◌
  no_credential_updates req w (c, a, p) =
      credential_skipped "community" ("v3_auth_key" ∷ "v3_priv_key" ∷ []) req w c
      ∙ credential_skipped "v3_auth_key" ("v3_priv_key" ∷ []) req w a
      ∙ credential_skipped "v3_priv_key" [] req w p

  written-missing :
      (id : ℤ) (us : List (String × Json)) (w : World)
      → bindable us ≡ true
      → find_id id w.devices ≡ none
      → env.fault w.ticks ≡ none
      → or_fail
          (in_context ("store: updating device " <> id_text id))
          (timed env (update_body env id us))
          w
        ≡ (err not_found, tick w)
  unfolding timed or_fail
  written-missing id us w b m f = rw (f, statement, b, m) refl

  get-missing :
      (id : ℤ) (w : World)
      → find_id id w.devices ≡ none
      → env.fault w.ticks ≡ none
      → Devices.get env id w ≡ (err not_found, tick w)
  unfolding Devices.get ◌>>=◌ or_fail
  get-missing id w m f = rw (f, statement, m) refl

  -- Update of a missing id reports it, unless there is nothing to write.
  update-missing :
      (id : ℤ) (us : List (String × Json)) (w : World)
      → all_allowed us ≡ true
      → bindable us ≡ true
      → find_id id w.devices ≡ none
      → env.fault w.ticks ≡ none
      → Devices.update env id us w ≡ (if is_empty us then (ok tt, w) else (err not_found, tick w))
  unfolding Devices.update ◌>>=◌ statement or_fail
  update-missing id [] w a b m f = refl
  update-missing id (u ∷ us) w a b m f = rw a (written-missing id (u ∷ us) w b m f)

  -- For an id that no device has, a request without credentials whose values the driver can bind, and a
  -- driver that does not fail, PATCH /devices/{id} answers 404 if the request has one of the other
  -- fields, but 500 if it has none of them; it leaves the devices as they are.
  pub update-of_missing :
      (path : String) (id : ℤ) (req : List (String × Json)) (w : World)
      → parse_int path ≡ some id
      → NoCredentials req
      → bindable (plain_updates plain_keys req) ≡ true
      → find_id id w.devices ≡ none
      → ((n : ℕ) → env.fault n ≡ none)
      → ((update env h path (ok req) w).0.status
          ≡ (if is_empty (plain_updates plain_keys req) then 500 else 404))
        × ((update env h path (ok req) w).1.devices ≡ w.devices)
  unfolding update answer ◌>>=◌ or_fail
  update-of_missing path id req w e none_secret bound missing works =
      let us = plain_updates plain_keys req in
      let allowed = plain_updates-allowed plain_keys req plain_keys-allowed in
      let written = update-missing id us w allowed bound missing (works w.ticks) in
      elim (Bool-cases (is_empty us)) [
        | inl empty ↦
            let skipped : Devices.update env id us w ≡ (ok tt, w) = rw empty at written in
            rw
              (
                e,
                no_credential_updates req w none_secret,
                append-nil us,
                skipped,
                empty,
                get-missing id w missing (works w.ticks),
              )
              (refl, refl)
        | inr given ↦
            let refused : Devices.update env id us w ≡ (err not_found, tick w) =
              rw given at written in
            rw (e, no_credential_updates req w none_secret, append-nil us, refused, given)
              (refl, refl)
      ]
