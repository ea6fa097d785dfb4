-- ===== src/Watcher/Agreement.antt =====
-- Telegraf is configured to poll a device the way internal/snmp probes it.
use mathlib.Core.Path.{subst}
use beacon_v.Prelude.{ℕ, String, ◌==◌, ◌≡◌, refl, sym, ap, eq_iff, Bool-cases, inl, inr}
use beacon_v.Exec.{Result, ok, err}
use beacon_v.World.{
  Error, SnmpVersion, version1, version2c, version3, MsgFlags, no_auth_no_priv, auth_no_priv,
  auth_priv, Client, AuthProtocol, PrivProtocol,
}
use beacon_v.Crypto.{Key, decrypt}
use beacon_v.Snmp.{Credentials, msg_flags, build_client, by_user}
use beacon_v.Store.{Device}
use beacon_v.Watcher.{credentials_of, decrypt_credentials}
use beacon_v.Watcher.Telegraf.{
  DeviceTemplateData, config_of, data_of, device_config, version_number, v3_sec_level,
}

-- The names that telegraf.conf has for gosnmp's versions and security levels.
abbrev pub number_of : SnmpVersion → ℕ
number_of version1 = 1
number_of version2c = 2
number_of version3 = 3

abbrev pub level_name : MsgFlags → String
level_name no_auth_no_priv = "noAuthNoPriv"
level_name auth_no_priv = "authNoPriv"
level_name auth_priv = "authPriv"

-- The configuration of a device agrees with credentials.
pub record Agrees (creds : Credentials) (ip : String) (conf : DeviceTemplateData) : Type 0 where
  pub address : conf.ip_address ≡ ip
  pub community : conf.community ≡ creds.community
  pub user : conf.v3_user ≡ creds.v3_user
  pub auth_password : conf.v3_auth_password ≡ creds.v3_auth_key
  pub priv_password : conf.v3_priv_password ≡ creds.v3_priv_key
  pub auth_protocol : conf.v3_auth_protocol ≡ creds.v3_auth_protocol
  pub priv_protocol : conf.v3_priv_protocol ≡ creds.v3_priv_protocol
  pub level : conf.v3_sec_level ≡ level_name (msg_flags creds)
  pub version :
      (target : String) (timeout : ℕ) (client : Client)
      → build_client target creds timeout ≡ ok client
      → conf.version_number ≡ number_of client.version

level-flags :
    (creds : Credentials)
    → v3_sec_level creds.v3_auth_key creds.v3_priv_key ≡ level_name (msg_flags creds)
unfolding v3_sec_level msg_flags
level-flags creds = elim (Bool-cases (creds.v3_priv_key == "")) [
  | inr priv ↦ rw priv refl
  | inl none_set ↦ elim (Bool-cases (creds.v3_auth_key == "")) [
    | inl auth ↦ rw (none_set, auth) refl
    | inr auth ↦ rw (none_set, auth) refl
  ]
]

ok-inj : {A : Type 0} (a b : A) → Path (Result Error A) (ok a) (ok b) → a ≡ b
ok-inj a b h = cc

module _ (creds : Credentials) (target : String) (timeout : ℕ) (client : Client) where
  by_user-version :
      (auth : Result Error AuthProtocol) (priv : Result Error PrivProtocol)
      → by_user target creds timeout auth priv ≡ ok client
      → client.version ≡ version3
  by_user-version (err e) priv h = absurd (cc)
  by_user-version (ok a) (err e) h = absurd (cc)
  by_user-version (ok a) (ok p) h = sym (ap (λ c. c.version) (ok-inj _ client h))

  client-version :
      build_client target creds timeout ≡ ok client
      → version_number creds.version ≡ number_of client.version
  unfolding build_client version_number
  client-version h = elim (Bool-cases (creds.version == "v1")) [
    | inl v1 ↦ let made : ok _ ≡ ok client = rw v1 at h in rw (v1, ← ok-inj _ client made) refl
    | inr not1 ↦ elim (Bool-cases (creds.version == "v2c")) [
      | inl v2 ↦
          let made : ok _ ≡ ok client = rw (not1, v2) at h in
          let text : creds.version ≡ "v2c" = (eq_iff creds.version "v2c").0 v2 in
          rw (text, ← ok-inj _ client made) refl
      | inr not2 ↦ elim (Bool-cases (creds.version == "v3")) [
        | inl v3 ↦
            let made = rw (not1, not2, v3) at h in rw (not1, v3, by_user-version _ _ made) refl
        | inr not3 ↦ absurd (let bad : err _ ≡ ok client = rw (not1, not2, not3) at h in cc)
      ]
    ]
  ]

results_agree :
    (d : Device) (community auth priv : Result Error String) (creds : Credentials)
    → credentials_of d community auth priv ≡ ok creds
    → (conf : DeviceTemplateData) × (config_of d community auth priv ≡ ok conf)
      × Agrees creds d.ip_address conf
unfolding version_number v3_sec_level
results_agree d (err e) _ _ creds h = absurd (cc)
results_agree d (ok c) (err e) _ creds h = absurd (cc)
results_agree d (ok c) (ok a) (err e) creds h = absurd (cc)
results_agree d (ok c) (ok a) (ok p) creds h = (
  data_of d c a p,
  refl,
  subst (λ x. Agrees x d.ip_address (data_of d c a p)) (ok-inj _ creds h)
      (record {
        address = refl;
        community = refl;
        user = refl;
        auth_password = refl;
        priv_password = refl;
        auth_protocol = refl;
        priv_protocol = refl;
        level = level-flags _;
        version = λ target timeout client. client-version _ target timeout client;
      }),
)

-- Whenever the credentials of a device decrypt, so does its part of telegraf.conf, and it names the
-- address, the secrets, the protocols and the security level that the probes use, and the version of
-- the client that they build.
pub device_config-Agrees :
    (key : Key) (d : Device) (creds : Credentials)
    → decrypt_credentials key d ≡ ok creds
    → (conf : DeviceTemplateData) × (device_config key d ≡ ok conf) × Agrees creds d.ip_address conf
unfolding decrypt_credentials device_config
device_config-Agrees key d creds =
    results_agree d (decrypt key d.community) (decrypt key d.v3_auth_key)
      (decrypt key d.v3_priv_key) creds
