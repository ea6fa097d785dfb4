-- ===== src/Watcher/Discovery.antt =====
-- config-watcher/discovery.go: the default gateway becomes a device. The gateway's address is the
-- outcome of the detection library.
use beacon_v.Prelude.{ℕ, ◌*◌, String, false, [], ◌∷◌, pos}
use beacon_v.Exec.{Result, ok, err, pure, fail, lift, ◌>>=◌, attempt}
use beacon_v.Netutil.{is_public}
use beacon_v.World.{Error, not_found, str, Env, Go}
use beacon_v.Crypto.{Key, encrypt}
use beacon_v.Snmp.{Credentials, probe_defaults, second}
use beacon_v.Store.{Device}
use beacon_v.Store.Devices

abbrev pub probe_timeout : ℕ
probe_timeout = 2 * second

abbrev pub blank_device : Device
blank_device = record {
  id = 0;
  ip_address = "";
  hostname = "";
  snmp_version = "";
  community = "";
  v3_user = "";
  v3_auth_key = "";
  v3_priv_key = "";
  v3_auth_protocol = "";
  v3_priv_protocol = "";
  group_name = "";
  status = "";
  is_public_ip = false;
  discovered_via = "";
  created_at = "";
  updated_at = "";
}

module _ (env : Env) (key : Key) where
  unfoldable pub record_probe : ℕ → Result Error Credentials → Go (Unit {0})
  record_probe id (err _) = Devices.update env (pos id) (("status", str "failed") ∷ [])
  record_probe id (ok creds) = do
    community ← encrypt env key creds.community
    Devices.update env (pos id) (
        ("snmp_version", str creds.version)
        ∷ ("community", str community)
        ∷ ("status", str "active")
        ∷ [])

  -- The device becomes active with the working credentials, or failed.
  unfoldable pub probe_and_update : ℕ → String → Go (Unit {0})
  unfolding record_probe
  probe_and_update id ip = do r ← attempt (probe_defaults env ip probe_timeout); record_probe id r

  -- An address that is tracked already, or whose lookup fails, is left alone.
  abbrev pub track : String → Result Error Device → Go (Unit {0})
  track ip (ok _) = pure tt
  track ip (err not_found) = do
    id ← Devices.create env (record blank_device {
      ip_address = ip;
      status = "pending";
      is_public_ip = is_public env.v6_text ip;
      discovered_via = "gateway";
    })
    probe_and_update id ip
  track ip (err e) = fail e

  unfoldable pub discover_gateway_device : Result Error String → Go (Unit {0})
  unfolding probe_and_update
  discover_gateway_device gateway = do
    ip ← lift gateway
    r ← attempt (Devices.get_by_ip env ip)
    track ip r
