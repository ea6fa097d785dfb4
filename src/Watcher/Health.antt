-- ===== src/Watcher/Health.antt =====
-- config-watcher/healthcheck.go: the stored status follows what an SNMP read finds. The ping's
-- outcome is only logged, and is left out.
use beacon_v.Prelude.{ℕ, ◌*◌, [], ◌∷◌, ◌==◌, if◌then◌else◌, pos}
use beacon_v.Exec.{Result, ok, err, pure, ◌>>=◌, ◌>>◌, attempt, for_each}
use beacon_v.World.{Error, str, Env, Go}
use beacon_v.Crypto.{Key}
use beacon_v.Snmp.{Credentials, verify, verdict, second}
use beacon_v.Store.{Device}
use beacon_v.Store.Devices
use beacon_v.Watcher.{decrypt_credentials}

abbrev pub health_check_timeout : ℕ
health_check_timeout = 3 * second

module _ (env : Env) (key : Key) where
  abbrev pub check_with : Device → Result Error Credentials → Go (Unit {0})
  check_with d (err _) = pure tt
  check_with d (ok creds) = do
    r ← attempt (verify env d.ip_address creds health_check_timeout)
    if verdict r == d.status then pure tt else (do
      attempt (Devices.update env (pos d.id) (("status", str (verdict r)) ∷ []))
      pure tt)

  -- One round of the loop; a device with no version set has no credentials yet.
  unfoldable pub check_device : Device → Go (Unit {0})
  check_device d =
      if d.snmp_version == "" then pure tt else check_with d (decrypt_credentials key d)

  unfoldable pub check_device_health : Go (Unit {0})
  unfolding check_device
  check_device_health = do all ← Devices.list env; for_each all check_device
