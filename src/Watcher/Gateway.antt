-- ===== src/Watcher/Gateway.antt =====
-- A gateway that is in the table already is left alone by config-watcher/discovery.go.
use beacon_v.Prelude.{String, some, Option-cases, inl, inr, ◌≡◌, refl}
use beacon_v.Exec.{Result-cases, ok, ◌>>=◌, or_fail, attempt}
use beacon_v.World.{Row, World, Env, tick}
use beacon_v.Crypto.{Key}
use beacon_v.Store.{find_ip, scan_device, statement}
use beacon_v.Store.Devices.{get_by_ip}
use beacon_v.Watcher.Discovery.{discover_gateway_device}

module _ (env : Env) (key : Key) (ip : String) (w : World) (r : Row)
    (tracked : find_ip ip w.devices ≡ some r) where
  -- A gateway whose address is in the table is left alone, whether its lookup works or fails: nothing
  -- changes but the count of calls.
  pub discover_gateway_device-tracked : (discover_gateway_device env key (ok ip) w).1 ≡ tick w
  unfolding discover_gateway_device get_by_ip ◌>>=◌ or_fail attempt
  discover_gateway_device-tracked = elim (Option-cases (env.fault w.ticks)) [
    | inr (e, fails) ↦ rw (fails, statement) refl
    | inl works ↦ elim (Result-cases (scan_device r)) [
      | inl (d, done) ↦ rw (works, tracked, done, statement) refl
      | inr (e, failed) ↦ rw (works, tracked, failed, statement) refl
    ]
  ]
