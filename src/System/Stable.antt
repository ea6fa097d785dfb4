-- ===== src/System/Stable.antt =====
-- What an invariant of the shared tables must survive, and the reads, which change nothing.
use beacon_v.Prelude.{String, Bool, true, ℤ, suc, some, List, ◌≡◌, if◌then◌else◌}
use beacon_v.Exec.{Result}
use beacon_v.Exec.Keeps.{Keeps, keeps_rules}
use beacon_v.World.{Error, Json, World, Env}
use beacon_v.World.Ticks.{IgnoresTicks}
use beacon_v.Store.{Device, statement}
use beacon_v.Store.Devices
use beacon_v.Store.Settings
use beacon_v.Store.Traps
use beacon_v.Store.Traps.{Trap}
use beacon_v.Store.Preservation.{Keeps-read}
use beacon_v.ConfigApi.Settings.{
  polling_interval_key, credential_duplication_key, allowed_polling_interval, int_text,
}

-- Every write that the services make: through the store, of telegraf.conf, and of the reloads.
pub record Stable (env : Env) (P : World → Type 0) : Type 0 where
  pub ignores : IgnoresTicks P
  pub creates : (d : Device) → Keeps P (Devices.create env d)
  pub updates : (id : ℤ) (us : List (String × Json)) → Keeps P (Devices.update env id us)
  pub deletes : (id : ℤ) → Keeps P (Devices.delete env id)
  pub records_trap : (t : Trap) → Keeps P (Traps.insert env t)
  pub sets_interval :
      (n : ℤ)
      → allowed_polling_interval n ≡ true
      → Keeps P (Settings.set env polling_interval_key (int_text n))
  pub sets_duplication :
      (b : Bool) → Keeps P (Settings.set env credential_duplication_key (if b then "1" else "0"))
  pub writes_conf : (text : String) (w : World) → P w → P (record w { conf = some text })
  pub reloads_once : (w : World) → P w → P (record w { reloads = suc w.reloads })

module _ {P : World → Type 0} (ignores : IgnoresTicks P) (env : Env) where
  reads : {A : Type 0} (f : World → Result Error A) → Keeps P (statement env (λ w. (f w, w)))
  reads = Keeps-read ignores env

  pub setting-keeps : (key : String) → Keeps P (Settings.get env key)
  unfolding Settings.get
  setting-keeps key = search (keeps_rules, reads)

  pub traps-keeps : (limit : ℤ) → Keeps P (Traps.list env limit)
  unfolding Traps.list
  traps-keeps limit = search (keeps_rules, reads)
