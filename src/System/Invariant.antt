-- ===== src/System/Invariant.antt =====
-- What every sequence of actions of the services keeps.
use beacon_v.World.{World}
use beacon_v.System.{Deployment, Reach, here, later}
use beacon_v.System.Sound.{IsSound, stable}
use beacon_v.Prelude.{none, ℤ, ◌≡◌, true}
use beacon_v.ConfigApi.{write_json, polling_interval}
use beacon_v.ConfigApi.Settings.{allowed_polling_interval, get_polling_interval}
use beacon_v.ConfigApi.Interval.{get-stored}
use beacon_v.System.Preservation.{run-keeps}

module _ (d : Deployment) where
  -- Whatever requests, ticks and packets the services handle, one after another, from a sound start:
  -- ids ascend, addresses are unique, versions and statuses are NULL or among those of the schema
  -- (a NULL passes its CHECK), both settings have an allowed value, and traps stay in the order they
  -- arrived in.
  pub Reach-IsSound : (start w : World) → IsSound start → Reach d start w → IsSound w
  Reach-IsSound start w h here = h
  Reach-IsSound start _ h (later r a) = run-keeps d (stable d.env) a _ (Reach-IsSound start _ h r)

  -- After any such sequence GET /settings/polling-interval answers 200 with an allowed interval, if
  -- the driver does not fail its statement.
  pub Reach-get_interval :
      (start w : World)
      → IsSound start
      → Reach d start w
      → d.env.fault w.ticks ≡ none
      → (n : ℤ) × (allowed_polling_interval n ≡ true)
        × ((get_polling_interval d.env w).0 ≡ write_json 200 (polling_interval n))
  Reach-get_interval start w h r works =
      let (n, allowed, stored) = (Reach-IsSound start w h r).interval in
      (n, allowed, get-stored d.env w n allowed stored works)
