-- ===== src/Examples/Starts.antt =====
-- The first start of the services, and requests for one device, at the example environment.
use beacon_v.Prelude.{none, ◌∷◌, [], ◌≡◌, refl, pos, parse_int}
use beacon_v.Exec.{ok, ◌>>=◌, or_fail}
use beacon_v.World.{World, null}
use beacon_v.Store.Opening.{open_databases}
use beacon_v.ConfigApi.Devices
use beacon_v.ConfigApi.Others.{OthersKept, one_device-OthersKept}
use beacon_v.System.{run, create_device, set_interval, Reach, here, later}
use beacon_v.System.Sound.{IsSound}
use beacon_v.System.FirstStart.{new_files, new, started-IsSound}
use beacon_v.Examples.Cipher.{sample_env}
use beacon_v.Examples.Tables.{deployment, new_request, stocked, stocked-IsValid, handler}

abbrev opened : World
opened = (open_databases sample_env (new_files none 0 0)).1

defaults_test :
    opened.settings
    ≡ ("polling_interval_seconds", "60") ∷ ("credential_duplication_enabled", "0") ∷ []
unfolding open_databases ◌>>=◌ or_fail
defaults_test = refl

abbrev later_on : World
later_on =
    run deployment (create_device (ok new_request))
      (run deployment (set_interval (ok (pos 300))) opened)

later_on-Reach : Reach deployment opened later_on
later_on-Reach = later (later here (set_interval (ok (pos 300)))) (create_device (ok new_request))

started-IsSound_example : IsSound later_on
unfolding open_databases ◌>>=◌ or_fail
started-IsSound_example =
    started-IsSound deployment (new_files none 0 0) later_on (new none 0 0) refl later_on-Reach

one_device-OthersKept_example :
    OthersKept
      (pos 1)
      stocked
      (Devices.update sample_env handler "1" (ok (("status", null) ∷ [])) stocked).1
    × OthersKept (pos 1) stocked (Devices.delete sample_env handler "1" stocked).1
unfolding parse_int
one_device-OthersKept_example =
    one_device-OthersKept sample_env handler "1" (pos 1) stocked (ok (("status", null) ∷ []))
      stocked-IsValid refl
