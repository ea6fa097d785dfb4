-- ===== src/ConfigApi/Reading.antt =====
-- The handlers of config-api/handlers that only read keep what counting calls does not change.
use beacon_v.Prelude.{String, List, [], ◌∷◌, Option, none, some, ◌==◌}
use beacon_v.Exec.{Exec, Result, ok, err}
use beacon_v.Exec.Keeps.{
  Keeps, Keeps-attempt, Keeps-bind, Keeps-pure, Keeps-or_fail, Keeps-if, keeps_rules,
}
use beacon_v.World.{Error, World, Env}
use beacon_v.World.Ticks.{IgnoresTicks}
use beacon_v.Crypto.{Key}
use beacon_v.Store.{Device}
use beacon_v.Store.Preservation.{list-keeps, get-keeps, get_by_ip-keeps}
use beacon_v.Store.Traps.{Trap}
use beacon_v.System.Stable.{setting-keeps, traps-keeps}
use beacon_v.ConfigApi.{Handler, Response, answer}
use beacon_v.ConfigApi.Devices
use beacon_v.ConfigApi.Devices.{DeviceHandler}
use beacon_v.ConfigApi.Settings
use beacon_v.ConfigApi.Traps
use beacon_v.ConfigApi.Traps.{
  TrapsHandler, TrapVarbind, Lookup, found_or, search_community, resolve_device, readable,
}

-- A handler leaves `P` as it found it.
abbrev pub HandlerKeeps : (World → Type 0) → Handler → Type 0
HandlerKeeps P h = (w : World) → P w → P (h w).1

pub answers :
    {P : World → Type 0} (m : Exec World Response Response) → Keeps P m → HandlerKeeps P (answer m)
unfolding answer
answers m k = k.after

module _ {P : World → Type 0} (env : Env) (ignores : IgnoresTicks P) where
  module _ (h : DeviceHandler) where
    pub list-HandlerKeeps : HandlerKeeps P (Devices.list env h)
    unfolding Devices.list
    list-HandlerKeeps =
        answers _ (Keeps-bind _ _ (Keeps-or_fail _ _ (list-keeps ignores env)) (λ ds. Keeps-pure _))

    pub get-HandlerKeeps : (path_id : String) → HandlerKeeps P (Devices.get env h path_id)
    unfolding Devices.get
    get-HandlerKeeps path_id = answers _ (search (keeps_rules, get-keeps ignores env))

  pub get_polling_interval-HandlerKeeps : HandlerKeeps P (Settings.get_polling_interval env)
  unfolding Settings.get_polling_interval
  get_polling_interval-HandlerKeeps = answers _ (search (keeps_rules, setting-keeps ignores env))

  pub get_credential_duplication-HandlerKeeps :
      HandlerKeeps P (Settings.get_credential_duplication env)
  unfolding Settings.get_credential_duplication
  get_credential_duplication-HandlerKeeps =
      answers _ (search (keeps_rules, setting-keeps ignores env))

  module _ (h : TrapsHandler) where
    search_community-Keeps :
        (community : String) (key : Option Key) → Keeps P (search_community env h community key)
    unfolding search_community
    search_community-Keeps community none = search keeps_rules
    search_community-Keeps community (some key) =
        Keeps-if (community == "") _ _ (λ _. Keeps-pure _)
          λ _. Keeps-bind _ _ (Keeps-attempt _ (list-keeps ignores env)) (λ r. Keeps-pure _)

    found_or-Keeps :
        (r : Result Error Device) (next : Lookup env h)
        → Keeps P next
        → Keeps P (found_or env h r next)
    found_or-Keeps (ok d) next k = search keeps_rules
    found_or-Keeps (err e) next k = k

    resolve_device-Keeps :
        (agent community : String) → Keeps P (resolve_device env h agent community)
    unfolding resolve_device
    resolve_device-Keeps agent community =
        search (keeps_rules, search_community-Keeps, found_or-Keeps, get_by_ip-keeps ignores env)

    readable-Keeps :
        (decode : String → Option (List TrapVarbind)) (ts : List Trap)
        → Keeps P (readable env h decode ts)
    unfolding readable
    readable-Keeps decode [] = search keeps_rules
    readable-Keeps decode (t ∷ ts) =
        Keeps-bind _ _ (resolve_device-Keeps t.agent_address t.community)
          λ device. Keeps-bind _ _ (readable-Keeps decode ts) (λ rest. Keeps-pure _)

    pub list_traps-HandlerKeeps : (query : String) → HandlerKeeps P (Traps.list env h query)
    unfolding Traps.list
    list_traps-HandlerKeeps query = answers _ (search (keeps_rules, traps-keeps ignores env))

    pub list_readable-HandlerKeeps :
        (decode : String → Option (List TrapVarbind)) (query : String)
        → HandlerKeeps P (Traps.list_readable env h decode query)
    unfolding Traps.list_readable
    list_readable-HandlerKeeps decode query =
        answers _ (search (keeps_rules, traps-keeps ignores env, readable-Keeps))
