-- ===== src/ConfigApi/Server/Actions.antt =====
-- config-api/main.go: what an HTTP request does to the tables.
use beacon_v.Prelude.{
  ◌≤◌, String, Option, Bool, true, false, ◌||◌, List, ◌==◌, length, keep, ◌≡◌, refl,
}
use beacon_v.World.{World, Env}
use beacon_v.World.Ticks.{IgnoresTicks}
use beacon_v.Http.{Request, Route, found, wrong_method, no_route, Reply, route}
use beacon_v.Http.Routes.{all_apart, entry_matches, at_most_one}
use beacon_v.Http.Writes.{fit_writes, GoodRoute, route-Good}
use beacon_v.ConfigApi.Reading.{
  list-HandlerKeeps, get-HandlerKeeps, get_polling_interval-HandlerKeeps,
  get_credential_duplication-HandlerKeeps, list_traps-HandlerKeeps, list_readable-HandlerKeeps,
}
use beacon_v.ConfigApi.Devices.{DeviceHandler}
use beacon_v.ConfigApi.Traps.{TrapsHandler, TrapVarbind}
use beacon_v.ConfigApi.Server
use beacon_v.ConfigApi.Server.{
  Endpoint, Decoders, Content, routes, call_endpoint, call_route, mux, serve,
}
use beacon_v.System.{Deployment, Reach, here, later, run}
use beacon_v.System
use beacon_v.Http.Cors.{with_cors-keeps}

-- No request matches two of the patterns that main registers, so that neither their order nor the
-- mux's precedence decides which handler runs.
pub routes-at_most_one :
    (method : String) (path : List String) → length (keep (entry_matches method path) routes) ≤ 1
unfolding all_apart
routes-at_most_one method path = at_most_one method path routes refl

-- The tables, telegraf.conf and the reloads are the same; only calls were counted.
abbrev pub Unchanged : World → World → Type 0
Unchanged w v = record v { ticks = w.ticks } ≡ w

abbrev pub is_writing : String → Bool
is_writing method = (method == "POST") || ((method == "PATCH") || (method == "DELETE"))

abbrev is_reading : Endpoint → Bool
is_reading e = elim e [
  | Server.create_device ↦ false
  | Server.update_device ↦ false
  | Server.delete_device ↦ false
  | Server.set_interval ↦ false
  | Server.set_duplication ↦ false
  | _ ↦ true
]

module _ (env : Env) (h : DeviceHandler) (th : TrapsHandler)
    (decode_payload : String → Option (List TrapVarbind)) (decode : Decoders) where
  abbrev served : Request → World → Reply Content × World
  served = serve env h th decode_payload decode

  module _ {P : World → Type 0} (ignores : IgnoresTicks P) where
    endpoint-Keeps :
        (e : Endpoint) (id : String) (r : Request) (w : World)
        → is_reading e ≡ true
        → P w
        → P (call_endpoint env h th decode_payload decode e id r w).1
    unfolding call_endpoint
    endpoint-Keeps Server.healthz id r w reads p = p
    endpoint-Keeps Server.list_devices id r w reads p = list-HandlerKeeps env ignores h w p
    endpoint-Keeps Server.create_device id r w reads p = absurd (cc)
    endpoint-Keeps Server.get_device id r w reads p = get-HandlerKeeps env ignores h id w p
    endpoint-Keeps Server.update_device id r w reads p = absurd (cc)
    endpoint-Keeps Server.delete_device id r w reads p = absurd (cc)
    endpoint-Keeps Server.get_interval id r w reads p =
        get_polling_interval-HandlerKeeps env ignores w p
    endpoint-Keeps Server.set_interval id r w reads p = absurd (cc)
    endpoint-Keeps Server.get_duplication id r w reads p =
        get_credential_duplication-HandlerKeeps env ignores w p
    endpoint-Keeps Server.set_duplication id r w reads p = absurd (cc)
    endpoint-Keeps Server.list_traps id r w reads p =
        list_traps-HandlerKeeps env ignores th (r.query "limit") w p
    endpoint-Keeps Server.list_readable_traps id r w reads p =
        list_readable-HandlerKeeps env ignores th decode_payload (r.query "limit") w p

    route-Keeps :
        (x : Route Endpoint) (r : Request) (w : World)
        → GoodRoute is_reading is_writing x
        → P w
        → P (call_route env h th decode_payload decode x r w).1
    route-Keeps (found e id) r w good p = endpoint-Keeps e id r w good p
    route-Keeps wrong_method r w good p = p
    route-Keeps no_route r w good p = p

    mux-Keeps :
        (r : Request) (w : World)
        → is_writing r.method ≡ false
        → P w
        → P (mux env h th decode_payload decode r w).1
    unfolding mux fit_writes
    mux-Keeps r w reads p =
        route-Keeps (route r.method r.path routes) r w
          (route-Good is_reading is_writing r.method r.path routes refl reads) p

  Unchanged-ignores : (w : World) → IgnoresTicks (Unchanged w)
  Unchanged-ignores w v same = same

  -- A request whose method is none of POST, PATCH and DELETE changes nothing in the tables, in
  -- telegraf.conf or of the reloads.
  pub serve-Unchanged :
      (r : Request) (w : World) → is_writing r.method ≡ false → Unchanged w (served r w).1
  unfolding serve
  serve-Unchanged r w reads =
      with_cors-keeps _ _ (mux env h th decode_payload decode) (Unchanged w) r w refl
        (mux-Keeps (Unchanged-ignores w) r w reads refl)

module _ (d : Deployment) (decode : Decoders) where
  abbrev answered : Request → World → Reply Content × World
  answered = serve d.env d.device_handler d.traps_handler d.decode_payload decode

  endpoint-Reach :
      (e : Endpoint) (id : String) (r : Request) {start w : World}
      → Reach d start w
      → Reach d start
          (call_endpoint d.env d.device_handler d.traps_handler d.decode_payload decode e id r w).1
  unfolding call_endpoint run
  endpoint-Reach Server.healthz id r p = p
  endpoint-Reach Server.list_devices id r p = later p System.list_devices
  endpoint-Reach Server.create_device id r p =
      later p (System.create_device (decode.device_request r.body))
  endpoint-Reach Server.get_device id r p = later p (System.get_device id)
  endpoint-Reach Server.update_device id r p =
      later p (System.update_device id (decode.updates r.body))
  endpoint-Reach Server.delete_device id r p = later p (System.delete_device id)
  endpoint-Reach Server.get_interval id r p = later p System.get_interval
  endpoint-Reach Server.set_interval id r p = later p (System.set_interval (decode.interval r.body))
  endpoint-Reach Server.get_duplication id r p = later p System.get_duplication
  endpoint-Reach Server.set_duplication id r p =
      later p (System.set_duplication (decode.duplication r.body))
  endpoint-Reach Server.list_traps id r p = later p (System.list_traps (r.query "limit"))
  endpoint-Reach Server.list_readable_traps id r p =
      later p (System.list_readable_traps (r.query "limit"))

  route-Reach :
      (x : Route Endpoint) (r : Request) {start w : World}
      → Reach d start w
      → Reach d start
          (call_route d.env d.device_handler d.traps_handler d.decode_payload decode x r w).1
  route-Reach (found e id) r p = endpoint-Reach e id r p
  route-Reach wrong_method r p = p
  route-Reach no_route r p = p

  -- Whatever HTTP request arrives, with any method, path and body, the world after its reply is one
  -- that the actions of the system lead to.
  serve-Reach : (r : Request) (start w : World) → Reach d start w → Reach d start (answered r w).1
  unfolding serve mux
  serve-Reach r start w p =
      with_cors-keeps _ _ (mux d.env d.device_handler d.traps_handler d.decode_payload decode)
        (Reach d start) r w p (route-Reach (route r.method r.path routes) r p)
