-- ===== src/ConfigApi/Server.antt =====
-- config-api/main.go: the routes of the configuration service, from an HTTP request to a reply. The
-- decoding of JSON bodies is the Go library's: `Decoders` is its outcome.
pub mod Actions
pub mod Documented
use beacon_v.Prelude.{ℕ, String, Bool, Option, some, true, List, [], ◌∷◌, ℤ}
use beacon_v.Exec.{Result}
use beacon_v.World.{Error, Json, World, Env}
use beacon_v.Crypto.{Key}
use beacon_v.Http.{
  Request, Reply, Segment, Pattern, literal, wildcard, Route, found, wrong_method, no_route, route,
  with_cors,
}
use beacon_v.ConfigApi.{Body, Response, Handler, no_content}
use beacon_v.ConfigApi.Devices
use beacon_v.ConfigApi.Devices.{DeviceHandler, DeviceRequest}
use beacon_v.ConfigApi.Settings
use beacon_v.ConfigApi.Traps
use beacon_v.ConfigApi.Traps.{TrapsHandler, TrapVarbind}

-- The two handlers with a key, as main builds them.
abbrev pub device_handler : Key → DeviceHandler
device_handler key = record { key = key; probe_timeout = 0 }

abbrev pub traps_handler : Key → TrapsHandler
traps_handler key = record { devices = true; key = some key }

pub record Decoders : Type 0 where
  pub device_request : String → Result Error DeviceRequest
  pub updates : String → Result Error (List (String × Json))
  pub interval : String → Result Error ℤ
  pub duplication : String → Result Error Bool

-- The functions that main registers.
pub data Endpoint : Type 0 where
  healthz : Endpoint
  list_devices create_device get_device update_device delete_device : Endpoint
  get_interval set_interval get_duplication set_duplication : Endpoint
  list_traps list_readable_traps : Endpoint

abbrev device_path : List Segment
device_path = literal "devices" ∷ wildcard ∷ []

abbrev pattern_of : String → List Segment → Pattern
pattern_of method segments = record { method = method; segments = segments }

abbrev pub routes : List (Pattern × Endpoint)
routes =
    (pattern_of "GET" (literal "healthz" ∷ []), healthz)
    ∷ (pattern_of "GET" (literal "devices" ∷ []), list_devices)
    ∷ (pattern_of "POST" (literal "devices" ∷ []), create_device)
    ∷ (pattern_of "GET" device_path, get_device)
    ∷ (pattern_of "PATCH" device_path, update_device)
    ∷ (pattern_of "DELETE" device_path, delete_device)
    ∷ (pattern_of "GET" (literal "settings" ∷ literal "polling-interval" ∷ []), get_interval)
    ∷ (pattern_of "POST" (literal "settings" ∷ literal "polling-interval" ∷ []), set_interval)
    ∷ (
      pattern_of "GET" (literal "settings" ∷ literal "credential-duplication" ∷ []),
      get_duplication,
    )
    ∷ (
      pattern_of "POST" (literal "settings" ∷ literal "credential-duplication" ∷ []),
      set_duplication,
    )
    ∷ (pattern_of "GET" (literal "traps" ∷ []), list_traps)
    ∷ (pattern_of "GET" (literal "traps" ∷ literal "readable" ∷ []), list_readable_traps)
    ∷ []

-- A body is JSON, a text, or nothing.
pub data Content : Type 0 where
  json : Body → Content
  plain : String → Content
  empty : Content

abbrev pub to_reply : Response → Reply Content
to_reply r = elim r.body [
  | no_content ↦ record { headers = []; status = r.status; body = empty }
  | b ↦ record {
    headers = ("Content-Type", "application/json") ∷ [];
    status = r.status;
    body = json b;
  }
]

abbrev pub text_reply : ℕ → String → Reply Content
text_reply status s = record { headers = []; status = status; body = plain s }

abbrev pub reply_of : Response × World → Reply Content × World
reply_of x = (to_reply x.0, x.1)

module _ (env : Env) (h : DeviceHandler) (th : TrapsHandler)
    (decode_payload : String → Option (List TrapVarbind)) (decode : Decoders) where
  unfoldable pub call_endpoint : Endpoint → String → Request → World → Reply Content × World
  call_endpoint healthz id r w = (text_reply 200 "ok", w)
  call_endpoint list_devices id r w = reply_of (Devices.list env h w)
  call_endpoint create_device id r w =
      reply_of (Devices.create env h (decode.device_request r.body) w)
  call_endpoint get_device id r w = reply_of (Devices.get env h id w)
  call_endpoint update_device id r w = reply_of (Devices.update env h id (decode.updates r.body) w)
  call_endpoint delete_device id r w = reply_of (Devices.delete env h id w)
  call_endpoint get_interval id r w = reply_of (Settings.get_polling_interval env w)
  call_endpoint set_interval id r w =
      reply_of (Settings.set_polling_interval env (decode.interval r.body) w)
  call_endpoint get_duplication id r w = reply_of (Settings.get_credential_duplication env w)
  call_endpoint set_duplication id r w =
      reply_of (Settings.set_credential_duplication env (decode.duplication r.body) w)
  call_endpoint list_traps id r w = reply_of (Traps.list env th (r.query "limit") w)
  call_endpoint list_readable_traps id r w =
      reply_of (Traps.list_readable env th decode_payload (r.query "limit") w)

  abbrev pub call_route : Route Endpoint → Request → World → Reply Content × World
  call_route (found e id) r w = call_endpoint e id r w
  call_route wrong_method r w = (text_reply 405 "Method Not Allowed\n", w)
  call_route no_route r w = (text_reply 404 "404 page not found\n", w)

  unfoldable pub mux : Request → World → Reply Content × World
  unfolding route call_endpoint
  mux r w = call_route (route r.method r.path routes) r w

  unfoldable pub serve : Request → World → Reply Content × World
  unfolding mux with_cors
  serve r w = with_cors "GET, POST, PATCH, DELETE, OPTIONS" empty mux r w
