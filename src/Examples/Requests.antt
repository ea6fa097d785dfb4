-- ===== src/Examples/Requests.antt =====
-- HTTP requests to config-api and chat-api at the example tables, services and model.
use beacon_v.Prelude.{
  ℕ, ◌≤◌, String, true, none, some, List, [], ◌∷◌, ◌==◌, if◌then◌else◌, ◌≡◌, refl, parse_int,
}
use beacon_v.Exec.{Result, ok, err, ◌>>=◌, or_fail}
use beacon_v.World.{World, Error, message}
use beacon_v.Http.{Request}
use beacon_v.Store.{scan_device}
use beacon_v.Store.Devices as StoreDevices
use beacon_v.ConfigApi.{answer}
use beacon_v.ConfigApi.Devices
use beacon_v.ConfigApi.Traps.{TrapsHandler}
use beacon_v.ConfigApi.Server
use beacon_v.ConfigApi.Server.{Decoders}
use beacon_v.ConfigApi.Server.Actions.{Unchanged, serve-Unchanged}
use beacon_v.ConfigApi.Server.Documented.{documented, shared, serve-documented}
use beacon_v.ChatApi.Handler.{ChatRequest}
use beacon_v.ChatApi.Server.{service_of, start}
use beacon_v.ChatApi.Server.Budget.{Arrival, spent, spent-minute}
use beacon_v.Examples.Cipher.{sample_key, sample_env}
use beacon_v.Examples.Tables.{stocked, handler, new_request}
use beacon_v.Examples.Chat.{whole, sample_services, sample_model, no_chat}

abbrev request : String → List String → Request
request method path = record {
  method = method;
  path = path;
  query = λ _. "";
  remote_addr = "10.0.0.9:5000";
  body = "{}";
}

abbrev pub sample_decoders : Decoders
sample_decoders = record {
  device_request = λ _. ok new_request;
  updates = λ _. ok [];
  interval = λ _. err (message "EOF");
  duplication = λ _. ok true;
}

abbrev traps_handler : TrapsHandler
traps_handler = Server.traps_handler sample_key

abbrev served : Request → World → ℕ × World
served r w =
    let (reply, v) =
      Server.serve sample_env handler traps_handler (λ _. none) sample_decoders r w in
    (reply.status, v)

status_tests :
    ((served (request "GET" ("devices" ∷ "1" ∷ [])) stocked).0 ≡ 200)
    × ((served (request "HEAD" ("devices" ∷ "7" ∷ [])) stocked).0 ≡ 404)
    × ((served (request "PUT" ("devices" ∷ [])) stocked).0 ≡ 405)
    × ((served (request "GET" ("devices" ∷ "" ∷ [])) stocked).0 ≡ 404)
    × ((served (request "OPTIONS" ("nowhere" ∷ [])) stocked).0 ≡ 204)
unfolding Server.serve Devices.get answer ◌>>=◌ parse_int or_fail StoreDevices.get scan_device
status_tests = (refl, refl, refl, refl, refl)

serve-Unchanged_example :
    Unchanged stocked
      (Server.serve sample_env handler traps_handler
        (λ _. none)
        sample_decoders
        (request "GET" ("devices" ∷ []))
        stocked).1
serve-Unchanged_example =
    serve-Unchanged sample_env handler traps_handler (λ _. none) sample_decoders
      (request "GET" ("devices" ∷ [])) stocked refl

serve-documented_example :
    Server.serve sample_env handler traps_handler
      (λ _. none)
      sample_decoders
      (request "DELETE" ("devices" ∷ "1" ∷ []))
      stocked
    ≡ shared (
        documented sample_env handler traps_handler
          (λ _. none)
          sample_decoders
          (request "DELETE" ("devices" ∷ "1" ∷ []))
          ("devices" ∷ "1" ∷ [])
          "DELETE"
          stocked)
serve-documented_example =
    serve-documented sample_env handler traps_handler (λ _. none) sample_decoders
      (request "DELETE" ("devices" ∷ "1" ∷ [])) stocked

abbrev variables : String → String
variables key = if key == "GEMINI_API_KEY" then "key" else ""

abbrev asks : String → Result Error ChatRequest
asks _ = ok (record { question = "How loaded is R1?"; history = [] })

abbrev arrivals : List Arrival
arrivals =
    record { gap = 5; request = request "POST" ("chat" ∷ []) }
    ∷ record { gap = 1; request = request "GET" ("chat" ∷ []) }
    ∷ record { gap = 1; request = request "POST" ("chat" ∷ []) }
    ∷ []

spent-minute_example :
    spent whole sample_services sample_model
      (service_of variables "key")
      (λ _. some "10.0.0.9")
      asks
      7
      "10.0.0.9"
      ((service_of variables "key").server no_chat)
      0
      arrivals
    ≤ 80
unfolding start
spent-minute_example =
    spent-minute whole sample_services sample_model variables (service_of variables "key")
      (λ _. some "10.0.0.9") asks no_chat arrivals 7 "10.0.0.9" refl
