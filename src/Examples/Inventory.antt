-- ===== src/Examples/Inventory.antt =====
-- The example conversation with the device list of config-api.
use beacon_v.Prelude.{ℕ, some, List, [], ◌∷◌, All, ◌≡◌, refl, sym, ap, length}
use beacon_v.Exec.{Result, ok, err, ◌>>=◌, or_fail, attempt}
use beacon_v.World.{Error, World}
use beacon_v.Store.{scan_device}
use beacon_v.Store.Devices as StoreDevices
use beacon_v.ConfigApi.{answer, to_device_response}
use beacon_v.ConfigApi.Devices as ConfigDevices
use beacon_v.ConfigApi.Server.{serve}
use beacon_v.ChatApi.Devices.{KnownDevice}
use beacon_v.ChatApi.Services.{Services, Response, list_devices, query}
use beacon_v.ChatApi.Gemini.{run_chat, chat_rounds, generate, answer_calls}
use beacon_v.ChatApi.SubFilter.{resolve_sub_filter}
use beacon_v.ChatApi.Tools.{execute_tool, tool_query_metric}
use beacon_v.ChatApi.Tools.Permitted.{Permitted}
use beacon_v.System.{Reach, here}
use beacon_v.System.Inventory.{host_of, Tracked, served_list, Backed, run_chat-Tracked}
use beacon_v.Examples.Tables.{stocked, router_row, deployment}
use beacon_v.Examples.Requests.{sample_decoders}
use beacon_v.Examples.Chat.{
  whole, sample_services, sample_context, sample_model, sample_client, no_chat,
}

abbrev named : World
named = record stocked { devices = record router_row { hostname = some "R1" } ∷ [] }

abbrev list_response : Response (List KnownDevice)
list_response = record {
  status = 200;
  body = ok "";
  decoded = served_list deployment sample_decoders named named;
}

abbrev backed_services : Services ℕ
backed_services = record sample_services { get_devices = λ t url. ok list_response }

abbrev decoded_of : Result Error (Response (List KnownDevice)) → Result Error (List KnownDevice)
decoded_of (ok r) = r.decoded
decoded_of (err e) = err e

backed : Backed deployment sample_decoders named backed_services
backed t url response e = (named, here, ap decoded_of (sym e))

run_chat-Tracked_example :
    All
      (λ q.
        (p : Permitted whole backed_services sample_context q) × Tracked
          (Reach deployment named)
          (host_of p))
      (run_chat whole backed_services sample_model sample_client sample_context "How loaded is R1?"
        [] no_chat).1.queries
run_chat-Tracked_example =
    run_chat-Tracked deployment sample_decoders named whole backed_services sample_model
      sample_client sample_context backed "How loaded is R1?" [] no_chat refl

-- The conversation of the run does ask InfluxDB.
one_query_test :
    length
      (run_chat whole backed_services sample_model sample_client sample_context "How loaded is R1?"
        [] no_chat).1.queries
    ≡ 1
unfolding run_chat ◌>>=◌ or_fail attempt chat_rounds generate answer_calls execute_tool
    tool_query_metric list_devices serve ConfigDevices.list answer StoreDevices.list scan_device
    to_device_response resolve_sub_filter query
one_query_test = refl
