-- ===== src/System/Inventory.antt =====
-- chat-api on top of config-api: whose addresses a conversation may ask InfluxDB about.
use beacon_v.Prelude.{
  ℕ, String, Bool, true, false, ◌||◌, Option, none, some, List, [], ◌∷◌, ◌==◌, map, All, ◌≡◌, refl,
  sym, ◌∙◌, Bool-cases, Option-cases, inl, inr,
}
use beacon_v.Exec.{Result, Result-cases, ok, err, ◌>>=◌, or_fail}
use beacon_v.World.{Error, message, Row, World, Env}
use beacon_v.Store.{Device, statement, has_null, scan_device, scan_all, find_ip}
use beacon_v.Store.Devices as StoreDevices
use beacon_v.Http.{Request}
use beacon_v.ConfigApi.{DeviceResponse, Body, devices, to_device_response, answer}
use beacon_v.ConfigApi.Devices
use beacon_v.ConfigApi.Devices.{DeviceHandler}
use beacon_v.ConfigApi.Traps.{TrapsHandler, TrapVarbind}
use beacon_v.ConfigApi.Server.{Content, json, plain, empty, Decoders, serve}
use beacon_v.ChatApi.Devices.{KnownDevice}
use beacon_v.ChatApi.Float.{Float}
use beacon_v.ChatApi.Services.{Services, Chat, Response as ChatResponse}
use beacon_v.ChatApi.SubFilter.{ToolContext}
use beacon_v.ChatApi.Gemini.{Model, GeminiClient, HistoryTurn, run_chat}
use beacon_v.ChatApi.Gemini.Queries.{run_chat-Permitted}
use beacon_v.ChatApi.Tools.Permitted.{
  has_host, Listed, Permitted, values, metric_query, ranking_query,
}
use beacon_v.System.{Deployment, Reach}

-- chat-api/devices.go, `device`: what is read of a device's JSON.
abbrev pub known : DeviceResponse → KnownDevice
known r = record {
  hostname = r.hostname;
  ip_address = r.ip_address;
  status = r.status;
  group_name = r.group_name;
}

abbrev pub known_devices : Body → Result Error (List KnownDevice)
known_devices (devices ds) = ok (map known ds)
known_devices _ = err (message "json: cannot unmarshal object into []main.device")

abbrev pub decoded_devices : Content → Result Error (List KnownDevice)
decoded_devices (json b) = known_devices b
decoded_devices (plain s) = err (message "invalid character")
decoded_devices empty = err (message "EOF")

abbrev pub list_request : Request
list_request = record {
  method = "GET";
  path = "devices" ∷ [];
  query = λ _. "";
  remote_addr = "";
  body = "";
}

abbrev shown : Result Error (List Device) → Result Error (List KnownDevice)
shown (ok ds) = ok (map known (map to_device_response ds))
shown (err e) = err (message "json: cannot unmarshal object into []main.device")

abbrev in_shown : Result Error (List KnownDevice) → String → Bool
in_shown (ok ds) host = has_host ds host
in_shown (err e) host = false

shown-row :
    (rows : List Row) (host : String)
    → in_shown (shown (scan_all rows)) host ≡ true
    → (r : Row) × (find_ip host rows ≡ some r)
unfolding scan_all scan_device has_host find_ip to_device_response
shown-row [] host h = absurd (cc)
shown-row (r ∷ rs) host h = elim (Bool-cases (has_null r)) [
  | inl null ↦ absurd (let bad : false ≡ true = rw null at h in cc)
  | inr whole ↦ elim (Result-cases (scan_all rs)) [
    | inr (e, failed) ↦ absurd (let bad : false ≡ true = rw (whole, failed) at h in cc)
    | inl (ds, scanned) ↦
        let either : (r.ip_address == host || in_shown (shown (ok ds)) host) ≡ true =
          rw (whole, scanned) at h in
        elim (Bool-cases (r.ip_address == host)) [
          | inl same ↦ (r, rw same refl)
          | inr other ↦
              let tail : in_shown (shown (ok ds)) host ≡ true = rw other at either in
              let rest : in_shown (shown (scan_all rs)) host ≡ true = rw scanned tail in
              let (q, found) = shown-row rs host rest in (q, rw other found)
        ]
  ]
]

module _ (env : Env) (handler : DeviceHandler) (th : TrapsHandler)
    (payload : String → Option (List TrapVarbind)) (decode : Decoders) where
  abbrev pub listing : World → Result Error (List KnownDevice)
  listing w = decoded_devices (serve env handler th payload decode list_request w).0.body

  -- What is decoded of the reply is the scanned rows, if the driver does not fail.
  listing-shown : (w : World) → env.fault w.ticks ≡ none → listing w ≡ shown (scan_all w.devices)
  unfolding serve Devices.list StoreDevices.list answer ◌>>=◌ or_fail
  listing-shown w works = elim (Result-cases (scan_all w.devices)) [
    | inl (ds, scanned) ↦ rw (works, statement, scanned) refl
    | inr (e, failed) ↦ rw (works, statement, failed) refl
  ]

  listing-failed :
      (w : World) (host : String) (e : Error)
      → env.fault w.ticks ≡ some e
      → in_shown (listing w) host ≡ false
  unfolding serve Devices.list StoreDevices.list answer ◌>>=◌ or_fail
  listing-failed w host e failed = rw (failed, statement) refl

  pub listing-row :
      (w : World) (ds : List KnownDevice) (host : String)
      → listing w ≡ ok ds
      → has_host ds host ≡ true
      → (r : Row) × (find_ip host w.devices ≡ some r)
  listing-row w ds host decoded h =
      let named : in_shown (listing w) host ≡ true = rw decoded h in
      elim (Option-cases (env.fault w.ticks)) [
        | inr (e, failed) ↦
            absurd (let bad : false ≡ true = sym (listing-failed w host e failed) ∙ named in cc)
        | inl works ↦
            let rows : in_shown (shown (scan_all w.devices)) host ≡ true =
              rw (listing-shown w works) at named in
            shown-row w.devices host rows
      ]

-- The host that a permitted query is about.
abbrev pub host_of :
    {F : Type 0} {fl : Float F} {services : Services F} {tc : ToolContext} {q : String}
    → Permitted fl services tc q
    → String
host_of (values table column host mc known listed made) = host
host_of (metric_query table column host sub aggregation mc hours input known listed bounded made) =
    host
host_of (ranking_query table column host sub mc hours known listed bounded made) = host

-- config-api answered in a world that has a device with this address.
pub record Tracked (Was : World → Type 0) (host : String) : Type 0 where
  pub world : World
  pub was : Was world
  pub row : Row
  pub found : find_ip host world.devices ≡ some row

module _ (d : Deployment) (decode : Decoders) (start : World) where
  abbrev pub served_list : World → Result Error (List KnownDevice)
  served_list = listing d.env d.device_handler d.traps_handler d.decode_payload decode

  -- What chat-api decodes of a list of devices is the reply to GET /devices that config-api gave in
  -- some world that the system was in.
  abbrev pub Backed : {F : Type 0} → Services F → Type 0
  Backed services =
      (t : ℕ) (url : String) (response : ChatResponse (List KnownDevice))
      → services.get_devices t url ≡ ok response
      → (w : World) × Reach d start w × (response.decoded ≡ served_list w)

  module _ {F : Type 0} (fl : Float F) (services : Services F) (model : Model F)
      (client : GeminiClient) (tc : ToolContext) (backed : Backed services) where
    Listed-Tracked : (host : String) → Listed fl services tc host → Tracked (Reach d start) host
    Listed-Tracked host l =
        let a = l.answered in
        let (w, reached, same) = backed a.at a.url a.response a.answer in
        let (r, found) =
          listing-row d.env d.device_handler d.traps_handler d.decode_payload decode w l.devices
            host (sym same ∙ a.decoded) l.listed in
        record { world = w; was = reached; row = r; found = found }

    Permitted-Tracked :
        (q : String) (p : Permitted fl services tc q) → Tracked (Reach d start) (host_of p)
    Permitted-Tracked q (values table column host mc known listed made) = Listed-Tracked host listed
    Permitted-Tracked q
          (metric_query table column host sub aggregation mc hours input known listed bounded
            made) =
        Listed-Tracked host listed
    Permitted-Tracked q (ranking_query table column host sub mc hours known listed bounded made) =
        Listed-Tracked host listed

    all-Tracked :
        (qs : List String)
        → All (Permitted fl services tc) qs
        → All (λ q. (p : Permitted fl services tc q) × Tracked (Reach d start) (host_of p)) qs
    all-Tracked [] h = tt
    all-Tracked (q ∷ qs) h = ((h.0, Permitted-Tracked q h.0), all-Tracked qs h.1)

    -- If config-api answers chat-api's requests for devices with its table as it was at some time,
    -- then whatever the model asks the tools for, each query that a conversation sends to InfluxDB is
    -- a permitted one about an address that the table of devices had at such a time.
    pub run_chat-Tracked :
        (question : String) (history : List HistoryTurn) (c : Chat)
        → c.queries ≡ []
        → All
            (λ q. (p : Permitted fl services tc q) × Tracked (Reach d start) (host_of p))
            (run_chat fl services model client tc question history c).1.queries
    run_chat-Tracked question history c none_sent =
        all-Tracked _ (run_chat-Permitted fl services model client tc question history c none_sent)
