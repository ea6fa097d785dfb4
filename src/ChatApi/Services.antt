-- ===== src/ChatApi/Services.antt =====
-- chat-api/influx.go and devices.go: the HTTP clients of InfluxDB and of config-api.
use beacon_v.Prelude.{
  ℕ, suc, String, Bool, true, Option, none, some, List, [], ◌∷◌, ◌++◌, ◌<>◌, ◌+◌, eqb, ltb, keep,
  itoa, if◌then◌else◌,
}
use beacon_v.Exec.{Result, Exec, pure, fail, lift, gets, ◌>>=◌, or_fail}
use beacon_v.World.{Error, message, wrap}
use beacon_v.ChatApi.Float.{Float}
use beacon_v.ChatApi.Devices.{KnownDevice}

-- A decoded JSON value: what the tools look at are its texts and numbers.
pub data Value (F : Type 0) : Type 0 where
  string : String → Value F
  float : F → Value F
  neither : Value F

-- `map[string]any`.
abbrev pub Object : Type 0 → Type 0
Object F = List (String × Value F)

pub record ReadableTrap : Type 0 where
  pub id : ℕ
  pub source_ip : String
  pub oid : String
  pub name : String
  pub received_at : String

-- A response: its status, its body, which may break off, and what `json.Unmarshal` makes of the body.
pub record Response (A : Type 0) : Type 0 where
  pub status : ℕ
  pub body : Result Error String
  pub decoded : Result Error A

pub record InfluxRequest : Type 0 where
  pub url : String
  pub authorization : String
  pub db : String
  pub q : String

-- The services behind the clients, the clock and the Unicode tables. Each answer may depend on how
-- many requests were made before it.
pub record Services (F : Type 0) : Type 0 where
  pub get_devices : ℕ → String → Result Error (Response (List KnownDevice))
  pub get_traps : ℕ → String → Result Error (Response (List ReadableTrap))
  pub post_query : ℕ → InfluxRequest → Result Error (Response (List (Object F)))
  -- Nanoseconds since an epoch before all times; `none` for a text that is not RFC 3339.
  pub now : ℕ → ℕ
  pub parse_time : String → Option ℕ
  pub trim_space : String → String
  pub to_lower : String → String
  pub equal_fold : String → String → Bool

-- What chat-api has done: the texts sent to InfluxDB, the number of requests to the model, and the
-- number of requests in all.
pub record Chat : Type 0 where
  pub queries : List String
  pub asked : ℕ
  pub ticks : ℕ

abbrev pub Chats : Type 0 → Type 0
Chats A = Exec Chat Error A

abbrev pub tick : Chat → Chat
tick c = record c { ticks = suc c.ticks }

abbrev pub ask : Chat → Chat
ask c = record c { asked = suc c.asked; ticks = suc c.ticks }

abbrev pub sent : String → Chat → Chat
sent q c = record c { queries = c.queries ++ q ∷ []; ticks = suc c.ticks }

pub record InfluxClient : Type 0 where
  pub url : String
  pub token : String
  pub database : String

pub record ConfigApiClient : Type 0 where
  pub base_url : String

-- Reading the whole body comes first, then the status is looked at.
unfoldable pub decode_ok :
    {A : Type 0}
    → (String → String)
    → (Error → Error)
    → (ℕ → String)
    → String
    → Response A
    → Chats A
decode_ok trim_space reading refused decoding resp = do
  body ← or_fail reading (lift resp.body)
  if eqb resp.status 200
      then or_fail (wrap decoding) (lift resp.decoded)
      else fail (message (refused resp.status <> trim_space body))

abbrev pub influx_refused : ℕ → String
influx_refused _ = "influxdb query failed: "

abbrev pub config_refused : ℕ → String
config_refused status = "config-api returned " <> itoa status <> ": "

-- `receivedAt.After(cutoff)`, the cutoff being `duration` before `now`; a time that cannot be read counts.
abbrev pub is_recent_trap : (String → Option ℕ) → ℕ → ℕ → ReadableTrap → Bool
is_recent_trap parse_time now duration t = elim (parse_time t.received_at) [
  | none ↦ true
  | some received_at ↦ ltb now (received_at + duration)
]

-- A request that changes the record of what was done by `note`.
unfoldable pub request : {A : Type 0} → (ℕ → Result Error A) → (Chat → Chat) → Chats A
request answer note c = (answer c.ticks, note c)

module _ {F : Type 0} (services : Services F) where
  unfoldable pub list_devices : ConfigApiClient → Chats (List KnownDevice)
  unfolding request decode_ok
  list_devices client = do
    resp ←
        or_fail (wrap "calling config-api")
          (request (λ t. services.get_devices t (client.base_url <> "/devices")) tick)
    decode_ok services.trim_space (λ e. e) config_refused "decoding config-api response" resp

  unfoldable pub get_recent_traps : Float F → ConfigApiClient → F → Chats (List ReadableTrap)
  unfolding request decode_ok
  get_recent_traps fl client hours = do
    resp ←
        or_fail (wrap "calling config-api") (
          request (λ t. services.get_traps t (client.base_url <> "/traps/readable?limit=500")) tick)
    traps ←
        decode_ok services.trim_space (λ e. e) config_refused "decoding config-api response" resp
    now ← gets (λ c. services.now c.ticks)
    pure (keep (is_recent_trap services.parse_time now (fl.hours_duration hours)) traps)

  unfoldable pub query : InfluxClient → String → Chats (List (Object F))
  unfolding request decode_ok
  query client sql = do
    resp ← or_fail (wrap "querying influxdb") (
        request
          (λ t. services.post_query t (record {
            url = client.url <> "/api/v3/query_sql";
            authorization = "Bearer " <> client.token;
            db = client.database;
            q = sql;
          }))
          (sent sql))
    decode_ok services.trim_space (wrap "reading influxdb response") influx_refused
        "decoding influxdb response" resp
