-- ===== src/ChatApi/Server.antt =====
-- chat-api/main.go: the start of the chat service from its environment variables, and its routes.
pub mod Reached
pub mod Budget
use beacon_v.Prelude.{
  ℕ, ◌*◌, String, Option, none, some, List, [], ◌∷◌, ◌==◌, trim_slash, if◌then◌else◌,
}
use beacon_v.Exec.{Result}
use beacon_v.World.{Error}
use beacon_v.Process.{env_or_default}
use beacon_v.Http.{
  Request, Reply, Pattern, literal, Route, found, wrong_method, no_route, route, with_cors,
}
use beacon_v.ChatApi.RateLimit.{new_rate_limiter}
use beacon_v.ChatApi.Float.{Float}
use beacon_v.ChatApi.Services.{Services, Chat, InfluxClient, ConfigApiClient}
use beacon_v.ChatApi.SubFilter.{ToolContext}
use beacon_v.ChatApi.Gemini.{Model, GeminiClient}
use beacon_v.ChatApi.Handler.{ChatRequest, ChatReply, ChatServer, answer, refusal, handle}

-- `time.Minute`, in nanoseconds.
abbrev pub minute : ℕ
minute = 60 * 1000000000

abbrev pub max_requests : ℕ
max_requests = 10

unfoldable pub new_influx_client : String → String → String → InfluxClient
unfolding trim_slash
new_influx_client url token database = record {
  url = trim_slash url;
  token = token;
  database = database;
}

unfoldable pub new_config_api_client : String → ConfigApiClient
unfolding trim_slash
new_config_api_client base_url = record { base_url = trim_slash base_url }

-- What main builds from the variables: the clients, and the server with its empty limiter.
pub record ChatService : Type 0 where
  pub client : GeminiClient
  pub tools : ToolContext
  pub server : Chat → ChatServer

unfoldable pub service_of : (String → String) → String → ChatService
unfolding env_or_default new_influx_client new_config_api_client
service_of getenv api_key = record {
  client = record {
    api_key = api_key;
    model = env_or_default getenv "GEMINI_MODEL" "gemini-2.5-flash";
  };
  tools = record {
    influx =
        new_influx_client (env_or_default getenv "INFLUXDB_URL" "http://influxdb:8181")
          (getenv "INFLUXDB_TOKEN") (env_or_default getenv "INFLUXDB_DATABASE" "network_monitor");
    config_api =
        new_config_api_client (env_or_default getenv "CONFIG_API_URL" "http://config-api:8080");
  };
  server = λ chat. record { rate_limiter = new_rate_limiter max_requests minute; chat = chat };
}

-- Without a key main exits.
unfoldable pub start : (String → String) → Option ChatService
unfolding service_of
start getenv =
    if getenv "GEMINI_API_KEY" == ""
    then none
    else some (service_of getenv (getenv "GEMINI_API_KEY"))

pub data Endpoint : Type 0 where
  healthz chat : Endpoint

abbrev pub healthz_pattern : Pattern
healthz_pattern = record { method = "GET"; segments = literal "healthz" ∷ [] }

abbrev pub chat_pattern : Pattern
chat_pattern = record { method = "POST"; segments = literal "chat" ∷ [] }

abbrev pub routes : List (Pattern × Endpoint)
routes = (healthz_pattern, healthz) ∷ (chat_pattern, chat) ∷ []

-- A body is JSON with an answer or an error, a text, or nothing.
pub data Content : Type 0 where
  answer_json : String → Content
  error_json : Error → Content
  plain : String → Content
  empty : Content

abbrev pub json_reply : ℕ → Content → Reply Content
json_reply status body = record {
  headers = ("Content-Type", "application/json") ∷ [];
  status = status;
  body = body;
}

abbrev pub to_reply : ChatReply → Reply Content
to_reply (answer text) = json_reply 200 (answer_json text)
to_reply (refusal status e) = json_reply status (error_json e)

abbrev pub text_reply : ℕ → String → Reply Content
text_reply status s = record { headers = []; status = status; body = plain s }

abbrev pub reply_of : ChatReply × ChatServer → Reply Content × ChatServer
reply_of x = (to_reply x.0, x.1)

module _ {F : Type 0} (fl : Float F) (services : Services F) (model : Model F)
    (service : ChatService) (split_host_port : String → Option String)
    (decode : String → Result Error ChatRequest) where
  -- The handler at the time `now`.
  unfoldable pub handle_request : ℕ → Request → ChatServer → ChatReply × ChatServer
  unfolding handle
  handle_request now r server =
      handle fl services model service.client service.tools split_host_port now r.remote_addr
        (decode r.body) server

  unfoldable pub call_route : ℕ → Route Endpoint → Request → ChatServer → Reply Content × ChatServer
  unfolding handle_request
  call_route now (found healthz _) r server = (text_reply 200 "ok", server)
  call_route now (found chat _) r server = reply_of (handle_request now r server)
  call_route now wrong_method r server = (text_reply 405 "Method Not Allowed\n", server)
  call_route now no_route r server = (text_reply 404 "404 page not found\n", server)

  unfoldable pub mux : ℕ → Request → ChatServer → Reply Content × ChatServer
  unfolding route call_route
  mux now r server = call_route now (route r.method r.path routes) r server

  unfoldable pub serve : ℕ → Request → ChatServer → Reply Content × ChatServer
  unfolding mux with_cors
  serve now r server = with_cors "GET, POST, OPTIONS" empty (mux now) r server
