-- ===== src/TrapReceiver/Server.antt =====
-- trap-receiver/main.go: its settings, and its health check over HTTP. The UDP listener is gosnmp's.
use beacon_v.Prelude.{ℕ, String, List, [], ◌∷◌}
use beacon_v.Process.{env_or_default}
use beacon_v.Http.{Request, Reply, Pattern, literal, Route, found, wrong_method, no_route, route}

pub record ReceiverSettings : Type 0 where
  pub db_path : String
  pub listen_addr : String
  pub health_addr : String

unfoldable pub receiver_settings : (String → String) → ReceiverSettings
unfolding env_or_default
receiver_settings getenv = record {
  db_path = env_or_default getenv "TRAPS_DB_PATH" "/data/traps.db";
  listen_addr = env_or_default getenv "TRAP_LISTEN_ADDR" "0.0.0.0:162";
  health_addr = env_or_default getenv "HEALTH_LISTEN_ADDR" ":8081";
}

pub data HealthEndpoint : Type 0 where
  healthz : HealthEndpoint

abbrev pub health_routes : List (Pattern × HealthEndpoint)
health_routes = (record { method = "GET"; segments = literal "healthz" ∷ [] }, healthz) ∷ []

abbrev text_reply : ℕ → String → Reply String
text_reply status s = record { headers = []; status = status; body = s }

abbrev health_reply : Route HealthEndpoint → Reply String
health_reply (found healthz _) = text_reply 200 "ok"
health_reply wrong_method = text_reply 405 "Method Not Allowed\n"
health_reply no_route = text_reply 404 "404 page not found\n"

unfoldable pub health_mux : Request → Reply String
unfolding route
health_mux r = health_reply (route r.method r.path health_routes)
