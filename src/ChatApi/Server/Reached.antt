-- ===== src/ChatApi/Server/Reached.antt =====
-- chat-api/main.go: which requests reach the chat handler.
use beacon_v.Prelude.{
  ℕ, String, Bool, true, false, Option, ◌==◌, if◌then◌else◌, ◌≡◌, refl, Bool-cases, inl, inr,
  eq_iff,
}
use beacon_v.Exec.{Result}
use beacon_v.World.{Error}
use beacon_v.Http.{Request, matches, with_cors, first_match, unmatched, route}
use beacon_v.Http.Routes.{patterns_apart, apart-matches}
use beacon_v.ChatApi.Float.{Float}
use beacon_v.ChatApi.Services.{Services}
use beacon_v.ChatApi.Gemini.{Model}
use beacon_v.ChatApi.Handler.{ChatRequest, ChatServer}
use beacon_v.ChatApi.Server.{
  ChatService, chat_pattern, healthz_pattern, handle_request, call_route, mux, serve,
}

module _ {F : Type 0} (fl : Float F) (services : Services F) (model : Model F)
    (service : ChatService) (split_host_port : String → Option String)
    (decode : String → Result Error ChatRequest) where
  abbrev handled : ℕ → Request → ChatServer → ChatServer
  handled now r server =
      (handle_request fl services model service split_host_port decode now r server).1

  unmatched-same :
      (known : Bool) (now : ℕ) (r : Request) (server : ChatServer)
      → (call_route fl services model service split_host_port decode now
          (unmatched known)
          r
          server).1
        ≡ server
  unfolding call_route
  unmatched-same true now r server = refl
  unmatched-same false now r server = refl

  not_both :
      (r : Request)
      → matches r.method r.path healthz_pattern ≡ true
      → matches r.method r.path chat_pattern ≡ false
  unfolding patterns_apart
  not_both r h = apart-matches r.method r.path healthz_pattern chat_pattern refl h

  mux-handled :
      (now : ℕ) (r : Request) (server : ChatServer)
      → (mux fl services model service split_host_port decode now r server).1
        ≡ (if matches r.method r.path chat_pattern then handled now r server else server)
  unfolding mux route first_match call_route
  mux-handled now r server = elim (Bool-cases (matches r.method r.path healthz_pattern)) [
    | inl health ↦ rw (health, not_both r health) refl
    | inr other ↦ elim (Bool-cases (matches r.method r.path chat_pattern)) [
      | inl asked ↦ rw (other, asked) refl
      | inr neither ↦ rw (other, neither) (unmatched-same _ now r server)
    ]
  ]

  -- Only POST /chat reaches the handler, and so the limiter and the model; every other request, a
  -- preflight request for /chat among them, leaves the server as it was.
  pub serve-handled :
      (now : ℕ) (r : Request) (server : ChatServer)
      → (serve fl services model service split_host_port decode now r server).1
        ≡ (if matches r.method r.path chat_pattern then handled now r server else server)
  unfolding serve with_cors matches
  serve-handled now r server = elim (Bool-cases (r.method == "OPTIONS")) [
    | inl preflight ↦
        let options : r.method ≡ "OPTIONS" = (eq_iff r.method "OPTIONS").0 preflight in
        rw (preflight, options) refl
    | inr other ↦ rw other (mux-handled now r server)
  ]
