-- ===== src/ChatApi/Server/Budget.antt =====
-- chat-api/main.go with ratelimit.go: what one address may cost, over any HTTP requests.
use beacon_v.Prelude.{
  ℕ, ◌+◌, ◌-◌, ◌*◌, ◌≤◌, String, Bool, true, false, ◌&&◌, Option, none, some, List, [], ◌∷◌, ◌==◌,
  length, keep, if◌then◌else◌, ◌≡◌, refl, sym, ap, arith, Bool-cases, inl, inr,
}
use beacon_v.Exec.{Result}
use beacon_v.World.{Error}
use beacon_v.Http.{Request, matches}
use beacon_v.ChatApi.RateLimit.{new_rate_limiter, allow}
use beacon_v.ChatApi.RateLimit.Window.{Call, served, in_window, allow-limit}
use beacon_v.ChatApi.Float.{Float}
use beacon_v.ChatApi.Services.{Services, Chat}
use beacon_v.ChatApi.Gemini.{Model, run_chat}
use beacon_v.ChatApi.Handler.{ChatRequest, ChatServer, client_ip, handle, handle_chat}
use beacon_v.ChatApi.Handler.Budget.{handle-limiter, handle-cost, spent-step, run_chat-cheap}
use beacon_v.ChatApi.Server.{
  ChatService, minute, max_requests, chat_pattern, handle_request, serve, start, service_of,
}
use beacon_v.ChatApi.Server.Reached.{serve-handled}

zero-cost :
    (mine : Bool) (n rest bound : ℕ) → rest ≤ bound → (if mine then n - n else 0) + rest ≤ bound
zero-cost true n rest bound h = omega (arith, h)
zero-cost false n rest bound h = omega (arith, h)

abbrev fresh_server : Chat → ChatServer
fresh_server chat = record { rate_limiter = new_rate_limiter max_requests minute; chat = chat }

abbrev server_of : Option ChatService → Chat → ChatServer
server_of none chat = fresh_server chat
server_of (some service) chat = service.server chat

started-fresh :
    (getenv : String → String) (service : ChatService) (chat : Chat)
    → start getenv ≡ some service
    → service.server chat ≡ fresh_server chat
unfolding start service_of
started-fresh getenv service chat started = elim (Bool-cases (getenv "GEMINI_API_KEY" == "")) [
  | inl missing ↦ absurd (let bad : none ≡ some service = rw missing at started in cc)
  | inr given ↦
      let built : some (service_of getenv (getenv "GEMINI_API_KEY")) ≡ some service =
        rw given at started in
      sym (ap (λ o. server_of o chat) built)
]

-- A request, and how long after the one before it arrives.
pub record Arrival : Type 0 where
  pub gap : ℕ
  pub request : Request

module _ {F : Type 0} (fl : Float F) (services : Services F) (model : Model F)
    (service : ChatService) (split_host_port : String → Option String)
    (decode : String → Result Error ChatRequest) where
  abbrev address : Request → String
  address r = client_ip split_host_port r.remote_addr

  -- The requests to the model that are made for `ip` within the minute that ends at `at`. A conversation
  -- takes no time here: all of its requests count at the time at which its HTTP request arrived.
  unfoldable pub spent : ℕ → String → ChatServer → ℕ → List Arrival → ℕ
  unfolding serve
  spent at ip server now [] = 0
  spent at ip server now (a ∷ arrivals) =
      let (reply, server') =
        serve fl services model service split_host_port decode (now + a.gap) a.request server in
      (if ip == address a.request && in_window minute at (now + a.gap)
        then server'.chat.asked - server.chat.asked
        else 0)
      + spent at ip server' (now + a.gap) arrivals

  -- The calls of the limiter that the requests make; `waited` is the time since the last one.
  calls_of : ℕ → List Arrival → List Call
  calls_of waited [] = []
  calls_of waited (a ∷ arrivals) =
      let passed = calls_of (waited + a.gap) arrivals in
      let next = calls_of 0 arrivals in
      if matches a.request.method a.request.path chat_pattern
      then (address a.request, waited + a.gap) ∷ next
      else passed

  spent-served :
      (at : ℕ) (ip : String) (server : ChatServer) (now waited clock : ℕ) (arrivals : List Arrival)
      → clock ≡ now + waited
      → spent at ip server clock arrivals
        ≤ 8
          * length (
              keep
                (in_window minute at)
                (served server.rate_limiter ip now (calls_of waited arrivals)))
  unfolding spent served calls_of handle_request handle
  spent-served at ip server now waited clock [] e = omega arith
  spent-served at ip server now waited clock (a ∷ arrivals) e =
      let t = clock + a.gap in
      let r = a.request in
      let run = run_chat fl services model service.client service.tools in
      let cheap = run_chat-cheap fl services model service.client service.tools in
      let reached = serve-handled fl services model service split_host_port decode t r server in
      let time : now + (waited + a.gap) ≡ t = omega (arith, e) in
      elim (Bool-cases (matches r.method r.path chat_pattern)) [
        | inl chat ↦
            let server' = (handle_chat run t (address r) (decode r.body) server).1 in
            let later = spent-served at ip server' t 0 t arrivals (omega arith) in
            rw (reached, chat, time)
              (spent-step run cheap (ip == address r) (allow server.rate_limiter (address r) t).0
                (in_window minute at) t _ _ _
                (handle-cost run cheap t (address r) (decode r.body) server)
                (rw (handle-limiter run cheap t (address r) (decode r.body) server) at later))
        | inr other ↦
            rw (reached, other)
              (zero-cost (ip == address r && in_window minute at t) server.chat.asked _ _
                (spent-served at ip server now (waited + a.gap) t arrivals (omega (arith, e))))
      ]

  fresh-minute :
      (chat : Chat) (arrivals : List Arrival) (at : ℕ) (ip : String)
      → spent at ip (fresh_server chat) 0 arrivals ≤ 80
  fresh-minute chat arrivals at ip = omega (
    arith,
    spent-served at ip (fresh_server chat) 0 0 0 arrivals refl,
    allow-limit max_requests minute ip (calls_of 0 arrivals) at,
  )

-- From the server that main starts, whatever the variables of the process, for any sequence of HTTP
-- requests from all addresses, with any methods, paths and bodies, and whatever the services and the
-- model answer: within any minute one address causes at most eighty requests to the model, each counted
-- at the time at which its HTTP request arrived.
pub spent-minute :
    {F : Type 0} (fl : Float F) (services : Services F) (model : Model F) (getenv : String → String)
    (service : ChatService) (split_host_port : String → Option String)
    (decode : String → Result Error ChatRequest) (chat : Chat) (arrivals : List Arrival) (at : ℕ)
    (ip : String)
    → start getenv ≡ some service
    → spent fl services model service split_host_port decode at ip (service.server chat) 0 arrivals
      ≤ 80
spent-minute fl services model getenv service split_host_port decode chat arrivals at ip started =
    rw (started-fresh getenv service chat started)
      (fresh-minute fl services model service split_host_port decode chat arrivals at ip)
