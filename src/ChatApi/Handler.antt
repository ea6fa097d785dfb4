-- ===== src/ChatApi/Handler.antt =====
-- chat-api/handler.go: POST /chat, from a decoded request to a response.
pub mod Budget
pub mod History
use beacon_v.Prelude.{
  ℕ, ◌-◌, String, Bool, true, false, Option, none, some, List, [], ◌∷◌, ◌==◌, ltb, length, drop,
  if◌then◌else◌,
}
use beacon_v.Exec.{Result, ok, err}
use beacon_v.World.{Error, message, wrap}
use beacon_v.ChatApi.RateLimit.{RateLimiter, allow}
use beacon_v.ChatApi.Float.{Float}
use beacon_v.ChatApi.Services.{Services, Chat, Chats}
use beacon_v.ChatApi.SubFilter.{ToolContext}
use beacon_v.ChatApi.Gemini.{Model, GeminiClient, HistoryTurn, run_chat}

abbrev pub max_history_turns : ℕ
max_history_turns = 20

pub record ChatRequest : Type 0 where
  pub question : String
  pub history : List HistoryTurn

pub data ChatReply : Type 0 where
  answer : String → ChatReply
  refusal : ℕ → Error → ChatReply

-- The handler's own state and what the services were asked.
pub record ChatServer : Type 0 where
  pub rate_limiter : RateLimiter
  pub chat : Chat

-- The host that `net.SplitHostPort` finds, else the whole address.
abbrev pub client_ip : (String → Option String) → String → String
client_ip split_host_port remote_addr = elim (split_host_port remote_addr) [
  | none ↦ remote_addr
  | some host ↦ host
]

unfoldable pub recent_history : List HistoryTurn → List HistoryTurn
recent_history history =
    if ltb max_history_turns (length history)
    then drop (length history - max_history_turns) history
    else history

abbrev pub reply_to : Result Error String × Chat → ChatReply × Chat
reply_to (ok text, chat) = (answer text, chat)
reply_to (err e, chat) = (refusal 500 (wrap "couldn't answer that" e), chat)

-- `run` is `runChat` with its clients.
unfoldable pub answer_request :
    (String → List HistoryTurn → Chats String) → Result Error ChatRequest → Chat → ChatReply × Chat
unfolding recent_history
answer_request run (err e) chat = (refusal 400 (message "invalid request body"), chat)
answer_request run (ok req) chat =
    if req.question == ""
    then (refusal 400 (message "question is required"), chat)
    else reply_to (run req.question (recent_history req.history) chat)

unfoldable pub handle_chat :
    (String → List HistoryTurn → Chats String)
    → ℕ
    → String
    → Result Error ChatRequest
    → ChatServer
    → ChatReply × ChatServer
unfolding allow answer_request
handle_chat run now ip body server =
    let (allowed, limiter) = allow server.rate_limiter ip now in
    let (reply, chat) = answer_request run body server.chat in
    if allowed then (reply, record { rate_limiter = limiter; chat = chat }) else (
      refusal 429 (message "rate limit exceeded, try again shortly"),
      record server { rate_limiter = limiter },
    )

module _ {F : Type 0} (fl : Float F) (services : Services F) (model : Model F)
    (client : GeminiClient) (tc : ToolContext) (split_host_port : String → Option String) where
  unfoldable pub handle :
      ℕ → String → Result Error ChatRequest → ChatServer → ChatReply × ChatServer
  unfolding handle_chat run_chat
  handle now remote_addr body server =
      handle_chat (run_chat fl services model client tc) now (client_ip split_host_port remote_addr)
        body server
