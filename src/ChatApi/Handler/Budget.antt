-- ===== src/ChatApi/Handler/Budget.antt =====
-- POST /chat over a sequence of requests: what one address may cost.
use beacon_v.Prelude.{
  ℕ, ◌+◌, ◌-◌, ◌*◌, ◌≤◌, String, Bool, true, false, ◌&&◌, List, [], ◌∷◌, ◌==◌, length, keep, map,
  if◌then◌else◌, ◌≡◌, refl, arith, Bool-cases, inl, inr,
}
use beacon_v.Exec.{Result, ok, err}
use beacon_v.Exec.Ensures.{Post-map, Post-same}
use beacon_v.World.{Error}
use beacon_v.ChatApi.RateLimit.{new_rate_limiter, allow}
use beacon_v.ChatApi.RateLimit.Window.{Call, served, in_window, added, allow-limit}
use beacon_v.ChatApi.Float.{Float}
use beacon_v.ChatApi.Services.{Services, Chat, Chats}
use beacon_v.ChatApi.SubFilter.{ToolContext}
use beacon_v.ChatApi.Gemini.{Model, GeminiClient, HistoryTurn, run_chat}
use beacon_v.ChatApi.Gemini.Rounds.{FinalAnswer, run_chat-answers}
use beacon_v.ChatApi.Handler.{
  ChatRequest, ChatServer, recent_history, reply_to, answer_request, handle_chat,
}

-- A request: who makes it, how long after the one before, and its body.
pub record Visit : Type 0 where
  pub ip : String
  pub gap : ℕ
  pub body : Result Error ChatRequest

abbrev pub call_of : Visit → Call
call_of v = (v.ip, v.gap)

abbrev Run : Type 0
Run = String → List HistoryTurn → Chats String

-- The requests to the model that are made for `ip` within a window of the length `w` that ends at `at`.
unfoldable pub spent :
    (String → List HistoryTurn → Chats String) → ℕ → ℕ → String → ChatServer → ℕ → List Visit → ℕ
unfolding handle_chat
spent run w at ip server now [] = 0
spent run w at ip server now (v ∷ visits) =
    let (reply, server') = handle_chat run (now + v.gap) v.ip v.body server in
    (if ip == v.ip && in_window w at (now + v.gap)
      then server'.chat.asked - server.chat.asked
      else 0)
    + spent run w at ip server' (now + v.gap) visits

module _ (run : Run)
    (cheap : (q : String) (h : List HistoryTurn) (c : Chat)
      → (run q h c).1.asked ≤ c.asked + 8) where
  reply_to-chat : (r : Result Error String × Chat) → (reply_to r).1 ≡ r.1
  reply_to-chat (ok text, chat) = refl
  reply_to-chat (err e, chat) = refl

  answer_request-cheap :
      (body : Result Error ChatRequest) (c : Chat)
      → (answer_request run body c).1.asked ≤ c.asked + 8
  unfolding answer_request
  answer_request-cheap (err e) c = omega arith
  answer_request-cheap (ok req) c = elim (Bool-cases (req.question == "")) [
    | inl empty ↦ rw empty (omega arith)
    | inr asked ↦
        rw (asked, reply_to-chat (run req.question (recent_history req.history) c))
          (cheap req.question (recent_history req.history) c)
  ]

  pub handle-limiter :
      (now : ℕ) (ip : String) (body : Result Error ChatRequest) (server : ChatServer)
      → (handle_chat run now ip body server).1.rate_limiter ≡ (allow server.rate_limiter ip now).1
  unfolding handle_chat
  handle-limiter now ip body server = elim (Bool-cases (allow server.rate_limiter ip now).0) [
    | inl allowed ↦ rw allowed refl
    | inr refused ↦ rw refused refl
  ]

  -- A request that is refused costs nothing.
  pub handle-cost :
      (now : ℕ) (ip : String) (body : Result Error ChatRequest) (server : ChatServer)
      → (handle_chat run now ip body server).1.chat.asked - server.chat.asked
        ≤ (if (allow server.rate_limiter ip now).0 then 8 else 0)
  unfolding handle_chat
  handle-cost now ip body server = elim (Bool-cases (allow server.rate_limiter ip now).0) [
    | inl allowed ↦ rw allowed (omega (arith, answer_request-cheap body server.chat))
    | inr refused ↦ rw refused (omega arith)
  ]

  pub spent-step :
      (mine allowed : Bool) (inside : ℕ → Bool) (t cost rest : ℕ) (tail : List ℕ)
      → cost ≤ (if allowed then 8 else 0)
      → rest ≤ 8 * length (keep inside tail)
      → (if mine && inside t then cost else 0) + rest
        ≤ 8 * length (keep inside (added (mine && allowed) t tail))
  spent-step false allowed inside t cost rest tail h k = omega arith
  spent-step true true inside t cost rest tail h k = ground arith
  spent-step true false inside t cost rest tail h k = ground arith

  spent-served :
      (w at : ℕ) (ip : String) (server : ChatServer) (now : ℕ) (visits : List Visit)
      → spent run w at ip server now visits
        ≤ 8
          * length (keep (in_window w at) (served server.rate_limiter ip now (map call_of visits)))
  unfolding spent served
  spent-served w at ip server now [] = omega arith
  spent-served w at ip server now (v ∷ visits) =
      let t = now + v.gap in
      let server' = (handle_chat run t v.ip v.body server).1 in
      spent-step (ip == v.ip) (allow server.rate_limiter v.ip t).0 (in_window w at) t _ _ _
        (handle-cost t v.ip v.body server)
        (rw (handle-limiter t v.ip v.body server) at (spent-served w at ip server' t visits))

module _ {F : Type 0} (fl : Float F) (services : Services F) (model : Model F)
    (client : GeminiClient) (tc : ToolContext) where
  pub run_chat-cheap :
      (question : String) (history : List HistoryTurn) (c : Chat)
      → (run_chat fl services model client tc question history c).1.asked ≤ c.asked + 8
  run_chat-cheap question history c =
      let (r, c') = run_chat fl services model client tc question history c in
      let within : Chat → Type 0 = λ (after : Chat). after.asked ≤ c.asked + 8 in
      Post-same within r c' (
        Post-map (λ _. within) within
          (λ text c'. within c' × FinalAnswer fl services model client tc text) within r c'
          (λ text h. h.0) (λ h. h)
          (run_chat-answers fl services model client tc question history c))

  -- For any sequence of requests from all addresses, with any bodies, and whatever the services and
  -- the model answer: in any interval as long as the limiter's window, one address causes at most
  -- eight times the limit of requests to the model.
  pub spent-limit :
      (limit window : ℕ) (ip : String) (chat : Chat) (visits : List Visit) (at : ℕ)
      → spent
          (run_chat fl services model client tc)
          window
          at
          ip
          (record { rate_limiter = new_rate_limiter limit window; chat = chat })
          0
          visits
        ≤ 8 * limit
  spent-limit limit window ip chat visits at = omega (
    arith,
    spent-served (run_chat fl services model client tc) run_chat-cheap window at ip
        (record { rate_limiter = new_rate_limiter limit window; chat = chat }) 0 visits,
    allow-limit limit window ip (map call_of visits) at,
  )
