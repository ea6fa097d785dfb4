-- ===== src/ChatApi/Handler/History.antt =====
-- POST /chat: how much of a conversation a request carries to the model.
use beacon_v.Prelude.{
  ℕ, zero, suc, ◌-◌, ◌≤◌, String, true, false, Option, none, List, [], ◌∷◌, ◌++◌, ◌<>◌, ◌==◌, ltb,
  leb, length, take, drop, map, length-append, if◌then◌else◌, ◌≡◌, refl, ap, sym, ◌∙◌, arith,
  Bool-cases, inl, inr,
}
use beacon_v.Exec.{ok, ◌>>=◌, or_fail}
use beacon_v.ChatApi.Float.{Float}
use beacon_v.ChatApi.RateLimit.{allow}
use beacon_v.ChatApi.Services.{Response, Services, Chat, request, ask}
use beacon_v.ChatApi.SubFilter.{ToolContext}
use beacon_v.ChatApi.Declarations.{tool_definitions}
use beacon_v.ChatApi.Gemini.{
  gemini_url, HistoryTurn, Content, GeminiRequest, GeminiResponse, GeminiClient, Model, text_part,
  turn_content, build_initial_contents, function_calls, extract_text, generate, chat_rounds,
  run_chat,
}
use beacon_v.ChatApi.Handler.{
  ChatServer, answer, client_ip, recent_history, answer_request, handle_chat, handle,
}

module _ {A : Type 0} where
  take-drop : (n : ℕ) (xs : List A) → xs ≡ take n xs ++ drop n xs
  take-drop zero xs = refl
  take-drop (suc n) [] = refl
  take-drop (suc n) (x ∷ xs) = ap (λ l. x ∷ l) (take-drop n xs)

  length-drop : (n : ℕ) (xs : List A) → length (drop n xs) ≡ length xs - n
  length-drop zero xs = omega arith
  length-drop (suc n) [] = omega arith
  length-drop (suc n) (x ∷ xs) = omega (arith, length-drop n xs)

length-map : {A B : Type 0} (f : A → B) (xs : List A) → length (map f xs) ≡ length xs
length-map f [] = refl
length-map f (x ∷ xs) = omega (arith, length-map f xs)

recent-counted :
    (history : List HistoryTurn)
    → length (recent_history history) ≡ (if leb (length history) 20 then length history else 20)
unfolding recent_history
recent-counted history = ground (arith, length-drop (length history - 20) history)

recent-split :
    (history : List HistoryTurn)
    → (older : List HistoryTurn) × (history ≡ older ++ recent_history history)
unfolding recent_history
recent-split history = elim (Bool-cases (ltb 20 (length history))) [
  | inl long ↦
      (take (length history - 20) history, rw long (take-drop (length history - 20) history))
  | inr short ↦ ([], rw short refl)
]

same-recent :
    {A : Type 0} (older older' recent recent' : List A)
    → older ++ recent ≡ older' ++ recent'
    → length recent ≡ length recent'
    → recent ≡ recent'
same-recent [] [] recent recent' e same = e
same-recent [] (x ∷ xs) recent recent' e same =
    absurd (omega (arith, ap length e, length-append (x ∷ xs) recent'))
same-recent (x ∷ xs) [] recent recent' e same =
    absurd (omega (arith, ap length e, length-append (x ∷ xs) recent))
same-recent (x ∷ xs) (y ∷ ys) recent recent' e same =
    same-recent xs ys recent recent' (ap (drop 1) e) same

-- The texts behind each other.
abbrev pub joined : List String → String
joined [] = ""
joined (s ∷ ss) = s <> joined ss

module _ {F : Type 0} where
  -- The contents that the model should get: each turn as the user's or the model's own, with one
  -- text, and behind them the question.
  abbrev pub spoken : String → List HistoryTurn → List (Content F)
  spoken question [] = record { role = "user"; parts = text_part question ∷ [] } ∷ []
  spoken question (turn ∷ turns) =
      record {
        role = if turn.role == "user" then "user" else "model";
        parts = text_part turn.text ∷ [];
      }
      ∷ spoken question turns

  build_initial_contents-spoken :
      (question : String) (turns : List HistoryTurn)
      → build_initial_contents question turns ≡ spoken question turns
  unfolding build_initial_contents
  build_initial_contents-spoken question [] = refl
  build_initial_contents-spoken question (turn ∷ turns) =
      ap (λ l. turn_content turn ∷ l) (build_initial_contents-spoken question turns)

  -- A response with these texts and no calls of tools.
  abbrev pub says : String → List String → Response (GeminiResponse F)
  says body texts = record {
    status = 200;
    body = ok body;
    decoded = ok (record {
      candidates = record { role = "model"; parts = map text_part texts } ∷ [];
      error = none;
    });
  }

length-spoken :
    (F : Type 0) (question : String) (turns : List HistoryTurn)
    → length (spoken {F = F} question turns) ≡ suc (length turns)
length-spoken F question [] = refl
length-spoken F question (turn ∷ turns) = omega (arith, length-spoken F question turns)

module _ (F : Type 0) where
  text_parts-no_calls : (texts : List String) → function_calls {F = F} (map text_part texts) ≡ []
  unfolding function_calls
  text_parts-no_calls [] = refl
  text_parts-no_calls (s ∷ ss) = text_parts-no_calls ss

  text_parts-joined :
      (texts : List String) → extract_text {F = F} (map text_part texts) ≡ joined texts
  unfolding extract_text
  text_parts-joined [] = refl
  text_parts-joined (s ∷ ss) = ap (λ t. s <> t) (text_parts-joined ss)

module _ {F : Type 0} (fl : Float F) (services : Services F) (model : Model F)
    (client : GeminiClient) (tc : ToolContext) where
  -- The model answers a request with these contents, whatever it does with others.
  abbrev pub Answers : ℕ → List (Content F) → String → List String → Type 0
  Answers t contents body texts =
      (r : GeminiRequest F) → r.contents ≡ contents → model t r ≡ ok (says body texts)

  generate-says :
      (contents : List (Content F)) (body : String) (texts : List String) (c : Chat)
      → Answers c.ticks contents body texts
      → generate fl services model client tc contents c
        ≡ (ok (record { role = "model"; parts = map text_part texts }), ask c)
  unfolding generate request ◌>>=◌ or_fail
  generate-says contents body texts c answers =
      rw
        (answers
          (record {
            url = gemini_url fl services model client tc;
            api_key = client.api_key;
            contents = contents;
            tools = tool_definitions;
          })
          refl)
        refl

  run_chat-says :
      (question body : String) (texts : List String) (turns : List HistoryTurn) (c : Chat)
      → Answers c.ticks (spoken question turns) body texts
      → run_chat fl services model client tc question turns c ≡ (ok (joined texts), ask c)
  unfolding run_chat chat_rounds ◌>>=◌
  run_chat-says question body texts turns c answers =
      rw
        (
          build_initial_contents-spoken {F = F} question turns,
          generate-says _ body texts c answers,
          text_parts-no_calls F texts,
          text_parts-joined F texts,
        )
        refl

  spoken-bounded :
      (question : String) (older recent : List HistoryTurn)
      → length recent ≡ (if leb (length (older ++ recent)) 20 then length (older ++ recent) else 20)
      → length (spoken {F = F} question recent) ≤ 21
  spoken-bounded question older recent counted =
      ground (arith, length-spoken F question recent, counted)

  -- POST /chat carries a conversation to the model: its last twenty turns, or all if there are no more,
  -- in order and each as the user's or the model's, and behind them the question, at most 21 contents.
  -- For a request that the limiter lets pass and whose question is not empty, a model that answers
  -- just these contents with texts alone is asked once, and the reply is its texts.
  pub handle-spoken :
      (split_host_port : String → Option String) (now : ℕ) (remote_addr question body : String)
      (older recent : List HistoryTurn) (texts : List String) (server : ChatServer)
      → (question == "") ≡ false
      → (allow server.rate_limiter (client_ip split_host_port remote_addr) now).0 ≡ true
      → length recent ≡ (if leb (length (older ++ recent)) 20 then length (older ++ recent) else 20)
      → Answers server.chat.ticks (spoken question recent) body texts
      → ((handle fl services model client tc split_host_port now remote_addr
            (ok (record { question = question; history = older ++ recent }))
            server).0
          ≡ answer (joined texts))
        × ((handle fl services model client tc split_host_port now remote_addr
              (ok (record { question = question; history = older ++ recent }))
              server).1.chat
            ≡ ask server.chat)
        × (length (spoken {F = F} question recent) ≤ 21)
  unfolding handle handle_chat answer_request
  handle-spoken split_host_port now remote_addr question body older recent texts server asked
        allowed counted answers =
      let (_, split) = recent-split (older ++ recent) in
      let same : recent_history (older ++ recent) ≡ recent =
        same-recent _ older _ recent (sym split) (recent-counted (older ++ recent) ∙ sym counted) in
      let reply = run_chat-says question body texts recent server.chat answers in
      (
        rw (allowed, asked, same, reply) refl,
        rw (allowed, asked, same, reply) refl,
        spoken-bounded question older recent counted,
      )
