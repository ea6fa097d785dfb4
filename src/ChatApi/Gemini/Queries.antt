-- ===== src/ChatApi/Gemini/Queries.antt =====
-- runChat of chat-api/gemini.go: a whole conversation sends permitted queries only.
use beacon_v.Prelude.{ℕ, zero, suc, String, List, [], ◌∷◌, All, ◌≡◌, sym}
use mathlib.Core.Path.{subst}
use beacon_v.Exec.Keeps.{Keeps, Keeps-bind, Keeps-or_fail, Keeps-pure, Keeps-fail, keeps_rules}
use beacon_v.ChatApi.Float.{Float}
use beacon_v.ChatApi.Services.{Services, Chat, Chats, Object, ask}
use beacon_v.ChatApi.SubFilter.{ToolContext}
use beacon_v.ChatApi.Tools.{execute_tool}
use beacon_v.ChatApi.Tools.Quiet.{request-keeps}
use beacon_v.ChatApi.Tools.Permitted.{Permitted, AllPermitted}
use beacon_v.ChatApi.Tools.Executed.{execute_tool-keeps}
use beacon_v.ChatApi.Gemini.{
  FunctionCall, Content, GeminiClient, Model, HistoryTurn, function_calls, generate, after_reply,
  chat_rounds, run_chat,
}
use beacon_v.ChatApi.Gemini.Rounds.{answer_calls-keeps}

module _ {F : Type 0} (fl : Float F) (services : Services F) (model : Model F)
    (client : GeminiClient) (tc : ToolContext) where
  module _ (P : Chat → Type 0) (asking : (c : Chat) → P c → P (ask c))
      (tools : (name : String) (args : Object F)
        → Keeps P (execute_tool fl services tc name args)) where
    generate-keeps :
        (contents : List (Content F)) → Keeps P (generate fl services model client tc contents)
    unfolding generate
    generate-keeps contents =
        Keeps-bind _ _ (Keeps-or_fail _ _ (request-keeps P _ ask asking))
          (λ resp. search (keeps_rules))

    after_reply-keeps :
        (again : List (Content F) → Chats String) (contents : List (Content F))
        (content : Content F) (calls : List (FunctionCall F))
        → ((contents' : List (Content F)) → Keeps P (again contents'))
        → Keeps P (after_reply fl services model client tc again contents content calls)
    after_reply-keeps again contents content [] go_on = Keeps-pure _
    after_reply-keeps again contents content (call ∷ calls) go_on =
        Keeps-bind _ _ (answer_calls-keeps fl services model client tc P tools (call ∷ calls))
          (λ parts. go_on _)

    chat_rounds-keeps :
        (n : ℕ) (contents : List (Content F))
        → Keeps P (chat_rounds fl services model client tc n contents)
    unfolding chat_rounds
    chat_rounds-keeps zero contents = Keeps-fail _
    chat_rounds-keeps (suc n) contents = Keeps-bind _ _ (generate-keeps contents) (λ content.
        after_reply-keeps _ _ content (function_calls content.parts)
          (λ contents'. chat_rounds-keeps n contents'))

  -- Whatever the model asks the tools for, and whatever the services answer: each query that a
  -- conversation sends to InfluxDB is one of the three kinds, about a whitelisted column and the
  -- address of a device that config-api once listed, and a metric or a ranking covers more than zero
  -- and at most 72 hours.
  pub run_chat-Permitted :
      (question : String) (history : List HistoryTurn) (c : Chat)
      → c.queries ≡ []
      → All
          (Permitted fl services tc)
          (run_chat fl services model client tc question history c).1.queries
  unfolding run_chat
  run_chat-Permitted question history c none_sent =
      (chat_rounds-keeps (AllPermitted fl services tc) (λ c p. p)
          (execute_tool-keeps fl services tc) _ _).after
        c (subst (All (Permitted fl services tc)) (sym none_sent) tt)
