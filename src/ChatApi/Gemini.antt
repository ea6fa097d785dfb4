-- ===== src/ChatApi/Gemini.antt =====
-- chat-api/gemini.go: the conversation with the model and its loop of tool calls.
pub mod Rounds
pub mod Queries
use beacon_v.Prelude.{
  ℕ, zero, suc, String, Bool, true, false, Option, none, some, List, [], ◌∷◌, ◌++◌, ◌<>◌, ◌==◌, eqb,
  itoa, map, if◌then◌else◌,
}
use beacon_v.Exec.{Result, ok, err, pure, fail, lift, ◌>>=◌, ◌>>◌, attempt, or_fail}
use beacon_v.World.{Error, message, wrap}
use beacon_v.ChatApi.Float.{Float}
use beacon_v.ChatApi.Services.{Object, Response, Services, Chats, request, ask}
use beacon_v.ChatApi.SubFilter.{ToolContext}
use beacon_v.ChatApi.Tools.{ToolResult, device_list, execute_tool}
use beacon_v.ChatApi.Declarations.{FunctionDeclaration, tool_definitions}

abbrev pub max_tool_iterations : ℕ
max_tool_iterations = 8

pub record FunctionCall (F : Type 0) : Type 0 where
  pub name : String
  pub args : Object F

-- The object that a tool's outcome is wrapped in: "error" with a text, the result itself, or "result"
-- with the text of a result that is no JSON object.
pub data Reply (F : Type 0) : Type 0 where
  error_text : String → Reply F
  whole : ToolResult F → Reply F
  wrapped : ToolResult F → Reply F

pub record FunctionResponse (F : Type 0) : Type 0 where
  pub name : String
  pub response : Reply F

pub record Part (F : Type 0) : Type 0 where
  pub text : String
  pub function_call : Option (FunctionCall F)
  pub function_response : Option (FunctionResponse F)

pub record Content (F : Type 0) : Type 0 where
  pub role : String
  pub parts : List (Part F)

pub record GeminiResponse (F : Type 0) : Type 0 where
  pub candidates : List (Content F)
  pub error : Option String

-- The system prompt, which is one text, is left out.
pub record GeminiRequest (F : Type 0) : Type 0 where
  pub url : String
  pub api_key : String
  pub contents : List (Content F)
  pub tools : List FunctionDeclaration

pub record GeminiClient : Type 0 where
  pub api_key : String
  pub model : String

-- The model: its answer may depend on the number of requests made before.
abbrev pub Model : Type 0 → Type 0
Model F = ℕ → GeminiRequest F → Result Error (Response (GeminiResponse F))

pub record HistoryTurn : Type 0 where
  pub role : String
  pub text : String

abbrev pub turn_role : String → String
turn_role role = if role == "user" then "user" else "model"

module _ {F : Type 0} where
  abbrev pub text_part : String → Part F
  text_part s = record { text = s; function_call = none; function_response = none }

  abbrev pub turn_content : HistoryTurn → Content F
  turn_content turn = record { role = turn_role turn.role; parts = text_part turn.text ∷ [] }

  unfoldable pub build_initial_contents : String → List HistoryTurn → List (Content F)
  build_initial_contents question history =
      map turn_content history ++ record { role = "user"; parts = text_part question ∷ [] } ∷ []

  unfoldable pub function_calls : List (Part F) → List (FunctionCall F)
  function_calls [] = []
  function_calls (part ∷ parts) =
      let rest = function_calls parts in
      elim part.function_call [ none ↦ rest | some call ↦ call ∷ rest ]

  unfoldable pub extract_text : List (Part F) → String
  extract_text [] = ""
  extract_text (part ∷ parts) = part.text <> extract_text parts

  -- A list of devices is a JSON array; the other results are objects.
  abbrev pub reply_of : ToolResult F → Reply F
  reply_of (device_list ds) = wrapped (device_list ds)
  reply_of r = whole r

  -- `result` is the empty text where the tool failed.
  unfoldable pub build_function_response_part : String → Result Error (ToolResult F) → Part F
  build_function_response_part name (ok result) = record {
    text = "";
    function_call = none;
    function_response = some (record { name = name; response = reply_of result });
  }
  build_function_response_part name (err tool_err) = record {
    text = "";
    function_call = none;
    function_response = some (record { name = name; response = error_text "" });
  }

  -- The first candidate, which is all that the loop looks at.
  abbrev pub first_candidate : String → List (Content F) → Result Error (Content F)
  first_candidate body [] = err (message ("gemini api returned no candidates: " <> body))
  first_candidate body (content ∷ _) = ok content

  abbrev pub accepted : ℕ → String → GeminiResponse F → Option String → Result Error (Content F)
  accepted status body parsed (some text) = err (message ("gemini api error: " <> text))
  accepted status body parsed none =
      if eqb status 200
      then first_candidate body parsed.candidates
      else err (message ("gemini api returned " <> itoa status <> ": " <> body))

module _ {F : Type 0} (fl : Float F) (services : Services F) (model : Model F)
    (client : GeminiClient) (tc : ToolContext) where
  abbrev pub gemini_url : String
  gemini_url =
      "https://generativelanguage.googleapis.com/v1beta/models/" <> client.model
      <> ":generateContent"

  unfoldable pub generate : List (Content F) → Chats (Content F)
  unfolding request
  generate contents = do
    resp ← or_fail (wrap "calling gemini api") (
        request
          (λ t. model t (record {
            url = gemini_url;
            api_key = client.api_key;
            contents = contents;
            tools = tool_definitions;
          }))
          ask)
    body ← lift resp.body
    parsed ← or_fail (wrap "decoding gemini response") (lift resp.decoded)
    lift (accepted resp.status (services.trim_space body) parsed parsed.error)

  unfoldable pub answer_calls : List (FunctionCall F) → Chats (List (Part F))
  unfolding build_function_response_part
  answer_calls [] = pure []
  answer_calls (c ∷ cs) = do
    result ← attempt (execute_tool fl services tc c.name c.args)
    parts ← answer_calls cs
    pure (build_function_response_part c.name result ∷ parts)

  -- A round ends the loop with the model's text, or goes on with the answers to its calls.
  abbrev pub after_reply :
      (List (Content F) → Chats String)
      → List (Content F)
      → Content F
      → List (FunctionCall F)
      → Chats String
  after_reply again contents content [] = pure (extract_text content.parts)
  after_reply again contents content (c ∷ cs) = do
    parts ← answer_calls (c ∷ cs)
    again (contents ++ record { role = "function"; parts = parts } ∷ [])

  unfoldable pub chat_rounds : ℕ → List (Content F) → Chats String
  unfolding function_calls extract_text
  chat_rounds zero contents =
      fail (message "couldn't answer within 8 tool calls -- try a narrower question")
  chat_rounds (suc n) contents = do
    content ← generate contents
    after_reply (chat_rounds n) (contents ++ record content { role = "model" } ∷ []) content
        (function_calls content.parts)

  unfoldable pub run_chat : String → List HistoryTurn → Chats String
  unfolding build_initial_contents
  run_chat question history =
      chat_rounds max_tool_iterations (build_initial_contents question history)
