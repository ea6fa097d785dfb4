-- ===== src/ChatApi/Gemini/Rounds.antt =====
-- runChat of chat-api/gemini.go: how often the model is asked, and what is answered.
use beacon_v.Prelude.{
  ℕ, zero, suc, ◌+◌, ◌≤◌, String, Option, none, some, List, [], ◌∷◌, eqb, ◌≡◌, refl, arith,
  Bool-cases, inl, inr,
}
use beacon_v.Exec.{ok, err}
use beacon_v.Exec.Keeps.{Keeps, Keeps-bind, Keeps-attempt, Keeps-pure}
use beacon_v.Exec.Ensures.{
  Ensures, Post, Ensures-bind, Ensures-lift, Ensures-or_fail, Ensures-of, Ensures-fail,
  Ensures-pure, Ensures-keeps, Ensures-fails, Ensures-given,
}
use beacon_v.ChatApi.Float.{Float}
use beacon_v.ChatApi.Services.{Response, Services, Chat, Chats, request, ask}
use beacon_v.ChatApi.SubFilter.{ToolContext}
use beacon_v.ChatApi.Tools.{execute_tool}
use beacon_v.ChatApi.Tools.Quiet.{IsQuiet, execute_tool-quiet}
use beacon_v.ChatApi.Gemini.{
  FunctionCall, Content, GeminiRequest, GeminiResponse, GeminiClient, Model, HistoryTurn,
  function_calls, extract_text, first_candidate, accepted, generate, answer_calls, after_reply,
  chat_rounds, build_initial_contents, run_chat,
}

module _ {F : Type 0} (fl : Float F) (services : Services F) (model : Model F)
    (client : GeminiClient) (tc : ToolContext) where
  -- The text is all that a response of the model says, and the response calls no tool: it was answered
  -- with status 200, reports no error, and stands first among its candidates.
  pub record FinalAnswer (text : String) : Type 0 where
    pub at : ℕ
    pub asked_for : GeminiRequest F
    pub response : Response (GeminiResponse F)
    pub parsed : GeminiResponse F
    pub content : Content F
    pub others : List (Content F)
    pub answered : model at asked_for ≡ ok response
    pub succeeded : response.status ≡ 200
    pub decoded : response.decoded ≡ ok parsed
    pub no_error : parsed.error ≡ none
    pub first : parsed.candidates ≡ content ∷ others
    pub no_calls : function_calls content.parts ≡ []
    pub says : text ≡ extract_text content.parts

  -- The model's answer to one request.
  record Generated (content : Content F) : Type 0 where
    at : ℕ
    asked_for : GeminiRequest F
    response : Response (GeminiResponse F)
    parsed : GeminiResponse F
    body : String
    answered : model at asked_for ≡ ok response
    decoded : response.decoded ≡ ok parsed
    taken : accepted response.status body parsed parsed.error ≡ ok content

  abbrev AskedWithin : ℕ → Chat → Type 0
  AskedWithin n c = c.asked ≤ n

  AskedWithin-IsQuiet : (n : ℕ) → IsQuiet (AskedWithin n)
  AskedWithin-IsQuiet n = record { quiet_tick = λ c h. h; quiet_sent = λ q c h. h }

  request-once :
      (k : ℕ) (r : GeminiRequest F)
      → Ensures
          (AskedWithin k)
          (request (λ t. model t r) ask)
          (λ resp c. AskedWithin (suc k) c × ((n : ℕ) × (model n r ≡ ok resp)))
          (AskedWithin (suc k))
  unfolding request
  request-once k r =
      Ensures-of (request (λ t. model t r) ask) (λ c h resp e. (omega arith, (c.ticks, e)))
        (λ c h. omega arith)

  generate-once :
      (k : ℕ) (contents : List (Content F))
      → Ensures
          (AskedWithin k)
          (generate fl services model client tc contents)
          (λ content c. AskedWithin (suc k) c × Generated content)
          (AskedWithin (suc k))
  unfolding generate
  generate-once k contents =
      Ensures-bind (λ resp c. AskedWithin (suc k) c × ((n : ℕ) × (model n _ ≡ ok resp))) _ _
        (Ensures-or_fail _ _ (request-once k _))
        λ resp. Ensures-given _ λ (n, e).
          Ensures-bind (λ _. AskedWithin (suc k)) _ _
            (Ensures-lift resp.body (λ body _ c h. h) (λ c h. h))
            λ body.
              Ensures-bind (λ parsed c. AskedWithin (suc k) c × (resp.decoded ≡ ok parsed)) _ _
                (Ensures-or_fail _ _
                  (Ensures-lift resp.decoded (λ parsed d c h. (h, d)) (λ c h. h)))
                λ parsed. Ensures-given _ λ d.
                  Ensures-lift _
                    (λ content taken c h. (
                      h,
                      record {
                        at = n;
                        asked_for = _;
                        response = resp;
                        parsed = parsed;
                        body = services.trim_space body;
                        answered = e;
                        decoded = d;
                        taken = taken;
                      },
                    ))
                    (λ c h. h)

  first-parts :
      (body : String) (candidates : List (Content F)) (content : Content F)
      → first_candidate body candidates ≡ ok content
      → (others : List (Content F)) × (candidates ≡ content ∷ others)
  first-parts body [] content h = absurd (cc)
  first-parts body (c ∷ others) content h = (others, cc)

  accepted-parts :
      (status : ℕ) (body : String) (parsed : GeminiResponse F) (failure : Option String)
      (content : Content F)
      → accepted status body parsed failure ≡ ok content
      → (failure ≡ none) × (status ≡ 200) × (first_candidate body parsed.candidates ≡ ok content)
  accepted-parts status body parsed (some text) content h = absurd (cc)
  accepted-parts status body parsed none content h = elim (Bool-cases (eqb status 200)) [
    | inl fine ↦ (refl, ground arith, rw fine at h)
    | inr refused ↦ absurd (let bad : err _ ≡ ok content = rw refused at h in cc)
  ]

  final :
      (content : Content F)
      → Generated content
      → function_calls content.parts ≡ []
      → FinalAnswer (extract_text content.parts)
  final content g none_called =
      let (no_error, succeeded, first) = accepted-parts _ g.body g.parsed _ content g.taken in
      let (others, e) = first-parts g.body g.parsed.candidates content first in
      record {
        at = g.at;
        asked_for = g.asked_for;
        response = g.response;
        parsed = g.parsed;
        content = content;
        others = others;
        answered = g.answered;
        succeeded = succeeded;
        decoded = g.decoded;
        no_error = no_error;
        first = e;
        no_calls = none_called;
        says = refl;
      }

  pub answer_calls-keeps :
      (P : Chat → Type 0)
      → ((name : String) (args : _) → Keeps P (execute_tool fl services tc name args))
      → (calls : List (FunctionCall F)) → Keeps P (answer_calls fl services model client tc calls)
  unfolding answer_calls
  answer_calls-keeps P tools [] = Keeps-pure []
  answer_calls-keeps P tools (c ∷ cs) =
      Keeps-bind _ _ (Keeps-attempt _ (tools c.name c.args))
        (λ r. Keeps-bind _ _ (answer_calls-keeps P tools cs) (λ parts. Keeps-pure _))

  module _ (bound : ℕ) where
    abbrev Answers : Chats String → ℕ → Type 0
    Answers m k =
        Ensures (AskedWithin k) m (λ text c. AskedWithin bound c × FinalAnswer text)
          (AskedWithin bound)

    after_reply-Answers :
        (k : ℕ) (again : List (Content F) → Chats String) (contents : List (Content F))
        (content : Content F) (calls : List (FunctionCall F))
        → k ≤ bound
        → Generated content
        → function_calls content.parts ≡ calls
        → ((contents' : List (Content F)) → Answers (again contents') k)
        → Answers (after_reply fl services model client tc again contents content calls) k
    after_reply-Answers k again contents content [] within g e go_on =
        Ensures-pure _ (λ c h. (omega arith, final content g e))
    after_reply-Answers k again contents content (call ∷ calls) within g e go_on =
        Ensures-bind (λ _. AskedWithin k) _ _
          (Ensures-fails (λ c h. omega arith)
            (Ensures-keeps _ (
              answer_calls-keeps (AskedWithin k)
                (execute_tool-quiet fl services tc (AskedWithin k) (AskedWithin-IsQuiet k))
                (call ∷ calls))))
          (λ parts. go_on _)

    chat_rounds-Answers :
        (n k : ℕ) (contents : List (Content F))
        → k + n ≤ bound
        → Answers (chat_rounds fl services model client tc n contents) k
    unfolding chat_rounds
    chat_rounds-Answers zero k contents within = Ensures-fail _ (λ c h. omega arith)
    chat_rounds-Answers (suc n) k contents within =
        Ensures-bind (λ content c. AskedWithin (suc k) c × Generated content) _ _
          (Ensures-fails (λ c h. omega arith) (generate-once k contents))
          λ content. Ensures-given _ λ g.
            after_reply-Answers (suc k) _ _ content (function_calls content.parts) (omega arith) g
              refl (λ contents'. chat_rounds-Answers n (suc k) contents' (omega arith))

  -- Whatever the model and the other services answer, runChat returns after at most eight requests to
  -- the model; if it returns a text, that is the whole text of a successful response of the model
  -- which calls no tool.
  pub run_chat-answers :
      (question : String) (history : List HistoryTurn) (c : Chat)
      → Post
          (λ text c'. (c'.asked ≤ c.asked + 8) × FinalAnswer text)
          (λ c'. c'.asked ≤ c.asked + 8)
          (run_chat fl services model client tc question history c).0
          (run_chat fl services model client tc question history c).1
  unfolding run_chat
  run_chat-answers question history c =
      (chat_rounds-Answers (c.asked + 8) 8 c.asked (build_initial_contents question history)
          (omega arith)).after
        c (omega arith)
