-- ===== src/Examples/ChatRuns.antt =====
-- Runs of the theorems on chat-api at the sample model and services.
use mathlib.Core.List.{Perm}
use beacon_v.Prelude.{
  ℕ, ◌+◌, ◌≤◌, String, true, none, List, [], ◌∷◌, ◌++◌, All, ◌≡◌, refl, eqb, length,
}
use beacon_v.World.{message}
use beacon_v.Exec.{ok, err, ◌>>=◌, or_fail, attempt}
use beacon_v.Exec.Ensures.{Post}
use beacon_v.ChatApi.Services.{string, float, Object, list_devices, query, ask}
use beacon_v.ChatApi.Schema.{gauge, MetricColumn, lookup_column}
use beacon_v.ChatApi.Sql.{sql_quote}
use beacon_v.ChatApi.Rank.{Ranked, rank}
use beacon_v.ChatApi.Rank.Falling.{IsFalling, rank-IsFalling}
use beacon_v.ChatApi.Query.{build_metric_query, input_float}
use beacon_v.ChatApi.Query.Skeleton.{mode_after}
use beacon_v.ChatApi.Query.Alike.{WritesNoQuote}
use beacon_v.ChatApi.Query.Quoting.{DifferInLiterals, build_metric_query-DifferInLiterals}
use beacon_v.ChatApi.Query.Applies.{is_ok, is_some, applies, build_metric_query-applies}
use beacon_v.ChatApi.SubFilter.{resolve_sub_filter}
use beacon_v.ChatApi.Tools.{execute_tool, tool_query_metric, ranking, unit_name, tool_rank_devices}
use beacon_v.ChatApi.Tools.Permitted.{Permitted}
use beacon_v.ChatApi.Tools.Interfaces.{tool_rank_devices-interface}
use beacon_v.ChatApi.Gemini.{HistoryTurn, run_chat, chat_rounds, generate, answer_calls, Model}
use beacon_v.ChatApi.Gemini.Rounds.{FinalAnswer, run_chat-answers}
use beacon_v.ChatApi.Gemini.Queries.{run_chat-Permitted}
use beacon_v.ChatApi.RateLimit.{new_rate_limiter, allow}
use beacon_v.ChatApi.Handler.{ChatServer, answer, handle}
use beacon_v.ChatApi.Handler.History.{spoken, says, handle-spoken}
use beacon_v.Examples.Chat.{
  whole, whole-IsOrdered, sample_services, sample_context, sample_model, sample_client, no_chat,
  router,
}

abbrev two_ranked : List (Ranked ℕ)
two_ranked = record { device = "R1"; value = 3 } ∷ record { device = "R2"; value = 9 } ∷ []

rank-IsFalling_example :
    IsFalling whole (rank whole two_ranked) × Perm (rank whole two_ranked) two_ranked
rank-IsFalling_example = rank-IsFalling whole whole-IsOrdered two_ranked (refl, (refl, tt))

whole-WritesNoQuote : WritesNoQuote whole
unfolding mode_after
whole-WritesNoQuote = record { stays = λ _. refl }

abbrev cpu_column : MetricColumn
cpu_column = record { kind = gauge; sub_dimension = ""; sub_dimension_default = "" }

cpu_known : lookup_column "cpu" "cpu1min" ≡ ok cpu_column
unfolding lookup_column
cpu_known = refl

build_metric_query-DifferInLiterals_example :
    DifferInLiterals
      (build_metric_query whole "cpu" "cpu1min" cpu_column "it's" "" "avg" 1 [])
      (build_metric_query whole "cpu" "cpu1min" cpu_column "10.0.0.1" "" "avg" 1 [])
build_metric_query-DifferInLiterals_example =
    build_metric_query-DifferInLiterals whole whole-WritesNoQuote "cpu" "cpu1min" cpu_column
      cpu_known "it's" "10.0.0.1" "" "" "avg" 1 [] refl

build_metric_query-applies_example :
    is_ok (build_metric_query whole "cpu" "cpu1min" cpu_column "10.0.0.1" "" "rate" 1 [])
    ≡ applies gauge (is_some (input_float {F = ℕ} [] "threshold")) "rate"
build_metric_query-applies_example =
    build_metric_query-applies whole "cpu" "cpu1min" cpu_column "10.0.0.1" "" "rate" 1 []

abbrev rank_octets : Object ℕ
rank_octets =
    ("table", string "interface") ∷ ("column", string "ifSpeed") ∷ ("hours", float 24) ∷ []

abbrev speed_column : MetricColumn
speed_column = record { kind = gauge; sub_dimension = "ifDescr"; sub_dimension_default = "" }

tool_rank_devices-interface_example :
    tool_rank_devices whole sample_services sample_context rank_octets no_chat ≡ (
      ok (ranking "interface" "ifSpeed" (unit_name whole sample_services sample_context gauge) []),
      (list_devices sample_services sample_context.config_api no_chat).1,
    )
unfolding tool_rank_devices lookup_column list_devices ◌>>=◌ or_fail
tool_rank_devices-interface_example =
    tool_rank_devices-interface whole sample_services sample_context rank_octets speed_column 24
      (router ∷ []) no_chat refl refl refl refl

run_chat-Permitted_example :
    All
      (Permitted whole sample_services sample_context)
      (run_chat whole sample_services sample_model sample_client sample_context "load?" []
        no_chat).1.queries
run_chat-Permitted_example =
    run_chat-Permitted whole sample_services sample_model sample_client sample_context "load?" []
      no_chat refl

abbrev FirstAnswer : String → Type 0
FirstAnswer = FinalAnswer whole sample_services sample_model sample_client sample_context

run_chat-answers_example :
    Post
      (λ text c. (c.asked ≤ 0 + 8) × FirstAnswer text)
      (λ c. c.asked ≤ 0 + 8)
      (run_chat whole sample_services sample_model sample_client sample_context "load?" []
        no_chat).0
      (run_chat whole sample_services sample_model sample_client sample_context "load?" []
        no_chat).1
run_chat-answers_example =
    run_chat-answers whole sample_services sample_model sample_client sample_context "load?" []
      no_chat

abbrev five_turns : List HistoryTurn
five_turns =
    record { role = "user"; text = "hello" }
    ∷ record { role = "assistant"; text = "hi" }
    ∷ record { role = "user"; text = "load?" }
    ∷ record { role = "model"; text = "7 percent" }
    ∷ record { role = "user"; text = "thanks" }
    ∷ []

abbrev twenty_turns : List HistoryTurn
twenty_turns = five_turns ++ five_turns ++ five_turns ++ five_turns

-- It answers requests with 21 contents only.
abbrev careful_model : Model ℕ
careful_model n r = elim (eqb (length r.contents) 21) [
  | true ↦ ok (says "{}" ("8 " ∷ "percent" ∷ []))
  | _ ↦ err (message "no answer")
]

abbrev chat_server : ChatServer
chat_server = record { rate_limiter = new_rate_limiter 10 60; chat = no_chat }

handle-spoken_example :
    ((handle whole sample_services careful_model sample_client sample_context
        (λ _. none)
        5
        "10.0.0.9"
        (ok (record { question = "and now?"; history = five_turns ++ twenty_turns }))
        chat_server).0
      ≡ answer "8 percent")
    × ((handle whole sample_services careful_model sample_client sample_context
          (λ _. none)
          5
          "10.0.0.9"
          (ok (record { question = "and now?"; history = five_turns ++ twenty_turns }))
          chat_server).1.chat
        ≡ ask no_chat)
    × (length (spoken {F = ℕ} "and now?" twenty_turns) ≤ 21)
unfolding allow
handle-spoken_example =
    handle-spoken whole sample_services careful_model sample_client sample_context (λ _. none) 5
      "10.0.0.9" "and now?" "{}" five_turns twenty_turns ("8 " ∷ "percent" ∷ []) chat_server refl
      refl refl (λ r e. rw e refl)

average_test :
    build_metric_query whole "cpu" "cpu1min" cpu_column "it's" "" "avg" 1 []
    ≡ ok
        "SELECT AVG(\"cpu1min\") AS result FROM cpu WHERE agent_host = 'it''s' AND time >= now() - INTERVAL '1 hours'"
unfolding build_metric_query sql_quote
average_test = refl

conversation_test :
    (run_chat whole sample_services sample_model sample_client sample_context "load?" [] no_chat).0
    ≡ ok "7 percent"
unfolding run_chat chat_rounds generate answer_calls execute_tool tool_query_metric list_devices
    query resolve_sub_filter ◌>>=◌ or_fail attempt
conversation_test = refl
