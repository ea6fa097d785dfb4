-- ===== src/ChatApi/RankDevices.antt =====
-- The loop of toolRankDevices in chat-api/tools.go over the devices.
use beacon_v.Prelude.{String, Option, none, some, List, [], ◌∷◌, ◌==◌, if◌then◌else◌}
use beacon_v.Exec.{Result, ok, err, pure, ◌>>=◌, attempt}
use beacon_v.World.{Error}
use beacon_v.Snmp.TrapNames.{lookup}
use beacon_v.ChatApi.Float.{Float}
use beacon_v.ChatApi.Services.{Object, Services, Chats, query}
use beacon_v.ChatApi.Schema.{ColumnKind, MetricColumn}
use beacon_v.ChatApi.Devices.{KnownDevice}
use beacon_v.ChatApi.Query.{is_counter, float_of, where_text, average_sql, rate_query}
use beacon_v.ChatApi.SubFilter.{ToolContext, resolve_sub_filter}
use beacon_v.ChatApi.Rank.{Ranked}

module _ {F : Type 0} (fl : Float F) (services : Services F) (tc : ToolContext) where
  abbrev pub or_zero : Option F → F
  or_zero (some x) = x
  or_zero none = fl.of_nat 0

  -- Megabits per second of a counter, the average of a gauge; zero where the row has no number.
  unfoldable pub row_value : ColumnKind → Object F → F
  unfolding lookup
  row_value kind row =
      let total_bytes = or_zero (float_of (lookup "total_bytes" row)) in
      let span_seconds = or_zero (float_of (lookup "span_seconds" row)) in
      if is_counter kind
      then (if fl.lt (fl.of_nat 0) span_seconds
          then fl.over (fl.over (fl.times total_bytes (fl.of_nat 8)) (fl.of_nat 1000000))
              span_seconds
          else fl.of_nat 0)
      else or_zero (float_of (lookup "result" row))

  abbrev pub rank_sql : String → String → MetricColumn → String → String → F → String
  rank_sql table column mc agent_host sub_filter hours =
      let where_clause = where_text fl mc agent_host sub_filter hours in
      if is_counter mc.kind
      then rate_query table column where_clause
      else average_sql "AVG" column table where_clause

  abbrev pub ranked_row : ColumnKind → String → Result Error (List (Object F)) → Option (Ranked F)
  ranked_row kind hostname (ok (row ∷ _)) =
      some (record { device = hostname; value = row_value kind row })
  ranked_row kind hostname _ = none

  -- What is left of a round once its sub-filter is known: an error skips the device.
  abbrev pub rank_filtered :
      String
      → String
      → MetricColumn
      → F
      → KnownDevice
      → Result Error String
      → Chats (Option (Ranked F))
  rank_filtered table column mc hours d (err e) = pure none
  rank_filtered table column mc hours d (ok sub_filter) = do
    rows ←
        attempt (query services tc.influx (rank_sql table column mc d.ip_address sub_filter hours))
    pure (ranked_row mc.kind d.hostname rows)

  unfoldable pub rank_device :
      String → String → MetricColumn → F → KnownDevice → Chats (Option (Ranked F))
  unfolding where_text rate_query row_value
  rank_device table column mc hours d = do
    sub_filter ← attempt (
        if mc.sub_dimension == ""
        then pure ""
        else resolve_sub_filter services tc table mc d.ip_address "")
    rank_filtered table column mc hours d sub_filter

  abbrev pub added : Option (Ranked F) → List (Ranked F) → List (Ranked F)
  added none rs = rs
  added (some r) rs = r ∷ rs

  unfoldable pub rank_all :
      String → String → MetricColumn → F → List KnownDevice → Chats (List (Ranked F))
  unfolding rank_device
  rank_all table column mc hours [] = pure []
  rank_all table column mc hours (d ∷ ds) = do
    r ← rank_device table column mc hours d
    rs ← rank_all table column mc hours ds
    pure (added r rs)
