-- ===== src/ChatApi/Query.antt =====
-- buildMetricQuery and rateQuery of chat-api/tools.go: the SQL of a metric.
pub mod Skeleton
pub mod Applies
pub mod Alike
pub mod Quoting
use beacon_v.Prelude.{
  ℕ, String, Bool, true, false, ◌||◌, Option, none, some, List, [], ◌∷◌, ◌<>◌, ◌==◌, if◌then◌else◌,
}
use beacon_v.Exec.{Result, ok, err}
use beacon_v.World.{Error, message}
use beacon_v.Snmp.TrapNames.{lookup}
use beacon_v.ChatApi.Float.{Float}
use beacon_v.ChatApi.Services.{Value, string, float, neither, Object}
use beacon_v.ChatApi.Schema.{ColumnKind, gauge, counter, MetricColumn}
use beacon_v.ChatApi.Sql.{sql_quote}

-- `maxQueryHours`.
abbrev pub max_query_hours : ℕ
max_query_hours = 72

abbrev pub is_counter : ColumnKind → Bool
is_counter gauge = false
is_counter counter = true

module _ {F : Type 0} where
  abbrev pub text_of : Option (Value F) → String
  text_of (some (string s)) = s
  text_of _ = ""

  abbrev pub float_of : Option (Value F) → Option F
  float_of (some (float x)) = some x
  float_of _ = none

  unfoldable pub input_string : Object F → String → String
  unfolding lookup
  input_string input key = text_of (lookup key input)

  unfoldable pub input_float : Object F → String → Option F
  unfolding lookup
  input_float input key = float_of (lookup key input)

unfoldable pub rate_query : String → String → String → String
rate_query table column where_clause =
    "\nWITH deltas AS (\n  SELECT time, \"" <> column <> "\" - LAG(\"" <> column
    <> "\") OVER (ORDER BY time) AS delta\n  FROM " <> table <> " WHERE " <> where_clause
    <> "\n)\nSELECT\n  SUM(CASE WHEN delta < 0 THEN delta + 4294967296 ELSE delta END) AS total_bytes,\n  EXTRACT(EPOCH FROM (MAX(time) - MIN(time))) AS span_seconds\nFROM deltas WHERE delta IS NOT NULL"

abbrev pub function_name : String → String
function_name aggregation =
    if aggregation == "avg" then "AVG" else if aggregation == "max" then "MAX" else "MIN"

abbrev pub average_sql : String → String → String → String → String
average_sql fn column table where_clause =
    "SELECT " <> fn <> "(\"" <> column <> "\") AS result FROM " <> table <> " WHERE "
    <> where_clause

module _ {F : Type 0} (fl : Float F) where
  unfoldable pub clamp_hours : F → Result Error F
  clamp_hours h =
      if fl.le h (fl.of_nat 0)
      then err (message "hours must be positive")
      else if fl.lt (fl.of_nat max_query_hours) h
      then err (
          message
            "hours capped at 72 to stay within InfluxDB's query limits -- ask a narrower question or make multiple calls")
      else ok h

  -- The WHERE clause that buildMetricQuery and toolRankDevices write.
  unfoldable pub where_text : MetricColumn → String → String → F → String
  where_text mc agent_host sub_filter hours =
      let bounded =
        "agent_host = "
        <> sql_quote agent_host
        <> " AND time >= now() - INTERVAL '"
        <> fl.show hours
        <> " hours'" in
      if sub_filter == ""
      then bounded
      else bounded <> " AND \"" <> mc.sub_dimension <> "\" = " <> sql_quote sub_filter

  abbrev pub threshold_sql : String → String → String → Option F → Result Error String
  threshold_sql table column where_clause none =
      err (message "threshold is required for aggregation=count_above_threshold")
  threshold_sql table column where_clause (some threshold) = ok (
      "SELECT COUNT(*) AS result FROM "
      <> table
      <> " WHERE "
      <> where_clause
      <> " AND \""
      <> column
      <> "\" > "
      <> fl.show threshold)

  abbrev pub no_average : String → String → Error
  no_average column aggregation = message (
      column <> " is a cumulative counter, " <> aggregation
      <> " doesn't apply -- use aggregation=rate for a throughput figure, or aggregation=history to see raw values")

  abbrev pub no_threshold : String → Error
  no_threshold column = message (
      column
      <> " is a cumulative counter, count_above_threshold doesn't apply to it directly -- use aggregation=rate to check throughput instead")

  unfoldable pub build_metric_query :
      String → String → MetricColumn → String → String → String → F → Object F → Result Error String
  unfolding rate_query where_text input_float
  build_metric_query table column mc agent_host sub_filter aggregation hours input =
      let where_clause = where_text mc agent_host sub_filter hours in
      if aggregation == "current"
      then ok (
          "SELECT time, \"" <> column <> "\" FROM " <> table <> " WHERE " <> where_clause
          <> " ORDER BY time DESC LIMIT 1")
      else if aggregation == "history"
      then ok (
          "SELECT time, \"" <> column <> "\" FROM " <> table <> " WHERE " <> where_clause
          <> " ORDER BY time ASC LIMIT 500")
      else if aggregation == "avg" || aggregation == "max" || aggregation == "min"
      then (if is_counter mc.kind
          then err (no_average column aggregation)
          else ok (average_sql (function_name aggregation) column table where_clause))
      else if aggregation == "count_above_threshold"
      then (if is_counter mc.kind
          then err (no_threshold column)
          else threshold_sql table column where_clause (input_float input "threshold"))
      else if aggregation == "rate"
      then (if is_counter mc.kind
          then ok (rate_query table column where_clause)
          else err (
              message (
                column
                <> " is not a counter -- aggregation=rate only applies to cumulative byte/error counters like ifInOctets/ifOutOctets")))
      else err (message ("unknown aggregation " <> aggregation))
