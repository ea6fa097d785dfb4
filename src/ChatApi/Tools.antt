-- ===== src/ChatApi/Tools.antt =====
-- chat-api/tools.go: the tools that the model may call.
pub mod Quiet
pub mod Interfaces
pub mod Permitted
pub mod Executed
use beacon_v.Prelude.{
  ℕ, String, Bool, true, false, ◌&&◌, ◌||◌, not, Option, none, some, List, [], ◌∷◌, ◌++◌, ◌<>◌,
  ◌==◌, has_prefix, keep, if◌then◌else◌,
}
use Prim.Native.String
use beacon_v.Exec.{Result, ok, err, pure, fail, lift, ◌>>=◌, ◌>>◌, attempt, or_fail}
use beacon_v.World.{Error, message, wrap}
use beacon_v.Snmp.TrapNames.{lookup}
use beacon_v.ChatApi.Float.{Float}
use beacon_v.ChatApi.Services.{
  Value, string, float, Object, ReadableTrap, Services, Chats, InfluxClient, ConfigApiClient,
  list_devices, get_recent_traps, query,
}
use beacon_v.ChatApi.Schema.{ColumnKind, MetricColumn, lookup_column}
use beacon_v.ChatApi.Sql.{sql_quote}
use beacon_v.ChatApi.Devices.{KnownDevice, resolve_device}
use beacon_v.ChatApi.Query.{
  is_counter, text_of, float_of, input_string, input_float, clamp_hours, where_text, average_sql,
  rate_query, build_metric_query,
}
use beacon_v.ChatApi.SubFilter.{ToolContext, resolve_sub_filter}
use beacon_v.ChatApi.RankDevices.{rank_all}
use beacon_v.ChatApi.Rank.{Ranked, rank}

-- What a tool returns: the value whose JSON text is the tool's result.
pub data ToolResult (F : Type 0) : Type 0 where
  device_list : List KnownDevice → ToolResult F
  metric : String → String → String → List (Object F) → ToolResult F
  ranking : String → String → String → List (Ranked F) → ToolResult F
  recent_traps : String → List ReadableTrap → ToolResult F

module _ {F : Type 0} (fl : Float F) (services : Services F) (tc : ToolContext) where
  abbrev pub required_hours : Option F → Result Error F
  required_hours none = err (message "hours is required")
  required_hours (some h) = clamp_hours fl h

  abbrev pub find_device : List KnownDevice → String → Result Error KnownDevice
  find_device = resolve_device services.trim_space services.to_lower services.equal_fold

  unfoldable pub tool_list_devices : Chats (ToolResult F)
  tool_list_devices = do devices ← list_devices services tc.config_api; pure (device_list devices)

  unfoldable pub tool_query_metric : Object F → Chats (ToolResult F)
  unfolding build_metric_query input_string input_float clamp_hours lookup_column resolve_device
  tool_query_metric input = do
    let table = input_string input "table"
    let column = input_string input "column"
    hours ← lift (required_hours (input_float input "hours"))
    mc ← lift (lookup_column table column)
    devices ← list_devices services tc.config_api
    dev ← lift (find_device devices (input_string input "device"))
    sub_filter ←
        resolve_sub_filter services tc table mc dev.ip_address (input_string input "sub_filter")
    sql ← lift (
        build_metric_query fl table column mc dev.ip_address sub_filter
          (input_string input "aggregation") hours input)
    rows ← query services tc.influx sql
    pure (metric dev.hostname table column rows)

  abbrev pub unit_name : ColumnKind → String
  unit_name kind = if is_counter kind then "avg Mbps" else "avg value"

  unfoldable pub all_finite : List (Ranked F) → Bool
  all_finite [] = true
  all_finite (r ∷ rs) = fl.is_finite r.value && all_finite rs

  -- `json.Marshal` refuses infinities.
  abbrev pub marshal_ranking :
      String → String → ColumnKind → List (Ranked F) → Result Error (ToolResult F)
  marshal_ranking table column kind rs =
      if all_finite rs
      then ok (ranking table column (unit_name kind) rs)
      else err (message "json: unsupported value")

  unfoldable pub tool_rank_devices : Object F → Chats (ToolResult F)
  unfolding rank all_finite input_string input_float clamp_hours lookup_column
  tool_rank_devices input = do
    let table = input_string input "table"
    let column = input_string input "column"
    hours ← lift (required_hours (input_float input "hours"))
    mc ← lift (lookup_column table column)
    devices ← list_devices services tc.config_api
    results ← rank_all fl services tc table column mc hours devices
    lift (marshal_ranking table column mc.kind (rank fl results))

  abbrev pub trap_note : String
  trap_note = "source device attribution is not reliable for these traps, see tool description"

  unfoldable pub tool_get_recent_traps : Object F → Chats (ToolResult F)
  unfolding input_float clamp_hours
  tool_get_recent_traps input = do
    hours ← lift (required_hours (input_float input "hours"))
    traps ← get_recent_traps services fl tc.config_api hours
    pure (recent_traps trap_note traps)

  unfoldable pub execute_tool : String → Object F → Chats (ToolResult F)
  execute_tool name input =
      if name == "list_devices"
      then tool_list_devices
      else if name == "query_metric"
      then tool_query_metric input
      else if name == "rank_devices"
      then tool_rank_devices input
      else if name == "get_recent_traps"
      then tool_get_recent_traps input
      else fail (message ("unknown tool " <> name))
