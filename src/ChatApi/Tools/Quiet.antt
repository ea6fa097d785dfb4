-- ===== src/ChatApi/Tools/Quiet.antt =====
-- The tools of chat-api/tools.go ask config-api and InfluxDB, and do nothing else.
use beacon_v.Prelude.{ℕ, String, none, List, [], ◌∷◌}
use beacon_v.Exec.{Result, ok, err}
use beacon_v.Exec.Keeps.{
  Keeps, Keeps-bind, Keeps-or_fail, Keeps-pure, Keeps-lift, Keeps-attempt, keeps_rules,
}
use beacon_v.World.{Error}
use beacon_v.ChatApi.Float.{Float}
use beacon_v.ChatApi.Services.{
  Object, Response, Services, Chat, ConfigApiClient, request, decode_ok, list_devices,
  get_recent_traps, query, tick, sent,
}
use beacon_v.ChatApi.Schema.{MetricColumn}
use beacon_v.ChatApi.Devices.{KnownDevice}
use beacon_v.ChatApi.SubFilter.{ToolContext, reported_sub_filter, resolve_sub_filter}
use beacon_v.ChatApi.RankDevices.{rank_filtered, rank_device, rank_all}
use beacon_v.ChatApi.Tools.{
  tool_list_devices, tool_query_metric, tool_rank_devices, tool_get_recent_traps, execute_tool,
}

module _ {A : Type 0} (P : Chat → Type 0) where
  pub request-keeps :
      (answer : ℕ → Result Error A) (note : Chat → Chat)
      → ((c : Chat) → P c → P (note c))
      → Keeps P (request answer note)
  unfolding request
  request-keeps answer note kept = record { after = kept }

  pub decode_ok-keeps :
      (trim_space : String → String) (reading : Error → Error) (refused : ℕ → String)
      (decoding : String) (resp : Response A)
      → Keeps P (decode_ok trim_space reading refused decoding resp)
  unfolding decode_ok
  decode_ok-keeps trim_space reading refused decoding resp = search (keeps_rules)

-- A predicate that neither kind of request changes.
pub record IsQuiet (P : Chat → Type 0) : Type 0 where
  pub quiet_tick : (c : Chat) → P c → P (tick c)
  pub quiet_sent : (q : String) (c : Chat) → P c → P (sent q c)

module _ {F : Type 0} (fl : Float F) (services : Services F) (tc : ToolContext) (P : Chat → Type 0)
    (quiet : IsQuiet P) where
  list_devices-quiet : (client : ConfigApiClient) → Keeps P (list_devices services client)
  unfolding list_devices
  list_devices-quiet client =
      Keeps-bind _ _ (Keeps-or_fail _ _ (request-keeps P _ tick quiet.quiet_tick))
        (λ resp. search (keeps_rules, decode_ok-keeps))

  get_recent_traps-quiet :
      (client : ConfigApiClient) (hours : F) → Keeps P (get_recent_traps services fl client hours)
  unfolding get_recent_traps
  get_recent_traps-quiet client hours =
      Keeps-bind _ _ (Keeps-or_fail _ _ (request-keeps P _ tick quiet.quiet_tick))
        (λ resp. search (keeps_rules, decode_ok-keeps))

  query-quiet : (q : String) → Keeps P (query services tc.influx q)
  unfolding query
  query-quiet q =
      Keeps-bind _ _ (Keeps-or_fail _ _ (request-keeps P _ (sent q) (quiet.quiet_sent q)))
        (λ resp. search (keeps_rules, decode_ok-keeps))

  reported_sub_filter-quiet :
      (table : String) (mc : MetricColumn) (host requested : String)
      → Keeps P (reported_sub_filter services tc table mc host requested)
  unfolding reported_sub_filter
  reported_sub_filter-quiet table mc host requested =
      Keeps-bind _ _ (Keeps-or_fail _ _ (query-quiet _)) (λ rows. Keeps-lift _)

  resolve_sub_filter-quiet :
      (table : String) (mc : MetricColumn) (host requested : String)
      → Keeps P (resolve_sub_filter services tc table mc host requested)
  unfolding resolve_sub_filter
  resolve_sub_filter-quiet table mc host requested = search (keeps_rules, reported_sub_filter-quiet)

  rank_filtered-quiet :
      (table column : String) (mc : MetricColumn) (hours : F) (d : KnownDevice)
      (sub : Result Error String)
      → Keeps P (rank_filtered fl services tc table column mc hours d sub)
  rank_filtered-quiet table column mc hours d (err e) = Keeps-pure none
  rank_filtered-quiet table column mc hours d (ok sub) =
      Keeps-bind _ _ (Keeps-attempt _ (query-quiet _)) (λ rows. Keeps-pure _)

  rank_device-quiet :
      (table column : String) (mc : MetricColumn) (hours : F) (d : KnownDevice)
      → Keeps P (rank_device fl services tc table column mc hours d)
  unfolding rank_device
  rank_device-quiet table column mc hours d =
      search (keeps_rules, resolve_sub_filter-quiet, rank_filtered-quiet)

  rank_all-quiet :
      (table column : String) (mc : MetricColumn) (hours : F) (ds : List KnownDevice)
      → Keeps P (rank_all fl services tc table column mc hours ds)
  unfolding rank_all
  rank_all-quiet table column mc hours [] = Keeps-pure []
  rank_all-quiet table column mc hours (d ∷ ds) =
      Keeps-bind _ _ (rank_device-quiet table column mc hours d)
        (λ r. Keeps-bind _ _ (rank_all-quiet table column mc hours ds) (λ rs. Keeps-pure _))

  tool_query_metric-quiet : (input : Object F) → Keeps P (tool_query_metric fl services tc input)
  unfolding tool_query_metric
  tool_query_metric-quiet input = Keeps-bind _ _ (Keeps-lift _) λ hours.
      Keeps-bind _ _ (Keeps-lift _) λ mc. Keeps-bind _ _ (list_devices-quiet tc.config_api) λ ds.
        Keeps-bind _ _ (Keeps-lift _) λ dev.
          Keeps-bind _ _ (resolve_sub_filter-quiet _ mc _ _) λ sub.
            Keeps-bind _ _ (Keeps-lift _)
              λ sql. Keeps-bind _ _ (query-quiet sql) λ rows. Keeps-pure _

  tool_rank_devices-quiet : (input : Object F) → Keeps P (tool_rank_devices fl services tc input)
  unfolding tool_rank_devices
  tool_rank_devices-quiet input = Keeps-bind _ _ (Keeps-lift _) λ hours.
      Keeps-bind _ _ (Keeps-lift _) λ mc.
        Keeps-bind _ _ (list_devices-quiet tc.config_api)
          λ ds. Keeps-bind _ _ (rank_all-quiet _ _ mc hours ds) λ rs. Keeps-lift _

  tool_list_devices-quiet : Keeps P (tool_list_devices fl services tc)
  unfolding tool_list_devices
  tool_list_devices-quiet = search (keeps_rules, list_devices-quiet)

  tool_get_recent_traps-quiet :
      (input : Object F) → Keeps P (tool_get_recent_traps fl services tc input)
  unfolding tool_get_recent_traps
  tool_get_recent_traps-quiet input = search (keeps_rules, get_recent_traps-quiet)

  -- A tool keeps whatever requests to config-api and InfluxDB keep.
  pub execute_tool-quiet :
      (name : String) (input : Object F) → Keeps P (execute_tool fl services tc name input)
  unfolding execute_tool
  execute_tool-quiet name input = search (
    keeps_rules, tool_list_devices-quiet, tool_get_recent_traps-quiet, tool_query_metric-quiet,
    tool_rank_devices-quiet,
  )
