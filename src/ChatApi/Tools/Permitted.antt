-- ===== src/ChatApi/Tools/Permitted.antt =====
-- Which queries chat-api/tools.go may send to InfluxDB, and that its parts send no others.
use beacon_v.Prelude.{
  ℕ, String, Bool, true, false, ◌||◌, none, List, [], ◌∷◌, ◌==◌, ◌<>◌, All, All-append, ◌≡◌, refl,
}
use beacon_v.Exec.{Result, ok, err, lift, or_fail}
use beacon_v.Exec.Keeps.{
  Keeps, Keeps-bind, Keeps-attempt, Keeps-or_fail, Keeps-pure, Keeps-lift, keeps_rules,
}
use beacon_v.World.{Error, wrap}
use beacon_v.ChatApi.Float.{Float}
use beacon_v.ChatApi.Services.{Object, Response, Services, Chat, request, decode_ok, query}
use beacon_v.ChatApi.Schema.{MetricColumn, lookup_column}
use beacon_v.ChatApi.Devices.{KnownDevice}
use beacon_v.ChatApi.Query.{max_query_hours, build_metric_query}
use beacon_v.ChatApi.SubFilter.{
  ToolContext, values_sql, reported_value, reported_sub_filter, resolve_sub_filter,
}
use beacon_v.ChatApi.RankDevices.{rank_sql, rank_filtered, rank_device, rank_all}

unfoldable pub has_host : List KnownDevice → String → Bool
has_host [] host = false
has_host (d ∷ ds) host = d.ip_address == host || has_host ds host

module _ {F : Type 0} (fl : Float F) (services : Services F) (tc : ToolContext) where
  -- config-api once answered with a list of devices.
  pub record Answered (devices : List KnownDevice) : Type 0 where
    pub at : ℕ
    pub url : String
    pub response : Response (List KnownDevice)
    pub answer : services.get_devices at url ≡ ok response
    pub decoded : response.decoded ≡ ok devices

  -- The address of a device that config-api answered with.
  pub record Listed (host : String) : Type 0 where
    pub devices : List KnownDevice
    pub answered : Answered devices
    pub listed : has_host devices host ≡ true

  pub record IsBounded (hours : F) : Type 0 where
    pub above_zero : fl.le hours (fl.of_nat 0) ≡ false
    pub below_limit : fl.lt (fl.of_nat max_query_hours) hours ≡ false

  -- The queries for the values of a sub-dimension, for a metric and for a ranking, each about a known
  -- column and a listed address, over at most 72 hours.
  pub data Permitted (q : String) : Type 0 where
    values :
        (table column host : String) (mc : MetricColumn)
        → lookup_column table column ≡ ok mc
        → Listed host
        → q ≡ values_sql table mc host
        → Permitted q
    metric_query :
        (table column host sub aggregation : String) (mc : MetricColumn) (hours : F)
        (input : Object F)
        → lookup_column table column ≡ ok mc
        → Listed host
        → IsBounded hours
        → build_metric_query fl table column mc host sub aggregation hours input ≡ ok q
        → Permitted q
    ranking_query :
        (table column host sub : String) (mc : MetricColumn) (hours : F)
        → lookup_column table column ≡ ok mc
        → Listed host
        → IsBounded hours
        → q ≡ rank_sql fl services tc table column mc host sub hours
        → Permitted q

  abbrev pub AllPermitted : Chat → Type 0
  AllPermitted c = All Permitted c.queries

  pub query-keeps : (q : String) → Permitted q → Keeps AllPermitted (query services tc.influx q)
  unfolding query request decode_ok
  query-keeps q p =
      Keeps-bind _ _
        (Keeps-or_fail _ _
          (record { after = λ c h. All-append Permitted c.queries (q ∷ []) h (p, tt) }))
        (λ resp. search (keeps_rules))

  module _ (table column : String) (mc : MetricColumn)
      (known : lookup_column table column ≡ ok mc) where
    reported_sub_filter-keeps :
        (host requested : String)
        → Listed host
        → Keeps AllPermitted (reported_sub_filter services tc table mc host requested)
    unfolding reported_sub_filter
    reported_sub_filter-keeps host requested listed =
        let sql = values_sql table mc host in
        let asked = query-keeps sql (values table column host mc known listed refl) in
        Keeps-bind
          (or_fail (wrap ("looking up valid " <> mc.sub_dimension <> " values"))
            (query services tc.influx sql))
          (λ rows. lift (reported_value services tc table mc requested rows))
          (Keeps-or_fail _ _ asked)
          (λ rows. Keeps-lift (reported_value services tc table mc requested rows))

    pub resolve_sub_filter-keeps :
        (host requested : String)
        → Listed host
        → Keeps AllPermitted (resolve_sub_filter services tc table mc host requested)
    unfolding resolve_sub_filter
    resolve_sub_filter-keeps host requested listed =
        search (keeps_rules, reported_sub_filter-keeps, listed)

    module _ (hours : F) (bounded : IsBounded hours) where
      rank_filtered-keeps :
          (d : KnownDevice) (sub : Result Error String)
          → Listed d.ip_address
          → Keeps AllPermitted (rank_filtered fl services tc table column mc hours d sub)
      rank_filtered-keeps d (err e) listed = Keeps-pure none
      rank_filtered-keeps d (ok sub) listed =
          Keeps-bind _ _
            (Keeps-attempt _ (
              query-keeps _
                (ranking_query table column d.ip_address sub mc hours known listed bounded refl)))
            (λ rows. Keeps-pure _)

      rank_device-keeps :
          (d : KnownDevice)
          → Listed d.ip_address
          → Keeps AllPermitted (rank_device fl services tc table column mc hours d)
      unfolding rank_device
      rank_device-keeps d listed =
          search (keeps_rules, resolve_sub_filter-keeps, rank_filtered-keeps, listed)

      pub rank_all-keeps :
          (ds : List KnownDevice)
          → All (λ d. Listed d.ip_address) ds
          → Keeps AllPermitted (rank_all fl services tc table column mc hours ds)
      unfolding rank_all
      rank_all-keeps [] h = Keeps-pure []
      rank_all-keeps (d ∷ ds) h =
          Keeps-bind _ _ (rank_device-keeps d h.0)
            (λ r. Keeps-bind _ _ (rank_all-keeps ds h.1) (λ rs. Keeps-pure _))
