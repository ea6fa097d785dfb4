-- ===== src/ChatApi/SubFilter.antt =====
-- resolveSubFilter of chat-api/tools.go: the interface or the pool that a text means.
use beacon_v.Prelude.{
  String, Bool, ◌||◌, Option, none, some, List, [], ◌∷◌, ◌<>◌, ◌==◌, has_prefix, keep,
  if◌then◌else◌,
}
use beacon_v.Exec.{Result, ok, err, pure, lift, ◌>>=◌, or_fail}
use beacon_v.World.{Error, message, wrap}
use beacon_v.Snmp.TrapNames.{lookup}
use beacon_v.ChatApi.Services.{Object, Services, Chats, InfluxClient, ConfigApiClient, query}
use beacon_v.ChatApi.Schema.{MetricColumn}
use beacon_v.ChatApi.Sql.{sql_quote}
use beacon_v.ChatApi.Query.{text_of}

pub record ToolContext : Type 0 where
  pub influx : InfluxClient
  pub config_api : ConfigApiClient

-- `strings.Contains`.
unfoldable pub contains_text : String → String → Bool
unfolding has_prefix
contains_text String.[] part = has_prefix part ""
contains_text (String.◌∷◌ c s) part = has_prefix part (String.◌∷◌ c s) || contains_text s part

unfoldable pub first_text : (String → Bool) → List String → Option String
first_text test [] = none
first_text test (v ∷ vs) = let rest = first_text test vs in if test v then some v else rest

-- The values that a device reports of a sub-dimension.
unfoldable pub known_values : {F : Type 0} → List (Object F) → List String
unfolding lookup
known_values [] = []
known_values (r ∷ rs) =
    let v = text_of (lookup "v" r) in
    let rest = known_values rs in if v == "" then rest else v ∷ rest

-- `%q` of a text that needs no escapes.
abbrev pub quoted : String → String
quoted s = "\"" <> s <> "\""

abbrev pub sub_filter_required : String → MetricColumn → Error
sub_filter_required table mc =
    message ("sub_filter is required for table " <> quoted table <> " (" <> mc.sub_dimension <> ")")

-- `strings.Join`.
unfoldable pub join : List String → String → String
join [] separator = ""
join (s ∷ []) separator = s
join (s ∷ t ∷ rest) separator = s <> separator <> join (t ∷ rest) separator

unfoldable pub no_such_value : String → String → MetricColumn → List String → Error
unfolding join
no_such_value requested table mc known = message (
    quoted requested
    <> " does not match a known "
    <> mc.sub_dimension
    <> " ("
    <> table
    <> ") for this device; known values: "
    <> join known ", ")

abbrev pub default_sub_filter : String → MetricColumn → Result Error String
default_sub_filter table mc =
    if mc.sub_dimension_default == ""
    then err (sub_filter_required table mc)
    else ok mc.sub_dimension_default

abbrev pub single_match : Error → List String → Result Error String
single_match e (v ∷ []) = ok v
single_match e _ = err e

abbrev pub or_single : Error → Option String → List String → Result Error String
or_single e (some v) matches = ok v
or_single e none matches = single_match e matches

unfoldable pub values_sql : String → MetricColumn → String → String
values_sql table mc agent_host =
    "SELECT DISTINCT \""
    <> mc.sub_dimension
    <> "\" AS v FROM "
    <> table
    <> " WHERE agent_host = "
    <> sql_quote agent_host
    <> " AND time >= now() - INTERVAL '72 hours'"

module _ {F : Type 0} (services : Services F) (tc : ToolContext) where
  abbrev pub matches_exactly : String → String → Bool
  matches_exactly requested v = services.equal_fold v requested

  abbrev pub matches_part : String → String → Bool
  matches_part requested v = contains_text (services.to_lower v) (services.to_lower requested)

  unfoldable pub reported_value :
      String → MetricColumn → String → List (Object F) → Result Error String
  unfolding known_values first_text contains_text no_such_value
  reported_value table mc requested rows =
      let known = known_values rows in
      or_single (no_such_value requested table mc known)
        (first_text (matches_exactly requested) known) (keep (matches_part requested) known)

  -- The value that the device reports and that the text names.
  unfoldable pub reported_sub_filter : String → MetricColumn → String → String → Chats String
  unfolding values_sql reported_value
  reported_sub_filter table mc agent_host requested = do
    rows ←
        or_fail (wrap ("looking up valid " <> mc.sub_dimension <> " values"))
          (query services tc.influx (values_sql table mc agent_host))
    lift (reported_value table mc requested rows)

  unfoldable pub resolve_sub_filter : String → MetricColumn → String → String → Chats String
  resolve_sub_filter table mc agent_host requested =
      if mc.sub_dimension == ""
      then pure ""
      else if requested == ""
      then lift (default_sub_filter table mc)
      else reported_sub_filter table mc agent_host requested
