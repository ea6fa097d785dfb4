-- ===== src/ChatApi/Declarations.antt =====
-- toolDefinitions of chat-api/tools.go: what the model is told of the tools, less the descriptions.
use beacon_v.Prelude.{String, List, [], ◌∷◌}

pub record Property : Type 0 where
  pub type_name : String
  pub values : List String

pub record FunctionDeclaration : Type 0 where
  pub name : String
  pub properties : List (String × Property)
  pub required : List String

abbrev of_type : String → Property
of_type type_name = record { type_name = type_name; values = [] }

abbrev one_of : List String → Property
one_of values = record { type_name = "string"; values = values }

abbrev table_property : Property
table_property = one_of ("cpu" ∷ "memory" ∷ "interface" ∷ [])

abbrev pub aggregations : List String
aggregations = "current" ∷ "history" ∷ "avg" ∷ "max" ∷ "min" ∷ "count_above_threshold" ∷ "rate" ∷ []

abbrev pub query_metric_parameters : FunctionDeclaration
query_metric_parameters = record {
  name = "query_metric";
  properties =
      ("device", of_type "string")
      ∷ ("table", table_property)
      ∷ ("column", of_type "string")
      ∷ ("aggregation", one_of aggregations)
      ∷ ("hours", of_type "number")
      ∷ ("threshold", of_type "number")
      ∷ ("sub_filter", of_type "string")
      ∷ [];
  required = "device" ∷ "table" ∷ "column" ∷ "aggregation" ∷ "hours" ∷ [];
}

abbrev pub rank_devices_parameters : FunctionDeclaration
rank_devices_parameters = record {
  name = "rank_devices";
  properties =
      ("table", table_property) ∷ ("column", of_type "string") ∷ ("hours", of_type "number") ∷ [];
  required = "table" ∷ "column" ∷ "hours" ∷ [];
}

abbrev pub get_recent_traps_parameters : FunctionDeclaration
get_recent_traps_parameters = record {
  name = "get_recent_traps";
  properties = ("hours", of_type "number") ∷ [];
  required = "hours" ∷ [];
}

abbrev pub tool_definitions : List FunctionDeclaration
tool_definitions =
    record { name = "list_devices"; properties = []; required = [] }
    ∷ query_metric_parameters
    ∷ rank_devices_parameters
    ∷ get_recent_traps_parameters
    ∷ []
