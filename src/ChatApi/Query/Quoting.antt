-- ===== src/ChatApi/Query/Quoting.antt =====
-- buildMetricQuery of chat-api/tools.go: what the texts that it quotes can change.
use beacon_v.Prelude.{
  String, Bool, true, false, ◌||◌, Option, none, some, ◌<>◌, ◌==◌, if◌then◌else◌, if-holds, ◌≡◌,
  refl,
}
use beacon_v.Exec.{Result, ok, err}
use beacon_v.World.{Error}
use beacon_v.ChatApi.Float.{Float}
use beacon_v.ChatApi.Services.{Object}
use beacon_v.ChatApi.Schema.{MetricColumn, is_word, lookup_column, lookup_column-Words}
use beacon_v.ChatApi.Query.{
  is_counter, input_float, rate_query, where_text, average_sql, threshold_sql, function_name,
  build_metric_query,
}
use beacon_v.ChatApi.Query.Skeleton.{outside, mode_after, skeleton}
use beacon_v.ChatApi.Query.Alike.{
  Alike, Alike-refl, Alike-append, Alike-behind, word-outside, where-Alike, WritesNoQuote,
}

-- Two outcomes of a query's making: the same error, or texts that differ in their literals only.
abbrev pub DifferInLiterals : Result Error String → Result Error String → Type 0
DifferInLiterals (ok s) (ok t) = skeleton s ≡ skeleton t
DifferInLiterals (err e) (err f) = e ≡ f
DifferInLiterals _ _ = ⊥

made : (s t : String) → Alike outside s t → DifferInLiterals (ok s) (ok t)
unfolding skeleton
made s t h = h.same_skeleton

if-both :
    (b : Bool) (x y x' y' : Result Error String)
    → DifferInLiterals x x'
    → DifferInLiterals y y'
    → DifferInLiterals (if b then x else y) (if b then x' else y')
if-both true x y x' y' hx hy = hx
if-both false x y x' y' hx hy = hy

module _ (table column : String) (table_word : is_word table ≡ true)
    (column_word : is_word column ≡ true) (w w' : String) (alike : Alike outside w w') where
  -- What all queries share: they name the column and the table, then comes the WHERE clause.
  from-Alike :
      (suffix : String)
      → Alike outside
          (column <> "\" FROM " <> table <> " WHERE " <> w <> suffix)
          (column <> "\" FROM " <> table <> " WHERE " <> w' <> suffix)
  unfolding mode_after
  from-Alike suffix = Alike-behind outside outside column _ _ (word-outside column column_word) (
      Alike-behind outside outside "\" FROM " _ _ refl (
        Alike-behind outside outside table _ _ (word-outside table table_word) (
          Alike-behind outside outside " WHERE " _ _ refl
            (Alike-append outside _ _ _ _ _ refl alike (Alike-refl _ suffix)))))

  rows-Alike :
      (suffix : String)
      → Alike outside
          ("SELECT time, \"" <> column <> "\" FROM " <> table <> " WHERE " <> w <> suffix)
          ("SELECT time, \"" <> column <> "\" FROM " <> table <> " WHERE " <> w' <> suffix)
  unfolding mode_after
  rows-Alike suffix = Alike-behind outside outside "SELECT time, \"" _ _ refl (from-Alike suffix)

  average-Alike :
      (fn : String)
      → is_word fn ≡ true
      → Alike outside (average_sql fn column table w) (average_sql fn column table w')
  unfolding mode_after
  average-Alike fn fn_word = Alike-behind outside outside "SELECT " _ _ refl (
      Alike-behind outside outside fn _ _ (word-outside fn fn_word) (
        Alike-behind outside outside "(\"" _ _ refl (
          Alike-behind outside outside column _ _ (word-outside column column_word) (
            Alike-behind outside outside "\") AS result FROM " _ _ refl (
              Alike-behind outside outside table _ _ (word-outside table table_word)
                (Alike-behind outside outside " WHERE " _ _ refl alike))))))

  rate-Alike : Alike outside (rate_query table column w) (rate_query table column w')
  unfolding rate_query mode_after
  rate-Alike = Alike-behind outside outside "\nWITH deltas AS (\n  SELECT time, \"" _ _ refl (
      Alike-behind outside outside column _ _ (word-outside column column_word) (
        Alike-behind outside outside "\" - LAG(\"" _ _ refl (
          Alike-behind outside outside column _ _ (word-outside column column_word) (
            Alike-behind outside outside "\") OVER (ORDER BY time) AS delta\n  FROM " _ _ refl (
              Alike-behind outside outside table _ _ (word-outside table table_word) (
                Alike-behind outside outside " WHERE " _ _ refl
                  (Alike-append outside _ _ _ _ _ refl alike (Alike-refl _ _))))))))

  module _ {F : Type 0} (fl : Float F) where
    threshold-Alike :
        (threshold : Option F)
        → DifferInLiterals
            (threshold_sql fl table column w threshold)
            (threshold_sql fl table column w' threshold)
    unfolding mode_after
    threshold-Alike none = refl
    threshold-Alike (some t) = made _ _ (
        Alike-behind outside outside "SELECT COUNT(*) AS result FROM " _ _ refl (
          Alike-behind outside outside table _ _ (word-outside table table_word) (
            Alike-behind outside outside " WHERE " _ _ refl
              (Alike-append outside _ _ _ _ _ refl alike (Alike-refl _ _)))))

function_name-word : (aggregation : String) → is_word (function_name aggregation) ≡ true
unfolding is_word
function_name-word aggregation =
    if-holds (λ fn. is_word fn ≡ true) (aggregation == "avg") "AVG" _ refl
      (if-holds (λ fn. is_word fn ≡ true) (aggregation == "max") "MAX" "MIN" refl refl)

-- For a table and a column that lookupColumn accepts, two calls of buildMetricQuery that differ in the
-- address and in the sub-filter alone, the sub-filter being empty in both or in neither, both fail with
-- the same error, or build texts that are the same outside of SQL's literals.
pub build_metric_query-DifferInLiterals :
    {F : Type 0} (fl : Float F)
    → WritesNoQuote fl
    → (table column : String) (mc : MetricColumn) → lookup_column table column ≡ ok mc
    → (host host' sub sub' aggregation : String) (hours : F) (input : Object F)
    → (sub == "") ≡ (sub' == "")
    → DifferInLiterals
        (build_metric_query fl table column mc host sub aggregation hours input)
        (build_metric_query fl table column mc host' sub' aggregation hours input)
unfolding build_metric_query
build_metric_query-DifferInLiterals fl plain table column mc h host host' sub sub' aggregation hours
      input same =
    let words = lookup_column-Words table column mc h in
    let w = where_text fl mc host sub hours in
    let w' = where_text fl mc host' sub' hours in
    let alike = where-Alike fl plain mc hours host host' sub sub' words.dimension_word same in
    let tw = words.table_word in
    let cw = words.name_word in
    if-both (aggregation == "current") _ _ _ _
      (made _ _ (rows-Alike table column tw cw w w' alike _))
      (if-both (aggregation == "history") _ _ _ _
        (made _ _ (rows-Alike table column tw cw w w' alike _))
        (if-both (aggregation == "avg" || aggregation == "max" || aggregation == "min") _ _ _ _
          (if-both (is_counter mc.kind) _ _ _ _ refl (
            made _ _
              (average-Alike table column tw cw w w' alike _ (function_name-word aggregation))))
          (if-both (aggregation == "count_above_threshold") _ _ _ _
            (if-both (is_counter mc.kind) _ _ _ _ refl
              (threshold-Alike table column tw cw w w' alike fl (input_float input "threshold")))
            (if-both (aggregation == "rate") _ _ _ _
              (if-both (is_counter mc.kind) _ _ _ _
                (made _ _ (rate-Alike table column tw cw w w' alike)) refl)
              refl))))
