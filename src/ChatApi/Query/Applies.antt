-- ===== src/ChatApi/Query/Applies.antt =====
-- buildMetricQuery of chat-api/tools.go: which aggregations it accepts.
use beacon_v.Prelude.{
  String, Bool, true, false, ◌&&◌, ◌||◌, Option, none, some, List, [], ◌∷◌, ◌==◌, if◌then◌else◌,
  ◌≡◌, refl, sym, arith, eq_iff, Bool-cases, inl, inr,
}
use mathlib.Core.Path.{subst}
use beacon_v.Exec.{Result, ok, err}
use beacon_v.World.{Error}
use beacon_v.ChatApi.Float.{Float}
use beacon_v.ChatApi.Services.{Object}
use beacon_v.ChatApi.Schema.{ColumnKind, gauge, counter, MetricColumn}
use beacon_v.ChatApi.Query.{is_counter, input_float, threshold_sql, build_metric_query}

abbrev pub is_ok : Result Error String → Bool
is_ok (ok _) = true
is_ok (err _) = false

abbrev pub is_some : {A : Type 0} → Option A → Bool
is_some none = false
is_some (some _) = true

abbrev pub one_of : List String → String → Bool
one_of [] s = false
one_of (x ∷ xs) s = s == x || one_of xs s

-- A counter is read as it is or as a rate, a gauge as it is or through a function.
abbrev pub aggregations_of : ColumnKind → List String
aggregations_of counter = "current" ∷ "history" ∷ "rate" ∷ []
aggregations_of gauge = "current" ∷ "history" ∷ "avg" ∷ "max" ∷ "min" ∷ "count_above_threshold" ∷ []

-- The tests in the code's order.
abbrev tests : ColumnKind → Bool → String → Bool
tests kind given aggregation =
    if aggregation == "current"
    then true
    else if aggregation == "history"
    then true
    else if aggregation == "avg" || aggregation == "max" || aggregation == "min"
    then (if is_counter kind then false else true)
    else if aggregation == "count_above_threshold"
    then (if is_counter kind then false else given)
    else if aggregation == "rate"
    then (if is_counter kind then true else false)
    else false

abbrev pub applies : ColumnKind → Bool → String → Bool
applies kind given aggregation =
    one_of (aggregations_of kind) aggregation
    && (if aggregation == "count_above_threshold" then given else true)

at_literal :
    (kind : ColumnKind) (given : Bool) (literal aggregation : String)
    → (aggregation == literal) ≡ true
    → tests kind given literal ≡ applies kind given literal
    → tests kind given aggregation ≡ applies kind given aggregation
at_literal kind given literal aggregation same h =
    subst (λ a. tests kind given a ≡ applies kind given a)
      (sym ((eq_iff aggregation literal).0 same)) h

threshold_given :
    (kind : ColumnKind) (given : Bool)
    → tests kind given "count_above_threshold" ≡ applies kind given "count_above_threshold"
threshold_given gauge true = refl
threshold_given gauge false = refl
threshold_given counter true = refl
threshold_given counter false = refl

rate_applies :
    (kind : ColumnKind) (given : Bool) → tests kind given "rate" ≡ applies kind given "rate"
rate_applies gauge given = refl
rate_applies counter given = refl

otherwise :
    (kind : ColumnKind) (given : Bool) (aggregation : String)
    → (aggregation == "count_above_threshold") ≡ false
    → (aggregation == "rate") ≡ false
    → tests kind given aggregation ≡ applies kind given aggregation
otherwise gauge given aggregation not_counted not_rated = ground arith
otherwise counter given aggregation not_counted not_rated = ground arith

tests-applies :
    (kind : ColumnKind) (given : Bool) (aggregation : String)
    → tests kind given aggregation ≡ applies kind given aggregation
tests-applies kind given aggregation = elim (Bool-cases (aggregation == "count_above_threshold")) [
  | inl counted ↦ at_literal kind given _ aggregation counted (threshold_given kind given)
  | inr not_counted ↦ elim (Bool-cases (aggregation == "rate")) [
    | inl rated ↦ at_literal kind given _ aggregation rated (rate_applies kind given)
    | inr not_rated ↦ otherwise kind given aggregation not_counted not_rated
  ]
]

module _ {F : Type 0} (fl : Float F) where
  threshold-is_ok :
      (table column w : String) (threshold : Option F)
      → is_ok (threshold_sql fl table column w threshold) ≡ is_some threshold
  threshold-is_ok table column w none = refl
  threshold-is_ok table column w (some x) = refl

  is_ok-if :
      (b : Bool) (x y : Result Error String)
      → is_ok (if b then x else y) ≡ (if b then is_ok x else is_ok y)
  is_ok-if true x y = refl
  is_ok-if false x y = refl

  -- buildMetricQuery succeeds exactly if the aggregation is among those of the column's kind and, where
  -- it counts above a threshold, the input has a number under "threshold".
  pub build_metric_query-applies :
      (table column : String) (mc : MetricColumn) (host sub aggregation : String) (hours : F)
      (input : Object F)
      → is_ok (build_metric_query fl table column mc host sub aggregation hours input)
        ≡ applies mc.kind (is_some (input_float input "threshold")) aggregation
  unfolding build_metric_query
  build_metric_query-applies table column mc host sub aggregation hours input =
      simp (is_ok-if, threshold-is_ok)
        (tests-applies mc.kind (is_some (input_float input "threshold")) aggregation)
