-- ===== src/ChatApi/Schema.antt =====
-- chat-api/schema.go: the tables and columns that a tool may query.
use beacon_v.Prelude.{
  ℕ, String, Bool, true, ◌&&◌, ◌||◌, Option, none, some, List, [], ◌∷◌, ◌==◌, leb, codes, is_digit,
  ◌<>◌, ◌≡◌, refl, arith, eq_iff, Bool-cases, Option-cases, and-parts, inl, inr,
}
use mathlib.Core.Path.{subst}
use beacon_v.Exec.{Result, ok, err}
use beacon_v.World.{Error, message}
use beacon_v.Snmp.TrapNames.{lookup}

pub data ColumnKind : Type 0 where
  gauge counter : ColumnKind

-- The descriptions, which are only shown, are left out.
pub record MetricColumn : Type 0 where
  pub kind : ColumnKind
  pub sub_dimension : String
  pub sub_dimension_default : String

abbrev pub Columns : Type 0
Columns = List (String × MetricColumn)

abbrev column : ColumnKind → String → String → MetricColumn
column kind dimension fallback = record {
  kind = kind;
  sub_dimension = dimension;
  sub_dimension_default = fallback;
}

abbrev pool : MetricColumn
pool = column gauge "ciscoMemoryPoolName" "Processor"

abbrev pub interface_columns : Columns
interface_columns =
    ("ifOperStatus", column gauge "ifDescr" "")
    ∷ ("ifAdminStatus", column gauge "ifDescr" "")
    ∷ ("ifSpeed", column gauge "ifDescr" "")
    ∷ ("ifInOctets", column counter "ifDescr" "")
    ∷ ("ifOutOctets", column counter "ifDescr" "")
    ∷ ("ifInErrors", column counter "ifDescr" "")
    ∷ ("ifOutErrors", column counter "ifDescr" "")
    ∷ []

unfoldable pub metric_whitelist : List (String × Columns)
metric_whitelist =
    (
      "cpu",
      ("cpu5sec", column gauge "" "")
          ∷ ("cpu1min", column gauge "" "")
          ∷ ("cpu5min", column gauge "" "")
          ∷ [],
    )
    ∷ (
      "memory",
      ("ciscoMemoryPoolUsed", pool)
          ∷ ("ciscoMemoryPoolFree", pool)
          ∷ ("ciscoMemoryPoolLargestFree", pool)
          ∷ [],
    )
    ∷ ("interface", interface_columns)
    ∷ []

abbrev pub known_column : String → Option MetricColumn → Result Error MetricColumn
known_column name none = err (message ("unknown column " <> name))
known_column name (some mc) = ok mc

abbrev known_table : String → String → Option Columns → Result Error MetricColumn
known_table table name none = err (message ("unknown table " <> table))
known_table table name (some cols) = known_column name (lookup name cols)

unfoldable pub lookup_column : String → String → Result Error MetricColumn
unfolding lookup metric_whitelist
lookup_column table name = known_table table name (lookup table metric_whitelist)

-- A text of ASCII letters and digits, which SQL cannot take for anything but one word.
abbrev pub is_word_code : ℕ → Bool
is_word_code c = is_digit c || (leb 65 c && leb c 90) || (leb 97 c && leb c 122)

unfoldable pub all_word : List ℕ → Bool
all_word [] = true
all_word (c ∷ cs) = is_word_code c && all_word cs

unfoldable pub is_word : String → Bool
unfolding all_word
is_word s = all_word (codes s)

unfoldable pub entries_pass : {V : Type 0} → (String → V → Bool) → List (String × V) → Bool
entries_pass test [] = true
entries_pass test ((key, v) ∷ m) = test key v && entries_pass test m

pub lookup-entries_pass :
    {V : Type 0} (test : String → V → Bool) (key : String) (m : List (String × V)) (v : V)
    → entries_pass test m ≡ true
    → lookup key m ≡ some v
    → test key v ≡ true
unfolding lookup entries_pass
lookup-entries_pass test key [] v h found = absurd (cc)
lookup-entries_pass test key ((other, u) ∷ m) v h found = elim (Bool-cases (other == key)) [
  | inl same ↦
      let value : some u ≡ some v = rw same at found in
      let here : u ≡ v = cc in
      subst (λ k. test k v ≡ true) ((eq_iff other key).0 same)
        (subst (λ x. test other x ≡ true) here (ground arith))
  | inr different ↦ lookup-entries_pass test key m v (ground arith) (rw different at found)
]

column_words : String → MetricColumn → Bool
unfolding is_word
column_words name mc = is_word name && is_word mc.sub_dimension

table_words : String → Columns → Bool
unfolding is_word column_words entries_pass
table_words table cols = is_word table && entries_pass column_words cols

whitelist_words : entries_pass table_words metric_whitelist ≡ true
unfolding entries_pass table_words metric_whitelist
whitelist_words = refl

-- What is known of a table and a column that `lookupColumn` accepts.
pub record Words (table name : String) (mc : MetricColumn) : Type 0 where
  pub table_word : is_word table ≡ true
  pub name_word : is_word name ≡ true
  pub dimension_word : is_word mc.sub_dimension ≡ true

known-Words :
    (table name : String) (mc : MetricColumn) (cols : Columns) (o : Option MetricColumn)
    → is_word table ≡ true
    → lookup name cols ≡ o
    → entries_pass column_words cols ≡ true
    → known_column name o ≡ ok mc
    → Words table name mc
unfolding column_words
known-Words table name mc cols none ht found hc h = absurd (cc)
known-Words table name mc cols (some other) ht found hc h =
    let same : other ≡ mc = cc in
    let (hn, hd) =
      and-parts (is_word name) (is_word other.sub_dimension)
        (lookup-entries_pass column_words name cols other hc found) in
    record {
      table_word = ht;
      name_word = hn;
      dimension_word = subst (λ x. is_word x.sub_dimension ≡ true) same hd;
    }

-- Whatever texts the caller passes as a table and a column: if lookupColumn accepts them, they and the
-- column's sub-dimension consist of ASCII letters and digits, so that putting them into SQL adds
-- nothing but words.
pub lookup_column-Words :
    (table name : String) (mc : MetricColumn)
    → lookup_column table name ≡ ok mc
    → Words table name mc
unfolding lookup_column table_words
lookup_column-Words table name mc h = elim (Option-cases (lookup table metric_whitelist)) [
  | inl unknown ↦ absurd (let bad : err _ ≡ ok mc = rw unknown at h in cc)
  | inr (cols, found) ↦
      let (ht, hc) =
        and-parts (is_word table) (entries_pass column_words cols)
          (lookup-entries_pass table_words table metric_whitelist cols whitelist_words found) in
      known-Words table name mc cols (lookup name cols) ht refl hc (rw found at h)
]
