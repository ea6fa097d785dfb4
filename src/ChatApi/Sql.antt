-- ===== src/ChatApi/Sql.antt =====
-- chat-api/influx.go and tools.go: the texts that are put into SQL.
use Prim.Native.Char.{Char, code}
use Prim.Native.String.append
use beacon_v.Prelude.{
  String, Bool, true, false, Option, none, some, eqb, if◌then◌else◌, ◌<>◌, ◌≡◌, refl, ap, ◌∙◌,
  Bool-cases, inl, inr,
}

abbrev pub is_quote : Char → Bool
is_quote c = eqb (code c) 39

-- `strings.ReplaceAll(s, "'", "''")`, followed by `tail`.
unfoldable pub doubled : String → String → String
doubled String.[] tail = tail
doubled (String.◌∷◌ c s) tail =
    let rest = doubled s tail in
    if is_quote c then String.◌∷◌ c (String.◌∷◌ c rest) else String.◌∷◌ c rest

unfoldable pub sql_quote : String → String
unfolding doubled
sql_quote s = String.◌∷◌ "'" (doubled s "'")

abbrev pub with_char : Char → Option (String × String) → Option (String × String)
with_char c none = none
with_char c (some (s, rest)) = some (String.◌∷◌ c s, rest)

-- How SQL reads a literal behind its first quote: two quotes are one, and one that stands alone ends it.
-- `pending` says that the character before was a quote.
unfoldable pub read_literal : Bool → String → Option (String × String)
read_literal false String.[] = none
read_literal true String.[] = some ("", "")
read_literal false (String.◌∷◌ c s) =
    let ended = read_literal true s in
    let more = read_literal false s in if is_quote c then ended else with_char c more
read_literal true (String.◌∷◌ c s) =
    let more = read_literal false s in
    if is_quote c then with_char c more else some ("", String.◌∷◌ c s)

read_literal-doubled :
    (s tail : String)
    → read_literal true tail ≡ some ("", tail)
    → read_literal false (doubled s (String.◌∷◌ "'" tail)) ≡ some (s, tail)
unfolding read_literal doubled
read_literal-doubled String.[] tail ends = ends
read_literal-doubled (String.◌∷◌ c s) tail ends = elim (Bool-cases (is_quote c)) [
  | inl quote ↦ rw (quote, read_literal-doubled s tail ends, quote) refl
  | inr other ↦ rw (other, read_literal-doubled s tail ends, other) refl
]

cons-append : (c : Char) (s t : String) → String.◌∷◌ c s <> t ≡ String.◌∷◌ c (s <> t)
cons-append c s t = append.cons c s t

doubled-append : (s t r : String) → doubled s t <> r ≡ doubled s (t <> r)
unfolding doubled
doubled-append String.[] t r = refl
doubled-append (String.◌∷◌ c s) t r =
    let one = cons-append c (doubled s t) r ∙ ap (String.◌∷◌ c) (doubled-append s t r) in
    elim (Bool-cases (is_quote c)) [
      | inl quote ↦ rw quote (cons-append c (String.◌∷◌ c (doubled s t)) r ∙ ap (String.◌∷◌ c) one)
      | inr other ↦ rw other one
    ]

-- A literal at the start of a text, and what follows it.
unfoldable pub read_sql : String → Option (String × String)
unfolding read_literal
read_sql String.[] = none
read_sql (String.◌∷◌ c s) = if is_quote c then read_literal false s else none

-- Whatever text is quoted, SQL reads back exactly that text and continues with what stands behind the
-- closing quote, if that does not begin with a quote itself: no text leaves its literal.
pub read_sql-sql_quote :
    (s rest : String)
    → read_literal true rest ≡ some ("", rest)
    → read_sql (sql_quote s <> rest) ≡ some (s, rest)
unfolding read_sql sql_quote
read_sql-sql_quote s rest ends =
    ap read_sql (cons-append "'" (doubled s "'") rest)
    ∙ ap (read_literal false) (doubled-append s "'" rest)
    ∙ ap (λ t. read_literal false (doubled s t))
        (cons-append "'" "" rest ∙ ap (String.◌∷◌ "'") (append.nil rest))
    ∙ read_literal-doubled s rest ends
