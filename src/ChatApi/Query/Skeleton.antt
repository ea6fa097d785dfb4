-- ===== src/ChatApi/Query/Skeleton.antt =====
-- The SQL of chat-api/tools.go outside its literals does not depend on the quoted texts.
use Prim.Native.Char.{Char}
use beacon_v.Prelude.{
  String, Bool, true, false, ◌<>◌, codes, if◌then◌else◌, ◌≡◌, refl, sym, ap, ◌∙◌, arith, Bool-cases,
  inl, inr,
}
use text.Mathlib.TextLemmas.{nil-append, cons-append}
use beacon_v.ChatApi.Schema.{all_word}
use beacon_v.ChatApi.Sql.{is_quote, doubled, sql_quote}

-- Where a reader of SQL stands: outside a literal, in one, or behind a quote in one, which closes the
-- literal unless another quote follows.
pub data Mode : Type 0 where
  outside inside pending : Mode

abbrev pub read_char : Mode → Bool → Mode
read_char outside true = inside
read_char outside false = outside
read_char inside true = pending
read_char inside false = inside
read_char pending true = inside
read_char pending false = outside

-- A character stays if it stands outside; of a literal, the opening quote stays.
abbrev pub is_kept : Mode → Bool → Bool
is_kept outside _ = true
is_kept inside _ = false
is_kept pending q = if q then false else true

unfoldable pub mode_after : Mode → String → Mode
mode_after m String.[] = m
mode_after m (String.◌∷◌ c s) = mode_after (read_char m (is_quote c)) s

unfoldable pub skeleton_from : Mode → String → String
skeleton_from m String.[] = ""
skeleton_from m (String.◌∷◌ c s) =
    let rest = skeleton_from (read_char m (is_quote c)) s in
    if is_kept m (is_quote c) then String.◌∷◌ c rest else rest

-- The text with every literal emptied.
unfoldable pub skeleton : String → String
unfolding skeleton_from
skeleton = skeleton_from outside

pub mode_after-append :
    (m : Mode) (s t : String) → mode_after m (s <> t) ≡ mode_after (mode_after m s) t
unfolding mode_after
mode_after-append m String.[] t = ap (mode_after m) (nil-append t)
mode_after-append m (String.◌∷◌ c s) t =
    ap (mode_after m) (cons-append c s t) ∙ mode_after-append (read_char m (is_quote c)) s t

keep-append :
    (kept : Bool) (c : Char) (rest s t : String)
    → rest ≡ s <> t
    → (if kept then String.◌∷◌ c rest else rest) ≡ (if kept then String.◌∷◌ c s else s) <> t
keep-append true c rest s t e = ap (String.◌∷◌ c) e ∙ sym (cons-append c s t)
keep-append false c rest s t e = e

pub skeleton-append :
    (m : Mode) (s t : String)
    → skeleton_from m (s <> t) ≡ skeleton_from m s <> skeleton_from (mode_after m s) t
unfolding skeleton_from mode_after
skeleton-append m String.[] t =
    ap (skeleton_from m) (nil-append t) ∙ sym (nil-append (skeleton_from m t))
skeleton-append m (String.◌∷◌ c s) t =
    let next = read_char m (is_quote c) in
    ap (skeleton_from m) (cons-append c s t)
    ∙ keep-append (is_kept m (is_quote c)) c _ _ _ (skeleton-append next s t)

-- What stands inside a literal leaves no trace.
doubled-mode : (s tail : String) → mode_after inside (doubled s tail) ≡ mode_after inside tail
unfolding doubled mode_after
doubled-mode String.[] tail = refl
doubled-mode (String.◌∷◌ c s) tail = elim (Bool-cases (is_quote c)) [
  | inl quote ↦ rw (quote, mode_after, quote) (doubled-mode s tail)
  | inr other ↦ rw (other, mode_after, other) (doubled-mode s tail)
]

doubled-skeleton :
    (s tail : String) → skeleton_from inside (doubled s tail) ≡ skeleton_from inside tail
unfolding doubled skeleton_from
doubled-skeleton String.[] tail = refl
doubled-skeleton (String.◌∷◌ c s) tail = elim (Bool-cases (is_quote c)) [
  | inl quote ↦ rw (quote, quote) (doubled-skeleton s tail)
  | inr other ↦ rw (other, other) (doubled-skeleton s tail)
]

pub quoted-mode : (s : String) → mode_after outside (sql_quote s) ≡ pending
unfolding sql_quote mode_after
quoted-mode s = doubled-mode s "'"

pub quoted-skeleton : (s : String) → skeleton_from outside (sql_quote s) ≡ "'"
unfolding sql_quote skeleton_from
quoted-skeleton s = ap (String.◌∷◌ "'") (doubled-skeleton s "'")

pub word-mode : (s : String) → all_word (codes s) ≡ true → mode_after outside s ≡ outside
unfolding mode_after all_word
word-mode String.[] h = refl
word-mode (String.◌∷◌ c s) h = elim (Bool-cases (is_quote c)) [
  | inl quote ↦ absurd (ground arith)
  | inr other ↦ rw other (word-mode s (ground arith))
]
