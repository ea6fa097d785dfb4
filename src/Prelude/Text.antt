-- ===== src/Prelude/Text.antt =====
-- The functions of the Go library's `strings` package that the program uses.
use Prim.Native.Nat.{ℕ}
use Prim.Native.Char.{Char, code}
use Prim.Native.String
use Prim.Native.String.{String}
use mathlib.Core.Path.{◌≡◌, refl}
use mathlib.Core.Bool.{Bool, true, false, ◌&&◌}
use beacon_v.Prelude.Tests.{eqb, if◌then◌else◌}

infixr 66 ◌<>◌
abbrev pub ◌<>◌ : String → String → String
s <> t = String.◌++◌ s t

-- `strings.HasPrefix`, the prefix first.
unfoldable pub has_prefix : String → String → Bool
has_prefix String.[] s = true
has_prefix (String.◌∷◌ c p) String.[] = false
has_prefix (String.◌∷◌ c p) (String.◌∷◌ d s) = eqb (code c) (code d) && has_prefix p s

abbrev is_only : ℕ → Char → String → Bool
is_only last c String.[] = eqb (code c) last
is_only last c (String.◌∷◌ d s) = false

-- `strings.TrimSuffix` of a suffix of one character.
unfoldable pub trim_last : ℕ → String → String
trim_last last String.[] = String.[]
trim_last last (String.◌∷◌ c s) =
    let rest = String.◌∷◌ c (trim_last last s) in if is_only last c s then String.[] else rest

unfoldable pub trim_dot : String → String
unfolding trim_last
trim_dot s = trim_last b'.' s

-- `strings.TrimSuffix` of "/".
unfoldable pub trim_slash : String → String
unfolding trim_last
trim_slash s = trim_last b'/' s

trim_last-tests : (trim_dot "1.3." ≡ "1.3") × (trim_slash "http://a/" ≡ "http://a")
unfolding trim_dot trim_slash
trim_last-tests = (refl, refl)
