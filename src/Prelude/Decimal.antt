-- ===== src/Prelude/Decimal.antt =====
-- Integers, and the decimal texts that `strconv` and `fmt` of the Go library read and print.
use Prim.Native.Nat.{ℕ, zero, suc, ◌+◌, ◌-◌, ◌*◌, ◌/◌, ◌%◌, ◌^◌}
use Prim.Native.Char.{code}
use Prim.Native.String
use Prim.Native.String.{String}
use mathlib.Core.Path.{◌≡◌, refl}
use mathlib.Core.Bool.{Bool, true, false, ◌&&◌}
use mathlib.Core.Option.{Option, none, some}
use mathlib.Core.List.{List, [], ◌∷◌}
use beacon_v.Prelude.Tests.{ltb, leb, eqb, if◌then◌else◌}

-- `negsuc n` is -(n + 1).
pub data ℤ : Type 0 where
  pos : ℕ → ℤ
  negsuc : ℕ → ℤ

abbrev pub neg : ℕ → ℤ
neg zero = pos 0
neg (suc n) = negsuc n

-- The code points of a text: its bytes, if it is ASCII.
abbrev pub codes : String → List ℕ
codes String.[] = []
codes (String.◌∷◌ first rest) = code first ∷ codes rest

abbrev pub is_digit : ℕ → Bool
is_digit c = leb b'0' c && leb c b'9'

-- The value of a text of digits, from the digits read so far.
unfoldable pub digits_value : ℕ → List ℕ → Option ℕ
digits_value n [] = some n
digits_value n (c ∷ s) =
    let rest = digits_value (n * 10 + (c - b'0')) s in if is_digit c then rest else none

-- At least one digit is wanted.
unfoldable pub unsigned_value : List ℕ → Option ℕ
unsigned_value [] = none
unsigned_value (c ∷ s) = digits_value 0 (c ∷ s)

-- Values outside of a signed word of 64 bits are range errors.
abbrev pub in_range : Bool → ℕ → Option ℤ
in_range true n = if leb n (2 ^ 63) then some (neg n) else none
in_range false n = if ltb n (2 ^ 63) then some (pos n) else none

abbrev pub signed : Bool → Option ℕ → Option ℤ
signed negative none = none
signed negative (some n) = in_range negative n

-- `strconv.Atoi` and `strconv.ParseInt(s, 10, 64)`; `none` is their error.
unfoldable pub parse_codes : List ℕ → Option ℤ
parse_codes [] = none
parse_codes (c ∷ s) =
    if eqb c b'-'
    then signed true (unsigned_value s)
    else if eqb c b'+'
    then signed false (unsigned_value s)
    else signed false (unsigned_value (c ∷ s))

unfoldable pub parse_int : String → Option ℤ
unfolding parse_codes unsigned_value digits_value
parse_int s = parse_codes (codes s)

abbrev pub digit_text : ℕ → String
digit_text zero = "0"
digit_text (suc zero) = "1"
digit_text (suc (suc zero)) = "2"
digit_text (suc (suc (suc zero))) = "3"
digit_text (suc (suc (suc (suc zero)))) = "4"
digit_text (suc (suc (suc (suc (suc zero))))) = "5"
digit_text (suc (suc (suc (suc (suc (suc zero)))))) = "6"
digit_text (suc (suc (suc (suc (suc (suc (suc zero))))))) = "7"
digit_text (suc (suc (suc (suc (suc (suc (suc (suc zero)))))))) = "8"
digit_text _ = "9"

-- The digits of `n`, put before `out`; `n + 1` rounds are enough, since each divides by ten.
unfoldable pub print_digits : ℕ → ℕ → String → String
print_digits zero n out = out
print_digits (suc fuel) n out =
    let longer = print_digits fuel (n / 10) (String.◌++◌ (digit_text (n % 10)) out) in
    if ltb n 10 then String.◌++◌ (digit_text n) out else longer

-- `strconv.Itoa`, and `%d` of a natural number.
unfoldable pub itoa : ℕ → String
unfolding print_digits
itoa n = print_digits (suc n) n ""

itoa-600 : itoa 600 ≡ "600"
unfolding itoa
itoa-600 = refl

parse_int-600 : parse_int "-600" ≡ some (negsuc 599)
unfolding parse_int
parse_int-600 = refl
