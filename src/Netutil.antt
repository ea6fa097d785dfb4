-- ===== src/Netutil.antt =====
-- internal/netutil/rfc1918.go: which addresses are private, with the parts of the Go library's
-- `net` package that it rests on (ParseIP, ParseCIDR, IPNet.Contains).
-- The textual forms of IPv6 addresses are read by a parameter, `v6`.
pub mod Ranges
use Prim.Native.Nat.{◌^◌, bit_and, min}
use beacon_v.Prelude.{
  ℕ, suc, ◌+◌, ◌-◌, ◌*◌, String, Bool, true, false, not, ◌&&◌, ◌||◌, Option, none, some, List, [],
  ◌∷◌, ◌++◌, ltb, eqb, if◌then◌else◌, codes, is_digit, unsigned_value, digits_value, ◌≡◌, refl,
}

-- An address of four bytes (also one that is mapped into IPv6), or one of sixteen.
pub data Ip : Type 0 where
  v4 : (a b c d : ℕ) → Ip
  v6 : List ℕ → Ip

-- The fields of a dotted quad: the fields read so far, the value and the number of digits of the
-- present one. A field has no leading zero and is at most 255.
unfoldable pub octets : List ℕ → ℕ → ℕ → List ℕ → Option (List ℕ)
octets fields val len [] = if eqb len 0 then none else some (fields ++ val ∷ [])
octets fields val len (c ∷ s) =
    let digit = octets fields (val * 10 + (c - b'0')) (suc len) s in
    let field = octets (fields ++ val ∷ []) 0 0 s in
    if is_digit c
    then (if (eqb len 1 && eqb val 0) || ltb 255 (val * 10 + (c - b'0')) then none else digit)
    else if eqb c b'.'
    then (if eqb len 0 then none else field)
    else none

abbrev pub of_octets : Option (List ℕ) → Option Ip
of_octets (some (a ∷ b ∷ c ∷ d ∷ [])) = some (v4 a b c d)
of_octets _ = none

-- The first of ".", ":" and "%" decides how the text is read.
pub parse_by_mark : Option Ip → Option Ip → List ℕ → Option Ip
parse_by_mark quad other [] = none
parse_by_mark quad other (c ∷ s) =
    if eqb c b'.'
    then quad
    else if eqb c b':'
    then other
    else if eqb c b'%'
    then none
    else parse_by_mark quad other s

unfoldable pub parse_ip : (String → Option Ip) → String → Option Ip
unfolding octets parse_by_mark
parse_ip v6_text s = parse_by_mark (of_octets (octets [] 0 0 (codes s))) (v6_text s) (codes s)

-- A network of IPv4 addresses: the address and the mask, byte by byte.
pub record Net : Type 0 where
  pub ip : Ip
  pub mask : Ip

-- A mask's byte with its `ones` highest bits set.
abbrev pub mask_byte : ℕ → ℕ
mask_byte ones = 256 - 2 ^ (8 - min ones 8)

abbrev pub cidr_mask : ℕ → Ip
cidr_mask ones =
    v4 (mask_byte ones) (mask_byte (ones - 8)) (mask_byte (ones - 16)) (mask_byte (ones - 24))

abbrev pub masked : Ip → Ip → Ip
masked (v4 a b c d) (v4 m n o p) = v4 (bit_and a m) (bit_and b n) (bit_and c o) (bit_and d p)
masked ip _ = ip

abbrev network : Option Ip → Option ℕ → Option Net
network (some (v4 a b c d)) (some ones) =
    if ltb 32 ones
    then none
    else some (record { ip = masked (v4 a b c d) (cidr_mask ones); mask = cidr_mask ones })
network _ _ = none

-- The text before the first "/", in reverse, and the text behind it.
split_cidr : List ℕ → List ℕ → Option Net
split_cidr before [] = none
split_cidr before (c ∷ s) =
    let rest = split_cidr (before ++ c ∷ []) s in
    if eqb c b'/' then network (of_octets (octets [] 0 0 before)) (unsigned_value s) else rest

parse_cidr : String → Option Net
unfolding split_cidr octets unsigned_value digits_value
parse_cidr s = split_cidr [] (codes s)

-- `none` is the panic.
abbrev and_then : Option Net → Option (List Net) → Option (List Net)
and_then (some n) (some ns) = some (n ∷ ns)
and_then _ _ = none

must_parse_cidrs : List String → Option (List Net)
unfolding parse_cidr
must_parse_cidrs [] = some []
must_parse_cidrs (c ∷ cs) = and_then (parse_cidr c) (must_parse_cidrs cs)

unfoldable pub private_blocks : Option (List Net)
unfolding must_parse_cidrs
private_blocks =
    must_parse_cidrs ("10.0.0.0/8" ∷ "172.16.0.0/12" ∷ "192.168.0.0/16" ∷ "127.0.0.0/8" ∷ [])

abbrev pub same_v4 : Ip → Ip → Bool
same_v4 (v4 a b c d) (v4 e f g h) = eqb a e && (eqb b f && (eqb c g && eqb d h))
same_v4 _ _ = false

-- `IPNet.Contains`; an address of another length is not contained.
unfoldable pub contains : Net → Ip → Bool
contains n ip = same_v4 (masked n.ip n.mask) (masked ip n.mask)

unfoldable pub contained_in_any : List Net → Ip → Bool
unfolding contains
contained_in_any [] ip = false
contained_in_any (n ∷ ns) ip = if contains n ip then true else contained_in_any ns ip

abbrev pub blocks : Option (List Net) → List Net
blocks none = []
blocks (some ns) = ns

abbrev pub is_private_ip : Option Ip → Bool
is_private_ip none = false
is_private_ip (some ip) = contained_in_any (blocks private_blocks) ip

module _ (v6_text : String → Option Ip) where
  unfoldable pub is_private : String → Bool
  is_private ip = is_private_ip (parse_ip v6_text ip)

  unfoldable pub is_public : String → Bool
  is_public ip = not (is_private ip)

no_v6 : String → Option Ip
no_v6 s = none

private_test : is_private no_v6 "172.31.4.9" ≡ true
unfolding is_private no_v6 parse_ip contained_in_any private_blocks
private_test = refl

public_test : is_private no_v6 "172.32.4.9" ≡ false
unfolding is_private no_v6 parse_ip contained_in_any private_blocks
public_test = refl
