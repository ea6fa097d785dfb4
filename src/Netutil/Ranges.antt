-- ===== src/Netutil/Ranges.antt =====
-- The private ranges of internal/netutil/rfc1918.go as intervals of 32-bit addresses.
use Prim.Native.Nat.{bit_and}
use mathlib.Core.Path.{subst}
use beacon_v.Prelude.{
  ℕ, zero, suc, ◌+◌, ◌-◌, ◌*◌, ◌≤◌, ◌<◌, String, Bool, true, false, ◌&&◌, ◌||◌, Option, none, some,
  List, [], ◌∷◌, ◌++◌, leb, eqb, if◌then◌else◌, codes, is_digit, ◌≡◌, refl, arith, All, All-append,
  ◌∙◌, Bool-cases, inl, inr,
}
use beacon_v.Netutil.{
  Ip, v4, v6, octets, of_octets, parse_by_mark, parse_ip, Net, private_blocks, contained_in_any,
  is_private_ip, is_private,
}

abbrev pub address : ℕ → ℕ → ℕ → ℕ → ℕ
address a b c d = ((a * 256 + b) * 256 + c) * 256 + d

-- From the first address of each block to its last one.
abbrev pub in_private_range : ℕ → Bool
in_private_range n =
    (leb (address 10 0 0 0) n && leb n (address 10 255 255 255))
    || ((leb (address 172 16 0 0) n && leb n (address 172 31 255 255))
        || ((leb (address 192 168 0 0) n && leb n (address 192 168 255 255))
            || (leb (address 127 0 0 0) n && leb n (address 127 255 255 255))))

abbrev pub is_private_address : Option Ip → Bool
is_private_address (some (v4 a b c d)) = in_private_range (address a b c d)
is_private_address _ = false

passes : (test : ℕ → Bool) → ℕ → Bool
passes test zero = true
passes test (suc k) = test k && passes test k

passes_at : (test : ℕ → Bool) (k b : ℕ) → b < k → passes test k ≡ true → test b ≡ true
unfolding passes
passes_at test zero b lt h = absurd (omega arith)
passes_at test (suc k) b lt h = ground (arith, passes_at test k b)

same : Bool → Bool → Bool
same true b = b
same false true = false
same false false = true

same_sound : (a b : Bool) → same a b ≡ true → a ≡ b
unfolding same
same_sound a b h = ground arith

ones_table : passes (λ x. eqb (bit_and x 255) x) 256 ≡ true
unfolding passes
ones_table = refl

zeros_table : passes (λ x. eqb (bit_and x 0) 0) 256 ≡ true
unfolding passes
zeros_table = refl

twelve_table : passes (λ x. same (eqb 16 (bit_and x 240)) (leb 16 x && leb x 31)) 256 ≡ true
unfolding passes same
twelve_table = refl

eqb-eq : (a b : ℕ) → eqb a b ≡ true → a ≡ b
eqb-eq a b h = ground arith

bit_and-ones : (x : ℕ) → x ≤ 255 → bit_and x 255 ≡ x
bit_and-ones x h = eqb-eq _ _ (passes_at _ 256 x (omega arith) ones_table)

bit_and-zeros : (x : ℕ) → x ≤ 255 → bit_and x 0 ≡ 0
bit_and-zeros x h = eqb-eq _ _ (passes_at _ 256 x (omega arith) zeros_table)

bit_and-twelve : (x : ℕ) → x ≤ 255 → eqb 16 (bit_and x 240) ≡ (leb 16 x && leb x 31)
bit_and-twelve x h = same_sound _ _ (passes_at _ 256 x (omega arith) twelve_table)

abbrev net : (a b c d m n : ℕ) → Net
net a b c d m n = record { ip = v4 a b c d; mask = v4 255 m n 0 }

private_blocks-eq :
    private_blocks
    ≡ some
        (net 10 0 0 0 0 0 ∷ net 172 16 0 0 240 0 ∷ net 192 168 0 0 255 0 ∷ net 127 0 0 0 0 0 ∷ [])
unfolding private_blocks
private_blocks-eq = refl

-- The four tests as the code makes them, with the masks applied.
by_fields : (a b c d : ℕ) → Bool
by_fields a b c d =
    eqb 10 a || ((eqb 172 a && (leb 16 b && leb b 31)) || ((eqb 192 a && eqb 168 b) || eqb 127 a))

contained-by_fields :
    (a b c d : ℕ)
    → a ≤ 255
    → b ≤ 255
    → c ≤ 255
    → d ≤ 255
    → is_private_ip (some (v4 a b c d)) ≡ by_fields a b c d
unfolding contained_in_any by_fields
contained-by_fields a b c d ha hb hc hd =
    rw
      (
        private_blocks-eq,
        bit_and-ones a ha,
        bit_and-ones b hb,
        bit_and-zeros b hb,
        bit_and-zeros c hc,
        bit_and-zeros d hd,
        bit_and-twelve b hb,
      )
      (ground arith)

by_fields-range :
    (a b c d : ℕ)
    → a ≤ 255
    → b ≤ 255
    → c ≤ 255
    → d ≤ 255
    → by_fields a b c d ≡ in_private_range (address a b c d)
unfolding by_fields
by_fields-range a b c d ha hb hc hd = ground arith

abbrev IsByte : ℕ → Type 0
IsByte x = x ≤ 255

octets-IsByte :
    (fields : List ℕ) (val len : ℕ) (s : List ℕ) {r : List ℕ}
    → All IsByte fields
    → val ≤ 255
    → octets fields val len s ≡ some r
    → All IsByte r
unfolding octets
octets-IsByte fields val len [] hf hv e = elim (Bool-cases (eqb len 0)) [
  | inl t ↦ absurd (ground arith)
  | inr t ↦
      let done : fields ++ val ∷ [] ≡ _ = ground arith in
      subst (All IsByte) done (All-append IsByte fields (val ∷ []) hf (hv, tt))
]
octets-IsByte fields val len (c ∷ s) hf hv e = elim (Bool-cases (is_digit c)) [
  | inl digit ↦
      octets-IsByte fields (val * 10 + (c - b'0')) (suc len) s hf (ground arith) (ground arith)
  | inr other ↦
      octets-IsByte (fields ++ val ∷ []) 0 0 s (All-append IsByte fields (val ∷ []) hf (hv, tt))
        (omega arith) (ground arith)
]

-- The bytes of an address of four bytes are at most 255.
abbrev pub IsAddress : Option Ip → Type 0
IsAddress (some (v4 a b c d)) = IsByte a × IsByte b × IsByte c × IsByte d
IsAddress _ = Unit

of_octets-IsAddress :
    (o : Option (List ℕ)) → ((r : List ℕ) → o ≡ some r → All IsByte r) → IsAddress (of_octets o)
of_octets-IsAddress (some (a ∷ b ∷ c ∷ d ∷ [])) h =
    let t = h _ refl in (t.0, t.1.0, t.1.1.0, t.1.1.1.0)
of_octets-IsAddress _ h = tt

if-IsAddress :
    (b : Bool) (x y : Option Ip) → IsAddress x → IsAddress y → IsAddress (if b then x else y)
if-IsAddress true x y hx hy = hx
if-IsAddress false x y hx hy = hy

parse_by_mark-IsAddress :
    (quad other : Option Ip) (s : List ℕ)
    → IsAddress quad
    → IsAddress other
    → IsAddress (parse_by_mark quad other s)
unfolding parse_by_mark
parse_by_mark-IsAddress quad other [] hq ho = tt
parse_by_mark-IsAddress quad other (c ∷ s) hq ho = if-IsAddress (eqb c b'.') _ _ hq (
    if-IsAddress (eqb c b':') _ _ ho
      (if-IsAddress (eqb c b'%') none _ tt (parse_by_mark-IsAddress quad other s hq ho)))

contained-range : (ip : Option Ip) → IsAddress ip → is_private_ip ip ≡ is_private_address ip
contained-range none h = refl
contained-range (some (v4 a b c d)) (ha, hb, hc, hd) =
    contained-by_fields a b c d ha hb hc hd ∙ by_fields-range a b c d ha hb hc hd
contained-range (some (v6 bytes)) h = unfold contained_in_any in rw private_blocks-eq

-- An address text is private exactly when it reads as an IPv4 address (possibly one that is mapped
-- into IPv6) that lies in 10.0.0.0-10.255.255.255, 172.16.0.0-172.31.255.255,
-- 192.168.0.0-192.168.255.255 or 127.0.0.0-127.255.255.255, if the parser of IPv6 texts gives
-- addresses of bytes.
pub is_private-range :
    (v6_text : String → Option Ip) (s : String)
    → IsAddress (v6_text s)
    → is_private v6_text s ≡ is_private_address (parse_ip v6_text s)
unfolding is_private parse_ip
is_private-range v6_text s h = contained-range (parse_ip v6_text s) (
    parse_by_mark-IsAddress _ _ (codes s)
      (of_octets-IsAddress _ (λ r. octets-IsByte [] 0 0 (codes s) tt (omega arith))) h)
