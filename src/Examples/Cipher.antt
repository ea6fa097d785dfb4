-- ===== src/Examples/Cipher.antt =====
-- A cipher without secrecy that has the laws of GCM and base64: a text is sealed as its code points,
-- and bytes are encoded in unary.
use Prim.Native.Nat.{compare, Ordering}
use Prim.Native.Char.{Char, char, code, IsLt, IsScalar}
use beacon_v.Prelude.{
  ℕ, ◌+◌, length, zero, suc, String, Option, none, some, List, [], ◌∷◌, eqb, if◌then◌else◌, ◌≡◌,
  refl, ap, ◌∙◌, arith, codes,
}
use beacon_v.Exec.{Result, ok}
use beacon_v.World.{Error, Env}
use beacon_v.Crypto.{Key}
use beacon_v.Crypto.RoundTrip.{Lawful}

-- The number of a character, if there is one.
abbrev Below : Ordering → Ordering → Type 0
Below Ordering.lt o = IsLt o
Below Ordering.eq _ = ⊥
Below Ordering.gt _ = ⊥

abbrev Scalar : Ordering → Ordering → Ordering → Type 0
Scalar Ordering.lt _ _ = Unit
Scalar Ordering.eq o p = Below o p
Scalar Ordering.gt o p = Below o p

less : (o : Ordering) → Option (IsLt o)
less Ordering.lt = some tt
less Ordering.eq = none
less Ordering.gt = none

both : (o p : Ordering) → Option (Below o p)
unfolding less
both Ordering.lt p = less p
both Ordering.eq _ = none
both Ordering.gt _ = none

scalar : (o p q : Ordering) → Option (Scalar o p q)
unfolding both
scalar Ordering.lt _ _ = some tt
scalar Ordering.eq p q = both p q
scalar Ordering.gt p q = both p q

less_complete : (o : Ordering) (h : IsLt o) → less o ≡ some h
unfolding less
less_complete Ordering.lt h = refl
less_complete Ordering.eq h = absurd h
less_complete Ordering.gt h = absurd h

both_complete : (o p : Ordering) (h : Below o p) → both o p ≡ some h
unfolding both
both_complete Ordering.lt p h = less_complete p h
both_complete Ordering.eq p h = absurd h
both_complete Ordering.gt p h = absurd h

scalar_complete : (o p q : Ordering) (h : Scalar o p q) → scalar o p q ≡ some h
unfolding scalar
scalar_complete Ordering.lt p q h = refl
scalar_complete Ordering.eq p q h = both_complete p q h
scalar_complete Ordering.gt p q h = both_complete p q h

abbrev char_or : (n : ℕ) → Option (IsScalar n) → Char
char_or n none = "?"
char_or n (some h) = char n h

char_of : ℕ → Char
unfolding scalar
char_of n = char_or n (scalar (compare n 55296) (compare 57343 n) (compare n 1114112))

char_of-code : (c : Char) → char_of (code c) ≡ c
unfolding char_of
char_of-code (char n h) = ap (char_or n) (scalar_complete _ _ _ h)

pub text_of : List ℕ → String
unfolding char_of
text_of [] = ""
text_of (n ∷ ns) = String.◌∷◌ (char_of n) (text_of ns)

text_of-codes : (s : String) → text_of (codes s) ≡ s
unfolding text_of
text_of-codes String.[] = refl
text_of-codes (String.◌∷◌ c s) = λ i. String.◌∷◌ (char_of-code c i) (text_of-codes s i)

-- `n` as n times "1" and a "0".
unary : ℕ → String → String
unary zero s = String.◌∷◌ "0" s
unary (suc n) s = String.◌∷◌ "1" (unary n s)

pub encode : List ℕ → String
unfolding unary
encode [] = ""
encode (n ∷ ns) = unary n (encode ns)

pub decode : ℕ → String → List ℕ
decode n String.[] = []
decode n (String.◌∷◌ c s) =
    let zeroed = decode 0 s in
    let more = decode (suc n) s in if eqb (code c) 48 then n ∷ zeroed else more

decode-unary : (k n : ℕ) (s : String) → decode k (unary n s) ≡ (k + n) ∷ decode 0 s
unfolding decode unary
decode-unary k zero s = ground arith
decode-unary k (suc n) s = decode-unary (suc k) n s ∙ ap (λ m. m ∷ decode 0 s) (omega arith)

decode-encode : (ns : List ℕ) → decode 0 (encode ns) ≡ ns
unfolding encode decode
decode-encode [] = refl
decode-encode (n ∷ ns) =
    decode-unary 0 n (encode ns)
    ∙ ap (λ m. m ∷ decode 0 (encode ns)) (omega arith)
    ∙ ap (λ m. n ∷ m) (decode-encode ns)

-- `Open` gives the text of all that is left after the nonce.
abbrev pub sample_key : Key
sample_key = record {
  gcm = record { nonce_size = 2; seal = λ n p. codes p; unseal = λ n b. ok (text_of b) };
  base64 = record { encode_to_string = encode; decode_string = λ s. ok (decode 0 s) };
}

-- Every nonce has the size that is asked for; nothing fails.
pub zeros : ℕ → List ℕ
zeros zero = []
zeros (suc n) = 0 ∷ zeros n

length-zeros : (n : ℕ) → length (zeros n) ≡ n
unfolding zeros
length-zeros zero = refl
length-zeros (suc n) = ap suc (length-zeros n)

-- Agents answer, tables and files do not fail.
abbrev pub sample_env : Env
sample_env = record {
  fault = λ _. none;
  now = λ _. "2026-01-01 00:00:00";
  bool_value = λ _. none;
  connect = λ _ _. none;
  get = λ _ _ _. none;
  walk = λ _ _ _. ([], none);
  nonce = λ _ n. ok (zeros n);
  read_fault = λ _. none;
  write_fault = λ _. none;
  reload_fault = λ _. none;
  v6_text = λ _. none;
}

ok-inj : (a b : List ℕ) → (a' : Result Error (List ℕ)) → a' ≡ ok a → a' ≡ ok b → a ≡ b
ok-inj a b a' e f = cc

pub sample_key-Lawful : Lawful sample_env sample_key
unfolding encode decode zeros
sample_key-Lawful = record {
  unseal-seal = λ n p size. ap ok (text_of-codes p);
  decode-encode = λ b. ap ok (decode-encode b);
  decode_nil = refl;
  nonce_length =
      λ t n e. rw (← ok-inj (zeros sample_key.gcm.nonce_size) n _ refl e) (length-zeros _);
  nonce_pos = omega arith;
}
