-- ===== src/Crypto.antt =====
-- internal/crypto/crypto.go: AES-256-GCM encryption of credential fields.
-- The block cipher, GCM and base64 of the Go library are parameters.
pub mod RoundTrip
use beacon_v.Prelude.{
  ℕ, suc, ◌+◌, ◌-◌, ◌*◌, String, Bool, Option, none, some, List, [], ◌∷◌, ◌++◌, ltb, leb, eqb, ◌==◌,
  ◌&&◌, not, if◌then◌else◌, length, take, drop, codes, is_digit,
}
use beacon_v.Exec.{Result, ok, err, Exec, pure, fail, lift, ◌>>=◌, map_err}
use beacon_v.World.{Error, message, wrap, empty_key, Env, Go, World, tick}

-- `cipher.AEAD`, with no additional data, and `base64.StdEncoding`.
pub record Gcm : Type 0 where
  pub nonce_size : ℕ
  pub seal : List ℕ → String → List ℕ
  pub unseal : List ℕ → List ℕ → Result Error String

pub record Base64 : Type 0 where
  pub encode_to_string : List ℕ → String
  pub decode_string : String → Result Error (List ℕ)

pub record Key : Type 0 where
  pub gcm : Gcm
  pub base64 : Base64

-- The value of a hexadecimal digit.
hex_value : ℕ → Option ℕ
hex_value c =
    if is_digit c
    then some (c - b'0')
    else if leb b'a' c && leb c b'f'
    then some (c - b'a' + 10)
    else if leb b'A' c && leb c b'F'
    then some (c - b'A' + 10)
    else none

abbrev hex_byte : Option ℕ → Option ℕ → Option (List ℕ) → Option (List ℕ)
hex_byte (some hi) (some lo) (some rest) = some ((hi * 16 + lo) ∷ rest)
hex_byte _ _ _ = none

-- `hex.DecodeString`; an odd number of digits is an error.
unfoldable pub hex_decode : List ℕ → Option (List ℕ)
unfolding hex_value
hex_decode [] = some []
hex_decode (c ∷ []) = none
hex_decode (c ∷ d ∷ s) = hex_byte (hex_value c) (hex_value d) (hex_decode s)

abbrev decoded : Option (List ℕ) → Result Error (List ℕ)
decoded none = err (wrap "crypto: decoding hex key" (message "encoding/hex"))
decoded (some raw) = ok raw

-- The key is built from 32 bytes by `aes.NewCipher` and `cipher.NewGCM`.
module _ {Block : Type 0} (new_cipher : List ℕ → Result Error Block)
    (new_gcm : Block → Result Error Gcm) (base64 : Base64) where
  abbrev with_gcm : Result Error Gcm → Result Error Key
  with_gcm (ok gcm) = ok (record { gcm = gcm; base64 = base64 })
  with_gcm (err e) = err (wrap "crypto: creating GCM" e)

  abbrev with_block : Result Error Block → Result Error Key
  with_block (ok block) = with_gcm (new_gcm block)
  with_block (err e) = err (wrap "crypto: creating cipher" e)

  abbrev sized : Result Error (List ℕ) → Result Error Key
  sized (err e) = err e
  sized (ok raw) =
      if eqb (length raw) 32
      then with_block (new_cipher raw)
      else err (message "crypto: key must be 32 bytes (64 hex chars)")

  unfoldable pub new_key : String → Result Error Key
  unfolding hex_decode
  new_key hex_key =
      if hex_key == "" then err empty_key else sized (decoded (hex_decode (codes hex_key)))

random_nonce : Env → ℕ → Go (List ℕ)
random_nonce env size w =
    (map_err (wrap "crypto: generating nonce") (env.nonce w.ticks size), tick w)

-- An empty text stays empty, and takes no nonce.
unfoldable pub encrypt : Env → Key → String → Go String
unfolding random_nonce
encrypt env k plaintext = if plaintext == "" then pure "" else do
  nonce ← random_nonce env k.gcm.nonce_size
  pure (k.base64.encode_to_string (nonce ++ k.gcm.seal nonce plaintext))

-- The nonce and the ciphertext are the two parts of what was decoded.
abbrev opened : Key → List ℕ → Result Error String
opened k sealed =
    if ltb (length sealed) k.gcm.nonce_size
    then err (message "crypto: ciphertext too short")
    else map_err (wrap "crypto: decrypting")
        (k.gcm.unseal (take k.gcm.nonce_size sealed) (drop k.gcm.nonce_size sealed))

abbrev open_decoded : Key → Result Error (List ℕ) → Result Error String
open_decoded k (err e) = err (wrap "crypto: decoding base64" e)
open_decoded k (ok sealed) = opened k sealed

unfoldable pub decrypt : Key → String → Result Error String
decrypt k encoded = if encoded == "" then ok "" else open_decoded k (k.base64.decode_string encoded)
