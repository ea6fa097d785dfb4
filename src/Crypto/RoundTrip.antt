-- ===== src/Crypto/RoundTrip.antt =====
-- Decryption reverses encryption, and when a key is accepted.
use beacon_v.Prelude.{
  ℕ, ◌≤◌, String, ◌≡◌, ◌≢◌, refl, sym, ap, Bool-cases, ◌↔◌, inl, inr, List, [], ◌++◌, arith, eq_iff,
  length, length-append, take-append, drop-append, ◌==◌,
}
use beacon_v.Exec.{Result-cases, ok, ◌>>=◌}
use beacon_v.World.{Env, World}
use beacon_v.World.Ticks.{IgnoresTicks}
use beacon_v.Exec.Keeps.{Keeps, keeps_rules}
use beacon_v.Crypto.{random_nonce, Key, encrypt, decrypt, opened}

-- What the Go library documents: a nonce has the size that was asked for, `Open` gives back what
-- `Seal` was given with a nonce of that size, and base64 decodes what it encodes, the empty text being no bytes.
pub record Lawful (env : Env) (k : Key) : Type 0 where
  pub unseal-seal :
      (n : List ℕ) (p : String)
      → length n ≡ k.gcm.nonce_size
      → k.gcm.unseal n (k.gcm.seal n p) ≡ ok p
  pub decode-encode : (b : List ℕ) → k.base64.decode_string (k.base64.encode_to_string b) ≡ ok b
  pub decode_nil : k.base64.decode_string "" ≡ ok []
  pub nonce_length :
      (t : ℕ) (n : List ℕ) → env.nonce t k.gcm.nonce_size ≡ ok n → length n ≡ k.gcm.nonce_size
  pub nonce_pos : 1 ≤ k.gcm.nonce_size

decrypt_nil : (k : Key) → decrypt k "" ≡ ok ""
unfolding decrypt
decrypt_nil k = refl

module _ (env : Env) (k : Key) (laws : Lawful env k) where
  opened-sealed :
      (n : List ℕ) (p : String)
      → length n ≡ k.gcm.nonce_size
      → opened k (n ++ k.gcm.seal n p) ≡ ok p
  opened-sealed n p e =
      rw
        (
          ← e,
          take-append n (k.gcm.seal n p),
          drop-append n (k.gcm.seal n p),
          laws.unseal-seal n p e,
        )
        (ground (arith, length-append n (k.gcm.seal n p)))

  encoded-ne-nil :
      (n : List ℕ) (p : String)
      → length n ≡ k.gcm.nonce_size
      → k.base64.encode_to_string (n ++ k.gcm.seal n p) ≢ ""
  encoded-ne-nil n p e nil =
      let b : List ℕ = n ++ k.gcm.seal n p in
      let empty : b ≡ [] =
        cc (laws.decode-encode b, ap k.base64.decode_string nil, laws.decode_nil) in
      omega (arith, laws.nonce_pos, e, ap length empty, length-append n (k.gcm.seal n p))

  decrypt-encoded :
      (n : List ℕ) (p : String)
      → length n ≡ k.gcm.nonce_size
      → decrypt k (k.base64.encode_to_string (n ++ k.gcm.seal n p)) ≡ ok p
  unfolding decrypt
  decrypt-encoded n p e = ground (
    arith,
    eq_iff (k.base64.encode_to_string (n ++ k.gcm.seal n p)) "",
    encoded-ne-nil n p e,
    laws.decode-encode (n ++ k.gcm.seal n p),
    opened-sealed n p e,
  )

  -- What `Encrypt` gives for a nonempty plaintext, if the nonce could be read.
  encrypted :
      (p c : String) (w : World)
      → p ≢ ""
      → (encrypt env k p w).0 ≡ ok c
      → (n : List ℕ) × (length n ≡ k.gcm.nonce_size)
        × (k.base64.encode_to_string (n ++ k.gcm.seal n p) ≡ c)
  unfolding encrypt ◌>>=◌
  encrypted p c w h e = elim (Result-cases (env.nonce w.ticks k.gcm.nonce_size)) [
    | inl (n, got) ↦ (n, laws.nonce_length w.ticks n got, ground (arith, eq_iff p ""))
    | inr (failure, got) ↦ absurd (ground (arith, eq_iff p ""))
  ]

  encrypted_nil : (c : String) (w : World) → (encrypt env k "" w).0 ≡ ok c → "" ≡ c
  unfolding encrypt ◌>>=◌
  encrypted_nil c w e = cc

  -- If the cipher, base64 and the random source have their documented laws: whatever ciphertext
  -- `Encrypt` returns, `Decrypt` gives back the plaintext, the empty one
  -- included, and the ciphertext is empty exactly when the plaintext is.
  pub decrypt-encrypt :
      (p c : String) (w : World)
      → (encrypt env k p w).0 ≡ ok c
      → (decrypt k c ≡ ok p) × ((c ≡ "") ↔ (p ≡ ""))
  decrypt-encrypt p c w e = elim (Bool-cases (p == "")) [
    | inl t ↦
        let empty : p ≡ "" = (eq_iff p "").0 t in
        let nil : "" ≡ c = encrypted_nil c w (rw empty at e) in
        (rw (← nil, empty) (decrypt_nil k), ((λ _. empty), (λ _. sym nil)))
    | inr f ↦
        let full : p ≢ "" = ground (arith, eq_iff p "") in
        let (n, size, same) = encrypted p c w full e in
        let ne : c ≢ "" = rw (← same) (encoded-ne-nil n p size) in
        (rw (← same) (decrypt-encoded n p size), ((λ x. absurd (ne x)), (λ x. absurd (full x))))
  ]

random_nonce-keeps :
    {P : World → Type 0} → IgnoresTicks P → (env : Env) (size : ℕ) → Keeps P (random_nonce env size)
unfolding random_nonce
random_nonce-keeps ignores env size = record { after = λ w h. ignores w h }

-- Encryption takes a nonce, and changes nothing but the count of calls.
pub encrypt-keeps :
    {P : World → Type 0}
    → IgnoresTicks P
    → (env : Env) (k : Key) (p : String) → Keeps P (encrypt env k p)
unfolding encrypt
encrypt-keeps ignores env k p = search (keeps_rules, random_nonce-keeps ignores)
