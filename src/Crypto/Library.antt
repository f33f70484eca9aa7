-- ===== src/Crypto/Library.antt =====
-- The cryptographic libraries that crypto.go calls, as a parameter: chacha20poly1305, chacha20 and
-- ecdh. A key is its bytes; `none` is an error that the library returns.
use qotp.Base.{ℕ, ◌+◌, ◌≡◌, ◌≢◌, Option, none, some, List, [], length, take}

-- A `cipher.AEAD`: `seal nonce text header` and `open_sealed nonce sealed header`.
pub record Aead : Type 0 where
  pub seal : List ℕ → List ℕ → List ℕ → List ℕ
  pub open_sealed : List ℕ → List ℕ → List ℕ → Option (List ℕ)

pub record CryptoLib : Type 0 where
  -- `chacha20poly1305.New` and `NewX`
  pub new_aead : List ℕ → Option Aead
  pub new_aead_x : List ℕ → Option Aead
  -- `chacha20.NewUnauthenticatedCipher` on a key and a nonce, then `SetCounter(1)` and
  -- `XORKeyStream` on the bytes
  pub xor_key_stream : List ℕ → List ℕ → List ℕ → Option (List ℕ)
  -- `PrivateKey.PublicKey().Bytes()`, `X25519().NewPublicKey` and `PrivateKey.ECDH`
  pub public_key : List ℕ → List ℕ
  pub new_public_key : List ℕ → Option (List ℕ)
  pub ecdh : List ℕ → List ℕ → Option (List ℕ)

-- What the program relies on for one shared secret: the secret is a key; opening gives back what
-- was sealed, under the same nonce and header, and refuses it under another nonce; a tag is 16
-- bytes; the key stream of the nonce undoes the first bytes that `NewX` seals.
pub record Suite (c : CryptoLib) (secret : List ℕ) : Type 0 where
  pub aead : Aead
  pub aead_x : Aead
  pub new_aead : c.new_aead secret ≡ some aead
  pub new_aead_x : c.new_aead_x secret ≡ some aead_x
  pub length-seal : (n t h : List ℕ) → length (aead.seal n t h) ≡ length t + 16
  pub length-seal_x : (n t h : List ℕ) → length (aead_x.seal n t h) ≡ length t + 16
  pub open-seal : (n t h : List ℕ) → aead.open_sealed n (aead.seal n t h) h ≡ some t
  pub open-seal_other :
      (n n' t h : List ℕ)
      → length n ≡ 12
      → length n' ≡ 12
      → n ≢ n'
      → aead.open_sealed n' (aead.seal n t h) h ≡ none
  pub xor-seal_x :
      (n t : List ℕ)
      → length n ≡ 24
      → length t ≡ 6
      → c.xor_key_stream secret n (take 6 (aead_x.seal n t [])) ≡ some t
