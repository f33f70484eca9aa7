-- ===== src/Crypto/Chained.antt =====
-- `chainedEncrypt` and `chainedDecrypt` of crypto.go: the payload is sealed under a nonce of epoch,
-- sequence number and role, and the sequence number under a nonce of the sealed payload's first
-- bytes.
use qotp.Base.{
  ℕ, ◌+◌, ◌-◌, ◌%◌, Bool, not, none, some, List, [], ◌∷◌, ◌++◌, Run, ok, err, panic, ◌>>=◌, Error,
  need, if◌then◌else◌, ltb, length, replicate, u64, slice, copy_at,
}
use qotp.Bytes.{put_uint48, uint48, write_at}
use qotp.Crypto.{sn_size}
use qotp.Crypto.Library.{Aead, CryptoLib}

-- `b | 0x80` for a sender and `b &^ 0x80` for the other side, of a byte.
abbrev pub with_role : Bool → ℕ → ℕ
with_role is_sender b = if is_sender then b % 128 + 128 else b % 128

unfoldable pub set_role : Bool → List ℕ → Run (List ℕ)
set_role is_sender [] = panic
set_role is_sender (b ∷ rest) = ok (with_role is_sender b ∷ rest)

-- `nonceDet`, of `NonceSize` bytes.
unfoldable pub nonce_det : ℕ → ℕ → Bool → Run (List ℕ)
nonce_det epoch sn is_sender = do
  (b, n) ← put_uint48 (replicate 12 0) epoch
  (b', n') ← write_at b 6 (λ tail. put_uint48 tail sn)
  set_role is_sender b'

unfoldable pub chained_encrypt : CryptoLib → ℕ → ℕ → Bool → List ℕ → List ℕ → List ℕ → Run (List ℕ)
chained_encrypt c sn_crypt epoch_conn is_sender shared_secret header packet_data = do
  nonce ← nonce_det epoch_conn sn_crypt is_sender
  aead ← need Error.key_refused (c.new_aead shared_secret)
  let sealed = aead.seal nonce packet_data header
  let enc_data = replicate (length header + sn_size + length sealed) 0
  enc_data ← copy_at enc_data 0 header
  aead_sn ← need Error.key_refused (c.new_aead_x shared_secret)
  nonce_rand ← slice 0 24 sealed
  sn_bytes ← slice 6 12 nonce
  enc_sn ← slice 0 sn_size (aead_sn.seal nonce_rand sn_bytes [])
  enc_data ← copy_at enc_data (length header) enc_sn
  copy_at enc_data (length header + sn_size) sealed

-- The epochs to try: the current one, the one before it, if any, and the next.
unfoldable pub epochs : ℕ → List ℕ
epochs epoch_crypt =
    epoch_crypt
    ∷ ((if ltb 0 epoch_crypt then (epoch_crypt - 1) ∷ [] else []) ++ (u64 (epoch_crypt + 1) ∷ []))

-- The loop over the epochs. The error is that of the last `Open`.
unfoldable pub try_epochs : Aead → ℕ → Bool → List ℕ → List ℕ → List ℕ → Run (ℕ × ℕ × List ℕ)
try_epochs aead sn is_sender header enc_data [] = err Error.open_failed
try_epochs aead sn is_sender header enc_data (epoch ∷ rest) = do
  nonce ← nonce_det epoch sn (not is_sender)
  elim (aead.open_sealed nonce enc_data header) [
    | some packet_data ↦ ok (sn, epoch, packet_data)
    | none ↦ try_epochs aead sn is_sender header enc_data rest
  ]

-- `encData` lies in an array that goes on with `spare`: `encData[:24]` reads to the array's end.
unfoldable pub chained_decrypt :
    CryptoLib → Bool → ℕ → List ℕ → List ℕ → List ℕ → List ℕ → Run (ℕ × ℕ × List ℕ)
chained_decrypt c is_sender epoch_crypt shared_secret header enc_data spare = do
  enc_sn ← slice 0 sn_size (enc_data ++ spare)
  sealed ← slice sn_size (length enc_data) enc_data
  nonce_rand ← slice 0 24 (sealed ++ spare)
  sn_bytes ← need Error.key_refused (c.xor_key_stream shared_secret nonce_rand enc_sn)
  sn ← uint48 sn_bytes
  aead ← need Error.key_refused (c.new_aead shared_secret)
  try_epochs aead sn is_sender header sealed (epochs epoch_crypt)
