-- ===== src/Crypto/Tests.antt =====
-- Runs of crypto.go with a toy library, and the theorems at one input each.
use qotp.Base.{
  ◌↔◌, ℕ, ◌≡◌, inl, inr, refl, true, false, List, [], ◌∷◌, arith, ok, panic, ◌>>=◌, some, length,
  drop, replicate, slice,
}
use qotp.Bytes.{uint16, put_uint48, write_at}
use qotp.Crypto.Chained.{nonce_det, set_role, chained_encrypt, chained_decrypt}
use qotp.Crypto.Messages.{
  encrypt_data, decrypt_data, unpad, encrypt_init_crypto_snd, decrypt_init_crypto_snd,
  encrypt_init_rcv, decrypt_init_rcv, encrypt_init_crypto_rcv, decrypt_init_crypto_rcv,
}
use qotp.Crypto.Nonce.{Collides, nonce_det-Collides}
use qotp.Crypto.RoundTrip.{chained_decrypt-chained_encrypt}
use qotp.Crypto.RoundTrip.Packets.{message_of, decrypt_data-encrypt_data}
use qotp.Crypto.RoundTrip.Keys.{IsKey}
use qotp.Crypto.RoundTrip.FirstPacket.{decrypt_init_crypto_snd-encrypt_init_crypto_snd}
use qotp.Crypto.RoundTrip.Replies.{
  decrypt_init_crypto_rcv-encrypt_init_crypto_rcv, decrypt_init_rcv-encrypt_init_rcv,
}
use qotp.Crypto.Toy.{toy, toy_suite, add_bytes}

abbrev a_secret : List ℕ
a_secret = replicate 32 7

abbrev a_text : List ℕ
a_text = 1 ∷ 2 ∷ 3 ∷ 4 ∷ 5 ∷ 6 ∷ 7 ∷ 8 ∷ 9 ∷ []

chained_decrypt-chained_encrypt_example :
    chained_encrypt toy 5 3 true a_secret (9 ∷ []) a_text
      >>= (λ enc. chained_decrypt toy false 2 a_secret (9 ∷ []) (drop 1 enc) (0 ∷ []))
    ≡ ok (5, 3, a_text)
chained_decrypt-chained_encrypt_example =
    chained_decrypt-chained_encrypt toy a_secret (toy_suite a_secret) 5 3 true false (9 ∷ []) a_text
      refl 2 (0 ∷ []) (omega arith) (omega arith) (inr (inr refl)) (omega arith)

decrypt_data-encrypt_data_example :
    encrypt_data toy 77 true (some a_secret) 5 3 a_text
      >>= (λ enc. decrypt_data toy enc [] false 4 a_secret)
    ≡ ok (message_of toy a_secret (toy_suite a_secret) 5 3 a_text)
decrypt_data-encrypt_data_example =
    decrypt_data-encrypt_data toy a_secret (toy_suite a_secret) 77 5 3 4 true false a_text [] refl
      (omega arith) (omega arith) (inr (inl refl)) (omega arith)

-- Keys of the two sides, and the secret that they share.
abbrev ep_snd : List ℕ
ep_snd = replicate 32 1

abbrev id_snd : List ℕ
id_snd = replicate 32 2

abbrev ep_rcv : List ℕ
ep_rcv = replicate 32 3

abbrev shared : List ℕ
shared = replicate 32 4

toy-IsKey : (key : List ℕ) → length key ≡ 32 → IsKey toy key
toy-IsKey key size = record { size = size; taken = refl }

ecdh_snd : toy.ecdh ep_snd ep_rcv ≡ some shared
unfolding add_bytes
ecdh_snd = refl

ecdh_rcv : toy.ecdh ep_rcv ep_snd ≡ some shared
unfolding add_bytes
ecdh_rcv = refl

decrypt_init_crypto_snd-encrypt_init_crypto_snd_example :
    (conn_id : ℕ) × (enc : List ℕ) × (encrypt_init_crypto_snd toy
        (some ep_rcv)
        (some id_snd)
        (some ep_snd)
        0
        100
        a_text
      ≡ ok (conn_id, enc))
    × (length enc ≡ 100)
    × (decrypt_init_crypto_snd toy enc [] ep_rcv 100
        ≡ ok (id_snd, ep_snd, message_of toy shared (toy_suite shared) 0 0 a_text))
decrypt_init_crypto_snd-encrypt_init_crypto_snd_example =
    decrypt_init_crypto_snd-encrypt_init_crypto_snd toy shared (toy_suite shared) ep_snd ep_rcv
      ep_rcv id_snd (toy-IsKey ep_snd refl) (toy-IsKey id_snd refl) ecdh_snd ecdh_rcv 0 100 a_text
      (omega arith) (omega arith) (omega arith) [] (omega arith)

decrypt_init_crypto_rcv-encrypt_init_crypto_rcv_example :
    encrypt_init_crypto_rcv toy 77 (some ep_snd) (some ep_rcv) 0 a_text
      >>= (λ enc. decrypt_init_crypto_rcv toy enc [] ep_snd)
    ≡ ok (shared, ep_rcv, message_of toy shared (toy_suite shared) 0 0 a_text)
decrypt_init_crypto_rcv-encrypt_init_crypto_rcv_example =
    decrypt_init_crypto_rcv-encrypt_init_crypto_rcv toy shared (toy_suite shared) ep_rcv ep_snd
      ep_snd (toy-IsKey ep_rcv refl) ecdh_rcv ecdh_snd 77 0 a_text [] (omega arith) (omega arith)

decrypt_init_rcv-encrypt_init_rcv_example :
    encrypt_init_rcv toy 77 (some id_snd) (some ep_snd) (some ep_rcv) 0 a_text
      >>= (λ enc. decrypt_init_rcv toy enc [] ep_snd)
    ≡ ok (shared, id_snd, ep_rcv, message_of toy shared (toy_suite shared) 0 0 a_text)
decrypt_init_rcv-encrypt_init_rcv_example =
    decrypt_init_rcv-encrypt_init_rcv toy shared (toy_suite shared) ep_rcv ep_snd ep_snd
      (toy-IsKey ep_rcv refl) ecdh_rcv ecdh_snd 77 0 a_text [] (omega arith) (omega arith) id_snd
      (toy-IsKey id_snd refl)

-- A payload whose filler length goes past its end makes the receiver panic.
unpad_run : unpad (255 ∷ 0 ∷ 1 ∷ 2 ∷ []) ≡ panic
unfolding unpad uint16 slice
unpad_run = refl

nonce_det-Collides_example :
    (nonce_det 0 5 true ≡ nonce_det 128 5 true) ↔ Collides 0 5 true 128 5 true
nonce_det-Collides_example =
    nonce_det-Collides 0 5 128 5 true true (omega arith) (omega arith) (omega arith) (omega arith)

-- The epochs 0 and 128 use the same nonces.
nonce_det_run : nonce_det 0 5 true ≡ nonce_det 128 5 true
unfolding nonce_det set_role put_uint48 write_at
nonce_det_run = refl
