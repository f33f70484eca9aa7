-- ===== src/Crypto/RoundTrip/Replies.antt =====
-- The replies to the first packet: from `encryptInitRcv` and `encryptInitCryptoRcv` to
-- `decryptInitRcv` and `decryptInitCryptoRcv`.
use qotp.Base.{
  ℕ, ◌^◌, ◌≤◌, ◌<◌, ◌≡◌, inl, refl, ◌∙◌, true, false, List, ◌∷◌, ◌++◌, append_assoc, arith, ok,
  ◌>>=◌, some, leb, length, length-append,
}
use qotp.Bytes.RoundTrip.{le_bytes}
use qotp.Crypto.{CryptoMsgType, init_rcv, init_crypto_rcv}
use qotp.Crypto.Library.{CryptoLib, Suite}
use qotp.Crypto.Messages.{
  type_byte, encrypt_init_rcv, decrypt_init_rcv, encrypt_init_crypto_rcv, decrypt_init_crypto_rcv,
}
use qotp.Crypto.RoundTrip.{chained_encrypt_lem, sealed_text, sealed_sn}
use qotp.Crypto.RoundTrip.Packets.{
  message_of, packet_of, length-packet_of, decrypt_after_lem, conn_header_lem,
}
use qotp.Crypto.RoundTrip.Keys.{IsKey, read_key_lem, write_first_key, write_key}

-- The receiver of the first packet replies under the connection's number; `prv_ep` is its key of
-- this connection, `prv_ep_snd` that of the sender.
module _ (c : CryptoLib) (secret : List ℕ) (suite : Suite c secret)
    (prv_ep ep_snd prv_ep_snd : List ℕ) (ep_key : IsKey c (c.public_key prv_ep))
    (ours : c.ecdh prv_ep ep_snd ≡ some secret)
    (theirs : c.ecdh prv_ep_snd (c.public_key prv_ep) ≡ some secret) (conn_id sn : ℕ)
    (text spare : List ℕ) (sn_small : sn < 2 ^ 48) (long : 8 ≤ length text) where
  abbrev pub ep_rcv : List ℕ
  ep_rcv = c.public_key prv_ep

  abbrev pub start : CryptoMsgType → List ℕ
  start t = type_byte t ∷ le_bytes 8 conn_id

  abbrev pub crypto_header : List ℕ
  crypto_header = start init_crypto_rcv ++ ep_rcv

  abbrev pub crypto_reply : List ℕ
  crypto_reply = packet_of c secret suite sn 0 false crypto_header text

  pub encrypt_init_crypto_rcv_lem :
      encrypt_init_crypto_rcv c conn_id (some ep_snd) (some prv_ep) sn text ≡ ok crypto_reply
  unfolding encrypt_init_crypto_rcv
  encrypt_init_crypto_rcv_lem = rw (
    (conn_header_lem init_crypto_rcv conn_id).1,
    write_key (start init_crypto_rcv) ep_rcv 9 refl ep_key.size,
    ours,
    chained_encrypt_lem c secret suite sn 0 false crypto_header text long,
  )

  pub decrypt_init_crypto_rcv_lem :
      decrypt_init_crypto_rcv c crypto_reply spare prv_ep_snd
      ≡ ok (secret, c.public_key prv_ep, message_of c secret suite sn 0 text)
  unfolding decrypt_init_crypto_rcv
  decrypt_init_crypto_rcv_lem =
      let header = crypto_header in
      let sealed = sealed_text c secret suite sn 0 false header text in
      let rest = sealed_sn c secret suite sn sealed ++ sealed in
      let size : length header ≡ 41 = omega (arith, ep_key.size) in
      let enough : leb 63 (length crypto_reply) ≡ true =
        ground (arith, length-packet_of c secret suite sn 0 false header text) in
      let ep_at =
        read_key_lem c (start init_crypto_rcv) ep_rcv (rest ++ spare) (header ++ rest) spare 9
          ep_key refl
          (append_assoc header rest spare
            ∙ append_assoc (start init_crypto_rcv) ep_rcv (rest ++ spare)) in
      rw (
        enough,
        ep_at,
        theirs,
        decrypt_after_lem c secret suite sn 0 0 41 false true header text spare refl size sn_small
            (omega arith) (inl refl) long,
      )

  -- The receiver's reply to a first packet with data is read by the sender: the shared secret, the
  -- receiver's key of this connection and the text, for a key of 32 bytes, a secret the two sides
  -- share, a text of at least 8 bytes and a sequence number below 2 ^ 48.
  pub decrypt_init_crypto_rcv-encrypt_init_crypto_rcv :
      encrypt_init_crypto_rcv c conn_id (some ep_snd) (some prv_ep) sn text
        >>= (λ enc. decrypt_init_crypto_rcv c enc spare prv_ep_snd)
      ≡ ok (secret, c.public_key prv_ep, message_of c secret suite sn 0 text)
  decrypt_init_crypto_rcv-encrypt_init_crypto_rcv =
      rw encrypt_init_crypto_rcv_lem decrypt_init_crypto_rcv_lem

  module _ (id_rcv : List ℕ) (id_key : IsKey c id_rcv) where
    abbrev header : List ℕ
    header = (start init_rcv ++ ep_rcv) ++ id_rcv

    -- The receiver's reply to a first packet without data is read by the sender: the shared secret,
    -- the receiver's identity key and its key of this connection, and the text, for keys of 32
    -- bytes, a secret the two sides share, a text of at least 8 bytes and a sequence number below
    -- 2 ^ 48.
    pub decrypt_init_rcv-encrypt_init_rcv :
        encrypt_init_rcv c conn_id (some id_rcv) (some ep_snd) (some prv_ep) sn text
          >>= (λ enc. decrypt_init_rcv c enc spare prv_ep_snd)
        ≡ ok (secret, id_rcv, c.public_key prv_ep, message_of c secret suite sn 0 text)
    unfolding encrypt_init_rcv decrypt_init_rcv
    decrypt_init_rcv-encrypt_init_rcv =
        let sealed = sealed_text c secret suite sn 0 false header text in
        let rest = sealed_sn c secret suite sn sealed ++ sealed in
        let size : length header ≡ 73 =
          omega (arith, length-append ep_rcv id_rcv, ep_key.size, id_key.size) in
        let first = write_first_key (start init_rcv) ep_rcv 9 refl ep_key.size in
        let second =
          write_key (start init_rcv ++ ep_rcv) id_rcv 41 (omega (arith, ep_key.size)) id_key.size in
        let enough : leb 95 (length (packet_of c secret suite sn 0 false header text)) ≡ true =
          ground (arith, length-packet_of c secret suite sn 0 false header text) in
        let apart =
          append_assoc header rest spare
          ∙ append_assoc (start init_rcv ++ ep_rcv) id_rcv (rest ++ spare) in
        let ep_at =
          read_key_lem c (start init_rcv) ep_rcv (id_rcv ++ (rest ++ spare)) (header ++ rest) spare
            9 ep_key refl
            (apart ∙ append_assoc (start init_rcv) ep_rcv (id_rcv ++ (rest ++ spare))) in
        let id_at =
          read_key_lem c (start init_rcv ++ ep_rcv) id_rcv (rest ++ spare) (header ++ rest) spare 41
            id_key (omega (arith, ep_key.size)) apart in
        rw (
          (conn_header_lem init_rcv conn_id).2,
          first,
          second,
          ours,
          chained_encrypt_lem c secret suite sn 0 false header text long,
          enough,
          ep_at,
          id_at,
          theirs,
          decrypt_after_lem c secret suite sn 0 0 73 false true header text spare refl size sn_small
              (omega arith) (inl refl) long,
        )
