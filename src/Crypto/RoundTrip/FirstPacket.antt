-- ===== src/Crypto/RoundTrip/FirstPacket.antt =====
-- The first packet of a handshake with encryption: from `encryptInitCryptoSnd` to
-- `decryptInitCryptoSnd`.
use qotp.Base.{
  ℕ, ◌+◌, ◌-◌, ◌^◌, ◌≤◌, ◌<◌, ◌≡◌, inl, refl, ◌∙◌, true, false, List, [], ◌∷◌, ◌++◌, append_assoc,
  arith, ok, some, leb, length, length-append, slice, slice-drop,
}
use qotp.Proto.{put_byte}
use qotp.Crypto.{init_crypto_snd}
use qotp.Crypto.Library.{CryptoLib, Suite}
use qotp.Crypto.Messages.{type_byte, encrypt_init_crypto_snd, decrypt_init_crypto_snd}
use qotp.Crypto.RoundTrip.{chained_encrypt_lem, sealed_text, sealed_sn}
use qotp.Crypto.RoundTrip.Packets.{message_of, packet_of, length-packet_of, decrypt_after_lem}
use qotp.Crypto.RoundTrip.Keys.{
  IsKey, read_key_lem, write_first_key, write_key, uint64-long, padded_text, length-padded_text,
  pad_lem, unpad_lem,
}

module _ (c : CryptoLib) (secret : List ℕ) (suite : Suite c secret)
    (prv_ep prv_id_rcv id_rcv id_snd : List ℕ) (ep_key : IsKey c (c.public_key prv_ep))
    (id_key : IsKey c id_snd) (ours : c.ecdh prv_ep id_rcv ≡ some secret)
    (theirs : c.ecdh prv_id_rcv (c.public_key prv_ep) ≡ some secret) (sn mtu : ℕ) (text : List ℕ)
    (fits : 89 + length text ≤ mtu) (room : 95 ≤ mtu) (mtu_small : mtu < 2 ^ 16) where
  abbrev pub ep_snd : List ℕ
  ep_snd = c.public_key prv_ep

  abbrev pub header : List ℕ
  header = (type_byte init_crypto_snd ∷ ep_snd) ++ id_snd

  abbrev pub padded : List ℕ
  padded = padded_text (mtu - (89 + length text)) text

  pub length-header : length header ≡ 65
  length-header = omega (arith, length-append ep_snd id_snd, ep_key.size, id_key.size)

  pub long-padded : 8 ≤ length (padded_text (mtu - (89 + length text)) text)
  long-padded = omega (arith, length-padded_text (mtu - (89 + length text)) text)

  pub encrypt_init_crypto_snd_lem :
      (conn_id : ℕ) × (encrypt_init_crypto_snd c
          (some id_rcv)
          (some id_snd)
          (some prv_ep)
          sn
          mtu
          text
        ≡ ok (conn_id, packet_of c secret suite sn 0 true header padded))
  unfolding encrypt_init_crypto_snd put_byte
  encrypt_init_crypto_snd_lem =
      let tail = ep_snd ++ id_snd in
      let long = long-padded in
      let (conn_id, at_id) = uint64-long tail (omega (arith, length-header)) in
      let first = write_first_key (type_byte init_crypto_snd ∷ []) ep_snd 1 refl ep_key.size in
      let second =
        write_key (type_byte init_crypto_snd ∷ ep_snd) id_snd 33 (omega (arith, ep_key.size))
          id_key.size in
      let head : slice 1 (length header) header ≡ ok tail =
        slice-drop header 1 (omega (arith, length-header)) in
      (
        conn_id,
        rw (
          first,
          second,
          pad_lem mtu text fits mtu_small,
          ours,
          chained_encrypt_lem c secret suite sn 0 true header padded long,
          head,
          at_id,
        ),
      )

  -- The packet fills the `mtu` bytes.
  pub length-packet : length (packet_of c secret suite sn 0 true header padded) ≡ mtu
  length-packet = omega (
    arith,
    length-header,
    length-packet_of c secret suite sn 0 true header padded,
    length-padded_text (mtu - (89 + length text)) text,
  )

  pub decrypt_init_crypto_snd_lem :
      (spare : List ℕ)
      → sn < 2 ^ 48
      → decrypt_init_crypto_snd c
          (packet_of c secret suite sn 0 true header padded)
          spare
          prv_id_rcv
          mtu
        ≡ ok (id_snd, ep_snd, message_of c secret suite sn 0 text)
  unfolding decrypt_init_crypto_snd
  decrypt_init_crypto_snd_lem spare sn_small =
      let fill = mtu - (89 + length text) in
      let sealed = sealed_text c secret suite sn 0 true header padded in
      let rest = sealed_sn c secret suite sn sealed ++ sealed in
      let enough : leb mtu (length (packet_of c secret suite sn 0 true header padded)) ≡ true =
        ground (arith, length-packet) in
      let ep_at =
        read_key_lem c (type_byte init_crypto_snd ∷ []) ep_snd (id_snd ++ (rest ++ spare))
          (header ++ rest) spare 1 ep_key refl
          (append_assoc header rest spare
            ∙ append_assoc (type_byte init_crypto_snd ∷ ep_snd) id_snd (rest ++ spare)) in
      let id_at =
        read_key_lem c (type_byte init_crypto_snd ∷ ep_snd) id_snd (rest ++ spare) (header ++ rest)
          spare 33 id_key (omega (arith, ep_key.size))
          (append_assoc header rest spare
            ∙ append_assoc (type_byte init_crypto_snd ∷ ep_snd) id_snd (rest ++ spare)) in
      rw (
        enough,
        ep_at,
        id_at,
        theirs,
        decrypt_after_lem c secret suite sn 0 0 65 true false header padded spare refl length-header
            sn_small (omega arith) (inl refl) long-padded,
        unpad_lem fill text (omega arith),
      )

  -- The first packet of a handshake that carries data has exactly `mtu` bytes, and the receiver
  -- reads from it the sender's identity key, the key of this connection and the data, whatever
  -- follows in the array: for keys of 32 bytes, a secret the two sides share, data that leave 89
  -- bytes free in `mtu`, an `mtu` from 95 on and below 2 ^ 16 and a sequence number below 2 ^ 48.
  pub decrypt_init_crypto_snd-encrypt_init_crypto_snd :
      (spare : List ℕ)
      → sn < 2 ^ 48
      → (conn_id : ℕ) × (enc : List ℕ) × (encrypt_init_crypto_snd c
            (some id_rcv)
            (some id_snd)
            (some prv_ep)
            sn
            mtu
            text
          ≡ ok (conn_id, enc))
        × (length enc ≡ mtu)
        × (decrypt_init_crypto_snd c enc spare prv_id_rcv mtu
            ≡ ok (id_snd, ep_snd, message_of c secret suite sn 0 text))
  decrypt_init_crypto_snd-encrypt_init_crypto_snd spare sn_small = (
    encrypt_init_crypto_snd_lem.0,
    packet_of c secret suite sn 0 true header padded,
    encrypt_init_crypto_snd_lem.1,
    length-packet,
    decrypt_init_crypto_snd_lem spare sn_small,
  )
