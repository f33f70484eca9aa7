-- ===== src/Crypto/RoundTrip/Packets.antt =====
-- A data packet of crypto.go from one side to the other, and what all messages share.
use qotp.Base.{
  ℕ, suc, ◌+◌, ◌^◌, ◌≤◌, ◌<◌, ◌≡◌, ◌⊎◌, refl, ap, ◌∙◌, Bool, true, not, List, [], ◌∷◌, ◌++◌,
  append_assoc, arith, ok, ◌>>=◌, some, leb, length, drop, replicate, length-append, slice,
  slice-drop, slice-append, drop-append_length,
}
use qotp.Bytes.{write_at}
use qotp.Bytes.RoundTrip.{le_bytes, put_uint64-Writes}
use qotp.Proto.{put_byte}
use qotp.Crypto.{CryptoMsgType, data_msg}
use qotp.Crypto.Library.{CryptoLib, Suite}
use qotp.Crypto.Messages.{
  Message, type_byte, conn_header, encrypt_data, decrypt_data, decrypt_after,
}
use qotp.Crypto.RoundTrip.{
  sealed_text, sealed_sn, length-sealed_sn, chained_encrypt_lem, chained_decrypt_lem,
}

-- The header: the type, the connection, and room for keys.
pub conn_header_lem :
    (t : CryptoMsgType) (conn_id : ℕ)
    → (conn_header 9 t conn_id ≡ ok (type_byte t ∷ le_bytes 8 conn_id))
      × (conn_header 41 t conn_id ≡ ok ((type_byte t ∷ le_bytes 8 conn_id) ++ replicate 32 0))
      × (conn_header 73 t conn_id ≡ ok ((type_byte t ∷ le_bytes 8 conn_id) ++ replicate 64 0))
unfolding conn_header put_byte write_at
conn_header_lem t conn_id = (
  rw (put_uint64-Writes conn_id []),
  rw (put_uint64-Writes conn_id (replicate 32 0)),
  rw (put_uint64-Writes conn_id (replicate 64 0)),
)

module _ (c : CryptoLib) (secret : List ℕ) (suite : Suite c secret) where
  -- What is decrypted behind a header.
  abbrev pub message_of : ℕ → ℕ → List ℕ → Message
  message_of sn epoch text = record {
    sn_conn = sn;
    current_epoch_crypt = epoch;
    payload_raw = text;
  }

  -- A packet as it is sent.
  abbrev pub packet_of : ℕ → ℕ → Bool → List ℕ → List ℕ → List ℕ
  packet_of sn epoch is_sender header text =
      let sealed = sealed_text c secret suite sn epoch is_sender header text in
      header ++ (sealed_sn c secret suite sn sealed ++ sealed)

  pub length-packet_of :
      (sn epoch : ℕ) (is_sender : Bool) (header text : List ℕ)
      → length (packet_of sn epoch is_sender header text) ≡ length header + 22 + length text
  length-packet_of sn epoch is_sender header text =
      let sealed = sealed_text c secret suite sn epoch is_sender header text in
      let first = sealed_sn c secret suite sn sealed in
      omega (
        arith,
        length-append header (first ++ sealed),
        length-append first sealed,
        length-sealed_sn c secret suite sn sealed,
        suite.length-seal _ text header,
      )

  pub decrypt_after_lem :
      (sn epoch r size : ℕ) (is_sender receiver : Bool) (header text spare : List ℕ)
      → not receiver ≡ is_sender
      → length header ≡ size
      → sn < 2 ^ 48
      → epoch < 2 ^ 48
      → (r ≡ epoch) ⊎ (r ≡ suc epoch) ⊎ (suc r ≡ epoch)
      → 8 ≤ length text
      → decrypt_after c size receiver r secret (packet_of sn epoch is_sender header text) spare
        ≡ ok (message_of sn epoch text)
  unfolding decrypt_after
  decrypt_after_lem sn epoch r size is_sender receiver header text spare roles at sn_small
        epoch_small near long =
      let sealed = sealed_text c secret suite sn epoch is_sender header text in
      let rest = sealed_sn c secret suite sn sealed ++ sealed in
      let whole = length-append header rest in
      let head_read : slice 0 size ((header ++ rest) ++ spare) ≡ ok header =
        rw (append_assoc header rest spare)
          (slice-append [] header (rest ++ spare) 0 size refl (omega arith)) in
      let behind : drop size (header ++ rest) ≡ rest = rw at at (drop-append_length header rest) in
      let rest_read : slice size (length (header ++ rest)) (header ++ rest) ≡ ok rest =
        slice-drop (header ++ rest) size (omega arith) ∙ ap ok behind in
      rw (
        head_read,
        rest_read,
        chained_decrypt_lem c secret suite sn epoch is_sender receiver header text roles r spare
            sn_small epoch_small near long,
      )

  abbrev pub data_header : ℕ → List ℕ
  data_header conn_id = type_byte data_msg ∷ le_bytes 8 conn_id

  pub encrypt_data_lem :
      (conn_id sn epoch : ℕ) (is_sender : Bool) (text : List ℕ)
      → 8 ≤ length text
      → encrypt_data c conn_id is_sender (some secret) sn epoch text
        ≡ ok (packet_of sn epoch is_sender (data_header conn_id) text)
  unfolding encrypt_data
  encrypt_data_lem conn_id sn epoch is_sender text long = rw (
    (conn_header_lem data_msg conn_id).0,
    chained_encrypt_lem c secret suite sn epoch is_sender (data_header conn_id) text long,
  )

  pub decrypt_data_lem :
      (conn_id sn epoch r : ℕ) (is_sender receiver : Bool) (text spare : List ℕ)
      → not receiver ≡ is_sender
      → sn < 2 ^ 48
      → epoch < 2 ^ 48
      → (r ≡ epoch) ⊎ (r ≡ suc epoch) ⊎ (suc r ≡ epoch)
      → 8 ≤ length text
      → decrypt_data c
          (packet_of sn epoch is_sender (data_header conn_id) text)
          spare
          receiver
          r
          secret
        ≡ ok (message_of sn epoch text)
  unfolding decrypt_data
  decrypt_data_lem conn_id sn epoch r is_sender receiver text spare roles sn_small epoch_small near
        long =
      let header = data_header conn_id in
      let size = length-packet_of sn epoch is_sender header text in
      let enough : leb 31 (length (packet_of sn epoch is_sender header text)) ≡ true =
        ground arith in
      rw (
        enough,
        decrypt_after_lem sn epoch r 9 is_sender receiver header text spare roles refl sn_small
            epoch_small near long,
      )

  -- A data packet of one side is read by the other side, as long as their epochs are at most one
  -- apart: of at least 8 bytes, with a sequence number and an epoch below 2 ^ 48.
  pub decrypt_data-encrypt_data :
      (conn_id sn epoch r : ℕ) (is_sender receiver : Bool) (text spare : List ℕ)
      → not receiver ≡ is_sender
      → sn < 2 ^ 48
      → epoch < 2 ^ 48
      → (r ≡ epoch) ⊎ (r ≡ suc epoch) ⊎ (suc r ≡ epoch)
      → 8 ≤ length text
      → encrypt_data c conn_id is_sender (some secret) sn epoch text
          >>= (λ enc. decrypt_data c enc spare receiver r secret)
        ≡ ok (message_of sn epoch text)
  decrypt_data-encrypt_data conn_id sn epoch r is_sender receiver text spare roles sn_small
        epoch_small near long =
      rw (
        encrypt_data_lem conn_id sn epoch is_sender text long,
        decrypt_data_lem conn_id sn epoch r is_sender receiver text spare roles sn_small epoch_small
            near long,
      )
