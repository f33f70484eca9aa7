-- ===== src/Crypto/Messages.antt =====
-- The five message types of crypto.go, encrypted and decrypted. A nil key is `none`. What follows a
-- received packet in its array is `spare`: a slice expression with an end reads up to there.
use qotp.Base.{
  ℕ, ◌+◌, ◌-◌, ◌*◌, ◌^◌, Bool, true, false, Option, none, some, List, ◌++◌, Run, ok, panic, ◌>>=◌,
  ◌>>◌, guard, Error, need, leb, length, replicate, u16, slice, copy_at,
}
use qotp.Bytes.{put_uint16, put_uint64, uint16, uint64, write_at}
use qotp.Proto.{put_byte}
use qotp.Crypto.{
  CryptoMsgType, init_snd, init_rcv, init_crypto_snd, init_crypto_rcv, data_msg, crypto_version,
  pub_key_size, header_size, conn_id_size, msg_init_fill_len_size, min_init_rcv_size_hdr,
  min_init_crypto_snd_size_hdr, min_init_crypto_rcv_size_hdr, min_data_size_hdr, footer_data_size,
}
use qotp.Crypto.Library.{CryptoLib}
use qotp.Crypto.Chained.{chained_encrypt, chained_decrypt}

pub record Message : Type 0 where
  pub sn_conn : ℕ
  pub current_epoch_crypt : ℕ
  pub payload_raw : List ℕ

abbrev pub type_number : CryptoMsgType → ℕ
type_number init_snd = 0
type_number init_rcv = 1
type_number init_crypto_snd = 2
type_number init_crypto_rcv = 3
type_number data_msg = 4

-- `(uint8(t) << 5) | CryptoVersion`
abbrev pub type_byte : CryptoMsgType → ℕ
type_byte t = type_number t * 2 ^ 5 + crypto_version

-- The header of a reply and of data: the type, then the connection.
unfoldable pub conn_header : ℕ → CryptoMsgType → ℕ → Run (List ℕ)
conn_header size t conn_id = do
  (header, n) ← put_byte (replicate size 0) (type_byte t)
  (header', n') ← write_at header header_size (λ b. put_uint64 b conn_id)
  ok header'

-- Where a key is nil the program panics.
abbrev pub key_of : Option (List ℕ) → Run (List ℕ)
key_of none = panic
key_of (some key) = ok key

unfoldable pub encrypt_init_snd : Option (List ℕ) → Option (List ℕ) → ℕ → Run (ℕ × List ℕ)
encrypt_init_snd pub_key_id_snd pub_key_ep_snd mtu = do
  id_snd ← key_of pub_key_id_snd
  ep_snd ← key_of pub_key_ep_snd
  (buffer, n) ← put_byte (replicate mtu 0) (type_byte init_snd)
  buffer ← copy_at buffer header_size ep_snd
  buffer ← copy_at buffer (header_size + pub_key_size) id_snd
  head ← slice header_size (length buffer) buffer
  conn_id ← uint64 head
  ok (conn_id, buffer)

-- The filler length, the filler and the data, for a packet of `mtu` bytes.
unfoldable pub pad : ℕ → List ℕ → Run (List ℕ)
pad mtu packet_data = do
  let used =
      min_init_crypto_snd_size_hdr + footer_data_size + msg_init_fill_len_size + length packet_data
  guard (leb used mtu) Error.packet_larger_than_mtu
  let fill_len = mtu - used
  (padded, n) ←
      put_uint16 (replicate (length packet_data + msg_init_fill_len_size + fill_len) 0)
        (u16 fill_len)
  copy_at padded (2 + fill_len) packet_data

-- `packetData[2+int(fillerLen):]`
unfoldable pub unpad : List ℕ → Run (List ℕ)
unpad packet_data = do
  filler_len ← uint16 packet_data
  slice (2 + filler_len) (length packet_data) packet_data

module _ (c : CryptoLib) where
  unfoldable pub encrypt_init_rcv :
      ℕ → Option (List ℕ) → Option (List ℕ) → Option (List ℕ) → ℕ → List ℕ → Run (List ℕ)
  encrypt_init_rcv conn_id pub_key_id_snd pub_key_ep_rcv prv_key_ep_snd sn_crypto packet_data = do
    id_snd ← key_of pub_key_id_snd
    ep_rcv ← key_of pub_key_ep_rcv
    prv ← key_of prv_key_ep_snd
    header ← conn_header min_init_rcv_size_hdr init_rcv conn_id
    header ← copy_at header (header_size + conn_id_size) (c.public_key prv)
    header ← copy_at header (header_size + conn_id_size + pub_key_size) id_snd
    shared_secret ← need Error.key_refused (c.ecdh prv ep_rcv)
    chained_encrypt c sn_crypto 0 false shared_secret header packet_data

  unfoldable pub encrypt_init_crypto_snd :
      Option (List ℕ) → Option (List ℕ) → Option (List ℕ) → ℕ → ℕ → List ℕ → Run (ℕ × List ℕ)
  encrypt_init_crypto_snd pub_key_id_rcv pub_key_id_snd prv_key_ep_snd sn_crypto mtu packet_data =
      do
        id_rcv ← key_of pub_key_id_rcv
        id_snd ← key_of pub_key_id_snd
        prv ← key_of prv_key_ep_snd
        (header, n) ←
            put_byte (replicate min_init_crypto_snd_size_hdr 0) (type_byte init_crypto_snd)
        header ← copy_at header header_size (c.public_key prv)
        header ← copy_at header (header_size + pub_key_size) id_snd
        padded ← pad mtu packet_data
        secret_key ← need Error.key_refused (c.ecdh prv id_rcv)
        enc_data ← chained_encrypt c sn_crypto 0 true secret_key header padded
        head ← slice header_size (length header) header
        conn_id ← uint64 head
        ok (conn_id, enc_data)

  unfoldable pub encrypt_init_crypto_rcv :
      ℕ → Option (List ℕ) → Option (List ℕ) → ℕ → List ℕ → Run (List ℕ)
  encrypt_init_crypto_rcv conn_id pub_key_ep_rcv prv_key_ep_snd sn_crypto packet_data = do
    ep_rcv ← key_of pub_key_ep_rcv
    prv ← key_of prv_key_ep_snd
    header ← conn_header min_init_crypto_rcv_size_hdr init_crypto_rcv conn_id
    header ← copy_at header (header_size + conn_id_size) (c.public_key prv)
    shared_secret ← need Error.key_refused (c.ecdh prv ep_rcv)
    chained_encrypt c sn_crypto 0 false shared_secret header packet_data

  unfoldable pub encrypt_data : ℕ → Bool → Option (List ℕ) → ℕ → ℕ → List ℕ → Run (List ℕ)
  encrypt_data conn_id is_sender shared_secret sn_crypto epoch_crypto packet_data = do
    secret ← key_of shared_secret
    header ← conn_header (header_size + conn_id_size) data_msg conn_id
    chained_encrypt c sn_crypto epoch_crypto is_sender secret header packet_data

  -- `chainedDecrypt` of what follows the first `size` bytes, which it authenticates.
  unfoldable pub decrypt_after : ℕ → Bool → ℕ → List ℕ → List ℕ → List ℕ → Run Message
  decrypt_after size is_sender epoch_crypt shared_secret enc_data spare = do
    header ← slice 0 size (enc_data ++ spare)
    rest ← slice size (length enc_data) enc_data
    (sn_conn, current_epoch, packet_data) ←
        chained_decrypt c is_sender epoch_crypt shared_secret header rest spare
    ok (record {
      sn_conn = sn_conn;
      current_epoch_crypt = current_epoch;
      payload_raw = packet_data;
    })

  -- `NewPublicKey(encData[from : from+PubKeySize])`
  unfoldable pub read_key : ℕ → List ℕ → List ℕ → Run (List ℕ)
  read_key from enc_data spare = do
    bytes ← slice from (from + pub_key_size) (enc_data ++ spare)
    need Error.key_refused (c.new_public_key bytes)

  -- The keys of the sender: the identity, and the one of this connection.
  unfoldable pub decrypt_init_snd : List ℕ → List ℕ → ℕ → Run (List ℕ × List ℕ)
  decrypt_init_snd enc_data spare mtu = do
    guard (leb mtu (length enc_data)) Error.size_below_init
    ep_snd ← read_key header_size enc_data spare
    id_snd ← read_key (header_size + pub_key_size) enc_data spare
    ok (id_snd, ep_snd)

  -- The shared secret, the keys of the receiver, and the message.
  unfoldable pub decrypt_init_rcv :
      List ℕ → List ℕ → List ℕ → Run (List ℕ × List ℕ × List ℕ × Message)
  decrypt_init_rcv enc_data spare prv_key_ep_snd = do
    guard (leb (min_init_rcv_size_hdr + footer_data_size) (length enc_data))
        Error.size_below_init_reply
    ep_rcv ← read_key (header_size + conn_id_size) enc_data spare
    id_rcv ← read_key (header_size + conn_id_size + pub_key_size) enc_data spare
    shared_secret ← need Error.key_refused (c.ecdh prv_key_ep_snd ep_rcv)
    m ←
        decrypt_after (header_size + conn_id_size + 2 * pub_key_size) true 0 shared_secret enc_data
          spare
    ok (shared_secret, id_rcv, ep_rcv, m)

  unfoldable pub decrypt_init_crypto_snd :
      List ℕ → List ℕ → List ℕ → ℕ → Run (List ℕ × List ℕ × Message)
  decrypt_init_crypto_snd enc_data spare prv_key_id_rcv mtu = do
    guard (leb mtu (length enc_data)) Error.size_below_init
    ep_snd ← read_key header_size enc_data spare
    id_snd ← read_key (header_size + pub_key_size) enc_data spare
    secret_key ← need Error.key_refused (c.ecdh prv_key_id_rcv ep_snd)
    m ← decrypt_after (header_size + 2 * pub_key_size) false 0 secret_key enc_data spare
    actual_data ← unpad m.payload_raw
    ok (id_snd, ep_snd, record m { payload_raw = actual_data })

  unfoldable pub decrypt_init_crypto_rcv :
      List ℕ → List ℕ → List ℕ → Run (List ℕ × List ℕ × Message)
  decrypt_init_crypto_rcv enc_data spare prv_key_ep_snd = do
    guard (leb (min_init_crypto_rcv_size_hdr + footer_data_size) (length enc_data))
        Error.size_below_init_reply
    ep_rcv ← read_key (header_size + conn_id_size) enc_data spare
    shared_secret ← need Error.key_refused (c.ecdh prv_key_ep_snd ep_rcv)
    m ←
        decrypt_after (header_size + conn_id_size + pub_key_size) true 0 shared_secret enc_data
          spare
    ok (shared_secret, ep_rcv, m)

  unfoldable pub decrypt_data : List ℕ → List ℕ → Bool → ℕ → List ℕ → Run Message
  decrypt_data enc_data spare is_sender epoch_crypt shared_secret = do
    guard (leb (min_data_size_hdr + footer_data_size) (length enc_data)) Error.size_below_minimum
    decrypt_after (header_size + conn_id_size) is_sender epoch_crypt shared_secret enc_data spare
