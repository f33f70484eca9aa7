-- ===== src/Listener/Decode.antt =====
-- `Listener.decode` of codec.go: from a datagram to the connection and the payload. What follows the
-- datagram in the read buffer is `spare`; `generated` is what `generateKey` returns.
use qotp.Base.{
  ℕ, ◌+◌, ◌/◌, ◌%◌, ◌^◌, Bool, true, false, Option, none, some, List, [], Run, ok, err, Error, need,
  guard, if◌then◌else◌, leb, ltb, ◌==◌, length, slice,
}
use qotp.Base.Exec.{Exec, ◌>>=◌, ◌>>◌, return, lift, modify, gets}
use qotp.Bytes.{uint64}
use qotp.Proto.{byte_of}
use qotp.Entries
use qotp.Crypto.{
  CryptoMsgType, init_snd, init_rcv, init_crypto_snd, init_crypto_rcv, data_msg, crypto_version,
  min_packet_size, header_size, conn_id_size,
}
use qotp.Crypto.Library.{CryptoLib}
use qotp.Crypto.Messages.{
  key_of, decrypt_init_snd, decrypt_init_rcv, decrypt_init_crypto_snd, decrypt_init_crypto_rcv,
  decrypt_data,
}
use qotp.Conn.{Conn, AddrPort}
use qotp.Listener.{Listener, new_conn, put_conn}

-- The connection's key in the map, the payload and the message type.
abbrev pub Decoded : Type 0
Decoded = ℕ × List ℕ × CryptoMsgType

-- `CryptoMsgType(header >> 5)`, where it has a case.
unfoldable pub msg_type_of : ℕ → Run CryptoMsgType
msg_type_of header =
    let t = header / 2 ^ 5 in
    if t == 0
    then ok init_snd
    else if t == 1
    then ok init_rcv
    else if t == 2
    then ok init_crypto_snd
    else if t == 3
    then ok init_crypto_rcv
    else if t == 4
    then ok data_msg
    else err Error.unknown_message_type

-- The connection under its number, or the error that there is none.
unfoldable pub find_conn : ℕ → Exec Listener Conn
find_conn conn_id l = (l, need Error.conn_not_found (Entries.get conn_id l.conn_map))

module _ (c : CryptoLib) where
  -- The connection of a first packet, which may be a repeated one.
  abbrev accept_found :
      ℕ → AddrPort → Option (List ℕ) → List ℕ → List ℕ → Bool → Option Conn → Exec Listener Conn
  accept_found conn_id r_addr generated id_snd ep_snd with_crypto (some conn) = return conn
  accept_found conn_id r_addr generated id_snd ep_snd with_crypto none = do
    prv ← lift (need Error.key_not_generated generated)
    new_conn c conn_id r_addr prv (some id_snd) (some ep_snd) false with_crypto

  unfoldable pub accept :
      ℕ → AddrPort → Option (List ℕ) → List ℕ → List ℕ → Bool → Exec Listener Conn
  accept conn_id r_addr generated id_snd ep_snd with_crypto l =
      accept_found conn_id r_addr generated id_snd ep_snd with_crypto
        (Entries.get conn_id l.conn_map) l

  unfoldable pub receive_init_snd :
      ℕ → AddrPort → Option (List ℕ) → List ℕ → List ℕ → Exec Listener Decoded
  receive_init_snd conn_id r_addr generated enc_data spare = do
    mtu ← gets (λ l. l.host.mtu)
    (id_snd, ep_snd) ← lift (decrypt_init_snd c enc_data spare mtu)
    conn ← accept conn_id r_addr generated id_snd ep_snd false
    prv ← lift (key_of conn.prv_key_ep_snd)
    shared_secret ← lift (need Error.key_refused (c.ecdh prv ep_snd))
    modify (put_conn conn_id (record conn { shared_secret = some shared_secret }))
    return (conn_id, [], init_snd)

  -- Here the error of `ECDH` is not looked at, and the secret becomes nil.
  unfoldable pub receive_init_crypto_snd :
      ℕ → AddrPort → Option (List ℕ) → List ℕ → List ℕ → Exec Listener Decoded
  receive_init_crypto_snd conn_id r_addr generated enc_data spare = do
    host ← gets (λ l. l.host)
    (id_snd, ep_snd, message) ←
        lift (decrypt_init_crypto_snd c enc_data spare host.prv_key_id host.mtu)
    conn ← accept conn_id r_addr generated id_snd ep_snd true
    prv ← lift (key_of conn.prv_key_ep_snd)
    modify (put_conn conn_id (record conn { shared_secret = c.ecdh prv ep_snd }))
    return (conn_id, message.payload_raw, init_crypto_snd)

  unfoldable pub receive_init_rcv : ℕ → List ℕ → List ℕ → Exec Listener Decoded
  receive_init_rcv conn_id enc_data spare = do
    conn ← find_conn conn_id
    prv ← lift (key_of conn.prv_key_ep_snd)
    (shared_secret, id_rcv, ep_rcv, message) ← lift (decrypt_init_rcv c enc_data spare prv)
    modify (
        put_conn conn_id (record conn {
          pub_key_id_rcv = some id_rcv;
          pub_key_ep_rcv = some ep_rcv;
          shared_secret = some shared_secret;
        }))
    return (conn_id, message.payload_raw, init_rcv)

  unfoldable pub receive_init_crypto_rcv : ℕ → List ℕ → List ℕ → Exec Listener Decoded
  receive_init_crypto_rcv conn_id enc_data spare = do
    conn ← find_conn conn_id
    prv ← lift (key_of conn.prv_key_ep_snd)
    (shared_secret, ep_rcv, message) ← lift (decrypt_init_crypto_rcv c enc_data spare prv)
    modify (
        put_conn conn_id
          (record conn { pub_key_ep_rcv = some ep_rcv; shared_secret = some shared_secret }))
    return (conn_id, message.payload_raw, init_crypto_rcv)

  -- A nil secret is empty to the library.
  abbrev pub secret_bytes : Option (List ℕ) → List ℕ
  secret_bytes none = []
  secret_bytes (some secret) = secret

  -- The epoch of the receiver follows that of the packet.
  abbrev pub follow_epoch : ℕ → Conn → Conn
  follow_epoch epoch conn =
      if ltb conn.epoch_crypto_rcv epoch then record conn { epoch_crypto_rcv = epoch } else conn

  unfoldable pub receive_data : ℕ → List ℕ → List ℕ → Exec Listener Decoded
  receive_data conn_id enc_data spare = do
    conn ← find_conn conn_id
    message ← lift (
        decrypt_data c enc_data spare conn.is_sender_on_init conn.epoch_crypto_rcv
          (secret_bytes conn.shared_secret))
    modify (put_conn conn_id (follow_epoch message.current_epoch_crypt conn))
    return (conn_id, message.payload_raw, data_msg)

  -- The `switch` on the message type.
  abbrev receive :
      CryptoMsgType → ℕ → AddrPort → Option (List ℕ) → List ℕ → List ℕ → Exec Listener Decoded
  receive init_snd conn_id r_addr generated enc_data spare =
      receive_init_snd conn_id r_addr generated enc_data spare
  receive init_rcv conn_id r_addr generated enc_data spare = receive_init_rcv conn_id enc_data spare
  receive init_crypto_snd conn_id r_addr generated enc_data spare =
      receive_init_crypto_snd conn_id r_addr generated enc_data spare
  receive init_crypto_rcv conn_id r_addr generated enc_data spare =
      receive_init_crypto_rcv conn_id enc_data spare
  receive data_msg conn_id r_addr generated enc_data spare = receive_data conn_id enc_data spare

  unfoldable pub decode : AddrPort → Option (List ℕ) → List ℕ → List ℕ → Exec Listener Decoded
  decode r_addr generated enc_data spare = do
    lift (guard (leb min_packet_size (length enc_data)) Error.header_too_short)
    header ← lift (byte_of enc_data)
    lift (guard (header % 2 ^ 5 == crypto_version) Error.unsupported_crypto_version)
    bytes ← lift (slice header_size (conn_id_size + header_size) enc_data)
    conn_id ← lift (uint64 bytes)
    msg_type ← lift (msg_type_of header)
    receive msg_type conn_id r_addr generated enc_data spare
