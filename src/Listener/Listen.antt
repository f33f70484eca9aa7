-- ===== src/Listener/Listen.antt =====
-- `Listener.Listen` of listener.go: one read of the socket, whose outcome is a parameter.
use qotp.Base.{
  ℕ, ◌-◌, Bool, true, false, ◌||◌, Option, none, some, List, [], Run, ok, err, panic, Error,
  if◌then◌else◌, ltb, ◌==◌, length, replicate,
}
use qotp.Base.Exec.{Exec, ◌>>=◌, ◌>>◌, return, lift, modify, gets}
use qotp.Proto.{PayloadHeader, decode_payload}
use qotp.Entries
use qotp.Crypto.{CryptoMsgType, init_snd, init_rcv, init_crypto_snd, init_crypto_rcv, data_msg}
use qotp.Crypto.Library.{CryptoLib}
use qotp.Conn.{Conn, AddrPort}
use qotp.Conn.Receive
use qotp.Listener.{Listener, put_conn}
use qotp.Listener.Decode.{decode}

-- What `ReadFromUDPAddrPort` gives: a timeout, another error, or a datagram, of at most `mtu` bytes.
pub data Read : Type 0 where
  timeout read_error : Read
  datagram : List ℕ → AddrPort → Read

-- A method of the connection under `conn_id`, which returns it to the map.
abbrev pub on_conn : {A : Type 0} → ℕ → Exec Conn A → Exec Listener A
on_conn conn_id m l = elim (Entries.get conn_id l.conn_map) [
  | none ↦ (l, panic)
  | some conn ↦ let (conn', r) = m conn in (put_conn conn_id conn' l, r)
]

abbrev read_at : ℕ → Conn → Conn
read_at now conn =
    if ltb conn.measurements.last_read_time_nano now
    then record conn { measurements = record conn.measurements { last_read_time_nano = now } }
    else conn

-- Only InitSnd has no payload.
unfoldable pub payload_of : CryptoMsgType → List ℕ → Run (PayloadHeader × Option (List ℕ))
payload_of init_snd [] =
    ok (record { is_close = false; ack = none; stream_id = 0; stream_offset = 0 }, some [])
payload_of msg_type payload = decode_payload payload

abbrev is_init_reply : CryptoMsgType → Bool
is_init_reply init_rcv = true
is_init_reply init_crypto_rcv = true
is_init_reply init_snd = false
is_init_reply init_crypto_snd = false
is_init_reply data_msg = false

abbrev is_data : CryptoMsgType → Bool
is_data data_msg = true
is_data init_snd = false
is_data init_rcv = false
is_data init_crypto_snd = false
is_data init_crypto_rcv = false

-- The handshake is done for the sender with the reply, for the receiver with the first data.
unfoldable pub finish_handshake : CryptoMsgType → Conn → Conn
finish_handshake msg_type conn = record conn {
  is_handshake_done_on_rcv =
      conn.is_handshake_done_on_rcv
      || (if conn.is_sender_on_init then is_init_reply msg_type else is_data msg_type);
}

-- The connection and the stream that the datagram is for.
unfoldable pub receive : CryptoLib → Option (List ℕ) → ℕ → List ℕ → AddrPort → Exec Listener (ℕ × ℕ)
receive c generated now enc_data remote_addr = do
  mtu ← gets (λ l. l.host.mtu)
  (conn_id, payload, msg_type) ←
      decode c remote_addr generated enc_data (replicate (mtu - length enc_data) 0)
  on_conn conn_id (modify (read_at now))
  (p, user_data) ← lift (payload_of msg_type payload)
  stream_id ← on_conn conn_id (Receive.decode p user_data (length enc_data) now)
  on_conn conn_id (modify (finish_handshake msg_type))
  return (conn_id, stream_id)

unfoldable pub listen : CryptoLib → Option (List ℕ) → ℕ → Read → Exec Listener (Option (ℕ × ℕ))
listen c generated now timeout = return none
listen c generated now read_error = lift (err Error.read_failed)
listen c generated now (datagram enc_data remote_addr) =
    if length enc_data == 0
    then return none
    else receive c generated now enc_data remote_addr >>= λ r. return (some r)
