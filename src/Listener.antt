-- ===== src/Listener.antt =====
-- The listener of listener.go: its state, new connections, and the removal of streams and
-- connections. The map of the connections holds them by value: a connection is written back where
-- the program changes it through a pointer.
pub mod Decode
pub mod Listen
pub mod Flush
pub mod Options
pub mod Open
pub mod Dialling
pub mod Delivery
pub mod Handshake
pub mod Failures
pub mod Wait
mod Tests
use qotp.Base.{
  ℕ, Bool, true, false, Option, none, some, List, [], ◌∷◌, Run, ok, err, panic, Error, need,
  if◌then◌else◌, ◌==◌,
}
use qotp.Base.Exec.{Exec, ◌>>=◌, ◌>>◌, return, lift, modify, gets}
use qotp.Bytes.{uint64}
use qotp.Entries
use qotp.Entries.{Entries}
use qotp.Crypto.Library.{CryptoLib}
use qotp.Crypto.Messages.{key_of}
use qotp.Measurement.{new_measurements}
use qotp.Snd.{new_send_buffer}
use qotp.Rcv.{new_receive_buffer}
use qotp.Stream.{Stream}
use qotp.Conn.{Conn, AddrPort, Host, buffer_capacity, close_conn}

-- `currentConnID` and `currentStreamID` point into a connection and one of its streams: the keys
-- under which they are in the maps, and what the pointers read.
pub record Cursor : Type 0 where
  pub conn_key : ℕ
  pub stream_key : ℕ
  pub conn_id : ℕ
  pub stream_id : ℕ

pub record Listener : Type 0 where
  pub host : Host
  pub conn_map : Entries Conn
  pub current : Option Cursor
  pub closed : Bool
  -- whether `keyLogWriter` is set
  pub key_log : Bool

abbrev pub put_conn : ℕ → Conn → Listener → Listener
put_conn conn_id conn l = record l { conn_map = Entries.put conn_id conn l.conn_map }

abbrev pub fresh_conn :
    ℕ → AddrPort → List ℕ → Option (List ℕ) → Option (List ℕ) → Bool → Bool → Conn
fresh_conn conn_id remote_addr prv_key_ep_snd pub_key_id_rcv pub_key_ep_rcv is_sender with_crypto =
    record {
      conn_id = conn_id;
      remote_addr = remote_addr;
      streams = [];
      prv_key_ep_snd = some prv_key_ep_snd;
      pub_key_ep_rcv = pub_key_ep_rcv;
      pub_key_id_rcv = pub_key_id_rcv;
      shared_secret = none;
      snd = new_send_buffer buffer_capacity;
      rcv = new_receive_buffer buffer_capacity;
      data_in_flight = 0;
      rcv_wnd_size = buffer_capacity;
      is_sender_on_init = is_sender;
      is_with_crypto_on_init = with_crypto;
      is_handshake_done_on_rcv = false;
      is_init_sent_on_snd = false;
      next_write_time = 0;
      sn_crypto = 0;
      epoch_crypto_snd = 0;
      epoch_crypto_rcv = 0;
      measurements = new_measurements;
    }

-- The secrets for the key log, of two keys that `ECDH` does not take when they are nil. The lines
-- that `logKey` writes are not modelled.
abbrev log_secrets : CryptoLib → Bool → List ℕ → Option (List ℕ) → Option (List ℕ) → Run (Unit {0})
log_secrets c false prv ep id = ok tt
log_secrets c true prv none id = panic
log_secrets c true prv (some ep) none = elim (c.ecdh prv ep) [
  | none ↦ err Error.key_refused
  | some secret ↦ panic
]
log_secrets c true prv (some ep) (some id) = elim (c.ecdh prv ep) [
  | none ↦ err Error.key_refused
  | some secret ↦ elim (c.ecdh prv id) [ none ↦ err Error.key_refused | some secret_id ↦ ok tt ]
]

module _ (c : CryptoLib) where
  unfoldable pub new_conn :
      ℕ → AddrPort → List ℕ → Option (List ℕ) → Option (List ℕ) → Bool → Bool → Exec Listener Conn
  new_conn conn_id remote_addr prv pub_key_id_rcv pub_key_ep_rcv is_sender with_crypto l =
      if Entries.contains conn_id l.conn_map
      then (l, err Error.conn_exists)
      else let conn =
          fresh_conn conn_id remote_addr prv pub_key_id_rcv pub_key_ep_rcv is_sender with_crypto in
        (do
          lift (log_secrets c l.key_log prv pub_key_ep_rcv pub_key_id_rcv)
          modify (put_conn conn_id conn)
          return conn)
          l

  -- `Dial` and `DialWithCrypto`, by the key that `generateKey` returns.
  unfoldable pub dial_with :
      Option (List ℕ) → AddrPort → Option (List ℕ) → Bool → Exec Listener Conn
  dial_with generated remote_addr pub_key_id_rcv with_crypto = do
    prv ← lift (need Error.key_not_generated generated)
    conn_id ← lift (uint64 (c.public_key prv))
    new_conn conn_id remote_addr prv pub_key_id_rcv none true with_crypto

  unfoldable pub dial : Option (List ℕ) → AddrPort → Exec Listener Conn
  dial generated remote_addr = dial_with generated remote_addr none false

  unfoldable pub dial_with_crypto : Option (List ℕ) → AddrPort → List ℕ → Exec Listener Conn
  dial_with_crypto generated remote_addr pub_key_id_rcv =
      dial_with generated remote_addr (some pub_key_id_rcv) true

-- A key of a map, or 0 where there is none: Go's zero value.
abbrev key_or_zero : {V : Type 0} → Option (ℕ × V) → ℕ
key_or_zero none = 0
key_or_zero (some (k, v)) = k

-- A write through `currentStreamID`: the number of the stream that it points to.
abbrev write_stream_id : Cursor → ℕ → Listener → Listener
write_stream_id cursor stream_id l =
    let l' = record l { current = some (record cursor { stream_id = stream_id }) } in
    elim (Entries.get cursor.conn_key l.conn_map) [
      | none ↦ l'
      | some conn ↦ elim (Entries.get cursor.stream_key conn.streams) [
        | none ↦ l'
        | some s ↦
            put_conn cursor.conn_key
              (record conn {
                streams =
                    Entries.put cursor.stream_key (record s { stream_id = stream_id }) conn.streams;
              })
              l'
      ]
    ]

abbrev write_conn_id : Cursor → ℕ → Listener → Listener
write_conn_id cursor conn_id l =
    let l' = record l { current = some (record cursor { conn_id = conn_id }) } in
    elim (Entries.get cursor.conn_key l.conn_map) [
      | none ↦ l'
      | some conn ↦ put_conn cursor.conn_key (record conn { conn_id = conn_id }) l'
    ]

abbrev move_stream : ℕ → Option Conn → Option Cursor → Listener → Listener
move_stream stream_id none current l = l
move_stream stream_id (some conn) none l = l
move_stream stream_id (some conn) (some cursor) l =
    if stream_id == cursor.stream_id
    then write_stream_id cursor (key_or_zero (Entries.next stream_id conn.streams)) l
    else l

abbrev remove_stream : ℕ → ℕ → Listener → Listener
remove_stream conn_key stream_id l = elim (Entries.get conn_key l.conn_map) [
  | none ↦ l
  | some conn ↦
      put_conn conn_key (record conn { streams = Entries.remove stream_id conn.streams }) l
]

-- `cleanupStream` of the connection under `conn_key`.
unfoldable pub cleanup_stream : ℕ → ℕ → Listener → Listener
cleanup_stream conn_key stream_id l =
    remove_stream conn_key stream_id
      (move_stream stream_id (Entries.get conn_key l.conn_map) l.current l)

abbrev move_conn : ℕ → Option Cursor → Listener → Listener
move_conn conn_id none l = l
move_conn conn_id (some cursor) l =
    if conn_id == cursor.conn_id
    then write_conn_id cursor (key_or_zero (Entries.next conn_id l.conn_map)) l
    else l

-- `cleanupConn` of the connection under `conn_key`, which removes the connection's number: the one
-- that it has after the write through the pointer.
unfoldable pub cleanup_conn : ℕ → Listener → Listener
cleanup_conn conn_key l = elim (Entries.get conn_key l.conn_map) [
  | none ↦ l
  | some conn ↦
      let l' = move_conn conn.conn_id l.current l in
      let removed : ℕ = elim (Entries.get conn_key l'.conn_map) [
        | none ↦ conn.conn_id
        | some conn' ↦ conn'.conn_id
      ] in
      record l' { conn_map = Entries.remove removed l'.conn_map }
]

abbrev close_conns : Entries Conn → Entries Conn
close_conns [] = []
close_conns ((conn_id, conn) ∷ rest) = (conn_id, close_conn conn) ∷ close_conns rest

-- `Close`, before its calls of the socket.
unfoldable pub close_listener : Listener → Listener
close_listener l = record l { closed = true; conn_map = close_conns l.conn_map }
