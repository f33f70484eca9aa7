-- ===== src/Conn.antt =====
-- The connection of conn.go: its state, and the operations that only read it or touch one buffer.
-- The listener's key and mtu, which a connection reads through its pointer, are a `Host`.
pub mod Encrypt
pub mod Encode
pub mod Flush
pub mod Receive
mod Tests
use qotp.Base.{
  ℕ, ◌*◌, ◌^◌, Bool, true, false, not, ◌&&◌, Option, none, some, List, [], ◌∷◌, Run, ok, panic,
  if◌then◌else◌, leb,
}
use qotp.Entries
use qotp.Entries.{Entries}
use qotp.Crypto.{CryptoMsgType, init_snd, init_rcv, init_crypto_snd, init_crypto_rcv, data_msg}
use qotp.Measurement.{Measurements, new_measurements}
use qotp.Snd
use qotp.Snd.{SendBuffer, new_send_buffer, get_offset_acked, get_offset_closed_at}
use qotp.Rcv.{ReceiveBuffer, new_receive_buffer}
use qotp.Stream.{Stream, close}

-- `netip.AddrPort`
pub record AddrPort : Type 0 where
  pub addr : List ℕ
  pub port : ℕ

pub record Host : Type 0 where
  pub prv_key_id : List ℕ
  pub mtu : ℕ

-- `Conn`. A nil key is `none`. `data_in_flight` is an int whose bit pattern is kept.
pub record Conn : Type 0 where
  pub conn_id : ℕ
  pub remote_addr : AddrPort
  pub streams : Entries Stream
  pub prv_key_ep_snd : Option (List ℕ)
  pub pub_key_ep_rcv : Option (List ℕ)
  pub pub_key_id_rcv : Option (List ℕ)
  pub shared_secret : Option (List ℕ)
  pub snd : SendBuffer
  pub rcv : ReceiveBuffer
  pub data_in_flight : ℕ
  pub rcv_wnd_size : ℕ
  pub is_sender_on_init : Bool
  pub is_with_crypto_on_init : Bool
  pub is_handshake_done_on_rcv : Bool
  pub is_init_sent_on_snd : Bool
  pub next_write_time : ℕ
  pub sn_crypto : ℕ
  pub epoch_crypto_snd : ℕ
  pub epoch_crypto_rcv : ℕ
  pub measurements : Measurements

unfoldable pub msg_type : Conn → CryptoMsgType
msg_type c =
    if c.is_handshake_done_on_rcv
    then data_msg
    else if c.is_with_crypto_on_init && c.is_sender_on_init
    then init_crypto_snd
    else if c.is_with_crypto_on_init && not c.is_sender_on_init
    then init_crypto_rcv
    else if c.is_sender_on_init
    then init_snd
    else init_rcv

-- The buffers' capacity: 16 MB.
abbrev pub buffer_capacity : ℕ
buffer_capacity = 16 * 2 ^ 20

abbrev close_all : Entries Stream → SendBuffer → SendBuffer
close_all [] snd = snd
close_all ((stream_id, s) ∷ rest) snd = close_all rest (close s snd)

-- `Close`: every stream, in the order of the map.
unfoldable pub close_conn : Conn → Conn
close_conn c = record c { snd = close_all c.streams c.snd }

abbrev with_stream : ℕ → Option Stream → Conn → Conn × Stream
with_stream stream_id (some s) c = (c, s)
with_stream stream_id none c =
    let s : Stream = record { stream_id = stream_id; closed_at_nano = 0 } in
    (record c { streams = Entries.put stream_id s c.streams }, s)

-- `Stream`: the stream, which is made when it is missing.
unfoldable pub stream : ℕ → Conn → Conn × Stream
stream stream_id c = with_stream stream_id (Entries.get stream_id c.streams) c

unfoldable pub check_stream_fully_acked : ℕ → SendBuffer → Bool
check_stream_fully_acked stream_id snd = elim (get_offset_closed_at stream_id snd) [
  | none ↦ false
  | some close_offset ↦ leb close_offset (get_offset_acked stream_id snd)
]
