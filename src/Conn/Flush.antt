-- ===== src/Conn/Flush.antt =====
-- `Flush`, `sendPacket` and `writeAck` of conn.go: what a connection puts on the line. The socket is
-- a parameter, which takes a packet or refuses it; `written` is what it has taken.
pub mod Parts
pub mod Bounds
pub mod Window
pub mod Ready
pub mod Progress
use qotp.Base.{
  ℕ, ◌+◌, ◌-◌, ◌%◌, ◌^◌, Bool, true, false, not, ◌||◌, Option, none, some, List, [], ◌∷◌, ◌++◌, Run,
  ok, err, panic, Error, if◌then◌else◌, ltb, u64, sub64, length, is_some,
}
use qotp.Base.Exec.{Exec, ◌>>=◌, ◌>>◌, return, lift, modify, gets}
use qotp.Proto.{Ack, PayloadHeader}
use qotp.Crypto.{CryptoMsgType}
use qotp.Crypto.Library.{CryptoLib}
use qotp.Measurement.{min_deadline, rto_nano, on_packet_loss, calc_pacing}
use qotp.Snd.{SendBuffer, Packet, ready_to_send, ready_to_retransmit}
use qotp.Rcv.{get_snd_ack, size_of}
use qotp.Conn.{Conn, Host, AddrPort, msg_type, check_stream_fully_acked}
use qotp.Conn.Encode.{encode}

-- `WriteToUDPAddrPort`: whether the packet is taken.
abbrev pub Socket : Type 0
Socket = List ℕ → AddrPort → ℕ → Bool

pub record Line : Type 0 where
  pub conn : Conn
  pub written : List (List ℕ)

abbrev pub on_conn : {A : Type 0} → Exec Conn A → Exec Line A
on_conn m l = let (conn, r) = m l.conn in (record l { conn = conn }, r)

-- The next ACK to send, with the window of this side.
abbrev pub with_window : ℕ → Option Ack → Option Ack
with_window window none = none
with_window window (some ack) = some (record ack { rcv_wnd = window })

unfoldable pub take_ack : Exec Conn (Option Ack)
take_ack c =
    let (rcv, ack) = get_snd_ack c.rcv in
    (record c { rcv = rcv }, ok (with_window (sub64 rcv.capacity (size_of rcv)) ack))

unfoldable pub write_to : Socket → List ℕ → ℕ → Exec Line (Unit {0})
write_to socket packet now l =
    if socket packet l.conn.remote_addr now
    then (record l { written = l.written ++ (packet ∷ []) }, ok tt)
    else (l, err Error.write_refused)

-- `a > b` on int, of bit patterns.
abbrev pub int_gt : ℕ → ℕ → Bool
int_gt a b = ltb (u64 (b + 2 ^ 63)) (u64 (a + 2 ^ 63))

abbrev pub count_in_flight : Bool → ℕ → Line → Line
count_in_flight false packet_len l = l
count_in_flight true packet_len l = record l {
  conn = record l.conn { data_in_flight = u64 (l.conn.data_in_flight + packet_len) };
}

-- The end of `sendPacket` and `writeAck`: when the next packet may follow one of `size` bytes.
unfoldable pub pace : ℕ → ℕ → ℕ → Exec Line (ℕ × ℕ)
pace now size sent = do
  m ← gets (λ l. l.conn.measurements)
  pacing_nano ← lift (calc_pacing m size)
  modify (λ l. record l { conn = record l.conn { next_write_time = u64 (now + pacing_nano) } })
  return (sent, pacing_nano)

-- What a call of the send buffer returns, and the buffer that it leaves.
abbrev pub with_snd : Line → Run (SendBuffer × Packet) → Line × Run Packet
with_snd l (ok (snd, packet)) = (record l { conn = record l.conn { snd = snd } }, ok packet)
with_snd l (err e) = (l, err e)
with_snd l panic = (l, panic)

module _ (c : CryptoLib) (host : Host) (socket : Socket) where
  unfoldable pub send_packet :
      ℕ → Option Ack → List ℕ → ℕ → Bool → CryptoMsgType → ℕ → Bool → Exec Line (ℕ × ℕ)
  send_packet stream_id ack split_data offset is_close msg_type now track_in_flight = do
    let p : PayloadHeader = record {
      is_close = is_close;
      ack = ack;
      stream_id = stream_id;
      stream_offset = offset;
    }
    enc_data ← on_conn (encode c host p (some split_data) msg_type)
    write_to socket enc_data now
    let packet_len = length split_data
    modify (count_in_flight track_in_flight packet_len)
    pace now (if track_in_flight then length enc_data else packet_len) packet_len

  unfoldable pub write_ack : ℕ → Option Ack → ℕ → Exec Line (ℕ × ℕ)
  write_ack stream_id ack now = do
    conn ← gets (λ l. l.conn)
    let p : PayloadHeader = record {
      is_close = check_stream_fully_acked stream_id conn.snd;
      ack = ack;
      stream_id = stream_id;
      stream_offset = 0;
    }
    enc_data ← on_conn (encode c host p none (msg_type conn))
    write_to socket enc_data now
    pace now (length enc_data) 0

  -- The ACK alone, if there is one.
  unfoldable pub flush_ack : ℕ → Option Ack → ℕ → Exec Line (ℕ × ℕ)
  flush_ack stream_id none now = return (0, min_deadline)
  flush_ack stream_id (some ack) now = write_ack stream_id (some ack) now

  -- `ReadyToRetransmit` and `ReadyToSend` on the connection's buffer.
  unfoldable pub retransmit : ℕ → Option Ack → ℕ → Exec Line Packet
  retransmit stream_id ack now l = with_snd l (
      ready_to_retransmit stream_id ack host.mtu (rto_nano l.conn.measurements) (msg_type l.conn)
        now l.conn.snd)

  unfoldable pub next_packet : ℕ → Option Ack → ℕ → Exec Line Packet
  next_packet stream_id ack now l =
      let (snd, packet) = ready_to_send stream_id (msg_type l.conn) ack host.mtu now l.conn.snd in
      (record l { conn = record l.conn { snd = snd } }, ok packet)

  -- New data; else an ACK, or the first packet of a handshake.
  unfoldable pub flush_new : ℕ → Option Ack → ℕ → Packet → Exec Line (ℕ × ℕ)
  flush_new stream_id ack now (some split_data, offset, is_close) = do
    t ← gets (λ l. msg_type l.conn)
    send_packet stream_id ack split_data offset is_close t now true
  flush_new stream_id ack now (none, offset, is_close) = do
    sent ← gets (λ l. l.conn.is_init_sent_on_snd)
    if is_some ack || not sent then write_ack stream_id ack now else flush_ack stream_id ack now

  -- What follows the retransmission; during the handshake only one packet is sent.
  unfoldable pub flush_packet : ℕ → Option Ack → ℕ → Packet → Exec Line (ℕ × ℕ)
  flush_packet stream_id ack now (some split_data, offset, is_close) = do
    t ← gets (λ l. msg_type l.conn)
    modify (λ l. record l {
      conn = record l.conn { measurements = on_packet_loss l.conn.measurements };
    })
    send_packet stream_id ack split_data offset is_close t now false
  flush_packet stream_id ack now (none, offset, is_close) = do
    may_send ← gets (λ l. l.conn.is_handshake_done_on_rcv || not l.conn.is_init_sent_on_snd)
    if may_send
        then next_packet stream_id ack now >>= flush_new stream_id ack now
        else flush_ack stream_id ack now

  unfoldable pub flush_ready : ℕ → Option Ack → ℕ → Exec Line (ℕ × ℕ)
  flush_ready stream_id ack now = retransmit stream_id ack now >>= flush_packet stream_id ack now

  unfoldable pub flush : ℕ → ℕ → Exec Line (ℕ × ℕ)
  flush stream_id now = do
    ack ← on_conn take_ack
    conn ← gets (λ l. l.conn)
    if ltb now conn.next_write_time
        then return (0, conn.next_write_time - now)
        else if int_gt (u64 (conn.data_in_flight + host.mtu)) conn.rcv_wnd_size
        then flush_ack stream_id ack now
        else flush_ready stream_id ack now
