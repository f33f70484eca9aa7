-- ===== src/Snd/Integrity/Steps.antt =====
-- `ReadyToSend` on one stream.
use qotp.Base.{
  ℕ, ◌+◌, ◌^◌, ◌<◌, ◌≡◌, ◌≢◌, refl, min, true, false, not, Option, none, some, List, [], ◌∷◌, ◌==◌,
  length, take, drop, u64, u16, arith, All, if_elim, length-take, IsSlice-nil, IsSlice-take,
}
use qotp.Entries
use qotp.Entries.{Entries}
use qotp.Proto.{Ack}
use qotp.Crypto.{CryptoMsgType}
use qotp.Snd.{
  SendInfo, StreamBuffer, create_packet_key, max_data, new_send_info, Packet, send_stream,
  reaches_close,
}
use qotp.Snd.Integrity.{
  Faithful, IsPacketOf, IsSmall, key_fields, queued-length, queued-IsSlice, with_empty, with_sent,
}

-- The state and the packet that a call returned agree with the bytes written.
abbrev pub IsStepOf : List ℕ → StreamBuffer × Packet → Type 0
IsStepOf w r = Faithful w r.0 × IsPacketOf w r.1

-- `ReadyToSend` on a faithful stream, where its packet holds fewer than 2 ^ 16 bytes, leaves it
-- faithful, and what it hands out are the bytes that were written at the offset of the packet.
pub send_stream-Faithful :
    (w : List ℕ) (msg_type : CryptoMsgType) (ack : Option Ack) (mtu now : ℕ) (s : StreamBuffer)
    → Faithful w s
    → IsSmall (send_stream msg_type ack mtu now s).1
    → IsStepOf w (send_stream msg_type ack mtu now s)
unfolding send_stream
send_stream-Faithful w msg_type ack mtu now s f =
    let P : StreamBuffer × Packet → Type 0 = λ r. IsSmall r.1 → IsStepOf w r in
    let n = min (max_data mtu msg_type ack s.bytes_sent_offset) (length s.queued_data) in
    let total = queued-length w s f in
    let at_end = key_fields s.bytes_sent_offset 0 (omega (arith, f.sent, f.small)) (omega arith) in
    if_elim P s.ping_request (λ ping small. (with_empty w s f now true false, IsSlice-nil w 0))
      (λ quiet.
        if_elim P (length s.queued_data == 0)
          (λ empty.
            if_elim P (not (reaches_close s.close_at_offset s.bytes_sent_offset))
              (λ open_yet small. (f, tt))
              (λ closing small. (with_empty w s f now false s.ping_request, IsSlice-nil w _)))
          (λ more small.
            let size = length-take n s.queued_data in
            let short : n < 2 ^ 16 = omega (arith, small, size) in
            let short16 : u16 n ≡ n = omega arith in
            let at_start =
              key_fields s.bytes_sent_offset n (omega (arith, f.sent, f.small)) short in
            (
              with_sent w s f n now (omega arith) short,
              rw (short16, at_start.0)
                  (IsSlice-take w s.bytes_sent_offset n s.queued_data (queued-IsSlice w s f)),
            )))

-- The first `n` bytes of the queue have gone in flight.
abbrev pub with_front_sent : ℕ → ℕ → StreamBuffer → StreamBuffer
with_front_sent n now s = record s {
  data_in_flight_map =
      Entries.put (create_packet_key s.bytes_sent_offset n)
        (new_send_info (take n s.queued_data) now false) s.data_in_flight_map;
  queued_data = drop n s.queued_data;
  bytes_sent_offset = s.bytes_sent_offset + n;
}

-- Queued data go out in order: where no ping is due, the packet starts at the offset that was
-- reached, takes as many bytes as there is room for, and moves the offset behind them.
pub send_stream_new :
    (msg_type : CryptoMsgType) (ack : Option Ack) (mtu now : ℕ) (s : StreamBuffer)
    → let n = min (max_data mtu msg_type ack s.bytes_sent_offset) (length s.queued_data) in
      s.ping_request ≡ false
      → 0 < length s.queued_data
      → n < 2 ^ 16
      → s.bytes_sent_offset + n < 2 ^ 48
      → send_stream msg_type ack mtu now s ≡ (
        with_front_sent n now s,
        (
          some (take n s.queued_data),
          s.bytes_sent_offset,
          reaches_close s.close_at_offset (s.bytes_sent_offset + n),
        ),
      )
unfolding send_stream
send_stream_new msg_type ack mtu now s quiet more short fits =
    let n = min (max_data mtu msg_type ack s.bytes_sent_offset) (length s.queued_data) in
    let at_start = key_fields s.bytes_sent_offset n (omega arith) short in
    let short16 : u16 n ≡ n = omega arith in
    let fits64 : u64 (s.bytes_sent_offset + n) ≡ s.bytes_sent_offset + n = omega arith in
    let some_left : (length s.queued_data == 0) ≡ false = ground arith in
    rw (quiet, some_left, short16, at_start.0, fits64) refl

-- A key of a range apart from another is not its key, where that range has bytes.
pub get-apart : (k : ℕ) (m : Entries SendInfo) → All (λ e. e.0 ≢ k) m → Entries.get k m ≡ none
unfolding Entries.get
get-apart k [] h = refl
get-apart k ((j, v) ∷ m) h = ground (arith, get-apart k m h.1)
