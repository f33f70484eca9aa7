-- ===== src/Snd/Integrity/History.antt =====
-- The runs of a send buffer: any order of calls, from a new buffer.
use qotp.Base.{
  take_all, ℕ, ◌+◌, ◌^◌, ◌<◌, ◌≡◌, sym, ◌&&◌, Option, List, [], ok, if◌then◌else◌, ltb, ◌==◌,
  length, take, u64, sub64, arith, if_elim, OnOk, EndsIn, EndsIn→OnOk, lookup,
}
use mathlib.Core.Path.{subst}
use qotp.Proto.{Ack}
use qotp.Crypto.{CryptoMsgType}
use qotp.Snd.{
  SendBuffer, InsertStatus, new_send_buffer, Packet, stream_of, queue_data, queue_ping,
  ready_to_send, ready_to_retransmit, acknowledge_range, close,
}
use qotp.Snd.Integrity.{Faithful, IsPacketOf, IsSmall, new_stream_buffer-Faithful}
use qotp.Snd.Integrity.Retransmit.{IsBackoffError, IsOverrun}
use qotp.Snd.Integrity.Buffer.{
  Written, append_at, Sound, accept-Sound, append-none, take-take, queue_ping-Sound, close-Sound,
  ready_to_send-Sound, ready_to_retransmit-Sound, acknowledge_range-Sound,
}

-- `w` has been accepted, stream by stream, when calls have led to `sb`. A call of `QueueData` that
-- took `n` bytes has accepted the first `n` of its data. A call that panics or fails leads nowhere.
pub data Reachable : Written → SendBuffer → Type 0 where
  start : (capacity : ℕ) → Reachable (λ stream_id. []) (new_send_buffer capacity)
  queued :
      (w : Written) (sb sb' : SendBuffer) (stream_id n : ℕ) (user_data : List ℕ)
      → (status : InsertStatus) → Reachable w sb
      → queue_data stream_id user_data sb ≡ ok (sb', n, status)
      → Reachable (append_at stream_id (take n user_data) w) sb'
  pinged :
      (w : Written) (sb : SendBuffer) (stream_id : ℕ)
      → Reachable w sb
      → Reachable w (queue_ping stream_id sb)
  closed :
      (w : Written) (sb : SendBuffer) (stream_id : ℕ)
      → Reachable w sb
      → Reachable w (close stream_id sb)
  sent :
      (w : Written) (sb : SendBuffer) (stream_id : ℕ) (msg_type : CryptoMsgType)
      → (ack : Option Ack) (mtu now : ℕ) → Reachable w sb
      → Reachable w (ready_to_send stream_id msg_type ack mtu now sb).0
  resent :
      (w : Written) (sb sb' : SendBuffer) (stream_id : ℕ) (ack : Option Ack)
      → (mtu expected_rto : ℕ) (msg_type : CryptoMsgType) (now : ℕ) (packet : Packet)
      → Reachable w sb
      → ready_to_retransmit stream_id ack mtu expected_rto msg_type now sb ≡ ok (sb', packet)
      → Reachable w sb'
  acknowledged :
      (w : Written) (sb : SendBuffer) (ack : Ack)
      → Reachable w sb
      → Reachable w (acknowledge_range ack sb).0

-- In the run, each packet of `ReadyToSend` holds fewer than 2 ^ 16 bytes, and no data that
-- `QueueData` is given would take a stream to 2 ^ 48 bytes: the widths of a `packetKey`.
abbrev pub IsShort : {w : Written} {sb : SendBuffer} → Reachable w sb → Type 0
IsShort (start capacity) = Unit
IsShort (queued w sb sb' stream_id n user_data status r e) =
    IsShort r × (length (w stream_id) + length user_data < 2 ^ 48)
IsShort (pinged w sb stream_id r) = IsShort r
IsShort (closed w sb stream_id r) = IsShort r
IsShort (sent w sb stream_id msg_type ack mtu now r) =
    IsShort r × IsSmall (ready_to_send stream_id msg_type ack mtu now sb).1
IsShort (resent w sb sb' stream_id ack mtu rto msg_type now packet r e) = IsShort r
IsShort (acknowledged w sb ack r) = IsShort r

queued-Sound :
    (w : Written) (stream_id : ℕ) (user_data : List ℕ) (sb : SendBuffer)
    → Sound w sb
    → length (w stream_id) + length user_data < 2 ^ 48
    → OnOk
        (λ r. Sound (append_at stream_id (take r.1 user_data) w) r.0)
        (queue_data stream_id user_data sb)
unfolding queue_data
queued-Sound w stream_id user_data sb sound total =
    let P = OnOk (λ r. Sound (append_at stream_id (take r.1 user_data) w) r.0) in
    let nothing : Sound (append_at stream_id [] w) sb =
      λ j. subst (λ xs. Faithful xs (stream_of j sb)) (sym (append-none w stream_id j)) (sound j) in
    let remaining = sub64 sb.capacity sb.size in
    if_elim P (length user_data == 0) (λ e. nothing)
      (λ some_data.
        if_elim P (remaining == 0) (λ e. nothing)
          (λ some_room.
            if_elim P (ltb sb.capacity sb.size && ltb sb.size (2 ^ 63)) (λ e. tt)
              (λ e.
                accept-Sound w stream_id user_data
                  (if ltb remaining (length user_data) then take remaining user_data else user_data)
                  (u64 (
                    sb.size
                    + length (
                        if ltb remaining (length user_data)
                        then take remaining user_data
                        else user_data)))
                  sb sound total
                  (if_elim (λ c. take (length c) user_data ≡ c) (ltb remaining (length user_data))
                    {x = take remaining user_data} {y = user_data}
                    (λ over. take-take user_data remaining)
                    (λ under. take_all user_data (length user_data) (omega arith))))))

start-Sound : (capacity : ℕ) → Sound (λ stream_id. []) (new_send_buffer capacity)
unfolding stream_of lookup
start-Sound capacity j = new_stream_buffer-Faithful

-- In every state that a short run of calls reaches, each stream's queue, the data in flight and its
-- offset agree with the bytes accepted for it so far.
pub Reachable-Sound : (w : Written) (sb : SendBuffer) (r : Reachable w sb) → IsShort r → Sound w sb
Reachable-Sound w sb (start capacity) short = start-Sound capacity
Reachable-Sound w' sb' (queued w sb _ stream_id n user_data status r e) short =
    let h = queued-Sound w stream_id user_data sb (Reachable-Sound w sb r short.0) short.1 in
    rw e at h
Reachable-Sound w' sb' (pinged w sb stream_id r) short =
    queue_ping-Sound w stream_id sb (Reachable-Sound w sb r short)
Reachable-Sound w' sb' (closed w sb stream_id r) short =
    close-Sound w stream_id sb (Reachable-Sound w sb r short)
Reachable-Sound w' sb' (sent w sb stream_id msg_type ack mtu now r) short =
    (ready_to_send-Sound w stream_id msg_type ack mtu now sb (Reachable-Sound w sb r short.0)
      short.1).0
Reachable-Sound w' sb' (resent w sb _ stream_id ack mtu rto msg_type now packet r e) short =
    let h =
      EndsIn→OnOk {A = SendBuffer × Packet} (λ r. Sound w r.0 × IsPacketOf (w stream_id) r.1)
        (IsBackoffError rto (stream_of stream_id sb))
        (IsOverrun mtu msg_type ack (stream_of stream_id sb))
        (ready_to_retransmit stream_id ack mtu rto msg_type now sb)
        (ready_to_retransmit-Sound w stream_id ack mtu rto msg_type now sb
          (Reachable-Sound w sb r short)) in
    (rw e at h).0
Reachable-Sound w' sb' (acknowledged w sb ack r) short =
    acknowledge_range-Sound w ack sb (Reachable-Sound w sb r short)

-- After any run of calls of a send buffer, with any mtu, in which each packet of `ReadyToSend` held
-- fewer than 2 ^ 16 bytes and no data given to `QueueData` would take a stream to 2 ^ 48 bytes: where the
-- next packet of `ReadyToSend` also holds fewer than 2 ^ 16 bytes, it is of the bytes that were
-- accepted for its stream, at the packet's offset.
pub Reachable-send :
    (w : Written) (sb : SendBuffer) (stream_id : ℕ) (msg_type : CryptoMsgType)
    → (ack : Option Ack) (mtu now : ℕ) (r : Reachable w sb) → IsShort r
    → IsSmall (ready_to_send stream_id msg_type ack mtu now sb).1
    → IsPacketOf (w stream_id) (ready_to_send stream_id msg_type ack mtu now sb).1
Reachable-send w sb stream_id msg_type ack mtu now r short small =
    (ready_to_send-Sound w stream_id msg_type ack mtu now sb (Reachable-Sound w sb r short) small).1

-- After any run of calls of a send buffer, with any mtu, in which each packet of `ReadyToSend` held
-- fewer than 2 ^ 16 bytes and no data given to `QueueData` would take a stream to 2 ^ 48 bytes,
-- `ReadyToRetransmit` returns a packet (or none) of the bytes that were accepted for its stream, at
-- the packet's offset, and a buffer that is still sound; or it gives the error of `backoff` for the
-- oldest packet of the stream; or it panics, and that packet is longer than the low 16 bits of its
-- room (mtu less overhead, as a uint64) and shorter than the whole of it.
pub Reachable-retransmit :
    (w : Written) (sb : SendBuffer) (stream_id : ℕ) (ack : Option Ack) (mtu expected_rto : ℕ)
    → (msg_type : CryptoMsgType) (now : ℕ) (r : Reachable w sb) → IsShort r
    → EndsIn
        (λ r. Sound w r.0 × IsPacketOf (w stream_id) r.1)
        (IsBackoffError expected_rto (stream_of stream_id sb))
        (IsOverrun mtu msg_type ack (stream_of stream_id sb))
        (ready_to_retransmit stream_id ack mtu expected_rto msg_type now sb)
Reachable-retransmit w sb stream_id ack mtu expected_rto msg_type now r short =
    ready_to_retransmit-Sound w stream_id ack mtu expected_rto msg_type now sb
      (Reachable-Sound w sb r short)

-- After any run of calls of a send buffer, with any mtu, in which each packet of `ReadyToSend` held
-- fewer than 2 ^ 16 bytes and no data given to `QueueData` would take a stream to 2 ^ 48 bytes, on each
-- stream: the queue holds the bytes accepted beyond the offset that was sent; every packet in flight
-- holds the bytes accepted at its offset, as many as its key says, all of them sent; and the ranges of
-- two packets in flight do not overlap.
pub Reachable-Faithful :
    (w : Written) (sb : SendBuffer) (stream_id : ℕ) (r : Reachable w sb)
    → IsShort r
    → Faithful (w stream_id) (stream_of stream_id sb)
Reachable-Faithful w sb stream_id r short = Reachable-Sound w sb r short stream_id
