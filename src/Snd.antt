-- ===== src/Snd.antt =====
-- The send buffer of snd.go: `SendBuffer` over its streams. `dataInFlightMap` is an ordered map, and
-- the program's pointers into it are followed by writing the changed `SendInfo` back. A method
-- returns the new buffer beside its results; its lock is taken for its whole body. `size` and the
-- lengths are ints: the bit pattern of a negative int is 2 ^ 63 or more.
pub mod Integrity
mod Tests
use qotp.Base.{
  ℕ, zero, suc, ◌+◌, ◌-◌, ◌*◌, ◌/◌, ◌%◌, ◌^◌, ◌<◌, min, Bool, true, false, not, ◌&&◌, ◌||◌, Option,
  none, some, List, [], ◌∷◌, ◌++◌, Run, ok, err, panic, ◌>>=◌, if◌then◌else◌, ltb, leb, ◌==◌,
  length, take, drop, u64, u16, sub64, is_some,
}
use qotp.Entries
use qotp.Entries.{Entries}
use qotp.Base.{lookup, insert}
use qotp.Proto.{Ack}
use qotp.Crypto.{
  CryptoMsgType, init_snd, init_rcv, init_crypto_snd, init_crypto_rcv, data_msg,
  calc_crypto_overhead_with_data,
}
use qotp.Measurement.{backoff}

pub data InsertStatus : Type 0 where
  insert_ok snd_full no_data : InsertStatus

pub data AckStatus : Type 0 where
  ack_ok ack_no_stream ack_dup : AckStatus

pub record SendInfo : Type 0 where
  pub payload : List ℕ
  pub sent_time_nano : ℕ
  pub sent_nr : ℕ
  pub ping_request : Bool

pub record StreamBuffer : Type 0 where
  pub data_in_flight_map : Entries SendInfo
  pub queued_data : List ℕ
  pub bytes_sent_offset : ℕ
  pub ping_request : Bool
  pub close_at_offset : Option ℕ

pub record SendBuffer : Type 0 where
  pub streams : List (ℕ × StreamBuffer)
  pub capacity : ℕ
  pub size : ℕ

abbrev pub new_stream_buffer : StreamBuffer
new_stream_buffer = record {
  data_in_flight_map = [];
  queued_data = [];
  bytes_sent_offset = 0;
  ping_request = false;
  close_at_offset = none;
}

abbrev pub new_send_buffer : ℕ → SendBuffer
new_send_buffer capacity = record { streams = []; capacity = capacity; size = 0 }

-- `packetKey`: 48 bits of offset over 16 bits of length. The `|` is of disjoint bits.
unfoldable pub create_packet_key : ℕ → ℕ → ℕ
create_packet_key offset len = u64 (offset * 2 ^ 16) + len

unfoldable pub key_offset : ℕ → ℕ
key_offset p = p / 2 ^ 16

unfoldable pub key_length : ℕ → ℕ
key_length p = p % 2 ^ 16

abbrev pub or_new : Option StreamBuffer → StreamBuffer
or_new none = new_stream_buffer
or_new (some s) = s

-- `getOrCreateStream`: the stream, which the callers below write back.
unfoldable pub stream_of : ℕ → SendBuffer → StreamBuffer
stream_of stream_id sb = or_new (lookup stream_id sb.streams)

unfoldable pub new_send_info : List ℕ → ℕ → Bool → SendInfo
new_send_info payload now is_ping = record {
  payload = payload;
  sent_time_nano = now;
  sent_nr = 1;
  ping_request = is_ping;
}

-- A negative remainder of capacity would make the slice expression panic.
unfoldable pub queue_data : ℕ → List ℕ → SendBuffer → Run (SendBuffer × ℕ × InsertStatus)
unfolding stream_of
queue_data stream_id user_data sb =
    if length user_data == 0
    then ok (sb, 0, no_data)
    else let remaining = sub64 sb.capacity sb.size in
      if remaining == 0
      then ok (sb, 0, snd_full)
      else if ltb sb.capacity sb.size && ltb sb.size (2 ^ 63)
      then panic
      else let full = ltb remaining (length user_data) in
        let chunk = if full then take remaining user_data else user_data in
        let n = length chunk in
        let stream = stream_of stream_id sb in
        ok (
          record sb {
            streams =
                insert stream_id (record stream { queued_data = stream.queued_data ++ chunk })
                  sb.streams;
            size = u64 (sb.size + n);
          },
          n,
          if full then snd_full else insert_ok,
        )

unfoldable pub queue_ping : ℕ → SendBuffer → SendBuffer
unfolding stream_of
queue_ping stream_id sb = record sb {
  streams = insert stream_id (record (stream_of stream_id sb) { ping_request = true }) sb.streams;
}

-- `maxData`: what the packet has room for. An int that is negative reads as a large uint64.
unfoldable pub max_data : ℕ → CryptoMsgType → Option Ack → ℕ → ℕ
unfolding calc_crypto_overhead_with_data
max_data mtu init_snd ack offset = 0
max_data mtu msg_type ack offset = elim (calc_crypto_overhead_with_data msg_type ack offset) [
  | none ↦ mtu + 1
  | some overhead ↦ sub64 mtu overhead
]

-- `stream.closeAtOffset != nil && offset >= *stream.closeAtOffset`
abbrev pub reaches_close : Option ℕ → ℕ → Bool
reaches_close none offset = false
reaches_close (some close) offset = leb close offset

-- What a call hands out: the data (or nil), its offset, and whether to mark the packet as closing.
abbrev pub Packet : Type 0
Packet = Option (List ℕ) × ℕ × Bool

abbrev pub no_packet : Packet
no_packet = (none, 0, false)

-- `ReadyToSend` on the stream that it found.
unfoldable pub send_stream :
    CryptoMsgType → Option Ack → ℕ → ℕ → StreamBuffer → StreamBuffer × Packet
unfolding create_packet_key key_offset new_send_info max_data
send_stream msg_type ack mtu now s =
    if s.ping_request
    then (
      record s {
        ping_request = false;
        data_in_flight_map =
            Entries.put (create_packet_key s.bytes_sent_offset 0) (new_send_info [] now true)
              s.data_in_flight_map;
      },
      (some [], 0, false),
    )
    else if length s.queued_data == 0
    then if not (reaches_close s.close_at_offset s.bytes_sent_offset) then (s, no_packet) else (
      record s {
        data_in_flight_map =
            Entries.put (create_packet_key s.bytes_sent_offset 0) (new_send_info [] now false)
              s.data_in_flight_map;
      },
      (some [], key_offset (create_packet_key s.bytes_sent_offset 0), true),
    )
    else let len = min (max_data mtu msg_type ack s.bytes_sent_offset) (length s.queued_data) in
      let packet_data = take len s.queued_data in
      let key = create_packet_key s.bytes_sent_offset (u16 len) in
      let sent = u64 (s.bytes_sent_offset + len) in
      (
        record s {
          data_in_flight_map =
              Entries.put key (new_send_info packet_data now false) s.data_in_flight_map;
          queued_data = drop len s.queued_data;
          bytes_sent_offset = sent;
        },
        (some packet_data, key_offset key, reaches_close s.close_at_offset sent),
      )

unfoldable pub ready_to_send :
    ℕ → CryptoMsgType → Option Ack → ℕ → ℕ → SendBuffer → SendBuffer × Packet
unfolding send_stream
ready_to_send stream_id msg_type ack mtu now sb = elim (lookup stream_id sb.streams) [
  | none ↦ (sb, no_packet)
  | some s ↦
      let (s', packet) = send_stream msg_type ack mtu now s in
      (record sb { streams = insert stream_id s' sb.streams }, packet)
]

-- The resend of the oldest packet, once its timeout has passed: whole, or split at `max`. The right
-- half keeps the packet's `SendInfo`, so its data also changes where `Replace` refuses.
unfoldable pub resend : ℕ → ℕ → ℕ → SendInfo → StreamBuffer → Run (StreamBuffer × Packet)
unfolding create_packet_key key_offset
resend max now key info s =
    let len = u16 (length info.payload) in
    if leb len (u16 max)
    then ok (
      record s {
        data_in_flight_map =
            Entries.put key (record info { sent_time_nano = now; sent_nr = info.sent_nr + 1 })
              s.data_in_flight_map;
      },
      (
        some info.payload,
        key_offset key,
        reaches_close s.close_at_offset (u64 (key_offset key + len)),
      ),
    )
    else if ltb (length info.payload) max
    then panic
    else let left_data = take max info.payload in
      let right_data = drop max info.payload in
      let left_key = create_packet_key (key_offset key) (u16 max) in
      let left_info : SendInfo = record {
        payload = left_data;
        sent_time_nano = now;
        sent_nr = info.sent_nr + 1;
        ping_request = false;
      } in
      let right_key = create_packet_key (u64 (key_offset key + max)) (u16 (length right_data)) in
      let right_info = record info { payload = right_data } in
      let with_left = Entries.put left_key left_info s.data_in_flight_map in
      let changed = if left_key == key then with_left else Entries.put key right_info with_left in
      ok (
        record s { data_in_flight_map = (Entries.replace key right_key right_info changed).0 },
        (some left_data, key_offset key, false),
      )

-- `ReadyToRetransmit` on the stream that it found.
unfoldable pub retransmit_stream :
    Option Ack → ℕ → ℕ → CryptoMsgType → ℕ → StreamBuffer → Run (StreamBuffer × Packet)
unfolding resend max_data key_offset backoff
retransmit_stream ack mtu expected_rto msg_type now s = elim (Entries.first s.data_in_flight_map) [
  | none ↦ ok (s, no_packet)
  | some (key, info) ↦ do
    expected ← backoff expected_rto info.sent_nr
    if leb (sub64 now info.sent_time_nano) expected
        then ok (s, no_packet)
        else if info.ping_request
        then ok
            (record s { data_in_flight_map = Entries.remove key s.data_in_flight_map }, no_packet)
        else resend (max_data mtu msg_type ack (key_offset key)) now key info s
]

unfoldable pub ready_to_retransmit :
    ℕ → Option Ack → ℕ → ℕ → CryptoMsgType → ℕ → SendBuffer → Run (SendBuffer × Packet)
unfolding retransmit_stream
ready_to_retransmit stream_id ack mtu expected_rto msg_type now sb =
    elim (lookup stream_id sb.streams) [
      | none ↦ ok (sb, no_packet)
      | some s ↦ do
        (s', packet) ← retransmit_stream ack mtu expected_rto msg_type now s
        ok (record sb { streams = insert stream_id s' sb.streams }, packet)
    ]

unfoldable pub acknowledge_range : Ack → SendBuffer → SendBuffer × AckStatus × ℕ
unfolding create_packet_key
acknowledge_range ack sb = elim (lookup ack.stream_id sb.streams) [
  | none ↦ (sb, ack_no_stream, 0)
  | some s ↦
      let key = create_packet_key ack.offset ack.len in
      elim (Entries.get key s.data_in_flight_map) [
        | none ↦ (sb, ack_dup, 0)
        | some info ↦ (
          record sb {
            streams =
                insert ack.stream_id
                  (record s { data_in_flight_map = Entries.remove key s.data_in_flight_map })
                  sb.streams;
            size = sub64 sb.size (length info.payload);
          },
          ack_ok,
          info.sent_time_nano,
        )
      ]
]

unfoldable pub get_offset_acked : ℕ → SendBuffer → ℕ
unfolding key_offset
get_offset_acked stream_id sb = elim (lookup stream_id sb.streams) [
  | none ↦ 0
  | some s ↦ elim (Entries.first s.data_in_flight_map) [
    | some (key, info) ↦ key_offset key
    | none ↦ s.bytes_sent_offset
  ]
]

unfoldable pub get_offset_closed_at : ℕ → SendBuffer → Option ℕ
get_offset_closed_at stream_id sb = elim (lookup stream_id sb.streams) [
  | none ↦ none
  | some s ↦ s.close_at_offset
]

unfoldable pub close : ℕ → SendBuffer → SendBuffer
unfolding stream_of
close stream_id sb =
    let s = stream_of stream_id sb in
    let at : Option ℕ = elim s.close_at_offset [
      | none ↦ some (u64 (s.bytes_sent_offset + length s.queued_data))
      | some offset ↦ some offset
    ] in
    record sb { streams = insert stream_id (record s { close_at_offset = at }) sb.streams }
