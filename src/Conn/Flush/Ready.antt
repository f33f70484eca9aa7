-- ===== src/Conn/Flush/Ready.antt =====
-- What the send buffer answers `Flush` for a stream with data to send and nothing to send again.
use qotp.Base.{
  ℕ, ◌+◌, ◌-◌, ◌*◌, ◌^◌, ◌≤◌, ◌<◌, ◌≡◌, refl, arith, min, false, true, Option, some, [], ◌∷◌, ok,
  leb, sub64, ==_self, lookup, insert, lookup-insert, insert-insert, ◌∙◌, length, take, AllSome,
}
use qotp.Entries
use qotp.Entries.{Entries}
use qotp.Proto.{Ack, calc_proto_overhead}
use qotp.Crypto.{CryptoMsgType, data_msg, calc_crypto_overhead_with_data}
use qotp.Measurement.{Measurements, backoff, rto_nano, max_rto}
use qotp.Measurement.Pacing.{backoff_lem}
use qotp.Snd.{
  SendInfo, SendBuffer, StreamBuffer, max_data, no_packet, reaches_close, retransmit_stream,
  ready_to_send, ready_to_retransmit,
}
use qotp.Snd.Integrity.Steps.{with_front_sent, send_stream_new}

-- A packet in flight was sent 1 to 5 times, and its timeout, of 2 ^ (n - 1) times `rto` after the
-- n-th time, has not passed.
abbrev InTime : ℕ → ℕ → ℕ × SendInfo → Type 0
InTime rto now (key, info) =
    (1 ≤ info.sent_nr)
    × (info.sent_nr ≤ 5)
    × (info.sent_time_nano ≤ now)
    × (now - info.sent_time_nano ≤ rto * 2 ^ (info.sent_nr - 1))

-- Nothing is in flight on the stream, or the oldest packet is in time.
abbrev pub Waiting : ℕ → ℕ → StreamBuffer → Type 0
Waiting rto now s = AllSome (InTime rto now) (Entries.first s.data_in_flight_map)

pub rto_nano-le-max_rto : (m : Measurements) → rto_nano m ≤ max_rto
unfolding rto_nano
rto_nano-le-max_rto m = ground arith

-- A data packet has room for data.
pub max_data-positive :
    (mtu : ℕ) (ack : Option Ack) (offset : ℕ)
    → 128 ≤ mtu
    → mtu < 2 ^ 16
    → (0 < max_data mtu data_msg ack offset) × (max_data mtu data_msg ack offset < 2 ^ 16)
unfolding max_data calc_crypto_overhead_with_data calc_proto_overhead
max_data-positive mtu ack offset large small = ground arith

backoff_in_time :
    (rto n : ℕ) → rto ≤ max_rto → 1 ≤ n → n ≤ 5 → backoff rto n ≡ ok (rto * 2 ^ (n - 1))
backoff_in_time rto n bound positive few = backoff_lem rto n bound ∙ ground arith

module _ (ack : Option Ack) (mtu rto : ℕ) (bound : rto ≤ max_rto) (t : CryptoMsgType) (now : ℕ)
    (now64 : now < 2 ^ 64) where
  retransmit_first-Waiting :
      (s : StreamBuffer) (m : Entries SendInfo)
      → s.data_in_flight_map ≡ m
      → Waiting rto now s
      → retransmit_stream ack mtu rto t now s ≡ ok (s, no_packet)
  unfolding retransmit_stream Entries.first
  retransmit_first-Waiting s [] at w = rw at refl
  retransmit_first-Waiting s ((key, info) ∷ rest) at w =
      let w' : InTime rto now (key, info) = rw at at w in
      let early : leb (sub64 now info.sent_time_nano) (rto * 2 ^ (info.sent_nr - 1)) ≡ true =
        ground (arith, w') in
      rw (at, backoff_in_time rto info.sent_nr bound w'.0 w'.1, early) refl

  pub ready_to_retransmit-Waiting :
      (stream_id : ℕ) (sb : SendBuffer) (s : StreamBuffer)
      → lookup stream_id sb.streams ≡ some s
      → Waiting rto now s
      → ready_to_retransmit stream_id ack mtu rto t now sb
        ≡ ok (record sb { streams = insert stream_id s sb.streams }, no_packet)
  unfolding ready_to_retransmit
  ready_to_retransmit-Waiting stream_id sb s found w =
      rw (ready_to_retransmit, found, retransmit_first-Waiting s s.data_in_flight_map refl w) refl

pub ready_to_send_new :
    (stream_id : ℕ) (t : CryptoMsgType) (ack : Option Ack) (mtu now : ℕ) (sb : SendBuffer)
    → (s : StreamBuffer)
    → let n = min (max_data mtu t ack s.bytes_sent_offset) (length s.queued_data) in
      s.ping_request ≡ false
      → 0 < length s.queued_data
      → n < 2 ^ 16
      → s.bytes_sent_offset + n < 2 ^ 48
      → ready_to_send stream_id t ack mtu now
          (record sb { streams = insert stream_id s sb.streams })
        ≡ (
          record sb { streams = insert stream_id (with_front_sent n now s) sb.streams },
          (
            some (take n s.queued_data),
            s.bytes_sent_offset,
            reaches_close s.close_at_offset (s.bytes_sent_offset + n),
          ),
        )
unfolding ready_to_send
ready_to_send_new stream_id t ack mtu now sb s quiet more short fits =
    let n = min (max_data mtu t ack s.bytes_sent_offset) (length s.queued_data) in
    rw
      (
        ready_to_send,
        lookup-insert stream_id stream_id s sb.streams,
        ==_self stream_id,
        send_stream_new t ack mtu now s quiet more short fits,
        insert-insert stream_id s (with_front_sent n now s) sb.streams,
      )
      refl
