-- ===== src/Snd/Tests.antt =====
-- Runs of the send buffer, and the theorems at one run: ten bytes are accepted for a stream, sent in
-- one packet, and sent again in two.
use qotp.Base.{
  ℕ, ◌≡◌, refl, false, min, none, some, List, [], ◌∷◌, ok, Returns, EndsIn, length-take, arith,
  take,
}
use qotp.Base.{insert, lookup}
use qotp.Entries
use qotp.Measurement.{backoff_loop}
use qotp.Crypto.{CryptoMsgType}
use qotp.Snd.{
  SendBuffer, InsertStatus, new_send_buffer, stream_of, queue_data, ready_to_send,
  ready_to_retransmit, max_data,
}
use qotp.Snd.Integrity.{Faithful, IsPacketOf, IsSmall}
use qotp.Snd.Integrity.Retransmit.{IsOverrun, IsBackoffError}
use qotp.Snd.Integrity.Buffer.{Written, append_at, Sound, IsQueued, queue_data-Sound}
use qotp.Snd.Integrity.History.{
  Reachable, start, queued, sent, Reachable-send, Reachable-retransmit, Reachable-Faithful,
  Reachable-Sound, IsShort,
}

abbrev ten : List ℕ
ten = 0 ∷ 1 ∷ 2 ∷ 3 ∷ 4 ∷ 5 ∷ 6 ∷ 7 ∷ 8 ∷ 9 ∷ []

-- The buffer has room for 8 of the ten bytes.
abbrev after_queue : SendBuffer
after_queue = record {
  streams =
      (
        1,
        record {
          data_in_flight_map = [];
          queued_data = take 8 ten;
          bytes_sent_offset = 0;
          ping_request = false;
          close_at_offset = none;
        },
      )
      ∷ [];
  capacity = 8;
  size = 8;
}

queue_run : queue_data 1 ten (new_send_buffer 8) ≡ ok (after_queue, 8, InsertStatus.snd_full)
unfolding queue_data insert lookup
queue_run = refl

abbrev accepted : Written
accepted = append_at 1 (take 8 ten) (λ stream_id. [])

abbrev queue_only : Reachable accepted after_queue
queue_only =
    queued (λ stream_id. []) (new_send_buffer 8) after_queue 1 8 ten InsertStatus.snd_full (start 8)
      queue_run

abbrev after_send : SendBuffer
after_send = (ready_to_send 1 CryptoMsgType.data_msg none 1400 5 after_queue).0

abbrev queue_and_send : Reachable accepted after_send
queue_and_send = sent accepted after_queue 1 CryptoMsgType.data_msg none 1400 5 queue_only

queue_only-IsShort : IsShort queue_only
queue_only-IsShort = (tt, omega arith)

-- Eight bytes fit any packet.
sent-IsSmall : (mtu : ℕ) → IsSmall (ready_to_send 1 CryptoMsgType.data_msg none mtu 5 after_queue).1
unfolding ready_to_send lookup insert
sent-IsSmall mtu =
    let n = min (max_data mtu CryptoMsgType.data_msg none 0) 8 in
    omega (arith, length-take n (take 8 ten))

queue_and_send-IsShort : IsShort queue_and_send
queue_and_send-IsShort = (queue_only-IsShort, sent-IsSmall 1400)

Reachable-Faithful_example : Faithful (accepted 1) (stream_of 1 after_send)
Reachable-Faithful_example =
    Reachable-Faithful accepted after_send 1 queue_and_send queue_and_send-IsShort

-- The mtu is below the overhead.
Reachable-send_example :
    IsPacketOf (accepted 1) (ready_to_send 1 CryptoMsgType.data_msg none 20 5 after_queue).1
Reachable-send_example =
    Reachable-send accepted after_queue 1 CryptoMsgType.data_msg none 20 5 queue_only
      queue_only-IsShort (sent-IsSmall 20)

Reachable-retransmit_example :
    EndsIn
      (λ r. Sound accepted r.0 × IsPacketOf (accepted 1) r.1)
      (IsBackoffError 200_000_000 (stream_of 1 after_send))
      (IsOverrun 45 CryptoMsgType.data_msg none (stream_of 1 after_send))
      (ready_to_retransmit 1 none 45 200_000_000 CryptoMsgType.data_msg 900_000_000 after_send)
Reachable-retransmit_example =
    Reachable-retransmit accepted after_send 1 none 45 200_000_000 CryptoMsgType.data_msg
      900_000_000 queue_and_send queue_and_send-IsShort

-- The packet is split: its first part is handed out.
split_run :
    Returns
      (λ r. r.1 ≡ (some (take 6 ten), 0, false))
      (ready_to_retransmit 1 none 45 200_000_000 CryptoMsgType.data_msg 900_000_000 after_send)
unfolding ready_to_retransmit ready_to_send insert lookup Entries.first Entries.put backoff_loop
split_run = refl

new_buffer-Sound : Sound (λ stream_id. []) (new_send_buffer 8)
new_buffer-Sound = Reachable-Sound (λ stream_id. []) (new_send_buffer 8) (start 8) tt

queue_data-Sound_example :
    Returns
      (IsQueued (λ stream_id. []) 1 ten (new_send_buffer 8))
      (queue_data 1 ten (new_send_buffer 8))
queue_data-Sound_example =
    queue_data-Sound (λ stream_id. []) 1 ten (new_send_buffer 8) new_buffer-Sound (omega arith)
      (omega arith) (omega arith)
