-- ===== src/Conn/Tests.antt =====
-- Runs of conn.go and of `encode`, with a toy library, and the theorems at one input each.
use qotp.Base.{
  suc, ◌+◌, ◌-◌, ◌^◌, arith, u64, ℕ, ◌≡◌, refl, true, false, none, some, List, [], ◌∷◌, ok, ◌>>=◌,
  insert, lookup, min, take, length, ◌<◌,
}
use qotp.Entries
use qotp.Base.Exec.{OnReturn}
use qotp.Proto.{Ack, PayloadHeader}
use qotp.Crypto.Toy.{toy, toy_suite}
use qotp.Crypto.{CryptoMsgType}
use qotp.Measurement.{backoff_loop, new_measurements, rto_nano, calc_pacing}
use qotp.Snd.{
  SendBuffer, StreamBuffer, max_data, new_stream_buffer, acknowledge_range, ready_to_retransmit,
  get_offset_closed_at, get_offset_acked,
}
use qotp.Rcv.{new_receive_buffer, get_snd_ack}
use qotp.Conn.{Conn, AddrPort, Host, check_stream_fully_acked}
use qotp.Conn.Encrypt.{encrypt}
use qotp.Conn.Encode.{encode}
use qotp.Conn.Encode.Numbers.{
  InRange, number, with_number, counted, encode-counted, Sending, Rising, Sending-Rising,
}
use qotp.Conn.Encode.Data.{data_packet, encode_data_lem}
use qotp.Conn.Flush.{Line, flush}
use qotp.Conn.Flush.Ready.{Waiting}
use qotp.Snd.Integrity.Steps.{with_front_sent}
use qotp.Conn.Flush.Window.{Timely, flush-Flushed}
use qotp.Conn.Flush.Progress.{line_after, flush-sends}

abbrev ten : List ℕ
ten = 0 ∷ 1 ∷ 2 ∷ 3 ∷ 4 ∷ 5 ∷ 6 ∷ 7 ∷ 8 ∷ 9 ∷ []

-- Ten bytes and the empty packet that closes the stream behind them are in flight.
abbrev closing : SendBuffer
closing = record {
  streams =
      (
        1,
        record {
          data_in_flight_map =
              (10, record { payload = ten; sent_time_nano = 5; sent_nr = 1; ping_request = false })
              ∷ (
                655_360,
                record { payload = []; sent_time_nano = 6; sent_nr = 1; ping_request = false },
              )
              ∷ [];
          queued_data = [];
          bytes_sent_offset = 10;
          ping_request = false;
          close_at_offset = some 10;
        },
      )
      ∷ [];
  capacity = 100;
  size = 10;
}

abbrev last_four : Ack
last_four = record { stream_id = 1; offset = 6; len = 4; rcv_wnd = 0 }

-- The ten bytes are sent again in two packets, of which only the second is acknowledged: the stream
-- counts as acknowledged to its end.
unacked_front_run :
    ready_to_retransmit 1 none 45 200_000_000 CryptoMsgType.data_msg 900_000_000 closing >>= (λ r.
      ready_to_retransmit 1 none 45 200_000_000 CryptoMsgType.data_msg 1_900_000_000 r.0 >>= λ r'.
      ok (check_stream_fully_acked 1 (acknowledge_range last_four r'.0).0))
    ≡ ok true
unfolding ready_to_retransmit acknowledge_range check_stream_fully_acked Entries.first Entries.put
    Entries.get Entries.replace Entries.rename Entries.remove insert lookup backoff_loop
    get_offset_closed_at get_offset_acked
unacked_front_run = refl

-- A connection after its handshake, with two bytes in flight and two to send on stream 0.
abbrev an_addr : AddrPort
an_addr = record { addr = 127 ∷ 0 ∷ 0 ∷ 1 ∷ []; port = 8888 }

abbrev a_secret : List ℕ
a_secret = 1 ∷ 2 ∷ []

abbrev a_host : Host
a_host = record { prv_key_id = 5 ∷ []; mtu = 1400 }

abbrev a_stream : StreamBuffer
a_stream = record new_stream_buffer {
  data_in_flight_map =
      (2, record { payload = 5 ∷ 6 ∷ []; sent_time_nano = 20; sent_nr = 1; ping_request = false })
      ∷ [];
  queued_data = 7 ∷ 8 ∷ [];
  bytes_sent_offset = 2;
}

abbrev queued : SendBuffer
queued = record { streams = (0, a_stream) ∷ []; capacity = 100; size = 4 }

abbrev a_conn : Conn
a_conn = record {
  conn_id = 77;
  remote_addr = an_addr;
  streams = [];
  prv_key_ep_snd = none;
  pub_key_ep_rcv = none;
  pub_key_id_rcv = none;
  shared_secret = some a_secret;
  snd = queued;
  rcv = new_receive_buffer 100;
  data_in_flight = 2;
  rcv_wnd_size = 2000;
  is_sender_on_init = true;
  is_with_crypto_on_init = false;
  is_handshake_done_on_rcv = true;
  is_init_sent_on_snd = true;
  next_write_time = 10;
  sn_crypto = 2 ^ 48 - 1;
  epoch_crypto_snd = 3;
  epoch_crypto_rcv = 3;
  measurements = new_measurements;
}

abbrev a_line : Line
a_line = record { conn = a_conn; written = [] }

a_conn-InRange : InRange a_conn
a_conn-InRange = record { sn = omega arith; epoch = omega arith }

abbrev a_payload : PayloadHeader
a_payload = record { is_close = false; ack = none; stream_id = 0; stream_offset = 0 }

encode-counted_example :
    encode toy a_host a_payload (some []) CryptoMsgType.data_msg a_conn
    ≡ counted a_conn
        (encrypt toy a_host a_payload (some []) CryptoMsgType.data_msg a_conn)
        CryptoMsgType.data_msg
encode-counted_example =
    encode-counted toy a_host a_payload (some []) CryptoMsgType.data_msg a_conn a_conn-InRange

-- One packet of the connection, the last one of its epoch.
one_packet :
    Sending toy a_host a_conn (number a_conn ∷ []) (with_number (suc (number a_conn)) a_conn)
one_packet =
    Sending.packet [] a_conn (with_number (suc (number a_conn)) a_conn) a_payload (some [])
      CryptoMsgType.data_msg
      (data_packet toy a_secret (toy_suite a_secret) a_host a_conn refl a_payload (some []))
      Sending.start
      (encode_data_lem toy a_secret (toy_suite a_secret) a_host a_conn refl a_payload (some [])
        a_conn-InRange (λ e. omega arith))

Sending-Rising_example :
    InRange (with_number (suc (number a_conn)) a_conn)
    × Rising toy a_host (number (with_number (suc (number a_conn)) a_conn)) (number a_conn ∷ [])
Sending-Rising_example =
    Sending-Rising toy a_host a_conn (with_number (suc (number a_conn)) a_conn) (number a_conn ∷ [])
      a_conn-InRange one_packet

flush-Flushed_example :
    OnReturn (Timely 50 a_line) (flush toy a_host (λ packet addr now. true) 0 50 a_line)
flush-Flushed_example =
    flush-Flushed toy a_host (λ packet addr now. true) a_line 0 50 (omega arith) (omega arith)
      (omega arith)

a_stream-Waiting : Waiting (rto_nano new_measurements) 50 a_stream
unfolding rto_nano Entries.first
a_stream-Waiting = (omega arith, omega arith, omega arith, omega arith)

in_queue : lookup 0 queued.streams ≡ some a_stream
unfolding lookup
in_queue = refl

flush-sends_example :
    let n = min (max_data 1400 CryptoMsgType.data_msg none 2) 2 in
    let packet =
      data_packet toy a_secret
        (toy_suite a_secret)
        a_host
        a_conn
        refl
        (record { is_close = false; ack = none; stream_id = 0; stream_offset = 2 })
        (some (take n (7 ∷ 8 ∷ []))) in
    (pacing_nano : ℕ) × (calc_pacing new_measurements (length packet) ≡ ok pacing_nano)
    × (0 < n)
    × (flush toy a_host (λ packet addr now. true) 0 50 a_line ≡ (
      line_after a_line
          (new_receive_buffer 100)
          (record queued { streams = insert 0 (with_front_sent n 50 a_stream) queued.streams })
          packet
          (u64 (50 + pacing_nano))
          (2 + n),
      ok (n, pacing_nano),
    ))
unfolding get_snd_ack
flush-sends_example =
    flush-sends toy a_secret (toy_suite a_secret) a_host (λ packet addr now. true) 0 50 a_line
      a_stream refl a_conn-InRange (λ e. omega arith) refl (omega arith) (omega arith) (omega arith)
      (omega arith) (omega arith) (omega arith) in_queue refl (omega arith) (omega arith)
      a_stream-Waiting (λ packet. refl)
