-- ===== src/Conn/Flush/Progress.antt =====
-- `Flush` of a connection that has new data and may send them.
use qotp.Base.{
  ℕ, zero, suc, ◌+◌, ◌-◌, ◌*◌, ◌/◌, ◌^◌, ◌≤◌, ◌≡◌, ◌≢◌, refl, arith, Bool, true, false, not, ◌||◌,
  Option, some, none, List, [], ◌∷◌, ◌++◌, Run, ok, if_elim, ltb_ge, ◌==◌, u64, length, take, min,
  sub64, ap, ◌∙◌, lookup, insert, length-take, ◌<◌,
}
use qotp.Base.Exec.{Exec}
use qotp.Proto.{Ack, PayloadHeader}
use qotp.Crypto.{data_msg}
use qotp.Crypto.Library.{CryptoLib, Suite}
use qotp.Measurement.{Measurements, calc_pacing, rto_nano, div64}
use qotp.Rcv.{ReceiveBuffer, get_snd_ack, size_of}
use qotp.Snd.{SendBuffer, StreamBuffer, max_data, reaches_close, ready_to_send}
use qotp.Snd.Integrity.Steps.{with_front_sent}
use qotp.Conn.{Conn, Host, msg_type}
use qotp.Conn.Encode.Numbers.{InRange, number, with_number}
use qotp.Conn.Encode.Data.{data_packet, encode_data_lem}
use qotp.Conn.Flush.Parts.{max_data_le}
use qotp.Conn.Flush.Ready.{
  Waiting, max_data-positive, rto_nano-le-max_rto, ready_to_retransmit-Waiting, ready_to_send_new,
}
use qotp.Conn.Flush.{
  Line, Socket, pace, take_ack, with_window, write_to, send_packet, retransmit, next_packet,
  flush_new, flush_packet, flush_ready, flush, int_gt,
}

div64-returns : (a b : ℕ) → (b == 0) ≡ false → (v : ℕ) × (div64 a b ≡ ok v)
unfolding div64
div64-returns a zero e = absurd (ground arith)
div64-returns a (suc b) e = (_, refl)

-- `calcPacing` never divides by zero.
calc_pacing-returns : (m : Measurements) (size : ℕ) → (v : ℕ) × (calc_pacing m size ≡ ok v)
unfolding calc_pacing
calc_pacing-returns m size =
    let P : Run ℕ → Type 0 = λ r. (v : ℕ) × (r ≡ ok v) in
    let rate = u64 (m.bw_max * m.pacing_gain_pct) / 100 in
    if_elim P (m.bw_max == 0) (λ e. (_, refl))
      (λ e.
        if_elim P (rate == 0) (λ e. (_, refl))
          (λ e. div64-returns (u64 (size * 1_000_000_000)) rate e))

module _ (c : CryptoLib) (secret : List ℕ) (suite : Suite c secret) (host : Host) (socket : Socket)
    (stream_id now : ℕ) where
  -- The sending of a data packet, which counts as data in flight.
  send_lem :
      (l : Line) (key : l.conn.shared_secret ≡ some secret) (range : InRange l.conn)
      → (left : number l.conn ≢ 2 ^ 95 - 1)
      → (ack : Option Ack) (split_data : List ℕ) (offset : ℕ) (is_close : Bool)
      → let p : PayloadHeader = record {
        is_close = is_close;
        ack = ack;
        stream_id = stream_id;
        stream_offset = offset;
      } in
        let packet = data_packet c secret suite host l.conn key p (some split_data) in
        socket packet l.conn.remote_addr now ≡ true
        → (pacing_nano : ℕ) × (calc_pacing l.conn.measurements (length packet) ≡ ok pacing_nano)
          × (send_packet c host socket stream_id ack split_data offset is_close data_msg now true l
              ≡ (
                record {
                  conn = record (with_number (suc (number l.conn)) l.conn) {
                    data_in_flight = u64 (l.conn.data_in_flight + length split_data);
                    next_write_time = u64 (now + pacing_nano);
                  };
                  written = l.written ++ (packet ∷ []);
                },
                ok (length split_data, pacing_nano),
              ))
  unfolding send_packet write_to pace
  send_lem l key range left ack split_data offset is_close taken =
      let p : PayloadHeader = record {
        is_close = is_close;
        ack = ack;
        stream_id = stream_id;
        stream_offset = offset;
      } in
      let packet = data_packet c secret suite host l.conn key p (some split_data) in
      let (pacing_nano, paced) = calc_pacing-returns l.conn.measurements (length packet) in
      (
        pacing_nano,
        paced,
        rw
            (
              encode_data_lem c secret suite host l.conn key p (some split_data) range left,
              taken,
              paced,
            )
            refl,
      )

  may_send_lem : (b b' : Bool) → b ≡ true → (b || b') ≡ true
  may_send_lem b b' e = ground arith

  msg_type_lem : (conn : Conn) → conn.is_handshake_done_on_rcv ≡ true → msg_type conn ≡ data_msg
  unfolding msg_type
  msg_type_lem conn done = rw done refl

  module _ (l : Line) (key : l.conn.shared_secret ≡ some secret) (range : InRange l.conn)
      (left : number l.conn ≢ 2 ^ 95 - 1) (done : l.conn.is_handshake_done_on_rcv ≡ true)
      (snd snd' : SendBuffer) (ack : Option Ack) (split_data : List ℕ) (offset : ℕ)
      (is_close : Bool)
      (fresh : ready_to_send stream_id data_msg ack host.mtu now snd
        ≡ (snd', (some split_data, offset, is_close)))
      (accepts : (packet : List ℕ) → socket packet l.conn.remote_addr now ≡ true) where
    abbrev packet : List ℕ
    packet =
        data_packet c secret suite host l.conn key
          (record { is_close = is_close; ack = ack; stream_id = stream_id; stream_offset = offset })
          (some split_data)

    abbrev Sends : Exec Line (ℕ × ℕ) → Type 0
    Sends m =
        (pacing_nano : ℕ) × (calc_pacing l.conn.measurements (length packet) ≡ ok pacing_nano)
        × (m (record l { conn = record l.conn { snd = snd } }) ≡ (
          record {
            conn = record (with_number (suc (number l.conn)) l.conn) {
              snd = snd';
              data_in_flight = u64 (l.conn.data_in_flight + length split_data);
              next_write_time = u64 (now + pacing_nano);
            };
            written = l.written ++ (packet ∷ []);
          },
          ok (length split_data, pacing_nano),
        ))

    flush_packet_lem :
        (o : ℕ) (b : Bool) → Sends (flush_packet c host socket stream_id ack now (none, o, b))
    unfolding flush_packet next_packet flush_new
    flush_packet_lem o b =
        let l' : Line = record l { conn = record l.conn { snd = snd' } } in
        let p : PayloadHeader = record {
          is_close = is_close;
          ack = ack;
          stream_id = stream_id;
          stream_offset = offset;
        } in
        let (pacing_nano, paced, sent) =
          send_lem l' key (record { sn = range.sn; epoch = range.epoch }) left ack split_data offset
            is_close (accepts packet) in
        (
          pacing_nano,
          paced,
          rw
              (
                may_send_lem l.conn.is_handshake_done_on_rcv (not l.conn.is_init_sent_on_snd) done,
                msg_type_lem (record l.conn { snd = snd }) done,
                fresh,
                msg_type_lem (record l.conn { snd = snd' }) done,
              )
              sent,
        )

-- A line after `Flush` has written a packet of new data: its buffers, the packet, the time before which
-- nothing follows it, and the data in flight.
abbrev pub line_after : Line → ReceiveBuffer → SendBuffer → List ℕ → ℕ → ℕ → Line
line_after l rcv snd packet next_write_time data_in_flight = record {
  conn = record (with_number (suc (number l.conn)) l.conn) {
    rcv = rcv;
    snd = snd;
    data_in_flight = data_in_flight;
    next_write_time = next_write_time;
  };
  written = l.written ++ (packet ∷ []);
}

-- What is sent and counted, with its length written out.
exact :
    (after : ℕ → Line) (r : Line × Run (ℕ × ℕ)) (d len n pacing_nano : ℕ)
    → r ≡ (after (u64 (d + len)), ok (len, pacing_nano))
    → len ≡ n
    → u64 (d + n) ≡ d + n
    → r ≡ (after (d + n), ok (n, pacing_nano))
exact after r d len n pacing_nano e size counted =
    e
    ∙ ap (λ k. (after (u64 (d + k)), ok (k, pacing_nano))) size
    ∙ ap (λ k. (after k, ok (n, pacing_nano))) counted

-- `Flush` sends what it may send. It writes the packet of the next bytes of the stream's queue, at the
-- offset up to which the stream was sent, with the next ACK that waits: as many bytes as the packet has
-- room for, and at least one. These leave the queue and count as in flight, the packet takes the next
-- number, and the timer is set to the pacing of this packet. This is for a connection that has its shared
-- secret and is after the handshake, whose timer has run out, whose window has room for an mtu and is
-- below 2 ^ 63, and whose counters are in their ranges and not at the last number; for a stream whose
-- queue is not empty, within 2 ^ 48 bytes, with no ping to send and no packet in flight, or an oldest
-- one that was sent 1 to 5 times and has not timed out; for an mtu from 128 on and below 2 ^ 16, a time
-- below 2 ^ 64, and a socket that takes the packet.
pub flush-sends :
    (c : CryptoLib) (secret : List ℕ) (suite : Suite c secret) (host : Host) (socket : Socket)
    (stream_id now : ℕ) (l : Line) (s : StreamBuffer)
    → (key : l.conn.shared_secret ≡ some secret) → InRange l.conn
    → number l.conn ≢ 2 ^ 95 - 1
    → l.conn.is_handshake_done_on_rcv ≡ true
    → 128 ≤ host.mtu
    → host.mtu < 2 ^ 16
    → now < 2 ^ 64
    → l.conn.next_write_time ≤ now
    → l.conn.data_in_flight + host.mtu ≤ l.conn.rcv_wnd_size
    → l.conn.rcv_wnd_size < 2 ^ 63
    → lookup stream_id l.conn.snd.streams ≡ some s
    → s.ping_request ≡ false
    → 0 < length s.queued_data
    → s.bytes_sent_offset + length s.queued_data < 2 ^ 48
    → Waiting (rto_nano l.conn.measurements) now s
    → ((packet : List ℕ) → socket packet l.conn.remote_addr now ≡ true)
    → let rcv = (get_snd_ack l.conn.rcv).0 in
      let ack = with_window (sub64 rcv.capacity (size_of rcv)) (get_snd_ack l.conn.rcv).1 in
      let room = max_data host.mtu data_msg ack s.bytes_sent_offset in
      let n = min room (length s.queued_data) in
      let packet =
        data_packet c secret suite host l.conn key
          (record {
            is_close = reaches_close s.close_at_offset (s.bytes_sent_offset + n);
            ack = ack;
            stream_id = stream_id;
            stream_offset = s.bytes_sent_offset;
          })
          (some (take n s.queued_data)) in
      (pacing_nano : ℕ) × (calc_pacing l.conn.measurements (length packet) ≡ ok pacing_nano)
      × (0 < n)
      × (flush c host socket stream_id now l ≡ (
        line_after l rcv
            (record l.conn.snd {
              streams = insert stream_id (with_front_sent n now s) l.conn.snd.streams;
            })
            packet
            (u64 (now + pacing_nano))
            (l.conn.data_in_flight + n),
        ok (n, pacing_nano),
      ))
unfolding flush flush_ready retransmit take_ack
flush-sends c secret suite host socket stream_id now l s key range left done large small now64 due
      room window found quiet more fits waiting accepts =
    let rcv = (get_snd_ack l.conn.rcv).0 in
    let ack = with_window (sub64 rcv.capacity (size_of rcv)) (get_snd_ack l.conn.rcv).1 in
    let free = max_data-positive host.mtu ack s.bytes_sent_offset large small in
    let n = min (max_data host.mtu data_msg ack s.bytes_sent_offset) (length s.queued_data) in
    let size : length (take n s.queued_data) ≡ n = omega (arith, length-take n s.queued_data) in
    let l1 : Line = record l { conn = record l.conn { rcv = rcv } } in
    let snd = record l.conn.snd { streams = insert stream_id s l.conn.snd.streams } in
    let snd' = record l.conn.snd {
      streams = insert stream_id (with_front_sent n now s) l.conn.snd.streams;
    } in
    let at_least_one : 0 < n = omega (arith, free, more) in
    let (pacing_nano, paced, sent) =
      flush_packet_lem c secret suite host socket stream_id now l1 key
        (record { sn = range.sn; epoch = range.epoch }) left done snd snd' ack
        (take n s.queued_data) s.bytes_sent_offset
        (reaches_close s.close_at_offset (s.bytes_sent_offset + n))
        (ready_to_send_new stream_id data_msg ack host.mtu now l.conn.snd s quiet more
          (omega (arith, free)) (omega arith))
        accepts 0 false in
    let counted : u64 (l.conn.data_in_flight + n) ≡ l.conn.data_in_flight + n =
      omega (arith, max_data_le host.mtu data_msg ack s.bytes_sent_offset large small) in
    let inside : int_gt (u64 (l.conn.data_in_flight + host.mtu)) l.conn.rcv_wnd_size ≡ false =
      ground arith in
    (
      pacing_nano,
      paced,
      at_least_one,
      rw
          (
            ltb_ge now l.conn.next_write_time due,
            inside,
            msg_type_lem c secret suite host socket stream_id now (record l.conn { rcv = rcv })
                done,
            ready_to_retransmit-Waiting ack host.mtu (rto_nano l.conn.measurements)
                (rto_nano-le-max_rto l.conn.measurements) data_msg now now64 stream_id l.conn.snd s
                found waiting,
          )
          (exact (line_after l rcv snd' _ (u64 (now + pacing_nano))) _ l.conn.data_in_flight
            (length (take n s.queued_data)) n pacing_nano sent size counted),
    )
