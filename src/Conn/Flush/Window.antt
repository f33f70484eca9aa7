-- ===== src/Conn/Flush/Window.antt =====
-- What one `Flush` puts on the line: at most one packet, not before its time, and no new data beyond
-- the window that the other side announced.
use qotp.Base.{
  ℕ, ◌+◌, ◌^◌, ◌≤◌, ◌<◌, ◌≡◌, ◌⊎◌, inl, inr, refl, ◌∙◌, arith, true, false, not, ◌||◌, Option, some,
  none, Run, ok, err, panic, if_elim, ltb, ltb→ge, u64, sub64, length, is_some,
}
use qotp.Base.Exec.{Exec, OnReturn, OnReturn-bind, OnReturn-weaken}
use qotp.Proto.{Ack}
use qotp.Crypto.Library.{CryptoLib}
use qotp.Measurement.{on_packet_loss, rto_nano}
use qotp.Rcv.{get_snd_ack, size_of}
use qotp.Snd.{SendBuffer, Packet, ready_to_retransmit}
use qotp.Conn.{Host, msg_type}
use qotp.Conn.Flush.{
  Line, Socket, take_ack, with_window, with_snd, send_packet, write_ack, flush_ack, retransmit,
  next_packet, flush_new, flush_packet, flush_ready, flush, int_gt,
}
use qotp.Conn.Flush.Parts.{IsShort, ready_to_send-IsShort}
use qotp.Conn.Flush.Bounds.{
  SameLine, Quiet, OnePacket, Flushed, sent, flush_ack-Flushed, send_packet-OnePacket,
  write_ack-OnePacket,
}

room_le :
    (d mtu len window : ℕ)
    → u64 (d + 2 ^ 63) + mtu < 2 ^ 64
    → len ≤ mtu
    → int_gt (u64 (d + mtu)) window ≡ false
    → int_gt (u64 (d + len)) window ≡ false
room_le d mtu len window bounded le h = ground arith

with_snd-SameLine :
    (l : Line) (r : Run (SendBuffer × Packet)) → OnReturn (λ l' _. SameLine l l') (with_snd l r)
with_snd-SameLine l (ok (snd, packet)) = record { data_in_flight = refl; written = refl }
with_snd-SameLine l (err e) = tt
with_snd-SameLine l panic = tt

module _ (c : CryptoLib) (host : Host) (socket : Socket) (window now : ℕ) where
  retransmit-SameLine :
      (l : Line) (stream_id : ℕ) (ack : Option Ack)
      → OnReturn (λ l' _. SameLine l l') (retransmit c host socket stream_id ack now l)
  unfolding retransmit
  retransmit-SameLine l stream_id ack = with_snd-SameLine l (
      ready_to_retransmit stream_id ack host.mtu (rto_nano l.conn.measurements) (msg_type l.conn)
        now l.conn.snd)

  next_packet-SameLine :
      (l : Line) (stream_id : ℕ) (ack : Option Ack)
      → 128 ≤ host.mtu
      → host.mtu < 2 ^ 16
      → OnReturn
          (λ l' packet. SameLine l l' × IsShort host.mtu packet)
          (next_packet c host socket stream_id ack now l)
  unfolding next_packet
  next_packet-SameLine l stream_id ack large small = (
    record { data_in_flight = refl; written = refl },
    ready_to_send-IsShort stream_id (msg_type l.conn) ack host.mtu now l.conn.snd large small,
  )

  module _ (l0 : Line) (large : 128 ≤ host.mtu) (small : host.mtu < 2 ^ 16)
      (bounded : u64 (l0.conn.data_in_flight + 2 ^ 63) + host.mtu < 2 ^ 64)
      (room : int_gt (u64 (l0.conn.data_in_flight + host.mtu)) window ≡ false) (stream_id : ℕ)
      (ack : Option Ack) where
    abbrev Fine : Line × Run (ℕ × ℕ) → Type 0
    Fine = OnReturn (Flushed now window l0)

    flush_new-Flushed :
        (l : Line) (packet : Packet)
        → SameLine l0 l
        → IsShort host.mtu packet
        → Fine (flush_new c host socket stream_id ack now packet l)
    unfolding flush_new
    flush_new-Flushed l (some split_data, offset, is_close) same short =
        sent c host socket window now l0 l same
          (send_packet c host socket stream_id ack split_data offset is_close (msg_type l.conn) now
            true l)
          (send_packet-OnePacket c host socket window now l stream_id ack split_data offset is_close
            (msg_type l.conn) true
            (λ _. rw same.data_in_flight (
              room_le l0.conn.data_in_flight host.mtu (length split_data) window bounded short
                room)))
    flush_new-Flushed l (none, offset, is_close) same short =
        let P : Exec Line (ℕ × ℕ) → Type 0 = λ m. Fine (m l) in
        if_elim P (is_some ack || not l.conn.is_init_sent_on_snd)
          (λ e.
            sent c host socket window now l0 l same (write_ack c host socket stream_id ack now l)
              (write_ack-OnePacket c host socket window now l stream_id ack))
          (λ e. flush_ack-Flushed c host socket window now l0 l same stream_id ack)

    trans-SameLine : (l l' : Line) → SameLine l0 l → SameLine l l' → SameLine l0 l'
    trans-SameLine l l' first next = record {
      data_in_flight = next.data_in_flight ∙ first.data_in_flight;
      written = next.written ∙ first.written;
    }

    flush_packet-Flushed :
        (l : Line) (packet : Packet)
        → SameLine l0 l
        → Fine (flush_packet c host socket stream_id ack now packet l)
    unfolding flush_packet
    flush_packet-Flushed l (some split_data, offset, is_close) same =
        let l' : Line = record l {
          conn = record l.conn { measurements = on_packet_loss l.conn.measurements };
        } in
        sent c host socket window now l0 l'
          (record { data_in_flight = same.data_in_flight; written = same.written })
          (send_packet c host socket stream_id ack split_data offset is_close (msg_type l.conn) now
            false l')
          (send_packet-OnePacket c host socket window now l' stream_id ack split_data offset
            is_close (msg_type l.conn) false (λ e. absurd (ground arith)))
    flush_packet-Flushed l (none, offset, is_close) same =
        let P : Exec Line (ℕ × ℕ) → Type 0 = λ m. Fine (m l) in
        if_elim P (l.conn.is_handshake_done_on_rcv || not l.conn.is_init_sent_on_snd)
          (λ e.
            OnReturn-bind (λ l' packet. SameLine l l' × IsShort host.mtu packet)
              (Flushed now window l0) (next_packet c host socket stream_id ack now l)
              (flush_new c host socket stream_id ack now)
              (next_packet-SameLine l stream_id ack large small)
              (λ l' packet (same', short).
                flush_new-Flushed l' packet (trans-SameLine l l' same same') short))
          (λ e. flush_ack-Flushed c host socket window now l0 l same stream_id ack)

    flush_ready-Flushed :
        (l : Line) → SameLine l0 l → Fine (flush_ready c host socket stream_id ack now l)
    unfolding flush_ready
    flush_ready-Flushed l same =
        OnReturn-bind (λ l' _. SameLine l l') (Flushed now window l0)
          (retransmit c host socket stream_id ack now l)
          (flush_packet c host socket stream_id ack now) (retransmit-SameLine l stream_id ack)
          (λ l' packet same'. flush_packet-Flushed l' packet (trans-SameLine l l' same same'))

-- What `Flush` has done, with the time of the last packet.
abbrev pub Timely : ℕ → Line → Line → ℕ × ℕ → Type 0
Timely now l l' r =
    Quiet l l' r ⊎ (OnePacket now l.conn.rcv_wnd_size l l' r × (l.conn.next_write_time ≤ now))

timely :
    (now : ℕ) (l l' : Line) (r : ℕ × ℕ)
    → l.conn.next_write_time ≤ now
    → Flushed now l.conn.rcv_wnd_size l l' r
    → Timely now l l' r
timely now l l' r due (inl quiet) = inl quiet
timely now l l' r due (inr packet) = inr (packet, due)

-- `Flush` that returns has put nothing on the line, or one packet: not while the pacing timer runs,
-- and then the timer is set for the next one. The data in flight stay, or grow by the data of that
-- packet and are still within the window of the other side. This is for an mtu from 128 on and below
-- 2 ^ 16, and data in flight that do not overflow by one mtu.
pub flush-Flushed :
    (c : CryptoLib) (host : Host) (socket : Socket) (l : Line) (stream_id now : ℕ)
    → 128 ≤ host.mtu
    → host.mtu < 2 ^ 16
    → u64 (l.conn.data_in_flight + 2 ^ 63) + host.mtu < 2 ^ 64
    → OnReturn (Timely now l) (flush c host socket stream_id now l)
unfolding flush take_ack
flush-Flushed c host socket l stream_id now large small bounded =
    let window = l.conn.rcv_wnd_size in
    let rcv = (get_snd_ack l.conn.rcv).0 in
    let ack = with_window (sub64 rcv.capacity (size_of rcv)) (get_snd_ack l.conn.rcv).1 in
    let l1 : Line = record l { conn = record l.conn { rcv = rcv } } in
    let same : SameLine l l1 = record { data_in_flight = refl; written = refl } in
    let P : Exec Line (ℕ × ℕ) → Type 0 = λ m. OnReturn (Timely now l) (m l1) in
    if_elim P (ltb now l.conn.next_write_time) (λ e. inl (refl, refl, refl))
      (λ e.
        let due = ltb→ge now l.conn.next_write_time e in
        if_elim P (int_gt (u64 (l.conn.data_in_flight + host.mtu)) window)
          (λ over.
            OnReturn-weaken (Flushed now window l) (Timely now l)
              (flush_ack c host socket stream_id ack now l1) (λ l' r h. timely now l l' r due h)
              (flush_ack-Flushed c host socket window now l l1 same stream_id ack))
          (λ room.
            OnReturn-weaken (Flushed now window l) (Timely now l)
              (flush_ready c host socket stream_id ack now l1) (λ l' r h. timely now l l' r due h)
              (flush_ready-Flushed c host socket window now l large small bounded room stream_id ack
                l1 same)))
