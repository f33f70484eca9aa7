-- ===== src/Conn/Flush/Bounds.antt =====
-- What `sendPacket` and `writeAck` put on the line.
use qotp.Base.{
  ℕ, ◌+◌, ◌≡◌, ◌⊎◌, inl, inr, refl, ap, ◌∙◌, Bool, true, false, Option, some, none, List, [], ◌∷◌,
  ◌++◌, Run, ok, err, panic, if◌then◌else◌, if_elim, u64, length,
}
use qotp.Base.Exec.{
  Exec, ◌>>◌, return, modify, OnReturn, OnReturn-bind, OnReturn-lift, OnReturn-weaken,
}
use qotp.Proto.{Ack, PayloadHeader}
use qotp.Crypto.{CryptoMsgType}
use qotp.Crypto.Library.{CryptoLib}
use qotp.Measurement.{calc_pacing}
use qotp.Conn.{Conn, Host, msg_type, check_stream_fully_acked}
use qotp.Conn.Encode.{encode}
use qotp.Conn.Flush.{
  Line, Socket, on_conn, count_in_flight, pace, write_to, send_packet, write_ack, flush_ack, int_gt,
}
use qotp.Conn.Flush.Parts.{Same, encode-Same}

-- What `Flush` has done: nothing on the line, or one packet, whose data are new data within the
-- window, or not counted again.
abbrev pub Quiet : Line → Line → ℕ × ℕ → Type 0
Quiet l l' r =
    (r.0 ≡ 0) × (l'.written ≡ l.written) × (l'.conn.data_in_flight ≡ l.conn.data_in_flight)

pub record OnePacket (now window : ℕ) (l l' : Line) (r : ℕ × ℕ) : Type 0 where
  pub packet : List ℕ
  pub written : l'.written ≡ l.written ++ (packet ∷ [])
  pub next_write_time : l'.conn.next_write_time ≡ u64 (now + r.1)
  pub in_flight :
      (l'.conn.data_in_flight ≡ l.conn.data_in_flight)
      ⊎ ((l'.conn.data_in_flight ≡ u64 (l.conn.data_in_flight + r.0))
          × (int_gt l'.conn.data_in_flight window ≡ false))

abbrev pub Flushed : ℕ → ℕ → Line → Line → ℕ × ℕ → Type 0
Flushed now window l l' r = Quiet l l' r ⊎ OnePacket now window l l' r

-- The parts of the state that stay until a packet is written.
pub record SameLine (l l' : Line) : Type 0 where
  pub data_in_flight : l'.conn.data_in_flight ≡ l.conn.data_in_flight
  pub written : l'.written ≡ l.written

on_conn_result :
    {A : Type 0} (P : Conn → A → Type 0) (l : Line) (r : Conn × Run A)
    → OnReturn P r
    → OnReturn (λ l' a. P l'.conn a × (l'.written ≡ l.written)) (record l { conn = r.0 }, r.1)
on_conn_result P l (conn, ok a) h = (h, refl)
on_conn_result P l (conn, err e) h = tt
on_conn_result P l (conn, panic) h = tt

-- The end of a packet's sending.
record Paced (now n : ℕ) (l l' : Line) (r : ℕ × ℕ) : Type 0 where
  sent : r.0 ≡ n
  written : l'.written ≡ l.written
  data_in_flight : l'.conn.data_in_flight ≡ l.conn.data_in_flight
  next_write_time : l'.conn.next_write_time ≡ u64 (now + r.1)

pace-Paced : (now size sent : ℕ) (l : Line) → OnReturn (Paced now sent l) (pace now size sent l)
unfolding pace
pace-Paced now size sent l =
    let k : ℕ → Exec Line (ℕ × ℕ) = λ pacing_nano.
      modify (λ l. record l { conn = record l.conn { next_write_time = u64 (now + pacing_nano) } })
      >> return (sent, pacing_nano) in
    OnReturn-bind (λ l' _. l' ≡ l) (Paced now sent l) (l, calc_pacing l.conn.measurements size) k
      (OnReturn-lift (λ l' _. l' ≡ l) l (calc_pacing l.conn.measurements size) (λ _. refl))
      (λ l' pacing_nano e. record {
        sent = refl;
        written = ap (λ x. x.written) e;
        data_in_flight = ap (λ x. x.conn.data_in_flight) e;
        next_write_time = refl;
      })

module _ (socket : Socket) (now : ℕ) where
  record Wrote (packet : List ℕ) (l l' : Line) : Type 0 where
    written : l'.written ≡ l.written ++ (packet ∷ [])
    data_in_flight : l'.conn.data_in_flight ≡ l.conn.data_in_flight

  write_to-Wrote :
      (l : Line) (packet : List ℕ)
      → OnReturn (λ l' _. Wrote packet l l') (write_to socket packet now l)
  unfolding write_to
  write_to-Wrote l packet =
      if_elim (OnReturn (λ l' _. Wrote packet l l')) (socket packet l.conn.remote_addr now)
        (λ e. record { written = refl; data_in_flight = refl }) (λ e. tt)

module _ (c : CryptoLib) (host : Host) (socket : Socket) (window now : ℕ) where
  -- A packet of at most `len` bytes of data has room in the window.
  abbrev pub HasRoom : ℕ → ℕ → Type 0
  HasRoom d len = int_gt (u64 (d + len)) window ≡ false

  encode_line :
      (l : Line) (p : PayloadHeader) (user_data : Option (List ℕ)) (t : CryptoMsgType)
      → OnReturn (λ l' _. SameLine l l') (on_conn (encode c host p user_data t) l)
  encode_line l p user_data t =
      OnReturn-weaken (λ l' _. Same l.conn l'.conn × (l'.written ≡ l.written))
        (λ l' _. SameLine l l') (on_conn (encode c host p user_data t) l)
        (λ l' _ (same, written). record { data_in_flight = same.data_in_flight; written = written })
        (on_conn_result (λ conn' _. Same l.conn conn') l (encode c host p user_data t l.conn)
          (encode-Same c host p user_data t l.conn))

  -- What follows the encoding, for a packet with data and for an ACK.
  tracked :
      (track : Bool) (len : ℕ) (l l' : Line)
      → (track ≡ true → HasRoom l.conn.data_in_flight len)
      → l'.conn.data_in_flight ≡ l.conn.data_in_flight
      → let d = (count_in_flight track len l').conn.data_in_flight in
        (d ≡ l.conn.data_in_flight)
        ⊎ ((d ≡ u64 (l.conn.data_in_flight + len)) × (int_gt d window ≡ false))
  tracked false len l l' room same = inl same
  tracked true len l l' room same = inr (ap (λ d. u64 (d + len)) same, rw same (room refl))

  written-count :
      (track : Bool) (len : ℕ) (l : Line) → (count_in_flight track len l).written ≡ l.written
  written-count false len l = refl
  written-count true len l = refl

  pub send_packet-OnePacket :
      (l : Line) (stream_id : ℕ) (ack : Option Ack) (split_data : List ℕ) (offset : ℕ)
      → (is_close : Bool) (t : CryptoMsgType) (track : Bool)
      → (track ≡ true → HasRoom l.conn.data_in_flight (length split_data))
      → OnReturn
          (OnePacket now window l)
          (send_packet c host socket stream_id ack split_data offset is_close t now track l)
  unfolding send_packet
  send_packet-OnePacket l stream_id ack split_data offset is_close t track room =
      let p : PayloadHeader = record {
        is_close = is_close;
        ack = ack;
        stream_id = stream_id;
        stream_offset = offset;
      } in
      let len = length split_data in
      let finish : List ℕ → Exec Line (ℕ × ℕ) = λ enc_data.
        modify (count_in_flight track len)
        >> pace now (if track then length enc_data else len) len in
      let send : List ℕ → Exec Line (ℕ × ℕ) =
        λ enc_data. write_to socket enc_data now >> finish enc_data in
      OnReturn-bind (λ l' _. SameLine l l') (OnePacket now window l)
        (on_conn (encode c host p (some split_data) t) l) send (encode_line l p (some split_data) t)
        (λ l1 enc_data same.
          OnReturn-bind (λ l' _. Wrote socket now enc_data l1 l') (OnePacket now window l)
            (write_to socket enc_data now l1) (λ _. finish enc_data)
            (write_to-Wrote socket now l1 enc_data)
            (λ l2 _ wrote.
              let l3 = count_in_flight track len l2 in
              OnReturn-weaken (Paced now len l3) (OnePacket now window l)
                (pace now (if track then length enc_data else len) len l3)
                (λ l4 r paced. record {
                  packet = enc_data;
                  written =
                      paced.written
                      ∙ written-count track len l2
                      ∙ wrote.written
                      ∙ ap (λ w. w ++ (enc_data ∷ [])) same.written;
                  next_write_time = paced.next_write_time;
                  in_flight =
                      rw (paced.data_in_flight, paced.sent)
                        (tracked track len l l2 room (wrote.data_in_flight ∙ same.data_in_flight));
                })
                (pace-Paced now (if track then length enc_data else len) len l3)))

  pub write_ack-OnePacket :
      (l : Line) (stream_id : ℕ) (ack : Option Ack)
      → OnReturn (OnePacket now window l) (write_ack c host socket stream_id ack now l)
  unfolding write_ack
  write_ack-OnePacket l stream_id ack =
      let p : PayloadHeader = record {
        is_close = check_stream_fully_acked stream_id l.conn.snd;
        ack = ack;
        stream_id = stream_id;
        stream_offset = 0;
      } in
      let send : List ℕ → Exec Line (ℕ × ℕ) =
        λ enc_data. write_to socket enc_data now >> pace now (length enc_data) 0 in
      OnReturn-bind (λ l' _. SameLine l l') (OnePacket now window l)
        (on_conn (encode c host p none (msg_type l.conn)) l) send
        (encode_line l p none (msg_type l.conn))
        (λ l1 enc_data same.
          OnReturn-bind (λ l' _. Wrote socket now enc_data l1 l') (OnePacket now window l)
            (write_to socket enc_data now l1) (λ _. pace now (length enc_data) 0)
            (write_to-Wrote socket now l1 enc_data)
            (λ l2 _ wrote.
              OnReturn-weaken (Paced now 0 l2) (OnePacket now window l)
                (pace now (length enc_data) 0 l2)
                (λ l4 r paced. record {
                  packet = enc_data;
                  written =
                      paced.written ∙ wrote.written ∙ ap (λ w. w ++ (enc_data ∷ [])) same.written;
                  next_write_time = paced.next_write_time;
                  in_flight =
                      inl (paced.data_in_flight ∙ wrote.data_in_flight ∙ same.data_in_flight);
                })
                (pace-Paced now (length enc_data) 0 l2)))

  -- An outcome from a later state is one from the state before, which has written the same.
  earlier :
      (l0 l l' : Line) (r : ℕ × ℕ)
      → SameLine l0 l
      → OnePacket now window l l' r
      → OnePacket now window l0 l' r
  earlier l0 l l' r same h = record {
    packet = h.packet;
    written = h.written ∙ ap (λ w. w ++ (h.packet ∷ [])) same.written;
    next_write_time = h.next_write_time;
    in_flight = rw same.data_in_flight at h.in_flight;
  }

  module _ (l0 l : Line) (same : SameLine l0 l) where
    abbrev pub Good : Line × Run (ℕ × ℕ) → Type 0
    Good = OnReturn (Flushed now window l0)

    pub sent : (r : Line × Run (ℕ × ℕ)) → OnReturn (OnePacket now window l) r → Good r
    sent r =
        OnReturn-weaken (OnePacket now window l) (Flushed now window l0) r
          (λ l' r h. inr (earlier l0 l l' r same h))

    pub flush_ack-Flushed :
        (stream_id : ℕ) (ack : Option Ack) → Good (flush_ack c host socket stream_id ack now l)
    unfolding flush_ack
    flush_ack-Flushed stream_id none = inl (refl, same.written, same.data_in_flight)
    flush_ack-Flushed stream_id (some ack) =
        sent (write_ack c host socket stream_id (some ack) now l)
          (write_ack-OnePacket l stream_id (some ack))
