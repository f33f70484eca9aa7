-- ===== src/Conn/Flush/Parts.antt =====
-- The packets of new data, which fit the mtu, and what an encoding leaves alone of the connection.
use qotp.Base.{
  ℕ, ◌+◌, ◌-◌, ◌^◌, ◌≤◌, ◌<◌, ◌≡◌, inl, inr, refl, ap, ◌∙◌, arith, not, Option, List, min, Run,
  if_elim, ltb, ◌==◌, u64, length, length-take, Option-cases, lookup, AllSome,
}
use qotp.Base.Exec.{Exec, return, OnReturn, OnReturn-bind, OnReturn-lift}
use qotp.Proto.{Ack, PayloadHeader, calc_proto_overhead}
use qotp.Crypto.{
  CryptoMsgType, init_snd, init_rcv, init_crypto_snd, init_crypto_rcv, data_msg,
  calc_crypto_overhead_with_data,
}
use qotp.Crypto.Library.{CryptoLib}
use qotp.Snd.{SendBuffer, StreamBuffer, Packet, max_data, reaches_close, send_stream, ready_to_send}
use qotp.Conn.{Conn, Host}
use qotp.Conn.Encrypt.{encrypt}
use qotp.Conn.Encode.{encode, init_sent, rollover}

-- A packet of new data has at most `mtu` bytes of them.
pub max_data_le :
    (mtu : ℕ) (t : CryptoMsgType) (ack : Option Ack) (offset : ℕ)
    → 128 ≤ mtu
    → mtu < 2 ^ 16
    → max_data mtu t ack offset ≤ mtu
unfolding max_data calc_crypto_overhead_with_data calc_proto_overhead
max_data_le mtu init_snd ack offset h k = omega arith
max_data_le mtu init_rcv ack offset h k = ground arith
max_data_le mtu init_crypto_snd ack offset h k = ground arith
max_data_le mtu init_crypto_rcv ack offset h k = ground arith
max_data_le mtu data_msg ack offset h k = ground arith

abbrev pub IsShort : ℕ → Packet → Type 0
IsShort mtu packet = AllSome (λ split_data. length split_data ≤ mtu) packet.0

send_stream-IsShort :
    (t : CryptoMsgType) (ack : Option Ack) (mtu now : ℕ) (s : StreamBuffer)
    → 128 ≤ mtu
    → mtu < 2 ^ 16
    → IsShort mtu (send_stream t ack mtu now s).1
unfolding send_stream
send_stream-IsShort t ack mtu now s large small =
    let P : StreamBuffer × Packet → Type 0 = λ r. IsShort mtu r.1 in
    let room = max_data mtu t ack s.bytes_sent_offset in
    let fits = max_data_le mtu t ack s.bytes_sent_offset large small in
    if_elim P s.ping_request (λ e. omega arith)
      (λ e.
        if_elim P (length s.queued_data == 0)
          (λ e.
            if_elim P (not (reaches_close s.close_at_offset s.bytes_sent_offset)) (λ e. tt)
              (λ e. omega arith))
          (λ e. omega (arith, length-take (min room (length s.queued_data)) s.queued_data)))

pub ready_to_send-IsShort :
    (stream_id : ℕ) (t : CryptoMsgType) (ack : Option Ack) (mtu now : ℕ) (sb : SendBuffer)
    → 128 ≤ mtu
    → mtu < 2 ^ 16
    → IsShort mtu (ready_to_send stream_id t ack mtu now sb).1
unfolding ready_to_send
ready_to_send-IsShort stream_id t ack mtu now sb large small =
    elim (Option-cases (lookup stream_id sb.streams)) [
      | inl e ↦ rw (ready_to_send, e) tt
      | inr (s, e) ↦ rw (ready_to_send, e) (send_stream-IsShort t ack mtu now s large small)
    ]

-- The fields that an encoding leaves alone.
pub record Same (conn conn' : Conn) : Type 0 where
  pub data_in_flight : conn'.data_in_flight ≡ conn.data_in_flight
  pub rcv_wnd_size : conn'.rcv_wnd_size ≡ conn.rcv_wnd_size

init_sent-Same : (t : CryptoMsgType) (conn : Conn) → Same conn (init_sent t conn)
init_sent-Same init_snd conn = record { data_in_flight = refl; rcv_wnd_size = refl }
init_sent-Same init_rcv conn = record { data_in_flight = refl; rcv_wnd_size = refl }
init_sent-Same init_crypto_snd conn = record { data_in_flight = refl; rcv_wnd_size = refl }
init_sent-Same init_crypto_rcv conn = record { data_in_flight = refl; rcv_wnd_size = refl }
init_sent-Same data_msg conn = record { data_in_flight = refl; rcv_wnd_size = refl }

rollover-Same : (conn : Conn) → OnReturn (λ conn' _. Same conn conn') (rollover conn)
unfolding rollover
rollover-Same conn =
    let P : Conn × Run (Unit {0}) → Type 0 = OnReturn (λ conn' _. Same conn conn') in
    let same : Same conn conn = record { data_in_flight = refl; rcv_wnd_size = refl } in
    if_elim P (ltb (2 ^ 48 - 1) conn.sn_crypto)
      (λ e.
        if_elim P (ltb (2 ^ 47 - 1) (u64 (conn.epoch_crypto_snd + 1))) (λ e. tt)
          (λ e. record { data_in_flight = refl; rcv_wnd_size = refl }))
      (λ e. same)

module _ (c : CryptoLib) (host : Host) where
  pub encode-Same :
      (p : PayloadHeader) (user_data : Option (List ℕ)) (t : CryptoMsgType) (conn : Conn)
      → OnReturn (λ conn' _. Same conn conn') (encode c host p user_data t conn)
  unfolding encode
  encode-Same p user_data t conn =
      OnReturn-bind (λ conn' _. conn' ≡ conn) (λ conn' _. Same conn conn')
        (conn, encrypt c host p user_data t conn) _
        (OnReturn-lift (λ conn' _. conn' ≡ conn) conn (encrypt c host p user_data t conn)
          (λ _. refl))
        (λ conn' enc_data e.
          let d : Conn = record (init_sent t conn') {
            sn_crypto = u64 ((init_sent t conn').sn_crypto + 1);
          } in
          let done : Unit {0} → Exec Conn (List ℕ) = λ _. return enc_data in
          OnReturn-bind (λ conn'' _. Same d conn'') (λ conn'' _. Same conn conn'') (rollover d) done
            (rollover-Same d)
            (λ conn'' _ h.
              let sent = init_sent-Same t conn' in
              record {
                data_in_flight =
                    h.data_in_flight ∙ sent.data_in_flight ∙ ap (λ x. x.data_in_flight) e;
                rcv_wnd_size = h.rcv_wnd_size ∙ sent.rcv_wnd_size ∙ ap (λ x. x.rcv_wnd_size) e;
              }))
