-- ===== src/Conn/Receive.antt =====
-- `decode` of conn.go: the payload of a packet, handed to the buffers of its stream.
use qotp.Base.{
  ℕ, ◌||◌, Option, none, some, List, ok, err, panic, if◌then◌else◌, ltb, sub64, length, is_some,
}
use qotp.Base.Exec.{Exec, ◌>>=◌, ◌>>◌, return, modify}
use qotp.Entries
use qotp.Proto.{Ack, PayloadHeader, bytes}
use qotp.Measurement.{update_measurements, on_duplicate_ack}
use qotp.Snd
use qotp.Snd.{AckStatus, ack_ok, ack_no_stream, ack_dup, acknowledge_range}
use qotp.Rcv
use qotp.Rcv.{insert_data, empty_insert}
use qotp.Conn.{Conn, stream, check_stream_fully_acked}

-- The effect of an ACK's status: the data in flight go down by the length of the packet that
-- carried the ACK.
unfoldable pub on_ack_status : ℕ → AckStatus → Conn → Conn
on_ack_status raw_len ack_ok c = record c { data_in_flight = sub64 c.data_in_flight raw_len }
on_ack_status raw_len ack_dup c = record c { measurements = on_duplicate_ack c.measurements }
on_ack_status raw_len ack_no_stream c = c

-- `s.closedAtNano = nowNano`, of the stream in the map.
abbrev pub close_stream_at : ℕ → ℕ → Conn → Conn
close_stream_at stream_id now c = record c {
  streams =
      Entries.put stream_id (record { stream_id = stream_id; closed_at_nano = now }) c.streams;
}

-- The RTT of an acknowledged packet.
unfoldable pub measure : AckStatus → ℕ → ℕ → ℕ → Exec Conn (Unit {0})
measure ack_ok len sent_time now c =
    if ltb sent_time now
    then elim (update_measurements c.measurements (sub64 now sent_time) len now) [
      | ok m ↦ (record c { measurements = m }, ok tt)
      | err e ↦ (c, err e)
      | panic ↦ (c, panic)
    ]
    else (c, ok tt)
measure ack_dup len sent_time now c = (c, ok tt)
measure ack_no_stream len sent_time now c = (c, ok tt)

unfoldable pub receive_ack : ℕ → ℕ → ℕ → Option Ack → Exec Conn (Unit {0})
receive_ack stream_id raw_len now none = return tt
receive_ack stream_id raw_len now (some ack) = do
  (status, sent_time) ← λ c.
      let (snd, status, sent_time) = acknowledge_range ack c.snd in
      (record c { snd = snd }, ok (status, sent_time))
  modify (on_ack_status raw_len status)
  modify (λ c. record c { rcv_wnd_size = ack.rcv_wnd })
  modify
      (λ c. if check_stream_fully_acked stream_id c.snd then close_stream_at stream_id now c else c)
  measure status ack.len sent_time now

-- The data, or an empty packet that is not just an ACK.
unfoldable pub receive_data : PayloadHeader → Option (List ℕ) → ℕ → Exec Conn (Unit {0})
receive_data p user_data now c =
    if ltb 0 (length (bytes user_data))
    then elim (insert_data p.stream_id p.stream_offset now (bytes user_data) c.rcv) [
      | ok (rcv, status) ↦ (record c { rcv = rcv }, ok tt)
      | err e ↦ (c, err e)
      | panic ↦ (c, panic)
    ]
    else if p.is_close || is_some user_data
    then (record c { rcv = (empty_insert p.stream_id p.stream_offset c.rcv).0 }, ok tt)
    else (c, ok tt)

unfoldable pub receive_close : PayloadHeader → Conn → Conn
receive_close p c =
    if p.is_close
    then record c {
      rcv = Rcv.close p.stream_id p.stream_offset c.rcv;
      snd = Snd.close p.stream_id c.snd;
    }
    else c

-- The number of the stream that is handed out.
unfoldable pub decode : PayloadHeader → Option (List ℕ) → ℕ → ℕ → Exec Conn ℕ
decode p user_data raw_len now = do
  s ← λ c. let (c', s) = stream p.stream_id c in (c', ok s)
  receive_ack s.stream_id raw_len now p.ack
  receive_data p user_data now
  modify (receive_close p)
  return s.stream_id
