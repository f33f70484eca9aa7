-- ===== src/Stream.antt =====
-- The stream of stream.go over the two buffers of its connection. `localConn.TimeoutReadNow`, a call
-- of the socket, is a parameter: the error that it gives, if any.
pub mod Reading
mod Tests
use qotp.Base.{
  ℕ, ◌+◌, ◌<◌, ◌≤◌, Bool, true, false, not, ◌&&◌, ◌||◌, Option, none, some, List, [], ◌∷◌, Run, ok,
  err, panic, ◌>>=◌, if◌then◌else◌, leb, ◌==◌, length, is_some,
}
use qotp.Snd
use qotp.Snd.{SendBuffer, InsertStatus, queue_data, queue_ping}
use qotp.Rcv
use qotp.Rcv.{ReceiveBuffer, remove_oldest_in_order}

-- `io.EOF`, `io.ErrUnexpectedEOF`, and an error of the socket.
pub data StreamError : Type 0 where
  eof unexpected_eof socket_error : StreamError

pub record Stream : Type 0 where
  pub stream_id : ℕ
  pub closed_at_nano : ℕ

unfoldable pub ping : Stream → SendBuffer → SendBuffer
ping s snd = queue_ping s.stream_id snd

unfoldable pub close : Stream → SendBuffer → SendBuffer
close s snd = Snd.close s.stream_id snd

unfoldable pub is_closed : Stream → Bool
is_closed s = not (s.closed_at_nano == 0)

unfoldable pub is_close_requested : Stream → SendBuffer → Bool
is_close_requested s snd = is_some (Snd.get_offset_closed_at s.stream_id snd)

unfoldable pub is_open : Stream → SendBuffer → Bool
unfolding is_close_requested is_closed
is_open s snd = not (is_close_requested s snd) && not (is_closed s)

-- What a call hands out, and its error or nil.
abbrev pub ReadResult : Type 0
ReadResult = Option (List ℕ) × Option StreamError

-- Whether the data at `offset` end the stream: all below the close offset have been read.
abbrev pub ends_stream : Option ℕ → ℕ → Bool
ends_stream none offset = false
ends_stream (some close_offset) offset = leb close_offset offset

unfoldable pub read : Stream → ReceiveBuffer → Run (ReceiveBuffer × Stream × ReadResult)
unfolding is_closed
read s rcv =
    let close_offset = Rcv.get_offset_closed_at s.stream_id rcv in
    if is_closed s then ok (rcv, s, (none, some unexpected_eof)) else do
      (rcv', (offset, user_data, time)) ← remove_oldest_in_order s.stream_id rcv
      ok (
          if ends_stream close_offset offset
          then (rcv', record s { closed_at_nano = time }, (user_data, some eof))
          else (rcv', s, (user_data, none)))

unfoldable pub write :
    Option StreamError → List ℕ → Stream → SendBuffer → Run (SendBuffer × ℕ × Option StreamError)
unfolding is_closed is_close_requested
write timeout_read_now user_data s snd =
    if is_closed s || is_close_requested s snd
    then ok (snd, 0, some unexpected_eof)
    else if length user_data == 0
    then ok (snd, 0, none)
    else do
      (snd', n, status) ← queue_data s.stream_id user_data snd
      ok (elim status [
        | InsertStatus.insert_ok ↦
            (snd', if is_some timeout_read_now then 0 else n, timeout_read_now)
        | _ ↦ (snd', n, none)
      ])
