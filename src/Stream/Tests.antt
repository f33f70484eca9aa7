-- ===== src/Stream/Tests.antt =====
-- Runs of a stream, and the theorem on reading at one buffer.
use qotp.Base.{ℕ, ◌≡◌, refl, none, some, List, [], ◌∷◌, ok, Returns, arith, drop, lookup}
use qotp.Rcv.{ReceiveBuffer, RcvBuffer}
use qotp.Rcv
use qotp.Rcv.Segments.{Agrees}
use qotp.Snd.{new_send_buffer}
use qotp.Stream.{Stream, StreamError, read, write}
use qotp.Stream.Reading.{IsStreamRead, read-IsStreamRead}

abbrev four : List ℕ
four = 0 ∷ 1 ∷ 2 ∷ 3 ∷ []

abbrev a_stream : Stream
a_stream = record { stream_id = 1; closed_at_nano = 0 }

abbrev arrived : ReceiveBuffer
arrived = record {
  streams =
      (
        1,
        record {
          segments = (0, record { payload = 0 ∷ 1 ∷ []; receive_time_nano = 4 }) ∷ [];
          next_in_order_offset_to_wait_for = 0;
          close_at_offset = none;
        },
      )
      ∷ [];
  capacity = 100;
  size = 2;
  ack_list = [];
}

arrived-Agrees : Agrees four (Rcv.stream_of 1 arrived).segments
unfolding Rcv.stream_of lookup
arrived-Agrees = (((drop 2 four, refl), omega arith), tt)

read-IsStreamRead_example : Returns (IsStreamRead four arrived a_stream) (read a_stream arrived)
read-IsStreamRead_example = read-IsStreamRead four a_stream arrived (omega arith) arrived-Agrees

-- A write to a stream that has been closed is refused.
closed_write_run :
    write none four (record a_stream { closed_at_nano = 9 }) (new_send_buffer 10)
    ≡ ok (new_send_buffer 10, 0, some StreamError.unexpected_eof)
unfolding write
closed_write_run = refl
