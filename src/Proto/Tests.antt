-- ===== src/Proto/Tests.antt =====
-- Runs of proto.go, and the theorems at one input each.
use qotp.Base.{
  ◌*◌, ◌^◌, ◌≤◌, ◌<◌, ◌≡◌, refl, true, some, [], ◌∷◌, ok, err, ◌>>=◌, arith, length, Error,
}
use qotp.Proto.{
  Ack, PayloadHeader, encode_payload, decode_payload, encode_rcv_window, decode_rcv_window,
}
use qotp.Proto.Layout.{frame, encode_payload-frame}
use qotp.Proto.RoundTrip.{Fits, received, decode_payload-encode_payload}
use qotp.Proto.Safety.{decode_payload_outcome}
use qotp.Proto.Window.{decode_rcv_window-encode_rcv_window, encode_rcv_window-decode_rcv_window}

abbrev an_ack : Ack
an_ack = record { stream_id = 7; offset = 70_000; len = 1200; rcv_wnd = 1000 }

abbrev a_header : PayloadHeader
a_header = record { is_close = true; ack = some an_ack; stream_id = 3; stream_offset = 2 ^ 30 }

a_header-Fits : Fits a_header
a_header-Fits = record {
  ack = record { stream_id = omega arith; offset = omega arith; len = omega arith };
  stream_id = omega arith;
  stream_offset = omega arith;
}

decode_payload-encode_payload_example :
    encode_payload a_header (some (1 ∷ 2 ∷ 3 ∷ [])) >>= (λ r. decode_payload r.0)
    ≡ ok (received a_header (some (1 ∷ 2 ∷ 3 ∷ [])))
decode_payload-encode_payload_example =
    decode_payload-encode_payload a_header (some (1 ∷ 2 ∷ 3 ∷ [])) a_header-Fits

encode_payload-frame_example :
    encode_payload a_header (some (1 ∷ 2 ∷ []))
    ≡ ok (frame a_header (some (1 ∷ 2 ∷ [])), length (frame a_header (some (1 ∷ 2 ∷ []))))
encode_payload-frame_example = encode_payload-frame a_header (some (1 ∷ 2 ∷ []))

decode_payload_outcome_example : decode_payload (32 ∷ 0 ∷ 0 ∷ []) ≡ err Error.payload_below_minimum
decode_payload_outcome_example = decode_payload_outcome (32 ∷ 0 ∷ 0 ∷ [])

decode_rcv_window-encode_rcv_window_example :
    (decode_rcv_window (encode_rcv_window 1000) ≤ 1000)
    × (8 * 1000 < 9 * decode_rcv_window (encode_rcv_window 1000))
decode_rcv_window-encode_rcv_window_example = decode_rcv_window-encode_rcv_window 1000 (omega arith)

encode_rcv_window-decode_rcv_window_example : encode_rcv_window (decode_rcv_window 255) ≡ 255
encode_rcv_window-decode_rcv_window_example = encode_rcv_window-decode_rcv_window 255 (omega arith)

-- A window of one byte is advertised as 128 bytes, and one of 900 GiB as 832 GiB.
small_window_run : decode_rcv_window (encode_rcv_window 1) ≡ 128
unfolding decode_rcv_window encode_rcv_window
small_window_run = refl

large_window_run : decode_rcv_window 255 ≡ 832 * 2 ^ 30
unfolding decode_rcv_window
large_window_run = refl
