-- ===== src/Proto/Layout.antt =====
-- The bytes that `EncodePayload` lays out, described on their own, beside its
-- writes at offsets into a zeroed buffer.
use qotp.Base.{
  ℕ, ◌+◌, min, ◌≡◌, refl, ap, Bool, true, false, not, ◌&&◌, ◌||◌, Option, none, some, List, [], ◌∷◌,
  ◌++◌, append-nil, append_assoc, arith, Run, ok, ◌>>=◌, if◌then◌else◌, ltb, is_some, length,
  replicate, copy_into, replicate-add, length-append, length-replicate, drop-append_length,
  take-append_length,
}
use qotp.Bytes.{put_uint16, put_uint32, put_offset_varint, offset_size, write_at}
use qotp.Bytes.RoundTrip.{
  le_bytes, length-le_bytes, Writes, put_uint16-Writes, put_uint32-Writes, put_offset_varint-Writes,
  write_at-append,
}
use qotp.Proto.{
  Ack, PayloadHeader, encode_rcv_window, calc_proto_overhead, bytes, put_byte, header_byte,
  ack_beyond_24, write_ack, encode_payload,
}

-- Whether the header carries 48-bit offsets, and whether the data header is left out.
abbrev pub extended : PayloadHeader → Bool
extended p = ltb 0xffffff p.stream_offset || ack_beyond_24 p.ack

abbrev pub ack_only : PayloadHeader → Option (List ℕ) → Bool
ack_only p user_data = not p.is_close && is_some p.ack && not (is_some user_data)

abbrev pub ack_section : Option Ack → Bool → List ℕ
ack_section none is_extend = []
ack_section (some a) is_extend =
    le_bytes 4 a.stream_id
    ++ (le_bytes (offset_size is_extend) a.offset
        ++ (le_bytes 2 a.len ++ (encode_rcv_window a.rcv_wnd ∷ [])))

abbrev pub data_section : PayloadHeader → Option (List ℕ) → Bool → List ℕ
data_section p user_data is_extend =
    le_bytes 4 p.stream_id ++ (le_bytes (offset_size is_extend) p.stream_offset ++ bytes user_data)

abbrev pub frame : PayloadHeader → Option (List ℕ) → List ℕ
frame p user_data =
    header_byte p.is_close (is_some p.ack) (extended p)
    ∷ (ack_section p.ack (extended p)
        ++ (if ack_only p user_data then [] else data_section p user_data (extended p)))

-- `f` fills the next `n` zeroes of the buffer with `bs`, and moves the offset behind them.
record Appends (n : ℕ) (bs : List ℕ) (f : List ℕ × ℕ → Run (List ℕ × ℕ)) : Type 0 where
  run :
      (pre t : List ℕ)
      → f (pre ++ (replicate n 0 ++ t), length pre) ≡ ok (pre ++ (bs ++ t), length (pre ++ bs))

then-Appends :
    {m n : ℕ} {xs ys : List ℕ} {f g : List ℕ × ℕ → Run (List ℕ × ℕ)}
    → Appends m xs f
    → Appends n ys g
    → Appends (m + n) (xs ++ ys) (λ s. f s >>= g)
then-Appends {m} {n} {xs} {ys} hf hg = record {
  run = λ pre t.
      rw
        (
          replicate-add {A = ℕ} m n 0,
          append_assoc (replicate m 0) (replicate n 0) t,
          hf.run pre (replicate n 0 ++ t),
          ← append_assoc pre xs (replicate n 0 ++ t),
          hg.run (pre ++ xs) t,
        )
        (simp append_assoc);
}

nothing-Appends : Appends 0 [] ok
nothing-Appends = record { run = λ pre t. rw append-nil }

le-Appends :
    (n v : ℕ) (put : List ℕ → Run (List ℕ × ℕ))
    → Writes n v put
    → Appends n (le_bytes n v) (λ s. write_at s.0 s.1 put)
le-Appends n v put h = record {
  run = λ pre t. rw (write_at-append n v put pre t h, length-append, length-le_bytes);
}

byte-Appends : (v : ℕ) → Appends 1 (v ∷ []) (λ s. write_at s.0 s.1 (λ b. put_byte b v))
unfolding write_at put_byte
byte-Appends v = record {
  run = λ pre t. rw (drop-append_length pre (0 ∷ t), take-append_length pre (0 ∷ t), length-append);
}

abbrev ack_room : Option Ack → Bool → ℕ
ack_room none is_extend = 0
ack_room (some a) is_extend = 4 + (offset_size is_extend + (2 + 1))

write_ack-Appends :
    (ack : Option Ack) (is_extend : Bool)
    → Appends (ack_room ack is_extend) (ack_section ack is_extend) (write_ack ack is_extend)
unfolding write_ack
write_ack-Appends none is_extend = nothing-Appends
write_ack-Appends (some a) is_extend =
    then-Appends
      (le-Appends 4 a.stream_id (λ b. put_uint32 b a.stream_id) (put_uint32-Writes a.stream_id))
      (then-Appends
        (le-Appends (offset_size is_extend) a.offset (λ b. put_offset_varint b a.offset is_extend)
          (put_offset_varint-Writes a.offset is_extend))
        (then-Appends (le-Appends 2 a.len (λ b. put_uint16 b a.len) (put_uint16-Writes a.len))
          (byte-Appends (encode_rcv_window a.rcv_wnd))))

copy-front : (src t : List ℕ) → copy_into (replicate (length src) 0 ++ t) src ≡ src ++ t
copy-front [] [] = refl
copy-front [] (x ∷ t) = refl
copy-front (y ∷ src) t = ap (◌∷◌ y) (copy-front src t)

-- The copy of the user data, under its test.
abbrev write_user_data : List ℕ → List ℕ × ℕ → Run (List ℕ × ℕ)
write_user_data src (encoded, offset) =
    if ltb 0 (length src)
    then write_at encoded offset (λ b. ok (copy_into b src, min (length b) (length src)))
    else ok (encoded, offset)

write_user_data-run :
    (src pre t : List ℕ)
    → write_user_data src (pre ++ (replicate (length src) 0 ++ t), length pre)
      ≡ ok (pre ++ (src ++ t), length (pre ++ src))
unfolding write_at
write_user_data-run [] pre t = rw append-nil
write_user_data-run (y ∷ src) pre t =
    let room = replicate (length (y ∷ src)) 0 ++ t in
    ground (
      arith,
      drop-append_length pre room,
      take-append_length pre room,
      copy-front (y ∷ src) t,
      length-append pre (y ∷ src),
      length-append (replicate (length src) 0) t,
      length-replicate {A = ℕ} (length src) 0,
    )

write_user_data-Appends : (src : List ℕ) → Appends (length src) src (write_user_data src)
write_user_data-Appends src = record { run = write_user_data-run src }

abbrev write_data : PayloadHeader → Option (List ℕ) → Bool → List ℕ × ℕ → Run (List ℕ × ℕ)
write_data p user_data is_extend (encoded, offset) = do
  (encoded, offset) ← write_at encoded offset (λ b. put_uint32 b p.stream_id)
  (encoded, offset) ← write_at encoded offset (λ b. put_offset_varint b p.stream_offset is_extend)
  write_user_data (bytes user_data) (encoded, offset)

write_data-Appends :
    (p : PayloadHeader) (user_data : Option (List ℕ)) (is_extend : Bool)
    → Appends
        (4 + (offset_size is_extend + length (bytes user_data)))
        (data_section p user_data is_extend)
        (write_data p user_data is_extend)
write_data-Appends p user_data is_extend =
    then-Appends
      (le-Appends 4 p.stream_id (λ b. put_uint32 b p.stream_id) (put_uint32-Writes p.stream_id))
      (then-Appends
        (le-Appends (offset_size is_extend) p.stream_offset
          (λ b. put_offset_varint b p.stream_offset is_extend)
          (put_offset_varint-Writes p.stream_offset is_extend))
        (write_user_data-Appends (bytes user_data)))

-- What follows the ACK section.
abbrev write_rest : Bool → PayloadHeader → Option (List ℕ) → Bool → List ℕ × ℕ → Run (List ℕ × ℕ)
write_rest empty p user_data is_extend s =
    if empty then ok s else write_data p user_data is_extend s

abbrev rest_room : Bool → Option (List ℕ) → Bool → ℕ
rest_room empty user_data is_extend =
    if empty then 0 else 4 + (offset_size is_extend + length (bytes user_data))

write_rest-Appends :
    (empty : Bool) (p : PayloadHeader) (user_data : Option (List ℕ)) (is_extend : Bool)
    → Appends
        (rest_room empty user_data is_extend)
        (if empty then [] else data_section p user_data is_extend)
        (write_rest empty p user_data is_extend)
write_rest-Appends true p user_data is_extend = nothing-Appends
write_rest-Appends false p user_data is_extend = write_data-Appends p user_data is_extend

-- The buffer that `EncodePayload` allocates is what the sections need.
overhead_room :
    (p : PayloadHeader) (user_data : Option (List ℕ))
    → calc_proto_overhead (is_some p.ack) (extended p) (ack_only p user_data)
        + length (bytes user_data)
      ≡ 1 + (ack_room p.ack (extended p) + rest_room (ack_only p user_data) user_data (extended p))
unfolding calc_proto_overhead offset_size
overhead_room p user_data = ground arith

-- A buffer of just the size, from its front.
Appends-whole :
    {m n : ℕ} {bs : List ℕ} {f : List ℕ × ℕ → Run (List ℕ × ℕ)}
    → m ≡ n
    → Appends n bs f
    → f (replicate m 0, 0) ≡ ok (bs, length bs)
Appends-whole {m} {n} {bs} e h =
    rw e (rw (append-nil {A = ℕ} (replicate n 0), append-nil bs) at (h.run [] []))

frame-Appends :
    (p : PayloadHeader) (user_data : Option (List ℕ))
    → Appends
        (1
          + (ack_room p.ack (extended p) + rest_room (ack_only p user_data) user_data (extended p)))
        (frame p user_data)
        (λ s.
          write_at s.0 s.1 (λ b. put_byte b (header_byte p.is_close (is_some p.ack) (extended p)))
          >>= λ s.
              write_ack p.ack (extended p) s
              >>= write_rest (ack_only p user_data) p user_data (extended p))
frame-Appends p user_data =
    then-Appends (byte-Appends (header_byte p.is_close (is_some p.ack) (extended p))) (
      then-Appends (write_ack-Appends p.ack (extended p))
        (write_rest-Appends (ack_only p user_data) p user_data (extended p)))

-- `EncodePayload` never writes out of its buffer and fills it exactly: for every header and user
-- data it returns the header byte, the ACK section if there is an ACK, then, unless it sends an ACK
-- alone, the data section with the user data; and the offset that it returns is the length.
pub encode_payload-frame :
    (p : PayloadHeader) (user_data : Option (List ℕ))
    → encode_payload p user_data ≡ ok (frame p user_data, length (frame p user_data))
unfolding encode_payload
encode_payload-frame p user_data =
    Appends-whole (overhead_room p user_data) (frame-Appends p user_data)
