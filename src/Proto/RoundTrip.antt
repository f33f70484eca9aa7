-- ===== src/Proto/RoundTrip.antt =====
-- `DecodePayload` on the bytes of `EncodePayload`.
use qotp.Base.{
  ℕ, ◌+◌, ◌/◌, ◌%◌, ◌^◌, ◌<◌, ◌≡◌, refl, ap, ◌∙◌, Bool, true, false, not, ◌&&◌, ◌||◌, Option, none,
  some, List, [], ◌∷◌, ◌++◌, append_assoc, arith, ok, ◌>>=◌, if◌then◌else◌, ltb, leb, is_some,
  length, drop, drop_past, length-append, AllSome, length-drop, length-eq-zero, ◌==◌, inl, inr,
  Bool-cases,
}
use mathlib.Core.Option
use qotp.Bytes.{uint32, offset_varint, offset_size}
use qotp.Bytes.RoundTrip.{
  le_bytes, length-le_bytes, uint16-le_bytes, uint32-le_bytes, offset_limit, offset_varint-le_bytes,
}
use qotp.Proto.{
  Ack, PayloadHeader, encode_rcv_window, decode_rcv_window, bytes, header_byte, byte_of, read_ack,
  calc_proto_overhead, encode_payload, decode_payload,
}
use qotp.Proto.Layout.{extended, ack_only, ack_section, data_section, frame, encode_payload-frame}

-- The ranges of the fields: their Go types, and 48 bits for an offset.
pub record AckFits (a : Ack) : Type 0 where
  pub stream_id : a.stream_id < 2 ^ 32
  pub offset : a.offset < 2 ^ 48
  pub len : a.len < 2 ^ 16

pub record Fits (p : PayloadHeader) : Type 0 where
  pub ack : AllSome AckFits p.ack
  pub stream_id : p.stream_id < 2 ^ 32
  pub stream_offset : p.stream_offset < 2 ^ 48

-- The ACK as it arrives: its window has gone through the one-byte code.
abbrev pub received_ack : Ack → Ack
received_ack a = record a { rcv_wnd = decode_rcv_window (encode_rcv_window a.rcv_wnd) }

-- The header as it arrives: an ACK alone carries no stream id and no offset of its own.
abbrev pub received : PayloadHeader → Option (List ℕ) → PayloadHeader × Option (List ℕ)
received p user_data =
    if ack_only p user_data
    then (record p { ack = Option.map received_ack p.ack; stream_id = 0; stream_offset = 0 }, none)
    else (record p { ack = Option.map received_ack p.ack }, some (bytes user_data))

abbrev ack_size : Option Ack → Bool → ℕ
ack_size none is_extend = 0
ack_size (some a) is_extend = 7 + offset_size is_extend

header_fields :
    (is_close is_ack is_extend : Bool)
    → let h = header_byte is_close is_ack is_extend in
      (h % 32 ≡ 0)
      × ((h / 32 % 4 == 0 || h / 32 % 4 == 2) ≡ is_ack)
      × ((h / 32 % 4 == 2 || h / 32 % 4 == 3) ≡ is_close)
      × (not (h / 128 % 2 == 0) ≡ is_extend)
unfolding header_byte
header_fields true true true = (refl, refl, refl, refl)
header_fields true true false = (refl, refl, refl, refl)
header_fields true false true = (refl, refl, refl, refl)
header_fields true false false = (refl, refl, refl, refl)
header_fields false true true = (refl, refl, refl, refl)
header_fields false true false = (refl, refl, refl, refl)
header_fields false false true = (refl, refl, refl, refl)
header_fields false false false = (refl, refl, refl, refl)

module _ (a : Ack) (is_extend : Bool) (fits : AckFits a) (l rest : List ℕ) (n : ℕ) where
  read_ack-some :
      a.offset < offset_limit is_extend
      → drop n l ≡ ack_section (some a) is_extend ++ rest
      → (read_ack true is_extend l n ≡ ok (some (received_ack a), n + ack_size (some a) is_extend))
        × (drop (n + ack_size (some a) is_extend) l ≡ rest)
  unfolding read_ack byte_of
  read_ack-some lo h =
      let w = encode_rcv_window a.rcv_wnd in
      let o = le_bytes (offset_size is_extend) a.offset in
      let at_id : drop n l ≡ le_bytes 4 a.stream_id ++ (o ++ (le_bytes 2 a.len ++ w ∷ rest)) =
        h ∙ ap (◌++◌ (le_bytes 4 a.stream_id)) (append_assoc o (le_bytes 2 a.len ++ w ∷ []) rest) in
      let at_offset : drop (n + 4) l ≡ o ++ (le_bytes 2 a.len ++ w ∷ rest) =
        drop_past n l (le_bytes 4 a.stream_id) _ at_id in
      let at_len : drop (n + 4 + offset_size is_extend) l ≡ le_bytes 2 a.len ++ w ∷ rest =
        rw length-le_bytes at (drop_past (n + 4) l o _ at_offset) in
      let at_window : drop (n + 4 + offset_size is_extend + 2) l ≡ w ∷ rest =
        drop_past (n + 4 + offset_size is_extend) l (le_bytes 2 a.len) _ at_len in
      let at_end : drop (n + 4 + offset_size is_extend + 2 + 1) l ≡ rest =
        drop_past (n + 4 + offset_size is_extend + 2) l (w ∷ []) rest at_window in
      let size : n + 4 + offset_size is_extend + 2 + 1 ≡ n + (7 + offset_size is_extend) =
        omega arith in
      (
        rw (
          at_id,
          uint32-le_bytes a.stream_id (o ++ (le_bytes 2 a.len ++ w ∷ rest)) fits.stream_id,
          at_offset,
          offset_varint-le_bytes a.offset is_extend (le_bytes 2 a.len ++ w ∷ rest) lo,
          at_len,
          uint16-le_bytes a.len (w ∷ rest) fits.len,
          at_window,
          size,
        ),
        rw size at at_end,
      )

-- The same where there may be no ACK.
abbrev AckBelow : Option Ack → ℕ → Type 0
AckBelow none m = Unit
AckBelow (some a) m = a.offset < m

read_ack-section :
    (ack : Option Ack) (is_extend : Bool) (l rest : List ℕ) (n : ℕ)
    → AllSome AckFits ack
    → AckBelow ack (offset_limit is_extend)
    → drop n l ≡ ack_section ack is_extend ++ rest
    → (read_ack (is_some ack) is_extend l n
        ≡ ok (Option.map received_ack ack, n + ack_size ack is_extend))
      × (drop (n + ack_size ack is_extend) l ≡ rest)
unfolding read_ack
read_ack-section none is_extend l rest n fits lo h =
    let e : n + 0 ≡ n = omega arith in rw e (refl, h)
read_ack-section (some a) is_extend l rest n fits lo h =
    read_ack-some a is_extend fits l rest n lo h

-- What stands behind the ACK section of a frame that has a data section.
data_section_reads :
    (p : PayloadHeader) (user_data : Option (List ℕ)) (is_extend : Bool) (l : List ℕ) (n : ℕ)
    → Fits p
    → p.stream_offset < offset_limit is_extend
    → drop n l ≡ data_section p user_data is_extend
    → (uint32 (drop n l) ≡ ok p.stream_id)
      × (offset_varint (drop (n + 4) l) is_extend ≡ ok p.stream_offset)
      × (drop (n + 4 + offset_size is_extend) l ≡ bytes user_data)
data_section_reads p user_data is_extend l n fits lo at_id =
    let o = le_bytes (offset_size is_extend) p.stream_offset in
    let at_offset : drop (n + 4) l ≡ o ++ bytes user_data =
      drop_past n l (le_bytes 4 p.stream_id) _ at_id in
    (
      rw at_id (uint32-le_bytes p.stream_id (o ++ bytes user_data) fits.stream_id),
      rw at_offset (offset_varint-le_bytes p.stream_offset is_extend (bytes user_data) lo),
      rw length-le_bytes at (drop_past (n + 4) l o (bytes user_data) at_offset),
    )

offsets_below :
    (p : PayloadHeader)
    → Fits p
    → AckBelow p.ack (offset_limit (extended p)) × (p.stream_offset < offset_limit (extended p))
offsets_below p fits = ground arith

length-ack_section :
    (ack : Option Ack) (is_extend : Bool)
    → length (ack_section ack is_extend) ≡ ack_size ack is_extend
unfolding offset_size
length-ack_section none is_extend = refl
length-ack_section (some a) true = refl
length-ack_section (some a) false = refl

length-data_section :
    (p : PayloadHeader) (user_data : Option (List ℕ)) (is_extend : Bool)
    → length (data_section p user_data is_extend)
      ≡ 4 + offset_size is_extend + length (bytes user_data)
unfolding offset_size
length-data_section p user_data true = omega arith
length-data_section p user_data false = omega arith

-- The user data of a frame, read off the end.
abbrev rest_from : ℕ → List ℕ → Option (List ℕ)
rest_from n l = if ltb n (length l) then some (drop n l) else some []

rest_from_lem : (n : ℕ) (l xs : List ℕ) → drop n l ≡ xs → rest_from n l ≡ some xs
rest_from_lem n l xs h = ground (arith, length-drop n l, ap length h, length-eq-zero xs)

length-rest :
    (empty : Bool) (p : PayloadHeader) (user_data : Option (List ℕ)) (is_extend : Bool)
    → length (if empty then [] else data_section p user_data is_extend)
      ≡ (if empty then 0 else 4 + offset_size is_extend + length (bytes user_data))
length-rest true p user_data is_extend = refl
length-rest false p user_data is_extend = length-data_section p user_data is_extend

length-frame :
    (p : PayloadHeader) (user_data : Option (List ℕ))
    → length (frame p user_data)
      ≡ 1
        + ack_size p.ack (extended p)
        + (if ack_only p user_data
            then 0
            else 4 + offset_size (extended p) + length (bytes user_data))
length-frame p user_data =
    let x = extended p in
    omega (
      arith,
      length-append (ack_section p.ack x)
          (if ack_only p user_data then [] else data_section p user_data x),
      length-ack_section p.ack x,
      length-rest (ack_only p user_data) p user_data x,
    )

-- The lengths by which `DecodePayload` tells an ACK alone.
lengths_tell :
    (p : PayloadHeader) (user_data : Option (List ℕ)) (n : ℕ)
    → n
      ≡ 1
        + ack_size p.ack (extended p)
        + (if ack_only p user_data
            then 0
            else 4 + offset_size (extended p) + length (bytes user_data))
    → (leb 8 n ≡ true)
      × ((is_some p.ack && ltb n 18) ≡ ack_only p user_data)
      × (leb (calc_proto_overhead (is_some p.ack) (extended p) (ack_only p user_data)) n ≡ true)
unfolding calc_proto_overhead offset_size
lengths_tell p user_data n h = ground arith

-- For every header whose fields are in range and every user data, `DecodePayload` of the bytes that
-- `EncodePayload` made returns the same header and the same user data, but that the window of the
-- ACK has gone through its one-byte code, that a nil slice beside a data section arrives empty, and
-- that an ACK alone (an ACK, no close, nil user data) arrives with stream id and offset 0.
pub decode_payload-encode_payload :
    (p : PayloadHeader) (user_data : Option (List ℕ))
    → Fits p
    → encode_payload p user_data >>= (λ r. decode_payload r.0) ≡ ok (received p user_data)
unfolding decode_payload byte_of calc_proto_overhead
decode_payload-encode_payload p user_data fits =
    let x = extended p in
    let l = frame p user_data in
    let h = header_fields p.is_close (is_some p.ack) x in
    let lo = offsets_below p fits in
    let n = 1 + ack_size p.ack x in
    let rest : List ℕ = if ack_only p user_data then [] else data_section p user_data x in
    let a = read_ack-section p.ack x l rest 1 fits.ack lo.0 refl in
    let len = lengths_tell p user_data (length l) (length-frame p user_data) in
    rw (encode_payload-frame p user_data, h.0, h.1, h.2, h.3, len.0, len.1, len.2, a.0)
      (elim (Bool-cases (ack_only p user_data)) [
        | inl e ↦ rw e
        | inr e ↦
            let at_data : drop n l ≡ data_section p user_data x =
              a.1 ∙ ap (λ (b : Bool). if b then [] else data_section p user_data x) e in
            let d = data_section_reads p user_data x l n fits lo.1 at_data in
            rw (d.0, d.1, rest_from_lem (n + 4 + offset_size x) l (bytes user_data) d.2, e)
      ])
