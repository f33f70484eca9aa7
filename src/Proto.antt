-- ===== src/Proto.antt =====
-- The transport header of proto.go: `EncodePayload`, `DecodePayload`, `calcProtoOverhead` and the
-- receive window codec. A nil `[]byte` is `none`, an empty one `some []`. Header bytes are read
-- with `% 2 ^ k` for a mask of k ones and `/ 2 ^ k` for a shift.
pub mod Window
pub mod Layout
pub mod RoundTrip
pub mod Safety
mod Tests
use qotp.Base.{
  ℕ, zero, suc, ◌+◌, ◌-◌, ◌*◌, ◌/◌, ◌%◌, ◌^◌, ◌<◌, min, bit_or, Bool, true, false, not, ◌&&◌, ◌||◌,
  Option, none, some, List, [], ◌∷◌, ◌++◌, Run, ok, err, panic, ◌>>=◌, ◌>>◌, guard, Error,
  if◌then◌else◌, ltb, leb, ◌==◌, is_some, length, replicate, take, drop, copy_into,
}
use qotp.Bytes.{
  put_uint16, put_uint32, put_offset_varint, uint16, uint32, offset_varint, offset_size, write_at,
}

abbrev pub proto_version : ℕ
proto_version = 0

abbrev pub type_flag : ℕ
type_flag = 5

abbrev pub offset24or48_flag : ℕ
offset24or48_flag = 7

abbrev pub min_proto_size : ℕ
min_proto_size = 8

pub record Ack : Type 0 where
  pub stream_id : ℕ
  pub offset : ℕ
  pub len : ℕ
  pub rcv_wnd : ℕ

pub record PayloadHeader : Type 0 where
  pub is_close : Bool
  pub ack : Option Ack
  pub stream_id : ℕ
  pub stream_offset : ℕ

-- `bits.Len64`: the number of binary digits, at most `fuel`.
unfoldable pub bits_len : ℕ → ℕ → ℕ
bits_len zero x = 0
bits_len (suc fuel) x = let rest = bits_len fuel (x / 2) in if x == 0 then 0 else suc rest

-- From 256 on `high_bit` is 8 at least, so no difference here is negative.
unfoldable pub encode_rcv_window : ℕ → ℕ
encode_rcv_window actual_bytes =
    if actual_bytes == 0
    then 0
    else if leb actual_bytes 255
    then 1
    else let high_bit = bits_len 64 actual_bytes - 1 in
      let lower_bits = actual_bytes / 2 ^ (high_bit - 3) % 8 in
      let encoded = (high_bit - 8) * 8 + lower_bits + 2 in if ltb 255 encoded then 255 else encoded

unfoldable pub decode_rcv_window : ℕ → ℕ
decode_rcv_window encoded =
    if encoded == 0
    then 0
    else if encoded == 1
    then 128
    else let adjusted = encoded - 2 in
      let high_bit = adjusted / 8 + 8 in
      let sub_step = adjusted % 8 in
      let base = 2 ^ high_bit % 2 ^ 64 in
      let increment = base / 8 in (base + sub_step * increment) % 2 ^ 64

unfoldable pub calc_proto_overhead : Bool → Bool → Bool → ℕ
calc_proto_overhead is_ack is_extend is_empty_data_header =
    let ext_bytes : ℕ = if is_extend then 6 else 3 in
    1
    + (if is_empty_data_header then 0 else 4 + ext_bytes)
    + (if is_ack then 4 + ext_bytes + 2 + 1 else 0)

-- The bytes of a slice, nil or not.
abbrev pub bytes : Option (List ℕ) → List ℕ
bytes none = []
bytes (some user_data) = user_data

-- `b[n] = v`
unfoldable pub put_byte : List ℕ → ℕ → Run (List ℕ × ℕ)
put_byte [] v = panic
put_byte (_ ∷ b) v = ok (v ∷ b, 1)

-- The `switch` on the message type, and the flag for 48-bit offsets.
unfoldable pub header_byte : Bool → Bool → Bool → ℕ
header_byte is_close is_ack is_extend =
    let header = bit_or proto_version (
      if is_close && is_ack
      then 2 * 2 ^ type_flag
      else if is_close
      then 3 * 2 ^ type_flag
      else if is_ack
      then 0 * 2 ^ type_flag
      else 1 * 2 ^ type_flag) in
    if is_extend then bit_or header (2 ^ offset24or48_flag) else header

-- `isAck && p.Ack.offset > 0xffffff`
abbrev pub ack_beyond_24 : Option Ack → Bool
ack_beyond_24 none = false
ack_beyond_24 (some ack) = ltb 0xffffff ack.offset

unfoldable pub write_ack : Option Ack → Bool → List ℕ × ℕ → Run (List ℕ × ℕ)
write_ack none is_extend (encoded, offset) = ok (encoded, offset)
write_ack (some ack) is_extend (encoded, offset) = do
  (encoded, offset) ← write_at encoded offset (λ b. put_uint32 b ack.stream_id)
  (encoded, offset) ← write_at encoded offset (λ b. put_offset_varint b ack.offset is_extend)
  (encoded, offset) ← write_at encoded offset (λ b. put_uint16 b ack.len)
  write_at encoded offset (λ b. put_byte b (encode_rcv_window ack.rcv_wnd))

unfoldable pub encode_payload : PayloadHeader → Option (List ℕ) → Run (List ℕ × ℕ)
encode_payload p user_data = do
  let is_ack = is_some p.ack
  let is_empty_data_header = not p.is_close && is_ack && not (is_some user_data)
  let is_extend = ltb 0xffffff p.stream_offset || ack_beyond_24 p.ack
  let header = header_byte p.is_close is_ack is_extend
  let overhead = calc_proto_overhead is_ack is_extend is_empty_data_header
  let user_data_len = length (bytes user_data)
  (encoded, offset) ← write_at (replicate (overhead + user_data_len) 0) 0 (λ b. put_byte b header)
  (encoded, offset) ← write_ack p.ack is_extend (encoded, offset)
  if is_empty_data_header then ok (encoded, offset) else (do
    (encoded, offset) ← write_at encoded offset (λ b. put_uint32 b p.stream_id)
    (encoded, offset) ← write_at encoded offset (λ b. put_offset_varint b p.stream_offset is_extend)
    if ltb 0 user_data_len
        then write_at encoded offset
            (λ b. ok (copy_into b (bytes user_data), min (length b) user_data_len))
        else ok (encoded, offset))

-- `data[n]`
unfoldable pub byte_of : List ℕ → Run ℕ
byte_of [] = panic
byte_of (x ∷ b) = ok x

-- The ACK section, if there is one, and the offset behind it.
unfoldable pub read_ack : Bool → Bool → List ℕ → ℕ → Run (Option Ack × ℕ)
read_ack false is_extend data_bytes offset = ok (none, offset)
read_ack true is_extend data_bytes offset = do
  stream_id ← uint32 (drop offset data_bytes)
  let offset = offset + 4
  ack_offset ← offset_varint (drop offset data_bytes) is_extend
  let offset = offset + offset_size is_extend
  len ← uint16 (drop offset data_bytes)
  let offset = offset + 2
  window ← byte_of (drop offset data_bytes)
  ok (
    some (record {
      stream_id = stream_id;
      offset = ack_offset;
      len = len;
      rcv_wnd = decode_rcv_window window;
    }),
    offset + 1,
  )

unfoldable pub decode_payload : List ℕ → Run (PayloadHeader × Option (List ℕ))
decode_payload data_bytes = do
  let data_len = length data_bytes
  guard (leb min_proto_size data_len) Error.payload_below_minimum
  header ← byte_of data_bytes
  let version = header % 2 ^ 5
  let type_bits = header / 2 ^ type_flag % 2 ^ 2
  let is_extend = not (header / 2 ^ offset24or48_flag % 2 == 0)
  guard (version == proto_version) Error.unsupported_version
  let is_ack = type_bits == 0 || type_bits == 2
  let is_close = type_bits == 2 || type_bits == 3
  let is_empty_data_header = is_ack && ltb data_len 18
  guard (leb (calc_proto_overhead is_ack is_extend is_empty_data_header) data_len)
      Error.payload_below_overhead
  (ack, offset) ← read_ack is_ack is_extend data_bytes 1
  if is_empty_data_header
      then ok (record { is_close = is_close; ack = ack; stream_id = 0; stream_offset = 0 }, none)
      else (do
        stream_id ← uint32 (drop offset data_bytes)
        let offset = offset + 4
        stream_offset ← offset_varint (drop offset data_bytes) is_extend
        let offset = offset + offset_size is_extend
        ok (
          record {
            is_close = is_close;
            ack = ack;
            stream_id = stream_id;
            stream_offset = stream_offset;
          },
          if ltb offset data_len then some (drop offset data_bytes) else some [],
        ))
