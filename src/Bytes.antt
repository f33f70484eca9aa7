-- ===== src/Bytes.antt =====
-- The little-endian integers of codec.go: `PutUint16` to `PutUint64`, `Uint16` to `Uint64`, and
-- the 24 or 48 bit offsets. A byte slice is a list of numbers below 256; `byte(v >> k)` is
-- `v / 2 ^ k % 256`, and the `|` of shifted bytes, whose bits are disjoint, is their sum. An index
-- past the end of a slice panics.
pub mod RoundTrip
mod Tests
use qotp.Base.{
  ℕ, ◌+◌, ◌*◌, ◌/◌, ◌%◌, ◌^◌, ◌<◌, Bool, List, ◌∷◌, ◌++◌, take, drop, Run, ok, panic, ◌>>=◌,
  if◌then◌else◌,
}

abbrev pub IsByte : ℕ → Type 0
IsByte b = b < 256

-- `byte(v >> k)`
abbrev pub byte_at : ℕ → ℕ → ℕ
byte_at v k = v / 2 ^ k % 256

-- Each writer returns the slice that it wrote to, and the number of bytes.
unfoldable pub put_uint16 : List ℕ → ℕ → Run (List ℕ × ℕ)
put_uint16 (_ ∷ _ ∷ b) v = ok (byte_at v 0 ∷ byte_at v 8 ∷ b, 2)
put_uint16 _ v = panic

unfoldable pub put_uint24 : List ℕ → ℕ → Run (List ℕ × ℕ)
put_uint24 (_ ∷ _ ∷ _ ∷ b) v = ok (byte_at v 0 ∷ byte_at v 8 ∷ byte_at v 16 ∷ b, 3)
put_uint24 _ v = panic

unfoldable pub put_uint32 : List ℕ → ℕ → Run (List ℕ × ℕ)
put_uint32 (_ ∷ _ ∷ _ ∷ _ ∷ b) v =
    ok (byte_at v 0 ∷ byte_at v 8 ∷ byte_at v 16 ∷ byte_at v 24 ∷ b, 4)
put_uint32 _ v = panic

unfoldable pub put_uint48 : List ℕ → ℕ → Run (List ℕ × ℕ)
put_uint48 (_ ∷ _ ∷ _ ∷ _ ∷ _ ∷ _ ∷ b) v =
    ok
      (byte_at v 0 ∷ byte_at v 8 ∷ byte_at v 16 ∷ byte_at v 24 ∷ byte_at v 32 ∷ byte_at v 40 ∷ b, 6)
put_uint48 _ v = panic

unfoldable pub put_uint64 : List ℕ → ℕ → Run (List ℕ × ℕ)
put_uint64 (_ ∷ _ ∷ _ ∷ _ ∷ _ ∷ _ ∷ _ ∷ _ ∷ b) v = ok (
  byte_at v 0
      ∷ byte_at v 8
      ∷ byte_at v 16
      ∷ byte_at v 24
      ∷ byte_at v 32
      ∷ byte_at v 40
      ∷ byte_at v 48
      ∷ byte_at v 56
      ∷ b,
  8,
)
put_uint64 _ v = panic

unfoldable pub uint16 : List ℕ → Run ℕ
uint16 (b0 ∷ b1 ∷ b) = ok (b0 + b1 * 2 ^ 8)
uint16 _ = panic

unfoldable pub uint24 : List ℕ → Run ℕ
uint24 (b0 ∷ b1 ∷ b2 ∷ b) = ok (b0 + b1 * 2 ^ 8 + b2 * 2 ^ 16)
uint24 _ = panic

unfoldable pub uint32 : List ℕ → Run ℕ
uint32 (b0 ∷ b1 ∷ b2 ∷ b3 ∷ b) = ok (b0 + b1 * 2 ^ 8 + b2 * 2 ^ 16 + b3 * 2 ^ 24)
uint32 _ = panic

unfoldable pub uint48 : List ℕ → Run ℕ
uint48 (b0 ∷ b1 ∷ b2 ∷ b3 ∷ b4 ∷ b5 ∷ b) =
    ok (b0 + b1 * 2 ^ 8 + b2 * 2 ^ 16 + b3 * 2 ^ 24 + b4 * 2 ^ 32 + b5 * 2 ^ 40)
uint48 _ = panic

unfoldable pub uint64 : List ℕ → Run ℕ
uint64 (b0 ∷ b1 ∷ b2 ∷ b3 ∷ b4 ∷ b5 ∷ b6 ∷ b7 ∷ b) = ok (
    b0
    + b1 * 2 ^ 8
    + b2 * 2 ^ 16
    + b3 * 2 ^ 24
    + b4 * 2 ^ 32
    + b5 * 2 ^ 40
    + b6 * 2 ^ 48
    + b7 * 2 ^ 56)
uint64 _ = panic

unfoldable pub put_offset_varint : List ℕ → ℕ → Bool → Run (List ℕ × ℕ)
unfolding put_uint24 put_uint48
put_offset_varint buf offset is_extend =
    if is_extend then put_uint48 buf offset else put_uint24 buf offset

unfoldable pub offset_varint : List ℕ → Bool → Run ℕ
unfolding uint24 uint48
offset_varint buf is_extend = if is_extend then uint48 buf else uint24 buf

-- `n += put(b[n:])` for one of the writers: the slice `b[n:]` shares the memory of `b`.
unfoldable pub write_at : List ℕ → ℕ → (List ℕ → Run (List ℕ × ℕ)) → Run (List ℕ × ℕ)
write_at b n put = do (tail, k) ← put (drop n b); ok (take n b ++ tail, n + k)

unfoldable pub offset_size : Bool → ℕ
offset_size is_extend = if is_extend then 6 else 3
