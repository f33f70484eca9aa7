-- ===== src/Bytes/RoundTrip.antt =====
-- What the writers of codec.go leave in a slice, and the readers on it.
use qotp.Base.{
  ℕ, zero, suc, ◌+◌, ◌/◌, ◌%◌, ◌^◌, ◌<◌, ◌≡◌, refl, ap, Bool, true, false, List, [], ◌∷◌, ◌++◌,
  arith, Run, ok, ◌>>=◌, if◌then◌else◌, length, replicate, drop-append_length, take-append_length,
}
use qotp.Bytes.{
  put_uint16, put_uint24, put_uint32, put_uint48, put_uint64, uint16, uint24, uint32, uint48,
  uint64, put_offset_varint, offset_varint, offset_size, write_at,
}

-- The low `n` bytes of a number, the lowest first.
abbrev pub le_bytes : ℕ → ℕ → List ℕ
le_bytes zero v = []
le_bytes (suc n) v = v % 256 ∷ le_bytes n (v / 256)

pub length-le_bytes : (n v : ℕ) → length (le_bytes n v) ≡ n
length-le_bytes zero v = refl
length-le_bytes (suc n) v = ap suc (length-le_bytes n (v / 256))

-- `put` writes the low `n` bytes of `v` at the front of any slice with the room.
abbrev pub Writes : ℕ → ℕ → (List ℕ → Run (List ℕ × ℕ)) → Type 0
Writes n v put = (t : List ℕ) → put (replicate n 0 ++ t) ≡ ok (le_bytes n v ++ t, n)

pub put_uint16-Writes : (v : ℕ) → Writes 2 v (λ b. put_uint16 b v)
unfolding put_uint16
put_uint16-Writes v t = ground arith

pub put_uint24-Writes : (v : ℕ) → Writes 3 v (λ b. put_uint24 b v)
unfolding put_uint24
put_uint24-Writes v t = ground arith

pub put_uint32-Writes : (v : ℕ) → Writes 4 v (λ b. put_uint32 b v)
unfolding put_uint32
put_uint32-Writes v t = ground arith

pub put_uint48-Writes : (v : ℕ) → Writes 6 v (λ b. put_uint48 b v)
unfolding put_uint48
put_uint48-Writes v t = ground arith

pub put_uint64-Writes : (v : ℕ) → Writes 8 v (λ b. put_uint64 b v)
unfolding put_uint64
put_uint64-Writes v t = ground arith

pub put_offset_varint-Writes :
    (v : ℕ) (is_extend : Bool)
    → Writes (offset_size is_extend) v (λ b. put_offset_varint b v is_extend)
unfolding put_offset_varint offset_size
put_offset_varint-Writes v true t = ground arith
put_offset_varint-Writes v false t = ground arith

pub uint16-le_bytes : (v : ℕ) (t : List ℕ) → v < 2 ^ 16 → uint16 (le_bytes 2 v ++ t) ≡ ok v
unfolding uint16
uint16-le_bytes v t h = ground arith

pub uint24-le_bytes : (v : ℕ) (t : List ℕ) → v < 2 ^ 24 → uint24 (le_bytes 3 v ++ t) ≡ ok v
unfolding uint24
uint24-le_bytes v t h = ground arith

pub uint32-le_bytes : (v : ℕ) (t : List ℕ) → v < 2 ^ 32 → uint32 (le_bytes 4 v ++ t) ≡ ok v
unfolding uint32
uint32-le_bytes v t h = ground arith

pub uint48-le_bytes : (v : ℕ) (t : List ℕ) → v < 2 ^ 48 → uint48 (le_bytes 6 v ++ t) ≡ ok v
unfolding uint48
uint48-le_bytes v t h = ground arith

pub uint64-le_bytes : (v : ℕ) (t : List ℕ) → v < 2 ^ 64 → uint64 (le_bytes 8 v ++ t) ≡ ok v
unfolding uint64
uint64-le_bytes v t h = ground arith

-- The bound that an offset must meet: 24 bits, or 48 with the flag.
abbrev pub offset_limit : Bool → ℕ
offset_limit is_extend = if is_extend then 2 ^ 48 else 2 ^ 24

pub offset_varint-le_bytes :
    (v : ℕ) (is_extend : Bool) (t : List ℕ)
    → v < offset_limit is_extend
    → offset_varint (le_bytes (offset_size is_extend) v ++ t) is_extend ≡ ok v
unfolding offset_varint offset_size
offset_varint-le_bytes v true t h = ground arith
offset_varint-le_bytes v false t h = ground arith

-- A write behind a finished part of the buffer.
pub write_at-append :
    (n v : ℕ) (put : List ℕ → Run (List ℕ × ℕ)) (pre t : List ℕ)
    → Writes n v put
    → write_at (pre ++ (replicate n 0 ++ t)) (length pre) put
      ≡ ok (pre ++ (le_bytes n v ++ t), length pre + n)
unfolding write_at
write_at-append n v put pre t h =
    rw (
      drop-append_length pre (replicate n 0 ++ t),
      take-append_length pre (replicate n 0 ++ t),
      h t,
    )

-- Numbers in the range of 16, 24, 32, 48 and 64 bits that were written to a slice of zeros are read
-- back from it, whatever follows them.
pub uint-put_uint :
    (a b c d e : ℕ) (t : List ℕ)
    → a < 2 ^ 16
    → b < 2 ^ 24
    → c < 2 ^ 32
    → d < 2 ^ 48
    → e < 2 ^ 64
    → (put_uint16 (replicate 2 0 ++ t) a >>= (λ r. uint16 r.0) ≡ ok a)
      × (put_uint24 (replicate 3 0 ++ t) b >>= (λ r. uint24 r.0) ≡ ok b)
      × (put_uint32 (replicate 4 0 ++ t) c >>= (λ r. uint32 r.0) ≡ ok c)
      × (put_uint48 (replicate 6 0 ++ t) d >>= (λ r. uint48 r.0) ≡ ok d)
      × (put_uint64 (replicate 8 0 ++ t) e >>= (λ r. uint64 r.0) ≡ ok e)
uint-put_uint a b c d e t ha hb hc hd he = (
  rw (put_uint16-Writes a t) (uint16-le_bytes a t ha),
  rw (put_uint24-Writes b t) (uint24-le_bytes b t hb),
  rw (put_uint32-Writes c t) (uint32-le_bytes c t hc),
  rw (put_uint48-Writes d t) (uint48-le_bytes d t hd),
  rw (put_uint64-Writes e t) (uint64-le_bytes e t he),
)
