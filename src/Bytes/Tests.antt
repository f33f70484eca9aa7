-- ===== src/Bytes/Tests.antt =====
-- Runs of the byte codecs, and the theorems at one input each.
use qotp.Base.{◌≡◌, [], ◌∷◌, ◌++◌, ok, ◌>>=◌, arith, replicate}
use qotp.Bytes.{
  put_uint16, put_uint24, put_uint32, put_uint48, put_uint64, uint16, uint24, uint32, uint48,
  uint64,
}
use qotp.Bytes.RoundTrip.{uint-put_uint}

uint-put_uint_example :
    (put_uint16 (replicate 2 0 ++ (9 ∷ [])) 513 >>= (λ r. uint16 r.0) ≡ ok 513)
    × (put_uint24 (replicate 3 0 ++ (9 ∷ [])) 70_000 >>= (λ r. uint24 r.0) ≡ ok 70_000)
    × (put_uint32 (replicate 4 0 ++ (9 ∷ [])) 5 >>= (λ r. uint32 r.0) ≡ ok 5)
    × (put_uint48 (replicate 6 0 ++ (9 ∷ [])) 6 >>= (λ r. uint48 r.0) ≡ ok 6)
    × (put_uint64 (replicate 8 0 ++ (9 ∷ [])) 7 >>= (λ r. uint64 r.0) ≡ ok 7)
uint-put_uint_example =
    uint-put_uint 513 70_000 5 6 7 (9 ∷ []) (omega arith) (omega arith) (omega arith) (omega arith)
      (omega arith)
