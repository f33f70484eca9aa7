-- ===== src/Crypto/RoundTrip/Keys.antt =====
-- The keys that a handshake message carries in the clear, and the padding of its payload.
use qotp.Base.{
  ℕ, ◌+◌, ◌-◌, ◌^◌, ◌≤◌, ◌<◌, ◌≡◌, refl, ap, ◌∙◌, true, List, [], ◌∷◌, ◌++◌, append-nil,
  append_assoc, arith, ok, some, leb, length, drop, replicate, length-append, length-replicate,
  replicate-add, u16, copy_at, copy_at-zeros, slice-drop, slice-append, drop-append_length,
}
use qotp.Bytes.{uint64}
use qotp.Bytes.RoundTrip.{le_bytes, uint16-le_bytes, put_uint16-Writes}
use qotp.Crypto.Library.{CryptoLib}
use qotp.Crypto.Messages.{read_key, pad, unpad}

module _ (c : CryptoLib) where
  -- A key of 32 bytes that the library takes.
  pub record IsKey (key : List ℕ) : Type 0 where
    pub size : length key ≡ 32
    pub taken : c.new_public_key key ≡ some key

  -- A key behind a part of the packet.
  pub read_key_lem :
      (pre key rest enc_data spare : List ℕ) (from : ℕ)
      → IsKey key
      → length pre ≡ from
      → enc_data ++ spare ≡ pre ++ (key ++ rest)
      → read_key c from enc_data spare ≡ ok key
  unfolding read_key
  read_key_lem pre key rest enc_data spare from is_key at e =
      rw (
        e,
        slice-append pre key rest from (from + 32) at (omega (arith, is_key.size)),
        is_key.taken,
      )

-- A key written behind a part of a header, with room for another one, and with none.
pub write_first_key :
    (pre key : List ℕ) (at : ℕ)
    → length pre ≡ at
    → length key ≡ 32
    → copy_at (pre ++ replicate 64 0) at key ≡ ok ((pre ++ key) ++ replicate 32 0)
write_first_key pre key at at_pre size =
    rw (copy_at-zeros pre key at 64 32 at_pre (omega arith), append_assoc pre key (replicate 32 0))

pub write_key :
    (pre key : List ℕ) (at : ℕ)
    → length pre ≡ at
    → length key ≡ 32
    → copy_at (pre ++ replicate 32 0) at key ≡ ok (pre ++ key)
write_key pre key at at_pre size =
    rw (copy_at-zeros pre key at 32 0 at_pre (omega arith), append-nil key)

-- The connection id of a packet is read off its key.
pub uint64-long : (xs : List ℕ) → 8 ≤ length xs → (v : ℕ) × (uint64 xs ≡ ok v)
unfolding uint64
uint64-long (b0 ∷ b1 ∷ b2 ∷ b3 ∷ b4 ∷ b5 ∷ b6 ∷ b7 ∷ rest) h = (_, refl)
uint64-long [] h = absurd (omega arith)
uint64-long (b0 ∷ []) h = absurd (omega arith)
uint64-long (b0 ∷ b1 ∷ []) h = absurd (omega arith)
uint64-long (b0 ∷ b1 ∷ b2 ∷ []) h = absurd (omega arith)
uint64-long (b0 ∷ b1 ∷ b2 ∷ b3 ∷ []) h = absurd (omega arith)
uint64-long (b0 ∷ b1 ∷ b2 ∷ b3 ∷ b4 ∷ []) h = absurd (omega arith)
uint64-long (b0 ∷ b1 ∷ b2 ∷ b3 ∷ b4 ∷ b5 ∷ []) h = absurd (omega arith)
uint64-long (b0 ∷ b1 ∷ b2 ∷ b3 ∷ b4 ∷ b5 ∷ b6 ∷ []) h = absurd (omega arith)

-- The payload of a first packet: the length of the filler, the filler and the data.
abbrev pub padded_text : ℕ → List ℕ → List ℕ
padded_text fill_len text = le_bytes 2 fill_len ++ (replicate fill_len 0 ++ text)

pub length-padded_text :
    (fill_len : ℕ) (text : List ℕ) → length (padded_text fill_len text) ≡ 2 + fill_len + length text
length-padded_text fill_len text =
    omega (arith, length-append (replicate fill_len 0) text, length-replicate {A = ℕ} fill_len 0)

pub pad_lem :
    (mtu : ℕ) (text : List ℕ)
    → 89 + length text ≤ mtu
    → mtu < 2 ^ 16
    → pad mtu text ≡ ok (padded_text (mtu - (89 + length text)) text)
unfolding pad
pad_lem mtu text fits small =
    let fill = mtu - (89 + length text) in
    let enough : leb (89 + length text) mtu ≡ true = ground arith in
    let low : u16 fill ≡ fill = omega arith in
    let split : length text + 2 + fill ≡ 2 + (fill + length text) = omega arith in
    let apart : replicate {A = ℕ} (2 + (fill + length text)) 0
        ≡ replicate 2 0 ++ (replicate fill 0 ++ replicate (length text) 0) =
      replicate-add 2 (fill + length text) 0
      ∙ ap (λ l. replicate 2 0 ++ l) (replicate-add fill (length text) 0) in
    let pre = le_bytes 2 fill ++ replicate fill 0 in
    let at_pre : length pre ≡ 2 + fill = omega (arith, length-replicate {A = ℕ} fill 0) in
    rw (
      enough,
      low,
      split,
      apart,
      put_uint16-Writes fill (replicate fill 0 ++ replicate (length text) 0),
      copy_at-zeros pre text (2 + fill) (length text) 0 at_pre (omega arith),
      append-nil text,
    )

-- The receiver finds the data behind the filler.
pub unpad_lem :
    (fill_len : ℕ) (text : List ℕ) → fill_len < 2 ^ 16 → unpad (padded_text fill_len text) ≡ ok text
unfolding unpad
unpad_lem fill_len text small =
    let size = length-padded_text fill_len text in
    let filler : List ℕ = replicate fill_len 0 in
    let pre = le_bytes 2 fill_len ++ filler in
    let at_pre : length pre ≡ 2 + fill_len = omega (arith, length-replicate {A = ℕ} fill_len 0) in
    let behind : drop (2 + fill_len) (padded_text fill_len text) ≡ text =
      rw at_pre at (drop-append_length pre text) in
    let fits : 2 + fill_len ≤ length (padded_text fill_len text) = omega arith in
    rw (
      uint16-le_bytes fill_len (filler ++ text) small,
      slice-drop (padded_text fill_len text) (2 + fill_len) fits,
      behind,
    )
