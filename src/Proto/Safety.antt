-- ===== src/Proto/Safety.antt =====
-- What `DecodePayload` does with bytes from the network, whatever they are.
use qotp.Base.{
  if_elim, Bool-cases, inl, inr, not, ltb, ◌==◌, if◌then◌else◌, ℕ, ◌+◌, ◌/◌, ◌%◌, ◌≤◌, ◌≡◌, refl,
  ap, Bool, true, false, not, ◌&&◌, ◌||◌, ◌==◌, ltb, leb, Option, none, some, List, [], ◌∷◌, arith,
  Run, ok, err, Error, if◌then◌else◌, length, drop, length-drop, inl, inr, Bool-cases,
}
use qotp.Bytes.{uint16, uint24, uint32, uint48, offset_varint, offset_size}
use qotp.Proto.{Ack, decode_rcv_window, byte_of, read_ack, calc_proto_overhead, decode_payload}

-- A call that returns a result.
abbrev Returns {ℓ} : {A : Type ℓ} → Run A → Type ℓ
Returns {A} m = (a : A) × (m ≡ ok a)

-- The readers have their bytes.
uint16-Returns : (b : List ℕ) → 2 ≤ length b → Returns (uint16 b)
unfolding uint16
uint16-Returns [] h = absurd (omega arith)
uint16-Returns (_ ∷ []) h = absurd (omega arith)
uint16-Returns (_ ∷ _ ∷ b) h = (_, refl)

uint24-Returns : (b : List ℕ) → 3 ≤ length b → Returns (uint24 b)
unfolding uint24
uint24-Returns (_ ∷ _ ∷ _ ∷ b) h = (_, refl)
uint24-Returns [] h = absurd (omega arith)
uint24-Returns (_ ∷ []) h = absurd (omega arith)
uint24-Returns (_ ∷ _ ∷ []) h = absurd (omega arith)

uint32-Returns : (b : List ℕ) → 4 ≤ length b → Returns (uint32 b)
unfolding uint32
uint32-Returns (_ ∷ _ ∷ _ ∷ _ ∷ b) h = (_, refl)
uint32-Returns [] h = absurd (omega arith)
uint32-Returns (_ ∷ []) h = absurd (omega arith)
uint32-Returns (_ ∷ _ ∷ []) h = absurd (omega arith)
uint32-Returns (_ ∷ _ ∷ _ ∷ []) h = absurd (omega arith)

uint48-Returns : (b : List ℕ) → 6 ≤ length b → Returns (uint48 b)
unfolding uint48
uint48-Returns (_ ∷ _ ∷ _ ∷ _ ∷ _ ∷ _ ∷ b) h = (_, refl)
uint48-Returns [] h = absurd (omega arith)
uint48-Returns (_ ∷ []) h = absurd (omega arith)
uint48-Returns (_ ∷ _ ∷ []) h = absurd (omega arith)
uint48-Returns (_ ∷ _ ∷ _ ∷ []) h = absurd (omega arith)
uint48-Returns (_ ∷ _ ∷ _ ∷ _ ∷ []) h = absurd (omega arith)
uint48-Returns (_ ∷ _ ∷ _ ∷ _ ∷ _ ∷ []) h = absurd (omega arith)

offset_varint-Returns :
    (b : List ℕ) (is_extend : Bool)
    → offset_size is_extend ≤ length b
    → Returns (offset_varint b is_extend)
unfolding offset_varint offset_size
offset_varint-Returns b true h = uint48-Returns b h
offset_varint-Returns b false h = uint24-Returns b h

byte_of-Returns : (b : List ℕ) → 1 ≤ length b → Returns (byte_of b)
unfolding byte_of
byte_of-Returns [] h = absurd (omega arith)
byte_of-Returns (x ∷ b) h = (x, refl)

abbrev ack_bytes : Bool → Bool → ℕ
ack_bytes false is_extend = 0
ack_bytes true is_extend = 7 + offset_size is_extend

-- The ACK section is read whole, and the offset moves behind it.
read_ack-Returns :
    (is_ack is_extend : Bool) (l : List ℕ) (n : ℕ)
    → n + ack_bytes is_ack is_extend ≤ length l
    → (a : Option Ack) × (read_ack is_ack is_extend l n ≡ ok (a, n + ack_bytes is_ack is_extend))
unfolding read_ack
read_ack-Returns false is_extend l n h =
    let e : n ≡ n + 0 = omega arith in (none, ap (λ (k : ℕ). ok (none, k)) e)
read_ack-Returns true is_extend l n h =
    let m = n + 4 + offset_size is_extend in
    let (i, at_id) = uint32-Returns (drop n l) (omega (arith, length-drop n l)) in
    let (o, at_offset) =
      offset_varint-Returns (drop (n + 4) l) is_extend (omega (arith, length-drop (n + 4) l)) in
    let (len, at_len) = uint16-Returns (drop m l) (omega (arith, length-drop m l)) in
    let (w, at_window) = byte_of-Returns (drop (m + 2) l) (omega (arith, length-drop (m + 2) l)) in
    let size : n + 4 + offset_size is_extend + 2 + 1 ≡ n + (7 + offset_size is_extend) =
      omega arith in
    (
      some (record { stream_id = i; offset = o; len = len; rcv_wnd = decode_rcv_window w }),
      rw (at_id, at_offset, at_len, at_window, size),
    )

-- The flags of a header byte, and the bytes that a packet of `n` bytes with that header must have.
abbrev pub ack_flag : ℕ → Bool
ack_flag h = h / 32 % 4 == 0 || h / 32 % 4 == 2

abbrev pub extend_flag : ℕ → Bool
extend_flag h = not (h / 128 % 2 == 0)

abbrev pub needed : ℕ → ℕ → ℕ
needed h n = calc_proto_overhead (ack_flag h) (extend_flag h) (ack_flag h && ltb n 18)

-- The data section is read whole.
data-Returns :
    (is_extend : Bool) (l : List ℕ) (n : ℕ)
    → n + 4 + offset_size is_extend ≤ length l
    → Returns (uint32 (drop n l)) × Returns (offset_varint (drop (n + 4) l) is_extend)
data-Returns is_extend l n h = (
  uint32-Returns (drop n l) (omega (arith, length-drop n l)),
  offset_varint-Returns (drop (n + 4) l) is_extend (omega (arith, length-drop (n + 4) l)),
)

room_for_data :
    (k x : Bool) (n : ℕ)
    → (k && ltb n 18) ≡ false
    → 1 + ack_bytes k x + (if k && ltb n 18 then 0 else 4 + offset_size x) ≤ n
    → 1 + ack_bytes k x + 4 + offset_size x ≤ n
room_for_data k x n e h = ground arith

decode_payload-Returns :
    (h : ℕ) (t : List ℕ)
    → let n = length (h ∷ t) in
      8 ≤ n → h % 32 ≡ 0 → needed h n ≤ n → Returns (decode_payload (h ∷ t))
unfolding decode_payload byte_of
decode_payload-Returns h t long version fits =
    let l = h ∷ t in
    let n = length l in
    let k = ack_flag h in
    let x = extend_flag h in
    let room : 1 + ack_bytes k x + (if k && ltb n 18 then 0 else 4 + offset_size x) ≤ n =
      unfold calc_proto_overhead offset_size in ground arith in
    let (a, read) = read_ack-Returns k x l 1 (omega arith) in
    let enough : leb (needed h n) n ≡ true = ground arith in
    let at_least : leb 8 n ≡ true = ground arith in
    rw (at_least, version, enough, read)
      (elim (Bool-cases (k && ltb n 18)) [
        | inl e ↦ rw e (_, refl)
        | inr e ↦
            let ((i, at_id), (o, at_offset)) =
              data-Returns x l (1 + ack_bytes k x) (room_for_data k x n e room) in
            rw (e, at_id, at_offset) (_, refl)
      ])

-- The byte that holds the flags; 0 where there is none.
abbrev pub first_byte : List ℕ → ℕ
first_byte [] = 0
first_byte (h ∷ t) = h

-- `DecodePayload` on any bytes: below 8 bytes, with another version than 0, or with fewer bytes than
-- the flags of its header ask for, it returns the error of that check, in this order; all other
-- packets are decoded, and no input makes it index out of range.
pub decode_payload_outcome :
    (l : List ℕ)
    → (if ltb (length l) 8
        then decode_payload l ≡ err Error.payload_below_minimum
        else if not (first_byte l % 32 == 0)
        then decode_payload l ≡ err Error.unsupported_version
        else if ltb (length l) (needed (first_byte l) (length l))
        then decode_payload l ≡ err Error.payload_below_overhead
        else Returns (decode_payload l))
decode_payload_outcome [] = unfold decode_payload in refl
decode_payload_outcome (h ∷ t) =
    if_elim (λ (T : Type 0). T) (ltb (length (h ∷ t)) 8)
      (λ short. unfold decode_payload in ground arith)
      (λ long.
        if_elim (λ (T : Type 0). T) (not (h % 32 == 0))
          (λ version. unfold decode_payload byte_of in ground arith)
          (λ version.
            if_elim (λ (T : Type 0). T) (ltb (length (h ∷ t)) (needed h (length (h ∷ t))))
              (λ lacking. unfold decode_payload byte_of in ground arith)
              (λ enough. decode_payload-Returns h t (ground arith) (ground arith) (ground arith))))
