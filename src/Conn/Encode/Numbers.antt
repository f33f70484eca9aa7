-- ===== src/Conn/Encode/Numbers.antt =====
-- The epoch and the sequence number of a connection, as one counter of 95 bits.
use qotp.Base.{
  ℕ, suc, ◌+◌, ◌-◌, ◌*◌, ◌/◌, ◌%◌, ◌^◌, ◌<◌, ◌≡◌, refl, sym, arith, true, false, Option, List, [],
  ◌∷◌, Run, ok, err, panic, Error, if◌then◌else◌, ltb, ◌==◌, u64, Bool-cases, inl, inr,
}
use qotp.Base.Exec.{◌>>◌, continue, modify, return, OnReturn}
use qotp.Proto.{PayloadHeader}
use qotp.Crypto.{CryptoMsgType, init_snd, init_rcv, init_crypto_snd, init_crypto_rcv, data_msg}
use qotp.Crypto.Library.{CryptoLib}
use qotp.Conn.{Conn, Host}
use qotp.Conn.Encrypt.{encrypt}
use qotp.Conn.Encode.{encode, init_sent, rollover}

-- The widths that the fields' comments name.
pub record InRange (conn : Conn) : Type 0 where
  pub sn : conn.sn_crypto < 2 ^ 48
  pub epoch : conn.epoch_crypto_snd < 2 ^ 47

abbrev pub number : Conn → ℕ
number conn = conn.epoch_crypto_snd * 2 ^ 48 + conn.sn_crypto

abbrev pub with_number : ℕ → Conn → Conn
with_number n conn = record conn { epoch_crypto_snd = n / 2 ^ 48; sn_crypto = n % 2 ^ 48 }

-- What `encode` does, described on its own: after the last number there is none.
abbrev pub counted : Conn → Run (List ℕ) → CryptoMsgType → Conn × Run (List ℕ)
counted conn (ok enc_data) t =
    if number conn == 2 ^ 95 - 1
    then (record (init_sent t conn) { sn_crypto = 2 ^ 48 }, err Error.sn_exhausted)
    else (with_number (suc (number conn)) (init_sent t conn), ok enc_data)
counted conn (err e) t = (conn, err e)
counted conn panic t = (conn, panic)

-- The step to the next number, which follows the encryption.
abbrev step : List ℕ → Conn → Conn × Run (List ℕ)
step enc_data =
    modify (λ s. record s { sn_crypto = u64 (s.sn_crypto + 1) }) >> (rollover >> return enc_data)

step_lem :
    (conn : Conn) (enc_data : List ℕ)
    → InRange conn
    → step enc_data conn ≡ (
        if number conn == 2 ^ 95 - 1
        then (record conn { sn_crypto = 2 ^ 48 }, err Error.sn_exhausted)
        else (with_number (suc (number conn)) conn, ok enc_data))
unfolding rollover
step_lem conn enc_data range =
    let next : u64 (conn.sn_crypto + 1) ≡ conn.sn_crypto + 1 = omega (arith, range.sn) in
    let next_epoch : u64 (conn.epoch_crypto_snd + 1) ≡ conn.epoch_crypto_snd + 1 =
      omega (arith, range.epoch) in
    elim (Bool-cases (ltb (2 ^ 48 - 1) (conn.sn_crypto + 1))) [
      | inl over ↦ elim (Bool-cases (ltb (2 ^ 47 - 1) (conn.epoch_crypto_snd + 1))) [
        | inl last ↦
            let full : (number conn == 2 ^ 95 - 1) ≡ true = ground (arith, range.sn, range.epoch) in
            let top : conn.sn_crypto + 1 ≡ 2 ^ 48 = ground (arith, range.sn) in
            rw (next, over, next_epoch, last, full, top) refl
        | inr more ↦
            let some_left : (number conn == 2 ^ 95 - 1) ≡ false = ground (arith, range.sn) in
            let above : suc (number conn) / 2 ^ 48 ≡ conn.epoch_crypto_snd + 1 =
              ground (arith, range.sn) in
            let at_zero : suc (number conn) % 2 ^ 48 ≡ 0 = ground (arith, range.sn) in
            rw (next, over, next_epoch, more, some_left, above, at_zero) refl
      ]
      | inr within ↦
          let some_left : (number conn == 2 ^ 95 - 1) ≡ false = ground (arith, range.sn) in
          let same : suc (number conn) / 2 ^ 48 ≡ conn.epoch_crypto_snd = ground arith in
          let at_next : suc (number conn) % 2 ^ 48 ≡ conn.sn_crypto + 1 = ground arith in
          rw (next, within, some_left, same, at_next) refl
    ]

in_range : (t : CryptoMsgType) (conn : Conn) → InRange conn → InRange (init_sent t conn)
in_range init_snd conn r = record { sn = r.sn; epoch = r.epoch }
in_range init_rcv conn r = record { sn = r.sn; epoch = r.epoch }
in_range init_crypto_snd conn r = record { sn = r.sn; epoch = r.epoch }
in_range init_crypto_rcv conn r = record { sn = r.sn; epoch = r.epoch }
in_range data_msg conn r = r

number-init_sent : (t : CryptoMsgType) (conn : Conn) → number (init_sent t conn) ≡ number conn
number-init_sent init_snd conn = refl
number-init_sent init_rcv conn = refl
number-init_sent init_crypto_snd conn = refl
number-init_sent init_crypto_rcv conn = refl
number-init_sent data_msg conn = refl

encrypted_lem :
    (t : CryptoMsgType) (conn : Conn) (r : Run (List ℕ))
    → InRange conn
    → continue (λ enc_data. modify (init_sent t) >> step enc_data) (conn, r) ≡ counted conn r t
encrypted_lem t conn (ok enc_data) range =
    rw (sym (number-init_sent t conn))
      (step_lem (init_sent t conn) enc_data (in_range t conn range))
encrypted_lem t conn (err e) range = refl
encrypted_lem t conn panic range = refl

-- Epoch and sequence number are one counter: `encode` returns the packet that it encrypts under the
-- current number and goes to the next one, fails on the last of the 2 ^ 95 numbers, and leaves the
-- connection alone when the encryption fails; for counters in their ranges.
pub encode-counted :
    (c : CryptoLib) (host : Host) (p : PayloadHeader) (user_data : Option (List ℕ))
    → (t : CryptoMsgType) (conn : Conn) → InRange conn
    → encode c host p user_data t conn ≡ counted conn (encrypt c host p user_data t conn) t
unfolding encode
encode-counted c host p user_data t conn range =
    encrypted_lem t conn (encrypt c host p user_data t conn) range

module _ (c : CryptoLib) (host : Host) where
  counted_next :
      (t : CryptoMsgType) (conn : Conn) (r : Run (List ℕ))
      → InRange conn
      → OnReturn
          (λ conn' enc. InRange conn' × (number conn' ≡ suc (number conn)))
          (counted conn r t)
  counted_next t conn (ok enc_data) range = elim (Bool-cases (number conn == 2 ^ 95 - 1)) [
    | inl last ↦ rw last tt
    | inr more ↦
        rw more
          (record { sn = omega arith; epoch = ground (arith, range.sn, range.epoch) }, omega arith)
  ]
  counted_next t conn (err e) range = tt
  counted_next t conn panic range = tt

  -- The packets of a connection: the numbers they use, the last one first. Between two packets the
  -- connection changes in any way that keeps its two counters.
  pub data Sending (conn : Conn) : List ℕ → Conn → Type 0 where
    start : Sending conn [] conn
    other :
        (ns : List ℕ) (conn' conn'' : Conn)
        → Sending conn ns conn'
        → conn''.sn_crypto ≡ conn'.sn_crypto
        → conn''.epoch_crypto_snd ≡ conn'.epoch_crypto_snd
        → Sending conn ns conn''
    packet :
        (ns : List ℕ) (conn' conn'' : Conn) (p : PayloadHeader) (user_data : Option (List ℕ))
        → (t : CryptoMsgType) (enc_data : List ℕ) → Sending conn ns conn'
        → encode c host p user_data t conn' ≡ (conn'', ok enc_data)
        → Sending conn (number conn' ∷ ns) conn''

  -- Each number is above those that were used before it.
  abbrev pub Rising : ℕ → List ℕ → Type 0
  Rising bound [] = Unit
  Rising bound (n ∷ ns) = (n < bound) × Rising n ns

  -- A connection uses no pair of an epoch and a sequence number twice: the numbers of its packets
  -- rise, and its counters stay in their ranges, from counters in their ranges.
  pub Sending-Rising :
      (conn conn' : Conn) (ns : List ℕ)
      → InRange conn
      → Sending conn ns conn'
      → InRange conn' × Rising (number conn') ns
  Sending-Rising conn _ _ range start = (range, tt)
  Sending-Rising conn _ _ range (other ns conn' conn'' h same_sn same_epoch) =
      let (r, rising) = Sending-Rising conn conn' ns range h in
      let same : number conn' ≡ number conn'' = rw (same_sn, same_epoch) refl in
      (record { sn = omega (arith, r.sn); epoch = omega (arith, r.epoch) }, rw same at rising)
  Sending-Rising conn _ _ range (packet ns conn' conn'' p user_data t enc_data h e) =
      let (r, rising) = Sending-Rising conn conn' ns range h in
      let (r', next) =
        rw (sym (encode-counted c host p user_data t conn' r), e) at
          (counted_next t conn' (encrypt c host p user_data t conn') r) in
      (r', (omega arith, rising))
