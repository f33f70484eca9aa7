-- ===== src/Crypto/RoundTrip.antt =====
-- `chainedDecrypt` on what `chainedEncrypt` made, for one shared secret of two sides.
pub mod Packets
pub mod Keys
pub mod FirstPacket
pub mod Replies
use qotp.Base.{
  ℕ, zero, suc, ◌+◌, ◌-◌, ◌*◌, ◌/◌, ◌%◌, ◌^◌, ◌≤◌, ◌<◌, ◌≡◌, ◌≢◌, ◌⊎◌, inl, inr, refl, sym, ap, ◌∙◌,
  Bool, true, false, not, List, [], ◌∷◌, ◌++◌, append-nil, append_assoc, arith, Run, ok, err, panic,
  ◌>>=◌, some, none, Bool-cases, Error, need, if◌then◌else◌, ltb, leb, length, take, drop,
  replicate, length-append, length-take, length-drop, length-replicate, u64, slice, copy_at,
  copy_at-zeros, slice-take, slice-drop, slice-append, drop-append_length, take-append_length,
  take-append_le, take-append-drop,
}
use qotp.Bytes.{uint48}
use qotp.Bytes.RoundTrip.{le_bytes, uint48-le_bytes}
use qotp.Crypto.Library.{Aead, CryptoLib, Suite}
use qotp.Crypto.Chained.{nonce_det, epochs, try_epochs, chained_encrypt, chained_decrypt}
use qotp.Crypto.Nonce.{nonce_bytes, nonce_det_lem, nonce_bytes_ne, length-nonce_bytes}

module _ (c : CryptoLib) (secret : List ℕ) (suite : Suite c secret) where
  -- The parts of a packet behind its header, described on their own.
  abbrev pub sealed_text : ℕ → ℕ → Bool → List ℕ → List ℕ → List ℕ
  sealed_text sn epoch is_sender header text =
      suite.aead.seal (nonce_bytes epoch sn is_sender) text header

  abbrev pub sealed_sn : ℕ → List ℕ → List ℕ
  sealed_sn sn sealed = take 6 (suite.aead_x.seal (take 24 sealed) (le_bytes 6 sn) [])

  length-sealed_sn : (sn : ℕ) (sealed : List ℕ) → length (sealed_sn sn sealed) ≡ 6
  length-sealed_sn sn sealed =
      let whole = suite.length-seal_x (take 24 sealed) (le_bytes 6 sn) [] in
      let front = length-take 6 (suite.aead_x.seal (take 24 sealed) (le_bytes 6 sn) []) in
      omega arith

  pub chained_encrypt_lem :
      (sn epoch : ℕ) (is_sender : Bool) (header text : List ℕ)
      → 8 ≤ length text
      → chained_encrypt c sn epoch is_sender secret header text
        ≡ ok (
            header
            ++ (sealed_sn sn (sealed_text sn epoch is_sender header text)
                ++ sealed_text sn epoch is_sender header text))
  unfolding chained_encrypt
  chained_encrypt_lem sn epoch is_sender header text long =
      let nonce = nonce_bytes epoch sn is_sender in
      let sealed = sealed_text sn epoch is_sender header text in
      let enc = suite.aead_x.seal (take 24 sealed) (le_bytes 6 sn) [] in
      let first = sealed_sn sn sealed in
      let size = suite.length-seal nonce text header in
      let size_enc = suite.length-seal_x (take 24 sealed) (le_bytes 6 sn) [] in
      let size_first = length-sealed_sn sn sealed in
      let whole = length header + 6 + length sealed in
      let sn_bytes : slice 6 12 nonce ≡ ok (le_bytes 6 sn) = unfold slice in refl in
      let front = copy_at-zeros [] header 0 whole (6 + length sealed) refl (omega arith) in
      let next =
        copy_at-zeros header first (length header) (6 + length sealed) (length sealed) refl
          (omega arith) in
      let last =
        copy_at-zeros (header ++ first) sealed (length header + 6) (length sealed) 0
          (omega (arith, length-append header first)) (omega arith) in
      rw (
        nonce_det_lem epoch sn is_sender,
        suite.new_aead,
        front,
        suite.new_aead_x,
        slice-take sealed 24 (omega arith),
        sn_bytes,
        slice-take enc 6 (omega arith),
        next,
        sym (append_assoc header first (replicate (length sealed) 0)),
        last,
        append-nil sealed,
        append_assoc header first sealed,
      )

  -- One round of the loop over the epochs.
  module _ (sn epoch : ℕ) (is_sender receiver : Bool) (header text : List ℕ)
      (roles : not receiver ≡ is_sender) where
    abbrev tries : List ℕ → Run (ℕ × ℕ × List ℕ)
    tries = try_epochs suite.aead sn receiver header (sealed_text sn epoch is_sender header text)

    try_epochs_hit : (rest : List ℕ) → tries (epoch ∷ rest) ≡ ok (sn, epoch, text)
    unfolding try_epochs
    try_epochs_hit rest = rw (
      roles,
      nonce_det_lem epoch sn is_sender,
      suite.open-seal (nonce_bytes epoch sn is_sender) text header,
    )

    try_epochs_miss :
        (e : ℕ) (rest : List ℕ) → epoch % 128 ≢ e % 128 → tries (e ∷ rest) ≡ tries rest
    unfolding try_epochs
    try_epochs_miss e rest ne = rw (
      roles,
      nonce_det_lem e sn is_sender,
      suite.open-seal_other (nonce_bytes epoch sn is_sender) (nonce_bytes e sn is_sender) text
          header refl refl (nonce_bytes_ne epoch e sn is_sender ne),
    )

    -- The receiver's epoch is that of the packet, the one behind it or the one before.
    try_epochs_near :
        (r : ℕ)
        → epoch < 2 ^ 48
        → (r ≡ epoch) ⊎ (r ≡ suc epoch) ⊎ (suc r ≡ epoch)
        → tries (epochs r) ≡ ok (sn, epoch, text)
    unfolding epochs
    try_epochs_near r small (inl same) = rw same (try_epochs_hit _)
    try_epochs_near r small (inr (inl behind)) =
        let before : r - 1 ≡ epoch = omega arith in
        let some_epoch : ltb 0 r ≡ true = ground arith in
        try_epochs_miss r _ (λ e. omega arith) ∙ rw (some_epoch, before) (try_epochs_hit _)
    try_epochs_near r small (inr (inr ahead)) =
        let next : u64 (r + 1) ≡ epoch = omega arith in
        try_epochs_miss r _ (λ e. omega arith) ∙ (elim (Bool-cases (ltb 0 r)) [
          | inl e ↦ rw (e, next) (try_epochs_miss (r - 1) _ (λ q. ground arith) ∙ try_epochs_hit _)
          | inr e ↦ rw (e, next) (try_epochs_hit _)
        ])

    -- What is behind the header is decrypted, whatever follows it in the array.
    pub chained_decrypt_lem :
        (r : ℕ) (spare : List ℕ)
        → sn < 2 ^ 48
        → epoch < 2 ^ 48
        → (r ≡ epoch) ⊎ (r ≡ suc epoch) ⊎ (suc r ≡ epoch)
        → 8 ≤ length text
        → let sealed = sealed_text sn epoch is_sender header text in
          chained_decrypt c receiver r secret header (sealed_sn sn sealed ++ sealed) spare
          ≡ ok (sn, epoch, text)
    unfolding chained_decrypt
    chained_decrypt_lem r spare sn_small epoch_small near long =
        let sealed = sealed_text sn epoch is_sender header text in
        let first = sealed_sn sn sealed in
        let size = suite.length-seal (nonce_bytes epoch sn is_sender) text header in
        let size_first = length-sealed_sn sn sealed in
        let both = length-append first sealed in
        let first_read : slice 0 6 ((first ++ sealed) ++ spare) ≡ ok first =
          rw (append_assoc first sealed spare)
            (slice-append [] first (sealed ++ spare) 0 6 refl (omega arith)) in
        let rest : drop 6 (first ++ sealed) ≡ sealed =
          rw size_first at (drop-append_length first sealed) in
        let rest_read : slice 6 (length (first ++ sealed)) (first ++ sealed) ≡ ok sealed =
          slice-drop (first ++ sealed) 6 (omega arith) ∙ ap ok rest in
        let rand_read : slice 0 24 (sealed ++ spare) ≡ ok (take 24 sealed) =
          slice-take (sealed ++ spare) 24 (omega (arith, length-append sealed spare))
          ∙ ap ok (take-append_le 24 sealed spare (omega arith)) in
        let rand_size : length (take 24 sealed) ≡ 24 = omega (arith, length-take 24 sealed) in
        rw
          (
            first_read,
            rest_read,
            rand_read,
            suite.xor-seal_x (take 24 sealed) (le_bytes 6 sn) rand_size refl,
            uint48-le_bytes sn [] sn_small,
            suite.new_aead,
          )
          (try_epochs_near r epoch_small near)

    -- A packet of one side, of at least 8 bytes, is decrypted by the other side with its sequence
    -- number, its epoch and its text, if the receiver's epoch is that of the packet, the one behind
    -- it or the one before, for sequence numbers and epochs below 2 ^ 48 and whatever follows the
    -- packet in its array.
    pub chained_decrypt-chained_encrypt :
        (r : ℕ) (spare : List ℕ)
        → sn < 2 ^ 48
        → epoch < 2 ^ 48
        → (r ≡ epoch) ⊎ (r ≡ suc epoch) ⊎ (suc r ≡ epoch)
        → 8 ≤ length text
        → chained_encrypt c sn epoch is_sender secret header text
            >>= (λ enc. chained_decrypt c receiver r secret header (drop (length header) enc) spare)
          ≡ ok (sn, epoch, text)
    chained_decrypt-chained_encrypt r spare sn_small epoch_small near long =
        let sealed = sealed_text sn epoch is_sender header text in
        rw
          (
            chained_encrypt_lem sn epoch is_sender header text long,
            drop-append_length header (sealed_sn sn sealed ++ sealed),
          )
          (chained_decrypt_lem r spare sn_small epoch_small near long)
