-- ===== src/Crypto/Nonce.antt =====
-- The nonce of a packet, of its epoch, its sequence number and the role of its sender.
use qotp.Base.{
  ℕ, ◌+◌, ◌*◌, ◌/◌, ◌%◌, ◌^◌, ◌<◌, ◌≡◌, ◌≢◌, ◌↔◌, refl, sym, ap, ◌∙◌, Bool, true, false, List, [],
  ◌∷◌, ◌++◌, arith, Run, ok, length, take, drop,
}
use qotp.Bytes.{put_uint48, write_at}
use qotp.Bytes.RoundTrip.{le_bytes}
use qotp.Crypto.Chained.{nonce_det, set_role, with_role}

-- The bytes of a nonce, described on their own.
abbrev pub nonce_bytes : ℕ → ℕ → Bool → List ℕ
nonce_bytes epoch sn is_sender =
    with_role is_sender (epoch % 256) ∷ (le_bytes 5 (epoch / 256) ++ le_bytes 6 sn)

pub nonce_det_lem :
    (epoch sn : ℕ) (is_sender : Bool)
    → nonce_det epoch sn is_sender ≡ ok (nonce_bytes epoch sn is_sender)
unfolding nonce_det set_role put_uint48 write_at
nonce_det_lem epoch sn true = ground arith
nonce_det_lem epoch sn false = ground arith

-- A list of bytes as a number.
abbrev value : List ℕ → ℕ
value [] = 0
value (b ∷ rest) = b + 256 * value rest

le_bytes-5_inj : (v w : ℕ) → v < 2 ^ 40 → w < 2 ^ 40 → le_bytes 5 v ≡ le_bytes 5 w → v ≡ w
le_bytes-5_inj v w hv hw e = omega (arith, ap value e)

le_bytes-6_inj : (v w : ℕ) → v < 2 ^ 48 → w < 2 ^ 48 → le_bytes 6 v ≡ le_bytes 6 w → v ≡ w
le_bytes-6_inj v w hv hw e = omega (arith, ap value e)

role_inj :
    (s s' : Bool) (b b' : ℕ) → with_role s b ≡ with_role s' b' → (s ≡ s') × (b % 128 ≡ b' % 128)
role_inj true true b b' e = (refl, omega arith)
role_inj false false b b' e = (refl, omega arith)
role_inj true false b b' e = absurd (omega arith)
role_inj false true b b' e = absurd (omega arith)

ok_inj : (xs ys : List ℕ) → ◌≡◌ {A = Run (List ℕ)} (ok xs) (ok ys) → xs ≡ ys
ok_inj xs ys e = cc

-- Whether two packets of one secret have the same nonce.
abbrev pub Collides : ℕ → ℕ → Bool → ℕ → ℕ → Bool → Type 0
Collides epoch sn is_sender epoch' sn' is_sender' =
    (sn ≡ sn')
    × (is_sender ≡ is_sender')
    × (epoch / 256 ≡ epoch' / 256)
    × (epoch % 128 ≡ epoch' % 128)

nonce_bytes-inj :
    (epoch sn epoch' sn' : ℕ) (s s' : Bool)
    → epoch < 2 ^ 48
    → sn < 2 ^ 48
    → epoch' < 2 ^ 48
    → sn' < 2 ^ 48
    → nonce_bytes epoch sn s ≡ nonce_bytes epoch' sn' s'
    → Collides epoch sn s epoch' sn' s'
nonce_bytes-inj epoch sn epoch' sn' s s' he hs he' hs' e =
    let head =
      role_inj s s' (epoch % 256) (epoch' % 256) (omega (arith, ap (λ l. value (take 1 l)) e)) in
    (
      le_bytes-6_inj sn sn' hs hs' (ap (drop 6) e),
      head.0,
      le_bytes-5_inj (epoch / 256) (epoch' / 256) (omega arith) (omega arith)
          (ap (λ l. take 5 (drop 1 l)) e),
      omega (arith, head.1),
    )

same_head :
    (epoch epoch' : ℕ) (s : Bool)
    → epoch % 128 ≡ epoch' % 128
    → with_role s (epoch % 256) ≡ with_role s (epoch' % 256)
same_head epoch epoch' true h = omega arith
same_head epoch epoch' false h = omega arith

-- Two packets of epochs and sequence numbers below 2 ^ 48 have the same nonce exactly if they have
-- the same sequence number and role, and epochs that differ at most in bit 7: the role takes the
-- place of that bit, so that the epochs 0 and 128 share all their nonces.
pub nonce_det-Collides :
    (epoch sn epoch' sn' : ℕ) (s s' : Bool)
    → epoch < 2 ^ 48
    → sn < 2 ^ 48
    → epoch' < 2 ^ 48
    → sn' < 2 ^ 48
    → (nonce_det epoch sn s ≡ nonce_det epoch' sn' s') ↔ Collides epoch sn s epoch' sn' s'
nonce_det-Collides epoch sn epoch' sn' s s' he hs he' hs' = (
  λ e. nonce_bytes-inj epoch sn epoch' sn' s s' he hs he' hs' (
      ok_inj (nonce_bytes epoch sn s) (nonce_bytes epoch' sn' s')
        (sym (nonce_det_lem epoch sn s) ∙ e ∙ nonce_det_lem epoch' sn' s')),
  λ (same_sn, same_role, high, low).
      nonce_det_lem epoch sn s
      ∙ rw (same_sn, same_role, high)
          (ap (λ b. ok (b ∷ (le_bytes 5 (epoch' / 256) ++ le_bytes 6 sn')))
            (same_head epoch epoch' s' low))
      ∙ sym (nonce_det_lem epoch' sn' s'),
)

-- Epochs next to one another never share a nonce, nor do those two apart.
pub nonce_bytes_ne :
    (epoch epoch' sn : ℕ) (s : Bool)
    → epoch % 128 ≢ epoch' % 128
    → nonce_bytes epoch sn s ≢ nonce_bytes epoch' sn s
nonce_bytes_ne epoch epoch' sn s h e = h (
    omega (
      arith,
      (role_inj s s (epoch % 256) (epoch' % 256) (omega (arith, ap (λ l. value (take 1 l)) e))).1,
    ))

pub length-nonce_bytes : (epoch sn : ℕ) (s : Bool) → length (nonce_bytes epoch sn s) ≡ 12
length-nonce_bytes epoch sn s = refl
