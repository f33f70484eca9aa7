-- ===== src/Base/Outcome.antt =====
-- The outcome of a Go call: a result, an error value, or a panic (an index or a slice out of
-- range, a nil key, a failed assertion).
use mathlib.Core.Bool.{Bool, true, false}
use mathlib.Core.Option.{Option, none, some}
use mathlib.Core.Path.{◌≡◌, refl}
use mathlib.Core.Logic.{◌≢◌}

-- The error values of the program, by the place that makes them.
pub data Error : Type 0 where
  -- proto.go, `DecodePayload`
  payload_below_minimum unsupported_version payload_below_overhead : Error
  -- measurement.go, `backoff`
  rto_number_not_positive max_retry_exceeded : Error
  -- crypto.go: sizes, and what the cryptographic libraries refuse
  packet_larger_than_mtu size_below_init size_below_init_reply size_below_minimum : Error
  key_refused open_failed : Error
  -- codec.go: `encode`, `decode`, and the socket's refusal
  sn_exhausted header_too_short unsupported_crypto_version unknown_message_type : Error
  conn_not_found conn_exists key_not_generated write_refused write_incomplete : Error
  -- listener.go: the options, and what the operating system refuses
  already_set not_set seed_size hex_refused address_refused socket_refused read_failed : Error

pub data Run {ℓ} (A : Type ℓ) : Type ℓ where
  ok : A → Run A
  err : Error → Run A
  panic : Run A

infixl 5 ◌>>=◌ ◌>>◌
abbrev pub ◌>>=◌ {ℓ κ} : {A : Type ℓ} {C : Type κ} → Run A → (A → Run C) → Run C
ok result >>= next = next result
err failure >>= next = err failure
panic >>= next = panic

abbrev pub ◌>>◌ {ℓ} : {B : Type ℓ} → Run (Unit {0}) → Run B → Run B
m >> k = m >>= λ _. k

-- The early return of an error when the test fails.
abbrev pub guard : Bool → Error → Run (Unit {0})
guard true e = ok tt
guard false e = err e

-- A result of code outside the program, where `none` is its error.
abbrev pub need {ℓ} : {A : Type ℓ} → Error → Option A → Run A
need e none = err e
need e (some a) = ok a

-- The call returns a result, and the result satisfies `P`.
abbrev pub Returns {ℓ} : {A : Type ℓ} → (A → Type 0) → Run A → Type 0
Returns P (ok a) = P a
Returns P (err e) = ⊥
Returns P panic = ⊥

-- The call returns a result that satisfies `P`, or an error that satisfies `Q`, or it panics and `X`
-- holds.
abbrev pub EndsIn {ℓ} : {A : Type ℓ} → (A → Type 0) → (Error → Type 0) → Type 0 → Run A → Type 0
EndsIn P Q X (ok a) = P a
EndsIn P Q X (err e) = Q e
EndsIn P Q X panic = X

pub EndsIn-err {ℓ} :
    {A : Type ℓ} (P : A → Type 0) (Q : Error → Type 0) (X : Type 0) (m : Run A)
    → EndsIn P (λ e. ⊥) X m
    → EndsIn P Q X m
EndsIn-err P Q X (ok a) h = h
EndsIn-err P Q X (err e) h = absurd h
EndsIn-err P Q X panic h = h

-- A step that does not panic, and what follows its result.
pub EndsIn-bind {ℓ κ} :
    {A : Type ℓ} {B : Type κ} (P : B → Type 0) (Q : Error → Type 0) (X : Type 0) (m : Run A)
    → (k : A → Run B) → m ≢ panic
    → ((e : Error) → m ≡ err e → Q e)
    → ((a : A) → m ≡ ok a → EndsIn P Q X (k a))
    → EndsIn P Q X (m >>= k)
EndsIn-bind P Q X (ok a) k calm bad good = good a refl
EndsIn-bind P Q X (err e) k calm bad good = bad e refl
EndsIn-bind P Q X panic k calm bad good = absurd (calm refl)

-- What follows a result that satisfies `P`.
pub EndsIn-map {ℓ κ} :
    {A : Type ℓ} {B : Type κ} (P : A → Type 0) (P' : B → Type 0) (Q : Error → Type 0)
    → (X : Type 0) (m : Run A) (g : A → B) → EndsIn P Q X m
    → ((a : A) → P a → P' (g a))
    → EndsIn P' Q X (m >>= λ a. ok (g a))
EndsIn-map P P' Q X (ok a) g h k = k a h
EndsIn-map P P' Q X (err e) g h k = h
EndsIn-map P P' Q X panic g h k = h

-- If the call returns a result, it satisfies `P`: for the steps of a run that went on.
abbrev pub OnOk {ℓ} : {A : Type ℓ} → (A → Type 0) → Run A → Type 0
OnOk P (ok a) = P a
OnOk P (err e) = Unit
OnOk P panic = Unit

pub EndsIn→OnOk {ℓ} :
    {A : Type ℓ} (P : A → Type 0) (Q : Error → Type 0) (X : Type 0) (m : Run A)
    → EndsIn P Q X m
    → OnOk P m
EndsIn→OnOk P Q X (ok a) h = h
EndsIn→OnOk P Q X (err e) h = tt
EndsIn→OnOk P Q X panic h = tt

-- What follows a call that returns.
pub Returns-bind {ℓ κ} :
    {A : Type ℓ} {B : Type κ} (P : A → Type 0) (Q : B → Type 0) (m : Run A) (k : A → Run B)
    → Returns P m
    → ((a : A) → P a → Returns Q (k a))
    → Returns Q (m >>= k)
Returns-bind P Q (ok a) k h f = f a h
Returns-bind P Q (err e) k h f = absurd h
Returns-bind P Q panic k h f = absurd h
