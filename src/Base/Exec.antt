-- ===== src/Base/Exec.antt =====
-- A method of an object: it changes the state, and returns, fails or panics. The state of a call
-- that fails is kept.
use qotp.Base.Outcome.{Run, ok, err, panic}

abbrev pub Exec {ℓ} : Type 0 → Type ℓ → Type ℓ
Exec S A = S → S × Run A

module _ {S : Type 0} where
  abbrev pub continue {ℓ κ} : {A : Type ℓ} {B : Type κ} → (A → Exec S B) → S × Run A → S × Run B
  continue k (s, ok a) = k a s
  continue k (s, err e) = (s, err e)
  continue k (s, panic) = (s, panic)

  infixl 5 ◌>>=◌ ◌>>◌
  abbrev pub ◌>>=◌ {ℓ κ} : {A : Type ℓ} {B : Type κ} → Exec S A → (A → Exec S B) → Exec S B
  (m >>= k) s = continue k (m s)

  abbrev pub ◌>>◌ {κ} : {B : Type κ} → Exec S (Unit {0}) → Exec S B → Exec S B
  m >> k = m >>= λ _. k

  abbrev pub return {ℓ} : {A : Type ℓ} → A → Exec S A
  return a s = (s, ok a)

  -- A call that leaves the state alone.
  abbrev pub lift {ℓ} : {A : Type ℓ} → Run A → Exec S A
  lift r s = (s, r)

  abbrev pub modify : (S → S) → Exec S (Unit {0})
  modify f s = (f s, ok tt)

  abbrev pub gets {ℓ} : {A : Type ℓ} → (S → A) → Exec S A
  gets f s = (s, ok (f s))

-- What holds of the state and the result of a call that returns.
abbrev pub OnReturn {ℓ} : {S : Type 0} {A : Type ℓ} → (S → A → Type 0) → S × Run A → Type 0
OnReturn P (s, ok a) = P s a
OnReturn P (s, err e) = Unit
OnReturn P (s, panic) = Unit

pub OnReturn-bind {ℓ κ} :
    {S : Type 0} {A : Type ℓ} {B : Type κ} (P : S → A → Type 0) (Q : S → B → Type 0)
    → (r : S × Run A) (k : A → Exec S B) → OnReturn P r
    → ((s : S) (a : A) → P s a → OnReturn Q (k a s))
    → OnReturn Q (continue k r)
OnReturn-bind P Q (s, ok a) k h next = next s a h
OnReturn-bind P Q (s, err e) k h next = tt
OnReturn-bind P Q (s, panic) k h next = tt

pub OnReturn-lift {ℓ} :
    {S : Type 0} {A : Type ℓ} (P : S → A → Type 0) (s : S) (r : Run A)
    → ((a : A) → P s a)
    → OnReturn P (s, r)
OnReturn-lift P s (ok a) h = h a
OnReturn-lift P s (err e) h = tt
OnReturn-lift P s panic h = tt

pub OnReturn-weaken {ℓ} :
    {S : Type 0} {A : Type ℓ} (P Q : S → A → Type 0) (r : S × Run A)
    → ((s : S) (a : A) → P s a → Q s a)
    → OnReturn P r
    → OnReturn Q r
OnReturn-weaken P Q (s, ok a) f h = f s a h
OnReturn-weaken P Q (s, err e) f h = tt
OnReturn-weaken P Q (s, panic) f h = tt
