-- ===== src/Listener/Dialling.antt =====
-- `Dial`, `DialWithCrypto` and `newConn` of listener.go and the table of the connections.
use qotp.Base.{
  ℕ, ◌≡◌, refl, Bool, true, false, Option, none, some, List, Run, ok, err, panic, need, Error,
  if◌then◌else◌, ◌==◌, Bool-cases, inl, inr,
}
use qotp.Base.Exec
use qotp.Base.Exec.{Exec, lift}
use qotp.Bytes.{uint64}
use qotp.Entries
use qotp.Entries.Laws.{get-put}
use qotp.Crypto.Library.{CryptoLib}
use qotp.Conn.{Conn, AddrPort}
use qotp.Listener.{
  Listener, put_conn, fresh_conn, log_secrets, new_conn, dial_with, dial, dial_with_crypto,
}

-- A call that makes a connection: it adds the connection under a number that was free and leaves the
-- others as they are, or it fails and leaves the listener as it is.
pub Adds : Listener → Listener × Run Conn → Type 0
Adds l (l', ok conn) =
    (Entries.contains conn.conn_id l.conn_map ≡ false)
    × ((j : ℕ)
        → Entries.get j l'.conn_map
          ≡ (if conn.conn_id == j then some conn else Entries.get j l.conn_map))
Adds l (l', err e) = l' ≡ l
Adds l (l', panic) = l' ≡ l

Adds-lift :
    {A : Type 0} (l : Listener) (r : Run A) (k : A → Exec Listener Conn)
    → ((a : A) → Adds l (k a l))
    → Adds l (Exec.◌>>=◌ (lift r) k l)
unfolding Adds
Adds-lift l (ok a) k h = h a
Adds-lift l (err e) k h = refl
Adds-lift l panic k h = refl

module _ (c : CryptoLib) where
  new_conn-Adds :
      (conn_id : ℕ) (addr : AddrPort) (prv : List ℕ) (id ep : Option (List ℕ)) (snd crypto : Bool)
      → (l : Listener) → Adds l (new_conn c conn_id addr prv id ep snd crypto l)
  unfolding new_conn Adds
  new_conn-Adds conn_id addr prv id ep snd crypto l =
      let conn = fresh_conn conn_id addr prv id ep snd crypto in
      elim (Bool-cases (Entries.contains conn_id l.conn_map)) [
        | inl e ↦ rw e refl
        | inr e ↦ rw e (
            Adds-lift l (log_secrets c l.key_log prv ep id)
              (λ _ l0. (put_conn conn_id conn l0, ok conn))
              (λ _. (e, λ j. get-put conn_id j conn l.conn_map)))
      ]

  -- Whatever key is generated, `Dial` and `DialWithCrypto` never replace a connection: they add the
  -- new one under its own number, which was free, and keep all others, or they fail and leave the
  -- listener as it was.
  pub dial-Adds :
      (generated : Option (List ℕ)) (addr : AddrPort) (pub_key_id_rcv : List ℕ) (l : Listener)
      → Adds l (dial c generated addr l)
        × Adds l (dial_with_crypto c generated addr pub_key_id_rcv l)
  unfolding dial dial_with_crypto dial_with
  dial-Adds generated addr pub_key_id_rcv l =
      let named : List ℕ → Option (List ℕ) → Bool → ℕ → Exec Listener Conn =
        λ prv id crypto conn_id. new_conn c conn_id addr prv id none true crypto in
      let made : (id : Option (List ℕ)) (crypto : Bool)
          → Adds l (dial_with c generated addr id crypto l) =
        λ id crypto.
          Adds-lift l (need Error.key_not_generated generated)
            (λ prv. Exec.◌>>=◌ (lift (uint64 (c.public_key prv))) (named prv id crypto))
            (λ prv.
              Adds-lift l (uint64 (c.public_key prv)) (named prv id crypto)
                (λ conn_id. new_conn-Adds conn_id addr prv id none true crypto l)) in
      (made none false, made (some pub_key_id_rcv) true)
