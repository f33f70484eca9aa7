-- ===== src/Listener/Failures.antt =====
-- Calls of listener.go that cannot succeed.
use qotp.Base.{
  ℕ, ◌≡◌, Bool, true, false, not, Option, none, some, List, ok, panic, ◌>>◌, guard, Error, Returns,
  is_some, ◌==◌, length,
}
use qotp.Bytes.{uint64}
use qotp.Entries
use qotp.Crypto.Library.{CryptoLib}
use qotp.Conn.{AddrPort}
use qotp.Listener.{Listener, dial, dial_with, dial_with_crypto, new_conn}
use qotp.Listener.Options.{System, ListenOption, with_seed_str_hex, decode_hex, copy_seed}

-- Two guards before a panic.
panic-fails :
    (A : Type 0) (b b' : Bool) (e e' : Error)
    → ¬ Returns {A = A} (λ _. Unit {0}) (guard b e >> (guard b' e' >> panic))
panic-fails A true true e e' h = h
panic-fails A true false e e' h = h
panic-fails A false b' e e' h = h

seed_fails :
    (os : System) (digits : List ℕ) (o : ListenOption os) (seed : Option (List ℕ))
    → ¬ Returns
        (λ _. Unit {0})
        (guard (not (is_some seed)) Error.already_set
          >> (guard (length (decode_hex os digits).0 == 32) Error.seed_size
              >> (guard (not (decode_hex os digits).1) Error.hex_refused
                  >> copy_seed os seed (decode_hex os digits).0 o)))
seed_fails os digits o none =
    panic-fails (ListenOption os) (length (decode_hex os digits).0 == 32)
      (not (decode_hex os digits).1) Error.seed_size Error.hex_refused
seed_fails os digits o (some seed) = λ h. h

-- `WithSeedStrHex` never sets a seed: for all digits and options it returns an error or panics.
pub with_seed_str_hex-fails :
    (os : System) (digits : List ℕ) (o : ListenOption os)
    → ¬ Returns (λ _. Unit {0}) (with_seed_str_hex os digits o)
unfolding with_seed_str_hex
with_seed_str_hex-fails os digits o = seed_fails os digits o o.seed

-- With a key log, `Dial` and `DialWithCrypto` of a new connection panic, whatever the keys are.
pub dial-panics :
    (c : CryptoLib) (l : Listener) (prv id_rcv : List ℕ) (addr : AddrPort) (conn_id : ℕ)
    → l.key_log ≡ true
    → uint64 (c.public_key prv) ≡ ok conn_id
    → Entries.get conn_id l.conn_map ≡ none
    → ((dial c (some prv) addr l).1 ≡ panic)
      × ((dial_with_crypto c (some prv) addr id_rcv l).1 ≡ panic)
unfolding dial dial_with dial_with_crypto new_conn Entries.get
dial-panics c l prv id_rcv addr conn_id log id absent =
    (rw (id, absent) (simp log), rw (id, absent) (simp log))
