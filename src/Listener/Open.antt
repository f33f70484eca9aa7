-- ===== src/Listener/Open.antt =====
-- The constructor `Listen` of listener.go, and the calls that parse their arguments first.
use qotp.Base.{
  ℕ, false, Option, none, some, List, [], Run, ok, ◌>>=◌, ◌>>◌, panic, need, guard, Error, not,
}
use qotp.Base.Exec.{Exec, lift}
use qotp.Base.Exec
use qotp.Conn.{Conn, AddrPort}
use qotp.Crypto.Library.{CryptoLib}
use qotp.Listener.{Listener, dial, dial_with_crypto, cleanup_conn}
use qotp.Listener.Options.{System, ListenFunc, fill_listen_opts, decode_hex}

-- A method call of what may be nil.
abbrev pub or_panic {ℓ} : {A : Type ℓ} → Option A → Run A
or_panic none = panic
or_panic (some a) = ok a

-- `Listen`: a listener without connections, and its socket.
unfoldable pub open_listener : (os : System) → List (ListenFunc os) → Run (Listener × os.Socket)
open_listener os options = do
  o ← fill_listen_opts os options
  local_conn ← or_panic o.local_conn
  prv_key_id ← or_panic o.prv_key_id
  ok (
    record {
      host = record { prv_key_id = prv_key_id; mtu = o.mtu };
      conn_map = [];
      current = none;
      closed = false;
      key_log = o.has_key_log;
    },
    local_conn,
  )

unfoldable pub force_close : ℕ → Listener → Listener
force_close conn_key l = cleanup_conn conn_key l

-- `decodeHexPubKey`; `new_public_key` is `X25519().NewPublicKey`.
unfoldable pub decode_hex_pub_key :
    (os : System) → (List ℕ → Option (List ℕ)) → List ℕ → Run (List ℕ)
decode_hex_pub_key os new_public_key digits = do
  guard (not (decode_hex os digits).1) Error.hex_refused
  need Error.key_refused (new_public_key (decode_hex os digits).0)

-- The address comes from `netip.ParseAddrPort`.
module _ (c : CryptoLib) (parse_addr_port : List ℕ → Option AddrPort) where
  unfoldable pub dial_string : Option (List ℕ) → List ℕ → Exec Listener Conn
  dial_string generated remote_addr_string =
      Exec.◌>>=◌ (lift (need Error.address_refused (parse_addr_port remote_addr_string)))
        (dial c generated)

  unfoldable pub dial_with_crypto_string :
      (os : System)
      → (List ℕ → Option (List ℕ))
      → Option (List ℕ)
      → List ℕ
      → List ℕ
      → Exec Listener Conn
  dial_with_crypto_string os new_public_key generated remote_addr_string pub_key_id_rcv_hex =
      Exec.◌>>=◌ (lift (need Error.address_refused (parse_addr_port remote_addr_string)))
        λ remote_addr.
          Exec.◌>>=◌ (lift (decode_hex_pub_key os new_public_key pub_key_id_rcv_hex))
            (dial_with_crypto c generated remote_addr)
