-- ===== src/Conn/Encrypt.antt =====
-- The packet of each message type, from the state of the connection: the `switch` in `Conn.encode` of
-- codec.go.
use qotp.Base.{Option, none, some, List, ℕ, Run, ok, err, panic, ◌>>=◌}
use qotp.Proto.{PayloadHeader, encode_payload}
use qotp.Crypto.{CryptoMsgType, init_snd, init_rcv, init_crypto_snd, init_crypto_rcv, data_msg}
use qotp.Crypto.Library.{CryptoLib}
use qotp.Crypto.Messages.{
  encrypt_init_snd, encrypt_init_rcv, encrypt_init_crypto_snd, encrypt_init_crypto_rcv,
  encrypt_data,
}
use qotp.Conn.{Conn, Host}

-- `packetData, _ = EncodePayload(p, userData)`
abbrev payload_of : Run (List ℕ × ℕ) → Run (List ℕ)
payload_of (ok (packet_data, n)) = ok packet_data
payload_of (err e) = err e
payload_of panic = panic

-- `PublicKey()` of a key, which panics on nil.
abbrev public_of : CryptoLib → Option (List ℕ) → Run (Option (List ℕ))
public_of c none = panic
public_of c (some prv) = ok (some (c.public_key prv))

-- What `encryptInitSnd` and `encryptInitCryptoSnd` return beside the connection's number.
abbrev packet_of_pair : Run (ℕ × List ℕ) → Run (List ℕ)
packet_of_pair (ok (conn_id, enc_data)) = ok enc_data
packet_of_pair (err e) = err e
packet_of_pair panic = panic

-- The `switch` on the message type: the packet.
unfoldable pub encrypt :
    CryptoLib → Host → PayloadHeader → Option (List ℕ) → CryptoMsgType → Conn → Run (List ℕ)
encrypt c host p user_data init_snd conn = do
  ep ← public_of c conn.prv_key_ep_snd
  packet_of_pair (encrypt_init_snd (some (c.public_key host.prv_key_id)) ep host.mtu)
encrypt c host p user_data init_crypto_snd conn = do
  packet_data ← payload_of (encode_payload p user_data)
  packet_of_pair (
      encrypt_init_crypto_snd c conn.pub_key_id_rcv (some (c.public_key host.prv_key_id))
        conn.prv_key_ep_snd conn.sn_crypto host.mtu packet_data)
encrypt c host p user_data init_crypto_rcv conn = do
  packet_data ← payload_of (encode_payload p user_data)
  encrypt_init_crypto_rcv c conn.conn_id conn.pub_key_ep_rcv conn.prv_key_ep_snd conn.sn_crypto
      packet_data
encrypt c host p user_data init_rcv conn = do
  packet_data ← payload_of (encode_payload p user_data)
  encrypt_init_rcv c conn.conn_id (some (c.public_key host.prv_key_id)) conn.pub_key_ep_rcv
      conn.prv_key_ep_snd conn.sn_crypto packet_data
encrypt c host p user_data data_msg conn = do
  packet_data ← payload_of (encode_payload p user_data)
  encrypt_data c conn.conn_id conn.is_sender_on_init conn.shared_secret conn.sn_crypto
      conn.epoch_crypto_snd packet_data
