-- ===== src/Conn/Encode.antt =====
-- `Conn.encode` of codec.go: the packet of a message, and the sequence number of the next one.
pub mod Numbers
pub mod Data
use qotp.Base.{
  ℕ, ◌+◌, ◌-◌, ◌^◌, Bool, true, Option, none, some, List, [], Run, ok, err, panic, Error,
  if◌then◌else◌, ltb, u64,
}
use qotp.Base.Exec.{Exec, ◌>>=◌, ◌>>◌, return, modify}
use qotp.Proto.{PayloadHeader}
use qotp.Crypto.{CryptoMsgType, init_snd, init_rcv, init_crypto_snd, init_crypto_rcv, data_msg}
use qotp.Crypto.Library.{CryptoLib}
use qotp.Conn.{Conn, Host}
use qotp.Conn.Encrypt.{encrypt}

-- The flag that all the cases but `Data` set.
abbrev pub init_sent : CryptoMsgType → Conn → Conn
init_sent data_msg c = c
init_sent t c = record c { is_init_sent_on_snd = true }

-- The rollover of the sequence number into the next epoch.
unfoldable pub rollover : Exec Conn (Unit {0})
rollover c =
    if ltb (2 ^ 48 - 1) c.sn_crypto
    then if ltb (2 ^ 47 - 1) (u64 (c.epoch_crypto_snd + 1))
      then (c, err Error.sn_exhausted)
      else (record c { epoch_crypto_snd = u64 (c.epoch_crypto_snd + 1); sn_crypto = 0 }, ok tt)
    else (c, ok tt)

unfoldable pub encode :
    CryptoLib → Host → PayloadHeader → Option (List ℕ) → CryptoMsgType → Exec Conn (List ℕ)
encode c host p user_data msg_type = do
  enc_data ← (λ s. (s, encrypt c host p user_data msg_type s))
  modify (init_sent msg_type)
  modify (λ s. record s { sn_crypto = u64 (s.sn_crypto + 1) })
  rollover
  return enc_data
