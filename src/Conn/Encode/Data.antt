-- ===== src/Conn/Encode/Data.antt =====
-- The data packet that `encode` makes of a payload.
use qotp.Base.{
  ℕ, suc, ◌-◌, ◌^◌, ◌≤◌, ◌≡◌, ◌≢◌, refl, ◌∙◌, arith, Bool, true, false, not, ◌&&◌, Option, some,
  none, List, [], ◌++◌, ok, if◌then◌else◌, is_some, length, length-append, ==_ne,
}
use qotp.Bytes.{offset_size}
use qotp.Proto.{Ack, PayloadHeader}
use qotp.Proto.Layout.{frame, extended, ack_section, data_section, encode_payload-frame}
use qotp.Crypto.{data_msg}
use qotp.Crypto.Library.{CryptoLib, Suite}
use qotp.Crypto.RoundTrip.Packets.{packet_of, data_header, encrypt_data_lem}
use qotp.Conn.{Conn, Host}
use qotp.Conn.Encrypt.{encrypt}
use qotp.Conn.Encode.{encode}
use qotp.Conn.Encode.Numbers.{InRange, number, with_number, encode-counted}

length-ack_section : (a : Ack) (is_extend : Bool) → 10 ≤ length (ack_section (some a) is_extend)
unfolding offset_size
length-ack_section a true = omega arith
length-ack_section a false = omega arith

length-data_section :
    (p : PayloadHeader) (user_data : Option (List ℕ)) (is_extend : Bool)
    → 7 ≤ length (data_section p user_data is_extend)
unfolding offset_size
length-data_section p user_data true = omega arith
length-data_section p user_data false = omega arith

length-sections :
    (ack : Option Ack) (is_close is_extend no_data : Bool) (rest : List ℕ)
    → 7 ≤ length rest
    → 7
      ≤ length (
          ack_section ack is_extend
          ++ (if not is_close && is_some ack && no_data then [] else rest))
length-sections none true is_extend no_data rest h = h
length-sections none false is_extend no_data rest h = h
length-sections (some a) is_close is_extend no_data rest h = omega (
  arith,
  length-ack_section a is_extend,
  length-append (ack_section (some a) is_extend)
      (if not is_close && true && no_data then [] else rest),
)

-- No payload is shorter than `MinProtoSize`.
pub length-frame :
    (p : PayloadHeader) (user_data : Option (List ℕ)) → 8 ≤ length (frame p user_data)
length-frame p user_data = omega (
  arith,
  length-sections p.ack p.is_close (extended p) (not (is_some user_data))
      (data_section p user_data (extended p)) (length-data_section p user_data (extended p)),
)

module _ (c : CryptoLib) (secret : List ℕ) (suite : Suite c secret) (host : Host) (conn : Conn)
    (key : conn.shared_secret ≡ some secret) (p : PayloadHeader) (user_data : Option (List ℕ)) where
  -- The packet that carries the payload.
  abbrev pub data_packet : List ℕ
  data_packet =
      packet_of c secret suite conn.sn_crypto conn.epoch_crypto_snd conn.is_sender_on_init
        (data_header c secret suite conn.conn_id) (frame p user_data)

  encrypt_lem : encrypt c host p user_data data_msg conn ≡ ok data_packet
  unfolding encrypt
  encrypt_lem = rw (
    encode_payload-frame p user_data,
    key,
    encrypt_data_lem c secret suite conn.conn_id conn.sn_crypto conn.epoch_crypto_snd
        conn.is_sender_on_init (frame p user_data) (length-frame p user_data),
  )

  pub encode_data_lem :
      InRange conn
      → number conn ≢ 2 ^ 95 - 1
      → encode c host p user_data data_msg conn
        ≡ (with_number (suc (number conn)) conn, ok data_packet)
  encode_data_lem range left =
      encode-counted c host p user_data data_msg conn range
      ∙ rw (encrypt_lem, ==_ne (number conn) (2 ^ 95 - 1) left) refl
