-- ===== src/Crypto.antt =====
-- Message types, sizes and the overhead of a packet, of crypto.go.
pub mod Library
pub mod Chained
pub mod Messages
pub mod Nonce
pub mod RoundTrip
pub mod Pcap
pub mod Toy
mod Tests
use qotp.Base.{ℕ, ◌+◌, ◌*◌, false, ◌||◌, Option, none, some, ltb, is_some}
use qotp.Proto.{Ack, calc_proto_overhead, ack_beyond_24, min_proto_size}

-- `CryptoMsgType`, in the order of its numbers.
pub data CryptoMsgType : Type 0 where
  init_snd init_rcv init_crypto_snd init_crypto_rcv data_msg : CryptoMsgType

abbrev pub crypto_version : ℕ
crypto_version = 0

abbrev pub mac_size : ℕ
mac_size = 16

abbrev pub sn_size : ℕ
sn_size = 6

abbrev pub pub_key_size : ℕ
pub_key_size = 32

abbrev pub header_size : ℕ
header_size = 1

abbrev pub conn_id_size : ℕ
conn_id_size = 8

abbrev pub msg_init_fill_len_size : ℕ
msg_init_fill_len_size = 2

abbrev pub min_init_rcv_size_hdr : ℕ
min_init_rcv_size_hdr = header_size + conn_id_size + 2 * pub_key_size

abbrev pub min_init_crypto_snd_size_hdr : ℕ
min_init_crypto_snd_size_hdr = header_size + 2 * pub_key_size

abbrev pub min_init_crypto_rcv_size_hdr : ℕ
min_init_crypto_rcv_size_hdr = header_size + conn_id_size + pub_key_size

abbrev pub min_data_size_hdr : ℕ
min_data_size_hdr = header_size + conn_id_size

abbrev pub footer_data_size : ℕ
footer_data_size = sn_size + mac_size

abbrev pub min_packet_size : ℕ
min_packet_size = min_data_size_hdr + footer_data_size + min_proto_size

-- `none` stands for the -1 of InitSnd, which carries no data.
unfoldable pub calc_crypto_overhead_with_data : CryptoMsgType → Option Ack → ℕ → Option ℕ
unfolding calc_proto_overhead
calc_crypto_overhead_with_data msg_type ack offset =
    let needs_extension = ack_beyond_24 ack || ltb 0xffffff offset in
    let overhead = calc_proto_overhead (is_some ack) needs_extension false in
    elim msg_type [
      | init_snd ↦ none
      | init_rcv ↦ some (overhead + (min_init_rcv_size_hdr + footer_data_size))
      | init_crypto_snd ↦
          some
            (overhead + (min_init_crypto_snd_size_hdr + footer_data_size + msg_init_fill_len_size))
      | init_crypto_rcv ↦ some (overhead + (min_init_crypto_rcv_size_hdr + footer_data_size))
      | data_msg ↦ some (overhead + (min_data_size_hdr + footer_data_size))
    ]
