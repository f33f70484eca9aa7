-- ===== src/Listener/Delivery.antt =====
-- From a connection's `encode` to the other side's `decode` and `DecodePayload`: data packets.
use qotp.Base.{
  ℕ, suc, ◌-◌, ◌^◌, ◌<◌, ◌≡◌, ◌≢◌, ◌⊎◌, refl, arith, true, not, Option, some, List, [], ◌∷◌, ◌++◌,
  ok, leb, length, slice, slice-append,
}
use qotp.Bytes.{uint64}
use qotp.Bytes.RoundTrip.{le_bytes, uint64-le_bytes}
use qotp.Proto.{PayloadHeader, byte_of}
use qotp.Proto.Layout.{frame, encode_payload-frame}
use qotp.Proto.RoundTrip.{Fits, received, decode_payload-encode_payload}
use qotp.Entries
use qotp.Crypto.{data_msg}
use qotp.Crypto.Library.{CryptoLib, Suite}
use qotp.Crypto.RoundTrip.{sealed_text, sealed_sn}
use qotp.Crypto.RoundTrip.Packets.{length-packet_of, data_header, decrypt_data_lem}
use qotp.Conn.{Conn, AddrPort, Host}
use qotp.Conn.Encode.{encode}
use qotp.Conn.Encode.Numbers.{InRange, number, with_number}
use qotp.Listener.{Listener, put_conn}
use qotp.Listener.Decode.{decode, receive_data, find_conn, msg_type_of, follow_epoch}
use qotp.Listener.Listen.{payload_of}
use qotp.Conn.Encode.Data.{data_packet, encode_data_lem, length-frame}

module _ (c : CryptoLib) (secret : List ℕ) (suite : Suite c secret) (host : Host) (conn : Conn)
    (key : conn.shared_secret ≡ some secret) (p : PayloadHeader) (user_data : Option (List ℕ)) where
  abbrev the_packet : List ℕ
  the_packet = data_packet c secret suite host conn key p user_data

  -- The other side, whose connection has the same number and secret.
  module _ (l : Listener) (peer : Conn) (found : Entries.get conn.conn_id l.conn_map ≡ some peer)
      (peer_key : peer.shared_secret ≡ some secret)
      (roles : not peer.is_sender_on_init ≡ conn.is_sender_on_init) (range : InRange conn)
      (id_small : conn.conn_id < 2 ^ 64)
      (near : (peer.epoch_crypto_rcv ≡ conn.epoch_crypto_snd)
        ⊎ (peer.epoch_crypto_rcv ≡ suc conn.epoch_crypto_snd)
        ⊎ (suc peer.epoch_crypto_rcv ≡ conn.epoch_crypto_snd))
      (spare : List ℕ) where
    receive_data_lem : receive_data c conn.conn_id the_packet spare l ≡ (
      put_conn conn.conn_id (follow_epoch c conn.epoch_crypto_snd peer) l,
      ok (conn.conn_id, frame p user_data, data_msg),
    )
    unfolding receive_data find_conn
    receive_data_lem =
        rw
          (
            found,
            peer_key,
            decrypt_data_lem c secret suite conn.conn_id conn.sn_crypto conn.epoch_crypto_snd
                peer.epoch_crypto_rcv conn.is_sender_on_init peer.is_sender_on_init
                (frame p user_data) spare roles range.sn (omega (arith, range.epoch)) near
                (length-frame p user_data),
          )
          refl

    decode_lem :
        (r_addr : AddrPort) (generated : Option (List ℕ))
        → decode c r_addr generated the_packet spare l ≡ (
          put_conn conn.conn_id (follow_epoch c conn.epoch_crypto_snd peer) l,
          ok (conn.conn_id, frame p user_data, data_msg),
        )
    unfolding decode byte_of msg_type_of
    decode_lem r_addr generated =
        let header = data_header c secret suite conn.conn_id in
        let sealed =
          sealed_text c secret suite conn.sn_crypto conn.epoch_crypto_snd conn.is_sender_on_init
            header (frame p user_data) in
        let rest = sealed_sn c secret suite conn.sn_crypto sealed ++ sealed in
        let size =
          length-packet_of c secret suite conn.sn_crypto conn.epoch_crypto_snd
            conn.is_sender_on_init header (frame p user_data) in
        let enough : leb 39 (length the_packet) ≡ true =
          ground (arith, size, length-frame p user_data) in
        let id_read : slice 1 9 the_packet ≡ ok (le_bytes 8 conn.conn_id) =
          slice-append (128 ∷ []) (le_bytes 8 conn.conn_id) rest 1 9 refl refl in
        let id_is : uint64 (le_bytes 8 conn.conn_id) ≡ ok conn.conn_id =
          uint64-le_bytes conn.conn_id [] id_small in
        rw (enough, id_read, id_is, receive_data_lem) refl

    -- A data packet that a connection encodes is decoded by the listener of the other side, whose
    -- connection of the same number has the same secret, the other role and an epoch at most one
    -- apart: for the connection that it belongs to, and with the header and the data that went in
    -- (up to the window's code and the fields that an ACK alone leaves out). The sender goes to its
    -- next number, the receiver's epoch does not fall behind the packet's. This is for fields and
    -- counters in their ranges and a number that is not the last one, whatever follows the packet in
    -- the read buffer.
    pub decode-encode :
        (r_addr : AddrPort) (generated : Option (List ℕ))
        → number conn ≢ 2 ^ 95 - 1
        → Fits p
        → (packet : List ℕ) × (payload : List ℕ) × (encode c host p user_data data_msg conn
            ≡ (with_number (suc (number conn)) conn, ok packet))
          × (decode c r_addr generated packet spare l ≡ (
            put_conn conn.conn_id (follow_epoch c conn.epoch_crypto_snd peer) l,
            ok (conn.conn_id, payload, data_msg),
          ))
          × (payload_of data_msg payload ≡ ok (received p user_data))
    unfolding payload_of
    decode-encode r_addr generated left fits = (
      the_packet,
      frame p user_data,
      encode_data_lem c secret suite host conn key p user_data range left,
      decode_lem r_addr generated,
      rw (encode_payload-frame p user_data) at (decode_payload-encode_payload p user_data fits),
    )
