-- ===== src/Listener/Handshake.antt =====
-- The handshake of two sides, of which the first knows the identity key of the second: its first
-- packet, and the reply.
use qotp.Base.{
  ℕ, suc, ◌+◌, ◌-◌, ◌^◌, ◌≤◌, ◌<◌, ◌≡◌, ◌≢◌, refl, sym, ap, ◌∙◌, arith, Bool, true, false, Option,
  some, none, List, [], ◌∷◌, ◌++◌, append_assoc, ok, leb, length, length-take, take, drop,
  take-append-drop, slice, slice-append, ==_ne,
}
use qotp.Bytes.{uint64}
use qotp.Bytes.RoundTrip.{le_bytes, uint64-le_bytes}
use qotp.Proto.{PayloadHeader, byte_of}
use qotp.Proto.Layout.{frame, encode_payload-frame}
use qotp.Entries
use qotp.Crypto.{init_crypto_snd, init_crypto_rcv}
use qotp.Crypto.Library.{CryptoLib, Suite}
use qotp.Crypto.Messages.{decrypt_init_crypto_snd}
use qotp.Crypto.RoundTrip.{sealed_text, sealed_sn}
use qotp.Crypto.RoundTrip.Packets.{message_of, packet_of, length-packet_of}
use qotp.Crypto.RoundTrip.Keys.{IsKey}
use qotp.Crypto.RoundTrip.FirstPacket
use qotp.Crypto.RoundTrip.Replies
use qotp.Conn.{Conn, AddrPort, Host}
use qotp.Conn.Encrypt.{encrypt}
use qotp.Conn.Encode.{encode, init_sent}
use qotp.Conn.Encode.Numbers.{InRange, number, with_number, encode-counted}
use qotp.Listener.{Listener, put_conn, fresh_conn, new_conn}
use qotp.Listener.Decode.{
  decode, receive_init_crypto_snd, receive_init_crypto_rcv, accept, find_conn, msg_type_of,
}
use qotp.Conn.Encode.Data.{length-frame}

-- The number of a connection is in the first bytes of a key.
uint64-take : (xs : List ℕ) → uint64 (take 8 xs) ≡ uint64 xs
unfolding uint64
uint64-take (b0 ∷ b1 ∷ b2 ∷ b3 ∷ b4 ∷ b5 ∷ b6 ∷ b7 ∷ rest) = refl
uint64-take [] = refl
uint64-take (b0 ∷ []) = refl
uint64-take (b0 ∷ b1 ∷ []) = refl
uint64-take (b0 ∷ b1 ∷ b2 ∷ []) = refl
uint64-take (b0 ∷ b1 ∷ b2 ∷ b3 ∷ []) = refl
uint64-take (b0 ∷ b1 ∷ b2 ∷ b3 ∷ b4 ∷ []) = refl
uint64-take (b0 ∷ b1 ∷ b2 ∷ b3 ∷ b4 ∷ b5 ∷ []) = refl
uint64-take (b0 ∷ b1 ∷ b2 ∷ b3 ∷ b4 ∷ b5 ∷ b6 ∷ []) = refl

-- Bytes 1 to 8 of a packet whose header has a key at its front.
id_of_packet :
    (t : ℕ) (key next rest : List ℕ)
    → 8 ≤ length key
    → slice 1 9 (((t ∷ key) ++ next) ++ rest) ≡ ok (take 8 key)
id_of_packet t key next rest long =
    let split : (key ++ next) ++ rest ≡ take 8 key ++ (drop 8 key ++ (next ++ rest)) =
      append_assoc key next rest
      ∙ ap (λ k. k ++ (next ++ rest)) (sym (take-append-drop 8 key))
      ∙ append_assoc (take 8 key) (drop 8 key) (next ++ rest) in
    ap (λ xs. slice 1 9 (t ∷ xs)) split
    ∙ slice-append (t ∷ []) (take 8 key) (drop 8 key ++ (next ++ rest)) 1 9 refl
        (omega (arith, length-take 8 key))

-- A first packet makes a connection.
accept_absent :
    (c : CryptoLib) (conn_id : ℕ) (r_addr : AddrPort) (prv id_snd ep_snd : List ℕ)
    → (with_crypto : Bool) (l : Listener) → Entries.get conn_id l.conn_map ≡ none
    → l.key_log ≡ false
    → let conn = fresh_conn conn_id r_addr prv (some id_snd) (some ep_snd) false with_crypto in
      accept c conn_id r_addr (some prv) id_snd ep_snd with_crypto l
      ≡ (put_conn conn_id conn l, ok conn)
unfolding accept new_conn Entries.get Entries.put
accept_absent c conn_id r_addr prv id_snd ep_snd with_crypto l absent quiet =
    rw (absent, new_conn, absent) (simp quiet)

-- The keys of the two sides, a and b, and the two secrets that they share: `hello` for the first
-- packet, `secret` for all others.
module _ (c : CryptoLib) (hello : List ℕ) (hello_suite : Suite c hello) (secret : List ℕ)
    (suite : Suite c secret) (prv_a id_a prv_b id_b : List ℕ) (key_a : IsKey c (c.public_key prv_a))
    (key_id_a : IsKey c (c.public_key id_a)) (key_b : IsKey c (c.public_key prv_b))
    (hello_ours : c.ecdh prv_a (c.public_key id_b) ≡ some hello)
    (hello_theirs : c.ecdh id_b (c.public_key prv_a) ≡ some hello)
    (ours : c.ecdh prv_b (c.public_key prv_a) ≡ some secret)
    (theirs : c.ecdh prv_a (c.public_key prv_b) ≡ some secret) (mtu : ℕ) (mtu_small : mtu < 2 ^ 16)
    (conn_id : ℕ) (id_small : conn_id < 2 ^ 64)
    (id_of_key : uint64 (c.public_key prv_a) ≡ ok conn_id) where
  abbrev pub host_a : Host
  host_a = record { prv_key_id = id_a; mtu = mtu }

  abbrev pub host_b : Host
  host_b = record { prv_key_id = id_b; mtu = mtu }

  -- The connection that b makes for the first packet.
  abbrev pub accepted : AddrPort → Conn
  accepted r_addr =
      record (fresh_conn conn_id r_addr prv_b (some (c.public_key id_a)) (some (c.public_key prv_a))
        false true) { shared_secret = some secret }

  abbrev pub with_conn : Listener → AddrPort → Listener
  with_conn l r_addr =
      put_conn conn_id (accepted r_addr)
        (put_conn conn_id (record (accepted r_addr) { shared_secret = none }) l)

  -- The reply of b, whose connection is new, with a payload of its own.
  module _ (r_addr : AddrPort) (p : PayloadHeader) (user_data : Option (List ℕ)) where
    abbrev reply : List ℕ
    reply =
        Replies.crypto_reply c secret suite prv_b (c.public_key prv_a) prv_a key_b ours theirs
          conn_id 0 (frame p user_data) [] (omega arith) (length-frame p user_data)

    encrypt-reply : encrypt c host_b p user_data init_crypto_rcv (accepted r_addr) ≡ ok reply
    unfolding encrypt
    encrypt-reply = rw (
      encode_payload-frame p user_data,
      Replies.encrypt_init_crypto_rcv_lem c secret suite prv_b (c.public_key prv_a) prv_a key_b ours
          theirs conn_id 0 (frame p user_data) [] (omega arith) (length-frame p user_data),
    )

    module _ (l : Listener) (a : Conn) (prv : a.prv_key_ep_snd ≡ some prv_a)
        (found : Entries.get conn_id l.conn_map ≡ some a) (spare : List ℕ) where
      abbrev pub replied : Conn
      replied = record a { pub_key_ep_rcv = some (c.public_key prv_b); shared_secret = some secret }

      receive_reply :
          receive_init_crypto_rcv c conn_id reply spare l
          ≡ (put_conn conn_id replied l, ok (conn_id, frame p user_data, init_crypto_rcv))
      unfolding receive_init_crypto_rcv find_conn
      receive_reply =
          rw
            (
              found,
              prv,
              Replies.decrypt_init_crypto_rcv_lem c secret suite prv_b (c.public_key prv_a) prv_a
                  key_b ours theirs conn_id 0 (frame p user_data) spare (omega arith)
                  (length-frame p user_data),
            )
            refl

      decode-reply :
          (addr : AddrPort) (generated : Option (List ℕ))
          → decode c addr generated reply spare l
            ≡ (put_conn conn_id replied l, ok (conn_id, frame p user_data, init_crypto_rcv))
      unfolding decode byte_of msg_type_of
      decode-reply addr generated =
          let header = (96 ∷ le_bytes 8 conn_id) ++ c.public_key prv_b in
          let sealed = sealed_text c secret suite 0 0 false header (frame p user_data) in
          let rest = sealed_sn c secret suite 0 sealed ++ sealed in
          let size = length-packet_of c secret suite 0 0 false header (frame p user_data) in
          let enough : leb 39 (length reply) ≡ true =
            ground (arith, size, length-frame p user_data) in
          let id_read : slice 1 9 reply ≡ ok (le_bytes 8 conn_id) =
            id_of_packet 96 (le_bytes 8 conn_id) (c.public_key prv_b) rest (omega arith) in
          let id_is : uint64 (le_bytes 8 conn_id) ≡ ok conn_id =
            uint64-le_bytes conn_id [] id_small in
          rw (enough, id_read, id_is) receive_reply

  module _ (a : Conn) (prv : a.prv_key_ep_snd ≡ some prv_a)
      (peer : a.pub_key_id_rcv ≡ some (c.public_key id_b)) (range : InRange a)
      (left : number a ≢ 2 ^ 95 - 1) (p : PayloadHeader) (user_data : Option (List ℕ))
      (fits : 89 + length (frame p user_data) ≤ mtu) where
    room : 95 ≤ mtu
    room = omega (arith, length-frame p user_data)

    abbrev header : List ℕ
    header =
        FirstPacket.header c hello hello_suite prv_a id_b (c.public_key id_b) (c.public_key id_a)
          key_a key_id_a hello_ours hello_theirs a.sn_crypto mtu (frame p user_data) fits room
          mtu_small

    abbrev padded : List ℕ
    padded =
        FirstPacket.padded c hello hello_suite prv_a id_b (c.public_key id_b) (c.public_key id_a)
          key_a key_id_a hello_ours hello_theirs a.sn_crypto mtu (frame p user_data) fits room
          mtu_small

    abbrev first_packet : List ℕ
    first_packet = packet_of c hello hello_suite a.sn_crypto 0 true header padded

    length-first_packet : length first_packet ≡ mtu
    length-first_packet =
        FirstPacket.length-packet c hello hello_suite prv_a id_b (c.public_key id_b)
          (c.public_key id_a) key_a key_id_a hello_ours hello_theirs a.sn_crypto mtu
          (frame p user_data) fits room mtu_small

    encrypt_first : encrypt c host_a p user_data init_crypto_snd a ≡ ok first_packet
    unfolding encrypt
    encrypt_first = rw (
      encode_payload-frame p user_data,
      prv,
      peer,
      (FirstPacket.encrypt_init_crypto_snd_lem c hello hello_suite prv_a id_b (c.public_key id_b)
          (c.public_key id_a) key_a key_id_a hello_ours hello_theirs a.sn_crypto mtu
          (frame p user_data) fits room mtu_small).1,
    )

    module _ (l : Listener) (host : l.host ≡ host_b) (quiet : l.key_log ≡ false)
        (absent : Entries.get conn_id l.conn_map ≡ none) (r_addr : AddrPort) (spare : List ℕ) where
      receive_first :
          receive_init_crypto_snd c conn_id r_addr (some prv_b) first_packet spare l
          ≡ (with_conn l r_addr, ok (conn_id, frame p user_data, init_crypto_snd))
      unfolding receive_init_crypto_snd
      receive_first =
          let opened =
            FirstPacket.decrypt_init_crypto_snd_lem c hello hello_suite prv_a id_b
              (c.public_key id_b) (c.public_key id_a) key_a key_id_a hello_ours hello_theirs
              a.sn_crypto mtu (frame p user_data) fits room mtu_small spare range.sn in
          let opened_here : decrypt_init_crypto_snd c first_packet spare l.host.prv_key_id
                l.host.mtu
              ≡ ok (
                c.public_key id_a,
                c.public_key prv_a,
                message_of c hello hello_suite a.sn_crypto 0 (frame p user_data),
              ) =
            rw (ap (λ h. h.prv_key_id) host, ap (λ h. h.mtu) host) opened in
          rw
            (
              opened_here,
              accept_absent c conn_id r_addr prv_b (c.public_key id_a) (c.public_key prv_a) true l
                  absent quiet,
              ours,
            )
            refl

      decode_first :
          decode c r_addr (some prv_b) first_packet spare l
          ≡ (with_conn l r_addr, ok (conn_id, frame p user_data, init_crypto_snd))
      unfolding decode byte_of msg_type_of
      decode_first =
          let key = c.public_key prv_a in
          let sealed = sealed_text c hello hello_suite a.sn_crypto 0 true header padded in
          let rest = sealed_sn c hello hello_suite a.sn_crypto sealed ++ sealed in
          let enough : leb 39 (length first_packet) ≡ true =
            ground (arith, length-first_packet, room) in
          let id_read : slice 1 9 first_packet ≡ ok (take 8 key) =
            id_of_packet 64 key (c.public_key id_a) rest (omega (arith, key_a.size)) in
          let id_is : uint64 (take 8 key) ≡ ok conn_id = uint64-take key ∙ id_of_key in
          rw (enough, id_read, id_is) receive_first

    -- A handshake in which the sender knows the receiver's identity key, from a sender's connection
    -- whose number is that of its key and a listener that has no such connection. The first packet
    -- has exactly `mtu` bytes, and from it the receiver makes a connection with the shared secret and
    -- gets the payload. From the receiver's reply, decoded where the sender's connection is, with the
    -- keys that it started with, the sender takes the same secret and gets the reply's payload. This
    -- is for keys of 32 bytes, Diffie-Hellman secrets on which the sides agree, a payload that leaves
    -- 89 bytes free in an `mtu` below 2 ^ 16 that both use, counters in their ranges and not at the
    -- last number, and a receiver without a key log, whatever follows the packets in the buffers.
    pub handshake-agrees :
        (l : Listener)
        → l.host ≡ host_b
        → l.key_log ≡ false
        → Entries.get conn_id l.conn_map ≡ none
        → (r_addr : AddrPort) (spare : List ℕ) (p' : PayloadHeader) (user_data' : Option (List ℕ))
        → (l' : Listener) (a' : Conn) → a'.prv_key_ep_snd ≡ some prv_a
        → Entries.get conn_id l'.conn_map ≡ some a'
        → (addr : AddrPort) (generated : Option (List ℕ)) (spare' : List ℕ)
        → (first : List ℕ) × (reply_packet : List ℕ) × (encode c host_a p user_data init_crypto_snd
              a
            ≡ (with_number (suc (number a)) (init_sent init_crypto_snd a), ok first))
          × (length first ≡ mtu)
          × (decode c r_addr (some prv_b) first spare l
              ≡ (with_conn l r_addr, ok (conn_id, frame p user_data, init_crypto_snd)))
          × (encode c host_b p' user_data' init_crypto_rcv (accepted r_addr)
              ≡ (with_number 1 (init_sent init_crypto_rcv (accepted r_addr)), ok reply_packet))
          × (decode c addr generated reply_packet spare' l' ≡ (
            put_conn conn_id
                (record a' {
                  pub_key_ep_rcv = some (c.public_key prv_b);
                  shared_secret = some secret;
                })
                l',
            ok (conn_id, frame p' user_data', init_crypto_rcv),
          ))
    handshake-agrees l host quiet absent r_addr spare p' user_data' l' a' prv' found addr generated
          spare' =
        (
          first_packet,
          reply r_addr p' user_data',
          encode-counted c host_a p user_data init_crypto_snd a range
              ∙ rw (encrypt_first, ==_ne (number a) (2 ^ 95 - 1) left) refl,
          length-first_packet,
          decode_first l host quiet absent r_addr spare,
          encode-counted c host_b p' user_data' init_crypto_rcv (accepted r_addr)
                (record { sn = omega arith; epoch = omega arith })
              ∙ rw (encrypt-reply r_addr p' user_data') refl,
          decode-reply r_addr p' user_data' l' a' prv' found spare' addr generated,
        )
