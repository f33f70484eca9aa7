-- ===== src/Listener/Tests.antt =====
-- Runs of listener.go and of `Listener.decode` with a toy library, and the theorems at one input each.
use qotp.Base.{
  ◌+◌, ◌≤◌, inl, arith, ℕ, ◌≡◌, refl, true, false, none, some, Option, List, [], ◌∷◌, ok, panic,
  replicate, length, Returns, OnOk,
}
use qotp.Bytes.{uint64, offset_size}
use qotp.Entries
use qotp.Proto.{PayloadHeader}
use qotp.Proto.Layout.{frame}
use qotp.Proto.RoundTrip.{Fits, received}
use qotp.Crypto.{data_msg, init_crypto_snd, init_crypto_rcv}
use qotp.Crypto.Toy.{toy, toy_suite, add_bytes}
use qotp.Crypto.RoundTrip.Keys.{IsKey}
use qotp.Stream.{Stream}
use qotp.Conn.{Conn, AddrPort, Host}
use qotp.Conn.Encode.{encode, init_sent}
use qotp.Conn.Encode.Numbers.{with_number}
use qotp.Listener.{Listener, put_conn, fresh_conn, dial, dial_with_crypto, cleanup_stream}
use qotp.Listener.Decode.{decode, follow_epoch}
use qotp.Listener.Listen.{payload_of}
use qotp.Listener.Options.{System, no_options, with_seed_str_hex}
use qotp.Listener.Delivery.{decode-encode}
use qotp.Listener.Handshake.{handshake-agrees}
use qotp.Listener.Flush.{flush}
use qotp.Listener.Wait.{Waits, flush_wait}
use qotp.Listener.Dialling.{Adds, dial-Adds}
use qotp.Listener.Failures.{with_seed_str_hex-fails, dial-panics}

abbrev an_addr : AddrPort
an_addr = record { addr = 127 ∷ 0 ∷ 0 ∷ 1 ∷ []; port = 8888 }

-- The keys of the two sides, and their secrets.
abbrev prv_a : List ℕ
prv_a = replicate 32 1

abbrev id_a : List ℕ
id_a = replicate 32 2

abbrev prv_b : List ℕ
prv_b = replicate 32 3

abbrev id_b : List ℕ
id_b = replicate 32 5

abbrev hello : List ℕ
hello = replicate 32 6

abbrev secret : List ℕ
secret = replicate 32 4

abbrev a_key : (key : List ℕ) → length key ≡ 32 → IsKey toy key
a_key key size = record { size = size; taken = refl }

abbrev conn_id : ℕ
conn_id = 0x0101010101010101

abbrev conn_a : Conn
conn_a = fresh_conn conn_id an_addr prv_a (some id_b) none true true

abbrev host_of : List ℕ → Host
host_of prv_key_id = record { prv_key_id = prv_key_id; mtu = 1400 }

abbrev listener_with : List ℕ → Entries.Entries Conn → Listener
listener_with prv_key_id conn_map = record {
  host = host_of prv_key_id;
  conn_map = conn_map;
  current = none;
  closed = false;
  key_log = false;
}

abbrev a_payload : PayloadHeader
a_payload = record { is_close = false; ack = none; stream_id = 4; stream_offset = 9 }

a_payload-Fits : Fits a_payload
a_payload-Fits = record { ack = tt; stream_id = omega arith; stream_offset = omega arith }

abbrev two : Option (List ℕ)
two = some (7 ∷ 8 ∷ [])

ecdh_hello : toy.ecdh prv_a id_b ≡ some hello
unfolding add_bytes
ecdh_hello = refl

ecdh_hello_back : toy.ecdh id_b prv_a ≡ some hello
unfolding add_bytes
ecdh_hello_back = refl

ecdh_b : toy.ecdh prv_b prv_a ≡ some secret
unfolding add_bytes
ecdh_b = refl

ecdh_a : toy.ecdh prv_a prv_b ≡ some secret
unfolding add_bytes
ecdh_a = refl

id_of_key : uint64 prv_a ≡ ok conn_id
unfolding uint64
id_of_key = refl

found_a : Entries.get conn_id ((conn_id, conn_a) ∷ []) ≡ some conn_a
unfolding Entries.get
found_a = refl

absent_b : Entries.get {V = Conn} conn_id [] ≡ none
unfolding Entries.get
absent_b = refl

payload_room : 89 + length (frame a_payload two) ≤ 1400
unfolding offset_size
payload_room = omega arith

abbrev the_accepted : Conn
the_accepted = record (fresh_conn conn_id an_addr prv_b (some id_a) (some prv_a) false true) {
  shared_secret = some secret;
}

handshake-agrees_example :
    (first : List ℕ) × (reply_packet : List ℕ) × (encode toy
        (host_of id_a)
        a_payload
        two
        init_crypto_snd
        conn_a
      ≡ (with_number 1 (init_sent init_crypto_snd conn_a), ok first))
    × (length first ≡ 1400)
    × (decode toy an_addr (some prv_b) first [] (listener_with id_b []) ≡ (
      put_conn conn_id the_accepted
          (put_conn conn_id (record the_accepted { shared_secret = none }) (listener_with id_b [])),
      ok (conn_id, frame a_payload two, init_crypto_snd),
    ))
    × (encode toy (host_of id_b) a_payload two init_crypto_rcv the_accepted
        ≡ (with_number 1 (init_sent init_crypto_rcv the_accepted), ok reply_packet))
    × (decode toy an_addr none reply_packet [] (listener_with id_a ((conn_id, conn_a) ∷ [])) ≡ (
      put_conn conn_id
          (record conn_a { pub_key_ep_rcv = some prv_b; shared_secret = some secret })
          (listener_with id_a ((conn_id, conn_a) ∷ [])),
      ok (conn_id, frame a_payload two, init_crypto_rcv),
    ))
handshake-agrees_example =
    handshake-agrees toy hello (toy_suite hello) secret (toy_suite secret) prv_a id_a prv_b id_b
      (a_key prv_a refl) (a_key id_a refl) (a_key prv_b refl) ecdh_hello ecdh_hello_back ecdh_b
      ecdh_a 1400 (omega arith) conn_id (omega arith) id_of_key conn_a refl refl
      (record { sn = omega arith; epoch = omega arith }) (λ e. omega arith) a_payload two
      payload_room (listener_with id_b []) refl refl absent_b an_addr [] a_payload two
      (listener_with id_a ((conn_id, conn_a) ∷ [])) conn_a refl found_a an_addr none []

-- After the handshake: the two connections, and a data packet from a to b.
abbrev done_a : Conn
done_a = record conn_a {
  shared_secret = some secret;
  is_handshake_done_on_rcv = true;
  sn_crypto = 1;
}

found_b : Entries.get conn_id ((conn_id, the_accepted) ∷ []) ≡ some the_accepted
unfolding Entries.get
found_b = refl

decode-encode_example :
    (packet : List ℕ) × (payload : List ℕ) × (encode toy
        (host_of id_a)
        a_payload
        two
        data_msg
        done_a
      ≡ (with_number 2 done_a, ok packet))
    × (decode toy an_addr none packet (0 ∷ []) (listener_with id_b ((conn_id, the_accepted) ∷ []))
        ≡ (
          put_conn conn_id
              (follow_epoch toy 0 the_accepted)
              (listener_with id_b ((conn_id, the_accepted) ∷ [])),
          ok (conn_id, payload, data_msg),
        ))
    × (payload_of data_msg payload ≡ ok (received a_payload two))
decode-encode_example =
    decode-encode toy secret (toy_suite secret) (host_of id_a) done_a refl a_payload two
      (listener_with id_b ((conn_id, the_accepted) ∷ [])) the_accepted found_b refl refl
      (record { sn = omega arith; epoch = omega arith }) (omega arith) (inl refl) (0 ∷ []) an_addr
      none (λ e. omega arith) a_payload-Fits

dial-Adds_example :
    Adds (listener_with id_b []) (dial toy (some prv_a) an_addr (listener_with id_b []))
    × Adds
        (listener_with id_b [])
        (dial_with_crypto toy (some prv_a) an_addr id_a (listener_with id_b []))
dial-Adds_example = dial-Adds toy (some prv_a) an_addr id_a (listener_with id_b [])

-- With a key log, no call of `Dial` succeeds.
abbrev logging : Listener
logging = record (listener_with id_a []) { key_log = true }

dial-panics_example :
    ((dial toy (some prv_a) an_addr logging).1 ≡ panic)
    × ((dial_with_crypto toy (some prv_a) an_addr id_b logging).1 ≡ panic)
dial-panics_example = dial-panics toy logging prv_a id_b an_addr conn_id refl id_of_key absent_b

-- A system whose hexadecimal digits are the bytes themselves.
abbrev a_system : System
a_system = record {
  Socket = ℕ;
  Addr = ℕ;
  new_private_key = λ bytes. some bytes;
  generated_key = some prv_a;
  sha256 = λ bytes. bytes;
  hex_decode = λ digits. (digits, false);
  resolve_udp_addr = λ addr. some 0;
  listen_udp = λ addr. some 0;
  set_dont_fragment = λ socket. true;
}

with_seed_str_hex-fails_example :
    ¬ Returns (λ _. Unit {0}) (with_seed_str_hex a_system prv_a (no_options a_system))
with_seed_str_hex-fails_example = with_seed_str_hex-fails a_system prv_a (no_options a_system)

-- Two connections with a stream 0 each, and a stream 1 of the first. The second one has just sent
-- data when the closed stream 0 of the first is removed: its stream gets the number 1.
abbrev stream_of : ℕ → Stream
stream_of stream_id = record { stream_id = stream_id; closed_at_nano = 0 }

abbrev first_conn : Conn
first_conn = record (fresh_conn 5 an_addr prv_a none none true false) {
  streams = (0, stream_of 0) ∷ (1, stream_of 1) ∷ [];
}

abbrev second_conn : Conn
second_conn = record (fresh_conn 6 an_addr prv_b none none true false) {
  streams = (0, stream_of 0) ∷ [];
}

abbrev two_conns : Listener
two_conns = record (listener_with id_a ((5, first_conn) ∷ (6, second_conn) ∷ [])) {
  current = some (record { conn_key = 6; stream_key = 0; conn_id = 6; stream_id = 0 });
}

wrong_stream_run :
    Entries.get 6 (cleanup_stream 5 0 two_conns).conn_map
    ≡ some (record second_conn { streams = (0, stream_of 1) ∷ [] })
unfolding cleanup_stream Entries.get Entries.put Entries.remove Entries.next Entries.first
wrong_stream_run = refl

flush_wait_example :
    OnOk
      (Waits toy (λ packet addr now. true) 50)
      (flush toy (λ packet addr now. true) 50 (record two_conns { current = none }))
flush_wait_example =
    flush_wait toy (λ packet addr now. true) 50 (record two_conns { current = none }) refl
