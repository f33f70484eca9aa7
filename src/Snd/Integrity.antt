-- ===== src/Snd/Integrity.antt =====
-- The bytes of a stream in the send buffer: queued, in flight, and handed out.
pub mod Steps
pub mod Resend
pub mod Retransmit
pub mod Buffer
pub mod History
use qotp.Base.{
  ℕ, zero, suc, ◌+◌, ◌-◌, ◌*◌, ◌/◌, ◌%◌, ◌^◌, ◌≤◌, ◌<◌, ◌≡◌, ◌≢◌, refl, sym, ap, ◌∙◌, min, Bool,
  true, false, not, ◌&&◌, ◌||◌, Option, none, some, List, [], ◌∷◌, ◌++◌, Run, ok, err, panic, ◌>>=◌,
  if◌then◌else◌, ltb, leb, ◌==◌, length, take, drop, u64, u16, sub64, is_some, arith, All, AllSome,
  Bool-cases, if_elim, ◌⊎◌, Option-cases, inl, inr, lookup, insert, lookup-insert, length-drop,
  length-take, length-append, append-nil, IsSlice, IsSlice-nil, IsSlice-take, IsSlice-drop,
  IsSlice-append, drop-append_le, drop-drop, ==_iff, Returns,
}
use qotp.Entries
use qotp.Entries.{Entries}
use qotp.Entries.Laws
use qotp.Proto.{Ack}
use qotp.Crypto.{CryptoMsgType}
use qotp.Snd.{
  SendInfo, StreamBuffer, SendBuffer, new_stream_buffer, create_packet_key, key_offset, key_length,
  stream_of, queue_data, queue_ping, max_data, Packet, no_packet, send_stream, ready_to_send,
  resend, retransmit_stream, ready_to_retransmit, acknowledge_range, close, reaches_close,
  new_send_info,
}

-- An entry in flight: its key says the offset and the length of its data, its data are the bytes of
-- the stream at that offset, and all of them have been sent.
pub record InFlight (w : List ℕ) (sent : ℕ) (e : ℕ × SendInfo) : Type 0 where
  pub len : key_length e.0 ≡ length e.1.payload
  pub end_sent : key_offset e.0 + length e.1.payload ≤ sent
  pub slice : IsSlice w (key_offset e.0) e.1.payload

-- The byte ranges that two keys stand for do not overlap, and neither starts inside the other.
abbrev pub Apart : ℕ → ℕ → Type 0
Apart a b =
    (key_offset a + key_length a ≤ key_offset b) ⊎ (key_offset b + key_length b ≤ key_offset a)

abbrev pub Separate : Entries SendInfo → Type 0
Separate [] = Unit
Separate (e ∷ m) = All (λ e'. Apart e.0 e'.0) m × Separate m

-- The stream buffer of a stream to which the bytes `w` have been written so far.
pub record Faithful (w : List ℕ) (s : StreamBuffer) : Type 0 where
  pub queued : s.queued_data ≡ drop s.bytes_sent_offset w
  pub sent : s.bytes_sent_offset ≤ length w
  pub small : length w < 2 ^ 48
  pub flight : All (InFlight w s.bytes_sent_offset) s.data_in_flight_map
  pub separate : Separate s.data_in_flight_map

-- The data of a packet, if there are any, stand at its offset in the stream.
abbrev pub IsPacketOf : List ℕ → Packet → Type 0
IsPacketOf w (none, offset, is_close) = Unit
IsPacketOf w (some packet_data, offset, is_close) = IsSlice w offset packet_data

-- The packet holds fewer than 2 ^ 16 bytes, if any: its length fits a `packetKey`.
abbrev pub IsSmall : Packet → Type 0
IsSmall packet = AllSome (λ packet_data. length packet_data < 2 ^ 16) packet.0

pub new_stream_buffer-Faithful : Faithful [] new_stream_buffer
new_stream_buffer-Faithful = record {
  queued = refl;
  sent = omega arith;
  small = omega arith;
  flight = tt;
  separate = tt;
}

pub key_fields :
    (offset len : ℕ)
    → offset < 2 ^ 48
    → len < 2 ^ 16
    → (key_offset (create_packet_key offset len) ≡ offset)
      × (key_length (create_packet_key offset len) ≡ len)
unfolding key_offset key_length create_packet_key
key_fields offset len h k = omega arith

new-InFlight :
    (w : List ℕ) (sent offset len : ℕ) (info : SendInfo)
    → offset < 2 ^ 48
    → len < 2 ^ 16
    → length info.payload ≡ len
    → offset + len ≤ sent
    → IsSlice w offset info.payload
    → InFlight w sent (create_packet_key offset len, info)
new-InFlight w sent offset len info ho hl size end_sent slice =
    let (o, l) = key_fields offset len ho hl in
    record { len = l ∙ sym size; end_sent = omega arith; slice = rw o slice }

All-InFlight_more :
    (w : List ℕ) (a b : ℕ) (m : Entries SendInfo)
    → a ≤ b
    → All (InFlight w a) m
    → All (InFlight w b) m
All-InFlight_more w a b [] h all = tt
All-InFlight_more w a b (e ∷ m) h all = (
  record { len = all.0.len; end_sent = omega arith; slice = all.0.slice },
  All-InFlight_more w a b m h all.1,
)

-- What holds of each entry may follow from what held of it.
pub All-map :
    {P Q : ℕ × SendInfo → Type 0} (m : Entries SendInfo)
    → ((e : ℕ × SendInfo) → P e → Q e)
    → All P m
    → All Q m
All-map [] f h = tt
All-map (e ∷ m) f h = (f e h.0, All-map m f h.1)

-- A new key apart from all others keeps the ranges apart; so does a new value for an old key.
pub Separate-put :
    (k : ℕ) (v : SendInfo) (m : Entries SendInfo)
    → All (λ e. Apart e.0 k) m
    → Separate m
    → Separate (Entries.put k v m)
unfolding Entries.put
Separate-put k v [] h t = (tt, tt)
Separate-put k v ((j, u) ∷ m) h t =
    if_elim Separate (j == k) (λ e. t)
      (λ e. (Laws.All-put (λ e'. Apart j e'.0) k v m t.0 h.0, Separate-put k v m h.1 t.1))

-- Everything in flight ends where sending has got to.
flight-Apart :
    (w : List ℕ) (sent k : ℕ) (m : Entries SendInfo)
    → key_offset k ≡ sent
    → All (InFlight w sent) m
    → All (λ e. Apart e.0 k) m
flight-Apart w sent k m h all = All-map m (λ e f. inl (omega (arith, f.len, f.end_sent))) all

module _ (w : List ℕ) (s : StreamBuffer) (f : Faithful w s) where
  queued-length : length s.queued_data + s.bytes_sent_offset ≡ length w
  queued-length =
      let size = length-drop s.bytes_sent_offset w in
      let same = ap length f.queued in omega (arith, f.sent)

  queued-IsSlice : IsSlice w s.bytes_sent_offset s.queued_data
  queued-IsSlice = ([], sym f.queued ∙ sym (append-nil s.queued_data))

  -- Flags and times may change freely.
  with_flags :
      (ping : Bool) (at : Option ℕ)
      → Faithful w (record s { ping_request = ping; close_at_offset = at })
  with_flags ping at = record {
    queued = f.queued;
    sent = f.sent;
    small = f.small;
    flight = f.flight;
    separate = f.separate;
  }

  with_flight :
      (m : Entries SendInfo)
      → All (InFlight w s.bytes_sent_offset) m
      → Separate m
      → Faithful w (record s { data_in_flight_map = m })
  with_flight m all apart = record {
    queued = f.queued;
    sent = f.sent;
    small = f.small;
    flight = all;
    separate = apart;
  }

  -- A packet with no data, at the offset that has been reached.
  empty-InFlight :
      (now : ℕ) (is_ping : Bool)
      → InFlight w s.bytes_sent_offset
          (create_packet_key s.bytes_sent_offset 0, new_send_info [] now is_ping)
  unfolding new_send_info
  empty-InFlight now is_ping =
      new-InFlight w s.bytes_sent_offset s.bytes_sent_offset 0 (new_send_info [] now is_ping)
        (omega (arith, f.sent, f.small)) (omega arith) refl (omega arith)
        (IsSlice-nil w s.bytes_sent_offset)

  with_empty :
      (now : ℕ) (is_ping ping : Bool)
      → Faithful w (record s {
        ping_request = ping;
        data_in_flight_map =
            Entries.put
              (create_packet_key s.bytes_sent_offset 0)
              (new_send_info [] now is_ping)
              s.data_in_flight_map;
      })
  with_empty now is_ping ping = record {
    queued = f.queued;
    sent = f.sent;
    small = f.small;
    flight =
        Laws.All-put (InFlight w s.bytes_sent_offset) _ _ s.data_in_flight_map f.flight
          (empty-InFlight now is_ping);
    separate =
        Separate-put _ _ s.data_in_flight_map
          (flight-Apart w s.bytes_sent_offset _ s.data_in_flight_map
            (key_fields s.bytes_sent_offset 0 (omega (arith, f.sent, f.small)) (omega arith)).0
            f.flight)
          f.separate;
  }

  -- The next `len` queued bytes go in flight.
  with_sent :
      (len now : ℕ)
      → len ≤ length s.queued_data
      → len < 2 ^ 16
      → Faithful w (record s {
        data_in_flight_map =
            Entries.put
              (create_packet_key s.bytes_sent_offset (u16 len))
              (new_send_info (take len s.queued_data) now false)
              s.data_in_flight_map;
        queued_data = drop len s.queued_data;
        bytes_sent_offset = u64 (s.bytes_sent_offset + len);
      })
  unfolding new_send_info
  with_sent len now le short =
      let n = s.bytes_sent_offset in
      let total = queued-length in
      let fits : u64 (n + len) ≡ n + len = omega (arith, f.small) in
      let short16 : u16 len ≡ len = omega arith in
      let size : length (take len s.queued_data) ≡ len =
        omega (arith, length-take len s.queued_data) in
      let new =
        new-InFlight w (n + len) n len (new_send_info (take len s.queued_data) now false)
          (omega (arith, f.small)) short size (omega arith)
          (IsSlice-take w n len s.queued_data queued-IsSlice) in
      rw (fits, short16)
        (record {
          queued = ap (drop len) f.queued ∙ drop-drop len n w;
          sent = omega arith;
          small = f.small;
          flight =
              Laws.All-put (InFlight w (n + len)) _ _ s.data_in_flight_map
                (All-InFlight_more w n (n + len) s.data_in_flight_map (omega arith) f.flight) new;
          separate =
              Separate-put _ _ s.data_in_flight_map
                (flight-Apart w n _ s.data_in_flight_map
                  (key_fields n len (omega (arith, f.small)) short).0 f.flight)
                f.separate;
        })
