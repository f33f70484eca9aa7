-- ===== src/Snd/Integrity/Retransmit.antt =====
-- `ReadyToRetransmit` and `AcknowledgeRange` on one stream.
use qotp.Base.{
  ℕ, ◌+◌, ◌-◌, ◌^◌, ◌<◌, ◌≡◌, ◌≢◌, refl, false, Option, List, [], ◌∷◌, err, panic, ltb, leb, ◌==◌,
  length, take, drop, u64, u16, sub64, arith, All, if_elim, length-drop, length-take, IsSlice-take,
  IsSlice-drop, EndsIn, EndsIn-err, EndsIn-bind, Error, none, some,
}
use qotp.Entries
use qotp.Entries.{Entries}
use qotp.Entries.Laws
use qotp.Proto.{Ack}
use qotp.Crypto.{CryptoMsgType}
use qotp.Measurement.{backoff}
use qotp.Snd.{SendInfo, StreamBuffer, key_offset, key_length, max_data, resend, retransmit_stream}
use qotp.Snd.Integrity.{InFlight, Faithful, Apart, Separate, new-InFlight, with_flight}
use qotp.Snd.Integrity.Steps.{IsStepOf}
use qotp.Snd.Integrity.Resend.{split-Separate, split-flight}

key_length_lt : (key : ℕ) → key_length key < 2 ^ 16
unfolding key_length
key_length_lt key = omega arith

-- The slice of the first `room` bytes of a packet does not exist, and the cast of `room` to 16 bits
-- hides it: the packet is longer than what is left of `room`, and shorter than `room` itself.
abbrev pub Overrun : ℕ → ℕ → Type 0
Overrun room len = (u16 room < len) × (len < room)

-- The oldest packet, sent again whole or its first part. It panics only where its slice does not exist.
pub resend-Faithful :
    (w : List ℕ) (max now key : ℕ) (info : SendInfo) (rest : Entries SendInfo) (s : StreamBuffer)
    → Faithful w s
    → s.data_in_flight_map ≡ (key, info) ∷ rest
    → EndsIn (IsStepOf w) (λ e. ⊥) (Overrun max (length info.payload)) (resend max now key info s)
unfolding resend
resend-Faithful w max now key info rest s f at =
    let P = EndsIn (IsStepOf w) (λ e. ⊥) (Overrun max (length info.payload)) in
    let sent = s.bytes_sent_offset in
    let flight : All (InFlight w sent) ((key, info) ∷ rest) = rw at at f.flight in
    let apart : Separate ((key, info) ∷ rest) = rw at at f.separate in
    let old = flight.0 in
    let n = length info.payload in
    let size : n < 2 ^ 16 = omega (arith, key_length_lt key, old.len) in
    let bound : key_offset key + n < 2 ^ 48 = omega (arith, old.end_sent, f.sent, f.small) in
    let len16 : u16 n ≡ n = omega arith in
    if_elim P (leb (u16 n) (u16 max))
      (λ whole.
        let again : SendInfo = record info { sent_time_nano = now; sent_nr = info.sent_nr + 1 } in
        (
          with_flight w s f (Entries.put key again s.data_in_flight_map)
              (rw (at, Laws.put-cons_self key again info rest)
                (record { len = old.len; end_sent = old.end_sent; slice = old.slice }, flight.1))
              (rw (at, Laws.put-cons_self key again info rest) apart),
          old.slice,
        ))
      (λ split.
        let cut : u16 max < n = ground arith in
        if_elim P (ltb n max) (λ over. (cut, ground arith))
          (λ under.
            let short : max < n = ground arith in
            let max16 : u16 max ≡ max = omega arith in
            let off64 : u64 (key_offset key + max) ≡ key_offset key + max = omega arith in
            let right_size : length (drop max info.payload) ≡ n - max =
              omega (arith, length-drop max info.payload) in
            let left_size : length (take max info.payload) ≡ max =
              omega (arith, length-take max info.payload) in
            let right16 : u16 (n - max) ≡ n - max = omega arith in
            let left_info : SendInfo = record {
              payload = take max info.payload;
              sent_time_nano = now;
              sent_nr = info.sent_nr + 1;
              ping_request = false;
            } in
            let right_info : SendInfo = record info { payload = drop max info.payload } in
            let left =
              new-InFlight w sent (key_offset key) max left_info (omega arith) (omega arith)
                left_size (omega (arith, old.end_sent))
                (IsSlice-take w (key_offset key) max info.payload old.slice) in
            let right =
              new-InFlight w sent (key_offset key + max) (n - max) right_info (omega arith)
                (omega arith) right_size (omega (arith, old.end_sent))
                (IsSlice-drop w (key_offset key) max info.payload (omega arith) old.slice) in
            rw (at, off64, right_size, max16, right16)
              (
                with_flight w s f _
                    (split-flight key max info left_info right_info rest old.len bound short apart.0
                      w sent right left flight.1)
                    (split-Separate key max info left_info right_info rest old.len bound short
                      apart.0 apart.1),
                IsSlice-take w (key_offset key) max info.payload old.slice,
              )))

All-remove_lem :
    (P : ℕ × SendInfo → Type 0) (k : ℕ) (m : Entries SendInfo)
    → All P m
    → All P (Entries.remove k m)
All-remove_lem P k m h = Laws.All-remove P k m h

Separate-remove : (k : ℕ) (m : Entries SendInfo) → Separate m → Separate (Entries.remove k m)
unfolding Entries.remove
Separate-remove k [] t = t
Separate-remove k ((j, u) ∷ m) t =
    if_elim Separate (j == k) (λ e. t.1)
      (λ e. (Laws.All-remove (λ e'. Apart j e'.0) k m t.0, Separate-remove k m t.1))

pub remove-Faithful :
    (w : List ℕ) (k : ℕ) (s : StreamBuffer)
    → Faithful w s
    → Faithful w (record s { data_in_flight_map = Entries.remove k s.data_in_flight_map })
remove-Faithful w k s f =
    with_flight w s f (Entries.remove k s.data_in_flight_map)
      (Laws.All-remove (InFlight w s.bytes_sent_offset) k s.data_in_flight_map f.flight)
      (Separate-remove k s.data_in_flight_map f.separate)

-- There is an oldest packet in flight, of which `P` holds.
abbrev OnFirst : (ℕ × SendInfo → Type 0) → Option (ℕ × SendInfo) → Type 0
OnFirst P none = ⊥
OnFirst P (some e) = P e

-- The error is the one that `backoff` gives for the oldest packet.
abbrev pub IsBackoffError : ℕ → StreamBuffer → Error → Type 0
IsBackoffError expected_rto s e =
    OnFirst (λ p. backoff expected_rto p.1.sent_nr ≡ err e) (Entries.first s.data_in_flight_map)

-- The oldest packet is longer than its room cast to 16 bits, and shorter than its room.
abbrev pub IsOverrun : ℕ → CryptoMsgType → Option Ack → StreamBuffer → Type 0
IsOverrun mtu msg_type ack s =
    OnFirst (λ p. Overrun (max_data mtu msg_type ack (key_offset p.0)) (length p.1.payload))
      (Entries.first s.data_in_flight_map)

backoff-calm : (rto rto_nr : ℕ) → backoff rto rto_nr ≢ panic
unfolding backoff
backoff-calm rto rto_nr e = grind arith

retransmit_first :
    (w : List ℕ) (ack : Option Ack) (mtu expected_rto : ℕ) (msg_type : CryptoMsgType) (now : ℕ)
    → (s : StreamBuffer) (m : Entries SendInfo) → Faithful w s
    → s.data_in_flight_map ≡ m
    → EndsIn
        (IsStepOf w)
        (IsBackoffError expected_rto s)
        (IsOverrun mtu msg_type ack s)
        (retransmit_stream ack mtu expected_rto msg_type now s)
unfolding retransmit_stream Entries.first
retransmit_first w ack mtu expected_rto msg_type now s [] f at = rw at (rw at at f, tt)
retransmit_first w ack mtu expected_rto msg_type now s ((key, info) ∷ rest) f at =
    let X = Overrun (max_data mtu msg_type ack (key_offset key)) (length info.payload) in
    rw at (
      EndsIn-bind (IsStepOf w) (λ e. backoff expected_rto info.sent_nr ≡ err e) X
        (backoff expected_rto info.sent_nr) _ (backoff-calm expected_rto info.sent_nr)
        (λ e at_e. at_e)
        (λ expected at_ok.
          if_elim (EndsIn (IsStepOf w) _ X) (leb (sub64 now info.sent_time_nano) expected)
            (λ early. (rw at at f, tt))
            (λ due.
              if_elim (EndsIn (IsStepOf w) _ X) info.ping_request
                (λ ping. (rw at at (remove-Faithful w key s f), tt))
                (λ sent.
                  EndsIn-err (IsStepOf w) _ X _
                    (resend-Faithful w _ now key info rest _ (rw at at f) refl)))))

-- A retransmission from a faithful stream returns, and leaves the stream faithful with a packet of
-- the bytes that were written at its offset, or it gives the error of `backoff`, or it panics over an
-- overrun.
pub retransmit_stream-Faithful :
    (w : List ℕ) (ack : Option Ack) (mtu expected_rto : ℕ) (msg_type : CryptoMsgType) (now : ℕ)
    → (s : StreamBuffer) → Faithful w s
    → EndsIn
        (IsStepOf w)
        (IsBackoffError expected_rto s)
        (IsOverrun mtu msg_type ack s)
        (retransmit_stream ack mtu expected_rto msg_type now s)
retransmit_stream-Faithful w ack mtu expected_rto msg_type now s f =
    retransmit_first w ack mtu expected_rto msg_type now s s.data_in_flight_map f refl
