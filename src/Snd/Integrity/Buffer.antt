-- ===== src/Snd/Integrity/Buffer.antt =====
-- The methods of `SendBuffer` together, and the bytes that were accepted for each stream.
use qotp.Base.{
  take_all, ℕ, zero, suc, ◌+◌, ◌-◌, ◌^◌, ◌≤◌, ◌<◌, ◌≡◌, refl, sym, ap, ◌∙◌, min, Bool, true, false,
  ◌&&◌, Option, some, List, [], ◌∷◌, ◌++◌, if◌then◌else◌, ltb, ◌==◌, length, take, u64, sub64,
  arith, Bool-cases, if_elim, Option-cases, inl, inr, length-take, length-append, append-nil,
  ==_iff, ==_self, Returns, EndsIn, EndsIn-map, IsSlice-append, drop-append_le, lookup, insert,
  lookup-insert,
}
use mathlib.Core.Path.{subst}
use qotp.Entries
use qotp.Entries.{Entries}
use qotp.Proto.{Ack}
use qotp.Crypto.{CryptoMsgType}
use qotp.Snd.{
  StreamBuffer, SendBuffer, InsertStatus, create_packet_key, key_offset, retransmit_stream, or_new,
  stream_of, queue_data, queue_ping, ready_to_send, ready_to_retransmit, acknowledge_range, close,
}
use qotp.Snd.Integrity.{Faithful, IsPacketOf, IsSmall, All-map, with_flags}
use qotp.Snd.Integrity.Steps.{IsStepOf, send_stream-Faithful}
use qotp.Snd.Integrity.Retransmit.{
  remove-Faithful, retransmit_stream-Faithful, IsBackoffError, IsOverrun,
}

-- The bytes accepted so far, by stream.
abbrev pub Written : Type 0
Written = ℕ → List ℕ

abbrev pub append_at : ℕ → List ℕ → Written → Written
append_at stream_id chunk w j = if stream_id == j then w j ++ chunk else w j

abbrev pub Sound : Written → SendBuffer → Type 0
Sound w sb = (stream_id : ℕ) → Faithful (w stream_id) (stream_of stream_id sb)

or_new_if :
    (b : Bool) (s : StreamBuffer) (o : Option StreamBuffer)
    → or_new (if b then some s else o) ≡ (if b then s else or_new o)
or_new_if true s o = refl
or_new_if false s o = refl

stream_of-insert :
    (k j : ℕ) (s : StreamBuffer) (sb : SendBuffer) (capacity size : ℕ)
    → stream_of j (record { streams = insert k s sb.streams; capacity = capacity; size = size })
      ≡ (if k == j then s else stream_of j sb)
unfolding stream_of
stream_of-insert k j s sb capacity size =
    ap or_new (lookup-insert k j s sb.streams) ∙ or_new_if (k == j) s (lookup j sb.streams)

stream_of-some :
    (k : ℕ) (sb : SendBuffer) (s : StreamBuffer) → lookup k sb.streams ≡ some s → stream_of k sb ≡ s
unfolding stream_of
stream_of-some k sb s e = ap or_new e

-- A change of one stream that makes it faithful to what has been written to it.
Sound-insert :
    (w w' : Written) (k : ℕ) (s : StreamBuffer) (sb : SendBuffer) (capacity size : ℕ)
    → Sound w sb
    → ((j : ℕ) → (k == j) ≡ false → w' j ≡ w j)
    → Faithful (w' k) s
    → Sound w' (record { streams = insert k s sb.streams; capacity = capacity; size = size })
Sound-insert w w' k s sb capacity size sound same f j =
    rw (stream_of-insert k j s sb capacity size) (
      if_elim (Faithful (w' j)) (k == j) (λ h. subst (λ i. Faithful (w' i) s) ((==_iff k j).0 h) f)
        (λ h. rw (same j h) (sound j)))

append-Faithful :
    (w chunk : List ℕ) (s : StreamBuffer)
    → Faithful w s
    → length w + length chunk < 2 ^ 48
    → Faithful (w ++ chunk) (record s { queued_data = s.queued_data ++ chunk })
append-Faithful w chunk s f h = record {
  queued = ap (λ l. l ++ chunk) f.queued ∙ sym (drop-append_le w chunk s.bytes_sent_offset f.sent);
  sent = omega (arith, length-append w chunk, f.sent);
  small = omega (arith, length-append w chunk);
  flight =
      All-map s.data_in_flight_map
        (λ e i. record {
          len = i.len;
          end_sent = i.end_sent;
          slice =
              IsSlice-append w chunk (key_offset e.0) e.1.payload
                (omega (arith, i.end_sent, f.sent)) i.slice;
        })
        f.flight;
  separate = f.separate;
}

pub append-none : (w : Written) (k j : ℕ) → append_at k [] w j ≡ w j
append-none w k j = if_elim (λ xs. xs ≡ w j) (k == j) (λ e. append-nil (w j)) (λ e. refl)

-- The status of a call that took `n` of `len` bytes.
abbrev pub queue_status : ℕ → ℕ → InsertStatus
queue_status len n =
    if len == 0
    then InsertStatus.no_data
    else if n == len
    then InsertStatus.insert_ok
    else InsertStatus.snd_full

-- What `QueueData` does to a buffer with room for `room` bytes, given `user_data`.
abbrev pub IsQueued : Written → ℕ → List ℕ → SendBuffer → SendBuffer × ℕ × InsertStatus → Type 0
IsQueued w stream_id user_data sb (sb', n, status) =
    Sound (append_at stream_id (take n user_data) w) sb'
    × (n ≡ min (length user_data) (sb.capacity - sb.size))
    × (sb'.size ≡ sb.size + n)
    × (sb'.capacity ≡ sb.capacity)
    × (status ≡ queue_status (length user_data) n)

pub accept-Sound :
    (w : Written) (stream_id : ℕ) (user_data chunk : List ℕ) (size : ℕ) (sb : SendBuffer)
    → Sound w sb
    → length (w stream_id) + length user_data < 2 ^ 48
    → take (length chunk) user_data ≡ chunk
    → let s = stream_of stream_id sb in
      Sound (append_at stream_id (take (length chunk) user_data) w) (record {
        streams = insert stream_id (record s { queued_data = s.queued_data ++ chunk }) sb.streams;
        capacity = sb.capacity;
        size = size;
      })
accept-Sound w stream_id user_data chunk size sb sound total front =
    let s = stream_of stream_id sb in
    let w' = append_at stream_id chunk w in
    let here : w' stream_id ≡ w stream_id ++ chunk =
      ap (λ b. if b then w stream_id ++ chunk else w stream_id) (==_self stream_id) in
    let short = ap length front ∙ refl in
    let bound = length-take (length chunk) user_data in
    let more =
      append-Faithful (w stream_id) chunk s (sound stream_id)
        (omega (arith, total, short, bound)) in
    rw front (
      Sound-insert w w' stream_id (record s { queued_data = s.queued_data ++ chunk }) sb sb.capacity
        size sound (λ j other. ap (λ b. if b then w j ++ chunk else w j) other)
        (subst (λ xs. Faithful xs (record s { queued_data = s.queued_data ++ chunk })) (sym here)
          more))

accept-IsQueued :
    (w : Written) (stream_id : ℕ) (user_data chunk : List ℕ) (status : InsertStatus)
    → (sb : SendBuffer) → Sound w sb
    → sb.size ≤ sb.capacity
    → sb.capacity < 2 ^ 63
    → length (w stream_id) + length user_data < 2 ^ 48
    → take (length chunk) user_data ≡ chunk
    → length chunk ≡ min (length user_data) (sb.capacity - sb.size)
    → status ≡ queue_status (length user_data) (length chunk)
    → let s = stream_of stream_id sb in
      IsQueued w stream_id user_data sb (
        record sb {
          streams = insert stream_id (record s { queued_data = s.queued_data ++ chunk }) sb.streams;
          size = u64 (sb.size + length chunk);
        },
        length chunk,
        status,
      )
accept-IsQueued w stream_id user_data chunk status sb sound fits cap total front size says = (
  accept-Sound w stream_id user_data chunk (u64 (sb.size + length chunk)) sb sound total front,
  size,
  omega arith,
  refl,
  says,
)

chunk_status :
    (len room : ℕ) (d : List ℕ)
    → length d ≡ len
    → (len == 0) ≡ false
    → (if ltb room len then InsertStatus.snd_full else InsertStatus.insert_ok)
      ≡ queue_status len (length (if ltb room len then take room d else d))
chunk_status len room d e some_data = elim (Bool-cases (ltb room len)) [
  | inl h ↦ let size = length-take room d in ground (arith, size)
  | inr h ↦ ground arith
]

pub take-take : (d : List ℕ) (n : ℕ) → take (length (take n d)) d ≡ take n d
take-take [] zero = refl
take-take [] (suc n) = refl
take-take (x ∷ d) zero = refl
take-take (x ∷ d) (suc n) = ap (λ l. x ∷ l) (take-take d n)

-- On a sound buffer whose size is at most its capacity, below 2 ^ 63, and for a stream that stays
-- below 2 ^ 48 bytes, `QueueData` returns: it takes as many bytes from the front of the data as the
-- capacity leaves, appends them to what was accepted for the stream, counts them in the size, and its
-- status says whether there were no data, all were taken, or the buffer is full.
pub queue_data-Sound :
    (w : Written) (stream_id : ℕ) (user_data : List ℕ) (sb : SendBuffer)
    → Sound w sb
    → sb.size ≤ sb.capacity
    → sb.capacity < 2 ^ 63
    → length (w stream_id) + length user_data < 2 ^ 48
    → Returns (IsQueued w stream_id user_data sb) (queue_data stream_id user_data sb)
unfolding queue_data
queue_data-Sound w stream_id user_data sb sound fits cap total =
    let P = Returns (IsQueued w stream_id user_data sb) in
    let nothing : Sound (append_at stream_id [] w) sb =
      λ j. subst (λ xs. Faithful xs (stream_of j sb)) (sym (append-none w stream_id j)) (sound j) in
    let room : sub64 sb.capacity sb.size ≡ sb.capacity - sb.size = omega arith in
    rw room (
      if_elim P (length user_data == 0)
        (λ e. (nothing, ground arith, omega arith, refl, ground arith))
        (λ some_data.
          if_elim P (sb.capacity - sb.size == 0)
            (λ e. (nothing, ground arith, omega arith, refl, ground arith))
            (λ some_room.
              if_elim P (ltb sb.capacity sb.size && ltb sb.size (2 ^ 63))
                (λ e. absurd (ground arith))
                (λ e.
                  accept-IsQueued w stream_id user_data _
                    (if ltb (sb.capacity - sb.size) (length user_data)
                      then InsertStatus.snd_full
                      else InsertStatus.insert_ok)
                    sb sound fits cap total
                    (if_elim (λ c. take (length c) user_data ≡ c)
                      (ltb (sb.capacity - sb.size) (length user_data))
                      {x = take (sb.capacity - sb.size) user_data} {y = user_data}
                      (λ over. take-take user_data (sb.capacity - sb.size))
                      (λ under. take_all user_data (length user_data) (omega arith)))
                    (if_elim (λ c. length c ≡ min (length user_data) (sb.capacity - sb.size))
                      (ltb (sb.capacity - sb.size) (length user_data))
                      {x = take (sb.capacity - sb.size) user_data} {y = user_data}
                      (λ over.
                        let size = length-take (sb.capacity - sb.size) user_data in
                        ground (arith, size))
                      (λ under. ground arith))
                    (chunk_status (length user_data) (sb.capacity - sb.size) user_data refl
                      some_data)))))

pub queue_ping-Sound :
    (w : Written) (stream_id : ℕ) (sb : SendBuffer) → Sound w sb → Sound w (queue_ping stream_id sb)
unfolding queue_ping
queue_ping-Sound w stream_id sb sound =
    let s = stream_of stream_id sb in
    Sound-insert w w stream_id (record s { ping_request = true }) sb sb.capacity sb.size sound
      (λ j h. refl) (with_flags (w stream_id) s (sound stream_id) true s.close_at_offset)

pub close-Sound :
    (w : Written) (stream_id : ℕ) (sb : SendBuffer) → Sound w sb → Sound w (close stream_id sb)
unfolding close
close-Sound w stream_id sb sound =
    let s = stream_of stream_id sb in
    Sound-insert w w stream_id _ sb sb.capacity sb.size sound (λ j h. refl)
      (with_flags (w stream_id) s (sound stream_id) s.ping_request _)

pub ready_to_send-Sound :
    (w : Written) (stream_id : ℕ) (msg_type : CryptoMsgType) (ack : Option Ack) (mtu now : ℕ)
    → (sb : SendBuffer) → Sound w sb
    → let r = ready_to_send stream_id msg_type ack mtu now sb in
      IsSmall r.1 → Sound w r.0 × IsPacketOf (w stream_id) r.1
unfolding ready_to_send
ready_to_send-Sound w stream_id msg_type ack mtu now sb sound small =
    elim (Option-cases (lookup stream_id sb.streams)) [
      | inl e ↦ rw (ready_to_send, e) (sound, tt)
      | inr (s, e) ↦
          let same = stream_of-some stream_id sb s e in
          let step =
            send_stream-Faithful (w stream_id) msg_type ack mtu now s (rw same at (sound stream_id))
              (rw (ready_to_send, e) at small) in
          rw (ready_to_send, e)
            (Sound-insert w w stream_id _ sb sb.capacity sb.size sound (λ j h. refl) step.0, step.1)
    ]

pub acknowledge_range-Sound :
    (w : Written) (ack : Ack) (sb : SendBuffer) → Sound w sb → Sound w (acknowledge_range ack sb).0
unfolding acknowledge_range
acknowledge_range-Sound w ack sb sound = elim (Option-cases (lookup ack.stream_id sb.streams)) [
  | inl e ↦ rw (acknowledge_range, e) sound
  | inr (s, e) ↦
      let same = stream_of-some ack.stream_id sb s e in
      let f =
        remove-Faithful (w ack.stream_id) (create_packet_key ack.offset ack.len) s
          (rw same at (sound ack.stream_id)) in
      elim (Option-cases
        (Entries.get (create_packet_key ack.offset ack.len) s.data_in_flight_map)) [
          | inl e' ↦ rw (acknowledge_range, e, e') sound
          | inr (info, e') ↦
              rw (acknowledge_range, e, e')
                (Sound-insert w w ack.stream_id _ sb sb.capacity
                  (sub64 sb.size (length info.payload)) sound (λ j h. refl) f)
        ]
]

pub ready_to_retransmit-Sound :
    (w : Written) (stream_id : ℕ) (ack : Option Ack) (mtu expected_rto : ℕ)
    → (msg_type : CryptoMsgType) (now : ℕ) (sb : SendBuffer) → Sound w sb
    → EndsIn
        (λ r. Sound w r.0 × IsPacketOf (w stream_id) r.1)
        (IsBackoffError expected_rto (stream_of stream_id sb))
        (IsOverrun mtu msg_type ack (stream_of stream_id sb))
        (ready_to_retransmit stream_id ack mtu expected_rto msg_type now sb)
unfolding ready_to_retransmit
ready_to_retransmit-Sound w stream_id ack mtu expected_rto msg_type now sb sound =
    elim (Option-cases (lookup stream_id sb.streams)) [
      | inl e ↦ rw (ready_to_retransmit, e) (sound, tt)
      | inr (s, e) ↦
          let same = stream_of-some stream_id sb s e in
          let step =
            retransmit_stream-Faithful (w stream_id) ack mtu expected_rto msg_type now s
              (rw same at (sound stream_id)) in
          rw (ready_to_retransmit, e, same)
            (EndsIn-map (IsStepOf (w stream_id)) _ (IsBackoffError expected_rto s)
              (IsOverrun mtu msg_type ack s) (retransmit_stream ack mtu expected_rto msg_type now s)
              _ step
              (λ r h. (
                Sound-insert w w stream_id r.0 sb sb.capacity sb.size sound (λ j q. refl) h.0,
                h.1,
              )))
    ]
