-- ===== src/Stream/Reading.antt =====
-- What `Read` of a stream hands to the program above.
use qotp.Base.{
  ℕ, ◌+◌, ◌^◌, ◌<◌, ◌≡◌, refl, sym, ap, ◌∙◌, Option, none, some, List, if◌then◌else◌, length,
  Returns, Returns-bind, if_elim, Bool-cases, Option-cases, inl, inr, lookup, insert, lookup-insert,
  ==_self,
}
use mathlib.Core.Path.{subst₂}
use qotp.Rcv
use qotp.Rcv.{RcvBuffer, ReceiveBuffer, Delivery, remove_oldest, remove_oldest_in_order}
use qotp.Rcv.Segments.{IsPart, Agrees}
use qotp.Rcv.Integrity.{IsRead, remove_oldest-IsRead}
use qotp.Stream.{Stream, StreamError, ReadResult, read, is_closed, ends_stream}

-- What a read did to the stream's part of the buffer: nothing, or it took the next bytes of `w`.
abbrev pub IsTaken : List ℕ → RcvBuffer → RcvBuffer → Option (List ℕ) → Type 0
IsTaken w s s' none = s' ≡ s
IsTaken w s s' (some delivered) =
    IsPart w s.next_in_order_offset_to_wait_for delivered
    × (s'.next_in_order_offset_to_wait_for ≡ s.next_in_order_offset_to_wait_for + length delivered)
    × Agrees w s'.segments

IsRead→IsTaken :
    (w : List ℕ) (s : RcvBuffer) (r : RcvBuffer × ℕ × Delivery)
    → IsRead w s r
    → IsTaken w s r.0 r.2.1
IsRead→IsTaken w s (s', size, (offset, none, time)) h = h
IsRead→IsTaken w s (s', size, (offset, some delivered, time)) h =
    (rw h.0 at h.1, rw h.0 at h.2, h.3)

-- `RemoveOldestInOrder` takes bytes of the one stream.
abbrev IsBufferRead : List ℕ → ℕ → ReceiveBuffer → ReceiveBuffer × Delivery → Type 0
IsBufferRead w stream_id rb (rb', (offset, user_data, time)) =
    IsTaken w (Rcv.stream_of stream_id rb) (Rcv.stream_of stream_id rb') user_data

stream_of-inserted :
    (stream_id size : ℕ) (s : RcvBuffer) (rb : ReceiveBuffer)
    → Rcv.stream_of stream_id (record rb { streams = insert stream_id s rb.streams; size = size })
      ≡ s
unfolding Rcv.stream_of
stream_of-inserted stream_id size s rb = ap Rcv.or_new (
    lookup-insert stream_id stream_id s rb.streams
    ∙ ap (λ b. if b then some s else lookup stream_id rb.streams) (==_self stream_id))

remove_oldest_in_order-IsBufferRead :
    (w : List ℕ) (stream_id : ℕ) (rb : ReceiveBuffer)
    → length w < 2 ^ 48
    → Agrees w (Rcv.stream_of stream_id rb).segments
    → Returns (IsBufferRead w stream_id rb) (remove_oldest_in_order stream_id rb)
unfolding remove_oldest_in_order
remove_oldest_in_order-IsBufferRead w stream_id rb small agrees =
    elim (Option-cases (lookup stream_id rb.streams)) [
      | inl e ↦ rw (remove_oldest_in_order, e) refl
      | inr (s, e) ↦
          let same : Rcv.stream_of stream_id rb ≡ s = unfold Rcv.stream_of in ap Rcv.or_new e in
          rw (remove_oldest_in_order, e)
            (Returns-bind (IsRead w s) (IsBufferRead w stream_id rb) (remove_oldest s rb.size) _
              (remove_oldest-IsRead w s rb.size small (rw same at agrees))
              (λ (s', size, (offset, user_data, time)) h.
                subst₂ (λ a b. IsTaken w a b user_data) (sym same)
                  (sym (stream_of-inserted stream_id size s' rb))
                  (IsRead→IsTaken w s (s', size, (offset, user_data, time)) h)))
    ]

-- What `Read` does: on a closed stream nothing, with the error for that; on another one it takes
-- bytes of `w`, or nothing.
abbrev pub IsStreamRead :
    List ℕ → ReceiveBuffer → Stream → ReceiveBuffer × Stream × ReadResult → Type 0
IsStreamRead w rb s (rb', s', (user_data, e)) =
    if is_closed s
    then (rb' ≡ rb) × (user_data ≡ none) × (e ≡ some StreamError.unexpected_eof)
    else IsTaken w (Rcv.stream_of s.stream_id rb) (Rcv.stream_of s.stream_id rb') user_data

-- For a stream whose segments hold the bytes of `w`, fewer than 2 ^ 48, a read always returns. A closed stream hands out
-- nothing, with the error for that, and its buffer stays. Any other read hands out nothing and leaves
-- the stream's segments as they are, or the bytes of `w` from the offset that is waited for, which it
-- moves right behind them, and the segments still hold the bytes of `w`.
pub read-IsStreamRead :
    (w : List ℕ) (s : Stream) (rb : ReceiveBuffer)
    → length w < 2 ^ 48
    → Agrees w (Rcv.stream_of s.stream_id rb).segments
    → Returns (IsStreamRead w rb s) (read s rb)
unfolding read
read-IsStreamRead w s rb small agrees =
    let end = ends_stream (Rcv.get_offset_closed_at s.stream_id rb) in
    elim (Bool-cases (is_closed s)) [
      | inl e ↦ rw (read, e) (rw (IsStreamRead, e) (refl, refl, refl))
      | inr e ↦
          rw (read, e)
            (Returns-bind (IsBufferRead w s.stream_id rb) (IsStreamRead w rb s)
              (remove_oldest_in_order s.stream_id rb) _
              (remove_oldest_in_order-IsBufferRead w s.stream_id rb small agrees)
              (λ (rb', (offset, user_data, time)) h.
                if_elim (IsStreamRead w rb s) (end offset) (λ over. rw (IsStreamRead, e) h)
                  (λ more. rw (IsStreamRead, e) h)))
    ]
