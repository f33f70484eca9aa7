-- ===== src/Rcv.antt =====
-- The receive buffer of rcv.go. A stream's segments are an ordered map by offset. A method returns
-- the new buffer beside its results; its lock is taken for its whole body. `size` is an int whose
-- bit pattern is kept; a slice expression out of range and a failed assertion are a panic.
pub mod Segments
pub mod Integrity
pub mod History
mod Tests
use qotp.Base.{
  slice, ℕ, zero, suc, ◌+◌, ◌-◌, ◌%◌, ◌^◌, ◌<◌, Bool, true, false, not, ◌&&◌, ◌||◌, Option, none,
  some, List, [], ◌∷◌, ◌++◌, Run, ok, err, panic, ◌>>=◌, ◌>>◌, if◌then◌else◌, ltb, leb, ◌==◌,
  length, take, drop, u64, u16, sub64, lookup, insert,
}
use qotp.Sorted
use qotp.Sorted.{SortedMap}
use qotp.Proto.{Ack}

pub data RcvInsertStatus : Type 0 where
  rcv_insert_ok rcv_insert_duplicate rcv_insert_buffer_full : RcvInsertStatus

pub record RcvValue : Type 0 where
  pub payload : List ℕ
  pub receive_time_nano : ℕ

pub record RcvBuffer : Type 0 where
  pub segments : SortedMap RcvValue
  pub next_in_order_offset_to_wait_for : ℕ
  pub close_at_offset : Option ℕ

pub record ReceiveBuffer : Type 0 where
  pub streams : List (ℕ × RcvBuffer)
  pub capacity : ℕ
  pub size : ℕ
  pub ack_list : List Ack

abbrev pub new_rcv_buffer : RcvBuffer
new_rcv_buffer = record {
  segments = [];
  next_in_order_offset_to_wait_for = 0;
  close_at_offset = none;
}

abbrev pub new_receive_buffer : ℕ → ReceiveBuffer
new_receive_buffer capacity = record { streams = []; capacity = capacity; size = 0; ack_list = [] }

abbrev pub or_new : Option RcvBuffer → RcvBuffer
or_new none = new_rcv_buffer
or_new (some s) = s

-- `getOrCreateStream`: the stream, which the callers below write back.
unfoldable pub stream_of : ℕ → ReceiveBuffer → RcvBuffer
stream_of stream_id rb = or_new (lookup stream_id rb.streams)

unfoldable pub empty_insert : ℕ → ℕ → ReceiveBuffer → ReceiveBuffer × RcvInsertStatus
empty_insert stream_id offset rb =
    let ack : Ack = record { stream_id = stream_id; offset = offset; len = 0; rcv_wnd = 0 } in
    (record rb { ack_list = rb.ack_list ++ (ack ∷ []) }, rcv_insert_ok)

-- `bytes.Equal`
unfoldable pub same_bytes : List ℕ → List ℕ → Bool
same_bytes [] [] = true
same_bytes [] (y ∷ ys) = false
same_bytes (x ∷ xs) [] = false
same_bytes (x ∷ xs) (y ∷ ys) = x == y && same_bytes xs ys

-- The assertion that two byte slices agree.
unfoldable pub assert_same : List ℕ → List ℕ → Run (Unit {0})
unfolding same_bytes
assert_same xs ys = if same_bytes xs ys then ok tt else panic

-- What the segments of a stream and the size of the buffer become.
abbrev pub Inserted : Type 0
Inserted = SortedMap RcvValue × ℕ × RcvInsertStatus

-- The part of `Insert` on a new offset that looks at the previous segment: the offset and the data
-- that are left, or nothing if the previous segment holds all of it.
unfoldable pub trim_prev : ℕ → List ℕ → Option (ℕ × RcvValue) → Run (Option (ℕ × List ℕ))
unfolding slice assert_same
trim_prev offset user_data none = ok (some (offset, user_data))
trim_prev offset user_data (some (prev_offset, prev_data)) =
    let prev_end = u64 (prev_offset + length prev_data.payload) in
    if not (ltb offset prev_end)
    then ok (some (offset, user_data))
    else let overlap_len = sub64 prev_end offset in
      if leb (length user_data) overlap_len then ok none else do
        existing ← slice (sub64 offset prev_offset) (length prev_data.payload) prev_data.payload
        incoming ← slice 0 overlap_len user_data
        assert_same existing incoming
        rest ← slice overlap_len (length user_data) user_data
        ok (some (prev_end, rest))

-- The part that looks at the next segment: what is left of the data, the segments and the size.
unfoldable pub trim_next :
    ℕ
    → List ℕ
    → SortedMap RcvValue
    → ℕ
    → Option (ℕ × RcvValue)
    → Run (List ℕ × SortedMap RcvValue × ℕ)
unfolding slice assert_same Sorted.remove
trim_next final_offset final_data segments size none = ok (final_data, segments, size)
trim_next final_offset final_data segments size (some (next_offset, next_data)) =
    let our_end = u64 (final_offset + length final_data) in
    let next_end = u64 (next_offset + length next_data.payload) in
    let start = sub64 next_offset final_offset in
    if not (ltb next_offset our_end)
    then ok (final_data, segments, size)
    else if leb next_end our_end
    then (do
      incoming ← slice start (u64 (start + length next_data.payload)) final_data
      assert_same next_data.payload incoming
      ok (final_data, Sorted.remove next_offset segments, sub64 size (length next_data.payload)))
    else do
      existing ← slice 0 (sub64 our_end next_offset) next_data.payload
      incoming ← slice start (length final_data) final_data
      assert_same existing incoming
      front ← slice 0 start final_data
      ok (front, segments, size)

-- What was left by `trim_prev`, stored: the part up to the next segment of the original offset.
unfoldable pub store : ℕ → ℕ → SortedMap RcvValue → ℕ → Option (ℕ × List ℕ) → Run Inserted
unfolding trim_next Sorted.next Sorted.put
store offset now segments size none = ok (segments, size, rcv_insert_duplicate)
store offset now segments size (some (final_offset, data_left)) = do
  (final_data, segments', size') ←
      trim_next final_offset data_left segments size (Sorted.next offset segments)
  ok (
    Sorted.put final_offset (record { payload = final_data; receive_time_nano = now }) segments',
    u64 (size' + length final_data),
    rcv_insert_ok,
  )

-- `Insert` past the test on the next expected offset, by what stands at this very offset.
unfoldable pub insert_segment :
    ℕ → ℕ → List ℕ → SortedMap RcvValue → ℕ → Option RcvValue → Run Inserted
unfolding trim_prev store Sorted.put Sorted.remove Sorted.prev_or
insert_segment offset now user_data segments size (some existing) =
    if leb (length user_data) (length existing.payload)
    then ok (segments, size, rcv_insert_duplicate)
    else ok (
      Sorted.put offset (record { payload = user_data; receive_time_nano = now })
          (Sorted.remove offset segments),
      u64 (sub64 size (length existing.payload) + length user_data),
      rcv_insert_ok,
    )
insert_segment offset now user_data segments size none =
    trim_prev offset user_data (Sorted.prev offset segments) >>= store offset now segments size

-- `Insert` on the stream that was found or made, once the data fit.
unfoldable pub insert_stream :
    ℕ → ℕ → List ℕ → RcvBuffer → ℕ → Run (RcvBuffer × ℕ × RcvInsertStatus)
unfolding insert_segment Sorted.get
insert_stream offset now user_data s size =
    if leb (u64 (offset + length user_data)) s.next_in_order_offset_to_wait_for
    then ok (s, size, rcv_insert_duplicate)
    else do
      (segments, size', status) ←
          insert_segment offset now user_data s.segments size (Sorted.get offset s.segments)
      ok (record s { segments = segments }, size', status)

-- `Insert`. The comparison is of ints, of which a negative one is at most the capacity.
unfoldable pub insert_data :
    ℕ → ℕ → ℕ → List ℕ → ReceiveBuffer → Run (ReceiveBuffer × RcvInsertStatus)
unfolding stream_of insert_stream
insert_data stream_id offset now user_data rb =
    let s = stream_of stream_id rb in
    let total = u64 (rb.size + length user_data) in
    if ltb rb.capacity total && ltb total (2 ^ 63)
    then ok (record rb { streams = insert stream_id s rb.streams }, rcv_insert_buffer_full)
    else let ack : Ack = record {
      stream_id = stream_id;
      offset = offset;
      len = u16 (length user_data);
      rcv_wnd = 0;
    } in
      do
        (s', size, status) ← insert_stream offset now user_data s rb.size
        ok (
          record rb {
            streams = insert stream_id s' rb.streams;
            size = size;
            ack_list = rb.ack_list ++ (ack ∷ []);
          },
          status,
        )

unfoldable pub close : ℕ → ℕ → ReceiveBuffer → ReceiveBuffer
unfolding stream_of
close stream_id close_offset rb =
    let s = stream_of stream_id rb in
    let at : Option ℕ = elim s.close_at_offset [ none ↦ some close_offset | some at ↦ some at ] in
    record rb { streams = insert stream_id (record s { close_at_offset = at }) rb.streams }

unfoldable pub get_offset_closed_at : ℕ → ReceiveBuffer → Option ℕ
get_offset_closed_at stream_id rb = elim (lookup stream_id rb.streams) [
  | none ↦ none
  | some s ↦ s.close_at_offset
]

-- What a read hands out: the offset, the data (or nil) and the time of arrival.
abbrev pub Delivery : Type 0
Delivery = ℕ × Option (List ℕ) × ℕ

abbrev pub no_delivery : Delivery
no_delivery = (0, none, 0)

-- `RemoveOldestInOrder` on the stream that it found, by its least segment. The adjustment for an
-- offset below the next expected one stands under the test that they are equal.
unfoldable pub deliver : RcvBuffer → ℕ → Option (ℕ × RcvValue) → Run (RcvBuffer × ℕ × Delivery)
unfolding Sorted.remove slice
deliver s size none = ok (s, size, no_delivery)
deliver s size (some (oldest_offset, oldest_value)) =
    let next = s.next_in_order_offset_to_wait_for in
    if oldest_offset == next
    then (do
      (bytes, next_offset) ←
          (if ltb oldest_offset next
            then (slice (sub64 next oldest_offset) (length oldest_value.payload)
                  oldest_value.payload
                >>= λ left. ok (left, next))
            else ok (oldest_value.payload, oldest_offset))
      ok (
        record s {
          segments = Sorted.remove oldest_offset s.segments;
          next_in_order_offset_to_wait_for = u64 (next_offset + length bytes);
        },
        sub64 size (length oldest_value.payload),
        (oldest_offset, some bytes, oldest_value.receive_time_nano),
      ))
    else ok (s, size, no_delivery)

unfoldable pub remove_oldest : RcvBuffer → ℕ → Run (RcvBuffer × ℕ × Delivery)
unfolding deliver Sorted.min_entry
remove_oldest s size = deliver s size (Sorted.min_entry s.segments)

unfoldable pub remove_oldest_in_order : ℕ → ReceiveBuffer → Run (ReceiveBuffer × Delivery)
unfolding remove_oldest
remove_oldest_in_order stream_id rb = elim (lookup stream_id rb.streams) [
  | none ↦ ok (rb, no_delivery)
  | some s ↦ do
    (s', size, delivery) ← remove_oldest s rb.size
    ok (record rb { streams = insert stream_id s' rb.streams; size = size }, delivery)
]

unfoldable pub size_of : ReceiveBuffer → ℕ
size_of rb = rb.size

unfoldable pub available : ReceiveBuffer → ℕ
available rb = sub64 rb.capacity rb.size

unfoldable pub get_snd_ack : ReceiveBuffer → ReceiveBuffer × Option Ack
get_snd_ack rb = elim rb.ack_list [
  | [] ↦ (rb, none)
  | ack ∷ rest ↦ (record rb { ack_list = rest }, some ack)
]
