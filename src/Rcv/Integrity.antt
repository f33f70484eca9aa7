-- ===== src/Rcv/Integrity.antt =====
-- `Insert` and `RemoveOldestInOrder` on one stream whose bytes are known.
use qotp.Base.{
  ℕ, ◌+◌, ◌-◌, ◌^◌, ◌≤◌, ◌<◌, ◌≡◌, refl, false, not, Option, none, some, List, [], ◌∷◌, ltb, leb,
  ◌==◌, length, u64, sub64, arith, All, AllSome, if_elim, Returns, Returns-bind, ==_iff,
}
use qotp.Sorted
use qotp.Sorted.{SortedMap}
use qotp.Rcv.{
  RcvValue, RcvBuffer, trim_prev, trim_next, Inserted, insert_segment, store, RcvInsertStatus,
  insert_stream, Delivery, deliver, remove_oldest,
}
use qotp.Rcv.Segments.{
  IsPart, Agrees, Disjoint, EndsBy, All-put, All-remove, All-next, All-prev_or, prev_or-lt, next-gt,
  prev-next, assert_same_lem, slice_lem,
}

module _ (w : List ℕ) (small : length w < 2 ^ 48) where
  -- What `trim_prev` leaves of `len` bytes at `offset`: none, or a tail of them that starts at
  -- `bound` or before.
  abbrev IsTail : ℕ → ℕ → ℕ → Option (ℕ × List ℕ) → Type 0
  IsTail offset len bound r =
      AllSome
        (λ t. IsPart w t.0 t.1 × (t.0 + length t.1 ≡ offset + len) × (offset ≤ t.0) × (t.0 ≤ bound))
        r

  trim_prev-IsTail :
      (offset bound : ℕ) (user_data : List ℕ) (before : Option (ℕ × RcvValue))
      → IsPart w offset user_data
      → offset ≤ bound
      → AllSome (λ p. p.0 < offset) before
      → AllSome (λ p. IsPart w p.0 p.1.payload) before
      → AllSome (EndsBy bound) before
      → Returns (IsTail offset (length user_data) bound) (trim_prev offset user_data before)
  unfolding trim_prev
  trim_prev-IsTail offset bound user_data none part le below agree ends =
      (part, refl, omega arith, le)
  trim_prev-IsTail offset bound user_data (some (p, v)) part le below agree ends =
      let P = Returns (IsTail offset (length user_data) bound) in
      let prev_end = p + length v.payload in
      let no_wrap : u64 prev_end ≡ prev_end = omega (arith, agree.1) in
      rw no_wrap (
        if_elim P (not (ltb offset prev_end)) (λ apart. (part, refl, omega arith, le))
          (λ overlaps.
            let over : sub64 prev_end offset ≡ prev_end - offset = ground (arith, agree.1) in
            let from : sub64 offset p ≡ offset - p = omega (arith, part.1) in
            rw (over, from)
              (if_elim P (leb (length user_data) (prev_end - offset)) (λ covered. tt)
                (λ longer.
                  let (xs, at_xs, len_xs, xs_slice) =
                    slice_lem w p (offset - p) (length v.payload) offset v.payload agree.0
                      (omega arith) (ground arith) (omega arith) in
                  let (ys, at_ys, len_ys, ys_slice) =
                    slice_lem w offset 0 (prev_end - offset) offset user_data part.0 (omega arith)
                      (omega arith) (ground arith) in
                  let (zs, at_zs, len_zs, zs_slice) =
                    slice_lem w offset (prev_end - offset) (length user_data) prev_end user_data
                      part.0 (ground arith) (ground arith) (omega arith) in
                  rw
                    (
                      at_xs,
                      at_ys,
                      assert_same_lem w offset xs ys xs_slice ys_slice (ground arith),
                      at_zs,
                    )
                    ((zs_slice, ground (arith, part.1)), ground arith, ground arith, ends)))))

  -- What `trim_next` leaves of the bytes at `offset`, and of the segments.
  abbrev IsTrimmed : ℕ → List ℕ × SortedMap RcvValue × ℕ → Type 0
  IsTrimmed offset (final_data, m, size) = IsPart w offset final_data × Agrees w m

  trim_next-IsPart :
      (offset size : ℕ) (user_data : List ℕ) (m : SortedMap RcvValue)
      (after : Option (ℕ × RcvValue))
      → IsPart w offset user_data
      → Agrees w m
      → AllSome (λ n. offset ≤ n.0) after
      → AllSome (λ n. IsPart w n.0 n.1.payload) after
      → Returns (IsTrimmed offset) (trim_next offset user_data m size after)
  unfolding trim_next
  trim_next-IsPart offset size user_data m none part agrees above agree = (part, agrees)
  trim_next-IsPart offset size user_data m (some (next_offset, v)) part agrees above agree =
      let P = Returns (IsTrimmed offset) in
      let our_end = offset + length user_data in
      let next_end = next_offset + length v.payload in
      let start = next_offset - offset in
      let no_wrap : u64 our_end ≡ our_end = omega (arith, part.1) in
      let no_wrap' : u64 next_end ≡ next_end = omega (arith, agree.1) in
      let from : sub64 next_offset offset ≡ start = omega (arith, agree.1) in
      rw (no_wrap, no_wrap', from)
        (if_elim P (not (ltb next_offset our_end)) (λ apart. (part, agrees))
          (λ overlaps.
            if_elim P (leb next_end our_end)
              (λ covers.
                let until : u64 (start + length v.payload) ≡ start + length v.payload =
                  omega (arith, agree.1) in
                let (xs, at_xs, len_xs, xs_slice) =
                  slice_lem w offset start (start + length v.payload) next_offset user_data part.0
                    (omega arith) (omega arith) (ground arith) in
                rw
                  (
                    until,
                    at_xs,
                    assert_same_lem w next_offset v.payload xs agree.0 xs_slice (omega arith),
                  )
                  (part, All-remove (λ e. IsPart w e.0 e.1.payload) next_offset m agrees))
              (λ partly.
                let over : sub64 our_end next_offset ≡ our_end - next_offset =
                  ground (arith, part.1) in
                let (xs, at_xs, len_xs, xs_slice) =
                  slice_lem w next_offset 0 (our_end - next_offset) next_offset v.payload agree.0
                    (omega arith) (omega arith) (ground arith) in
                let (ys, at_ys, len_ys, ys_slice) =
                  slice_lem w offset start (length user_data) next_offset user_data part.0
                    (omega arith) (ground arith) (omega arith) in
                let (zs, at_zs, len_zs, zs_slice) =
                  slice_lem w offset 0 start offset user_data part.0 (omega arith) (omega arith)
                    (ground arith) in
                rw
                  (
                    over,
                    at_xs,
                    at_ys,
                    assert_same_lem w next_offset xs ys xs_slice ys_slice (ground arith),
                    at_zs,
                  )
                  ((zs_slice, ground (arith, part.1)), agrees))))

  -- Where data at a new offset may start at the latest.
  abbrev bound_of : Option (ℕ × RcvValue) → ℕ
  bound_of none = length w
  bound_of (some n) = n.0

  bound_of-above :
      (offset : ℕ) (after : Option (ℕ × RcvValue))
      → offset ≤ bound_of after
      → AllSome (λ n. offset ≤ n.0) after
  bound_of-above offset none h = tt
  bound_of-above offset (some n) h = h

  le-bound_of :
      (offset : ℕ) (after : Option (ℕ × RcvValue))
      → offset ≤ length w
      → AllSome (λ n. offset < n.0) after
      → offset ≤ bound_of after
  le-bound_of offset none le h = le
  le-bound_of offset (some n) le h = omega arith

  ends-bound_of :
      (before after : Option (ℕ × RcvValue))
      → AllSome (λ p. IsPart w p.0 p.1.payload) before
      → AllSome (λ n. AllSome (EndsBy n.0) before) after
      → AllSome (EndsBy (bound_of after)) before
  ends-bound_of none none h k = tt
  ends-bound_of none (some n) h k = tt
  ends-bound_of (some p) none h k = h.1
  ends-bound_of (some p) (some n) h k = k

  abbrev IsInserted : Inserted → Type 0
  IsInserted (m, size, status) = Agrees w m

  store-IsInserted :
      (offset now size len : ℕ) (m : SortedMap RcvValue) (tail : Option (ℕ × List ℕ))
      → Agrees w m
      → IsTail offset len (bound_of (Sorted.next offset m)) tail
      → Returns IsInserted (store offset now m size tail)
  unfolding store
  store-IsInserted offset now size len m none agrees t = agrees
  store-IsInserted offset now size len m (some (final_offset, data_left)) agrees t =
      Returns-bind (IsTrimmed final_offset) IsInserted
        (trim_next final_offset data_left m size (Sorted.next offset m)) _
        (trim_next-IsPart final_offset size data_left m (Sorted.next offset m) t.0 agrees
          (bound_of-above final_offset (Sorted.next offset m) t.3)
          (All-next (λ e. IsPart w e.0 e.1.payload) offset m agrees))
        (λ (final_data, m', size') h.
          All-put (λ e. IsPart w e.0 e.1.payload) final_offset
            (record { payload = final_data; receive_time_nano = now }) m' h.1 h.0)

  insert_segment-IsInserted :
      (offset now size : ℕ) (user_data : List ℕ) (m : SortedMap RcvValue)
      (existing : Option RcvValue)
      → IsPart w offset user_data
      → Agrees w m
      → Disjoint m
      → Returns IsInserted (insert_segment offset now user_data m size existing)
  unfolding insert_segment
  insert_segment-IsInserted offset now size user_data m (some old) part agrees d =
      if_elim (Returns IsInserted) (leb (length user_data) (length old.payload)) (λ smaller. agrees)
        (λ larger.
          All-put (λ e. IsPart w e.0 e.1.payload) offset
            (record { payload = user_data; receive_time_nano = now }) (Sorted.remove offset m)
            (All-remove (λ e. IsPart w e.0 e.1.payload) offset m agrees) part)
  insert_segment-IsInserted offset now size user_data m none part agrees d =
      let before = Sorted.prev offset m in
      let after = Sorted.next offset m in
      let held = All-prev_or (λ e. IsPart w e.0 e.1.payload) none offset m tt agrees in
      Returns-bind (IsTail offset (length user_data) (bound_of after)) IsInserted
        (trim_prev offset user_data before) _
        (trim_prev-IsTail offset (bound_of after) user_data before part
          (le-bound_of offset after (omega (arith, part.1)) (next-gt offset m))
          (prev_or-lt none offset m tt) held
          (ends-bound_of before after held (prev-next none offset m d tt)))
        (λ tail t. store-IsInserted offset now size (length user_data) m tail agrees t)

-- An insertion never changes what has been delivered, and leaves segments that agree with `w`.
abbrev pub IsInsertion : List ℕ → RcvBuffer → RcvBuffer × ℕ × RcvInsertStatus → Type 0
IsInsertion w s (s', size, status) =
    Agrees w s'.segments
    × (s'.next_in_order_offset_to_wait_for ≡ s.next_in_order_offset_to_wait_for)
    × (s'.close_at_offset ≡ s.close_at_offset)

-- Data of a stream `w` of less than 2 ^ 48 bytes, in any order, with any overlap and however often it comes, go into
-- segments that are in order and do not overlap: `Insert` returns (no slice is out of range, no
-- assertion on overlapping bytes fails), every segment holds the bytes of `w` at its offset again,
-- and the offset that the reader waits for stays.
pub insert_stream-Agrees :
    (w : List ℕ) (offset now size : ℕ) (user_data : List ℕ) (s : RcvBuffer)
    → length w < 2 ^ 48
    → IsPart w offset user_data
    → Agrees w s.segments
    → Disjoint s.segments
    → Returns (IsInsertion w s) (insert_stream offset now user_data s size)
unfolding insert_stream
insert_stream-Agrees w offset now size user_data s small part agrees d =
    if_elim (Returns (IsInsertion w s))
      (leb (u64 (offset + length user_data)) s.next_in_order_offset_to_wait_for)
      (λ old. (agrees, refl, refl))
      (λ new.
        Returns-bind (IsInserted w small) (IsInsertion w s)
          (insert_segment offset now user_data s.segments size (Sorted.get offset s.segments)) _
          (insert_segment-IsInserted w small offset now size user_data s.segments
            (Sorted.get offset s.segments) part agrees d)
          (λ (m, size', status) h. (h, refl, refl)))

-- What a read does: nothing, or it hands out the next bytes of `w` and moves the offset behind them.
abbrev pub IsRead : List ℕ → RcvBuffer → RcvBuffer × ℕ × Delivery → Type 0
IsRead w s (s', size, (offset, none, time)) = s' ≡ s
IsRead w s (s', size, (offset, some delivered, time)) =
    (offset ≡ s.next_in_order_offset_to_wait_for)
    × IsPart w offset delivered
    × (s'.next_in_order_offset_to_wait_for ≡ offset + length delivered)
    × Agrees w s'.segments

deliver-IsRead :
    (w : List ℕ) (s : RcvBuffer) (size : ℕ) (oldest : Option (ℕ × RcvValue))
    → length w < 2 ^ 48
    → Agrees w s.segments
    → AllSome (λ e. IsPart w e.0 e.1.payload) oldest
    → Returns (IsRead w s) (deliver s size oldest)
unfolding deliver
deliver-IsRead w s size none small agrees part = refl
deliver-IsRead w s size (some (offset, v)) small agrees part =
    let next = s.next_in_order_offset_to_wait_for in
    if_elim (Returns (IsRead w s)) (offset == next)
      (λ same.
        let never : ltb offset next ≡ false = ground arith in
        let no_wrap : u64 (offset + length v.payload) ≡ offset + length v.payload =
          omega (arith, part.1) in
        rw never (
          (==_iff offset next).0 same,
          part,
          no_wrap,
          All-remove (λ e. IsPart w e.0 e.1.payload) offset s.segments agrees,
        ))
      (λ other. refl)

All-min_entry :
    (P : ℕ × RcvValue → Type 0) (m : SortedMap RcvValue) → All P m → AllSome P (Sorted.min_entry m)
unfolding Sorted.min_entry
All-min_entry P [] h = tt
All-min_entry P (e ∷ m) h = h.0

-- Whatever the segments are that agree with `w`, of less than 2 ^ 48 bytes, a read returns: it hands out nothing and leaves
-- the stream, or it hands out the bytes of `w` from the offset that the reader waits for, moves
-- that offset right behind them, and leaves segments that agree with `w`.
pub remove_oldest-IsRead :
    (w : List ℕ) (s : RcvBuffer) (size : ℕ)
    → length w < 2 ^ 48
    → Agrees w s.segments
    → Returns (IsRead w s) (remove_oldest s size)
unfolding remove_oldest
remove_oldest-IsRead w s size small agrees =
    deliver-IsRead w s size (Sorted.min_entry s.segments) small agrees
      (All-min_entry (λ e. IsPart w e.0 e.1.payload) s.segments agrees)
