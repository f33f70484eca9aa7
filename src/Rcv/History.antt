-- ===== src/Rcv/History.antt =====
-- Runs of one stream's receive buffer: segments come in any order, and reads stand between them.
use qotp.Base.{
  ℕ, zero, suc, ◌+◌, ◌^◌, ◌≤◌, ◌<◌, ◌≡◌, refl, sym, ap, ◌∙◌, none, some, List, [], ◌∷◌, ◌++◌, ok,
  length, take, arith, IsSlice,
}
use qotp.Rcv.{RcvBuffer, RcvInsertStatus, new_rcv_buffer, insert_stream, remove_oldest}
use qotp.Rcv.Segments.{IsPart, Agrees, Disjoint, take-append}
use qotp.Rcv.Integrity.{IsRead, insert_stream-Agrees, remove_oldest-IsRead}

-- `delivered` has been handed out when calls have led from a new stream to `s`. What is inserted are
-- bytes of `w`, and no segment held then overlaps with another.
pub data Received (w : List ℕ) : List ℕ → RcvBuffer → Type 0 where
  start : Received w [] new_rcv_buffer
  inserted :
      (delivered : List ℕ) (s s' : RcvBuffer) (offset now size size' : ℕ) (user_data : List ℕ)
      → (status : RcvInsertStatus) → Received w delivered s
      → IsPart w offset user_data
      → Disjoint s.segments
      → insert_stream offset now user_data s size ≡ ok (s', size', status)
      → Received w delivered s'
  read_nothing :
      (delivered : List ℕ) (s s' : RcvBuffer) (offset size size' time : ℕ)
      → Received w delivered s
      → remove_oldest s size ≡ ok (s', size', (offset, none, time))
      → Received w delivered s'
  read_some :
      (delivered xs : List ℕ) (s s' : RcvBuffer) (offset size size' time : ℕ)
      → Received w delivered s
      → remove_oldest s size ≡ ok (s', size', (offset, some xs, time))
      → Received w (delivered ++ xs) s'

-- A list and the part behind it.
take-IsSlice :
    (w : List ℕ) (n : ℕ) (xs : List ℕ)
    → IsSlice w n xs
    → n + length xs ≤ length w
    → take (n + length xs) w ≡ take n w ++ xs
take-IsSlice w zero xs (rest, e) fits =
    let front : take (length xs) w ≡ xs = ap (take (length xs)) e ∙ take-append xs rest in
    let size : 0 + length xs ≡ length xs = omega arith in rw size front
take-IsSlice [] (suc n) xs h fits = absurd (omega arith)
take-IsSlice (x ∷ w) (suc n) xs h fits =
    let size : suc n + length xs ≡ suc (n + length xs) = omega arith in
    rw size (ap (λ l. x ∷ l) (take-IsSlice w n xs h (omega arith)))

-- What has been handed out is the front of `w` up to the offset that the reader waits for.
abbrev pub IsFront : List ℕ → List ℕ → RcvBuffer → Type 0
IsFront w delivered s =
    Agrees w s.segments
    × (s.next_in_order_offset_to_wait_for ≤ length w)
    × (delivered ≡ take s.next_in_order_offset_to_wait_for w)

-- After any run in which segments of one stream `w`, of less than 2 ^ 48 bytes, come in any order, overlapping and repeated, while
-- those held do not overlap, and are read in between: all that has been handed out is the front of
-- `w` up to the offset that the reader waits for, without a gap, a repetition or a changed byte, and
-- every segment held has the bytes of `w` at its offset.
pub Received-IsFront :
    (w delivered : List ℕ) (s : RcvBuffer)
    → length w < 2 ^ 48
    → Received w delivered s
    → IsFront w delivered s
Received-IsFront w _ s' small start = (tt, omega arith, refl)
Received-IsFront w _ s' small (inserted d s _ offset now size size' xs status r part apart e) =
    let f = Received-IsFront w d s small r in
    let h = rw e at (insert_stream-Agrees w offset now size xs s small part f.0 apart) in
    (h.0, rw h.1 f.1, rw h.1 f.2)
Received-IsFront w _ s' small (read_nothing d s _ offset size size' time r e) =
    let f = Received-IsFront w d s small r in
    let h : s' ≡ s = rw e at (remove_oldest-IsRead w s size small f.0) in rw h f
Received-IsFront w _ s' small (read_some d xs s _ offset size size' time r e) =
    let f = Received-IsFront w d s small r in
    let h : IsRead w s (s', size', (offset, some xs, time)) =
      rw e at (remove_oldest-IsRead w s size small f.0) in
    let (at, part, moved, agrees) = h in
    let n = s.next_in_order_offset_to_wait_for in
    let part' : IsPart w n xs = rw at at part in
    let grown : d ++ xs ≡ take (n + length xs) w =
      ap (λ l. l ++ xs) f.2 ∙ sym (take-IsSlice w n xs part'.0 part'.1) in
    let moved' : s'.next_in_order_offset_to_wait_for ≡ n + length xs = rw at at moved in
    (agrees, omega (arith, moved', part'.1), grown ∙ ap (λ k. take k w) (sym moved'))
