-- ===== src/Rcv/Tests.antt =====
-- Runs of the receive buffer, and the theorems at one stream each.
use qotp.Base.{ℕ, ◌≡◌, refl, none, List, [], ◌∷◌, ok, Returns, arith, drop}
use qotp.Rcv.{RcvValue, RcvBuffer, RcvInsertStatus, insert_stream, remove_oldest}
use qotp.Rcv.Segments.{Agrees, Disjoint}
use qotp.Rcv.{new_rcv_buffer}
use qotp.Base.{some}
use qotp.Rcv.History.{Received, start, inserted, read_some, IsFront, Received-IsFront}
use qotp.Rcv.Integrity.{IsInsertion, IsRead, insert_stream-Agrees, remove_oldest-IsRead}

abbrev ten : List ℕ
ten = 0 ∷ 1 ∷ 2 ∷ 3 ∷ 4 ∷ 5 ∷ 6 ∷ 7 ∷ 8 ∷ 9 ∷ []

abbrev segment : List ℕ → RcvValue
segment xs = record { payload = xs; receive_time_nano = 1 }

-- Bytes 0 to 2 and 6 to 8 have arrived.
abbrev gapped : RcvBuffer
gapped = record {
  segments = (0, segment (0 ∷ 1 ∷ 2 ∷ [])) ∷ (6, segment (6 ∷ 7 ∷ 8 ∷ [])) ∷ [];
  next_in_order_offset_to_wait_for = 0;
  close_at_offset = none;
}

gapped-Agrees : Agrees ten gapped.segments
gapped-Agrees = (((drop 3 ten, refl), omega arith), (((drop 9 ten, refl), omega arith), tt))

gapped-Disjoint : Disjoint gapped.segments
gapped-Disjoint = ((omega arith, tt), (tt, tt))

-- Bytes 2 to 7 come: they overlap with both segments.
insert_stream-Agrees_example :
    Returns (IsInsertion ten gapped) (insert_stream 2 5 (2 ∷ 3 ∷ 4 ∷ 5 ∷ 6 ∷ 7 ∷ []) gapped 6)
insert_stream-Agrees_example =
    insert_stream-Agrees ten 2 5 6 (2 ∷ 3 ∷ 4 ∷ 5 ∷ 6 ∷ 7 ∷ []) gapped (omega arith)
      ((drop 8 ten, refl), omega arith) gapped-Agrees gapped-Disjoint

insert_run :
    Returns
      (λ r.
        r.0.segments
        ≡ (0, segment (0 ∷ 1 ∷ 2 ∷ []))
          ∷ (3, record { payload = 3 ∷ 4 ∷ 5 ∷ []; receive_time_nano = 5 })
          ∷ (6, segment (6 ∷ 7 ∷ 8 ∷ []))
          ∷ [])
      (insert_stream 2 5 (2 ∷ 3 ∷ 4 ∷ 5 ∷ 6 ∷ 7 ∷ []) gapped 6)
unfolding insert_stream
insert_run = refl

remove_oldest-IsRead_example : Returns (IsRead ten gapped) (remove_oldest gapped 6)
remove_oldest-IsRead_example = remove_oldest-IsRead ten gapped 6 (omega arith) gapped-Agrees

-- Bytes 0 to 2 have been read when bytes 0 to 4 come as one segment: it is stored at offset 0, below
-- the offset that the reader waits for, and no later read hands out anything.
abbrev waiting : RcvBuffer
waiting = record { segments = []; next_in_order_offset_to_wait_for = 3; close_at_offset = none }

abbrev stalled : RcvBuffer
stalled = record waiting {
  segments = (0, record { payload = 0 ∷ 1 ∷ 2 ∷ 3 ∷ 4 ∷ []; receive_time_nano = 5 }) ∷ [];
}

straddling_insert_run :
    insert_stream 0 5 (0 ∷ 1 ∷ 2 ∷ 3 ∷ 4 ∷ []) waiting 0
    ≡ ok (stalled, 5, RcvInsertStatus.rcv_insert_ok)
unfolding insert_stream
straddling_insert_run = refl

stalled_read_run : remove_oldest stalled 5 ≡ ok (stalled, 5, (0, none, 0))
unfolding remove_oldest
stalled_read_run = refl

-- Bytes 0 to 3 come in one segment and are read.
abbrev holding : RcvBuffer
holding = record waiting {
  segments = (0, record { payload = 0 ∷ 1 ∷ 2 ∷ 3 ∷ []; receive_time_nano = 5 }) ∷ [];
  next_in_order_offset_to_wait_for = 0;
}

abbrev emptied : RcvBuffer
emptied = record waiting { next_in_order_offset_to_wait_for = 4 }

holding_run :
    insert_stream 0 5 (0 ∷ 1 ∷ 2 ∷ 3 ∷ []) new_rcv_buffer 0
    ≡ ok (holding, 4, RcvInsertStatus.rcv_insert_ok)
unfolding insert_stream
holding_run = refl

emptied_run : remove_oldest holding 4 ≡ ok (emptied, 0, (0, some (0 ∷ 1 ∷ 2 ∷ 3 ∷ []), 5))
unfolding remove_oldest
emptied_run = refl

emptied-Received : Received ten (0 ∷ 1 ∷ 2 ∷ 3 ∷ []) emptied
emptied-Received =
    read_some [] (0 ∷ 1 ∷ 2 ∷ 3 ∷ []) holding emptied 0 4 0 5
      (inserted [] new_rcv_buffer holding 0 5 0 4 (0 ∷ 1 ∷ 2 ∷ 3 ∷ []) RcvInsertStatus.rcv_insert_ok
        start ((drop 4 ten, refl), omega arith) tt holding_run)
      emptied_run

Received-IsFront_example : IsFront ten (0 ∷ 1 ∷ 2 ∷ 3 ∷ []) emptied
Received-IsFront_example =
    Received-IsFront ten (0 ∷ 1 ∷ 2 ∷ 3 ∷ []) emptied (omega arith) emptied-Received
