-- ===== src/Listener/Wait.antt =====
-- How long the caller of `Listener.Flush` waits for its next call.
use qotp.Base.{
  ℕ, ◌≤◌, ◌≡◌, refl, arith, true, false, Option, none, some, List, [], ◌∷◌, Run, ok, err, panic,
  ◌>>=◌, OnOk, if_elim, if◌then◌else◌, ltb, ltb→lt, ◌==◌, length,
}
use qotp.Entries
use qotp.Crypto.Library.{CryptoLib}
use qotp.Measurement.{min_deadline}
use qotp.Stream.{Stream}
use qotp.Conn.{Conn}
use qotp.Conn.Flush.{Line, Socket}
use qotp.Listener.{Listener}
use qotp.Listener.Flush.{
  Loop, Visited, is_to_clean, is_timed_out, after_flush, flushed, visit_stream, visit_conn, visit,
  loop, nested_iterator, start_conn, start_stream, start_loop, finish, flush,
}

abbrev Short : Loop → Type 0
Short st = st.min_pacing ≤ min_deadline

after_flush-Short :
    (now conn_key stream_key : ℕ) (s : Stream) (conn : Conn) (r : ℕ × ℕ) (st : Loop)
    → Short st
    → Short (after_flush now conn_key stream_key s conn r st).0
unfolding after_flush
after_flush-Short now conn_key stream_key s conn (data_sent, pacing_nano) st h =
    let P : Visited → Type 0 = λ r. Short r.0 in
    if_elim P (is_to_clean now s conn) (λ e. h)
      (λ e.
        if_elim P (ltb 0 data_sent) (λ e. omega arith)
          (λ e.
            if_elim P (is_timed_out now conn) (λ e. h)
              (λ e.
                if_elim P (ltb pacing_nano st.min_pacing)
                  (λ e. omega (arith, h, ltb→lt pacing_nano st.min_pacing e)) (λ e. h))))

module _ (c : CryptoLib) (socket : Socket) (now : ℕ) where
  abbrev VisitShort : Run Visited → Type 0
  VisitShort = OnOk (λ r. Short r.0)

  flushed-Short :
      (conn_key stream_key : ℕ) (s : Stream) (st : Loop) (line : Line) (r : Run (ℕ × ℕ))
      → Short st
      → VisitShort (flushed c socket now conn_key stream_key s st (line, r))
  flushed-Short conn_key stream_key s st line (ok sent) h =
      after_flush-Short now conn_key stream_key s line.conn sent _ h
  flushed-Short conn_key stream_key s st line (err e) h = h
  flushed-Short conn_key stream_key s st line panic h = tt

  visit_stream-Short :
      (conn_key stream_key : ℕ) (st : Loop) (conn : Conn) (found : Option Stream)
      → Short st
      → VisitShort (visit_stream c socket now conn_key stream_key st conn found)
  visit_stream-Short conn_key stream_key st conn none h = h
  visit_stream-Short conn_key stream_key st conn (some s) h =
      flushed-Short conn_key stream_key s st _ _ h

  visit-Short :
      (conn_key stream_key : ℕ) (st : Loop) (found : Option Conn)
      → Short st
      → VisitShort (visit_conn c socket now conn_key stream_key st found)
  visit-Short conn_key stream_key st none h = h
  visit-Short conn_key stream_key st (some conn) h =
      visit_stream-Short conn_key stream_key st conn (Entries.get stream_key conn.streams) h

  continue-Short :
      (rest : List (ℕ × ℕ)) (r : Run Visited)
      → VisitShort r
      → ((st : Loop) → Short st → OnOk Short (loop c socket now rest st))
      → OnOk Short
          (r >>= λ v. let after = loop c socket now rest v.0 in if v.1 then after else ok v.0)
  continue-Short rest (ok (st, true)) h k = k st h
  continue-Short rest (ok (st, false)) h k = h
  continue-Short rest (err e) h k = tt
  continue-Short rest panic h k = tt

  loop-Short : (keys : List (ℕ × ℕ)) (st : Loop) → Short st → OnOk Short (loop c socket now keys st)
  unfolding loop visit
  loop-Short [] st h = h
  loop-Short ((conn_key, stream_key) ∷ rest) st h =
      continue-Short rest
        (visit_conn c socket now conn_key stream_key st (Entries.get conn_key st.listener.conn_map))
        (visit-Short conn_key stream_key st (Entries.get conn_key st.listener.conn_map) h)
        (λ st h. loop-Short rest st h)

  abbrev pub Waits : Listener × List (List ℕ) × ℕ → Type 0
  Waits r = (r.2 ≤ min_deadline) × (r.0.current ≡ none)

  finish-Waits :
      (r : Run Loop) → OnOk Short r → OnOk Waits (r >>= λ st. ok (finish c socket now st))
  unfolding finish
  finish-Waits (ok st) h = (h, refl)
  finish-Waits (err e) h = tt
  finish-Waits panic h = tt

  -- A caller of `Flush` that gets a result waits at most `MinDeadLine`, 100 ms, for its next call,
  -- and the pointers to the current connection and stream are nil again, as they were before.
  pub flush_wait : (l : Listener) → l.current ≡ none → OnOk Waits (flush c socket now l)
  unfolding flush
  flush_wait l reset =
      if_elim (OnOk Waits) (length l.conn_map == 0) (λ e. (omega arith, reset))
        (λ e.
          finish-Waits
            (loop c socket now
              (nested_iterator (start_conn l.current) (start_stream l.current) l.conn_map)
              (start_loop l))
            (loop-Short (nested_iterator (start_conn l.current) (start_stream l.current) l.conn_map)
              (start_loop l) (omega arith)))
