-- ===== src/Listener/Flush.antt =====
-- `Listener.Flush` of listener.go, over the iterators of linkedmap.go. The list of the pairs to visit
-- is made first: the loop neither adds nor removes a connection or a stream.
use qotp.Base.{
  ℕ, ◌+◌, Bool, true, false, not, ◌&&◌, ◌||◌, Option, none, some, List, [], ◌∷◌, ◌++◌, Run, ok, err,
  panic, ◌>>=◌, if◌then◌else◌, ltb, ◌==◌, u64, length, insert,
}
use qotp.Entries
use qotp.Entries.{Entries, iterator}
use qotp.Crypto.Library.{CryptoLib}
use qotp.Measurement.{min_deadline, read_deadline}
use qotp.Stream.{Stream}
use qotp.Conn.{Conn}
use qotp.Conn.Flush
use qotp.Conn.Flush.{Line, Socket}
use qotp.Listener.{Listener, Cursor, put_conn, cleanup_stream, cleanup_conn}

-- `NestedIterator`, over the streams of the connections: the keys.
abbrev inner_keys : ℕ → Entries Stream → List (ℕ × ℕ)
inner_keys conn_key [] = []
inner_keys conn_key ((stream_key, s) ∷ rest) = (conn_key, stream_key) ∷ inner_keys conn_key rest

abbrev outer_keys : Option ℕ → Entries Conn → List (ℕ × ℕ)
outer_keys start [] = []
outer_keys start ((conn_key, conn) ∷ rest) =
    inner_keys conn_key (iterator start conn.streams) ++ outer_keys none rest

unfoldable pub nested_iterator : Option ℕ → Option ℕ → Entries Conn → List (ℕ × ℕ)
nested_iterator start1 start2 conns = outer_keys start2 (iterator start1 conns)

-- The variables of the loop. `close_stream` keeps one stream for each connection.
pub record Loop : Type 0 where
  pub listener : Listener
  pub written : List (List ℕ)
  pub close_conn : List ℕ
  pub close_stream : List (ℕ × ℕ)
  pub min_pacing : ℕ

abbrev pub start_loop : Listener → Loop
start_loop l = record {
  listener = l;
  written = [];
  close_conn = [];
  close_stream = [];
  min_pacing = min_deadline;
}

-- What the two pointers read.
abbrev pub start_conn : Option Cursor → Option ℕ
start_conn none = none
start_conn (some cursor) = some cursor.conn_id

abbrev pub start_stream : Option Cursor → Option ℕ
start_stream none = none
start_stream (some cursor) = some cursor.stream_id

-- Whether the loop goes on.
abbrev pub Visited : Type 0
Visited = Loop × Bool

-- A closed stream: at once on the side of the sender, and on the other one while less than the
-- deadline has passed.
unfoldable pub is_to_clean : ℕ → Stream → Conn → Bool
is_to_clean now s conn =
    not (s.closed_at_nano == 0)
    && (conn.is_sender_on_init || ltb now (u64 (s.closed_at_nano + read_deadline)))

abbrev pub is_timed_out : ℕ → Conn → Bool
is_timed_out now conn =
    let last = conn.measurements.last_read_time_nano in
    not (last == 0) && ltb (u64 (last + read_deadline)) now

-- What follows the connection's `Flush`.
unfoldable pub after_flush : ℕ → ℕ → ℕ → Stream → Conn → ℕ × ℕ → Loop → Visited
after_flush now conn_key stream_key s conn (data_sent, pacing_nano) st =
    if is_to_clean now s conn
    then (record st { close_stream = insert conn_key s.stream_id st.close_stream }, true)
    else if ltb 0 data_sent
    then (
      record st {
        min_pacing = 0;
        listener = record st.listener {
          current = some (record {
            conn_key = conn_key;
            stream_key = stream_key;
            conn_id = conn.conn_id;
            stream_id = s.stream_id;
          });
        };
      },
      false,
    )
    else if is_timed_out now conn
    then (record st { close_conn = st.close_conn ++ (conn_key ∷ []) }, false)
    else if ltb pacing_nano st.min_pacing
    then (record st { min_pacing = pacing_nano }, true)
    else (st, true)

module _ (c : CryptoLib) (socket : Socket) (now : ℕ) where
  abbrev pub flushed : ℕ → ℕ → Stream → Loop → Line × Run (ℕ × ℕ) → Run Visited
  flushed conn_key stream_key s st (line, r) =
      let st' = record st {
        listener = put_conn conn_key line.conn st.listener;
        written = line.written;
      } in
      elim r [
        | ok sent ↦ ok (after_flush now conn_key stream_key s line.conn sent st')
        | err e ↦ ok (record st' { close_conn = st'.close_conn ++ (conn_key ∷ []) }, false)
        | panic ↦ panic
      ]

  abbrev pub visit_stream : ℕ → ℕ → Loop → Conn → Option Stream → Run Visited
  visit_stream conn_key stream_key st conn none = ok (st, true)
  visit_stream conn_key stream_key st conn (some s) = flushed conn_key stream_key s st (
      Flush.flush c st.listener.host socket s.stream_id now
        (record { conn = conn; written = st.written }))

  abbrev pub visit_conn : ℕ → ℕ → Loop → Option Conn → Run Visited
  visit_conn conn_key stream_key st none = ok (st, true)
  visit_conn conn_key stream_key st (some conn) =
      visit_stream conn_key stream_key st conn (Entries.get stream_key conn.streams)

  -- The body of the loop, for one connection and one of its streams.
  unfoldable pub visit : ℕ → ℕ → Loop → Run Visited
  visit conn_key stream_key st =
      visit_conn conn_key stream_key st (Entries.get conn_key st.listener.conn_map)

  unfoldable pub loop : List (ℕ × ℕ) → Loop → Run Loop
  loop [] st = ok st
  loop ((conn_key, stream_key) ∷ rest) st = do
    (st', go_on) ← visit conn_key stream_key st
    let after = loop rest st'
    if go_on then after else ok st'

  abbrev pub clean_conns : List ℕ → Listener → Listener
  clean_conns [] l = l
  clean_conns (conn_key ∷ rest) l = clean_conns rest (cleanup_conn conn_key l)

  -- The program ranges over its map of streams in any order; here it is that of insertion.
  abbrev pub clean_streams : List (ℕ × ℕ) → Listener → Listener
  clean_streams [] l = l
  clean_streams ((conn_key, stream_id) ∷ rest) l =
      clean_streams rest (cleanup_stream conn_key stream_id l)

  -- The cleaning, and the reset of the two pointers.
  unfoldable pub finish : Loop → Listener × List (List ℕ) × ℕ
  finish st = (
    record (clean_streams st.close_stream (clean_conns st.close_conn st.listener)) {
      current = none;
    },
    st.written,
    st.min_pacing,
  )

  -- The listener, the packets that the socket took, and the time to the next call.
  unfoldable pub flush : Listener → Run (Listener × List (List ℕ) × ℕ)
  flush l = if length l.conn_map == 0 then ok (l, [], min_deadline) else do
    st ←
        loop (nested_iterator (start_conn l.current) (start_stream l.current) l.conn_map)
          (start_loop l)
    ok (finish st)
