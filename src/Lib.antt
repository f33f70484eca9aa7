-- ===== src/Lib.antt =====
-- qotp: a transport protocol over UDP with encryption. A `Listener` (listener.go) holds connections
-- (conn.go); a connection multiplexes streams (stream.go) over one send buffer (snd.go) and one
-- receive buffer (rcv.go), estimates RTT and bandwidth (measurement.go), and encodes a packet as a
-- transport header with data (proto.go) inside an encrypted frame (codec.go, crypto.go).
--
-- The files, and the code that they model:
-- - Base: Go's numbers, slices, maps and outcomes (a result, an error value or a panic).
-- - Bytes: the integer codecs of codec.go (`PutUint16` ... `Uint64`, the offset varint).
-- - Proto: all of proto.go. `encode_payload` and `decode_payload` are `EncodePayload` and
--   `DecodePayload`, `encode_rcv_window` and `decode_rcv_window` the one-byte window code.
-- - Measurement: all of measurement.go, a record for `Measurements` and a function for each method.
-- - Crypto: crypto.go. Library holds the libraries that it calls, as a parameter, and what is relied
--   on for one shared secret; Chained is `chainedEncrypt` and `chainedDecrypt`, Messages the functions
--   of the five message types. Nonce and RoundTrip (Keys, Packets, FirstPacket, Replies) are the
--   theorems; Toy is a library with which they are run.
-- - Entries, Sorted: the contracts of linkedmap.go and sortedmap.go, maps in the order of insertion
--   and of keys, as lists of pairs.
-- - Linked: all of linkedmap.go on its nodes and pointers. Chain is about links; Without, Removal and
--   Remove are about a node that is taken out, Rename, Replace and Put about one that changes, Read and
--   Iterate about what is read; Refinement says what the pointers represent, Runs is about histories.
--   `NestedIterator` is in Listener/Flush, over the contract.
-- - Skip: all of sortedmap.go, the skip list on its nodes and pointers. Level is `getNodeLevel`, Search
--   the search along the levels, Read and Contract are about the reading operations, Chain and Split
--   about the nodes in their order, Rewire, Links, Loops and Unlink about the pointers that `Put` and
--   `Remove` write, Insert, Reset, Put and Delete, Remove about these two; Refinement says what the pointers represent, Runs is
--   about runs from the empty map.
-- - Snd: all of snd.go. `SendBuffer` is a record; a method is a function to the new buffer and its
--   results. `ready_to_send` and `ready_to_retransmit` find the stream, `send_stream`,
--   `retransmit_stream` and `resend` do the work on it. Snd/Integrity is about the bytes that
--   the buffer accepted: on one stream (Steps, Resend, Retransmit), over all methods (Buffer) and over
--   runs (History).
-- - Rcv: all of rcv.go, in the same way. `insert_data` is `Insert`; `insert_stream` is its part on a
--   stream, of which `trim_prev` and `trim_next` cut the overlaps with the neighbours. Rcv/Integrity is
--   about one call, Rcv/History about runs.
-- - Stream: stream.go over the two buffers; the socket's `TimeoutReadNow` is a parameter of `write`.
-- - Conn: conn.go, and `encode` of codec.go. Encrypt is the packet of each message type, Encode the
--   whole of `encode`, with the theorems on the counters (Numbers) and on data packets (Data); Flush is
--   `Flush`, `sendPacket` and `writeAck`, where the socket is a parameter, with Parts, Bounds, Window,
--   Ready and Progress; Receive is `decode`.
-- - Net: net.go, `UDPNetworkConn` over a `net.UDPConn` that is a parameter. Crypto/Pcap is pcap.go.
-- - Listener: listener.go, and `decode` of codec.go (Decode). Options is `fillListenOpts` with
--   its options, Open the constructor `Listen` and the calls that parse addresses and keys, Listen
--   and Flush the two methods of these names. Delivery and Handshake are about both sides of a
--   connection, Dialling about the table of connections, Failures about calls that cannot succeed,
--   Wait about the time between calls.
--
-- A method of a shared object that can fail is a function from its state to the new state and the
-- outcome (Base/Exec), so that what it changed before it failed is kept. A connection is in the
-- listener's map by value and is written back; the pointers to the current connection and stream are
-- the keys of what they point to.
--
-- A mutex is held for the whole of each method, so a method is one step. Numbers are natural numbers
-- with the wrap-around of uint64 written out; an int has its bit pattern. The bit length in the
-- window code recurs on a fuel of 64, the width of its argument. The loops that follow the pointers of a
-- map have a step for each entry and one more, as each step passes an entry, and the loop of
-- `getNodeLevel` has as many as the position, which each step divides by four. Every other loop is
-- structural. The receive buffer stands on the contract Sorted and the connections on Entries. Log
-- output has no model.
--
-- Not modelled: the endless loop of listener.go and the lines of its key log, the locks, the system calls
-- of the sockets (net_*.go) and the programs. What parses an address or a key is a parameter.
pub mod Base
pub mod Bytes
pub mod Proto
pub mod Linked
pub mod Skip
pub mod Listener
pub mod Net
pub mod Measurement
pub mod Entries
pub mod Crypto
pub mod Snd
pub mod Sorted
pub mod Rcv
pub mod Stream
pub mod Conn
