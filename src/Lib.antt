-- ===== src/Lib.antt =====
-- Verification of viriatum's HTTP/2 and WebSocket core.
--
-- viriatum is an HTTP server in C. Its second version of the protocol is three layers:
-- `src/viriatum/http/hpack.c` codes the fields of a header, `src/viriatum/http/http2.c` codes
-- the frames that carry them, and `src/viriatum/stream/stream_http2.c` keeps the connection. The
-- layers below the connection are pure functions over buffers, which take a position and give
-- the position behind what they handled; the compression table is their only state. The session
-- above them is driven by what arrives and by the completion of its writes, and it drives the
-- handlers of its streams. WebSocket connections are framed by `src/viriatum/http/websocket.c`,
-- in the same style.
--
-- The library has a module for each of these parts, and its children follow the functions of the
-- file:
--   Base: the vocabulary (Lists, Results, Tests) and the facts of bits and buffers. A
--     `RAISE_AGAIN` of the source is the bind of `Result`.
--   Hpack.Integer (src/viriatum/http/hpack.c): `decode_integer_hpack`, `encode_integer_hpack`.
--   Hpack.Static, Hpack.Table (hpack.c, hpack.h): the static table and the ring of the dynamic
--     one, with `create_`, `delete_`, `resize_`, `insert_`, `get_` and `find_hpack_table`.
--   Hpack.Huffman (src/viriatum/http/hpack.c): `decode_huffman_hpack`, `encode_huffman_hpack`,
--     `size_huffman_hpack` and their tables; the children follow the bits, of the accumulator
--     (Pending), of what is written (Writes, Encode) and of what is read (Decode).
--   Hpack.Strings (src/viriatum/http/hpack.c): `decode_string_hpack`, `encode_string_hpack`.
--   Hpack.Block (src/viriatum/http/hpack.c): `decode_hpack` and `encode_hpack`, the
--     representations of a header block over the strings, the integers and the tables.
--   Http2 (src/viriatum/http/http2.c, http2.h): Number (`decode_number_http2`,
--     `encode_number_http2`), Framing (`decode_frame_http2`, `encode_frame_http2`), Padding
--     (`strip_padding_http2`, `decode_priority_http2`), SettingsCodec (`decode_settings_http2`,
--     `encode_settings_http2`), Control (`encode_value_http2`, `encode_goaway_http2`), Verify
--     (`verify_frame_http2`).
--   WebSocket (src/viriatum/http/websocket.c, websocket.h): `parse_frame_websocket` (Parsing,
--     Headers), `build_frame_websocket`, `build_close_websocket` and `close_code_websocket`
--     (Closing), with the lengths and the masks in Lengths.
--   Session (src/viriatum/stream/stream_http2.c, stream_http2.h): Streams and Tree (`find_`,
--     `open_`, `close_`, `delete_` and `prioritise_stream_http2_connection`), Flow
--     (`update_window_`, `apply_settings_http2_connection`), Sending, Schedule and Splitting
--     (`_flush_`, `_schedule_`, `_blocked_` and `_split_http2_connection`), Writing and Handlers
--     (`write_chunk_http2`, `write_end_http2`, `write_flush_http2`, the control frames,
--     `_callback_http2_connection`), Fields and Blocks (`_header_` and
--     `_block_http2_connection`), Frames and Receiving (`handle_frame_http2_connection`),
--     Reading (`data_handler_stream_http2`). The streams in use are a list, a pointer to one is
--     its slot, and the state of the session is `Session`, with what it queued and what its
--     handlers heard. Of the proofs, Links is the tree over its links alone, Lookup, Closing and
--     Opening are the table as a map, Calm is what the operations of a handler leave alone,
--     Flushing, Headers, Fragments, Blocking, Choosing and Progress are what a flush writes,
--     what a large block is split into, what a round of the scheduling chooses and how the loop
--     over the bytes ends, Invariant is the invariant, and Reach is the connection as a relation
--     of steps.
--
-- State. A buffer and its size are one list of bytes; a read behind its end is 0, and a write
-- behind it does nothing, where the source checks before either. Numbers are natural numbers,
-- and a place where the source wraps or casts has the remainder written out. A failing function
-- answers `err`, with a constructor for each message, and `null_entry` stands for the read of an
-- unset slot, which the invariant of the table excludes.
--
-- Loops. The integer decoder descends on what is left of the buffer and the encoder on the
-- accessibility of its value, so neither has fuel. The encoder of the Huffman code pushes a code
-- with its length as fuel and flushes with the count of its bits, each of which drops by one at
-- least in a round. The loop over a header block has the size of the block as fuel, since every
-- representation takes a byte. A flush has the fragments and the bytes that are held back as
-- fuel, of which a round takes one at least; the rounds of the scheduling are bounded by the
-- slots, as in the source; the walks in the tree by the number of streams; the frames of what
-- has arrived by its size, since a frame takes nine bytes. The evictions of a table run once for
-- each entry that it counts, which bounds them, since each takes one away.
--
-- Not modelled: the allocation of memory, and so its exhaustion; `accept_key_websocket`, which
-- rests on the digest and the base 64 encoding of the commons; of the session the promises of
-- this end (`push_stream_http2_connection`), the status line and the fields of a response
-- (`write_status_http2`, `write_field_http2`, which change no session), the list of the
-- outstanding callbacks and the switch of a connection to the protocol
-- (`upgrade_handler_stream_http2`); the parser of HTTP/1.1 and the rest of the server. A handler
-- of the session is a function from what it hears to the writes it answers with, and its `unset`
-- writes nothing.
pub mod Base
pub mod Hpack
pub mod Http2
pub mod Session
pub mod WebSocket
