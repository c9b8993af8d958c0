-- ===== src/Session/Splitting.antt =====
-- `_split_http2_connection`: a block of headers that is larger than a frame of the peer, as a
-- sequence of frames. The buffer of the sequence is built frame after frame.
use viriatum.Base.{ℕ, zero, suc, ◌+◌, ◌-◌, List, [], ◌++◌, length, replicate}
use viriatum.Base.{slice, get_or, ltb, leb, ◌==◌, bit_and, if◌then◌else◌}
use viriatum.Http2.{frame_header_size, flag_end_headers, max_stream_id}
use viriatum.Http2.Framing.{encode_frame}
use viriatum.Http2.Number.{decode_number}
use viriatum.Session.Sending.{built}

-- A frame header and the fragment behind it.
unfoldable pub framed : ℕ → ℕ → ℕ → List ℕ → List ℕ
framed type flags stream_id fragment =
    let fresh = replicate frame_header_size 0 in
    built fresh (encode_frame fresh (length fragment) type flags stream_id) ++ fragment

-- The loop over the rest of the block, which takes a byte of it at least.
unfoldable pub split_loop : ℕ → ℕ → List ℕ → ℕ → ℕ → List ℕ
split_loop zero allowed data' position stream_id = []
split_loop (suc fuel) allowed data' position stream_id =
    let left = length data' - position in
    let size = if ltb left allowed then left else allowed in
    let flags = if position + size == length data' then flag_end_headers else 0x00 in
    let rest = split_loop fuel allowed data' (position + size) stream_id in
    if ltb position (length data')
    then framed 0x09 flags stream_id (slice data' position size) ++ rest
    else []

-- `flags & ~HTTP2_FLAG_END_HEADERS`
abbrev pub open_flags : ℕ → ℕ
open_flags flags = bit_and flags 0xfb

-- The frame, or the sequence of them, that the peer accepts.
unfoldable pub split : ℕ → List ℕ → List ℕ
split allowed data' =
    let stream_id = bit_and (decode_number data' 5) max_stream_id in
    let first = slice data' frame_header_size allowed in
    if leb (length data' - frame_header_size) allowed
    then data'
    else framed (get_or data' 3 0) (open_flags (get_or data' 4 0)) stream_id first
      ++ split_loop (length data') allowed data' (frame_header_size + allowed) stream_id
