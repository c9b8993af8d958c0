-- ===== src/Session/Streams.antt =====
-- The table of the streams: `find_stream_http2_connection`, `open_stream_http2_connection`,
-- `close_stream_http2_connection` and `_activate_http2_connection`.
use viriatum.Base.{ℕ, zero, suc, ◌-◌, ◌%◌, List, [], ◌∷◌, ◌++◌, length, set, take}
use viriatum.Base.{Option, none, some, false, pos, leb, ◌==◌, ◌||◌}
use viriatum.Base.{if◌then◌else◌, Result, ok, err}
use viriatum.Http2.{Http2Error, protocol_error, refused_stream}
use viriatum.Session.{
  Stream, Session, opened, blank_request, at, unset, default_weight, stream_slots,
}
use mathlib.Core.Option

-- The slot of a stream, or `none` for NULL.
unfoldable pub find_stream : List Stream → ℕ → Option ℕ
find_stream [] stream_id = none
find_stream (stream ∷ streams) stream_id =
    if stream.stream_id == stream_id then some 0 else Option.map suc (find_stream streams stream_id)

-- The values a stream starts its life with.
unfoldable pub new_stream : Session → ℕ → Stream
new_stream s stream_id = record {
  stream_id = stream_id;
  state = opened;
  send_window = pos s.remote.initial_window_size;
  receive_window = pos s.settings.initial_window_size;
  priority = record { dependency = 0; weight = default_weight; exclusive = false };
  request = blank_request;
  http_handler = none;
  end_stream = false;
  headers_complete = false;
  complete = false;
  content_length = 0;
  announced = false;
  received = 0;
  pending = [];
}

-- The session with the stream, and the slot of it.
unfoldable pub open_stream : Session → ℕ → Result Http2Error (Session × ℕ)
open_stream s stream_id =
    if stream_id % 2 == 0
    then err protocol_error
    else if leb stream_id s.last_stream_id
    then err protocol_error
    else if leb s.settings.max_concurrent_streams (length s.streams)
        || leb stream_slots (length s.streams)
    then err refused_stream
    else ok (
      record s { streams = s.streams ++ (new_stream s stream_id ∷ []); last_stream_id = stream_id },
      length s.streams,
    )

unfoldable pub activate : Session → ℕ → Session
activate s slot = record s {
  current = some (at s.streams slot).stream_id;
  http_handler = (at s.streams slot).http_handler;
}

-- `http_handler->unset`, where a handler serves the stream.
unfoldable pub unset_handler : Session → ℕ → Option ℕ → Session
unset_handler s slot none = s
unset_handler s slot (some handler) =
    let s' = activate s slot in
    record s' { events = s'.events ++ (((at s.streams slot).stream_id, unset) ∷ []) }

-- The connection no longer points at the message of the stream.
unfoldable pub forget : Session → ℕ → Option ℕ → Session
forget s stream_id none = s
forget s stream_id (some current) =
    if current == stream_id then record s { current = none; http_handler = none } else s

-- The streams that hung from `stream_id` come to hang from `dependency`.
abbrev pub rehung : ℕ → ℕ → Stream → Stream
rehung stream_id dependency stream =
    if stream.priority.dependency == stream_id
    then record stream { priority = record stream.priority { dependency = dependency } }
    else stream

unfoldable pub rehang : ℕ → ℕ → List Stream → List Stream
rehang stream_id dependency [] = []
rehang stream_id dependency (stream ∷ streams) =
    rehung stream_id dependency stream ∷ rehang stream_id dependency streams

-- The last of the streams moves into the slot that is freed.
unfoldable pub free_slot : List Stream → ℕ → List Stream
free_slot streams slot =
    let last = length streams - 1 in take last (set streams slot (at streams last))

-- What the closing does to the table.
unfoldable pub closed_table : List Stream → ℕ → List Stream
closed_table streams slot =
    let stream = at streams slot in
    free_slot (rehang stream.stream_id stream.priority.dependency streams) slot

unfoldable pub close_stream : Session → ℕ → Session
close_stream s slot =
    let stream = at s.streams slot in
    let unserved = unset_handler s slot stream.http_handler in
    let detached = forget unserved stream.stream_id unserved.current in
    record detached { streams = closed_table s.streams slot }

-- `delete_http2_connection`: the first of the streams is closed over and over.
unfoldable pub close_streams : ℕ → Session → Session
close_streams zero s = s
close_streams (suc fuel) s = close_streams fuel (close_stream s 0)

unfoldable pub delete : Session → Session
delete s = close_streams (length s.streams) s
