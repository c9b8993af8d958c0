-- ===== src/Session/Writing.antt =====
-- What is written on a connection: the frames of this end, and the operations that a handler builds a
-- response with (`write_chunk_http2`, `write_end_http2`, `write_flush_http2`). A field is written
-- with no indexing, so that `write_status_http2` and `write_field_http2` change no session.
use viriatum.Base.{ℕ, ◌+◌, List, [], ◌∷◌, ◌++◌, length, replicate, modify, overwrite, take}
use viriatum.Base.{ltb, ◌==◌, ◌&&◌, bit_or, get_or, if◌then◌else◌, Result, ok, err}
use viriatum.Base.{Option, none, some, Bool, true}
use viriatum.Http2.{
  Http2Error, frame_header_size, ping_size, flag_ack, flag_end_headers, flag_end_stream,
}
use viriatum.Http2.Framing.{encode_frame}
use viriatum.Http2.Control.{encode_value, encode_goaway}
use viriatum.Http2.SettingsCodec.{encode_settings}
use viriatum.Hpack.Table.{sub_size}
use viriatum.Session.{
  Stream, Session, Pending, StreamState, reserved_local, half_closed_remote, Output, frame, buffer,
  farewell, close_connection, at,
}
use viriatum.Session.Streams.{find_stream}
use viriatum.Session.Sending.{built, finish}
use viriatum.Session.Schedule.{schedule}
use viriatum.Session.Splitting.{split}

-- `write_connection`
abbrev pub queue : Output → Session → Session
queue output s = record s { output = s.output ++ (output ∷ []) }

-- A frame that has been built in a buffer, or the error of the building.
unfoldable pub queue_built : Session → Result Http2Error (List ℕ × ℕ) → Option Http2Error × Session
queue_built s (err e) = (some e, s)
queue_built s (ok (bytes, size)) = (none, queue (frame (take size bytes)) s)

unfoldable pub write_value : Session → ℕ → ℕ → ℕ → Option Http2Error × Session
write_value s type stream_id value =
    queue_built s (encode_value (replicate (frame_header_size + 4) 0) type stream_id value)

unfoldable pub queue_header :
    Session → List ℕ → Result Http2Error (List ℕ) → Option Http2Error × Session
queue_header s payload (err e) = (some e, s)
queue_header s payload (ok bytes) =
    (none, queue (frame (overwrite bytes frame_header_size payload)) s)

-- `_write_settings_http2_connection`, the acknowledgement and the settings.
unfoldable pub write_ack : Session → Option Http2Error × Session
write_ack s = queue_header s [] (encode_frame (replicate frame_header_size 0) 0 0x04 flag_ack 0)

unfoldable pub write_settings : Session → Option Http2Error × Session
write_settings s = queue_built s (encode_settings (replicate 39 0) s.settings)

-- The payload of the ping goes back.
unfoldable pub write_ping : Session → List ℕ → Option Http2Error × Session
write_ping s payload =
    queue_header s (take ping_size payload)
      (encode_frame (replicate (frame_header_size + ping_size) 0) ping_size 0x06 flag_ack 0)

-- The frame is followed by the closing of the connection; told a second time, or unable to build it,
-- the connection is closed at once.
unfoldable pub queue_goaway : Session → Result Http2Error (List ℕ × ℕ) → Option Http2Error × Session
queue_goaway s (err e) = (some e, queue close_connection s)
queue_goaway s (ok (bytes, size)) = (none, queue (farewell (take size bytes)) s)

unfoldable pub write_goaway : Session → ℕ → Option Http2Error × Session
write_goaway s error =
    if s.goaway
    then (none, queue close_connection s)
    else queue_goaway (record s { goaway = true })
        (encode_goaway (replicate (frame_header_size + 8) 0) s.last_stream_id error)

-- `_current_http2_connection`: the slot of the stream that is being served.
unfoldable pub current_slot : Session → Option ℕ → Option ℕ
current_slot s none = none
current_slot s (some current) = find_stream s.streams current

abbrev pub hold_back : Pending → Stream → Stream
hold_back p stream = record stream { pending = stream.pending ++ (p ∷ []) }

-- The fragment is queued on the stream, where there is one, and the scheduling decides.
unfoldable pub queue_chunk : Session → Pending → Option ℕ → Session
queue_chunk s p none = s
queue_chunk s p (some slot) = schedule (record s { streams = modify s.streams slot (hold_back p) })

unfoldable pub write_chunk : Session → List ℕ → Bool → ℕ → Session
write_chunk s bytes last callback =
    queue_chunk s (record { bytes = bytes; offset = 0; last = last; callback = callback })
      (current_slot s s.current)

-- The stream is done where the response has no payload.
unfoldable pub finish_at : Session → Bool → Option ℕ → Session
finish_at s last none = s
finish_at s last (some slot) = record s { streams = modify s.streams slot (finish last) }

stream_id_at : Session → Option ℕ → ℕ
stream_id_at s none = 0
stream_id_at s (some slot) = (at s.streams slot).stream_id

-- The buffer with the header of the frame, and the session; the position does not change.
unfoldable pub write_end : Session → List ℕ → ℕ → Bool → List ℕ × Session
unfolding stream_id_at
write_end s bytes offset last =
    let flags = if last then bit_or flag_end_headers flag_end_stream else flag_end_headers in
    (
      built bytes (
          encode_frame bytes (sub_size offset frame_header_size) 0x01 flags
            (stream_id_at s (current_slot s s.current))),
      finish_at s last (current_slot s s.current),
    )

abbrev pub leave_reserved : StreamState → StreamState
leave_reserved reserved_local = half_closed_remote
leave_reserved state = state

abbrev pub leave : Stream → Stream
leave stream = record stream { state = leave_reserved stream.state }

unfoldable pub queue_buffer : Session → List ℕ → ℕ → Option ℕ → Session
queue_buffer s bytes callback none = s
queue_buffer s bytes callback (some slot) =
    queue (buffer bytes (at s.streams slot).stream_id callback)
      (record s { streams = modify s.streams slot leave })

unfoldable pub write_flush : Session → List ℕ → ℕ → Session
write_flush s bytes callback =
    queue_buffer s
      (if ltb frame_header_size (length bytes) && (get_or bytes 3 0 == 0x01)
        then split s.remote.max_frame bytes
        else bytes)
      callback (current_slot s s.current)
