-- ===== src/Session/Reading.antt =====
-- `data_handler_stream_http2`: the bytes of a connection, behind the preface, as frames. `unread` is
-- what the buffer of the connection holds behind the position that has been read.
use viriatum.Base.{ℕ, zero, suc, ◌+◌, List, [], ◌∷◌, ◌++◌, length, drop, take, ltb, not}
use viriatum.Base.{if◌then◌else◌, Option, none, some, true, Result, ok, err}
use viriatum.Hpack.Static.{codes}
use viriatum.Hpack.Table.{bytes_eq}
use viriatum.Http2.{Http2Error, Frame, frame_header_size}
use viriatum.Http2.Framing.{decode_frame}
use viriatum.Session.{Session, close_connection}
use viriatum.Session.Writing.{queue, write_settings, write_goaway}
use viriatum.Session.Handlers.{Handler}
use viriatum.Session.Frames.{Outcome}
use viriatum.Session.Receiving.{handle_frame}

-- `HTTP2_PREFACE`
unfoldable pub preface_bytes : List ℕ
preface_bytes =
    codes "PRI * HTTP/2.0" ++ (13 ∷ 10 ∷ 13 ∷ 10 ∷ (codes "SM" ++ (13 ∷ 10 ∷ 13 ∷ 10 ∷ [])))

abbrev pub preface_size : ℕ
preface_size = 24

-- The values of `enum http2_error_e`.
unfoldable pub error_code : Http2Error → ℕ
error_code Http2Error.no_error = 0
error_code Http2Error.protocol_error = 1
error_code Http2Error.internal_error = 2
error_code Http2Error.flow_control_error = 3
error_code Http2Error.settings_timeout = 4
error_code Http2Error.stream_closed = 5
error_code Http2Error.frame_size_error = 6
error_code Http2Error.refused_stream = 7
error_code Http2Error.cancel = 8
error_code Http2Error.compression_error = 9
error_code Http2Error.connect_error = 10
error_code Http2Error.enhance_your_calm = 11
error_code Http2Error.inadequate_security = 12
error_code Http2Error.http_1_1_required = 13

-- The bytes that stay and the session.
abbrev pub Reading : Type 0
Reading = List ℕ × Session

-- A frame that cannot be handled takes the connection down, with the reason.
unfoldable pub after_frame : (Session → Reading) → List ℕ → Outcome → Reading
after_frame next rest (none, s) = next s
after_frame next rest (some e, s) = (rest, (write_goaway s (error_code e)).1)

-- A frame that is too large, one whose payload has not arrived, and one that is handled.
unfoldable pub frame_payload :
    (Session → Frame → Outcome)
    → (List ℕ → Session → Reading)
    → Session
    → List ℕ
    → Frame
    → Option (List ℕ)
    → Reading
frame_payload handle next s unread f none = (unread, s)
frame_payload handle next s unread f (some payload) =
    let rest = drop (frame_header_size + f.size) unread in after_frame (next rest) rest (handle s f)

unfoldable pub read_frame :
    (Session → Frame → Outcome)
    → (List ℕ → Session → Reading)
    → Session
    → List ℕ
    → Result Http2Error Frame
    → Reading
read_frame handle next s unread (err e) = (unread, s)
read_frame handle next s unread (ok f) =
    if ltb s.settings.max_frame f.size
    then (unread, (write_goaway s (error_code Http2Error.frame_size_error)).1)
    else frame_payload handle next s unread f f.payload

module _ (handler : Handler) where
  -- One frame at a time, until the bytes no longer hold a complete one.
  unfoldable pub read_frames : ℕ → List ℕ → Session → Reading
  read_frames zero unread s = (unread, s)
  read_frames (suc fuel) unread s =
      read_frame (handle_frame handler) (read_frames fuel) s unread (decode_frame unread)

  unfoldable pub read_all : List ℕ → Session → Reading
  read_all unread s = read_frames (length unread) unread s

  -- No frame is accepted before the preface, and the connection is closed when it does not match; the
  -- settings of this end are announced behind it.
  unfoldable pub data_handler : Reading → List ℕ → Reading
  data_handler (unread, s) arrived =
      let gathered = unread ++ arrived in
      let greeted = (write_settings (record s { preface = true })).1 in
      if s.preface
      then read_all gathered s
      else if ltb (length gathered) preface_size
      then (gathered, s)
      else if not (bytes_eq (take preface_size gathered) preface_bytes)
      then (gathered, queue close_connection s)
      else read_all (drop preface_size gathered) greeted
