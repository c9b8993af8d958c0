-- ===== src/Session/Handlers.antt =====
-- The handlers that serve the streams. A session calls them through the callbacks of the settings of a
-- stream, and they answer with the operations of a connection, so that a handler is a function from
-- what it hears to what it does.
use viriatum.Base.{ℕ, List, [], ◌∷◌, ◌++◌, modify, length, ◌==◌, ◌&&◌, if◌then◌else◌}
use viriatum.Base.{Option, none, some, Bool}
use viriatum.Session.{Stream, Session, Event, at}
use viriatum.Session.Streams.{find_stream, activate, close_stream}
use viriatum.Session.Writing.{write_chunk, write_end, write_flush}

-- A handler writes a part of the body, closes the block of the headers, writes a buffer, or hands the
-- connection over to another handler. A promise of a stream is not among the operations.
pub data Operation : Type 0 where
  chunk : List ℕ → Bool → ℕ → Operation
  end_headers : List ℕ → ℕ → Bool → Operation
  flush_buffer : List ℕ → ℕ → Operation
  dispatch : Option ℕ → Operation

unfoldable pub run : Operation → Session → Session
run (chunk bytes last callback) s = write_chunk s bytes last callback
run (end_headers bytes offset last) s = (write_end s bytes offset last).1
run (flush_buffer bytes callback) s = write_flush s bytes callback
run (dispatch handler) s = record s { http_handler = handler }

unfoldable pub run_all : List Operation → Session → Session
run_all [] s = s
run_all (operation ∷ operations) s = run_all operations (run operation s)

-- The answers of the handlers, by the stream and the event.
abbrev pub Handler : Type 0
Handler = ℕ → Event → List Operation

abbrev pub hear : Handler → ℕ → Event → Session → Session
hear handler stream_id event s =
    run_all (handler stream_id event) (record s { events = s.events ++ ((stream_id, event) ∷ []) })

-- The stream takes over the handler that the connection is left with.
abbrev pub served_by : Option ℕ → Stream → Stream
served_by handler stream = record stream { http_handler = handler }

abbrev pub take_handler : Session → ℕ → Session
take_handler s slot = record s { streams = modify s.streams slot (served_by s.http_handler) }

-- The response has been written in full, so that the stream has served its purpose.
unfoldable pub close_complete : Session → ℕ → Session
close_complete s slot =
    if (at s.streams slot).complete && (length (at s.streams slot).pending == 0)
    then close_stream s slot
    else s

unfoldable pub complete_at : List Operation → Session → Option ℕ → Session
complete_at answers s none = s
complete_at answers s (some slot) =
    close_complete (take_handler (run_all answers (activate s slot)) slot) slot

-- `_callback_http2_connection`: a write for a stream completes. `answers` is what the callback of the
-- handler does, nothing where there is none.
unfoldable pub complete_write : List Operation → Session → ℕ → Session
complete_write answers s stream_id = complete_at answers s (find_stream s.streams stream_id)
