-- ===== src/Session.antt =====
-- The session of a connection that speaks HTTP/2 (src/viriatum/stream/stream_http2.c and
-- stream_http2.h): its structures. The streams in use are a list, so that `count` is its length and a
-- pointer to a stream is its slot; a buffer and its size are one list.
pub mod Links
pub mod Streams
pub mod Tree
pub mod Dependencies
pub mod Walks
pub mod Placing
pub mod Lookup
pub mod Closing
pub mod Flow
pub mod Sending
pub mod Rounds
pub mod Flushing
pub mod Headers
pub mod Splitting
pub mod Fragments
pub mod Schedule
pub mod Writing
pub mod Handlers
pub mod Fields
pub mod Blocks
pub mod Frames
pub mod Receiving
pub mod Pointwise
pub mod Calm
pub mod CalmWrites
pub mod Invariant
pub mod Opening
pub mod Steps
pub mod Windows
pub mod Renegotiation
pub mod FieldsCalm
pub mod BlocksCalm
pub mod Keeping
pub mod HeadersKept
pub mod Preserving
pub mod Reading
pub mod Blocking
pub mod Choosing
pub mod Progress
pub mod Reach
mod Tests
use viriatum.Base.{ℕ, ℤ, pos, List, [], Option, none, some, Bool, true, false, get_or}
use viriatum.Http2
use viriatum.Http2.{Settings, Priority, create_settings, default_window_size}
use viriatum.Hpack.Table

-- `HTTP2_MAX_BLOCK`, `HTTP2_DEFAULT_WEIGHT` and the sizes of the buffers of a message
abbrev pub max_block : ℕ
max_block = 65536

abbrev pub default_weight : ℕ
default_weight = 16

abbrev pub stream_slots : ℕ
stream_slots = Http2.max_concurrent

-- `enum http2_stream_state_e`
pub data StreamState : Type 0 where
  idle reserved_local reserved_remote opened : StreamState
  half_closed_local half_closed_remote closed : StreamState

-- The scheme is unset, or one of the two static strings.
pub data Scheme : Type 0 where
  unset http https : Scheme

-- The part of `struct http_request_t` that a session writes and that differs between its streams.
pub record Request : Type 0 where
  pub method : ℕ
  pub scheme : Scheme
  pub path : List ℕ
  pub authority : List ℕ
  pub trailers : Bool

-- `struct http2_pending_t`: `callback` names the callback of the handler and its parameters.
pub record Pending : Type 0 where
  pub bytes : List ℕ
  pub offset : ℕ
  pub last : Bool
  pub callback : ℕ

-- `struct http2_stream_t`; the handler that serves the stream is a number, or `none` for NULL.
pub record Stream : Type 0 where
  pub stream_id : ℕ
  pub state : StreamState
  pub send_window : ℤ
  pub receive_window : ℤ
  pub priority : Priority
  pub request : Request
  pub http_handler : Option ℕ
  pub end_stream : Bool
  pub headers_complete : Bool
  pub complete : Bool
  pub content_length : ℕ
  pub announced : Bool
  pub received : ℕ
  pub pending : List Pending

-- A slot of the table that is not in use.
abbrev pub blank_request : Request
blank_request = record { method = 0; scheme = unset; path = []; authority = []; trailers = false }

abbrev pub blank : Stream
blank = record {
  stream_id = 0;
  state = idle;
  send_window = pos 0;
  receive_window = pos 0;
  priority = record { dependency = 0; weight = 0; exclusive = false };
  request = blank_request;
  http_handler = none;
  end_stream = false;
  headers_complete = false;
  complete = false;
  content_length = 0;
  announced = false;
  received = 0;
  pending = [];
}

-- `&streams[slot]`
abbrev pub at : List Stream → ℕ → Stream
at streams slot = get_or streams slot blank

-- What is queued on the connection below: a frame, a buffer whose completion comes back with the
-- stream (`struct http2_callback_t`), the frame that is followed by the closing, and the closing.
pub data Output : Type 0 where
  frame : List ℕ → Output
  buffer : List ℕ → ℕ → ℕ → Output
  farewell : List ℕ → Output
  close_connection : Output

-- What the handler of a stream hears.
pub data Event : Type 0 where
  set unset message_begin headers_complete message_complete : Event
  url header_field header_value body : List ℕ → Event

-- `struct http2_connection_t`, with the fields of the HTTP connection that it drives: `current` is
-- the stream of its message and `http_handler` its handler. `output` and `events` list what has been
-- queued and what the handlers have heard, the newest last.
pub record Session : Type 0 where
  pub settings : Settings
  pub remote : Settings
  pub decoder : Table.Table
  pub encoder : Table.Table
  pub streams : List Stream
  pub last_stream_id : ℕ
  pub push_stream_id : ℕ
  pub send_window : ℤ
  pub receive_window : ℤ
  pub preface : Bool
  pub goaway : Bool
  pub continuation : ℕ
  pub continuation_flags : ℕ
  pub refused : ℕ
  pub block : List ℕ
  pub current : Option ℕ
  pub http_handler : Option ℕ
  pub base_handler : Option ℕ
  pub output : List Output
  pub events : List (ℕ × Event)

-- `create_http2_connection`
unfoldable pub create : Option ℕ → Session
create base = record {
  settings = create_settings;
  remote = create_settings;
  decoder = Table.create;
  encoder = Table.create;
  streams = [];
  last_stream_id = 0;
  push_stream_id = 0;
  send_window = pos default_window_size;
  receive_window = pos default_window_size;
  preface = false;
  goaway = false;
  continuation = 0;
  continuation_flags = 0;
  refused = 0;
  block = [];
  current = none;
  http_handler = none;
  base_handler = base;
  output = [];
  events = [];
}
