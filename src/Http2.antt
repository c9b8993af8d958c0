-- ===== src/Http2.antt =====
-- The framing of HTTP/2 (src/viriatum/http/http2.c and http2.h): the constants, the error codes and
-- the structures. A buffer and its size are one list.
pub mod Number
pub mod Framing
pub mod Padding
pub mod SettingsCodec
pub mod Control
pub mod Verify
mod Tests
use viriatum.Base.{ℕ, List, Option, Bool, true, ◌%◌}
use viriatum.Hpack

-- `enum http2_error_e`
pub data Http2Error : Type 0 where
  no_error protocol_error internal_error flow_control_error settings_timeout : Http2Error
  stream_closed frame_size_error refused_stream cancel compression_error : Http2Error
  connect_error enhance_your_calm inadequate_security http_1_1_required : Http2Error

-- `HTTP2_HEADER_SIZE`, `HTTP2_DEFAULT_FRAME_SIZE` and the other limits
abbrev pub frame_header_size : ℕ
frame_header_size = 9

abbrev pub default_frame_size : ℕ
default_frame_size = 16384

abbrev pub max_frame_size : ℕ
max_frame_size = 16777215

abbrev pub default_window_size : ℕ
default_window_size = 65535

abbrev pub max_window_size : ℕ
max_window_size = 2147483647

abbrev pub max_concurrent : ℕ
max_concurrent = 128

abbrev pub max_stream_id : ℕ
max_stream_id = 2147483647

abbrev pub setting_size : ℕ
setting_size = 6

abbrev pub ping_size : ℕ
ping_size = 8

abbrev pub priority_size : ℕ
priority_size = 5

-- `enum http2_flag_e`
abbrev pub flag_ack : ℕ
flag_ack = 0x01

abbrev pub flag_end_stream : ℕ
flag_end_stream = 0x01

abbrev pub flag_end_headers : ℕ
flag_end_headers = 0x04

abbrev pub flag_priority : ℕ
flag_priority = 0x20

abbrev pub flag_padded : ℕ
flag_padded = 0x08

-- `struct http2_frame_t`. The payload is the rest of the buffer behind the header, or `none` for
-- the null pointer.
pub record Frame : Type 0 where
  pub size : ℕ
  pub type : ℕ
  pub flags : ℕ
  pub stream_id : ℕ
  pub payload : Option (List ℕ)

-- `struct http2_settings_t`
pub record Settings : Type 0 where
  pub header_table_size : ℕ
  pub enable_push : Bool
  pub max_concurrent_streams : ℕ
  pub initial_window_size : ℕ
  pub max_frame : ℕ
  pub max_header_list : ℕ

-- `struct http2_priority_t`
pub record Priority : Type 0 where
  pub dependency : ℕ
  pub weight : ℕ
  pub exclusive : Bool

-- `create_settings_http2`
unfoldable pub create_settings : Settings
create_settings = record {
  header_table_size = Hpack.table_size;
  enable_push = true;
  max_concurrent_streams = max_concurrent;
  initial_window_size = default_window_size;
  max_frame = default_frame_size;
  max_header_list = Hpack.max_header_list_size;
}
