-- ===== src/Session/Blocks.antt =====
-- The handling of a header block: `_header_http2_connection` and `_block_http2_connection`.
use viriatum.Base.{ℕ, ◌+◌, ◌-◌, ◌*◌, ◌%◌, ◌^◌, List, [], ◌∷◌, ◌++◌, length, modify}
use viriatum.Base.{get_or, take, ltb, leb, ◌==◌, ◌&&◌, ◌||◌, not, bit_and, bit_or, if◌then◌else◌}
use viriatum.Base.{Result, ok, err, Option, none, some, Bool, true, false}
use viriatum.Hpack.{Header}
use viriatum.Hpack.Static.{codes}
use viriatum.Hpack.Table.{bytes_eq}
use viriatum.Hpack.Block.{decode_block, Decoded}
use viriatum.Http2.{Http2Error, compression_error}
use viriatum.Session.{
  Stream, Session, Request, http, https, set, message_begin, headers_complete, message_complete,
  header_field, header_value, at,
}
use viriatum.Session.Streams.{activate}
use viriatum.Session.Handlers.{Handler, hear, take_handler, served_by}
use viriatum.Session.Fields.{
  Block, Handled, refused, method_of, pseudo_method, pseudo_scheme, pseudo_path, pseudo_authority,
  max_url_size, max_path_size, hand_pseudo, verify_header,
}

abbrev pub change : ℕ → (Stream → Stream) → Session → Session
change slot f s = record s { streams = modify s.streams slot f }

abbrev pub with_request : (Request → Request) → Stream → Stream
with_request f stream = record stream { request = f stream.request }

-- A pseudo header that is not a second one of its kind, with its bit set.
unfoldable pub once : ℕ → Block → Session → (Block → Handled) → Handled
once bit b s next =
    if bit_and b.pseudo bit == 0
    then next (record b { pseudo = bit_or b.pseudo bit })
    else refused b s

unfoldable pub header_method : Block → Session → List ℕ → Handled
header_method b s value =
    let s' = change b.slot (with_request (λ r. record r { method = method_of value })) s in
    if method_of value == 0 then refused b s' else (none, b, s')

unfoldable pub header_scheme : Block → Session → List ℕ → Handled
header_scheme b s value =
    if bytes_eq value (codes "https")
    then (none, b, change b.slot (with_request (λ r. record r { scheme = https })) s)
    else if bytes_eq value (codes "http")
    then (none, b, change b.slot (with_request (λ r. record r { scheme = http })) s)
    else refused b s

-- `append_path_http_request`
unfoldable pub append_path : List ℕ → Request → Request
append_path value r = record r { path = r.path ++ take (max_url_size - length r.path - 1) value }

unfoldable pub header_path : Block → Session → List ℕ → Handled
header_path b s value =
    if length value == 0
    then refused b s
    else (none, b, change b.slot (with_request (append_path value)) s)

unfoldable pub header_authority : Block → Session → List ℕ → Handled
header_authority b s value =
    if leb max_path_size (length value)
    then refused b s
    else (none, b, change b.slot (with_request (λ r. record r { authority = value })) s)

unfoldable pub header_pseudo : Block → Session → Header → Handled
header_pseudo b s h =
    if b.regular || b.trailers
    then refused b s
    else if bytes_eq h.name (codes ":method")
    then once pseudo_method b s (λ b'. header_method b' s h.value)
    else if bytes_eq h.name (codes ":scheme")
    then once pseudo_scheme b s (λ b'. header_scheme b' s h.value)
    else if bytes_eq h.name (codes ":path")
    then once pseudo_path b s (λ b'. header_path b' s h.value)
    else if bytes_eq h.name (codes ":authority")
    then once pseudo_authority b s (λ b'. header_authority b' s h.value)
    else refused b s

unfoldable pub has_upper : List ℕ → Bool
has_upper [] = false
has_upper (v ∷ name) = (leb 65 v && leb v 90) || has_upper name

-- The fields of a connection of HTTP/1.1, and `te` with any other value than the one it may have.
unfoldable pub forbidden : Header → Bool
forbidden h =
    bytes_eq h.name (codes "connection")
    || bytes_eq h.name (codes "keep-alive")
    || bytes_eq h.name (codes "upgrade")
    || bytes_eq h.name (codes "transfer-encoding")
    || (bytes_eq h.name (codes "te") && not (bytes_eq h.value (codes "trailers")))

-- The loop over the digits: whether they all are, and the value in a `size_t`.
unfoldable pub read_digits : List ℕ → ℕ → Bool × ℕ
read_digits [] value = (true, value)
read_digits (v ∷ digits) value =
    if ltb v 48 || ltb 57 v
    then (false, value)
    else read_digits digits ((value * 10 + (v - 48)) % 2 ^ 64)

abbrev pub announce : Bool × ℕ → Stream → Stream
announce (whole, value) stream = record stream {
  content_length = value;
  announced = if whole then true else stream.announced;
}

-- The length of the payload that the message announces.
unfoldable pub header_length : Block → Session → Header → Handled
header_length b s h =
    let read = read_digits h.value 0 in
    let s' = change b.slot (announce read) s in
    if bytes_eq h.name (codes "content-length")
    then if read.0 then (none, b, s') else refused b s'
    else (none, b, s)

abbrev pub and_then : Handled → (Block → Session → Handled) → Handled
and_then (some e, b, s) next = (some e, b, s)
and_then (none, b, s) next = next b s

unfoldable pub verified : Block → Session → Result Http2Error (Unit {0}) → Handled
verified b s (err e) = (some e, b, s)
verified b s (ok _) = (none, b, s)

module _ (handler : Handler) where
  -- The field in the shape of HTTP/1.1.
  unfoldable pub hand_field : Block → Session → Header → Handled
  hand_field b s h =
      let id = (at s.streams b.slot).stream_id in
      (none, b, hear handler id (header_value h.value) (hear handler id (header_field h.name) s))

  -- The checks of a regular field, in their order.
  unfoldable pub check_field : Block → Session → Header → Handled
  check_field b s h =
      if has_upper h.name
      then refused b s
      else and_then (verified b s (verify_header h)) (λ b' s'.
        if forbidden h
        then refused b' s'
        else and_then (header_length b' s' h) (λ b'' s''. hand_field b'' s'' h))

  unfoldable pub header_regular : Block → Session → Header → Handled
  header_regular b s h =
      let closed = if b.regular then (none, b, s) else hand_pseudo handler b s in
      and_then closed (λ b' s'. check_field (record b' { regular = true }) s' h)

  unfoldable pub header : Block → Session → Header → Handled
  header b s h =
      if not (length h.name == 0) && (get_or h.name 0 0 == 58)
      then header_pseudo b s h
      else header_regular b s h

  -- The callback of the decoder: zero, or the code of a protocol error, which each of its errors is.
  unfoldable pub header_code : Handled → ℕ × (Block × Session)
  header_code (none, b, s) = (0, (b, s))
  header_code (some e, b, s) = (1, (b, s))

  unfoldable pub on_header : Block × Session → Header → ℕ × (Block × Session)
  on_header (b, s) h = header_code (header b s h)

  -- The base handler of the connection is set on a stream that has none.
  unfoldable pub serve : ℕ → Option ℕ → Session → Session
  serve slot (some serving) s = s
  serve slot none s =
      let id = (at s.streams slot).stream_id in
      take_handler (hear handler id set (activate (change slot (served_by s.base_handler) s) slot))
        slot

  unfoldable pub begin_message : ℕ → Bool → Session → Session
  begin_message id true s = s
  begin_message id false s = hear handler id message_begin s

  abbrev pub headers_done : Stream → Stream
  headers_done stream = record stream { headers_complete = true }

  unfoldable pub complete_headers : Block → Session → Session
  complete_headers b s =
      let id = (at s.streams b.slot).stream_id in
      if b.trailers then s else hear handler id headers_complete (change b.slot headers_done s)

  unfoldable pub complete_message : ℕ → Session → Session
  complete_message slot s =
      let stream = at s.streams slot in
      if stream.end_stream then hear handler stream.stream_id message_complete s else s

  -- The end of a block whose fields have been handled.
  unfoldable pub end_block : Handled → Option Http2Error × Session
  end_block (some e, b, s) = (some e, s)
  end_block (none, b, s) =
      (none, complete_message b.slot (take_handler (complete_headers b s) b.slot))

  unfoldable pub after_block : Decoded (Block × Session) → Option Http2Error × Session
  after_block (some e, table, (b, s)) = (some compression_error, record s { decoder = table })
  after_block (none, table, (b, s)) =
      end_block (hand_pseudo handler b (record s { decoder = table }))

  unfoldable pub handle_block : Session → ℕ → List ℕ → Option Http2Error × Session
  handle_block s slot block =
      let stream = at s.streams slot in
      let b : Block = record {
        slot = slot;
        regular = false;
        flushed = false;
        pseudo = 0;
        trailers = stream.headers_complete;
      } in
      let served = activate (serve slot stream.http_handler s) slot in
      let begun = begin_message stream.stream_id b.trailers served in
      after_block (decode_block on_header begun.decoder block (b, begun))
