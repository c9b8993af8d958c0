-- ===== src/Session/Fields.antt =====
-- The fields of a header block of a request: `_method_http2_connection`, `_pseudo_http2_connection`,
-- `_verify_header_http2_connection` and `_header_http2_connection`, with `append_path_http_request`
-- of src/viriatum/http/http_request.c.
use viriatum.Base.{ℕ, ◌+◌, ◌-◌, List, [], ◌∷◌, length}
use viriatum.Base.{get_or, leb, ◌==◌, ◌||◌, not, bit_and, if◌then◌else◌}
use viriatum.Base.{Result, ok, ◌>>◌, raise_if, Option, none, some, Bool, true}
use viriatum.Hpack.{Header}
use viriatum.Hpack.Static.{codes}
use viriatum.Hpack.Table.{bytes_eq}
use viriatum.Http2.{Http2Error, protocol_error}
use viriatum.Session.{Session, url, header_field, header_value, at}
use viriatum.Session.Handlers.{Handler, hear}

abbrev pub max_url_size : ℕ
max_url_size = 4096

abbrev pub max_path_size : ℕ
max_path_size = 1024

-- `http_method_strings`
methods : List (List ℕ)
methods =
    codes "DELETE"
    ∷ codes "GET"
    ∷ codes "HEAD"
    ∷ codes "POST"
    ∷ codes "PUT"
    ∷ codes "CONNECT"
    ∷ codes "OPTIONS"
    ∷ codes "TRACE"
    ∷ codes "COPY"
    ∷ codes "LOCK"
    ∷ codes "MKCOL"
    ∷ codes "MOVE"
    ∷ codes "PROPFIND"
    ∷ codes "PROPPATCH"
    ∷ codes "UNLOCK"
    ∷ codes "REPORT"
    ∷ codes "MKACTIVITY"
    ∷ codes "CHECKOUT"
    ∷ codes "MERGE"
    ∷ codes "M-SEARCH"
    ∷ codes "NOTIFY"
    ∷ codes "SUBSCRIBE"
    ∷ codes "UNSUBSCRIBE"
    ∷ codes "PATCH"
    ∷ []

-- The loop over the table from `index` on.
unfoldable pub method_loop : List (List ℕ) → ℕ → List ℕ → ℕ
method_loop [] index name = 0
method_loop (method ∷ rest) index name =
    if bytes_eq method name then index + 1 else method_loop rest (index + 1) name

unfoldable pub method_of : List ℕ → ℕ
unfolding methods
method_of name = method_loop methods 0 name

-- `struct http2_block_t`
pub record Block : Type 0 where
  pub slot : ℕ
  pub regular : Bool
  pub flushed : Bool
  pub pseudo : ℕ
  pub trailers : Bool

-- The bits of the pseudo headers.
abbrev pub pseudo_method : ℕ
pseudo_method = 0x01

abbrev pub pseudo_scheme : ℕ
pseudo_scheme = 0x02

abbrev pub pseudo_path : ℕ
pseudo_path = 0x04

abbrev pub pseudo_authority : ℕ
pseudo_authority = 0x08

abbrev pub pseudo_required : ℕ
pseudo_required = 0x07

-- The bytes of a string up to the one that ends it.
unfoldable pub c_string : List ℕ → List ℕ
c_string [] = []
c_string (b ∷ bs) = if b == 0 then [] else b ∷ c_string bs

-- An error or none, and what the handling of a field leaves.
abbrev pub Handled : Type 0
Handled = Option Http2Error × Block × Session

abbrev pub refused : Block → Session → Handled
refused b s = (some protocol_error, b, s)

module _ (handler : Handler) where
  -- The authority as the host header, where there is one.
  unfoldable pub hand_authority : ℕ → List ℕ → Session → Session
  hand_authority stream_id authority s =
      if get_or authority 0 0 == 0
      then s
      else hear handler stream_id (header_value (c_string authority))
          (hear handler stream_id (header_field (codes "Host")) s)

  unfoldable pub hand_pseudo : Block → Session → Handled
  hand_pseudo b s =
      let stream = at s.streams b.slot in
      let b' = record b { flushed = true } in
      let told = hear handler stream.stream_id (url stream.request.path) s in
      if b.flushed
      then (none, b, s)
      else if b.trailers
      then (none, b', s)
      else if not (bit_and b.pseudo pseudo_required == pseudo_required)
      then (some protocol_error, b', s)
      else (none, b', hand_authority stream.stream_id stream.request.authority told)

-- A byte that the name of a field is not allowed to have: the controls, the space and the separators.
unfoldable pub is_separator : ℕ → Bool
is_separator v =
    leb v 0x20
    || leb 0x7f v
    || (v == 58)
    || (v == 44)
    || (v == 59)
    || (v == 92)
    || (v == 40)
    || (v == 41)
    || (v == 60)
    || (v == 62)
    || (v == 64)
    || (v == 91)
    || (v == 93)
    || (v == 63)
    || (v == 61)
    || (v == 123)
    || (v == 125)
    || (v == 34)
    || (v == 47)

abbrev pub is_break : ℕ → Bool
is_break v = (v == 13) || (v == 10) || (v == 0)

abbrev pub is_blank : ℕ → Bool
is_blank v = (v == 32) || (v == 9)

unfoldable pub verify_name : List ℕ → Result Http2Error (Unit {0})
verify_name [] = ok tt
verify_name (v ∷ name) = do raise_if (is_separator v) protocol_error; verify_name name

unfoldable pub verify_value : List ℕ → Result Http2Error (Unit {0})
verify_value [] = ok tt
verify_value (v ∷ value) = do raise_if (is_break v) protocol_error; verify_value value

unfoldable pub verify_padding : List ℕ → Result Http2Error (Unit {0})
verify_padding value = if length value == 0 then ok tt else do
  raise_if (is_blank (get_or value 0 0)) protocol_error
  raise_if (is_blank (get_or value (length value - 1) 0)) protocol_error

unfoldable pub verify_header : Header → Result Http2Error (Unit {0})
verify_header h = do verify_name h.name; verify_value h.value; verify_padding h.value
