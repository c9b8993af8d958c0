-- ===== src/Http2/Framing.antt =====
-- `decode_frame_http2` and `encode_frame_http2` of src/viriatum/http/http2.c: the header of a frame.
use viriatum.Base.{ℕ, ◌+◌, ◌*◌, ◌/◌, ◌%◌, ◌^◌, ◌≤◌, ◌<◌, bit_and, bit_or, arith, List, ◌∷◌}
use viriatum.Base.{
  length, drop, get_or, get_or_of_get_elem?, set, u8, ◌<<<◌, ◌>>>◌, overwrite, Holds,
}
use viriatum.Base.{
  bit_or-add, bit_and-low, Holds-overwrite, Holds-length, le→ltb-false, length-overwrite,
  drop-overwrite,
}
use viriatum.Base.{none, some, ltb, if◌then◌else◌, Result, ok, err, ◌≡◌, refl, ap, sym, ◌∙◌}
use viriatum.Http2.{
  Http2Error, frame_size_error, Frame, frame_header_size, max_frame_size, max_stream_id,
}
use viriatum.Http2.Number.{
  decode_number, encode_number, number_bytes, encode_number-bytes, decode_number-bytes,
}

-- The fields, once the header is known to be there.
read_header : List ℕ → Frame
read_header bytes =
    let size =
      bit_or (bit_or (get_or bytes 0 0 <<< 16) (get_or bytes 1 0 <<< 8)) (get_or bytes 2 0) in
    record {
      size = size;
      type = get_or bytes 3 0;
      flags = get_or bytes 4 0;
      stream_id = bit_and (decode_number bytes 5) max_stream_id;
      payload =
          if ltb (length bytes) (frame_header_size + size)
          then none
          else some (drop frame_header_size bytes);
    }

unfoldable pub decode_frame : List ℕ → Result Http2Error Frame
unfolding read_header
decode_frame bytes =
    if ltb (length bytes) frame_header_size then err frame_size_error else ok (read_header bytes)

-- The buffer written.
unfoldable pub encode_frame : List ℕ → ℕ → ℕ → ℕ → ℕ → Result Http2Error (List ℕ)
encode_frame buffer size type flags stream_id =
    if ltb (length buffer) frame_header_size
    then err frame_size_error
    else if ltb max_frame_size size
    then err frame_size_error
    else let b0 = set buffer 0 (u8 (bit_and (size >>> 16) 0xff)) in
      let b1 = set b0 1 (u8 (bit_and (size >>> 8) 0xff)) in
      let b2 = set b1 2 (u8 (bit_and size 0xff)) in
      let b3 = set b2 3 type in
      let b4 = set b3 4 flags in ok (encode_number b4 5 (bit_and stream_id max_stream_id))

-- The nine bytes of a header.
unfoldable pub frame_bytes : ℕ → ℕ → ℕ → ℕ → List ℕ
frame_bytes size type flags stream_id =
    (size / 2 ^ 16 % 256)
    ∷ (size / 2 ^ 8 % 256)
    ∷ (size % 256)
    ∷ type
    ∷ flags
    ∷ number_bytes (stream_id % 2 ^ 31)

pub length-frame_bytes :
    (size type flags stream_id : ℕ) → length (frame_bytes size type flags stream_id) ≡ 9
unfolding frame_bytes number_bytes
length-frame_bytes size type flags stream_id = refl

and_ff : (x : ℕ) → u8 (bit_and x 0xff) ≡ x % 256
and_ff x = omega (arith, bit_and-low 8 x)

-- A buffer with room for the header and a size of at most 2^24 - 1: the nine bytes are stored at
-- the start of the buffer, and nothing else. Otherwise the answer is the frame size error.
pub encode_frame-bytes :
    (buffer : List ℕ) (size type flags stream_id : ℕ)
    → encode_frame buffer size type flags stream_id ≡ (
        if ltb (length buffer) 9
        then err frame_size_error
        else if ltb max_frame_size size
        then err frame_size_error
        else ok (overwrite buffer 0 (frame_bytes size type flags stream_id)))
unfolding encode_frame frame_bytes overwrite
encode_frame-bytes buffer size type flags stream_id = rw (
  and_ff (size / 2 ^ 16),
  and_ff (size / 2 ^ 8),
  and_ff size,
  encode_number-bytes,
  bit_and-low 31 stream_id,
)

three_bytes :
    (a b c : ℕ)
    → b < 256
    → c < 256
    → bit_or (bit_or (a * 2 ^ 16) (b * 2 ^ 8)) c ≡ a * 2 ^ 16 + b * 2 ^ 8 + c
three_bytes a b c hb hc =
    let two = bit_or-add 16 a (a * 2 ^ 16) (b * 2 ^ 8) refl (omega arith) in
    let three = bit_or-add 8 (a * 256 + b) (a * 2 ^ 16 + b * 2 ^ 8) c (omega arith) (omega arith) in
    rw (two, three)

read_header-bytes :
    (bytes : List ℕ) (size type flags stream_id : ℕ)
    → size ≤ max_frame_size
    → Holds bytes 0 (frame_bytes size type flags stream_id)
    → read_header bytes ≡ record {
      size = size;
      type = type;
      flags = flags;
      stream_id = stream_id % 2 ^ 31;
      payload = if ltb (length bytes) (9 + size) then none else some (drop 9 bytes);
    }
unfolding read_header frame_bytes
read_header-bytes bytes size type flags stream_id h (h0, (h1, (h2, (h3, (h4, rest))))) =
    let whole : size / 2 ^ 16 % 256 * 2 ^ 16 + size / 2 ^ 8 % 256 * 2 ^ 8 + size % 256 ≡ size =
      omega arith in
    let id = decode_number-bytes bytes 5 (stream_id % 2 ^ 31) (omega arith) rest in
    let low : bit_and (stream_id % 2 ^ 31) max_stream_id ≡ stream_id % 2 ^ 31 =
      bit_and-low 31 (stream_id % 2 ^ 31) ∙ omega arith in
    rw (
      get_or_of_get_elem? bytes 0 _ 0 h0,
      get_or_of_get_elem? bytes 1 _ 0 h1,
      get_or_of_get_elem? bytes 2 _ 0 h2,
      get_or_of_get_elem? bytes 3 _ 0 h3,
      get_or_of_get_elem? bytes 4 _ 0 h4,
      three_bytes (size / 2 ^ 16 % 256) (size / 2 ^ 8 % 256) (size % 256) (omega arith)
          (omega arith),
      whole,
      id,
      low,
    )

-- A buffer that starts with a header of the encoder.
pub decode_frame-bytes :
    (bytes : List ℕ) (size type flags stream_id : ℕ)
    → size ≤ max_frame_size
    → Holds bytes 0 (frame_bytes size type flags stream_id)
    → decode_frame bytes
      ≡ ok (record {
        size = size;
        type = type;
        flags = flags;
        stream_id = stream_id % 2 ^ 31;
        payload = if ltb (length bytes) (9 + size) then none else some (drop 9 bytes);
      })
unfolding decode_frame frame_bytes
decode_frame-bytes bytes size type flags stream_id h holds =
    let long =
      Holds-length bytes 0 (frame_bytes size type flags stream_id) holds
        (omega (arith, length-frame_bytes size type flags stream_id)) in
    rw (
      le→ltb-false (length bytes) 9
          (omega (arith, long, length-frame_bytes size type flags stream_id)),
      read_header-bytes bytes size type flags stream_id h holds,
    )

stored :
    (n size : ℕ) (written buffer' : List ℕ)
    → ◌≡◌ {A = Result Http2Error (List ℕ)}
        (if ltb n 9
          then err frame_size_error
          else if ltb max_frame_size size
          then err frame_size_error
          else ok written)
        (ok buffer')
    → (9 ≤ n) × (size ≤ max_frame_size) × (written ≡ buffer')
stored n size written buffer' e = ground arith

-- What `encode_frame_http2` stores, `decode_frame_http2` reads back
-- from the start of the buffer: the size, the type, the flags and the 31 low bits of the stream. The
-- payload is what follows the nine bytes if the buffer holds all of it, and null otherwise.
pub decode_frame-encode_frame :
    (buffer : List ℕ) (size type flags stream_id : ℕ) (buffer' : List ℕ)
    → encode_frame buffer size type flags stream_id ≡ ok buffer'
    → (length buffer' ≡ length buffer)
      × (decode_frame buffer'
          ≡ ok (record {
            size = size;
            type = type;
            flags = flags;
            stream_id = stream_id % 2 ^ 31;
            payload = if ltb (length buffer) (9 + size) then none else some (drop 9 buffer');
          }))
      × (drop 9 buffer' ≡ drop 9 buffer)
decode_frame-encode_frame buffer size type flags stream_id buffer' e =
    let bytes = frame_bytes size type flags stream_id in
    let (room, small, same) =
      stored (length buffer) size (overwrite buffer 0 bytes) buffer'
        (sym (encode_frame-bytes buffer size type flags stream_id) ∙ e) in
    let nine = length-frame_bytes size type flags stream_id in
    let long : length buffer' ≡ length buffer =
      ap length (sym same) ∙ length-overwrite buffer 0 bytes in
    let holds = Holds-overwrite buffer 0 bytes (omega arith) in
    (
      long,
      decode_frame-bytes buffer' size type flags stream_id small (rw same at holds) ∙ rw long,
      rw (← same) (drop-overwrite buffer 0 9 bytes (omega arith)),
    )
