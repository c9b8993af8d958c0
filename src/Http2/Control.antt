-- ===== src/Http2/Control.antt =====
-- `encode_value_http2` and `encode_goaway_http2` of src/viriatum/http/http2.c: frames of a fixed size.
use viriatum.Base.{
  ℕ, ◌+◌, ◌%◌, ◌^◌, ◌≤◌, ◌<◌, bit_and, arith, List, ◌++◌, length, length-append, drop,
}
use viriatum.Base.{
  overwrite, overwrite-append, length-overwrite, Holds, Holds-overwrite, Holds-append, bit_and-low,
}
use viriatum.Base.{
  some, ltb, le→ltb-false, if◌then◌else◌, Result, ok, err, ◌>>=◌, ◌≡◌, refl, ap, sym, ◌∙◌,
}
use viriatum.Http2.{Http2Error, frame_size_error, frame_header_size, max_stream_id}
use viriatum.Http2.Number.{
  decode_number, encode_number, number_bytes, encode_number-bytes, decode_number-bytes,
}
use viriatum.Http2.Framing.{
  decode_frame, encode_frame, encode_frame-bytes, frame_bytes, decode_frame-bytes,
  length-frame_bytes,
}

-- The buffer written and the size of the frame.
pub encode_value : List ℕ → ℕ → ℕ → ℕ → Result Http2Error (List ℕ × ℕ)
encode_value buffer type stream_id value =
    if ltb (length buffer) (frame_header_size + 4) then err frame_size_error else do
      framed ← encode_frame buffer 4 type 0x00 stream_id
      ok (encode_number framed frame_header_size value, frame_header_size + 4)

pub encode_goaway : List ℕ → ℕ → ℕ → Result Http2Error (List ℕ × ℕ)
encode_goaway buffer last_stream_id error =
    if ltb (length buffer) (frame_header_size + 8) then err frame_size_error else do
      framed ← encode_frame buffer 8 0x07 0x00 0
      let last = encode_number framed frame_header_size (bit_and last_stream_id max_stream_id)
      ok (encode_number last (frame_header_size + 4) error, frame_header_size + 8)

-- A header at the start of the buffer and then its payload, `bs`.
record Framed (size type stream_id : ℕ) (bs buffer' : List ℕ) : Type 0 where
  decoded :
      decode_frame buffer'
      ≡ ok (record {
        size = size;
        type = type;
        flags = 0x00;
        stream_id = stream_id % 2 ^ 31;
        payload = some (drop 9 buffer');
      })
  behind : Holds buffer' 9 bs

Framed-payload :
    (buffer : List ℕ) (size type stream_id : ℕ) (bs : List ℕ)
    → length bs ≡ size
    → size ≤ 100
    → 9 + size ≤ length buffer
    → Framed size type stream_id bs
        (overwrite (overwrite buffer 0 (frame_bytes size type 0x00 stream_id)) 9 bs)
Framed-payload buffer size type stream_id bs e small room =
    let head = frame_bytes size type 0x00 stream_id in
    let nine = length-frame_bytes size type 0x00 stream_id in
    let joined : overwrite (overwrite buffer 0 head) 9 bs ≡ overwrite buffer 0 (head ++ bs) =
      ap (λ k. overwrite (overwrite buffer 0 head) k bs) (sym nine ∙ omega arith)
      ∙ sym (overwrite-append buffer 0 head bs) in
    let all : Holds (overwrite buffer 0 (head ++ bs)) 0 (head ++ bs) =
      Holds-overwrite buffer 0 (head ++ bs) (omega (arith, length-append head bs, nine)) in
    let (front, back) = Holds-append _ 0 head bs all in
    let place : 0 + length head ≡ 9 = omega (arith, nine) in
    let long = length-overwrite buffer 0 (head ++ bs) in
    rw joined (record {
      decoded =
          decode_frame-bytes (overwrite buffer 0 (head ++ bs)) size type 0x00 stream_id
            (omega arith) front
          ∙ rw (
              le→ltb-false (length (overwrite buffer 0 (head ++ bs))) (9 + size)
                (omega (arith, long)));
      behind = rw place at back;
    })

length-number_bytes : (v : ℕ) → length (number_bytes v) ≡ 4
unfolding number_bytes
length-number_bytes v = refl

value_written :
    (buffer : List ℕ) (type stream_id value : ℕ)
    → 13 ≤ length buffer
    → encode_value buffer type stream_id value
      ≡ ok (
        overwrite (overwrite buffer 0 (frame_bytes 4 type 0x00 stream_id)) 9 (number_bytes value),
        13,
      )
unfolding encode_value
value_written buffer type stream_id value room = rw (
  le→ltb-false (length buffer) 13 room,
  encode_frame-bytes,
  le→ltb-false (length buffer) 9 (omega arith),
  encode_number-bytes,
)

-- With room for thirteen bytes the buffer starts with a frame of the type and stream, whose payload
-- of four bytes reads as the value, and 13 is the size; with less room the answer is an error.
pub encode_value_lem :
    (buffer : List ℕ) (type stream_id value : ℕ)
    → value < 2 ^ 32
    → (length buffer < 13 → encode_value buffer type stream_id value ≡ err frame_size_error)
      × (13 ≤ length buffer
          → (buffer' : List ℕ) × (encode_value buffer type stream_id value ≡ ok (buffer', 13))
            × (decode_frame buffer'
                ≡ ok (record {
                  size = 4;
                  type = type;
                  flags = 0x00;
                  stream_id = stream_id % 2 ^ 31;
                  payload = some (drop 9 buffer');
                }))
            × (decode_number buffer' 9 ≡ value))
unfolding encode_value
encode_value_lem buffer type stream_id value h = (
  λ short. ground arith,
  λ room.
      let f =
        Framed-payload buffer 4 type stream_id (number_bytes value) (length-number_bytes value)
          (omega arith) (omega arith) in
      (
        _,
        value_written buffer type stream_id value room,
        f.decoded,
        decode_number-bytes _ 9 value h f.behind,
      ),
)

goaway_written :
    (buffer : List ℕ) (last_stream_id error : ℕ)
    → 17 ≤ length buffer
    → encode_goaway buffer last_stream_id error
      ≡ ok (
        overwrite
            (overwrite buffer 0 (frame_bytes 8 0x07 0x00 0))
            9
            (number_bytes (last_stream_id % 2 ^ 31) ++ number_bytes error),
        17,
      )
unfolding encode_goaway
goaway_written buffer last_stream_id error room = rw (
  le→ltb-false (length buffer) 17 room,
  encode_frame-bytes,
  le→ltb-false (length buffer) 9 (omega arith),
  encode_number-bytes,
  encode_number-bytes,
  bit_and-low 31 last_stream_id,
  overwrite-append,
  length-number_bytes,
)

-- With room for seventeen bytes the buffer starts with a GOAWAY frame of the connection, whose
-- payload reads as the 31 low bits of the last stream and then the error; 17 is the size. With less
-- room the answer is an error.
pub encode_goaway_lem :
    (buffer : List ℕ) (last_stream_id error : ℕ)
    → error < 2 ^ 32
    → (length buffer < 17 → encode_goaway buffer last_stream_id error ≡ err frame_size_error)
      × (17 ≤ length buffer
          → (buffer' : List ℕ) × (encode_goaway buffer last_stream_id error ≡ ok (buffer', 17))
            × (decode_frame buffer'
                ≡ ok (record {
                  size = 8;
                  type = 0x07;
                  flags = 0x00;
                  stream_id = 0;
                  payload = some (drop 9 buffer');
                }))
            × (decode_number buffer' 9 ≡ last_stream_id % 2 ^ 31)
            × (decode_number buffer' 13 ≡ error))
unfolding encode_goaway
encode_goaway_lem buffer last_stream_id error h = (
  λ short. ground arith,
  λ room.
      let last = number_bytes (last_stream_id % 2 ^ 31) in
      let eight : length (last ++ number_bytes error) ≡ 8 = omega (
        arith,
        length-append last (number_bytes error),
        length-number_bytes error,
        length-number_bytes (last_stream_id % 2 ^ 31),
      ) in
      let f =
        Framed-payload buffer 8 0x07 0 (last ++ number_bytes error) eight (omega arith)
          (omega arith) in
      let (front, back) = Holds-append _ 9 last (number_bytes error) f.behind in
      let place : 9 + length last ≡ 13 =
        omega (arith, length-number_bytes (last_stream_id % 2 ^ 31)) in
      (
        _,
        goaway_written buffer last_stream_id error room,
        f.decoded,
        decode_number-bytes _ 9 (last_stream_id % 2 ^ 31) (omega arith) front,
        decode_number-bytes _ 13 error h (rw place at back),
      ),
)
