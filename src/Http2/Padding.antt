-- ===== src/Http2/Padding.antt =====
-- `strip_padding_http2` and `decode_priority_http2` of src/viriatum/http/http2.c.
use viriatum.Base.{ℕ, ◌+◌, ◌-◌, ◌^◌, ◌≤◌, ◌<◌, bit_and, arith, List, ◌∷◌, ◌++◌}
use viriatum.Base.{length, drop, get_or, ltb, leb, ◌==◌, if◌then◌else◌, not}
use viriatum.Base.{Option, none, some, Result, ok, err, ◌≡◌, ◌≢◌, refl, All, IsByte}
use viriatum.Base.{bit_and-two_pow, bit_and-low, get_or-IsByte}
use viriatum.Http2.{
  Http2Error, protocol_error, frame_size_error, Frame, Priority, flag_padded, max_stream_id,
  priority_size,
}
use viriatum.Http2.Number.{decode_number, decode_number-lt}
use mathlib.Core.Option

-- `payload[0]`; the callers hand over a frame whose payload is there.
first_byte : Option (List ℕ) → ℕ
first_byte none = 0
first_byte (some bytes) = get_or bytes 0 0

-- The payload without its padding, as the pointer and the size.
pub strip_padding : Frame → Result Http2Error (Option (List ℕ) × ℕ)
unfolding first_byte
strip_padding f =
    if bit_and f.flags flag_padded == 0
    then ok (f.payload, f.size)
    else if ltb f.size 1
    then err protocol_error
    else if leb f.size (first_byte f.payload)
    then err protocol_error
    else ok (Option.map (drop 1) f.payload, f.size - 1 - first_byte f.payload)

pub decode_priority : List ℕ → Result Http2Error Priority
decode_priority bytes =
    let dependency = decode_number bytes 0 in
    if not (length bytes == priority_size)
    then err frame_size_error
    else ok (record {
      exclusive = not (bit_and dependency 0x80000000 == 0);
      dependency = bit_and dependency max_stream_id;
      weight = get_or bytes 4 0 + 1;
    })

strip_padding-payload :
    (f : Frame) (bytes : List ℕ)
    → f.payload ≡ some bytes
    → strip_padding f ≡ (
        if bit_and f.flags flag_padded == 0
        then ok (some bytes, f.size)
        else if ltb f.size 1
        then err protocol_error
        else if leb f.size (get_or bytes 0 0)
        then err protocol_error
        else ok (some (drop 1 bytes), f.size - 1 - get_or bytes 0 0))
unfolding strip_padding
strip_padding-payload f bytes e = simp e

-- The padded payload of a content, as a peer builds it: `strip_padding_http2` gives the content back.
pub strip_padding_content :
    (f : Frame) (content padding rest : List ℕ)
    → bit_and f.flags flag_padded ≢ 0
    → f.size ≡ 1 + length content + length padding
    → f.payload ≡ some (length padding ∷ (content ++ (padding ++ rest)))
    → strip_padding f ≡ ok (some (content ++ (padding ++ rest)), length content)
strip_padding_content f content padding rest p s e =
    rw (strip_padding-payload f _ e) (ground (arith, p, s))

-- Five bytes of the priority of a stream decode to it: the exclusive flag is the top bit, the
-- weight is one more than its byte. Any other number of bytes is refused.
pub decode_priority_lem :
    (bytes : List ℕ)
    → All IsByte bytes
    → (length bytes ≢ 5 → decode_priority bytes ≡ err frame_size_error)
      × (length bytes ≡ 5
          → (p : Priority) × (decode_priority bytes ≡ ok p)
            × (decode_number bytes 0 ≡ (if p.exclusive then 2 ^ 31 else 0) + p.dependency)
            × (p.dependency < 2 ^ 31)
            × (1 ≤ p.weight)
            × (p.weight ≤ 256)
            × (p.weight ≡ get_or bytes 4 0 + 1))
unfolding decode_priority
decode_priority_lem bytes h =
    let n = decode_number bytes 0 in
    let top = bit_and-two_pow 31 n in
    let low = bit_and-low 31 n in
    let small = decode_number-lt bytes 0 h in
    (
      λ ne. ground arith,
      λ e. (
        record {
          exclusive = not (bit_and n 0x80000000 == 0);
          dependency = bit_and n max_stream_id;
          weight = get_or bytes 4 0 + 1;
        },
        ground arith,
        ground (arith, top, low, small),
        omega (arith, low),
        omega arith,
        omega (arith, get_or-IsByte bytes 4 h),
        refl,
      ),
    )

-- Five bytes always decode.
pub decode_priority_total :
    (bytes : List ℕ) → length bytes ≡ 5 → (p : Priority) × (decode_priority bytes ≡ ok p)
unfolding decode_priority
decode_priority_total bytes e =
    let n = decode_number bytes 0 in
    (
      record {
        exclusive = not (bit_and n 0x80000000 == 0);
        dependency = bit_and n max_stream_id;
        weight = get_or bytes 4 0 + 1;
      },
      ground arith,
    )
