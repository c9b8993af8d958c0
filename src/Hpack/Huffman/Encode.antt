-- ===== src/Hpack/Huffman/Encode.antt =====
-- `encode_huffman_hpack` of src/viriatum/http/hpack.c as a whole: the bits of the bytes it writes.
use viriatum.Base.{ℕ, zero, suc, ◌+◌, ◌-◌, ◌*◌, ◌/◌, ◌%◌, ◌^◌, ◌≤◌, ◌<◌, arith, List, [], ◌∷◌, ◌++◌}
use viriatum.Base.{
  length, length-append, append-nil, append_assoc, replicate, get_or, ◌≡◌, refl, sym, ap,
}
use viriatum.Base.{◌∙◌, u8, u32, leb, if◌then◌else◌, dec_lt}
use viriatum.Base.{bit_or, bit_and, bit_and-low, two-pow-pos, Result, ok, err, ◌>>=◌, overwrite}
use viriatum.Base.{overwrite-append, length-overwrite}
use viriatum.Hpack.{HpackError, no_space_coded_string}
use viriatum.Hpack.Huffman.{
  Encoding, flush, take_bits, push_bits, push_code, encode_bytes, end_encoding,
}
use viriatum.Hpack.Huffman.{encode_huffman}
use viriatum.Hpack.Huffman.Codes.{codes, lengths}
use viriatum.Hpack.Huffman.BitStrings.{bits_of, bits_of_bytes, bits_of-append, bits_of-mod}
use viriatum.Hpack.Huffman.BitStrings.{bits_of_bytes-append}
use viriatum.Hpack.Huffman.Decode.{symbol_bits, string_bits}
use native.Mathlib.Nat.{le_refl}
use viriatum.Hpack.Huffman.Pending.{pushed, padded_byte}
use viriatum.Hpack.Huffman.Writes.{
  written, Writes, Writes-nothing, Writes->>=, Writes-pushed, bits_of_bytes-∷, flush-Writes,
}

push_bits-pending :
    (e : Encoding) (code size : ℕ)
    → e.count < 8
    → let taken = take_bits e size in
      let e' = push_bits e code size taken in
      bits_of e'.count e'.accumulator
      ≡ bits_of e.count e.accumulator ++ bits_of taken (code / 2 ^ (size - taken))
push_bits-pending e code size few =
    let taken = take_bits e size in
    let part = code / 2 ^ (size - taken) in
    let room : e.count + taken ≤ 32 = ground arith in
    ap (λ x. bits_of (e.count + taken) (bit_or (u32 (e.accumulator * 2 ^ taken)) x))
      (ap (bit_and part) (omega arith) ∙ bit_and-low taken part)
    ∙ pushed e.count taken e.accumulator (part % 2 ^ taken) room (omega (arith, two-pow-pos taken))
    ∙ ap (λ xs. bits_of e.count e.accumulator ++ xs)
        (ap (λ (n : ℕ). bits_of taken (part % 2 ^ n)) (omega arith) ∙ bits_of-mod taken 0 part)

push_code_stop : (fuel : ℕ) (e : Encoding) (code : ℕ) → push_code fuel e code 0 ≡ ok e
unfolding push_code
push_code_stop zero e code = refl
push_code_stop (suc fuel) e code = refl

push_code_step :
    (fuel : ℕ) (e : Encoding) (code size : ℕ)
    → let taken = take_bits e (suc size) in
      let e' = push_bits e code (suc size) taken in
      push_code (suc fuel) e code (suc size)
      ≡ (flush e'.count e' >>= λ e''. push_code fuel e'' code (suc size - taken))
unfolding push_code
push_code_step fuel e code size = ground arith

push_code-Writes :
    (fuel : ℕ) (e : Encoding) (code size : ℕ)
    → e.count < 8
    → size ≤ fuel
    → Writes e (bits_of size code) (push_code fuel e code size)
push_code-Writes fuel e code zero few le =
    rw (push_code_stop fuel e code) (unfold bits_of in Writes-nothing e few)
push_code-Writes zero e code (suc size) few le = absurd (omega arith)
push_code-Writes (suc fuel) e code (suc size) few le =
    let taken = take_bits e (suc size) in
    let left = suc size - taken in
    let e' = push_bits e code (suc size) taken in
    let smaller : left ≤ fuel = ground arith in
    let whole : suc size ≡ taken + left = ground arith in
    let w =
      Writes->>= e' [] (bits_of left code) (flush e'.count e') (λ e''. push_code fuel e'' code left)
        (flush-Writes e'.count e' (le_refl _))
        (λ e'' few''. push_code-Writes fuel e'' code left few'' smaller) in
    let split = ap (λ n. bits_of n code) whole ∙ bits_of-append taken left code in
    rw (push_code_step fuel e code size, split)
      (Writes-pushed e e' _ _ _ (push_bits-pending e code (suc size) few) refl refl w)

symbol_bits-Writes :
    (e : Encoding) (s : ℕ)
    → e.count < 8
    → Writes e
        (symbol_bits s)
        (push_code (get_or lengths s 0) e (get_or codes s 0) (get_or lengths s 0))
unfolding symbol_bits
symbol_bits-Writes e s few = push_code-Writes _ e (get_or codes s 0) _ few (le_refl _)

encode_bytes-Writes :
    (plain : List ℕ) (e : Encoding)
    → e.count < 8
    → Writes e (string_bits plain) (encode_bytes e plain)
unfolding encode_bytes string_bits
encode_bytes-Writes [] e few = Writes-nothing e few
encode_bytes-Writes (s ∷ plain) e few =
    Writes->>= e (symbol_bits s) (string_bits plain) _ (λ e'. encode_bytes e' plain)
      (symbol_bits-Writes e s few) (λ e' few'. encode_bytes-Writes plain e' few')

abbrev start : List ℕ → ℕ → Encoding
start buffer offset = record { buffer = buffer; position = offset; accumulator = 0; count = 0 }

-- What the whole encoding writes.
pub record Coded (buffer : List ℕ) (offset : ℕ) (plain : List ℕ) : Type 0 where
  pub bytes : List ℕ
  pub padding : ℕ
  pub short : padding < 8
  pub stream : bits_of_bytes bytes ≡ string_bits plain ++ replicate padding 1
  pub answer : encode_huffman buffer offset plain ≡ (
      if leb (offset + length bytes) (length buffer)
      then ok (overwrite buffer offset bytes, offset + length bytes)
      else err no_space_coded_string)

pub stored_bytes : List ℕ → ℕ → List ℕ → Result HpackError (List ℕ × ℕ)
stored_bytes buffer offset bytes =
    if leb (offset + length bytes) (length buffer)
    then ok (overwrite buffer offset bytes, offset + length bytes)
    else err no_space_coded_string

finish : Encoding → Result HpackError (List ℕ × ℕ)
finish e = end_encoding e >>= λ e'. ok (e'.buffer, e'.position)

finish_whole :
    (buffer : List ℕ) (offset : ℕ) (bytes : List ℕ) (acc count : ℕ)
    → offset ≤ length buffer
    → count ≡ 0
    → (written (start buffer offset) bytes acc count >>= finish) ≡ stored_bytes buffer offset bytes
unfolding written stored_bytes finish overwrite
finish_whole buffer offset [] acc count le e = ground arith
finish_whole buffer offset (b ∷ bytes) acc count le e = ground arith

finish_padded :
    (buffer : List ℕ) (offset : ℕ) (bytes : List ℕ) (acc count : ℕ)
    → offset ≤ length buffer
    → 0 < count
    → let byte = u8 (bit_or (u32 (acc * 2 ^ (8 - count))) (2 ^ (8 - count) - 1)) in
      (written (start buffer offset) bytes acc count >>= finish)
      ≡ stored_bytes buffer offset (bytes ++ byte ∷ [])
unfolding written stored_bytes finish overwrite
finish_padded buffer offset bytes acc count le pos =
    let byte = u8 (bit_or (u32 (acc * 2 ^ (8 - count))) (2 ^ (8 - count) - 1)) in
    ground (
      arith,
      length-append bytes (byte ∷ []),
      length-overwrite buffer offset bytes,
      overwrite-append buffer offset bytes (byte ∷ []),
    )

pub encode_huffman-Coded :
    (buffer : List ℕ) (offset : ℕ) (plain : List ℕ)
    → offset ≤ length buffer
    → Coded buffer offset plain
unfolding encode_huffman stored_bytes finish
encode_huffman-Coded buffer offset plain le =
    let w = encode_bytes-Writes plain (start buffer offset) (omega arith) in
    elim (dec_lt 0 w.count) [
      | no ge ↦
          let none_left : w.count ≡ 0 = omega arith in
          record {
            bytes = w.bytes;
            padding = 0;
            short = omega arith;
            stream = whole_stream w.bytes plain w.accumulator w.count none_left w.stream;
            answer =
                ap (λ m. m >>= finish) w.answer
                ∙ finish_whole buffer offset w.bytes w.accumulator w.count le none_left;
          }
      | yes pos ↦ record {
        bytes =
            w.bytes
            ++ u8 (bit_or (u32 (w.accumulator * 2 ^ (8 - w.count))) (2 ^ (8 - w.count) - 1)) ∷ [];
        padding = 8 - w.count;
        short = omega arith;
        stream = padded_stream w.bytes plain w.accumulator w.count w.few w.stream;
        answer =
            ap (λ m. m >>= finish) w.answer
            ∙ finish_padded buffer offset w.bytes w.accumulator w.count le pos;
      }
    ]
  where
    whole_stream :
        (bytes plain : List ℕ) (acc count : ℕ)
        → count ≡ 0
        → bits_of 0 0 ++ string_bits plain ≡ bits_of_bytes bytes ++ bits_of count acc
        → bits_of_bytes bytes ≡ string_bits plain ++ replicate 0 1
    whole_stream bytes plain acc count e h =
        let none : bits_of count acc ≡ [] = ap (λ n. bits_of n acc) e ∙ unfold bits_of in refl in
        let ended : bits_of 0 0 ≡ [] = unfold bits_of in refl in
        sym (append-nil (bits_of_bytes bytes)) ∙ cc (none, ended, h, append-nil (string_bits plain))

    padded_stream :
        (bytes plain : List ℕ) (acc count : ℕ)
        → count < 8
        → bits_of 0 0 ++ string_bits plain ≡ bits_of_bytes bytes ++ bits_of count acc
        → bits_of_bytes
            (bytes ++ u8 (bit_or (u32 (acc * 2 ^ (8 - count))) (2 ^ (8 - count) - 1)) ∷ [])
          ≡ string_bits plain ++ replicate (8 - count) 1
    padded_stream bytes plain acc count few h =
        let byte = u8 (bit_or (u32 (acc * 2 ^ (8 - count))) (2 ^ (8 - count) - 1)) in
        let ended : bits_of 0 0 ≡ [] = unfold bits_of in refl in
        let last : bits_of_bytes (byte ∷ []) ≡ bits_of 8 byte =
          bits_of_bytes-∷ byte [] ∙ unfold bits_of_bytes in append-nil (bits_of 8 byte) in
        cc (
          h,
          ended,
          last,
          padded_byte acc count few,
          bits_of_bytes-append bytes (byte ∷ []),
          append_assoc (bits_of_bytes bytes) (bits_of count acc) (replicate (8 - count) 1),
        )
