-- ===== src/Hpack/Integer.antt =====
-- `decode_integer_hpack` and `encode_integer_hpack` of src/viriatum/http/hpack.c. A buffer and its
-- size are one list; `offset` and the value come back beside it. After an error the source leaves
-- `offset` alone, and no caller reads the buffer.
pub mod Bytes
pub mod Encode
pub mod RoundTrip
pub mod Bounds
mod Tests
use viriatum.Base.{ℕ, ◌+◌, ◌-◌, ◌*◌, ◌/◌, ◌%◌, ◌^◌, ◌≤◌, ◌<◌, bit_and, bit_or, arith}
use viriatum.Base.{List, [], ◌∷◌, length, drop, set, ltb, leb, ◌==◌, if◌then◌else◌}
use viriatum.Base.{◌<<<◌, ◌>>>◌, u8, lt_wf, Result, ok, err, ◌>>=◌, ◌>>◌, raise_if}
use viriatum.Hpack.{
  HpackError, truncated_integer, overflowing_integer, no_space_integer, max_integer,
}
use mathlib.Core.Logic.{dite}
use mathlib.Core.WellFounded.{Acc}
use native.Mathlib.Decide.{dec_le}

-- The list is `data[position .. data_size)`.
decode_integer_loop : List ℕ → ℕ → ℕ → ℕ → Result HpackError (ℕ × ℕ)
decode_integer_loop [] position result shift = err truncated_integer
decode_integer_loop (byte ∷ rest) position result shift =
    let result' = (result + bit_and byte 0x7f <<< shift) % 2 ^ 64 in
    let more = decode_integer_loop rest (position + 1) result' (shift + 7) in
    if ltb 21 shift
    then err overflowing_integer
    else if ltb max_integer result'
    then err overflowing_integer
    else if bit_and byte 0x80 == 0
    then ok (position + 1, result')
    else more

decode_integer_first : List ℕ → ℕ → ℕ → Result HpackError (ℕ × ℕ)
decode_integer_first [] position mask = err truncated_integer
decode_integer_first (byte ∷ rest) position mask =
    if ltb (bit_and byte mask) mask
    then ok (position + 1, bit_and byte mask)
    else decode_integer_loop rest (position + 1) (bit_and byte mask) 0

-- The new offset and the value.
pub decode_integer : List ℕ → ℕ → ℕ → Result HpackError (ℕ × ℕ)
unfolding decode_integer_first decode_integer_loop
decode_integer buffer offset prefix =
    decode_integer_first (drop offset buffer) offset (1 <<< prefix - 1)

pub shift_shrinks : (v : ℕ) → 128 ≤ v → v / 2 ^ 7 < v
shift_shrinks v h = omega arith

-- `if(position >= buffer_size) { RAISE_ERROR } buffer[position] = byte;`
abbrev write_byte : List ℕ → ℕ → ℕ → Result HpackError (List ℕ)
write_byte buffer position byte =
    if leb (length buffer) position then err no_space_integer else ok (set buffer position byte)

unfoldable pub encode_integer_loop :
    List ℕ → ℕ → (value : ℕ) → Acc ◌<◌ value → Result HpackError (List ℕ × ℕ)
encode_integer_loop buffer position value (Acc.intro _ smaller) =
    dite (dec_le 128 value)
      (λ more. do
        buffer' ← write_byte buffer position (u8 (bit_or (bit_and value 0x7f) 0x80))
        encode_integer_loop buffer' (position + 1) (value >>> 7)
            (smaller _ (shift_shrinks value more)))
      (λ _. do buffer' ← write_byte buffer position (u8 value); ok (buffer', position + 1))

-- The buffer written and the new offset.
unfoldable pub encode_integer : List ℕ → ℕ → ℕ → ℕ → ℕ → Result HpackError (List ℕ × ℕ)
encode_integer buffer offset prefix flags value =
    let mask = 1 <<< prefix - 1 in
    if leb (length buffer) offset
    then err no_space_integer
    else if ltb value mask
    then ok (set buffer offset (u8 (bit_or flags value)), offset + 1)
    else encode_integer_loop (set buffer offset (u8 (bit_or flags mask))) (offset + 1)
        (value - mask) (lt_wf.apply (value - mask))
