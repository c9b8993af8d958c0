-- ===== src/Hpack/Huffman.antt =====
-- `decode_huffman_hpack`, `encode_huffman_hpack` and `size_huffman_hpack` of
-- src/viriatum/http/hpack.c. The decoded string is the list of the bytes stored so far; the coded
-- one is written into a buffer from a position on, and the position behind it comes back.
pub mod Codes
pub mod BitStrings
pub mod Decode
pub mod Pending
pub mod Writes
pub mod Encode
pub mod RoundTrip
pub mod Bounds
mod Tests
use viriatum.Base.{ℕ, zero, suc, ◌+◌, ◌-◌, ◌/◌, ◌%◌, ◌*◌, ◌^◌, bit_and, bit_or}
use viriatum.Base.{List, [], ◌∷◌, ◌++◌, length, get_or, set, ltb, leb, ◌==◌, ◌&&◌, ◌||◌, not}
use viriatum.Base.{if◌then◌else◌, ◌<<<◌, ◌>>>◌, u8, u32, Result, ok, err, ◌>>=◌, ◌>>◌, raise_if}
use viriatum.Hpack.{HpackError, invalid_huffman_code, end_of_string_symbol}
use viriatum.Hpack.{decoded_string_above_size, padding_above_byte, invalid_padding}
use viriatum.Hpack.{no_space_coded_string, huffman_max_bits, huffman_eos}
use viriatum.Hpack.Huffman.Codes.{codes, lengths, symbols, counts, first_code, first_index}

-- What the decoder has accumulated: the bytes stored, the code and its number of bits.
pub record Decoding : Type 0 where
  pub stored : List ℕ
  pub code : ℕ
  pub bits : ℕ

-- A code of the table: its symbol is stored.
store_symbol : Decoding → ℕ → ℕ → Result HpackError Decoding
store_symbol d buffer_size symbol = do
  raise_if (symbol == huffman_eos) end_of_string_symbol
  raise_if (leb buffer_size (length d.stored)) decoded_string_above_size
  ok (record { stored = d.stored ++ u8 symbol ∷ []; code = 0; bits = 0 })

-- The body of the inner loop, for one bit.
pub decode_bit : ℕ → Decoding → ℕ → Result HpackError Decoding
unfolding store_symbol
decode_bit buffer_size d bit =
    let code = u32 (bit_or (d.code <<< 1) bit) in
    let bits = d.bits + 1 in
    let first = get_or first_code bits 0 in
    let count = get_or counts bits 0 in
    let d' : Decoding = record { stored = d.stored; code = code; bits = bits } in
    if ltb huffman_max_bits bits
    then err invalid_huffman_code
    else if count == 0
    then ok d'
    else if ltb code first || leb count (code - first)
    then ok d'
    else store_symbol d' buffer_size (get_or symbols (get_or first_index bits 0 + (code - first)) 0)

-- The inner loop from the bit below `n` down to the lowest.
pub decode_bits : ℕ → ℕ → Decoding → ℕ → Result HpackError Decoding
decode_bits buffer_size zero d byte = ok d
decode_bits buffer_size (suc bit) d byte = do
  d' ← decode_bit buffer_size d (bit_and (byte >>> bit) 0x01)
  decode_bits buffer_size bit d' byte

decode_bytes : ℕ → Decoding → List ℕ → Result HpackError Decoding
decode_bytes buffer_size d [] = ok d
decode_bytes buffer_size d (byte ∷ rest) = do
  d' ← decode_bits buffer_size 8 d byte
  decode_bytes buffer_size d' rest

-- The bits that remain are the padding.
abbrev end_decoding : Decoding → Result HpackError (List ℕ)
end_decoding d = do
  raise_if (ltb 7 d.bits) padding_above_byte
  raise_if (ltb 0 d.bits && not (d.code == (1 <<< d.bits) - 1)) invalid_padding
  ok d.stored

abbrev start_decoding : Decoding
start_decoding = record { stored = []; code = 0; bits = 0 }

pub decode_huffman : List ℕ → ℕ → Result HpackError (List ℕ)
unfolding decode_bytes decode_bits decode_bit
decode_huffman coded buffer_size = do
  d ← decode_bytes buffer_size start_decoding coded
  end_decoding d

-- The buffer written so far, the position, and the accumulator with its number of pending bits.
pub record Encoding : Type 0 where
  pub buffer : List ℕ
  pub position : ℕ
  pub accumulator : ℕ
  pub count : ℕ

-- `if(offset >= buffer_size) { RAISE_ERROR } buffer[offset] = byte; offset++;`
abbrev store_byte : Encoding → ℕ → Result HpackError Encoding
store_byte e byte =
    if leb (length e.buffer) e.position
    then err no_space_coded_string
    else ok (record e { buffer = set e.buffer e.position byte; position = e.position + 1 })

-- `while(count >= 8)`: every round takes eight bits off.
pub flush : ℕ → Encoding → Result HpackError Encoding
flush zero e = ok e
flush (suc fuel) e =
    let count = e.count - 8 in
    let rest = do
      e' ← store_byte (record e { count = count }) (u8 (e.accumulator >>> count))
      flush fuel e'
    in if leb 8 e.count then rest else ok e

-- The bits of the code that the accumulator has room for.
abbrev take_bits : Encoding → ℕ → ℕ
take_bits e size = if ltb size (32 - e.count) then size else 32 - e.count

abbrev push_bits : Encoding → ℕ → ℕ → ℕ → Encoding
push_bits e code size taken = record e {
  accumulator =
      bit_or (u32 (e.accumulator <<< taken))
        (bit_and (code >>> (size - taken)) ((1 <<< taken) - 1));
  count = e.count + taken;
}

-- `while(length > 0)`: the code is pushed in steps.
pub push_code : ℕ → Encoding → ℕ → ℕ → Result HpackError Encoding
push_code zero e code size = ok e
push_code (suc fuel) e code size =
    let taken = take_bits e size in
    let e' = push_bits e code size taken in
    let rest = do e'' ← flush e'.count e'; push_code fuel e'' code (size - taken)
    in if ltb 0 size then rest else ok e

encode_bytes : Encoding → List ℕ → Result HpackError Encoding
encode_bytes e [] = ok e
encode_bytes e (byte ∷ rest) = do
  let size = get_or lengths byte 0
  e' ← push_code size e (get_or codes byte 0) size
  encode_bytes e' rest

-- The padding of the last byte.
abbrev end_encoding : Encoding → Result HpackError Encoding
end_encoding e =
    let left = 8 - e.count in
    if ltb 0 e.count
    then store_byte e (u8 (bit_or (u32 (e.accumulator <<< left)) ((1 <<< left) - 1)))
    else ok e

unfoldable pub encode_huffman : List ℕ → ℕ → List ℕ → Result HpackError (List ℕ × ℕ)
unfolding encode_bytes push_code flush
encode_huffman buffer offset plain = do
  e ← encode_bytes (record { buffer = buffer; position = offset; accumulator = 0; count = 0 }) plain
  e' ← end_encoding e
  ok (e'.buffer, e'.position)

code_bits : List ℕ → ℕ
code_bits [] = 0
code_bits (byte ∷ rest) = get_or lengths byte 0 + code_bits rest

unfoldable pub size_huffman : List ℕ → ℕ
unfolding code_bits
size_huffman plain = (code_bits plain + 7) / 8
