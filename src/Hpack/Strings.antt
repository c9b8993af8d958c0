-- ===== src/Hpack/Strings.antt =====
-- `decode_string_hpack` and `encode_string_hpack` of src/viriatum/http/hpack.c. The decoded string
-- is what the source leaves in the first `string_size` bytes of its buffer.
pub mod Stored
pub mod RoundTrip
pub mod Bounds
mod Tests
use viriatum.Base.{ℕ, ◌+◌, ◌-◌, List, length, get_or, overwrite, slice, ltb, leb, ◌==◌, bit_and}
use viriatum.Base.{if◌then◌else◌, Result, ok, err, ◌>>=◌, ◌>>◌, raise_if}
use viriatum.Hpack.{HpackError, truncated_string, string_above_size, no_space_string}
use viriatum.Hpack.Integer.{decode_integer, encode_integer}
use viriatum.Hpack.Huffman.{decode_huffman, encode_huffman, size_huffman}

-- The characters of a string, coded or not.
decode_characters : List ℕ → ℕ → ℕ → ℕ → ℕ → Result HpackError (List ℕ)
decode_characters block position size flag buffer_size =
    if flag == 0
    then if ltb buffer_size size then err string_above_size else ok (slice block position size)
    else decode_huffman (slice block position size) buffer_size

-- The string and the new offset.
pub decode_string : List ℕ → ℕ → ℕ → Result HpackError (List ℕ × ℕ)
unfolding decode_characters
decode_string block offset buffer_size = do
  raise_if (leb (length block) offset) truncated_string
  (position, size) ← decode_integer block offset 7
  raise_if (ltb (length block - position) size) truncated_string
  string ← decode_characters block position size (bit_and (get_or block offset 0) 0x80) buffer_size
  ok (string, position + size)

encode_coded : List ℕ → ℕ → List ℕ → Result HpackError (List ℕ × ℕ)
encode_coded buffer offset string = do
  (buffer', position) ← encode_integer buffer offset 7 0x80 (size_huffman string)
  encode_huffman buffer' position string

encode_plain : List ℕ → ℕ → List ℕ → Result HpackError (List ℕ × ℕ)
encode_plain buffer offset string = do
  (buffer', position) ← encode_integer buffer offset 7 0x00 (length string)
  raise_if (ltb (length buffer' - position) (length string)) no_space_string
  ok (overwrite buffer' position string, position + length string)

-- The buffer written and the new offset.
unfoldable pub encode_string : List ℕ → ℕ → List ℕ → Result HpackError (List ℕ × ℕ)
unfolding encode_coded encode_plain
encode_string buffer offset string =
    if ltb (size_huffman string) (length string)
    then encode_coded buffer offset string
    else encode_plain buffer offset string
