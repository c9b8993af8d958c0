-- ===== src/Hpack/Huffman/RoundTrip.antt =====
-- `decode_huffman_hpack` of src/viriatum/http/hpack.c after `encode_huffman_hpack`, and the size of
-- the coded form.
use viriatum.Base.{ℕ, ◌+◌, ◌≤◌, ◌<◌, arith, List, [], ◌∷◌, length, length-append}
use viriatum.Base.{
  length-replicate, replicate, leb, if◌then◌else◌, All, IsByte, ok, err, overwrite, slice,
}
use viriatum.Base.{◌≡◌, refl, sym, ap, ◌∙◌, Result, Holds-overwrite, slice_of_Holds, get_elem?}
use viriatum.Base.{get_elem?-overwrite_below, length-overwrite, get_or}
use viriatum.Hpack.{HpackError, decoded_string_above_size, no_space_coded_string}
use viriatum.Hpack.Huffman.{encode_huffman, decode_huffman, code_bits, size_huffman}
use viriatum.Hpack.Huffman.Codes.{lengths, codes}
use viriatum.Hpack.Huffman.BitStrings.{length-bits_of, length-bits_of_bytes}
use viriatum.Hpack.Huffman.Decode.{string_bits, symbol_bits, decode_huffman-string_bits}
use viriatum.Hpack.Huffman.Encode.{Coded, encode_huffman-Coded}

length-string_bits : (plain : List ℕ) → length (string_bits plain) ≡ code_bits plain
unfolding code_bits string_bits symbol_bits
length-string_bits [] = refl
length-string_bits (s ∷ plain) = omega (
  arith,
  length-append (symbol_bits s) (string_bits plain),
  length-bits_of (get_or lengths s 0) (get_or codes s 0),
  length-string_bits plain,
)

pub Coded-size :
    (buffer : List ℕ) (offset : ℕ) (plain : List ℕ) (c : Coded buffer offset plain)
    → length c.bytes ≡ size_huffman plain
unfolding size_huffman
Coded-size buffer offset plain c = omega (
  arith,
  length-bits_of_bytes c.bytes,
  ap length c.stream,
  length-append (string_bits plain) (replicate c.padding 1),
  length-replicate {A = ℕ} c.padding 1,
  length-string_bits plain,
  c.short,
)

-- What `size_huffman_hpack` announces is what `encode_huffman_hpack` stores: from an offset inside
-- the buffer, or at its end, the encoding fails exactly if fewer bytes than that are left, and
-- otherwise it moves the offset by that number of bytes.
pub encode_huffman_size :
    (buffer : List ℕ) (offset : ℕ) (plain : List ℕ)
    → offset ≤ length buffer
    → (length buffer < offset + size_huffman plain
        → encode_huffman buffer offset plain ≡ err no_space_coded_string)
      × (offset + size_huffman plain ≤ length buffer
          → (buffer' : List ℕ) × (encode_huffman buffer offset plain
              ≡ ok (buffer', offset + size_huffman plain))
            × (length buffer' ≡ length buffer))
encode_huffman_size buffer offset plain le =
    let c = encode_huffman-Coded buffer offset plain le in
    let size = Coded-size buffer offset plain c in
    (
      λ short. c.answer ∙ ground (arith, size),
      λ room. (
        overwrite buffer offset c.bytes,
        c.answer ∙ ground (arith, size),
        length-overwrite buffer offset c.bytes,
      ),
    )

-- The bytes that `encode_huffman_hpack` stores for a string of bytes decode to that string, in any
-- buffer that has the room for it, and to the error in a smaller one. The bytes before the offset
-- are the ones of the old buffer.
pub decode_huffman-encode_huffman :
    (buffer : List ℕ) (offset : ℕ) (plain buffer' : List ℕ) (end size : ℕ)
    → offset ≤ length buffer
    → All IsByte plain
    → encode_huffman buffer offset plain ≡ ok (buffer', end)
    → (decode_huffman (slice buffer' offset (size_huffman plain)) size
        ≡ (if leb (length plain) size then ok plain else err decoded_string_above_size))
      × ((i : ℕ) → i < offset → get_elem? buffer' i ≡ get_elem? buffer i)
decode_huffman-encode_huffman buffer offset plain buffer' end size le b e =
    let c = encode_huffman-Coded buffer offset plain le in
    let (room, same, moved) = stored c.bytes (sym c.answer ∙ e) in
    let found =
      slice_of_Holds (overwrite buffer offset c.bytes) offset c.bytes
        (Holds-overwrite buffer offset c.bytes room) in
    (
      rw (← same, ← Coded-size buffer offset plain c, found)
          (decode_huffman-string_bits c.bytes plain c.padding size b c.short c.stream),
      λ i hi. rw (← same) (get_elem?-overwrite_below buffer offset i c.bytes hi),
    )
  where
    stored :
        (bytes : List ℕ)
        → ◌≡◌ {A = Result HpackError (List ℕ × ℕ)}
            (if leb (offset + length bytes) (length buffer)
              then ok (overwrite buffer offset bytes, offset + length bytes)
              else err no_space_coded_string)
            (ok (buffer', end))
        → (offset + length bytes ≤ length buffer)
          × (overwrite buffer offset bytes ≡ buffer')
          × (offset + length bytes ≡ end)
    stored bytes q = ground arith
