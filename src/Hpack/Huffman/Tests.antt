-- ===== src/Hpack/Huffman/Tests.antt =====
-- Runs of the Huffman code of src/viriatum/http/hpack.c, and its theorems at concrete inputs.
use viriatum.Base.{
  ℕ, ◌+◌, ◌≤◌, ◌<◌, arith, List, [], ◌∷◌, length, get_elem?, leb, if◌then◌else◌, ok, err, ◌≡◌, refl,
  slice,
}
use viriatum.Hpack.{decoded_string_above_size, no_space_coded_string, end_of_string_symbol}
use viriatum.Hpack.Huffman.{encode_huffman, decode_huffman, size_huffman}
use viriatum.Base.{All, IsByte}
use viriatum.Hpack.Huffman.Bounds.{decode_huffman_fits}
use viriatum.Hpack.Huffman.RoundTrip.{encode_huffman_size, decode_huffman-encode_huffman}

abbrev zeros : List ℕ
zeros = 0 ∷ 0 ∷ 0 ∷ 0 ∷ 0 ∷ []

abbrev plain : List ℕ
plain = 119 ∷ 0 ∷ 119 ∷ []

abbrev written : List ℕ
written = 0 ∷ 241 ∷ 255 ∷ 143 ∷ 31 ∷ []

encode_run : encode_huffman zeros 1 plain ≡ ok (written, 5)
unfolding encode_huffman
encode_run = refl

decode_run : decode_huffman (241 ∷ 255 ∷ 143 ∷ 31 ∷ []) 3 ≡ ok plain
unfolding decode_huffman
decode_run = refl

-- The end of string symbol is refused.
decode_end : decode_huffman (255 ∷ 255 ∷ 255 ∷ 255 ∷ []) 9 ≡ err end_of_string_symbol
unfolding decode_huffman
decode_end = refl

encode_huffman_size_example :
    (length zeros < 1 + size_huffman plain
      → encode_huffman zeros 1 plain ≡ err no_space_coded_string)
    × (1 + size_huffman plain ≤ length zeros
        → (buffer' : List ℕ) × (encode_huffman zeros 1 plain ≡ ok (buffer', 1 + size_huffman plain))
          × (length buffer' ≡ length zeros))
encode_huffman_size_example = encode_huffman_size zeros 1 plain (omega arith)

decode_huffman-encode_huffman_example :
    (decode_huffman (slice written 1 (size_huffman plain)) 3
      ≡ (if leb 3 3 then ok plain else err decoded_string_above_size))
    × ((i : ℕ) → i < 1 → get_elem? written i ≡ get_elem? zeros i)
decode_huffman-encode_huffman_example =
    decode_huffman-encode_huffman zeros 1 plain written 5 3 (omega arith) (omega arith) encode_run

decode_huffman_fits_example : (length plain ≤ 3) × All IsByte plain
decode_huffman_fits_example = decode_huffman_fits (241 ∷ 255 ∷ 143 ∷ 31 ∷ []) 3 plain decode_run
