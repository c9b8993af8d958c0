-- ===== src/Hpack/Strings/Tests.antt =====
-- Runs of the strings of src/viriatum/http/hpack.c, and their theorems at concrete inputs.
use viriatum.Base.{ℕ, ◌<◌, arith, List, [], ◌∷◌, length, get_elem?, ok, ◌≡◌, refl, lt_wf, dec_le}
use viriatum.Hpack.Integer.{encode_integer, encode_integer_loop}
use viriatum.Hpack.Huffman.{encode_huffman, size_huffman}
use viriatum.Hpack.Strings.{encode_string, decode_string}
use viriatum.Base.{◌≤◌, ◌<◌}
use viriatum.Hpack.Strings.Bounds.{decode_string_takes}
use viriatum.Hpack.Strings.RoundTrip.{decode_string-encode_string}

abbrev zeros : List ℕ
zeros = 0 ∷ 0 ∷ 0 ∷ 0 ∷ 0 ∷ 0 ∷ []

abbrev string : List ℕ
string = 48 ∷ 48 ∷ 48 ∷ 48 ∷ []

abbrev written : List ℕ
written = 0 ∷ 131 ∷ 0 ∷ 0 ∷ 15 ∷ 0 ∷ []

-- Twenty bits of code are shorter than the four bytes.
encode_run : encode_string zeros 1 string ≡ ok (written, 5)
unfolding encode_string encode_integer encode_integer_loop encode_huffman size_huffman lt_wf dec_le
encode_run = refl

decode_string-encode_string_example :
    (decode_string written 1 4 ≡ ok (string, 5))
    × (length written ≡ length zeros)
    × ((i : ℕ) → i < 1 → get_elem? written i ≡ get_elem? zeros i)
decode_string-encode_string_example =
    decode_string-encode_string zeros 1 string written 5 4 (omega arith) (omega arith) (omega arith)
      encode_run

decode_run : decode_string written 1 4 ≡ ok (string, 5)
decode_run =
    (decode_string-encode_string zeros 1 string written 5 4 (omega arith) (omega arith)
      (omega arith) encode_run).0

decode_string_takes_example : (1 < 5) × (5 ≤ length written) × (length string ≤ 4)
decode_string_takes_example = decode_string_takes written 1 4 string 5 decode_run
