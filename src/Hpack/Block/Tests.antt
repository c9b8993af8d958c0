-- ===== src/Hpack/Block/Tests.antt =====
-- Runs of the header blocks of src/viriatum/http/hpack.c, and their theorems at concrete inputs.
use viriatum.Base.{
  ℕ, arith, List, [], ◌∷◌, true, false, ok, none, ◌≡◌, refl, lt_wf, dec_le, overwrite, slice,
}
use viriatum.Hpack.{Header}
use viriatum.Hpack.Integer.{encode_integer, encode_integer_loop}
use viriatum.Hpack.Huffman.{size_huffman}
use viriatum.Hpack.Strings.{encode_string}
use viriatum.Hpack.Static.{static_table}
use viriatum.Hpack.Table.{create, insert, find, bytes_eq}
use viriatum.Hpack.Table.Insert.{create-IsTable}
use viriatum.Hpack.Block.{encode_field, decode_field, decode_loop, decode_block, exhausted}
use viriatum.Hpack.Block.Progress.{decode_loop_enough}
use viriatum.Base.{◌+◌, length, ◌≢◌, some}
use viriatum.Hpack.Block.Fields.{IsField}
use viriatum.Hpack.Block.RoundTrip.{decode_field-encode_field}
use viriatum.Hpack.Block.Lists.{encode_fields, decode_block-encode_fields, collect}

abbrev zeros : List ℕ
zeros = 0 ∷ 0 ∷ 0 ∷ 0 ∷ 0 ∷ 0 ∷ 0 ∷ []

-- `:method: GET`, which the static table holds, and `a: b`.
abbrev method_get : Header
method_get = record {
  name = 58 ∷ 109 ∷ 101 ∷ 116 ∷ 104 ∷ 111 ∷ 100 ∷ [];
  value = 71 ∷ 69 ∷ 84 ∷ [];
}

abbrev a_b : Header
a_b = record { name = 97 ∷ []; value = 98 ∷ [] }

abbrev written : List ℕ
written = 0x82 ∷ 0x40 ∷ 1 ∷ 97 ∷ 1 ∷ 98 ∷ 0 ∷ []

abbrev literal : List ℕ
literal = 0x40 ∷ 1 ∷ 97 ∷ 1 ∷ 98 ∷ 0 ∷ 0 ∷ []

encode_run :
    encode_fields create zeros 0 ((method_get, false) ∷ (a_b, true) ∷ [])
    ≡ ok (insert create a_b, written, 6)
unfolding encode_fields encode_field encode_string encode_integer encode_integer_loop size_huffman
    find bytes_eq static_table create lt_wf dec_le overwrite
encode_run = refl

literal_run : encode_field create zeros 0 a_b true ≡ ok (insert create a_b, literal, 5)
unfolding encode_field encode_string encode_integer encode_integer_loop size_huffman find bytes_eq
    static_table create lt_wf dec_le overwrite
literal_run = refl

a_b-IsField : IsField a_b
a_b-IsField = omega arith

method_get-IsField : IsField method_get
method_get-IsField = omega arith

decode_field-encode_field_example : decode_field create literal 0 ≡ ok (insert create a_b, a_b, 5)
decode_field-encode_field_example =
    decode_field-encode_field create [] zeros 0 a_b true (insert create a_b) literal 5
      (create-IsTable.0.repr) a_b-IsField literal_run

decode_block-encode_fields_example :
    decode_block collect create (slice written 0 6) []
    ≡ (none, insert create a_b, method_get ∷ a_b ∷ [])
decode_block-encode_fields_example =
    decode_block-encode_fields create [] zeros ((method_get, false) ∷ (a_b, true) ∷ [])
      (insert create a_b) written 6 (create-IsTable.0) (method_get-IsField, (a_b-IsField, tt))
      (omega arith) encode_run

abbrev block : List ℕ
block = 0x82 ∷ 0x40 ∷ 1 ∷ 97 ∷ 1 ∷ 98 ∷ []

decode_loop_enough_example :
    ((decode_block collect create block []).0 ≢ some exhausted)
    × (decode_loop collect (3 + length block) block create 0 0 false []
        ≡ decode_block collect create block [])
decode_loop_enough_example = decode_loop_enough collect 3 block create []
