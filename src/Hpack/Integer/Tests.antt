-- ===== src/Hpack/Integer/Tests.antt =====
-- Runs of the integer codec of src/viriatum/http/hpack.c, and its theorems at concrete inputs.
use viriatum.Base.{
  ℕ, ◌+◌, ◌≤◌, ◌<◌, arith, List, [], ◌∷◌, length, get_elem?, ltb, leb, if◌then◌else◌,
}
use viriatum.Base.{ok, err, ◌≡◌, refl, lt_wf, dec_le, overwrite}
use viriatum.Hpack.{overflowing_integer, truncated_integer, no_space_integer, max_integer}
use viriatum.Hpack.Integer.{decode_integer, encode_integer, encode_integer_loop}
use viriatum.Hpack.Integer.Bytes.{integer_bytes, IsFlags}
use viriatum.Hpack.Integer.Encode.{encode_integer-bytes}
use viriatum.Hpack.Integer.RoundTrip.{decode_integer-encode_integer}
use viriatum.Hpack.Integer.Bounds.{decode_integer_takes}

abbrev zeros : List ℕ
zeros = 0 ∷ 0 ∷ 0 ∷ 0 ∷ 0 ∷ 0 ∷ []

abbrev written : List ℕ
written = 0 ∷ 0x1f ∷ 0x9a ∷ 0x0a ∷ 0 ∷ 0 ∷ []

-- 1337 on a prefix of five bits, the example of RFC 7541.
encode_1337 : encode_integer zeros 1 5 0 1337 ≡ ok (written, 4)
unfolding encode_integer encode_integer_loop lt_wf dec_le
encode_1337 = refl

decode_1337 : decode_integer written 1 5 ≡ ok (4, 1337)
unfolding decode_integer
decode_1337 = refl

decode_cut : decode_integer (0x1f ∷ 0x9a ∷ []) 0 5 ≡ err truncated_integer
unfolding decode_integer
decode_cut = refl

decode_five_groups :
    decode_integer (0xff ∷ 0x80 ∷ 0x80 ∷ 0x80 ∷ 0x80 ∷ 0x01 ∷ []) 0 7 ≡ err overflowing_integer
unfolding decode_integer
decode_five_groups = refl

no-IsFlags : IsFlags 5 0
no-IsFlags = omega arith

encode_integer-bytes_example : encode_integer zeros 1 5 0 1337 ≡ (
    if leb (1 + length (integer_bytes 5 0 1337)) 6
    then ok (overwrite zeros 1 (integer_bytes 5 0 1337), 1 + length (integer_bytes 5 0 1337))
    else err no_space_integer)
encode_integer-bytes_example = encode_integer-bytes zeros 1 5 0 1337 no-IsFlags (omega arith)

decode_integer-encode_integer_example :
    (decode_integer written 1 5
      ≡ (if ltb max_integer 1337 then err overflowing_integer else ok (4, 1337)))
    × ((i : ℕ) → i < 1 → get_elem? written i ≡ get_elem? zeros i)
decode_integer-encode_integer_example =
    decode_integer-encode_integer zeros 1 5 0 1337 written 4 no-IsFlags (omega arith) encode_1337

decode_integer_takes_example : (1 < 4) × (4 ≤ 6) × (4 ≤ 1 + 5) × (1337 ≤ max_integer)
decode_integer_takes_example = decode_integer_takes written 1 5 4 1337 (omega arith) decode_1337
