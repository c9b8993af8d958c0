-- ===== src/Hpack/Integer/Bounds.antt =====
-- `decode_integer_hpack` of src/viriatum/http/hpack.c on any input, well formed or not.
use viriatum.Base.{ℕ, suc, ◌+◌, ◌-◌, ◌*◌, ◌%◌, ◌^◌, ◌≤◌, ◌<◌, bit_and, arith}
use viriatum.Base.{List, [], ◌∷◌, length, drop, length-drop, ◌≡◌, ap, ok, bit_and-le}
use viriatum.Hpack.{max_integer}
use viriatum.Hpack.Integer.{decode_integer_loop, decode_integer_first, decode_integer}
use native.Mathlib.Nat.{pow-le-pow_right}

next_shift : (j : ℕ) → 7 * j + 7 ≡ 7 * suc j
next_shift j = omega arith

decode_integer_loop_takes :
    (rest : List ℕ) (position result j offset' value : ℕ)
    → j ≤ 4
    → result ≤ max_integer
    → decode_integer_loop rest position result (7 * j) ≡ ok (offset', value)
    → (position < offset')
      × (offset' ≤ position + length rest)
      × (offset' + j ≤ position + 4)
      × (value ≤ max_integer)
unfolding decode_integer_loop
decode_integer_loop_takes [] position result j offset' value hj hr e = cc
decode_integer_loop_takes (byte ∷ rest) position result j offset' value hj hr e =
    let result' = (result + bit_and byte 0x7f * 2 ^ (7 * j)) % 2 ^ 64 in
    ground (
      arith,
      ap (decode_integer_loop rest (position + 1) result') (next_shift j),
      decode_integer_loop_takes rest (position + 1) result' (suc j) offset' value,
    )

decode_integer_first_takes :
    (rest : List ℕ) (position mask offset' value : ℕ)
    → mask ≤ 255
    → decode_integer_first rest position mask ≡ ok (offset', value)
    → (position < offset')
      × (offset' ≤ position + length rest)
      × (offset' ≤ position + 5)
      × (value ≤ max_integer)
unfolding decode_integer_first
decode_integer_first_takes [] position mask offset' value h e = cc
decode_integer_first_takes (byte ∷ rest) position mask offset' value h e = ground (
  arith,
  bit_and-le byte mask,
  decode_integer_loop_takes rest (position + 1) (bit_and byte mask) 0 offset' value,
)

-- A successful decoding on a prefix of at most eight bits takes one to five bytes, all of them
-- inside the buffer, and its value is at most 0x0fffffff.
pub decode_integer_takes :
    (buffer : List ℕ) (offset prefix offset' value : ℕ)
    → prefix ≤ 8
    → decode_integer buffer offset prefix ≡ ok (offset', value)
    → (offset < offset')
      × (offset' ≤ length buffer)
      × (offset' ≤ offset + 5)
      × (value ≤ max_integer)
unfolding decode_integer
decode_integer_takes buffer offset prefix offset' value h e = omega (
  arith,
  length-drop offset buffer,
  decode_integer_first_takes (drop offset buffer) offset (1 * 2 ^ prefix - 1) offset' value
      (omega (arith, pow-le-pow_right {n = 2} (omega arith) {i = prefix} {j = 8} h)) e,
)
