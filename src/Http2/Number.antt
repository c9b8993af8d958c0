-- ===== src/Http2/Number.antt =====
-- `decode_number_http2` and `encode_number_http2` of src/viriatum/http/http2.c: 32 bits in network
-- order.
use viriatum.Base.{ℕ, ◌+◌, ◌*◌, ◌/◌, ◌%◌, ◌^◌, ◌<◌, bit_and, bit_or, arith, List, [], ◌∷◌}
use viriatum.Base.{
  get_or, get_or_of_get_elem?, set, u8, u32, ◌<<<◌, ◌>>>◌, bit_or-add, bit_and-low, overwrite,
  Holds,
}
use viriatum.Base.{◌≡◌, refl, ◌∙◌, All, IsByte, get_or-IsByte}

-- `data[0] .. data[3]`, from position `p` on.
unfoldable pub decode_number : List ℕ → ℕ → ℕ
decode_number bytes p =
    bit_or
      (bit_or (bit_or (u32 (get_or bytes p 0 <<< 24)) (get_or bytes (p + 1) 0 <<< 16))
        (get_or bytes (p + 2) 0 <<< 8))
      (get_or bytes (p + 3) 0)

unfoldable pub encode_number : List ℕ → ℕ → ℕ → List ℕ
encode_number buffer p value =
    let b0 = set buffer p (u8 (bit_and (value >>> 24) 0xff)) in
    let b1 = set b0 (p + 1) (u8 (bit_and (value >>> 16) 0xff)) in
    let b2 = set b1 (p + 2) (u8 (bit_and (value >>> 8) 0xff)) in
    set b2 (p + 3) (u8 (bit_and value 0xff))

-- The four bytes of a value, the most significant one first.
unfoldable pub number_bytes : ℕ → List ℕ
number_bytes v = (v / 2 ^ 24 % 256) ∷ (v / 2 ^ 16 % 256) ∷ (v / 2 ^ 8 % 256) ∷ (v % 256) ∷ []

and_ff : (x : ℕ) → u8 (bit_and x 0xff) ≡ x % 256
and_ff x = omega (arith, bit_and-low 8 x)

-- What is stored is the four bytes.
pub encode_number-bytes :
    (buffer : List ℕ) (p value : ℕ)
    → encode_number buffer p value ≡ overwrite buffer p (number_bytes value)
unfolding encode_number number_bytes overwrite
encode_number-bytes buffer p value =
    let q1 : p + 2 ≡ p + 1 + 1 = omega arith in
    let q2 : p + 3 ≡ p + 1 + 1 + 1 = omega arith in
    rw (
      q1,
      q2,
      and_ff (value / 2 ^ 24),
      and_ff (value / 2 ^ 16),
      and_ff (value / 2 ^ 8),
      and_ff value,
    )

joined :
    (a b c d : ℕ)
    → a < 256
    → b < 256
    → c < 256
    → d < 256
    → bit_or (bit_or (bit_or (a * 2 ^ 24 % 2 ^ 32) (b * 2 ^ 16)) (c * 2 ^ 8)) d
      ≡ a * 2 ^ 24 + b * 2 ^ 16 + c * 2 ^ 8 + d
joined a b c d ha hb hc hd =
    let whole : a * 2 ^ 24 % 2 ^ 32 ≡ a * 2 ^ 24 = omega arith in
    let two = bit_or-add 24 a (a * 2 ^ 24) (b * 2 ^ 16) refl (omega arith) in
    let three =
      bit_or-add 16 (a * 256 + b) (a * 2 ^ 24 + b * 2 ^ 16) (c * 2 ^ 8) (omega arith)
        (omega arith) in
    let four =
      bit_or-add 8 (a * 65536 + b * 256 + c) (a * 2 ^ 24 + b * 2 ^ 16 + c * 2 ^ 8) d (omega arith)
        (omega arith) in
    rw (whole, two, three, four)

-- Four bytes make the number, with no bit lost.
pub decode_number-bytes :
    (bytes : List ℕ) (p value : ℕ)
    → value < 2 ^ 32
    → Holds bytes p (number_bytes value)
    → decode_number bytes p ≡ value
unfolding decode_number number_bytes
decode_number-bytes bytes p value h (h0, (h1, (h2, (h3, _)))) =
    let q1 : p + 2 ≡ p + 1 + 1 = omega arith in
    let q2 : p + 3 ≡ p + 1 + 1 + 1 = omega arith in
    rw
      (
        q1,
        q2,
        get_or_of_get_elem? bytes p _ 0 h0,
        get_or_of_get_elem? bytes (p + 1) _ 0 h1,
        get_or_of_get_elem? bytes (p + 1 + 1) _ 0 h2,
        get_or_of_get_elem? bytes (p + 1 + 1 + 1) _ 0 h3,
      )
      (joined _ _ _ _ (omega arith) (omega arith) (omega arith) (omega arith) ∙ omega arith)

-- On bytes the number fits 32 bits.
pub decode_number-lt : (bytes : List ℕ) (p : ℕ) → All IsByte bytes → decode_number bytes p < 2 ^ 32
unfolding decode_number
decode_number-lt bytes p h =
    let b = λ (i : ℕ). get_or-IsByte bytes i h in
    rw (joined _ _ _ _ (b p) (b (p + 1)) (b (p + 2)) (b (p + 3)))
      (omega (arith, b p, b (p + 1), b (p + 2), b (p + 3)))
