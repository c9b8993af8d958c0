-- ===== src/Hpack/Huffman/Pending.antt =====
-- The accumulator of `encode_huffman_hpack` of src/viriatum/http/hpack.c, whose lowest bits are the
-- ones that no byte has taken yet.
use viriatum.Base.{pow-add, ℕ, ◌+◌, ◌-◌, ◌*◌, ◌/◌, ◌%◌, ◌^◌, ◌≤◌, ◌<◌, arith, List, ◌++◌}
use viriatum.Base.{replicate, ◌≡◌, sym, ap, ap₂}
use viriatum.Base.{◌∙◌, u8, u32}
use viriatum.Base.{bit_or, bit_or-shl, two-pow-pos}
use viriatum.Hpack.Huffman.BitStrings.{
  bits_of, bits_of-append, bits_of_low, bits_of-mod, bits_of-ones,
}
use native.Mathlib.Nat.{
  add-mul-mod_self_right, mod-eq_of_lt, div-add-mod', mul-le-mul_right, add-mul-div_right,
  div-eq_of_lt, add_comm,
}

shl_word : (t m acc : ℕ) → m + t ≡ 32 → acc * 2 ^ t % 2 ^ 32 ≡ acc % 2 ^ m * 2 ^ t
shl_word t m acc e =
    let width : 2 ^ t * 2 ^ m ≡ 2 ^ 32 = sym (pow-add m t) ∙ ap (λ (n : ℕ). 2 ^ n) e in
    let low : acc % 2 ^ m < 2 ^ m = omega (arith, two-pow-pos m) in
    ap (λ (x : ℕ). x * 2 ^ t % 2 ^ 32) (sym (div-add-mod' acc (2 ^ m)))
    ∙ ap (λ (x : ℕ). x % 2 ^ 32)
        (distribute (acc / 2 ^ m) (2 ^ m) (acc % 2 ^ m) (2 ^ t)
          ∙ ap (λ (x : ℕ). acc % 2 ^ m * 2 ^ t + acc / 2 ^ m * x) width)
    ∙ add-mul-mod_self_right (acc % 2 ^ m * 2 ^ t) (acc / 2 ^ m) (2 ^ 32)
    ∙ mod-eq_of_lt (below (acc % 2 ^ m) (2 ^ m) (2 ^ t) low (two-pow-pos t) width)
  where
    distribute : (q x r y : ℕ) → (q * x + r) * y ≡ r * y + q * (y * x)
    distribute q x r y = ground arith

    below : (r x y : ℕ) → r < x → 1 ≤ y → y * x ≡ 2 ^ 32 → r * y < 2 ^ 32
    below r x y lt pos e = grind (arith, mul-le-mul_right y lt)

-- The accumulator with the `t` bits of `r` pushed into it.
pub pushed :
    (count t acc r : ℕ)
    → count + t ≤ 32
    → r < 2 ^ t
    → bits_of (count + t) (bit_or (u32 (acc * 2 ^ t)) r) ≡ bits_of count acc ++ bits_of t r
pushed count t acc r h lt =
    let low = acc % 2 ^ (32 - t) in
    let sum : bit_or (u32 (acc * 2 ^ t)) r ≡ low * 2 ^ t + r =
      ap (λ x. bit_or x r) (shl_word t (32 - t) acc (omega arith)) ∙ bit_or-shl t low r lt in
    ap (bits_of (count + t)) sum
    ∙ bits_of-append count t (low * 2 ^ t + r)
    ∙ ap₂ (λ (xs ys : List ℕ). xs ++ ys)
        (ap (bits_of count) (quotient low)
          ∙ ap (λ (m : ℕ). bits_of count (acc % 2 ^ m)) (omega arith)
          ∙ bits_of-mod count (32 - t - count) acc)
        (ap (λ (m : ℕ). bits_of t (low * 2 ^ m + r)) (omega arith) ∙ bits_of_low t 0 low r)
  where
    quotient : (x : ℕ) → (x * 2 ^ t + r) / 2 ^ t ≡ x
    quotient x =
        ap (λ (y : ℕ). y / 2 ^ t) (add_comm (x * 2 ^ t) r)
        ∙ add-mul-div_right r x (two-pow-pos t)
        ∙ ap (λ (y : ℕ). y + x) (div-eq_of_lt lt)
        ∙ omega arith

pub byte_bits : (x : ℕ) → bits_of 8 (u8 x) ≡ bits_of 8 x
byte_bits x = bits_of-mod 8 0 x

pub top_byte :
    (count acc : ℕ)
    → 8 ≤ count
    → bits_of count acc ≡ bits_of 8 (u8 (acc / 2 ^ (count - 8))) ++ bits_of (count - 8) acc
top_byte count acc more =
    ap (λ n. bits_of n acc) (omega arith)
    ∙ bits_of-append 8 (count - 8) acc
    ∙ ap (λ xs. xs ++ bits_of (count - 8) acc) (sym (byte_bits (acc / 2 ^ (count - 8))))

-- The last byte is filled up with set bits.
pub padded_byte :
    (acc count : ℕ)
    → count < 8
    → bits_of 8 (u8 (bit_or (u32 (acc * 2 ^ (8 - count))) (2 ^ (8 - count) - 1)))
      ≡ bits_of count acc ++ replicate (8 - count) 1
padded_byte acc count few =
    let left = 8 - count in
    byte_bits (bit_or (u32 (acc * 2 ^ left)) (2 ^ left - 1))
    ∙ ap (λ n. bits_of n (bit_or (u32 (acc * 2 ^ left)) (2 ^ left - 1))) (omega arith)
    ∙ pushed count left acc (2 ^ left - 1) (omega arith) (omega (arith, two-pow-pos left))
    ∙ ap (λ xs. bits_of count acc ++ xs) (bits_of-ones left)
