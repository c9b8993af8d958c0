-- ===== src/Hpack/Huffman/BitStrings.antt =====
-- A number as the string of its bits, the highest first, which is the order of a stream of bits.
use viriatum.Base.{ℕ, zero, suc, ◌+◌, ◌-◌, ◌*◌, ◌/◌, ◌%◌, ◌^◌, arith, List, [], ◌∷◌, ◌++◌}
use viriatum.Base.{length, length-append, append_assoc, replicate, ◌≡◌, refl, sym, ap, ap₂}
use viriatum.Base.{◌∙◌, two-pow-pos, pow-add}
use native.Mathlib.Nat.{pow-suc, div-div-eq-div-mul, add-mul-div_right, div-add-mod', div-eq_of_lt}

unfoldable pub bits_of : ℕ → ℕ → List ℕ
bits_of zero v = []
bits_of (suc n) v = v / 2 ^ n % 2 ∷ bits_of n v

unfoldable pub bits_of_bytes : List ℕ → List ℕ
bits_of_bytes [] = []
bits_of_bytes (byte ∷ rest) = bits_of 8 byte ++ bits_of_bytes rest

pub length-bits_of : (n v : ℕ) → length (bits_of n v) ≡ n
unfolding bits_of
length-bits_of zero v = refl
length-bits_of (suc n) v = ap suc (length-bits_of n v)

suc_plus : (a b : ℕ) → suc a + b ≡ suc (a + b)
suc_plus a b = omega arith

pub bits_of-append : (a b v : ℕ) → bits_of (a + b) v ≡ bits_of a (v / 2 ^ b) ++ bits_of b v
unfolding bits_of
bits_of-append zero b v = ap (λ n. bits_of n v) (zero_plus b)
  where
    zero_plus : (n : ℕ) → 0 + n ≡ n
    zero_plus n = omega arith
bits_of-append (suc a) b v =
    ap (λ n. bits_of n v) (suc_plus a b)
    ∙ ap₂ (λ (x : ℕ) (xs : List ℕ). x % 2 ∷ xs)
        (ap (λ t. v / t) (pow-add a b) ∙ sym (div-div-eq-div-mul v (2 ^ b) (2 ^ a)))
        (bits_of-append a b v)

high_bit : (n k q r : ℕ) → (q * 2 ^ (suc n + k) + r) / 2 ^ n % 2 ≡ r / 2 ^ n % 2
high_bit n k q r =
    ap (λ (t : ℕ). (q * t + r) / 2 ^ n % 2)
      (ap (λ (m : ℕ). 2 ^ m) (order n k)
        ∙ pow-add (suc k) n
        ∙ ap (λ (t : ℕ). 2 ^ n * t) (pow-suc 2 k))
    ∙ ap (λ (t : ℕ). t / 2 ^ n % 2) (regroup q (2 ^ n) (2 ^ k) r)
    ∙ ap (λ (t : ℕ). t % 2) (add-mul-div_right r (2 * (q * 2 ^ k)) (two-pow-pos n))
    ∙ omega arith
  where
    order : (a b : ℕ) → suc a + b ≡ suc b + a
    order a b = omega arith

    regroup : (q x y r : ℕ) → q * (x * (y * 2)) + r ≡ r + 2 * (q * y) * x
    regroup q x y r = ground arith

-- What is above the bits does not matter.
pub bits_of_low : (n k q r : ℕ) → bits_of n (q * 2 ^ (n + k) + r) ≡ bits_of n r
unfolding bits_of
bits_of_low zero k q r = refl
bits_of_low (suc n) k q r =
    ap₂ (λ (x : ℕ) (xs : List ℕ). x ∷ xs) (high_bit n k q r)
      (ap (λ (m : ℕ). bits_of n (q * 2 ^ m + r)) (omega arith) ∙ bits_of_low n (suc k) q r)

pub bits_of-mod : (n k v : ℕ) → bits_of n (v % 2 ^ (n + k)) ≡ bits_of n v
bits_of-mod n k v =
    sym (bits_of_low n k (v / 2 ^ (n + k)) (v % 2 ^ (n + k)))
    ∙ ap (bits_of n) (div-add-mod' v (2 ^ (n + k)))

pub bits_of_bytes-append :
    (xs ys : List ℕ) → bits_of_bytes (xs ++ ys) ≡ bits_of_bytes xs ++ bits_of_bytes ys
unfolding bits_of_bytes
bits_of_bytes-append [] ys = refl
bits_of_bytes-append (x ∷ xs) ys =
    ap (λ t. bits_of 8 x ++ t) (bits_of_bytes-append xs ys)
    ∙ sym (append_assoc (bits_of 8 x) (bits_of_bytes xs) (bits_of_bytes ys))

pub length-bits_of_bytes : (xs : List ℕ) → length (bits_of_bytes xs) ≡ 8 * length xs
unfolding bits_of_bytes
length-bits_of_bytes [] = refl
length-bits_of_bytes (x ∷ xs) = omega (
  arith,
  length-append (bits_of 8 x) (bits_of_bytes xs),
  length-bits_of 8 x,
  length-bits_of_bytes xs,
)

pub bits_of-ones : (n : ℕ) → bits_of n (2 ^ n - 1) ≡ replicate n 1
unfolding bits_of
bits_of-ones zero = refl
bits_of-ones (suc n) =
    let p = two-pow-pos n in
    let split : 2 ^ suc n - 1 ≡ 1 * 2 ^ n + (2 ^ n - 1) = omega (arith, pow-suc 2 n) in
    let swapped : 2 ^ suc n - 1 ≡ 2 ^ n - 1 + 1 * 2 ^ n = omega (arith, pow-suc 2 n) in
    ap₂ (λ (x : ℕ) (xs : List ℕ). x ∷ xs)
      (ap (λ (t : ℕ). t / 2 ^ n % 2) swapped
        ∙ ap (λ (t : ℕ). t % 2) (add-mul-div_right (2 ^ n - 1) 1 p)
        ∙ omega (arith, div-eq_of_lt {n = 2 ^ n - 1} {m = 2 ^ n} (omega arith)))
      (ap (bits_of n) (split ∙ ap (λ (m : ℕ). 1 * 2 ^ m + (2 ^ n - 1)) (omega arith))
        ∙ bits_of_low n 0 1 (2 ^ n - 1)
        ∙ bits_of-ones n)
