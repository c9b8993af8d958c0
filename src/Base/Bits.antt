-- ===== src/Base/Bits.antt =====
-- The operators `&`, `|`, `^`, `<<` and `>>` of C in arithmetic, at every width.
use Prim.Native.Nat.{ℕ, zero, suc, ◌+◌, ◌-◌, ◌*◌, ◌/◌, ◌%◌, ◌^◌, ◌≤◌, ◌<◌, min, max, digits}
use Prim.Native.Nat.{bit_and, bit_or, bit_xor, bitwise, bit_and-bitwise, bit_or-bitwise}
use Prim.Native.Nat.{bit_xor-bitwise, differ}
use mathlib.Core.Path.{◌≡◌, refl, sym, ap, ◌∙◌}
use mathlib.Core.WellFounded.{Acc, WellFounded}
use native.Mathlib.Nat.{pow-suc, div-div-eq-div-mul, le_refl}
use native.Mathlib.Omega.{arith}

infixl 75 ◌<<<◌ ◌>>>◌
abbrev pub ◌<<<◌ : ℕ → ℕ → ℕ
x <<< k = x * 2 ^ k

abbrev pub ◌>>>◌ : ℕ → ℕ → ℕ
x >>> k = x / 2 ^ k

-- `(unsigned char) n`, `(unsigned short) n` and `(unsigned int) n`
abbrev pub u8 : ℕ → ℕ
u8 n = n % 2 ^ 8

abbrev pub u16 : ℕ → ℕ
u16 n = n % 2 ^ 16

abbrev pub u32 : ℕ → ℕ
u32 n = n % 2 ^ 32

abbrev pub IsByte : ℕ → Type 0
IsByte b = b < 256

acc_below : (k n : ℕ) → n < k → Acc ◌<◌ n
acc_below zero n h = absurd (omega arith)
acc_below (suc k) n h = Acc.intro n (λ m hm. acc_below k m (omega arith))

unfoldable pub lt_wf : WellFounded ◌<◌
unfolding acc_below
lt_wf = record { apply = λ n. acc_below (suc n) n (omega arith) }

-- `bitwise` from its lowest digit, for an operator that agrees with `z` where one side has ended.
module _ (z : ℕ → ℕ) (f : ℕ → ℕ → ℕ) (ended : (b : ℕ) → z b ≡ f 0 (b % 2) + 2 * z (b / 2)) where
  enough_digits : (k n a b : ℕ) → n < k → a ≤ n → digits z f n a b ≡ digits z f a a b
  enough_digits zero n a b bound le = absurd (omega arith)
  enough_digits (suc k) zero zero b bound le = refl
  enough_digits (suc k) (suc n) zero b bound le = refl
  enough_digits (suc k) zero (suc a) b bound le = absurd (omega arith)
  enough_digits (suc k) (suc n) (suc a) b bound le =
      let half = suc a / 2 in
      rw (
        enough_digits k n half (b / 2) (omega arith) (omega arith),
        enough_digits k a half (b / 2) (omega arith) (omega arith),
      )

  lowest_digit : (a b : ℕ) → bitwise z f a b ≡ f (a % 2) (b % 2) + 2 * bitwise z f (a / 2) (b / 2)
  lowest_digit zero b = ended b
  lowest_digit (suc a) b =
      omega (arith, enough_digits (suc a) a (suc a / 2) (b / 2) (omega arith) (omega arith))

or_digit : (a b : ℕ) → bit_or a b ≡ max (a % 2) (b % 2) + 2 * bit_or (a / 2) (b / 2)
or_digit a b = simp bit_or-bitwise (lowest_digit (λ y. y) max (λ y. omega arith) a b)

and_digit : (a b : ℕ) → bit_and a b ≡ min (a % 2) (b % 2) + 2 * bit_and (a / 2) (b / 2)
and_digit a b = simp bit_and-bitwise (lowest_digit (λ y. 0) min (λ y. omega arith) a b)

xor_digit : (a b : ℕ) → bit_xor a b ≡ differ (a % 2) (b % 2) + 2 * bit_xor (a / 2) (b / 2)
xor_digit a b = simp bit_xor-bitwise (lowest_digit (λ y. y) differ (λ y. omega arith) a b)

zero-bit_or : (a : ℕ) → bit_or 0 a ≡ a
zero-bit_or a = simp bit_or-bitwise refl

or-zero-below : (n a : ℕ) → a ≤ n → bit_or a 0 ≡ a
or-zero-below n zero h = zero-bit_or 0
or-zero-below zero (suc a) h = absurd (omega arith)
or-zero-below (suc n) (suc a) h =
    omega (arith, or_digit (suc a) 0, or-zero-below n (suc a / 2) (omega arith))

bit_or-zero : (a : ℕ) → bit_or a 0 ≡ a
bit_or-zero a = or-zero-below a a (le_refl a)

pub two-pow-pos : (k : ℕ) → 1 ≤ 2 ^ k
two-pow-pos zero = omega arith
two-pow-pos (suc k) = omega (arith, pow-suc 2 k, two-pow-pos k)

suc_plus : (a b : ℕ) → suc a + b ≡ suc (a + b)
suc_plus a b = omega arith

pub pow-add : (a b : ℕ) → 2 ^ (a + b) ≡ 2 ^ b * 2 ^ a
pow-add zero b = ap (λ (n : ℕ). 2 ^ n) (zero_plus b) ∙ times_one (2 ^ b)
  where
    zero_plus : (n : ℕ) → 0 + n ≡ n
    zero_plus n = omega arith

    times_one : (n : ℕ) → n ≡ n * 2 ^ 0
    times_one n = omega arith
pow-add (suc a) b =
    ap (λ (n : ℕ). 2 ^ n) (suc_plus a b)
    ∙ pow-suc 2 (a + b)
    ∙ ap (λ (t : ℕ). t * 2) (pow-add a b)
    ∙ mul_assoc' (2 ^ b) (2 ^ a)
    ∙ ap (λ t. 2 ^ b * t) (sym (pow-suc 2 a))
  where
    mul_assoc' : (x y : ℕ) → x * y * 2 ≡ x * (y * 2)
    mul_assoc' x y = ground arith

times-pow-suc : (q k : ℕ) → q * 2 ^ suc k ≡ 2 * (q * 2 ^ k)
times-pow-suc q k = omega (arith, ap (λ (t : ℕ). q * t) (pow-suc 2 k))

-- `(q << k) | r` adds, where `r` has at most `k` bits.
pub bit_or-shl : (k q r : ℕ) → r < 2 ^ k → bit_or (q * 2 ^ k) r ≡ q * 2 ^ k + r
bit_or-shl zero q r h = ground (arith, bit_or-zero q)
bit_or-shl (suc k) q r h = ground (
  arith,
  times-pow-suc q k,
  bit_or-shl k q (r / 2) (omega (arith, pow-suc 2 k)),
  or_digit (q * 2 ^ suc k) r,
)

or_comm : (n a b : ℕ) → a + b ≤ n → bit_or a b ≡ bit_or b a
or_comm n zero b h = ground (arith, zero-bit_or b, bit_or-zero b)
or_comm zero (suc a) b h = absurd (omega arith)
or_comm (suc n) (suc a) b h =
    omega
      (arith, or_digit (suc a) b, or_digit b (suc a), or_comm n (suc a / 2) (b / 2) (omega arith))

pub bit_or_comm : (a b : ℕ) → bit_or a b ≡ bit_or b a
bit_or_comm a b = or_comm (a + b) a b (le_refl _)

and-le : (n x m : ℕ) → x ≤ n → bit_and x m ≤ m
and-le n zero m h = simp bit_and-bitwise (omega arith)
and-le zero (suc x) m h = absurd (omega arith)
and-le (suc n) (suc x) m h =
    omega (arith, and_digit (suc x) m, and-le n (suc x / 2) (m / 2) (omega arith))

pub bit_and-le : (x m : ℕ) → bit_and x m ≤ m
bit_and-le x m = and-le x x m (le_refl _)

bit_and-zero : (a : ℕ) → bit_and a 0 ≡ 0
bit_and-zero a = omega (arith, bit_and-le a 0)

-- A mask of `k` low bits over two fields.
pub bit_and-fields : (k q r : ℕ) → r < 2 ^ k → bit_and (q * 2 ^ k + r) (2 ^ k - 1) ≡ r
bit_and-fields zero q r h = rw bit_and-zero (omega arith)
bit_and-fields (suc k) q r h = ground (
  arith,
  times-pow-suc q k,
  pow-suc 2 k,
  bit_and-fields k q (r / 2) (omega (arith, pow-suc 2 k)),
  and_digit (q * 2 ^ suc k + r) (2 ^ suc k - 1),
)

pub bit_and-low : (k x : ℕ) → bit_and x (2 ^ k - 1) ≡ x % 2 ^ k
bit_and-low k x = ground (arith, two-pow-pos k, bit_and-fields k (x / 2 ^ k) (x % 2 ^ k))

-- A mask that leaves the `k` lowest bits out.
pub bit_and-shl : (k x m : ℕ) → bit_and x (m * 2 ^ k) ≡ bit_and (x / 2 ^ k) m * 2 ^ k
bit_and-shl zero x m = ground arith
bit_and-shl (suc k) x m = ground (
  arith,
  times-pow-suc m k,
  pow-suc 2 k,
  and_digit x (m * 2 ^ suc k),
  bit_and-shl k (x / 2) m,
  div-div-eq-div-mul x 2 (2 ^ k),
  ap (λ (t : ℕ). bit_and (x / 2 ^ suc k) m * t) (pow-suc 2 k),
)

differ-lt : (a b : ℕ) → a < 2 → b < 2 → differ a b < 2
differ-lt zero b ha hb = hb
differ-lt (suc zero) zero ha hb = ha
differ-lt (suc zero) (suc b) ha hb = omega arith
differ-lt (suc (suc a)) b ha hb = absurd (omega arith)

differ_undo : (a b : ℕ) → a < 2 → b < 2 → differ (differ a b) b ≡ a
differ_undo zero zero ha hb = refl
differ_undo zero (suc zero) ha hb = refl
differ_undo (suc zero) zero ha hb = refl
differ_undo (suc zero) (suc zero) ha hb = refl
differ_undo (suc (suc a)) b ha hb = absurd (omega arith)
differ_undo zero (suc (suc b)) ha hb = absurd (omega arith)
differ_undo (suc zero) (suc (suc b)) ha hb = absurd (omega arith)

bit_xor_digit :
    (x k : ℕ)
    → (bit_xor x k / 2 ≡ bit_xor (x / 2) (k / 2)) × (bit_xor x k % 2 ≡ differ (x % 2) (k % 2))
bit_xor_digit x k =
    let small = differ-lt (x % 2) (k % 2) (omega arith) (omega arith) in
    (omega (arith, xor_digit x k), omega (arith, xor_digit x k))

halves : (x k : ℕ) → bit_xor (bit_xor (x / 2) (k / 2)) (k / 2) ≡ x / 2 → bit_xor (bit_xor x k) k ≡ x
halves x k h =
    let (hi, lo) = bit_xor_digit x k in
    xor_digit (bit_xor x k) k
    ∙ rw (hi, lo, h, differ_undo (x % 2) (k % 2) (omega arith) (omega arith)) (omega arith)

xor_twice : (n x k : ℕ) → x + k ≤ n → bit_xor (bit_xor x k) k ≡ x
xor_twice n zero zero h = refl
xor_twice zero (suc x) k h = absurd (omega arith)
xor_twice zero zero (suc k) h = absurd (omega arith)
xor_twice (suc n) zero (suc k) h = halves 0 (suc k) (xor_twice n (0 / 2) (suc k / 2) (omega arith))
xor_twice (suc n) (suc x) k h = halves (suc x) k (xor_twice n (suc x / 2) (k / 2) (omega arith))

-- `^` with one key twice gives the value back.
pub bit_xor-bit_xor : (x k : ℕ) → bit_xor (bit_xor x k) k ≡ x
bit_xor-bit_xor x k = xor_twice (x + k) x k (le_refl _)

-- The test of one bit.
pub bit_and-two_pow : (k x : ℕ) → bit_and x (2 ^ k) ≡ x / 2 ^ k % 2 * 2 ^ k
bit_and-two_pow k x =
    ap (bit_and x) (one_times (2 ^ k))
    ∙ bit_and-shl k x 1
    ∙ ap (λ (t : ℕ). t * 2 ^ k) (bit_and-low 1 (x / 2 ^ k))
  where
    one_times : (n : ℕ) → n ≡ 1 * n
    one_times n = omega arith

-- `|` adds where the left side has no bit below `k` and the right side none from `k` on.
pub bit_or-add : (k q x r : ℕ) → x ≡ q * 2 ^ k → r < 2 ^ k → bit_or x r ≡ x + r
bit_or-add k q x r e h = ap (λ y. bit_or y r) e ∙ bit_or-shl k q r h ∙ ap (λ y. y + r) (sym e)
