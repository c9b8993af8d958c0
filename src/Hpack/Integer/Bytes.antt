-- ===== src/Hpack/Integer/Bytes.antt =====
-- The prefix based representation of an integer, in plain arithmetic, and the masks that
-- src/viriatum/http/hpack.c reads and writes it with.
use viriatum.Base.{ℕ, zero, suc, ◌+◌, ◌-◌, ◌*◌, ◌/◌, ◌%◌, ◌^◌, ◌≤◌, ◌<◌, bit_and, bit_or, arith}
use viriatum.Base.{List, [], ◌∷◌, length, ltb, if◌then◌else◌, ◌≡◌, sym, ap, ◌∙◌, u8}
use viriatum.Base.{bit_and-low, bit_and-fields, bit_or-shl, bit_or_comm, bit_and-two_pow}

-- The groups of seven bits of `v`, lowest first, for `v` below 128 ^ (k + 1).
unfoldable pub groups : ℕ → ℕ → List ℕ
groups zero v = v ∷ []
groups (suc k) v =
    let rest = groups k (v / 128) in if ltb v 128 then v ∷ [] else (v % 128 + 128) ∷ rest

unfoldable pub integer_bytes : ℕ → ℕ → ℕ → List ℕ
integer_bytes prefix flags value =
    let mask = 2 ^ prefix - 1 in
    if ltb value mask then (flags + value) ∷ [] else (flags + mask) ∷ groups 9 (value - mask)

-- The flags leave the bits of the prefix unset, and fit the byte.
pub record IsFlags (prefix flags : ℕ) : Type 0 where
  pub high : flags / 2 ^ prefix * 2 ^ prefix ≡ flags
  pub fits : flags + 2 ^ prefix ≤ 256

pub and_7f : (b : ℕ) → bit_and b 0x7f ≡ b % 128
and_7f b = bit_and-low 7 b

pub and_80 : (b : ℕ) → bit_and b 0x80 ≡ b / 128 % 2 * 128
and_80 b = bit_and-two_pow 7 b

pub or_80 : (v : ℕ) → u8 (bit_or (bit_and v 0x7f) 0x80) ≡ v % 128 + 128
or_80 v =
    omega (arith, and_7f v, bit_or_comm (bit_and v 0x7f) 0x80, bit_or-shl 7 1 (bit_and v 0x7f))

pub or_flags :
    (prefix flags v : ℕ) → IsFlags prefix flags → v < 2 ^ prefix → u8 (bit_or flags v) ≡ flags + v
or_flags prefix flags v h lt =
    let q = flags / 2 ^ prefix in
    let joined = ap (λ f. bit_or f v) (sym h.high) ∙ bit_or-shl prefix q v lt in
    omega (arith, joined, h.high)

pub and_mask :
    (prefix flags v : ℕ)
    → IsFlags prefix flags
    → v < 2 ^ prefix
    → bit_and (flags + v) (2 ^ prefix - 1) ≡ v
and_mask prefix flags v h lt =
    ap (λ f. bit_and (f + v) (2 ^ prefix - 1)) (sym h.high)
    ∙ bit_and-fields prefix (flags / 2 ^ prefix) v lt

pub length-groups : (k v : ℕ) → (1 ≤ length (groups k v)) × (length (groups k v) ≤ k + 1)
unfolding groups
length-groups zero v = omega arith
length-groups (suc k) v = ground (arith, length-groups k (v / 128))
