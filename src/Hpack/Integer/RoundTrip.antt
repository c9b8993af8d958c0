-- ===== src/Hpack/Integer/RoundTrip.antt =====
-- `decode_integer_hpack` reads what `encode_integer_hpack` wrote (src/viriatum/http/hpack.c).
use viriatum.Base.{ℕ, zero, suc, ◌+◌, ◌-◌, ◌*◌, ◌/◌, ◌%◌, ◌^◌, ◌≤◌, ◌<◌, arith}
use viriatum.Base.{
  List, ◌∷◌, ◌++◌, length, get_elem?, ltb, leb, if◌then◌else◌, ◌||◌, ◌≡◌, sym, ap, ◌∙◌,
}
use viriatum.Base.{
  two-pow-pos, Holds, drop_of_Holds, Holds-overwrite, overwrite, get_elem?-overwrite_below,
}
use viriatum.Base.{Result, ok, err}
use viriatum.Hpack.{HpackError, overflowing_integer, no_space_integer, max_integer}
use viriatum.Hpack.Integer.{decode_integer_loop, decode_integer_first, decode_integer}
use viriatum.Hpack.Integer.{encode_integer}
use viriatum.Hpack.Integer.Encode.{encode_integer-bytes}
use viriatum.Hpack.Integer.Bytes.{groups, integer_bytes, IsFlags, and_7f, and_80, and_mask}
use native.Mathlib.Nat.{div-add-mod, pow-le-pow_right}
use native.Mathlib.Numerals.{towards_suc}

-- The answer once the whole integer has been read: a value above the limit is refused.
abbrev accepted : ℕ → ℕ → Result HpackError (ℕ × ℕ)
accepted position value =
    if ltb max_integer value then err overflowing_integer else ok (position, value)

shift_seven : (s : ℕ) → 2 ^ (s + 7) ≡ 128 * 2 ^ s
shift_seven s = simp towards_suc (omega arith)

-- The lowest group of `v` and what is above it, both shifted by `s`.
split_group : (v s : ℕ) → v * 2 ^ s ≡ v % 128 * 2 ^ s + v / 128 * 2 ^ (s + 7)
split_group v s = omega (
  arith,
  ap (λ (t : ℕ). t * 2 ^ s) (div-add-mod v 128),
  ap (λ (t : ℕ). v / 128 * t) (shift_seven s),
)

-- One round of the loop, at each of the five shifts that it reaches: on a last byte, and on a byte
-- with the continuation bit over the group `g`.
last_byte :
    (j v position result : ℕ) (rest : List ℕ)
    → v < 128
    → j ≤ 4
    → j ≤ 3 + v
    → result ≤ max_integer
    → decode_integer_loop (v ∷ rest) position result (7 * j)
      ≡ accepted (position + 1) (result + v * 2 ^ (7 * j))
unfolding decode_integer_loop
last_byte (suc (suc (suc (suc (suc j))))) v position result rest hv hj h hr = absurd (omega arith)
last_byte j v position result rest hv hj h hr = ground (arith, and_7f v, and_80 v)

inner_byte :
    (j g position result : ℕ) (rest : List ℕ)
    → g < 128
    → j ≤ 4
    → result ≤ max_integer
    → decode_integer_loop ((g + 128) ∷ rest) position result (7 * j) ≡ (
        if ltb 3 j || ltb max_integer (result + g * 2 ^ (7 * j))
        then err overflowing_integer
        else decode_integer_loop rest (position + 1) (result + g * 2 ^ (7 * j)) (7 * j + 7))
unfolding decode_integer_loop
inner_byte (suc (suc (suc (suc (suc j))))) g position result rest hg hj hr = absurd (omega arith)
inner_byte j g position result rest hg hj hr = ground (arith, and_7f (g + 128), and_80 (g + 128))

next_shift : (j : ℕ) → 7 * j + 7 ≡ 7 * suc j
next_shift j = omega arith

-- From the fifth group on every value is above the limit.
beyond : (j v : ℕ) → 3 < j → 1 ≤ v → max_integer < v * 2 ^ (7 * j)
beyond j v hj hv =
    grind (arith, pow-le-pow_right {n = 2} (omega arith) {i = 28} {j = 7 * j} (omega arith))

-- `v` is what is still to be read, from bit `7 * j` on.
decode_integer_loop-groups :
    (k j v position result : ℕ) (rest : List ℕ)
    → v < 128 ^ suc k
    → j ≤ 4
    → j ≤ 3 + v
    → result ≤ max_integer
    → decode_integer_loop (groups k v ++ rest) position result (7 * j)
      ≡ accepted (position + length (groups k v)) (result + v * 2 ^ (7 * j))
unfolding groups
decode_integer_loop-groups zero j v position result rest hv hj h hr =
    last_byte j v position result rest hv hj h hr
decode_integer_loop-groups (suc k) j v position result rest hv hj h hr = ground (
  arith,
  last_byte j v position result rest,
  inner_byte j (v % 128) position result (groups k (v / 128) ++ rest),
  split_group v (7 * j),
  beyond j v,
  ap
      (λ s.
        decode_integer_loop (groups k (v / 128) ++ rest) (position + 1)
          (result + v % 128 * 2 ^ (7 * j)) s)
      (next_shift j),
  ap (λ (s : ℕ). v / 128 * 2 ^ s) (next_shift j),
  decode_integer_loop-groups k (suc j) (v / 128) (position + 1) (result + v % 128 * 2 ^ (7 * j))
      rest,
)

first_bytes :
    (offset prefix flags value : ℕ) (rest : List ℕ)
    → IsFlags prefix flags
    → value < 2 ^ 64
    → decode_integer_first (integer_bytes prefix flags value ++ rest) offset (1 * 2 ^ prefix - 1)
      ≡ accepted (offset + length (integer_bytes prefix flags value)) value
unfolding decode_integer_first integer_bytes
first_bytes offset prefix flags value rest h lt =
    let mask = 2 ^ prefix - 1 in
    ground (
      arith,
      two-pow-pos prefix,
      and_mask prefix flags value h,
      and_mask prefix flags mask h,
      decode_integer_loop-groups 9 0 (value - mask) (offset + 1) mask rest (omega arith),
    )

-- `decode_integer_hpack` over a buffer that holds the representation of a value of `size_t` answers
-- with that value and the offset behind it, if the value is within the limit; a value above the
-- limit is refused as an overflow.
pub decode_integer-bytes :
    (buffer : List ℕ) (offset prefix flags value : ℕ)
    → IsFlags prefix flags
    → value < 2 ^ 64
    → Holds buffer offset (integer_bytes prefix flags value)
    → decode_integer buffer offset prefix
      ≡ accepted (offset + length (integer_bytes prefix flags value)) value
unfolding decode_integer
decode_integer-bytes buffer offset prefix flags value h lt holds =
    rw (drop_of_Holds buffer offset (integer_bytes prefix flags value) holds)
      (first_bytes offset prefix flags value _ h lt)

-- Whatever `encode_integer_hpack` stores, for a prefix of at most eight bits, flags that leave it
-- unset and a value of `size_t`, `decode_integer_hpack` reads back from the same offset: it answers
-- with the value and the offset that the encoding has returned, or, exactly for a value above
-- 0x0fffffff, with the overflow error. The bytes before the offset are the ones of the old buffer.
pub decode_integer-encode_integer :
    (buffer : List ℕ) (offset prefix flags value : ℕ) (buffer' : List ℕ) (offset' : ℕ)
    → IsFlags prefix flags
    → value < 2 ^ 64
    → encode_integer buffer offset prefix flags value ≡ ok (buffer', offset')
    → (decode_integer buffer' offset prefix
        ≡ (if ltb max_integer value then err overflowing_integer else ok (offset', value)))
      × ((i : ℕ) → i < offset → get_elem? buffer' i ≡ get_elem? buffer i)
decode_integer-encode_integer buffer offset prefix flags value buffer' offset' h lt e =
    let bytes = integer_bytes prefix flags value in
    let (room, same, moved) =
      stored bytes (sym (encode_integer-bytes buffer offset prefix flags value h lt) ∙ e) in
    (
      rw (← same, ← moved)
          (decode_integer-bytes _ offset prefix flags value h lt
            (Holds-overwrite buffer offset bytes room)),
      λ i hi. rw (← same) (get_elem?-overwrite_below buffer offset i bytes hi),
    )
  where
    stored :
        (bytes : List ℕ)
        → ◌≡◌ {A = Result HpackError (List ℕ × ℕ)}
            (if leb (offset + length bytes) (length buffer)
              then ok (overwrite buffer offset bytes, offset + length bytes)
              else err no_space_integer)
            (ok (buffer', offset'))
        → (offset + length bytes ≤ length buffer)
          × (overwrite buffer offset bytes ≡ buffer')
          × (offset + length bytes ≡ offset')
    stored bytes q = ground arith
