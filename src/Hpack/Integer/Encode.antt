-- ===== src/Hpack/Integer/Encode.antt =====
-- What `encode_integer_hpack` of src/viriatum/http/hpack.c writes, and when it has no room.
use viriatum.Base.{ℕ, zero, suc, ◌+◌, ◌-◌, ◌/◌, ◌%◌, ◌^◌, ◌<◌, arith}
use viriatum.Base.{List, length, set, length-set, leb, if◌then◌else◌, ◌≡◌}
use viriatum.Base.{two-pow-pos, overwrite, ok, err, lt_wf}
use viriatum.Hpack.{no_space_integer}
use viriatum.Hpack.Integer.{encode_integer_loop, encode_integer}
use viriatum.Hpack.Integer.Bytes.{groups, integer_bytes, IsFlags, or_80, or_flags, length-groups}
use mathlib.Core.WellFounded.{Acc}

encode_integer_loop-groups :
    (k : ℕ) (buffer : List ℕ) (position value : ℕ) (w : Acc ◌<◌ value)
    → value < 128 ^ suc k
    → encode_integer_loop buffer position value w ≡ (
        if leb (position + length (groups k value)) (length buffer)
        then ok (overwrite buffer position (groups k value), position + length (groups k value))
        else err no_space_integer)
unfolding encode_integer_loop groups overwrite
encode_integer_loop-groups zero buffer position value (Acc.intro _ smaller) h = ground arith
encode_integer_loop-groups (suc k) buffer position value (Acc.intro _ smaller) h =
    let head = value % 128 + 128 in
    grind (
      arith,
      or_80 value,
      length-set buffer position head,
      length-groups k (value / 128),
      λ (w : Acc ◌<◌ (value / 128)).
          encode_integer_loop-groups k (set buffer position head) (position + 1) (value / 128) w
            (omega arith),
    )

-- On a prefix, flags that leave it unset, and a value of `size_t`: the bytes of the representation
-- are stored from `offset` on and the offset moves past them, if they fit the buffer; otherwise
-- the answer is the error for the lack of space.
pub encode_integer-bytes :
    (buffer : List ℕ) (offset prefix flags value : ℕ)
    → IsFlags prefix flags
    → value < 2 ^ 64
    → let bytes = integer_bytes prefix flags value in
      encode_integer buffer offset prefix flags value ≡ (
        if leb (offset + length bytes) (length buffer)
        then ok (overwrite buffer offset bytes, offset + length bytes)
        else err no_space_integer)
unfolding encode_integer integer_bytes overwrite
encode_integer-bytes buffer offset prefix flags value h lt =
    let mask = 2 ^ prefix - 1 in
    ground (
      arith,
      two-pow-pos prefix,
      or_flags prefix flags value h,
      or_flags prefix flags mask h,
      length-set buffer offset (flags + mask),
      length-groups 9 (value - mask),
      encode_integer_loop-groups 9 (set buffer offset (flags + mask)) (offset + 1) (value - mask)
          (lt_wf.apply (value - mask)) (omega arith),
    )
