-- ===== src/Hpack/Strings/Stored.antt =====
-- What an encoding of src/viriatum/http/hpack.c has stored in a buffer.
use viriatum.Base.{ℕ, ◌+◌, ◌-◌, ◌^◌, ◌≤◌, ◌<◌, arith, List, [], ◌∷◌, ◌++◌}
use viriatum.Base.{length, length-append, leb, if◌then◌else◌}
use viriatum.Base.{overwrite, overwrite-append, length-overwrite}
use viriatum.Base.{◌≡◌, sym, ap, ◌∙◌}
use viriatum.Base.{Result, ok, err, two-pow-pos, dec_lt}
use viriatum.Hpack.{HpackError, no_space_integer}
use viriatum.Hpack.Integer.{encode_integer}
use viriatum.Hpack.Integer.Bytes.{integer_bytes, groups, IsFlags}
use viriatum.Hpack.Integer.Encode.{encode_integer-bytes}

-- The buffer after `bytes` have been stored from `offset` on.
pub record Stored (buffer : List ℕ) (offset : ℕ) (bytes buffer' : List ℕ) (end : ℕ) : Type 0 where
  pub room : offset + length bytes ≤ length buffer
  pub same : overwrite buffer offset bytes ≡ buffer'
  pub moved : offset + length bytes ≡ end

pub Stored-append :
    (buffer : List ℕ) (offset : ℕ) (xs ys buffer' : List ℕ) (middle : ℕ) (buffer'' : List ℕ)
    (end : ℕ)
    → Stored buffer offset xs buffer' middle
    → Stored buffer' middle ys buffer'' end
    → Stored buffer offset (xs ++ ys) buffer'' end
Stored-append buffer offset xs ys buffer' middle buffer'' end s s' = record {
  room = omega (
    arith,
    s.moved,
    s'.room,
    ap length s.same,
    length-overwrite buffer offset xs,
    length-append xs ys,
  );
  same = overwrite-append buffer offset xs ys ∙ cc (s.same, s.moved, s'.same);
  moved = omega (arith, s.moved, s'.moved, length-append xs ys);
}

pub answered :
    (e : HpackError) (buffer : List ℕ) (offset : ℕ) (bytes buffer' : List ℕ) (end : ℕ)
    → ◌≡◌ {A = Result HpackError (List ℕ × ℕ)}
        (if leb (offset + length bytes) (length buffer)
          then ok (overwrite buffer offset bytes, offset + length bytes)
          else err e)
        (ok (buffer', end))
    → Stored buffer offset bytes buffer' end
answered e buffer offset bytes buffer' end q = record {
  room = ground arith;
  same = ground arith;
  moved = ground arith;
}

pub encode_integer-Stored :
    (buffer : List ℕ) (offset prefix flags value : ℕ) (buffer' : List ℕ) (end : ℕ)
    → IsFlags prefix flags
    → value < 2 ^ 64
    → encode_integer buffer offset prefix flags value ≡ ok (buffer', end)
    → Stored buffer offset (integer_bytes prefix flags value) buffer' end
encode_integer-Stored buffer offset prefix flags value buffer' end h lt e =
    answered no_space_integer buffer offset (integer_bytes prefix flags value) buffer' end
      (sym (encode_integer-bytes buffer offset prefix flags value h lt) ∙ e)

pub behind-Stored :
    (buffer : List ℕ) (offset : ℕ) (bytes buffer' : List ℕ) (end : ℕ)
    → Stored buffer offset bytes buffer' end
    → (end ≤ length buffer') × (length buffer' ≡ length buffer)
behind-Stored buffer offset bytes buffer' end s =
    omega (arith, s.room, s.moved, ap length s.same, length-overwrite buffer offset bytes)

-- The first byte of an integer: the flags and what the prefix holds.
pub integer_bytes-head :
    (prefix flags value : ℕ)
    → (low : ℕ) × (rest : List ℕ) × (low < 2 ^ prefix)
      × (integer_bytes prefix flags value ≡ (flags + low) ∷ rest)
unfolding integer_bytes
integer_bytes-head prefix flags value =
    let pos = two-pow-pos prefix in
    elim (dec_lt value (2 ^ prefix - 1)) [
      | yes lt ↦ (value, [], omega arith, ground arith)
      | no ge ↦ (2 ^ prefix - 1, groups 9 (value - (2 ^ prefix - 1)), omega arith, ground arith)
    ]
