-- ===== src/Hpack/Strings/Bounds.antt =====
-- `decode_string_hpack` of src/viriatum/http/hpack.c on any block.
use viriatum.Base.{
  ℕ, ◌+◌, ◌-◌, ◌≤◌, ◌<◌, arith, List, length, get_or, slice, drop, length-take, length-drop,
}
use viriatum.Base.{
  ◌≡◌, refl, Bool, true, false, ltb, leb, Result, ok, ◌>>◌, raise_if, >>=-eq-ok, bit_and,
}
use viriatum.Hpack.{HpackError, truncated_string}
use viriatum.Hpack.Integer.{decode_integer}
use viriatum.Hpack.Integer.Bounds.{decode_integer_takes}
use viriatum.Hpack.Huffman.Bounds.{decode_huffman_fits}
use viriatum.Hpack.Strings.{decode_characters, decode_string}

length-slice : (xs : List ℕ) (p n : ℕ) → p + n ≤ length xs → length (slice xs p n) ≡ n
unfolding slice
length-slice xs p n le = length-take n (drop p xs) (omega (arith, length-drop p xs))

decode_characters_fits :
    (block : List ℕ) (position size flag buffer_size : ℕ) (string : List ℕ)
    → position + size ≤ length block
    → decode_characters block position size flag buffer_size ≡ ok string
    → length string ≤ buffer_size
unfolding decode_characters
decode_characters_fits block position size flag buffer_size string le e = ground (
  arith,
  length-slice block position size le,
  decode_huffman_fits (slice block position size) buffer_size string,
)

pub raised :
    (b : Bool) (x : HpackError) {A : Type 0} (m : Result HpackError A) {a : A}
    → (raise_if b x >> m) ≡ ok a
    → (b ≡ false) × (m ≡ ok a)
raised true x m h = cc
raised false x m h = (refl, h)

-- Whatever the block holds, a string that is decoded takes at least a byte of it, ends inside it and
-- has no more bytes than the buffer of the caller has room for.
pub decode_string_takes :
    (block : List ℕ) (offset buffer_size : ℕ) (string : List ℕ) (end : ℕ)
    → decode_string block offset buffer_size ≡ ok (string, end)
    → (offset < end) × (end ≤ length block) × (length string ≤ buffer_size)
unfolding decode_string
decode_string_takes block offset buffer_size string end e =
    let (_, e1) = raised (leb (length block) offset) truncated_string _ e in
    let ((position, size), integer, e2) = >>=-eq-ok (decode_integer block offset 7) _ e1 in
    let (low, inside, _, _) =
      decode_integer_takes block offset 7 position size (omega arith) integer in
    let (enough, e3) = raised (ltb (length block - position) size) truncated_string _ e2 in
    let flag = bit_and (get_or block offset 0) 0x80 in
    let (characters, found, last) =
      >>=-eq-ok (decode_characters block position size flag buffer_size) _ e3 in
    let within : position + size ≤ length block = ground arith in
    let fits =
      decode_characters_fits block position size flag buffer_size characters within found in
    ground (arith, fits)
