-- ===== src/Hpack/Strings/RoundTrip.antt =====
-- `decode_string_hpack` of src/viriatum/http/hpack.c after `encode_string_hpack`.
use viriatum.Base.{ℕ, ◌+◌, ◌-◌, ◌≤◌, ◌<◌, arith, List, ◌++◌}
use viriatum.Base.{length, length-append, get_or, get_elem?, All, IsByte, ltb}
use viriatum.Base.{overwrite, Holds, Holds-append, Holds-length}
use viriatum.Base.{slice_of_Holds, get_or_of_get_elem?, bit_and, ◌≡◌, refl, sym, ap, ◌∙◌}
use viriatum.Base.{
  ok, ◌>>=◌, ◌>>◌, raise_if, >>=-eq-ok, Bool-cases, inl, inr, ◌⊎◌, ltb→lt, Holds-overwrite,
  get_elem?-overwrite_below,
}
use viriatum.Hpack.{max_integer, no_space_coded_string, no_space_string}
use viriatum.Hpack.Integer.{encode_integer}
use viriatum.Hpack.Integer.Bytes.{integer_bytes, IsFlags, and_80}
use viriatum.Hpack.Integer.RoundTrip.{decode_integer-bytes}
use viriatum.Hpack.Huffman.{decode_huffman, size_huffman}
use viriatum.Hpack.Huffman.Decode.{decode_huffman-string_bits}
use viriatum.Hpack.Huffman.Encode.{encode_huffman-Coded}
use viriatum.Hpack.Huffman.RoundTrip.{Coded-size}
use viriatum.Hpack.Strings.{
  decode_characters, decode_string, encode_coded, encode_plain, encode_string,
}
use viriatum.Hpack.Strings.Stored.{
  Stored, Stored-append, answered, encode_integer-Stored, behind-Stored, integer_bytes-head,
}

coded-IsFlags : IsFlags 7 0x80
coded-IsFlags = omega arith

plain-IsFlags : IsFlags 7 0x00
plain-IsFlags = omega arith

first_flag :
    (block : List ℕ) (offset flags value : ℕ)
    → (flags ≡ 0x80) ⊎ (flags ≡ 0)
    → Holds block offset (integer_bytes 7 flags value)
    → bit_and (get_or block offset 0) 0x80 ≡ flags
first_flag block offset flags value f holds =
    let (low, rest, small, e) = integer_bytes-head 7 flags value in
    let (first, _) = rw e at holds in
    let read = get_or_of_get_elem? block offset (flags + low) 0 first in
    ap (λ b. bit_and b 0x80) read
    ∙ and_80 (flags + low)
    ∙ elim f [ inl c ↦ omega arith | inr c ↦ omega arith ]

-- The string behind the integer of its size.
decode_string-characters :
    (block : List ℕ) (offset flags : ℕ) (payload : List ℕ) (size : ℕ)
    → (flags ≡ 0x80) ⊎ (flags ≡ 0)
    → IsFlags 7 flags
    → length payload ≤ max_integer
    → Holds block offset (integer_bytes 7 flags (length payload) ++ payload)
    → let position = offset + length (integer_bytes 7 flags (length payload)) in
      decode_string block offset size ≡ (
        decode_characters block position (length payload) flags size >>= λ string.
        ok (string, position + length payload))
unfolding decode_string
decode_string-characters block offset flags payload size f h small holds =
    let value = length payload in
    let ib = integer_bytes 7 flags value in
    let (front, back) = Holds-append block offset ib payload holds in
    let read = decode_integer-bytes block offset 7 flags value h (omega arith) front in
    let some_byte : 0 < length ib =
      let (low, rest, _, head) = integer_bytes-head 7 flags value in
      omega (arith, ap length head) in
    let inside =
      Holds-length block offset (ib ++ payload) holds
        (omega (arith, length-append ib payload, some_byte)) in
    ground (
      arith,
      read,
      inside,
      some_byte,
      length-append ib payload,
      first_flag block offset flags value f front,
    )

-- The bytes of an encoded string, which any block that holds them decodes to it.
pub record StoredString (buffer : List ℕ) (offset : ℕ) (string buffer' : List ℕ) (end : ℕ)
    : Type 0 where
  pub bytes : List ℕ
  pub stored : Stored buffer offset bytes buffer' end
  pub reads :
      (block : List ℕ) (size : ℕ)
      → Holds block offset bytes
      → length string ≤ size
      → decode_string block offset size ≡ ok (string, end)

plain_characters :
    (block : List ℕ) (position : ℕ) (string : List ℕ) (size : ℕ)
    → Holds block position string
    → length string ≤ size
    → decode_characters block position (length string) 0 size ≡ ok string
unfolding decode_characters
plain_characters block position string size holds le =
    rw (slice_of_Holds block position string holds) (ground arith)

coded_characters :
    (block : List ℕ) (position : ℕ) (coded string : List ℕ) (size : ℕ)
    → Holds block position coded
    → decode_huffman coded size ≡ ok string
    → decode_characters block position (length coded) 0x80 size ≡ ok string
unfolding decode_characters
coded_characters block position coded string size holds e =
    rw (slice_of_Holds block position coded holds) e

plain_stored :
    (buffer : List ℕ) (offset : ℕ) (string buffer' : List ℕ) (end : ℕ)
    → offset ≤ length buffer
    → ◌>>◌ {B = List ℕ × ℕ}
        (raise_if (ltb (length buffer - offset) (length string)) no_space_string)
        (ok (overwrite buffer offset string, offset + length string))
      ≡ ok (buffer', end)
    → Stored buffer offset string buffer' end
plain_stored buffer offset string buffer' end le e = record {
  room = ground arith;
  same = ground arith;
  moved = ground arith;
}

plain-StoredString :
    (buffer : List ℕ) (offset : ℕ) (string buffer' : List ℕ) (end : ℕ)
    → length string ≤ max_integer
    → encode_plain buffer offset string ≡ ok (buffer', end)
    → StoredString buffer offset string buffer' end
unfolding encode_plain
plain-StoredString buffer offset string buffer' end small e =
    let ib = integer_bytes 7 0 (length string) in
    let ((b1, o1), first, rest) =
      >>=-eq-ok (encode_integer buffer offset 7 0 (length string)) _ e in
    let s1 =
      encode_integer-Stored buffer offset 7 0 (length string) b1 o1 plain-IsFlags (omega arith)
        first in
    let s2 : Stored b1 o1 string buffer' end =
      plain_stored b1 o1 string buffer' end ((behind-Stored buffer offset ib b1 o1 s1).0) rest in
    let s = Stored-append buffer offset ib string b1 o1 buffer' end s1 s2 in
    record {
      bytes = ib ++ string;
      stored = s;
      reads = λ block size holds le.
          let (_, back) = Holds-append block offset ib string holds in
          decode_string-characters block offset 0 string size (inr refl) plain-IsFlags small holds
          ∙ rw (plain_characters block (offset + length ib) string size back le)
              (ap (λ p. ok (string, p)) (omega (arith, s.moved, length-append ib string)));
    }

coded-StoredString :
    (buffer : List ℕ) (offset : ℕ) (string buffer' : List ℕ) (end : ℕ)
    → All IsByte string
    → length string ≤ max_integer
    → size_huffman string < length string
    → encode_coded buffer offset string ≡ ok (buffer', end)
    → StoredString buffer offset string buffer' end
unfolding encode_coded
coded-StoredString buffer offset string buffer' end b small shorter e =
    let size' = size_huffman string in
    let ((b1, o1), first, rest) = >>=-eq-ok (encode_integer buffer offset 7 0x80 size') _ e in
    let s0 =
      encode_integer-Stored buffer offset 7 0x80 size' b1 o1 coded-IsFlags (omega arith) first in
    let c =
      encode_huffman-Coded b1 o1 string
        ((behind-Stored buffer offset (integer_bytes 7 0x80 size') b1 o1 s0).0) in
    let sized = Coded-size b1 o1 string c in
    let ib = integer_bytes 7 0x80 (length c.bytes) in
    let s1 =
      encode_integer-Stored buffer offset 7 0x80 (length c.bytes) b1 o1 coded-IsFlags
        (omega (arith, sized)) (ap (encode_integer buffer offset 7 0x80) sized ∙ first) in
    let s2 = answered no_space_coded_string b1 o1 c.bytes buffer' end (sym c.answer ∙ rest) in
    let s = Stored-append buffer offset ib c.bytes b1 o1 buffer' end s1 s2 in
    record {
      bytes = ib ++ c.bytes;
      stored = s;
      reads = λ block size holds le.
          let (_, back) = Holds-append block offset ib c.bytes holds in
          let decoded =
            decode_huffman-string_bits c.bytes string c.padding size b c.short c.stream in
          let fits : decode_huffman c.bytes size ≡ ok string = ground (arith, decoded) in
          decode_string-characters block offset 0x80 c.bytes size (inl refl) coded-IsFlags
            (omega (arith, sized)) holds
          ∙ rw (coded_characters block (offset + length ib) c.bytes string size back fits)
              (ap (λ p. ok (string, p)) (omega (arith, s.moved, length-append ib c.bytes)));
    }

-- What `encode_string_hpack` stores.
pub encode_string-StoredString :
    (buffer : List ℕ) (offset : ℕ) (string buffer' : List ℕ) (end : ℕ)
    → All IsByte string
    → length string ≤ max_integer
    → encode_string buffer offset string ≡ ok (buffer', end)
    → StoredString buffer offset string buffer' end
unfolding encode_string
encode_string-StoredString buffer offset string buffer' end b small e =
    elim (Bool-cases (ltb (size_huffman string) (length string))) [
      | inl shorter ↦
          coded-StoredString buffer offset string buffer' end b small (ltb→lt _ _ shorter)
            (rw shorter at e)
      | inr longer ↦ plain-StoredString buffer offset string buffer' end small (rw longer at e)
    ]

-- The string of bytes that `encode_string_hpack` stores, coded or not, `decode_string_hpack` reads
-- back from the same offset into any buffer that has the room for it, as long as it has at most
-- 0x0fffffff bytes: it answers with the string and the offset that the encoding has returned. The
-- encoding keeps the size of the buffer and the bytes before the offset.
pub decode_string-encode_string :
    (buffer : List ℕ) (offset : ℕ) (string buffer' : List ℕ) (end size : ℕ)
    → All IsByte string
    → length string ≤ max_integer
    → length string ≤ size
    → encode_string buffer offset string ≡ ok (buffer', end)
    → (decode_string buffer' offset size ≡ ok (string, end))
      × (length buffer' ≡ length buffer)
      × ((i : ℕ) → i < offset → get_elem? buffer' i ≡ get_elem? buffer i)
decode_string-encode_string buffer offset string buffer' end size b small le e =
    let w = encode_string-StoredString buffer offset string buffer' end b small e in
    let holds = Holds-overwrite buffer offset w.bytes w.stored.room in
    (
      w.reads buffer' size (rw w.stored.same at holds) le,
      (behind-Stored buffer offset w.bytes buffer' end w.stored).1,
      λ i lt. rw (← w.stored.same) (get_elem?-overwrite_below buffer offset i w.bytes lt),
    )
