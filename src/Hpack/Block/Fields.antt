-- ===== src/Hpack/Block/Fields.antt =====
-- `encode_hpack` of src/viriatum/http/hpack.c for one field, and what a decoder reads of it.
use viriatum.Base.{ℕ, zero, suc, ◌+◌, ◌-◌, ◌*◌, ◌/◌, ◌%◌, ◌^◌, ◌≤◌, ◌<◌, arith, List, ◌++◌}
use viriatum.Base.{length, length-append, get_or, get_elem?, All, IsByte, ◌==◌, if◌then◌else◌}
use viriatum.Base.{Holds, get_or_of_get_elem?, bit_and, bit_and-two_pow, bit_and-shl, bit_and-low}
use viriatum.Base.{ok, >>=-eq-ok, true, false, Bool, not, ◌&&◌, dec_lt}
use viriatum.Base.{◌≡◌, refl, ap, ◌∙◌, get_elem?-none}
use viriatum.Hpack.{Header, max_name_size, max_value_size}
use viriatum.Hpack.Static.{static_table}
use viriatum.Hpack.Integer.{decode_integer, encode_integer}
use viriatum.Hpack.Integer.Bytes.{integer_bytes, IsFlags, and_80}
use viriatum.Hpack.Integer.RoundTrip.{decode_integer-bytes}
use viriatum.Hpack.Strings.Stored.{Stored, encode_integer-Stored, integer_bytes-head}
use viriatum.Hpack.Table.{Table, get}
use viriatum.Hpack.Table.Spec.{length-le-total}
use viriatum.Hpack.Table.Ring.{Repr}
use viriatum.Hpack.Table.Lookup.{get_lem, length-static_table}
use viriatum.Hpack.Block.{decode_indexed, is_indexed, is_update, decode_field}
use viriatum.Hpack.Block.{encode_index, encode_indexed}

-- A field whose strings are bytes, within the sizes that the decoder accepts.
pub record IsField (h : Header) : Type 0 where
  pub name_bytes : All IsByte h.name
  pub value_bytes : All IsByte h.value
  pub name_size : length h.name ≤ max_name_size
  pub value_size : length h.value ≤ max_value_size

-- What a decoder reads of a field that has been stored: its first byte starts no size update.
pub record StoredField (t : Table) (buffer : List ℕ) (offset : ℕ) (h : Header) (t' : Table)
    (buffer' : List ℕ) (end : ℕ) : Type 0 where
  pub bytes : List ℕ
  pub stored : Stored buffer offset bytes buffer' end
  pub some_byte : 0 < length bytes
  pub reads :
      (block : List ℕ)
      → Holds block offset bytes
      → ((not (is_indexed (get_or block offset 0)) && is_update (get_or block offset 0)) ≡ false)
        × (decode_field t block offset ≡ ok (t', h, end))

pub found_index :
    (t : Table) (hs : List Header) (index : ℕ) (h : Header)
    → Repr t hs
    → get t index ≡ ok h
    → (0 < index) × (index ≤ 189)
found_index t hs zero h r e = ground (arith, get_lem t hs 0 r)
found_index t hs (suc i) h r e = elim (dec_lt i 189) [
  | yes lt ↦ omega arith
  | no ge ↦
      let total_length = length-append static_table hs in
      let past =
        get_elem?-none (static_table ++ hs) i
          (omega (arith, total_length, length-static_table, length-le-total hs, r.room)) in
      let back : suc i - 1 ≡ i = omega arith in
      ground (arith, get_lem t hs (suc i) r, ap (get_elem? (static_table ++ hs)) back, past)
]

and_40 : (b : ℕ) → bit_and b 0x40 ≡ b / 64 % 2 * 64
and_40 b = bit_and-two_pow 6 b

and_e0 : (b : ℕ) → bit_and b 0xe0 ≡ b / 32 % 8 * 32
and_e0 b = bit_and-shl 5 b 7 ∙ ap (λ n. n * 32) (bit_and-low 3 (b / 32))

-- The first byte of the three representations.
pub first_byte :
    (block : List ℕ) (offset prefix flags index : ℕ)
    → Holds block offset (integer_bytes prefix flags index)
    → (low : ℕ) × (low < 2 ^ prefix) × (get_or block offset 0 ≡ flags + low)
first_byte block offset prefix flags index holds =
    let (low, rest, small, e) = integer_bytes-head prefix flags index in
    let (first, _) = rw e at holds in
    (low, small, get_or_of_get_elem? block offset (flags + low) 0 first)

indexed_flag : (low : ℕ) → low < 128 → is_indexed (0x80 + low) ≡ true
indexed_flag low lt = ground (arith, and_80 (0x80 + low))

pub read_index :
    (block : List ℕ) (offset prefix flags index end : ℕ)
    → IsFlags prefix flags
    → index ≤ 189
    → Holds block offset (integer_bytes prefix flags index)
    → offset + length (integer_bytes prefix flags index) ≡ end
    → decode_integer block offset prefix ≡ ok (end, index)
read_index block offset prefix flags index end h small holds moved =
    ground (arith, decode_integer-bytes block offset prefix flags index h (omega arith) holds)

indexed-read :
    (t : Table) (block : List ℕ) (offset index : ℕ) (h : Header) (end : ℕ)
    → is_indexed (get_or block offset 0) ≡ true
    → get t index ≡ ok h
    → decode_integer block offset 7 ≡ ok (end, index)
    → decode_field t block offset ≡ ok (t, h, end)
unfolding decode_field decode_indexed
indexed-read t block offset index h end first found read = rw (first, read, found) refl

pub indexed-StoredField :
    (t : Table) (hs : List Header) (buffer : List ℕ) (offset : ℕ) (h : Header) (index : ℕ)
    (t' : Table) (buffer' : List ℕ) (end : ℕ)
    → Repr t hs
    → get t index ≡ ok h
    → encode_indexed t buffer offset index ≡ ok (t', buffer', end)
    → StoredField t buffer offset h t' buffer' end
unfolding encode_indexed
indexed-StoredField t hs buffer offset h index t' buffer' end r found e =
    let ((b1, o1), first, rest) = >>=-eq-ok (encode_integer buffer offset 7 0x80 index) _ e in
    let (_, small) = found_index t hs index h r found in
    let s =
      encode_integer-Stored buffer offset 7 0x80 index b1 o1 (omega arith) (omega arith) first in
    let same_table : t ≡ t' = cc in
    let same_buffer : b1 ≡ buffer' = cc in
    let same_end : o1 ≡ end = cc in
    let (low, more, _, head) = integer_bytes-head 7 0x80 index in
    record {
      bytes = integer_bytes 7 0x80 index;
      stored = rw (same_buffer, same_end) at s;
      some_byte = omega (arith, ap length head);
      reads = λ block holds.
          let (low, lt, byte) = first_byte block offset 7 0x80 index holds in
          let starts : is_indexed (get_or block offset 0) ≡ true =
            ap is_indexed byte ∙ indexed_flag low lt in
          (
            rw starts refl,
            indexed-read t block offset index h end starts found (
                  read_index block offset 7 0x80 index end (omega arith) small holds
                    (omega (arith, s.moved, same_end)))
                ∙ ap (λ t. ok (t, h, end)) same_table,
          );
    }

unfoldable pub name_prefix : Bool → ℕ
name_prefix indexing = if indexing then 6 else 4

unfoldable pub name_flags : Bool → ℕ
name_flags indexing = if indexing then 0x40 else 0x00

pub name-IsFlags : (indexing : Bool) → IsFlags (name_prefix indexing) (name_flags indexing)
unfolding name_prefix name_flags
name-IsFlags true = omega arith
name-IsFlags false = omega arith

pub encode_index-integer :
    (buffer : List ℕ) (offset : ℕ) (indexing : Bool) (index : ℕ)
    → encode_index buffer offset indexing index
      ≡ encode_integer buffer offset (name_prefix indexing) (name_flags indexing) index
unfolding encode_index name_prefix name_flags
encode_index-integer buffer offset true index = refl
encode_index-integer buffer offset false index = refl

pub literal_flags :
    (indexing : Bool) (low : ℕ)
    → low < 2 ^ name_prefix indexing
    → let byte = name_flags indexing + low in
      (is_indexed byte ≡ false)
      × (is_update byte ≡ false)
      × (not (bit_and byte 0x40 == 0) ≡ indexing)
unfolding name_prefix name_flags
literal_flags true low lt = ground (arith, and_80 (64 + low), and_40 (64 + low), and_e0 (64 + low))
literal_flags false low lt = ground (arith, and_80 (0 + low), and_40 (0 + low), and_e0 (0 + low))
