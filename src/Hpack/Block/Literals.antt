-- ===== src/Hpack/Block/Literals.antt =====
-- The literal representations of `encode_hpack` of src/viriatum/http/hpack.c.
use viriatum.Base.{ℕ, zero, suc, ◌+◌, ◌≤◌, ◌<◌, arith, List, [], ◌++◌}
use viriatum.Base.{length, length-append, get_or, ◌==◌, if◌then◌else◌}
use viriatum.Base.{overwrite, Holds, Holds-append, bit_and}
use viriatum.Base.{ok, >>=-eq-ok, false, Bool, not}
use viriatum.Base.{◌≡◌, refl, sym, ap, ◌∙◌}
use viriatum.Hpack.{Header, max_name_size, max_value_size}
use viriatum.Hpack.Integer.{decode_integer}
use viriatum.Hpack.Integer.Bytes.{integer_bytes}
use viriatum.Hpack.Strings.{decode_string, encode_string}
use viriatum.Hpack.Strings.Stored.{
  Stored, Stored-append, encode_integer-Stored, behind-Stored, integer_bytes-head,
}
use viriatum.Hpack.Strings.RoundTrip.{encode_string-StoredString}
use viriatum.Hpack.Table.{Table, get, insert}
use viriatum.Hpack.Block.{decode_name, decode_literal, is_indexed, decode_field}
use viriatum.Hpack.Block.{encode_index, encode_literal}
use viriatum.Hpack.Block.Fields.{
  IsField, StoredField, first_byte, name_prefix, name_flags, name-IsFlags, encode_index-integer,
  literal_flags, read_index,
}

-- The name of a literal: its string, or nothing but the index of it.
record StoredName (t : Table) (buffer : List ℕ) (offset : ℕ) (h : Header) (index : ℕ)
    (buffer' : List ℕ) (end : ℕ) : Type 0 where
  bytes : List ℕ
  stored : Stored buffer offset bytes buffer' end
  reads :
      (block : List ℕ)
      → Holds block offset bytes
      → decode_name t block offset index ≡ ok (h.name, end)

-- An index above 0 is that of a field with the name.
abbrev pub IsNamed : Table → Header → ℕ → Type 0
IsNamed t h index = 0 < index → (e : Header) × (get t index ≡ ok e) × (e.name ≡ h.name)

new_name :
    (t : Table) (buffer : List ℕ) (offset : ℕ) (h : Header) (buffer' : List ℕ) (end : ℕ)
    → IsField h
    → encode_string buffer offset h.name ≡ ok (buffer', end)
    → StoredName t buffer offset h 0 buffer' end
unfolding decode_name
new_name t buffer offset h buffer' end f e =
    let w =
      encode_string-StoredString buffer offset h.name buffer' end f.name_bytes
        (omega (arith, f.name_size)) e in
    record {
      bytes = w.bytes;
      stored = w.stored;
      reads = λ block holds. w.reads block max_name_size holds f.name_size;
    }

old_name :
    (t : Table) (buffer : List ℕ) (offset : ℕ) (h : Header) (i : ℕ) (e : Header)
    → IsField h
    → offset ≤ length buffer
    → get t (suc i) ≡ ok e
    → e.name ≡ h.name
    → StoredName t buffer offset h (suc i) buffer offset
unfolding decode_name overwrite
old_name t buffer offset h i e f le found same = record {
  bytes = [];
  stored = record { room = omega arith; same = refl; moved = omega arith };
  reads = λ block holds. rw (found, same) (ground (arith, f.name_size));
}

name-StoredName :
    (t : Table) (buffer : List ℕ) (offset : ℕ) (h : Header) (index : ℕ) (buffer' : List ℕ) (end : ℕ)
    → IsField h
    → IsNamed t h index
    → offset ≤ length buffer
    → (if index == 0 then encode_string buffer offset h.name else ok (buffer, offset))
      ≡ ok (buffer', end)
    → StoredName t buffer offset h index buffer' end
name-StoredName t buffer offset h zero buffer' end f named le e =
    new_name t buffer offset h buffer' end f e
name-StoredName t buffer offset h (suc i) buffer' end f named le e =
    let (x, found, same) = named (omega arith) in
    let same_buffer : buffer ≡ buffer' = ground arith in
    let same_end : offset ≡ end = ground arith in
    rw (← same_buffer, ← same_end) (old_name t buffer offset h i x f le found same)

literal-read :
    (t : Table) (block : List ℕ) (offset : ℕ) (indexing : Bool) (index : ℕ) (h : Header)
    (o1 o2 end : ℕ)
    → is_indexed (get_or block offset 0) ≡ false
    → not (bit_and (get_or block offset 0) 0x40 == 0) ≡ indexing
    → decode_integer block offset (name_prefix indexing) ≡ ok (o1, index)
    → decode_name t block o1 index ≡ ok (h.name, o2)
    → decode_string block o2 max_value_size ≡ ok (h.value, end)
    → decode_field t block offset ≡ ok (if indexing then insert t h else t, h, end)
unfolding decode_field decode_literal name_prefix
literal-read t block offset indexing index h o1 o2 end first mode number name value =
    rw (first, mode, number, name, value) refl

pub literal-StoredField :
    (t : Table) (buffer : List ℕ) (offset : ℕ) (h : Header) (indexing : Bool) (index : ℕ)
    (t' : Table) (buffer' : List ℕ) (end : ℕ)
    → IsField h
    → IsNamed t h index
    → index ≤ 189
    → encode_literal t buffer offset h indexing index ≡ ok (t', buffer', end)
    → StoredField t buffer offset h t' buffer' end
unfolding encode_literal
literal-StoredField t buffer offset h indexing index t' buffer' end f named small e =
    let prefix = name_prefix indexing in
    let flags = name_flags indexing in
    let flags-IsFlags = name-IsFlags indexing in
    let ib = integer_bytes prefix flags index in
    let ((b1, o1), first, rest) = >>=-eq-ok (encode_index buffer offset indexing index) _ e in
    let ((b2, o2), second, rest') =
      >>=-eq-ok (if index == 0 then encode_string b1 o1 h.name else ok (b1, o1)) _ rest in
    let ((b3, o3), third, last) = >>=-eq-ok (encode_string b2 o2 h.value) _ rest' in
    let s1 =
      encode_integer-Stored buffer offset prefix flags index b1 o1 flags-IsFlags (omega arith)
        (sym (encode_index-integer buffer offset indexing index) ∙ first) in
    let name =
      name-StoredName t b1 o1 h index b2 o2 f named ((behind-Stored buffer offset ib b1 o1 s1).0)
        second in
    let value =
      encode_string-StoredString b2 o2 h.value b3 o3 f.value_bytes (omega (arith, f.value_size))
        third in
    let s =
      Stored-append buffer offset (ib ++ name.bytes) value.bytes b2 o2 b3 o3
        (Stored-append buffer offset ib name.bytes b1 o1 b2 o2 s1 name.stored) value.stored in
    let same_buffer : b3 ≡ buffer' = cc in
    let same_end : o3 ≡ end = cc in
    let same_table : (if indexing then insert t h else t) ≡ t' = cc in
    let (low, more, _, head) = integer_bytes-head prefix flags index in
    record {
      bytes = (ib ++ name.bytes) ++ value.bytes;
      stored = rw (same_buffer, same_end) at s;
      some_byte = omega (
        arith,
        ap length head,
        length-append ib name.bytes,
        length-append (ib ++ name.bytes) value.bytes,
      );
      reads = λ block holds.
          let (front, value_holds) =
            Holds-append block offset (ib ++ name.bytes) value.bytes holds in
          let (ib_holds, name_holds) = Holds-append block offset ib name.bytes front in
          let (low, lt, byte) = first_byte block offset prefix flags index ib_holds in
          let (not_indexed, no_update, mode) = literal_flags indexing low lt in
          let at1 = s1.moved in
          let at2 : offset + length (ib ++ name.bytes) ≡ o2 =
            omega (arith, s1.moved, name.stored.moved, length-append ib name.bytes) in
          (
            rw (byte, not_indexed, no_update) refl,
            literal-read t block offset indexing index h o1 o2 o3 (ap is_indexed byte ∙ not_indexed)
                  (ap (λ b. not (bit_and b 0x40 == 0)) byte ∙ mode)
                  (read_index block offset prefix flags index o1 flags-IsFlags small ib_holds at1)
                  (name.reads block (rw at1 at name_holds))
                  (value.reads block max_value_size (rw at2 at value_holds) f.value_size)
                ∙ cc (same_table, same_end),
          );
    }
