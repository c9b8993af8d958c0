-- ===== src/Hpack/Block/RoundTrip.antt =====
-- One field of a header block of src/viriatum/http/hpack.c: `decode_hpack` after `encode_hpack`.
use viriatum.Base.{ℕ, zero, suc, ◌≤◌, arith, List}
use viriatum.Base.{◌==◌, if◌then◌else◌}
use viriatum.Base.{ok, >>=-eq-ok, Bool-cases, inl, inr, Bool}
use viriatum.Base.{◌≡◌, ap}
use viriatum.Hpack.{Header}
use viriatum.Hpack.Integer.{encode_integer}
use viriatum.Hpack.Strings.{encode_string}
use viriatum.Hpack.Table.{Table, insert, find}
use viriatum.Hpack.Table.Ring.{Repr}
use viriatum.Hpack.Table.Lookup.Find.{find_lem}
use viriatum.Hpack.Block.{decode_field}
use viriatum.Hpack.Block.{encode_index, encode_literal, encode_indexed, encode_field}
use viriatum.Base.{Holds-overwrite, >>=-eq-ok}
use viriatum.Hpack.Table.Insert.{IsTable}
use viriatum.Hpack.Table.Insert.{insert-IsTable}
use viriatum.Hpack.Block.Fields.{IsField, StoredField, found_index, indexed-StoredField}
use viriatum.Hpack.Block.Literals.{IsNamed, literal-StoredField}

small_index :
    (t : Table) (hs : List Header) (h : Header) (index : ℕ)
    → Repr t hs
    → IsNamed t h index
    → index ≤ 189
small_index t hs h zero r named = omega arith
small_index t hs h (suc i) r named =
    let (e, found, _) = named (omega arith) in (found_index t hs (suc i) e r found).1

pub encode_field-StoredField :
    (t : Table) (hs : List Header) (buffer : List ℕ) (offset : ℕ) (h : Header) (indexing : Bool)
    (t' : Table) (buffer' : List ℕ) (end : ℕ)
    → Repr t hs
    → IsField h
    → encode_field t buffer offset h indexing ≡ ok (t', buffer', end)
    → StoredField t buffer offset h t' buffer' end
unfolding encode_field
encode_field-StoredField t hs buffer offset h indexing t' buffer' end r f e =
    let index = (find t h).1 in
    let (complete, partial) = find_lem t hs h index r in
    elim (Bool-cases (find t h).0) [
      | inl yes' ↦
          indexed-StoredField t hs buffer offset h index t' buffer' end r
            (complete (ap (λ c. (c, index)) yes')) (rw yes' at e)
      | inr no' ↦
          let (_, named, _) = partial (ap (λ c. (c, index)) no') in
          literal-StoredField t buffer offset h indexing index t' buffer' end f named
            (small_index t hs h index r named) (rw no' at e)
    ]

-- A field that `encode_hpack` has written, indexed or as a literal, `decode_hpack` reads back from
-- the same offset and the same table, if its strings are bytes within the sizes of the decoder: the
-- representation gives the field, the offset that the encoding has returned and the same new table.
pub decode_field-encode_field :
    (t : Table) (hs : List Header) (buffer : List ℕ) (offset : ℕ) (h : Header) (indexing : Bool)
    (t' : Table) (buffer' : List ℕ) (end : ℕ)
    → Repr t hs
    → IsField h
    → encode_field t buffer offset h indexing ≡ ok (t', buffer', end)
    → decode_field t buffer' offset ≡ ok (t', h, end)
decode_field-encode_field t hs buffer offset h indexing t' buffer' end r f e =
    let w = encode_field-StoredField t hs buffer offset h indexing t' buffer' end r f e in
    let holds = Holds-overwrite buffer offset w.bytes w.stored.room in
    (w.reads buffer' (rw w.stored.same at holds)).1

-- The table that is left is the old one or the one that the field has joined.
literal-table :
    (t : Table) (buffer : List ℕ) (offset : ℕ) (h : Header) (indexing : Bool) (index : ℕ)
    (t' : Table) (buffer' : List ℕ) (end : ℕ)
    → encode_literal t buffer offset h indexing index ≡ ok (t', buffer', end)
    → (if indexing then insert t h else t) ≡ t'
unfolding encode_literal
literal-table t buffer offset h indexing index t' buffer' end e =
    let ((b1, o1), _, rest) = >>=-eq-ok (encode_index buffer offset indexing index) _ e in
    let ((b2, o2), _, rest') =
      >>=-eq-ok (if index == 0 then encode_string b1 o1 h.name else ok (b1, o1)) _ rest in
    let (_, _, last) = >>=-eq-ok (encode_string b2 o2 h.value) _ rest' in cc

indexed-table :
    (t : Table) (buffer : List ℕ) (offset index : ℕ) (t' : Table) (buffer' : List ℕ) (end : ℕ)
    → encode_indexed t buffer offset index ≡ ok (t', buffer', end)
    → t ≡ t'
unfolding encode_indexed
indexed-table t buffer offset index t' buffer' end e =
    let (_, _, last) = >>=-eq-ok (encode_integer buffer offset 7 0x80 index) _ e in cc

pub encode_field-IsTable :
    (t : Table) (hs : List Header) (buffer : List ℕ) (offset : ℕ) (h : Header) (indexing : Bool)
    (t' : Table) (buffer' : List ℕ) (end : ℕ)
    → IsTable t hs
    → IsField h
    → encode_field t buffer offset h indexing ≡ ok (t', buffer', end)
    → (hs' : List Header) × IsTable t' hs'
unfolding encode_field
encode_field-IsTable t hs buffer offset h indexing t' buffer' end v f e =
    elim (Bool-cases (find t h).0) [
      | inl yes' ↦
          let same = indexed-table t buffer offset (find t h).1 t' buffer' end (rw yes' at e) in
          (hs, rw same at v)
      | inr no' ↦
          let same =
            literal-table t buffer offset h indexing (find t h).1 t' buffer' end (rw no' at e) in
          elim (Bool-cases indexing) [
            | inl joins ↦
                let joined : insert t h ≡ t' = rw joins at same in
                let (next, _) =
                  insert-IsTable t hs h v (omega (arith, f.name_size, f.value_size)) in
                (_, rw joined at next)
            | inr plain ↦ let kept : t ≡ t' = rw plain at same in (hs, rw kept at v)
          ]
    ]
