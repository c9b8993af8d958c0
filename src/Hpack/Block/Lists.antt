-- ===== src/Hpack/Block/Lists.antt =====
-- A header list as a block of src/viriatum/http/hpack.c: the calls of `encode_hpack` one after the
-- other, and the loop of `decode_hpack` over what they have written.
use viriatum.Base.{Holds-∷, ℕ, zero, suc, ◌+◌, ◌≤◌, ◌<◌, arith, List, [], ◌∷◌, ◌++◌}
use viriatum.Base.{length, length-append, get_or, All, leb, ltb}
use viriatum.Base.{overwrite, Holds, Holds-append}
use viriatum.Base.{Result, ok, ◌>>=◌, >>=-eq-ok, true, false, Bool, not, ◌&&◌}
use viriatum.Base.{◌≡◌, refl, ap, ◌∙◌}
use viriatum.Hpack.{Header, HpackError}
use viriatum.Hpack.Strings.Stored.{Stored, Stored-append, behind-Stored}
use viriatum.Hpack.Table.{Table}
use viriatum.Hpack.Block.{is_indexed, is_update, decode_field}
use viriatum.Hpack.Block.{encode_field}
use viriatum.Base.{
  append-nil, append_assoc, Holds-overwrite, slice_of_Holds, slice, >>=-eq-ok, none,
}
use viriatum.Hpack.{max_header_list_size}
use viriatum.Hpack.Table.Spec.{header_size, total}
use viriatum.Hpack.Table.Insert.{IsTable}
use viriatum.Hpack.Table.{add_size}
use viriatum.Hpack.Block.{field_size, hand_over, after_field, decode_loop, decode_block}
use viriatum.Hpack.Block.Fields.{IsField}
use viriatum.Hpack.Block.RoundTrip.{encode_field-StoredField, encode_field-IsTable}

-- The fields of a list, one call after the other, each with its choice of joining the table.
unfoldable pub encode_fields :
    Table → List ℕ → ℕ → List (Header × Bool) → Result HpackError (Table × List ℕ × ℕ)
encode_fields t buffer offset [] = ok (t, buffer, offset)
encode_fields t buffer offset ((h, indexing) ∷ rest) = do
  (t', buffer', offset') ← encode_field t buffer offset h indexing
  encode_fields t' buffer' offset' rest

abbrev pub fields : List (Header × Bool) → List Header
fields [] = []
fields ((h, _) ∷ rest) = h ∷ fields rest

-- A callback that collects the fields.
abbrev pub collect : List Header → Header → ℕ × List Header
collect collected h = (0, collected ++ h ∷ [])

record StoredFields (t : Table) (buffer : List ℕ) (offset : ℕ) (hs : List Header) (t' : Table)
    (buffer' : List ℕ) (end : ℕ) : Type 0 where
  bytes : List ℕ
  stored : Stored buffer offset bytes buffer' end
  reads :
      (block : List ℕ) (fuel size : ℕ) (field : Bool) (collected : List Header)
      → Holds block offset bytes
      → length block ≡ end
      → length bytes ≤ fuel
      → size + total hs ≤ max_header_list_size
      → decode_loop collect fuel block t offset size field collected ≡ (none, t', collected ++ hs)

no_fields :
    (fuel : ℕ) (block : List ℕ) (t : Table) (offset size : ℕ) (field : Bool)
    (collected : List Header)
    → length block ≡ offset
    → decode_loop collect fuel block t offset size field collected ≡ (none, t, collected ++ [])
unfolding decode_loop
no_fields zero block t offset size field collected e = rw (append-nil collected) (ground (arith, e))
no_fields (suc fuel) block t offset size field collected e =
    rw (append-nil collected) (ground (arith))

one_field :
    (fuel : ℕ) (block : List ℕ) (t : Table) (offset size : ℕ) (field : Bool)
    (collected : List Header) (t' : Table) (h : Header) (end : ℕ)
    → offset < length block
    → (not (is_indexed (get_or block offset 0)) && is_update (get_or block offset 0)) ≡ false
    → decode_field t block offset ≡ ok (t', h, end)
    → size + header_size h ≤ max_header_list_size
    → decode_loop collect (suc fuel) block t offset size field collected
      ≡ decode_loop collect fuel block t' end (size + header_size h) true (collected ++ h ∷ [])
unfolding decode_loop hand_over after_field
one_field fuel block t offset size field collected t' h end lt no_update read fits =
    let more : leb (length block) offset ≡ false = ground arith in
    let sum : add_size size (field_size h) ≡ size + header_size h = omega arith in
    let under : ltb max_header_list_size (size + header_size h) ≡ false = ground arith in
    rw (more, no_update, read, sum, under) refl

Holds-self : (xs : List ℕ) → Holds xs 0 xs
Holds-self [] = tt
Holds-self (x ∷ xs) = (refl, Holds-∷ x xs 0 xs (Holds-self xs))

-- The loop over one field and then over the rest.
read_on :
    (t t1 t' : Table) (offset o1 end : ℕ) (h : Header) (hs : List Header)
    (bytes bytes' block : List ℕ) (fuel size : ℕ) (field : Bool) (collected : List Header)
    → offset + length bytes ≡ o1
    → o1 + length bytes' ≡ end
    → 0 < length bytes
    → (Holds block offset bytes
        → ((not (is_indexed (get_or block offset 0)) && is_update (get_or block offset 0)) ≡ false)
          × (decode_field t block offset ≡ ok (t1, h, o1)))
    → ((fuel size : ℕ) (field : Bool) (collected : List Header)
        → Holds block o1 bytes'
        → length block ≡ end
        → length bytes' ≤ fuel
        → size + total hs ≤ max_header_list_size
        → decode_loop collect fuel block t1 o1 size field collected ≡ (none, t', collected ++ hs))
    → Holds block offset (bytes ++ bytes')
    → length block ≡ end
    → length (bytes ++ bytes') ≤ fuel
    → size + total (h ∷ hs) ≤ max_header_list_size
    → decode_loop collect fuel block t offset size field collected ≡ (none, t', collected ++ h ∷ hs)
read_on t t1 t' offset o1 end h hs bytes bytes' block zero size field collected e1 e2 pos now next
      holds long enough fits =
    absurd (omega (arith, length-append bytes bytes'))
read_on t t1 t' offset o1 end h hs bytes bytes' block (suc fuel) size field collected e1 e2 pos now
      next holds long enough fits =
    let (front, back) = Holds-append block offset bytes bytes' holds in
    let (no_update, read) = now front in
    one_field fuel block t offset size field collected t1 h o1 (omega arith) no_update read
      (omega arith)
    ∙ next fuel (size + header_size h) true (collected ++ h ∷ []) (rw e1 at back) long
        (omega (arith, length-append bytes bytes')) (omega arith)
    ∙ ap (λ xs. (none, t', xs)) (append_assoc collected (h ∷ []) hs)

fields-StoredFields :
    (fs : List (Header × Bool)) (t : Table) (hs : List Header) (buffer : List ℕ) (offset : ℕ)
    (t' : Table) (buffer' : List ℕ) (end : ℕ)
    → IsTable t hs
    → All IsField (fields fs)
    → offset ≤ length buffer
    → encode_fields t buffer offset fs ≡ ok (t', buffer', end)
    → StoredFields t buffer offset (fields fs) t' buffer' end
unfolding encode_fields overwrite
fields-StoredFields [] t hs buffer offset t' buffer' end v fine le e =
    let same_table : t ≡ t' = cc in
    let same_buffer : buffer ≡ buffer' = cc in
    let same_end : offset ≡ end = cc in
    record {
      bytes = [];
      stored = record { room = omega arith; same = same_buffer; moved = omega arith };
      reads = λ block fuel size field collected holds long enough fits.
          no_fields fuel block t offset size field collected (omega arith)
          ∙ ap (λ t. (none, t, collected ++ [])) same_table;
    }
fields-StoredFields ((h, indexing) ∷ fs) t hs buffer offset t' buffer' end v (f, fine) le e =
    let ((t1, b1, o1), first, rest) = >>=-eq-ok (encode_field t buffer offset h indexing) _ e in
    let w = encode_field-StoredField t hs buffer offset h indexing t1 b1 o1 v.repr f first in
    let (hs1, v1) = encode_field-IsTable t hs buffer offset h indexing t1 b1 o1 v f first in
    let inside = behind-Stored buffer offset w.bytes b1 o1 w.stored in
    let w' = fields-StoredFields fs t1 hs1 b1 o1 t' buffer' end v1 fine (inside.0) rest in
    record {
      bytes = w.bytes ++ w'.bytes;
      stored = Stored-append buffer offset w.bytes w'.bytes b1 o1 buffer' end w.stored w'.stored;
      reads = λ block fuel size field collected holds long enough fits.
          read_on t t1 t' offset o1 end h (fields fs) w.bytes w'.bytes block fuel size field
            collected w.stored.moved w'.stored.moved w.some_byte (w.reads block) (w'.reads block)
            holds long enough fits;
    }

-- A header list that calls of `encode_hpack` have written from the start of a buffer on, as a whole
-- block: `decode_hpack` from the same table hands exactly the fields of the list over, in their
-- order, and ends without an error in the very table of the encoder. The strings are bytes within
-- the sizes of the decoder, and the list is within its limit of 32768.
pub decode_block-encode_fields :
    (t : Table) (hs : List Header) (buffer : List ℕ) (fs : List (Header × Bool)) (t' : Table)
    (buffer' : List ℕ) (end : ℕ)
    → IsTable t hs
    → All IsField (fields fs)
    → total (fields fs) ≤ max_header_list_size
    → encode_fields t buffer 0 fs ≡ ok (t', buffer', end)
    → decode_block collect t (slice buffer' 0 end) [] ≡ (none, t', fields fs)
unfolding decode_block
decode_block-encode_fields t hs buffer fs t' buffer' end v fine fits e =
    let w = fields-StoredFields fs t hs buffer 0 t' buffer' end v fine (omega arith) e in
    let holds = Holds-overwrite buffer 0 w.bytes w.stored.room in
    let end_length : length w.bytes ≡ end = omega (arith, w.stored.moved) in
    let block : slice buffer' 0 end ≡ w.bytes =
      rw (← end_length) (slice_of_Holds buffer' 0 w.bytes (rw w.stored.same at holds)) in
    rw block (
      w.reads w.bytes (length w.bytes) 0 false [] (Holds-self w.bytes) end_length (omega arith)
        (omega arith))
