-- ===== src/Hpack/Block.antt =====
-- `decode_hpack` and `encode_hpack` of src/viriatum/http/hpack.c: the representations of a header
-- block. The callback of the source is a parameter: a function on the state behind its pointer,
-- which answers with an error code, 0 for none.
pub mod Fields
pub mod Literals
pub mod RoundTrip
pub mod Lists
pub mod Progress
pub mod Callback
mod Tests
use viriatum.Base.{ℕ, zero, suc, ◌+◌, ◌%◌, ◌^◌, bit_and, List, length, get_or, ltb, leb, ◌==◌}
use viriatum.Base.{Bool, true, false, Option, none, some, if◌then◌else◌, not, ◌&&◌}
use viriatum.Base.{Result, ok, err, ◌>>=◌, ◌>>◌, raise_if}
use viriatum.Hpack
use viriatum.Hpack.{Header, HpackError, size_update_after_field, name_above_size}
use viriatum.Hpack.{header_list_above_size, callback_error, max_name_size, max_value_size}
use viriatum.Hpack.{max_header_list_size, entry_overhead}
use viriatum.Hpack.Integer.{decode_integer, encode_integer}
use viriatum.Hpack.Strings.{decode_string, encode_string}
use viriatum.Hpack.Table.{Table, add_size, get, insert, resize, find}

-- The name of a literal representation: in the block, or that of the entry of the index.
decode_name : Table → List ℕ → ℕ → ℕ → Result HpackError (List ℕ × ℕ)
decode_name t block offset index =
    if index == 0 then decode_string block offset max_name_size else do
      indexed ← get t index
      raise_if (ltb max_name_size (length indexed.name)) name_above_size
      ok (indexed.name, offset)

-- The two literal representations; the field joins the table with the first of them.
decode_literal : Table → List ℕ → ℕ → Bool → Result HpackError (Table × Header × ℕ)
unfolding decode_name
decode_literal t block offset indexing = do
  (position, index) ← decode_integer block offset (if indexing then 6 else 4)
  (name, position') ← decode_name t block position index
  (value, end) ← decode_string block position' max_value_size
  let h : Header = record { name = name; value = value }
  ok (if indexing then insert t h else t, h, end)

decode_indexed : Table → List ℕ → ℕ → Result HpackError (Table × Header × ℕ)
decode_indexed t block offset = do
  (position, index) ← decode_integer block offset 7
  h ← get t index
  ok (t, h, position)

abbrev pub is_indexed : ℕ → Bool
is_indexed byte = not (bit_and byte 0x80 == 0)

abbrev pub is_update : ℕ → Bool
is_update byte = bit_and byte 0xe0 == 0x20

-- A representation that carries a field, with the table behind it and the new offset.
pub decode_field : Table → List ℕ → ℕ → Result HpackError (Table × Header × ℕ)
unfolding decode_literal decode_indexed
decode_field t block offset =
    let byte = get_or block offset 0 in
    if is_indexed byte
    then decode_indexed t block offset
    else decode_literal t block offset (not (bit_and byte 0x40 == 0))

-- The dynamic table size update.
pub decode_update : Table → List ℕ → ℕ → Bool → Result HpackError (Table × ℕ)
decode_update t block offset field = do
  raise_if field size_update_after_field
  (position, max_size) ← decode_integer block offset 5
  t' ← resize t max_size
  ok (t', position)

abbrev pub field_size : Header → ℕ
field_size h = add_size (add_size (length h.name) (length h.value)) entry_overhead

-- Why the decoding stops before the end of the block: an error of it, or no rounds left, which the
-- source cannot run out of.
pub data Stop : Type 0 where
  failed : HpackError → Stop
  exhausted : Stop

-- What the decoding leaves: the reason, the table and the state of the callback.
abbrev pub Decoded : Type 0 → Type 0
Decoded P = Option Stop × Table × P

module _ {P : Type 0} (callback : P → Header → ℕ × P) where
  -- The limit of the list, then the callback; `next` is the rest of the block.
  hand_over : Table → Header → ℕ → P → (P → Decoded P) → Decoded P
  hand_over t h list_size p next =
      if ltb max_header_list_size list_size
      then (some (failed header_list_above_size), t, p)
      else let (code, p') = callback p h in
        if code == 0 then next p' else (some (failed (callback_error code)), t, p')

  -- What follows an update, or its error.
  after_update : Table → P → (Table → ℕ → Decoded P) → Result HpackError (Table × ℕ) → Decoded P
  after_update t p next (err e) = (some (failed e), t, p)
  after_update t p next (ok (t', offset')) = next t' offset'

  -- What follows a field, or its error.
  after_field :
      Table
      → ℕ
      → P
      → (Table → ℕ → ℕ → P → Decoded P)
      → Result HpackError (Table × Header × ℕ)
      → Decoded P
  unfolding hand_over
  after_field t list_size p next (err e) = (some (failed e), t, p)
  after_field t list_size p next (ok (t', h, offset')) =
      let size = add_size list_size (field_size h) in hand_over t' h size p (next t' offset' size)

  -- The loop over the representations, each of which takes a byte of the block at least.
  pub decode_loop : ℕ → List ℕ → Table → ℕ → ℕ → Bool → P → Decoded P
  unfolding after_update after_field
  decode_loop zero block t offset list_size field p =
      if leb (length block) offset then (none, t, p) else (some exhausted, t, p)
  decode_loop (suc fuel) block t offset list_size field p =
      if leb (length block) offset
      then (none, t, p)
      else if not (is_indexed (get_or block offset 0)) && is_update (get_or block offset 0)
      then after_update t p (λ t' offset'. decode_loop fuel block t' offset' list_size field p)
          (decode_update t block offset field)
      else after_field t list_size p
          (λ t' offset' size p'. decode_loop fuel block t' offset' size true p')
          (decode_field t block offset)

  pub decode_block : Table → List ℕ → P → Decoded P
  unfolding decode_loop
  decode_block t block p = decode_loop (length block) block t 0 0 false p

-- The representation without its strings.
pub encode_index : List ℕ → ℕ → Bool → ℕ → Result HpackError (List ℕ × ℕ)
encode_index buffer offset indexing index =
    if indexing
    then encode_integer buffer offset 6 0x40 index
    else encode_integer buffer offset 4 0x00 index

pub encode_literal : Table → List ℕ → ℕ → Header → Bool → ℕ → Result HpackError (Table × List ℕ × ℕ)
unfolding encode_index
encode_literal t buffer offset h indexing index = do
  (b1, o1) ← encode_index buffer offset indexing index
  (b2, o2) ← if index == 0 then encode_string b1 o1 h.name else ok (b1, o1)
  (b3, o3) ← encode_string b2 o2 h.value
  ok (if indexing then insert t h else t, b3, o3)

pub encode_indexed : Table → List ℕ → ℕ → ℕ → Result HpackError (Table × List ℕ × ℕ)
encode_indexed t buffer offset index = do
  (written, end) ← encode_integer buffer offset 7 0x80 index
  ok (t, written, end)

-- `encode_hpack`: the table behind the field, the buffer written and the new offset.
pub encode_field : Table → List ℕ → ℕ → Header → Bool → Result HpackError (Table × List ℕ × ℕ)
unfolding encode_literal encode_indexed
encode_field t buffer offset h indexing =
    let (complete, index) = find t h in
    if complete
    then encode_indexed t buffer offset index
    else encode_literal t buffer offset h indexing index
