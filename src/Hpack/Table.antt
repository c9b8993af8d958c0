-- ===== src/Hpack/Table.antt =====
-- The dynamic table of src/viriatum/http/hpack.c: a ring of slots whose newest entry sits at `head`.
-- `Spec` is the table of the specification, the other children show that the ring implements it.
pub mod Spec
pub mod Window
pub mod Ring
pub mod Evict
pub mod Insert
pub mod Lookup
mod Tests
use viriatum.Base.{ℕ, zero, suc, ◌+◌, ◌-◌, ◌%◌, ◌^◌, List, [], ◌∷◌, Option, none, some}
use viriatum.Base.{Bool, true, false, ◌&&◌, length, get_or, set, replicate, ltb, leb, ◌==◌}
use viriatum.Base.{if◌then◌else◌, Result, ok, err}
use viriatum.Hpack.{Header, HpackError, size_above_advertised, zero_index, index_above_table}
use viriatum.Hpack.{null_entry, static_size, table_size, entry_overhead, max_entries}
use viriatum.Hpack.Static.{static_table}

-- `struct hpack_entry_t`: the two string sizes are the lengths of the strings.
pub record Entry : Type 0 where
  pub name : List ℕ
  pub value : List ℕ
  pub size : ℕ

-- `struct hpack_table_t`. A slot is `none` while its two strings are unset.
pub record Table : Type 0 where
  pub entries : List (Option Entry)
  pub head : ℕ
  pub count : ℕ
  pub size : ℕ
  pub max_size : ℕ

-- `size_t` addition and subtraction
abbrev pub add_size : ℕ → ℕ → ℕ
add_size a b = (a + b) % 2 ^ 64

abbrev pub sub_size : ℕ → ℕ → ℕ
sub_size a b = (a + 2 ^ 64 - b) % 2 ^ 64

-- The ring position of the entry that `back` newer ones precede.
abbrev pub position : Table → ℕ → ℕ
position t back = sub_size (add_size t.head max_entries) back % max_entries

-- The size that the slot at the position is accounted with.
abbrev slot_size : Option Entry → ℕ
slot_size none = 0
slot_size (some e) = e.size

-- `_evict_hpack_table`; the callers see to it that the table is not empty.
pub evict : Table → Table
evict t =
    let p = position t (sub_size t.count 1) in
    record t {
      entries = set t.entries p none;
      size = sub_size t.size (slot_size (get_or t.entries p none));
      count = sub_size t.count 1;
    }

-- `while(count > 0 && size + extra > max_size) { _evict_hpack_table }`; the fuel is the count.
pub evict_until : ℕ → ℕ → Table → Table
evict_until zero extra t = t
evict_until (suc fuel) extra t =
    let rest = evict_until fuel extra (evict t) in
    if ltb 0 t.count && ltb t.max_size (add_size t.size extra) then rest else t

unfoldable pub create : Table
create = record {
  entries = replicate max_entries none;
  head = max_entries - 1;
  count = 0;
  size = 0;
  max_size = table_size;
}

-- `delete_hpack_table`: the evictions before the table itself is released.
pub delete : ℕ → Table → Table
delete zero t = t
delete (suc fuel) t = let rest = delete fuel (evict t) in if ltb 0 t.count then rest else t

pub resize : Table → ℕ → Result HpackError Table
resize t max_size =
    if ltb table_size max_size
    then err size_above_advertised
    else ok (evict_until t.count 0 (record t { max_size = max_size }))

abbrev pub entry_of : Header → Entry
entry_of h = record {
  name = h.name;
  value = h.value;
  size = add_size (add_size (length h.name) (length h.value)) entry_overhead;
}

-- The store at the new head.
push : Table → Entry → Table
push t e =
    let head = add_size t.head 1 % max_entries in
    record t {
      entries = set t.entries head (some e);
      head = head;
      count = add_size t.count 1;
      size = add_size t.size e.size;
    }

unfoldable pub insert : Table → Header → Table
unfolding push
insert t h =
    let e = entry_of h in
    let t' = evict_until t.count e.size t in if ltb t'.max_size e.size then t' else push t' e

abbrev header_at : Option Entry → Result HpackError Header
header_at none = err null_entry
header_at (some e) = ok (record { name = e.name; value = e.value })

-- `*hpack_header = hpack_static_table[index - 1]`
abbrev static_at : List Header → ℕ → Result HpackError Header
static_at [] i = err null_entry
static_at (h ∷ hs) zero = ok h
static_at (h ∷ hs) (suc i) = static_at hs i

pub get : Table → ℕ → Result HpackError Header
get t index =
    if index == 0
    then err zero_index
    else if leb index static_size
    then static_at static_table (index - 1)
    else if ltb t.count (index - static_size)
    then err index_above_table
    else header_at (get_or t.entries (position t (index - static_size - 1)) none)

-- Equal sizes, then `memcmp`.
unfoldable pub bytes_eq : List ℕ → List ℕ → Bool
bytes_eq [] [] = true
bytes_eq [] (y ∷ ys) = false
bytes_eq (x ∷ xs) [] = false
bytes_eq (x ∷ xs) (y ∷ ys) = x == y && bytes_eq xs ys

-- One candidate of either loop of `find_hpack_table`, the entry of the index `here`: the index
-- that the name alone has matched so far goes on, unless the match is complete.
abbrev found_name : Header → Header → ℕ → ℕ → ℕ
found_name e h here index = if bytes_eq e.name h.name && index == 0 then here else index

abbrev complete : Header → Header → Bool
complete e h = bytes_eq e.name h.name && bytes_eq e.value h.value

-- The walk over the dynamic table: `rounds` is `count + 1 - at`.
find_dynamic : ℕ → Table → ℕ → Header → ℕ → Bool × ℕ
find_dynamic zero t at h index = (false, index)
find_dynamic (suc rounds) t at h index = elim (get_or t.entries (position t (at - 1)) none) [
  | none ↦ find_dynamic rounds t (at + 1) h index
  | some e ↦
      let c : Header = record { name = e.name; value = e.value } in
      if complete c h
      then (true, static_size + at)
      else find_dynamic rounds t (at + 1) h (found_name c h (static_size + at) index)
]

-- The walk over the static table, and then over the dynamic one.
find_static : List Header → ℕ → Table → Header → ℕ → Bool × ℕ
find_static [] at t h index = find_dynamic t.count t 1 h index
find_static (e ∷ rest) at t h index =
    if complete e h
    then (true, at + 1)
    else find_static rest (at + 1) t h (found_name e h (at + 1) index)

-- Whether the match is complete, and the index, 0 when not even the name has matched.
unfoldable pub find : Table → Header → Bool × ℕ
unfolding find_static find_dynamic
find t h = find_static static_table 0 t h 0
