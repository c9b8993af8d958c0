-- ===== src/Hpack/Table/Tests.antt =====
-- Runs of the dynamic table of src/viriatum/http/hpack.c, and its theorems at concrete inputs.
use viriatum.Base.{ℕ, ◌-◌, ◌≤◌, ◌<◌, arith, List, [], ◌++◌, get_elem?, All, ◌==◌, if◌then◌else◌}
use viriatum.Base.{true, false, ok, err, ◌≡◌, ◌≢◌, refl}
use viriatum.Base.{◌+◌, ◌%◌, get_or, none}
use viriatum.Hpack.{Header, table_size, size_above_advertised, zero_index}
use viriatum.Hpack.Static.{static_table, field}
use viriatum.Hpack.Table.{Table, create, resize, insert, get, find, delete, evict_until, bytes_eq}
use viriatum.Hpack.Table.Spec.{keep, add}
use viriatum.Hpack.Table.Ring.{Repr}
use viriatum.Hpack.Table.Insert.{IsTable, create-IsTable, resize_lem, insert-IsTable, delete-Repr}
use viriatum.Hpack.Table.Lookup.{at_index, get_lem}
use viriatum.Hpack.Table.Lookup.Find.{find_lem}

abbrev cookie : Header
cookie = field "cookie" "a=1"

abbrev one : Table
one = insert create cookie

abbrev held : List Header
held = add table_size cookie []

one-IsTable : IsTable one held
unfolding create
one-IsTable = (insert-IsTable create [] cookie create-IsTable.0 (omega arith)).0

one_newest : get one 62 ≡ ok cookie
unfolding insert get create evict_until static_table
one_newest = refl

one_found : find one cookie ≡ (true, 62)
unfolding insert find create evict_until static_table bytes_eq
one_found = refl

one_named : find one (field "cookie" "b=2") ≡ (false, 32)
unfolding insert find create evict_until static_table bytes_eq
one_named = refl

insert-IsTable_example : IsTable one (add 4096 cookie []) × (one.max_size ≡ 4096)
unfolding create
insert-IsTable_example = insert-IsTable create [] cookie create-IsTable.0 (omega arith)

resize_lem_example :
    (table_size < 20 → resize one 20 ≡ err size_above_advertised)
    × (20 ≤ table_size
        → (t' : Table) × (resize one 20 ≡ ok t') × IsTable t' (keep 20 0 held) × (t'.max_size ≡ 20))
resize_lem_example = resize_lem one held 20 one-IsTable

delete-Repr_example :
    Repr (delete 1 one) []
    × ((back : ℕ)
        → back < one.count
        → get_or (delete 1 one).entries ((one.head + 128 - back) % 128) none ≡ none)
unfolding insert create evict_until
delete-Repr_example = delete-Repr 1 one held one-IsTable.repr (omega arith)

get_lem_example :
    get one 62
    ≡ (if 62 == 0 then err zero_index else at_index (get_elem? (static_table ++ held) (62 - 1)))
get_lem_example = get_lem one held 62 one-IsTable.repr

find_lem_example :
    (find one cookie ≡ (true, 62) → get one 62 ≡ ok cookie)
    × (find one cookie ≡ (false, 62)
        → All (λ e. e ≢ cookie) (static_table ++ held)
          × (0 < 62 → (e : Header) × (get one 62 ≡ ok e) × (e.name ≡ cookie.name))
          × (◌≡◌ {A = ℕ} 62 0 → All (λ e. e.name ≢ cookie.name) (static_table ++ held)))
find_lem_example = find_lem one held cookie 62 one-IsTable.repr
