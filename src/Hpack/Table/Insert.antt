-- ===== src/Hpack/Table/Insert.antt =====
-- The operations that change the dynamic table of src/viriatum/http/hpack.c against the table of
-- the specification.
use viriatum.Base.{ℕ, zero, suc, ◌+◌, ◌%◌, ◌≤◌, ◌<◌, ◌^◌, arith, List, [], ◌∷◌}
use viriatum.Base.{ltb, length-set, some, ◌≡◌, refl, ap, ◌∙◌, inl, inr, ok, err, Bool-cases}
use viriatum.Base.{ltb→lt, lt→ltb, ltb-false→le, le→ltb-false, if◌then◌else◌}
use native.Mathlib.Nat.{le_refl}
use viriatum.Base.{◌-◌, length, get_or, set, none, ℕ_discrete, get_or-set_self, get_or-set_ne}
use viriatum.Hpack.Table.{position, sub_size}
use viriatum.Hpack.{Header, table_size, size_above_advertised}
use viriatum.Hpack.Table.{
  Table, entry_of, add_size, evict, evict_until, create, delete, resize, push, insert,
}
use viriatum.Hpack.Table.Spec.{
  header_size, total, keep, add, keep-nil, add_large, add_fits, total-keep, snoc-cases,
  length-le-total,
}
use viriatum.Hpack.Table.Window.{window-set_head}
use viriatum.Hpack.Table.Ring.{Repr, Repr-count, evict-Repr}
use viriatum.Hpack.Table.Evict.{evict_until-Repr}

-- Between two operations: the ring holds the fields, and they fit the current maximum.
pub record IsTable (t : Table) (hs : List Header) : Type 0 where
  pub repr : Repr t hs
  pub within : total hs ≤ t.max_size

-- The table that `create_hpack_table` returns holds no field, at the size of the specification.
pub create-IsTable : IsTable create [] × (create.max_size ≡ table_size)
unfolding create
create-IsTable = (
  record {
    repr = record {
      ring = refl;
      head_in = omega arith;
      holds = refl;
      sized = refl;
      room = omega arith;
      limit = omega arith;
    };
    within = omega arith;
  },
  refl,
)

limited :
    (t : Table) (hs : List Header) (m : ℕ)
    → m ≤ table_size
    → Repr t hs
    → Repr (record t { max_size = m }) hs
limited t hs m h r = record {
  ring = r.ring;
  head_in = r.head_in;
  holds = r.holds;
  sized = r.sized;
  room = r.room;
  limit = h;
}

-- A size above the advertised one is refused. Any other is set, and the newest fields that fit it
-- stay: the oldest ones are gone.
pub resize_lem :
    (t : Table) (hs : List Header) (m : ℕ)
    → IsTable t hs
    → (table_size < m → resize t m ≡ err size_above_advertised)
      × (m ≤ table_size
          → (t' : Table) × (resize t m ≡ ok t') × IsTable t' (keep m 0 hs) × (t'.max_size ≡ m))
unfolding resize
resize_lem t hs m v = (
  λ h. rw (lt→ltb table_size m h),
  λ h.
      let start : Table = record t { max_size = m } in
      let (r, same) =
        evict_until-Repr t.count start hs 0 (omega arith) (limited t hs m h v.repr) (le_refl _) in
      (
        evict_until t.count 0 start,
        rw (le→ltb-false table_size m h),
        record { repr = r; within = rw same (omega (arith, total-keep m 0 hs (omega arith))) },
        same,
      ),
)

push-Repr :
    (t : Table) (hs : List Header) (h : Header)
    → Repr t hs
    → header_size h + total hs ≤ table_size
    → Repr (push t (entry_of h)) (h ∷ hs)
unfolding push
push-Repr t hs h r fits =
    let few : t.count < 128 = omega (arith, Repr-count r, length-le-total (h ∷ hs)) in
    let place : add_size t.head 1 % 128 ≡ (t.head + 1) % 128 = omega (arith, r.head_in) in
    let more : add_size t.count 1 ≡ suc t.count = omega arith in
    record {
      ring = length-set t.entries _ _ ∙ r.ring;
      head_in = omega arith;
      holds =
          rw (place, more)
            (window-set_head t.entries t.head t.count (some (entry_of h)) r.ring r.head_in few
              ∙ ap (λ ws. some (entry_of h) ∷ ws) r.holds);
      sized = omega (arith, r.sized);
      room = fits;
      limit = r.limit;
    }

-- The end of the insertion, on the table `t'` that the evictions have left.
inserted :
    (t : Table) (hs : List Header) (h : Header) (t' : Table)
    → (entry_of h).size ≡ header_size h
    → Repr t' (keep t.max_size (entry_of h).size hs)
    → t'.max_size ≡ t.max_size
    → let t'' = if ltb t'.max_size (entry_of h).size then t' else push t' (entry_of h) in
      IsTable t'' (add t.max_size h hs) × (t''.max_size ≡ t.max_size)
unfolding push
inserted t hs h t' accounted r same = elim (Bool-cases (ltb t'.max_size (entry_of h).size)) [
  | inl large ↦
      let lt : t.max_size < header_size h = omega (arith, ltb→lt _ _ large) in
      let gone = keep-nil t.max_size (entry_of h).size hs (omega (arith, accounted)) in
      rw (large, add_large t.max_size h hs lt)
        (record { repr = rw gone at r; within = omega arith }, same)
  | inr fits ↦
      let le : header_size h ≤ t.max_size = omega (arith, ltb-false→le _ _ fits) in
      let kept = total-keep t.max_size (header_size h) hs le in
      rw (fits, add_fits t.max_size h hs le)
        (
          record {
            repr = push-Repr t' _ h (rw accounted at r) (omega (arith, kept, r.limit));
            within = omega (arith, kept);
          },
          same,
        )
]

-- The field becomes the newest one and the oldest ones that no longer fit are gone; a field larger
-- than the maximum empties the table and is not inserted.
pub insert-IsTable :
    (t : Table) (hs : List Header) (h : Header)
    → IsTable t hs
    → header_size h < 2 ^ 63
    → IsTable (insert t h) (add t.max_size h hs) × ((insert t h).max_size ≡ t.max_size)
unfolding insert
insert-IsTable t hs h v small =
    let accounted : (entry_of h).size ≡ header_size h = omega arith in
    let (r, same) =
      evict_until-Repr t.count t hs (entry_of h).size (omega arith) v.repr (le_refl _) in
    inserted t hs h _ accounted r same

delete-empty :
    (fuel : ℕ) (t : Table) (hs : List Header) → Repr t hs → t.count ≤ fuel → Repr (delete fuel t) []
unfolding delete
delete-empty zero t [] r hf = r
delete-empty zero t (h ∷ hs) r hf = absurd (omega (arith, Repr-count r))
delete-empty (suc fuel) t hs r hf = elim (snoc-cases hs) [
  | inl e ↦
      let r' : Repr t [] = rw e at r in
      rw (le→ltb-false 0 t.count (omega (arith, Repr-count r'))) r'
  | inr (front, last, e) ↦
      let (next, _, more) = evict-Repr t front last (rw e at r) in
      rw (lt→ltb 0 t.count (omega (arith, more)))
        (delete-empty fuel (evict t) front next (omega (arith, more)))
]

-- A slot that is unset stays so.
delete-unset :
    (fuel : ℕ) (t : Table) (slot : ℕ)
    → slot < length t.entries
    → get_or t.entries slot none ≡ none
    → get_or (delete fuel t).entries slot none ≡ none
unfolding delete evict
delete-unset zero t slot inside unset = unset
delete-unset (suc fuel) t slot inside unset = elim (Bool-cases (ltb 0 t.count)) [
  | inr over ↦ rw over unset
  | inl more ↦
      let p = position t (sub_size t.count 1) in
      let still : get_or (set t.entries p none) slot none ≡ none = elim (ℕ_discrete p slot) [
        | yes same ↦ rw same (get_or-set_self t.entries slot none none inside)
        | no other ↦ get_or-set_ne t.entries p slot none none other ∙ unset
      ] in
      rw more (
        delete-unset fuel (evict t) slot (omega (arith, inside, length-set t.entries p none)) still)
]

delete-unsets :
    (fuel : ℕ) (t : Table) (back : ℕ)
    → t.count ≤ fuel
    → t.count ≤ 128
    → t.head < 128
    → length t.entries ≡ 128
    → back < t.count
    → get_or (delete fuel t).entries ((t.head + 128 - back) % 128) none ≡ none
unfolding delete evict
delete-unsets zero t back enough few head ring inside = absurd (omega (arith, enough, inside))
delete-unsets (suc fuel) t back enough few head ring inside =
    let p = position t (sub_size t.count 1) in
    let counted : sub_size t.count 1 ≡ t.count - 1 = omega (arith, inside, few) in
    let place : p ≡ (t.head + 128 - (t.count - 1)) % 128 =
      omega (arith, counted, few, head, inside) in
    let long = length-set t.entries p none in
    rw (lt→ltb 0 t.count (omega (arith, inside))) (elim (ℕ_discrete (suc back) t.count) [
      | yes last ↦
          let here : p ≡ (t.head + 128 - back) % 128 = omega (arith, place, last, head) in
          rw (← here) (
            delete-unset fuel (evict t) p (omega (arith, long, ring, here))
              (get_or-set_self t.entries p none none (omega (arith, ring, here))))
      | no newer ↦
          delete-unsets fuel (evict t) back (omega (arith, counted, enough))
            (omega (arith, counted, few)) head (long ∙ ring) (omega (arith, counted, newer, inside))
    ])

-- The deletion evicts every entry: the table is that of no field, and each of the slots that held an
-- entry is unset, which is where its strings are released.
pub delete-Repr :
    (fuel : ℕ) (t : Table) (hs : List Header)
    → Repr t hs
    → t.count ≤ fuel
    → Repr (delete fuel t) []
      × ((back : ℕ)
          → back < t.count
          → get_or (delete fuel t).entries ((t.head + 128 - back) % 128) none ≡ none)
delete-Repr fuel t hs r enough = (
  delete-empty fuel t hs r enough,
  λ back inside.
      delete-unsets fuel t back enough (omega (arith, Repr-count r, length-le-total hs, r.room))
        r.head_in r.ring inside,
)
