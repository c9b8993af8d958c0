-- ===== src/Hpack/Table/Lookup.antt =====
-- The lookups of src/viriatum/http/hpack.c: the static table and the fields that the ring holds are
-- one address space, numbered from one.
pub mod Find
use viriatum.Base.{ℕ, zero, suc, ◌+◌, ◌-◌, ◌%◌, ◌≤◌, ◌<◌, arith, List, [], ◌∷◌, ◌++◌, length}
use viriatum.Base.{
  Option, none, some, get_or, get_elem?, get_elem?-none, dec_lt, leb, ltb, ◌==◌, if◌then◌else◌,
}
use viriatum.Base.{◌≡◌, refl, sym, ap, ◌∙◌, ◌⊎◌, inl, inr, Result, ok, err}
use viriatum.Hpack.{Header, HpackError, zero_index, index_above_table, null_entry, static_size}
use viriatum.Hpack.Static.{static_table}
use viriatum.Hpack.Table.{Table, Entry, entry_of, position, header_at, static_at, get}
use viriatum.Hpack.Table.Spec.{length-le-total}
use viriatum.Hpack.Table.Window.{window, get_elem?-window}
use viriatum.Hpack.Table.Ring.{Repr, Repr-count, slots}

pub length-static_table : length static_table ≡ 61
unfolding static_table
length-static_table = refl

pub get_elem?-append_left {ℓ} :
    {A : Type ℓ} (xs ys : List A) (i : ℕ) → i < length xs → get_elem? (xs ++ ys) i ≡ get_elem? xs i
get_elem?-append_left [] ys i h = absurd (omega arith)
get_elem?-append_left (x ∷ xs) ys zero h = refl
get_elem?-append_left (x ∷ xs) ys (suc i) h = get_elem?-append_left xs ys i (omega arith)

next : (n i : ℕ) → suc n + i ≡ suc (n + i)
next n i = omega arith

pub get_elem?-append_right {ℓ} :
    {A : Type ℓ} (xs ys : List A) (i : ℕ) → get_elem? (xs ++ ys) (length xs + i) ≡ get_elem? ys i
get_elem?-append_right [] ys i = ap (get_elem? ys) (omega arith)
get_elem?-append_right (x ∷ xs) ys i =
    ap (get_elem? (x ∷ (xs ++ ys))) (next (length xs) i) ∙ get_elem?-append_right xs ys i

-- What an index refers to in the specification.
abbrev pub at_index : Option Header → Result HpackError Header
at_index none = err index_above_table
at_index (some h) = ok h

static_at-get_elem? :
    (es : List Header) (i : ℕ) → i < length es → static_at es i ≡ at_index (get_elem? es i)
static_at-get_elem? [] i h = absurd (omega arith)
static_at-get_elem? (e ∷ es) zero h = refl
static_at-get_elem? (e ∷ es) (suc i) h = static_at-get_elem? es i (omega arith)

slots_at :
    (hs : List Header) (i : ℕ)
    → i < length hs
    → (h : Header) × (get_elem? hs i ≡ some h) × (get_elem? (slots hs) i ≡ some (some (entry_of h)))
slots_at [] i lt = absurd (omega arith)
slots_at (h ∷ hs) zero lt = (h, refl, refl)
slots_at (h ∷ hs) (suc i) lt = slots_at hs i (omega arith)

-- The ring position that the code computes holds the field.
pub slot_at :
    (t : Table) (hs : List Header) (i : ℕ)
    → Repr t hs
    → i < length hs
    → (h : Header) × (get_elem? hs i ≡ some h)
      × (get_or t.entries (position t i) none ≡ some (entry_of h))
slot_at t hs i r lt =
    let (h, found, held) = slots_at hs i lt in
    let counted = Repr-count r in
    let few : t.count ≤ 128 = omega (arith, counted, r.room, length-le-total hs) in
    let place : position t i ≡ (t.head + 128 - i) % 128 = omega (arith, r.head_in) in
    let seen = get_elem?-window t.entries t.head t.count i r.head_in few (omega (arith, counted)) in
    (h, found, cc (place, seen, held, r.holds))

get_static :
    (t : Table) (hs : List Header) (i : ℕ)
    → i < 61
    → get t (suc i) ≡ at_index (get_elem? (static_table ++ hs) i)
unfolding get
get_static t hs i h = ground (
  arith,
  length-static_table,
  static_at-get_elem? static_table i,
  get_elem?-append_left static_table hs i,
)

behind : (hs : List Header) (j : ℕ) → get_elem? (static_table ++ hs) (61 + j) ≡ get_elem? hs j
behind hs j =
    ap (λ n. get_elem? (static_table ++ hs) (n + j)) (sym length-static_table)
    ∙ get_elem?-append_right static_table hs j

get_dynamic :
    (t : Table) (hs : List Header) (j : ℕ)
    → Repr t hs
    → get t (suc (61 + j)) ≡ at_index (get_elem? hs j)
unfolding get
get_dynamic t hs j r = elim (dec_lt j (length hs)) [
  | yes lt ↦
      let (h, found, held) = slot_at t hs j r lt in
      let back : suc (61 + j) - 61 - 1 ≡ j = omega arith in
      ground (arith, found, held, back, Repr-count r)
  | no ge ↦ ground (arith, get_elem?-none hs j (omega arith), Repr-count r)
]

-- `get_hpack_table` answers an index with the field of the address space: the static table first,
-- then the dynamic one from its newest field on. Zero and an index past the end are errors, and no
-- slot that is read is unset.
pub get_lem :
    (t : Table) (hs : List Header) (index : ℕ)
    → Repr t hs
    → get t index ≡ (
        if index == 0
        then err zero_index
        else at_index (get_elem? (static_table ++ hs) (index - 1)))
get_lem t hs zero r = unfold get in refl
get_lem t hs (suc i) r = elim (dec_lt i 61) [
  | yes lt ↦ ground (arith, get_static t hs i lt)
  | no ge ↦ ground (arith, get_dynamic t hs (i - 61) r, behind hs (i - 61))
]
