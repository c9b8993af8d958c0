-- ===== src/Hpack/Table/Lookup/Find.antt =====
-- `find_hpack_table` of src/viriatum/http/hpack.c is one walk over the address space, and what it
-- answers agrees with `get_hpack_table`.
use viriatum.Base.{
  ℕ, suc, ◌+◌, ◌-◌, ◌<◌, arith, List, [], ◌∷◌, ◌++◌, length, get_elem?, get_or, length-append,
  append_assoc,
}
use viriatum.Base.{none, some, ◌==◌, if◌then◌else◌, Bool, true, false, ok, Bool-cases}
use viriatum.Base.{◌≡◌, ◌≢◌, refl, sym, ap, ◌∙◌, ◌⊎◌, inl, inr, All}
use viriatum.Hpack.{Header}
use viriatum.Hpack.Static.{static_table}
use viriatum.Hpack.Table.{Table, entry_of, position, get, bytes_eq, found_name, complete}
use viriatum.Hpack.Table.{find_dynamic, find_static, find}
use viriatum.Hpack.Table.Ring.{Repr, Repr-count}
use viriatum.Hpack.Table.Lookup.{slot_at, get_lem, length-static_table, get_elem?-append_right}

-- The walk over a list of fields whose first one has the index `at + 1`.
search : List Header → ℕ → Header → ℕ → Bool × ℕ
search [] at h index = (false, index)
search (e ∷ es) at h index =
    if complete e h then (true, at + 1) else search es (at + 1) h (found_name e h (at + 1) index)

slot_held :
    (t : Table) (front rest : List Header) (e : Header) (i : ℕ)
    → Repr t (front ++ (e ∷ rest))
    → i ≡ length front
    → get_or t.entries (position t i) none ≡ some (entry_of e)
slot_held t front rest e i r at =
    let (h, found, held) =
      slot_at t (front ++ (e ∷ rest)) i r (omega (arith, length-append front (e ∷ rest))) in
    let there = get_elem?-append_right front (e ∷ rest) 0 in
    let behind : i ≡ length front + 0 = omega arith in
    let same : h ≡ e = cc (found, there, behind) in held ∙ ap (λ x. some (entry_of x)) same

dynamic_round :
    (rounds : ℕ) (t : Table) (at : ℕ) (e h : Header) (index : ℕ)
    → get_or t.entries (position t (at - 1)) none ≡ some (entry_of e)
    → find_dynamic (suc rounds) t at h index ≡ (
        if complete e h
        then (true, 61 + at)
        else find_dynamic rounds t (at + 1) h (found_name e h (61 + at) index))
unfolding find_dynamic
dynamic_round rounds t at e h index s = rw (s, find_dynamic)

-- `front` has been walked.
find_dynamic-search :
    (t : Table) (front rest : List Header) (at base : ℕ) (h : Header) (index : ℕ)
    → Repr t (front ++ rest)
    → at ≡ length front + 1
    → base ≡ 60 + at
    → find_dynamic (length rest) t at h index ≡ search rest base h index
unfolding search
find_dynamic-search t front [] at base h index r a b = unfold find_dynamic in refl
find_dynamic-search t front (e ∷ rest) at base h index r a b =
    dynamic_round (length rest) t at e h index (slot_held t front rest e (at - 1) r (omega arith))
    ∙ rw (
      next,
      find_dynamic-search t (front ++ (e ∷ [])) rest (at + 1) (base + 1) h
          (found_name e h (base + 1) index) (rw (append_assoc front (e ∷ []) rest) r)
          (omega (arith, length-append front (e ∷ []))) (omega arith),
    )
  where
    next : 61 + at ≡ base + 1
    next = omega arith

find_static-search :
    (t : Table) (hs es : List Header) (at : ℕ) (h : Header) (index : ℕ)
    → Repr t hs
    → at + length es ≡ 61
    → find_static es at t h index ≡ search (es ++ hs) at h index
unfolding find_static search
find_static-search t hs [] at h index r e =
    ap (λ n. find_dynamic n t 1 h index) (Repr-count r)
    ∙ find_dynamic-search t [] hs 1 at h index r (omega arith) (omega arith)
find_static-search t hs (x ∷ es) at h index r e =
    rw (find_static-search t hs es (at + 1) h (found_name x h (at + 1) index) r (omega arith))

pub bytes_eq_iff : (xs ys : List ℕ) → bytes_eq xs ys ≡ true → xs ≡ ys
unfolding bytes_eq
bytes_eq_iff [] [] e = refl
bytes_eq_iff [] (y ∷ ys) e = cc
bytes_eq_iff (x ∷ xs) [] e = cc
bytes_eq_iff (x ∷ xs) (y ∷ ys) e = ground (arith, bytes_eq_iff xs ys)

pub bytes_eq_refl : (xs : List ℕ) → bytes_eq xs xs ≡ true
unfolding bytes_eq
bytes_eq_refl [] = refl
bytes_eq_refl (x ∷ xs) = ground (arith, bytes_eq_refl xs)

complete_eq : (e h : Header) → complete e h ≡ true → e ≡ h
complete_eq e h c = ground (arith, bytes_eq_iff e.name h.name, bytes_eq_iff e.value h.value)

complete_self : (h : Header) → complete h h ≡ true
complete_self h = ground (arith, bytes_eq_refl h.name, bytes_eq_refl h.value)

-- A complete match answers with the index of that very field.
search-true :
    (es : List Header) (at : ℕ) (h : Header) (index i : ℕ)
    → search es at h index ≡ (true, i)
    → (j : ℕ) × (i ≡ at + suc j) × (get_elem? es j ≡ some h)
unfolding search
search-true [] at h index i s = cc
search-true (e ∷ es) at h index i s = elim (Bool-cases (complete e h)) [
  | inl c ↦ (0, ground (arith, c), ap some (complete_eq e h c))
  | inr c ↦
      let (j, place, found) = search-true es (at + 1) h _ i (rw c at s) in
      (suc j, omega arith, found)
]

later :
    (e : Header) (es : List Header) (at : ℕ) (h : Header) (index i : ℕ)
    → (i ≡ found_name e h (at + 1) index)
      ⊎ ((j : ℕ) × (x : Header) × (i ≡ at + 1 + suc j)
          × (get_elem? es j ≡ some x)
          × (x.name ≡ h.name))
    → (i ≡ index)
      ⊎ ((j : ℕ) × (x : Header) × (i ≡ at + suc j)
          × (get_elem? (e ∷ es) j ≡ some x)
          × (x.name ≡ h.name))
later e es at h index i (inr (j, x, place, found, name)) = inr (suc j, x, omega arith, found, name)
later e es at h index i (inl same) = elim (Bool-cases (bytes_eq e.name h.name)) [
  | inl n ↦ elim (Bool-cases (index == 0)) [
    | inl z ↦ inr (0, e, ground (arith, n, z), refl, bytes_eq_iff e.name h.name n)
    | inr z ↦ inl (ground (arith, n, z))
  ]
  | inr n ↦ inl (ground (arith, n))
]

-- Any other answer is the index that came in, or that of a field with the name.
search-false :
    (es : List Header) (at : ℕ) (h : Header) (index i : ℕ)
    → search es at h index ≡ (false, i)
    → (i ≡ index)
      ⊎ ((j : ℕ) × (e : Header) × (i ≡ at + suc j) × (get_elem? es j ≡ some e) × (e.name ≡ h.name))
unfolding search
search-false [] at h index i s = inl (ground arith)
search-false (e ∷ es) at h index i s = elim (Bool-cases (complete e h)) [
  | inl c ↦ ground (arith, c)
  | inr c ↦ later e es at h index i (search-false es (at + 1) h _ i (rw c at s))
]

differs : (e h : Header) → complete e h ≡ false → e ≢ h
differs e h c same = cc (c, complete_self h, same)

name_differs :
    (e : Header) (es : List Header) (at : ℕ) (h : Header) (index i : ℕ)
    → i ≡ 0
    → (i ≡ found_name e h (at + 1) index)
      ⊎ ((j : ℕ) × (x : Header) × (i ≡ at + 1 + suc j)
          × (get_elem? es j ≡ some x)
          × (x.name ≡ h.name))
    → e.name ≢ h.name
name_differs e es at h index i z (inr (j, x, place, found, name)) same = omega arith
name_differs e es at h index i z (inl same') same =
    let equal : bytes_eq e.name h.name ≡ true =
      ap (λ n. bytes_eq n h.name) same ∙ bytes_eq_refl h.name in
    ground (arith, equal)

-- No field is the one that is looked for, and if 0 is the answer none has its name.
search_misses :
    (es : List Header) (at : ℕ) (h : Header) (index i : ℕ)
    → search es at h index ≡ (false, i)
    → All (λ e. e ≢ h) es × (i ≡ 0 → All (λ e. e.name ≢ h.name) es)
unfolding search
search_misses [] at h index i s = (tt, λ z. tt)
search_misses (e ∷ es) at h index i s = elim (Bool-cases (complete e h)) [
  | inl c ↦ ground (arith, c)
  | inr c ↦
      let s' = rw c at s in
      let (miss, names) = search_misses es (at + 1) h (found_name e h (at + 1) index) i s' in
      (
        (λ same. differs e h c same, miss),
        λ z. (name_differs e es at h index i z (search-false es (at + 1) h _ i s'), names z),
      )
]

-- `find_hpack_table` is the walk over the whole address space.
find-search :
    (t : Table) (hs : List Header) (h : Header)
    → Repr t hs
    → find t h ≡ search (static_table ++ hs) 0 h 0
unfolding find static_table
find-search t hs h r = find_static-search t hs static_table 0 h 0 r length-static_table

get_at :
    (t : Table) (hs : List Header) (i j : ℕ) (e : Header)
    → Repr t hs
    → i ≡ 0 + suc j
    → get_elem? (static_table ++ hs) j ≡ some e
    → get t i ≡ ok e
get_at t hs i j e r place found =
    let back : i ≡ suc j = omega arith in
    let down : suc j - 1 ≡ j = omega arith in
    ap (get t) back ∙ get_lem t hs (suc j) r ∙ rw (down, found) (ground arith)

named :
    (t : Table) (hs : List Header) (i : ℕ) (h : Header)
    → Repr t hs
    → 0 < i
    → (i ≡ 0)
      ⊎ ((j : ℕ) × (e : Header) × (i ≡ 0 + suc j)
          × (get_elem? (static_table ++ hs) j ≡ some e)
          × (e.name ≡ h.name))
    → (e : Header) × (get t i ≡ ok e) × (e.name ≡ h.name)
named t hs i h r pos (inl z) = absurd (omega arith)
named t hs i h r pos (inr (j, e, place, found, name)) = (e, get_at t hs i j e r place found, name)

-- A complete match has the index that `get_hpack_table` answers with the field itself. Without
-- one, the field is in neither table; an index above 0 is that of a field of its name, and the
-- index 0 means that no field has its name.
pub find_lem :
    (t : Table) (hs : List Header) (h : Header) (i : ℕ)
    → Repr t hs
    → (find t h ≡ (true, i) → get t i ≡ ok h)
      × (find t h ≡ (false, i)
          → All (λ e. e ≢ h) (static_table ++ hs)
            × (0 < i → (e : Header) × (get t i ≡ ok e) × (e.name ≡ h.name))
            × (i ≡ 0 → All (λ e. e.name ≢ h.name) (static_table ++ hs)))
find_lem t hs h i r =
    let all = static_table ++ hs in
    (
      λ f.
          let (j, place, found) = search-true all 0 h 0 i (sym (find-search t hs h r) ∙ f) in
          get_at t hs i j h r place found,
      λ f.
          let s = sym (find-search t hs h r) ∙ f in
          let (miss, names) = search_misses all 0 h 0 i s in
          (miss, λ pos. named t hs i h r pos (search-false all 0 h 0 i s), names),
    )
