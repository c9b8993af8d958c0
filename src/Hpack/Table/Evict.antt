-- ===== src/Hpack/Table/Evict.antt =====
-- The evictions of src/viriatum/http/hpack.c against the table of the specification.
use viriatum.Hpack.Table.Ring.{Repr, Repr-count, evict-Repr}
use viriatum.Base.{ℕ, zero, suc, ◌≤◌, ◌<◌, arith, List, [], ◌∷◌, ◌++◌, ltb}
use viriatum.Base.{◌≡◌, refl, inl, inr, ◌^◌, Bool-cases}
use viriatum.Base.{ltb→lt, lt→ltb, ltb-false→le, le→ltb-false, and-false}
use viriatum.Hpack.{Header}
use viriatum.Hpack.Table.{Table, add_size, evict, evict_until}
use viriatum.Hpack.Table.Spec.{keep, keep_all, keep-snoc, snoc-cases}

abbrev Kept : ℕ → ℕ → Table → List Header → Type 0
Kept fuel extra t hs =
    Repr (evict_until fuel extra t) (keep t.max_size extra hs)
    × ((evict_until fuel extra t).max_size ≡ t.max_size)

empty-Kept : (fuel extra : ℕ) (t : Table) → Repr t [] → Kept fuel extra t []
unfolding evict_until keep
empty-Kept zero extra t r = (r, refl)
empty-Kept (suc fuel) extra t r =
    rw (le→ltb-false 0 t.count (omega (arith, Repr-count r))) (r, refl)

-- One turn, on a table whose oldest entry is `h`.
Kept-step :
    (fuel extra : ℕ) (t : Table) (hs : List Header) (h : Header)
    → extra < 2 ^ 63
    → Repr t (hs ++ (h ∷ []))
    → Kept fuel extra (evict t) hs
    → Kept (suc fuel) extra t (hs ++ (h ∷ []))
unfolding evict_until evict
Kept-step fuel extra t hs h he r rest = elim (Bool-cases (ltb t.max_size (add_size t.size extra))) [
  | inl over ↦
      let (_, same, more) = evict-Repr t hs h r in
      let cut = keep-snoc t.max_size extra hs h (omega (arith, r.sized, r.room, ltb→lt _ _ over)) in
      rw (lt→ltb 0 t.count (omega (arith, more)), over, cut, ← same) rest
  | inr fits ↦
      let all =
        keep_all t.max_size extra (hs ++ (h ∷ []))
          (omega (arith, r.sized, r.room, ltb-false→le _ _ fits)) in
      rw (fits, and-false (ltb 0 t.count), all) (r, refl)
]

-- The loop takes the oldest entries until the rest fits beside `extra` bytes; one turn for each
-- entry is fuel enough.
pub evict_until-Repr :
    (fuel : ℕ) (t : Table) (hs : List Header) (extra : ℕ)
    → extra < 2 ^ 63
    → Repr t hs
    → t.count ≤ fuel
    → Kept fuel extra t hs
evict_until-Repr zero t [] extra he r hf = empty-Kept zero extra t r
evict_until-Repr zero t (x ∷ hs) extra he r hf = absurd (omega (arith, Repr-count r))
evict_until-Repr (suc fuel) t hs extra he r hf = elim (snoc-cases hs) [
  | inl e ↦ rw e (empty-Kept (suc fuel) extra t (rw e at r))
  | inr (front, last, e) ↦
      let r' : Repr t (front ++ (last ∷ [])) = rw e at r in
      let (next, _, more) = evict-Repr t front last r' in
      rw e (
        Kept-step fuel extra t front last he r'
          (evict_until-Repr fuel (evict t) front extra he next (omega (arith, more))))
]
