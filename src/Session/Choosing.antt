-- ===== src/Session/Choosing.antt =====
-- The choice that `_schedule_http2_connection` makes in a round, among the streams of the table and
-- against the tree of the priorities.
use viriatum.Base.{ℕ, zero, suc, ◌+◌, ◌≤◌, ◌<◌, List, [], ◌∷◌, length, All, arith, ◌==◌}
use viriatum.Base.{Option, none, some, Bool, true, false, ◌&&◌, not}
use viriatum.Base.{◌≡◌, refl, sym, ap, ◌∙◌, ◌⊎◌, inl, inr, Bool-cases, Option-cases}
use viriatum.Session.{Stream, at}
use viriatum.Session.Links.{parent, Rooted, gone, up, Reaches, here, above, some-inj}
use viriatum.Session.Streams.{find_stream}
use viriatum.Session.Schedule.{able, blocked_loop, blocked, heavier, choose_loop, choose}
use viriatum.Session.Dependencies.{links, found}
use viriatum.Session.Lookup.{lookup, IsUnique, lookup-own}
use viriatum.Session.Closing.{parent-lookup, dependency_of}
use viriatum.Base.{pos, ◌≤ℤ◌}
use viriatum.Session.Dependencies.{not_found}
use viriatum.Session.Blocking.{blocked-holds}
use viriatum.Session.Placing.{IsTree}
use mathlib.Core.Option

-- A stream that may write now.
abbrev pub writable : List Stream → Stream → Bool
writable streams st = able st && not (blocked streams st)

abbrev weight_of : List Stream → Option ℕ → ℕ
weight_of streams none = 0
weight_of streams (some slot) = (at streams slot).priority.weight

-- The loop over `rest`, from `chosen` to its result.
record Best (streams rest : List Stream) (chosen result : Option ℕ) : Type 0 where
  grown : weight_of streams chosen ≤ weight_of streams result
  heaviest :
      All (λ st. writable streams st ≡ true → st.priority.weight ≤ weight_of streams result) rest
  silent : result ≡ none → (chosen ≡ none) × All (λ st. writable streams st ≡ false) rest
  chose :
      (slot : ℕ)
      → result ≡ some slot
      → (chosen ≡ some slot)
        ⊎ ((slot < length streams) × (writable streams (at streams slot) ≡ true))

-- `rest` is what stands in the table from `index` on.
record Suffix (streams rest : List Stream) (index : ℕ) : Type 0 where
  placed : (k : ℕ) → k < length rest → at streams (index + k) ≡ at rest k
  filled : index + length rest ≡ length streams

Suffix-tail :
    {streams rest : List Stream} {index : ℕ} {st : Stream}
    → Suffix streams (st ∷ rest) index
    → Suffix streams rest (suc index)
Suffix-tail {streams} {index = index} suffix = record {
  placed = λ k h. ap (at streams) (omega arith) ∙ suffix.placed (suc k) (omega arith);
  filled = omega (arith, suffix.filled);
}

-- The test of the loop, with what it says of the stream.
heavier_cases :
    (streams : List Stream) (st : Stream) (chosen : Option ℕ)
    → ((able st && not (blocked streams st) && heavier streams st chosen ≡ true)
        × (writable streams st ≡ true)
        × (weight_of streams chosen ≤ st.priority.weight))
      ⊎ ((able st && not (blocked streams st) && heavier streams st chosen ≡ false)
          × (writable streams st ≡ true → st.priority.weight ≤ weight_of streams chosen)
          × (chosen ≡ none → writable streams st ≡ false))
unfolding heavier
heavier_cases streams st none = ground arith
heavier_cases streams st (some slot) = ground arith

choose_loop-Best :
    (streams rest : List Stream) (index : ℕ) (chosen : Option ℕ)
    → Suffix streams rest index
    → Best streams rest chosen (choose_loop streams rest index chosen)
unfolding choose_loop
choose_loop-Best streams [] index chosen suffix = record {
  grown = omega arith;
  heaviest = tt;
  silent = λ e. (e, tt);
  chose = λ slot e. inl e;
}
choose_loop-Best streams (st ∷ rest) index chosen suffix = elim (heavier_cases streams st chosen) [
  | inl (test, able_one, light) ↦
      let own : at streams index ≡ st =
        ap (at streams) (omega arith) ∙ suffix.placed 0 (omega arith) in
      let more = choose_loop-Best streams rest (suc index) (some index) (Suffix-tail suffix) in
      rw test (record {
        grown = omega (arith, light, more.grown, ap (λ s. s.priority.weight) own);
        heaviest = (λ w. omega (arith, more.grown, ap (λ s. s.priority.weight) own), more.heaviest);
        silent = λ e. let was : some index ≡ none = (more.silent e).0 in cc;
        chose = λ slot e. inr (elim (more.chose slot e) [
          | inl same ↦
              let is : index ≡ slot = cc in
              rw (← is) (omega (arith, suffix.filled), ap (writable streams) own ∙ able_one)
          | inr other ↦ other
        ]);
      })
  | inr (test, heavy, idle) ↦
      let more = choose_loop-Best streams rest (suc index) chosen (Suffix-tail suffix) in
      rw test (record {
        grown = more.grown;
        heaviest = (λ w. omega (arith, heavy w, more.grown), more.heaviest);
        silent = λ e. let (was, none_able) = more.silent e in (was, (idle was, none_able));
        chose = more.chose;
      })
]

-- A stream that is held back has one above it that is able.
blocked_loop-above :
    (rounds : ℕ) (streams : List Stream) (id : ℕ)
    → blocked_loop rounds streams id ≡ true
    → (slot : ℕ) × (slot < length streams)
      × (able (at streams slot) ≡ true)
      × Reaches (parent (links streams)) id (at streams slot).stream_id
unfolding blocked_loop
blocked_loop-above zero streams id h = cc
blocked_loop-above (suc rounds) streams id h = elim (Bool-cases (id == 0)) [
  | inl root ↦ absurd (ground (arith, rw root at h))
  | inr not_root ↦ elim (Option-cases (find_stream streams id)) [
    | inl lost ↦ absurd (ground (arith, rw (not_root, lost) at h))
    | inr (slot, e) ↦
        let own = found streams id slot e in
        elim (Bool-cases (able (at streams slot))) [
          | inl is_able ↦ (slot, own.inside, is_able, rw own.named here)
          | inr not_able ↦
              let (top, inside, is_able, walk) =
                blocked_loop-above rounds streams (at streams slot).priority.dependency
                  (rw (not_root, e, not_able) at h) in
              (top, inside, is_able, above own.linked walk)
        ]
  ]
]

blocked-above :
    (streams : List Stream) (st : Stream)
    → blocked streams st ≡ true
    → (slot : ℕ) × (slot < length streams)
      × (able (at streams slot) ≡ true)
      × Reaches (parent (links streams)) st.priority.dependency (at streams slot).stream_id
unfolding blocked
blocked-above streams st held =
    blocked_loop-above (length streams) streams st.priority.dependency held

All-at :
    (P : Stream → Type 0) (streams : List Stream) (slot : ℕ)
    → All P streams
    → slot < length streams
    → P (at streams slot)
All-at P [] slot h inside = absurd (omega arith)
All-at P (st ∷ streams) zero (h, hs) inside = h
All-at P (st ∷ streams) (suc slot) (h, hs) inside = All-at P streams slot hs (omega arith)

module _ (streams : List Stream) (unique : IsUnique streams) where
  own_link :
      (slot id : ℕ)
      → slot < length streams
      → (at streams slot).stream_id ≡ id
      → parent (links streams) id ≡ some (at streams slot).priority.dependency
  own_link slot id inside named =
      ap (parent (links streams)) (sym named)
      ∙ parent-lookup streams (at streams slot).stream_id
      ∙ ap (Option.map dependency_of) (lookup-own streams slot unique inside)

  -- Up the walk from a stream that is able there is one that may write.
  climb :
      {id target : ℕ} (slot : ℕ)
      → Rooted (parent (links streams)) id
      → Reaches (parent (links streams)) id target
      → (at streams slot).stream_id ≡ target
      → slot < length streams
      → able (at streams slot) ≡ true
      → (top : ℕ) × (top < length streams) × (writable streams (at streams top) ≡ true)
  climb slot (gone lost) here named inside is_able =
      let linked = own_link slot _ inside named in absurd (ground (arith, lost, linked))
  climb slot (gone lost) (above step walk) named inside is_able =
      absurd (ground (arith, lost, step))
  climb slot (up step rooted) (above step' walk) named inside is_able =
      climb slot rooted (rw (some-inj step step') walk) named inside is_able
  climb slot (up step rooted) here named inside is_able =
      elim (Bool-cases (blocked streams (at streams slot))) [
        | inl held ↦
            let (top, within, top_able, walk) = blocked-above streams (at streams slot) held in
            climb top rooted (rw (some-inj step (own_link slot _ inside named)) walk) refl within
              top_able
        | inr free ↦ (slot, inside, ground (arith, is_able, free))
      ]

-- A stream that holds payload back and whose window is open.
abbrev pub Ready : Stream → Type 0
Ready st = (0 < length st.pending) × (pos 1 ≤ℤ st.send_window)

-- No stream above it in the tree is ready.
abbrev pub IsFree : List Stream → Stream → Type 0
IsFree streams st =
    (top : ℕ)
    → top < length streams
    → Ready (at streams top)
    → ¬ Reaches (parent (links streams)) st.priority.dependency (at streams top).stream_id

Ready-able : (st : Stream) → Ready st → able st ≡ true
Ready-able st (holds, open_window) = ground (arith, holds, open_window)

able-Ready : (st : Stream) → able st ≡ true → Ready st
able-Ready st is_able = (ground (arith, is_able), ground (arith, is_able))

module _ (streams : List Stream) (unique : IsUnique streams) (tree : IsTree streams) where
  blocked_by :
      (st : Stream) (top : ℕ)
      → top < length streams
      → able (at streams top) ≡ true
      → Reaches (parent (links streams)) st.priority.dependency (at streams top).stream_id
      → blocked streams st ≡ true
  blocked_by st top inside is_able walk =
      let id = (at streams top).stream_id in
      let linked = own_link streams unique top id inside refl in
      elim (Option-cases (find_stream streams id)) [
        | inl lost ↦ absurd (ground (arith, linked, not_found streams id lost))
        | inr (slot, place) ↦
            let own = found streams id slot place in
            let first = lookup-own streams top unique inside in
            let second =
              ap (lookup streams) (sym own.named) ∙ lookup-own streams slot unique own.inside in
            let same : at streams slot ≡ at streams top = cc in
            blocked-holds streams tree st id _ slot walk linked place (rw same is_able)
      ]

  free : (st : Stream) → blocked streams st ≡ false → IsFree streams st
  free st not_blocked top inside ready walk =
      let held = blocked_by st top inside (Ready-able (at streams top) ready) walk in
      absurd (ground (arith, held, not_blocked))

  not_held : (st : Stream) → IsFree streams st → blocked streams st ≡ false
  not_held st is_free = elim (Bool-cases (blocked streams st)) [
    | inr not_blocked ↦ not_blocked
    | inl held ↦
        let (top, inside, is_able, walk) = blocked-above streams st held in
        absurd (is_free top inside (able-Ready (at streams top) is_able) walk)
  ]

-- Among different streams whose priorities form a tree: where a stream holds payload back and its
-- window is open, a round chooses one. It is such a stream, no stream that it depends on, directly or
-- over others, is one, and none for which the same is true is heavier.
pub choose_lem :
    (streams : List Stream) (slot : ℕ)
    → IsUnique streams
    → IsTree streams
    → slot < length streams
    → Ready (at streams slot)
    → (chosen : ℕ) × (choose streams ≡ some chosen)
      × (chosen < length streams)
      × Ready (at streams chosen)
      × IsFree streams (at streams chosen)
      × ((other : ℕ)
          → other < length streams
          → Ready (at streams other)
          → IsFree streams (at streams other)
          → (at streams other).priority.weight ≤ (at streams chosen).priority.weight)
unfolding choose
choose_lem streams slot unique tree inside ready =
    let best =
      choose_loop-Best streams streams 0 none
        (record { placed = λ k h. ap (at streams) (omega arith); filled = omega arith }) in
    let (top, within, may_write) =
      climb streams unique slot (tree.forest (at streams slot).stream_id) here refl inside
        (Ready-able (at streams slot) ready) in
    elim (Option-cases (choose_loop streams streams 0 none)) [
      | inl idle ↦
          let none_able = All-at _ streams top (best.silent idle).1 within in
          absurd (ground (arith, none_able, may_write))
      | inr (chosen, e) ↦ elim (best.chose chosen e) [
        | inl before ↦ absurd (ground (arith, before))
        | inr (held, may) ↦ (
          chosen,
          e,
          held,
          able-Ready (at streams chosen) (ground (arith, may)),
          free streams unique tree (at streams chosen) (ground (arith, may)),
          λ other inside' ready' free'.
              let is_able = Ready-able (at streams other) ready' in
              let not_blocked = not_held streams unique tree (at streams other) free' in
              omega (
                arith,
                All-at _ streams other best.heaviest inside' (ground (arith, is_able, not_blocked)),
                ap (weight_of streams) e,
              ),
        )
      ]
    ]
