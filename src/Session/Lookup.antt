-- ===== src/Session/Lookup.antt =====
-- The table of the streams as a map from identifiers, and its order and its slots forgotten.
use viriatum.Base.{ℕ, zero, suc, ◌-◌, List, [], ◌∷◌, length, modify, set, take, arith, ◌<◌, All}
use viriatum.Base.{Option, none, some, ◌==◌, if◌then◌else◌}
use viriatum.Base.{◌≡◌, ◌≢◌, refl, ap, ◌∙◌, inl, inr, Bool-cases, Option-cases, ==_iff}
use viriatum.Session.{Stream, at}
use viriatum.Session.Streams.{find_stream, free_slot}
use mathlib.Core.Option

-- The stream of an identifier.
unfoldable pub lookup : List Stream → ℕ → Option Stream
lookup [] id = none
lookup (stream ∷ streams) id = if stream.stream_id == id then some stream else lookup streams id

-- No two streams have the same identifier.
unfoldable pub IsUnique : List Stream → Type 0
IsUnique [] = Unit {0}
IsUnique (stream ∷ streams) = (lookup streams stream.stream_id ≡ none) × IsUnique streams

pub lookup-find :
    (streams : List Stream) (id : ℕ)
    → lookup streams id ≡ Option.map (at streams) (find_stream streams id)
unfolding lookup find_stream
lookup-find [] id = refl
lookup-find (st ∷ streams) id =
    let rest = lookup-find streams id in
    elim (Option-cases (find_stream streams id)) [
      | inl lost ↦ rw lost (ground (arith, rw lost at rest))
      | inr (slot, e) ↦ rw e (ground (arith, rw e at rest))
    ]

last_of : Stream → List Stream → Stream
last_of stream streams = at (stream ∷ streams) (length streams)

front_of : Stream → List Stream → List Stream
front_of stream streams = take (length streams) (stream ∷ streams)

-- The last of the streams may as well be looked at first.
rotated :
    (st : Stream) (streams : List Stream) (id : ℕ)
    → IsUnique (st ∷ streams)
    → lookup (st ∷ streams) id ≡ lookup (last_of st streams ∷ front_of st streams) id
unfolding lookup IsUnique last_of front_of
rotated st [] id unique = refl
rotated st (next ∷ streams) id (fresh, unique) =
    let there = rotated next streams id unique in
    let own = rotated next streams st.stream_id unique in ground (arith, fresh, there, own)

rotated-IsUnique :
    (st : Stream) (streams : List Stream)
    → IsUnique (st ∷ streams)
    → IsUnique (last_of st streams ∷ front_of st streams)
unfolding lookup IsUnique last_of front_of
rotated-IsUnique st [] unique = (refl, tt)
rotated-IsUnique st (next ∷ streams) (fresh, unique) =
    let (far, rest) = rotated-IsUnique next streams unique in
    let own = rotated next streams st.stream_id unique in
    let outside : lookup (front_of next streams) st.stream_id ≡ none = ground (arith, own, fresh) in
    (ground (arith, own, fresh, far), (outside, rest))

minus_one : (n : ℕ) → suc n - 1 ≡ n
minus_one n = omega arith

free-zero :
    (st next : Stream) (streams : List Stream)
    → free_slot (st ∷ next ∷ streams) 0 ≡ last_of next streams ∷ front_of next streams
unfolding free_slot last_of front_of
free-zero st next streams = rw (minus_one (suc (length streams)))

free-suc :
    (st next : Stream) (streams : List Stream) (slot : ℕ)
    → free_slot (st ∷ next ∷ streams) (suc slot) ≡ st ∷ free_slot (next ∷ streams) slot
unfolding free_slot
free-suc st next streams slot = rw (minus_one (suc (length streams)), minus_one (length streams))

free-only : (st : Stream) (slot : ℕ) → free_slot (st ∷ []) slot ≡ []
unfolding free_slot
free-only st slot = refl

lookup-at :
    (streams : List Stream) (slot : ℕ)
    → slot < length streams
    → lookup streams (at streams slot).stream_id ≢ none
unfolding lookup
lookup-at [] slot h = absurd (omega arith)
lookup-at (st ∷ streams) zero h = λ e. ground arith
lookup-at (st ∷ streams) (suc slot) h =
    let rest = lookup-at streams slot (omega arith) in λ e. rest (ground arith)

pub lookup-own :
    (streams : List Stream) (slot : ℕ)
    → IsUnique streams
    → slot < length streams
    → lookup streams (at streams slot).stream_id ≡ some (at streams slot)
unfolding lookup IsUnique
lookup-own [] slot unique h = absurd (omega arith)
lookup-own (st ∷ streams) zero unique h = ground arith
lookup-own (st ∷ streams) (suc slot) (fresh, unique) h =
    let e = lookup-own streams slot unique (omega arith) in
    elim (Bool-cases (st.stream_id == (at streams slot).stream_id)) [
      | inl same ↦
          let here = (==_iff st.stream_id (at streams slot).stream_id).0 same in
          let lost = ap (lookup streams) here in cc
      | inr other ↦ rw other e
    ]

-- The stream of the freed slot is gone, and every other one is still there.
pub lookup-free_slot :
    (streams : List Stream) (slot id : ℕ)
    → IsUnique streams
    → slot < length streams
    → lookup (free_slot streams slot) id
      ≡ (if (at streams slot).stream_id == id then none else lookup streams id)
unfolding lookup IsUnique
lookup-free_slot [] slot id unique h = absurd (omega arith)
lookup-free_slot (st ∷ []) zero id unique h = rw (free-only st 0) (ground arith)
lookup-free_slot (st ∷ []) (suc slot) id unique h = absurd (omega arith)
lookup-free_slot (st ∷ next ∷ streams) zero id (fresh, unique) h =
    let e = rotated next streams id unique in
    rw (free-zero st next streams) (ground (arith, e, fresh))
lookup-free_slot (st ∷ next ∷ streams) (suc slot) id (fresh, unique) h =
    let e = lookup-free_slot (next ∷ streams) slot id unique (omega arith) in
    let own = lookup-at (next ∷ streams) slot (omega arith) in
    let apart : (at (next ∷ streams) slot).stream_id ≢ st.stream_id =
      λ same. own (ap (lookup (next ∷ streams)) same ∙ fresh) in
    rw (free-suc st next streams slot) (ground (arith, e, apart))

pub free_slot-IsUnique :
    (streams : List Stream) (slot : ℕ)
    → IsUnique streams
    → slot < length streams
    → IsUnique (free_slot streams slot)
unfolding IsUnique
free_slot-IsUnique [] slot unique h = absurd (omega arith)
free_slot-IsUnique (st ∷ []) zero unique h = rw (free-only st 0) tt
free_slot-IsUnique (st ∷ []) (suc slot) unique h = absurd (omega arith)
free_slot-IsUnique (st ∷ next ∷ streams) zero (fresh, unique) h =
    rw (free-zero st next streams) (rotated-IsUnique next streams unique)
free_slot-IsUnique (st ∷ next ∷ streams) (suc slot) (fresh, unique) h =
    let e = lookup-free_slot (next ∷ streams) slot st.stream_id unique (omega arith) in
    rw (free-suc st next streams slot)
      (ground (arith, e, fresh), free_slot-IsUnique (next ∷ streams) slot unique (omega arith))

module _ {ℓ} (P : Stream → Type ℓ) where
  All-at :
      (streams : List Stream) (slot : ℕ)
      → All P streams
      → slot < length streams
      → P (at streams slot)
  All-at [] slot h lt = absurd (omega arith)
  All-at (st ∷ streams) zero h lt = h.0
  All-at (st ∷ streams) (suc slot) h lt = All-at streams slot h.1 (omega arith)

  All-take : (n : ℕ) (streams : List Stream) → All P streams → All P (take n streams)
  All-take zero streams h = tt
  All-take (suc n) [] h = tt
  All-take (suc n) (st ∷ streams) h = (h.0, All-take n streams h.1)

  All-set :
      (streams : List Stream) (slot : ℕ) (st : Stream)
      → All P streams
      → P st
      → All P (set streams slot st)
  All-set [] slot st h p = tt
  All-set (x ∷ streams) zero st h p = (p, h.1)
  All-set (x ∷ streams) (suc slot) st h p = (h.0, All-set streams slot st h.1 p)

  pub All-modify :
      (streams : List Stream) (slot : ℕ) (f : Stream → Stream)
      → ((st : Stream) → P st → P (f st))
      → All P streams
      → All P (modify streams slot f)
  All-modify [] slot f keep h = tt
  All-modify (x ∷ streams) zero f keep h = (keep x h.0, h.1)
  All-modify (x ∷ streams) (suc slot) f keep h = (h.0, All-modify streams slot f keep h.1)

  pub All-free_slot :
      (streams : List Stream) (slot : ℕ)
      → slot < length streams
      → All P streams
      → All P (free_slot streams slot)
  unfolding free_slot
  All-free_slot streams slot lt h =
      let last = length streams - 1 in
      All-take last (set streams slot (at streams last))
        (All-set streams slot (at streams last) h (All-at streams last h (omega arith)))
