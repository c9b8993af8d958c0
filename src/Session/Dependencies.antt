-- ===== src/Session/Dependencies.antt =====
-- The dependencies of a table of streams as links, and what each move of the table does to them.
use viriatum.Base.{ℕ, zero, suc, List, [], ◌∷◌, length, modify, arith, ◌<◌}
use viriatum.Base.{none, some, ◌==◌, if◌then◌else◌}
use viriatum.Base.{◌≡◌, ◌≢◌, refl, inl, inr, Option-cases}
use viriatum.Session.{Stream, at}
use viriatum.Session.Links.{Links, parent}
use viriatum.Session.Streams.{find_stream, rehang}
use viriatum.Session.Tree.{take_over}

unfoldable pub links : List Stream → Links
links [] = []
links (stream ∷ streams) = (stream.stream_id, stream.priority.dependency) ∷ links streams

-- What `find_stream` answers with.
pub record IsFound (streams : List Stream) (stream_id slot : ℕ) : Type 0 where
  pub inside : slot < length streams
  pub named : (at streams slot).stream_id ≡ stream_id
  pub linked : parent (links streams) stream_id ≡ some (at streams slot).priority.dependency

pub found :
    (streams : List Stream) (id slot : ℕ)
    → find_stream streams id ≡ some slot
    → IsFound streams id slot
unfolding find_stream links parent
found [] id slot h = cc
found (st ∷ streams) id slot h = elim (Option-cases (find_stream streams id)) [
  | inl none_behind ↦ ground (arith, rw none_behind at h)
  | inr (behind, e) ↦
      let rest = found streams id behind e in
      ground (arith, rw e at h, rest.inside, rest.named, rest.linked)
]

pub not_found :
    (streams : List Stream) (id : ℕ)
    → find_stream streams id ≡ none
    → parent (links streams) id ≡ none
unfolding find_stream links parent
not_found [] id h = refl
not_found (st ∷ streams) id h = elim (Option-cases (find_stream streams id)) [
  | inl none_behind ↦ ground (arith, not_found streams id none_behind)
  | inr (behind, e) ↦ ground (arith, rw e at h)
]

pub missing :
    (streams : List Stream) (id : ℕ)
    → parent (links streams) id ≡ none
    → find_stream streams id ≡ none
missing streams id h = elim (Option-cases (find_stream streams id)) [
  | inl e ↦ e
  | inr (slot, e) ↦ absurd (ground (arith, IsFound.linked (found streams id slot e)))
]

-- Changing the stream of `id` changes what is looked up for `id`.
pub parent-modify :
    (streams : List Stream) (id slot x : ℕ) (f : Stream → Stream)
    → ((st : Stream) → (f st).stream_id ≡ st.stream_id)
    → find_stream streams id ≡ some slot
    → parent (links (modify streams slot f)) x ≡ (
        if id == x
        then some (f (at streams slot)).priority.dependency
        else parent (links streams) x)
unfolding find_stream links parent
parent-modify [] id slot x f same h = cc
parent-modify (st ∷ streams) id slot x f same h = elim (Option-cases (find_stream streams id)) [
  | inl none_behind ↦ ground (arith, rw none_behind at h, same st)
  | inr (behind, e) ↦
      let rest = parent-modify streams id behind x f same e in
      ground (arith, rw e at h, rest, same st)
]

-- A change of a stream that keeps its identifier keeps the slots.
pub find-modify :
    (streams : List Stream) (slot x : ℕ) (f : Stream → Stream)
    → ((st : Stream) → (f st).stream_id ≡ st.stream_id)
    → find_stream (modify streams slot f) x ≡ find_stream streams x
unfolding find_stream
find-modify [] slot x f same = refl
find-modify (st ∷ streams) zero x f same = rw (same st)
find-modify (st ∷ streams) (suc slot) x f same = rw (find-modify streams slot x f same)

-- One that keeps the dependency too keeps the links.
pub links-modify :
    (streams : List Stream) (slot : ℕ) (f : Stream → Stream)
    → ((st : Stream) → (f st).stream_id ≡ st.stream_id)
    → ((st : Stream) → (f st).priority.dependency ≡ st.priority.dependency)
    → links (modify streams slot f) ≡ links streams
unfolding links
links-modify [] slot f same held = refl
links-modify (st ∷ streams) zero f same held = rw (same st, held st)
links-modify (st ∷ streams) (suc slot) f same held = rw (links-modify streams slot f same held)

pub find-take_over :
    (streams : List Stream) (s d x : ℕ)
    → find_stream (take_over s d streams) x ≡ find_stream streams x
unfolding find_stream take_over
find-take_over [] s d x = refl
find-take_over (st ∷ streams) s d x = ground (arith, find-take_over streams s d x)

-- Of the streams other than `s`, those that hang from `d` come to hang from `s`.
pub parent-take_over :
    (streams : List Stream) (s d x : ℕ)
    → (x ≡ s → parent (links (take_over s d streams)) x ≡ parent (links streams) x)
      × (x ≢ s
          → parent (links streams) x ≡ some d
          → parent (links (take_over s d streams)) x ≡ some s)
      × (x ≢ s
          → parent (links streams) x ≢ some d
          → parent (links (take_over s d streams)) x ≡ parent (links streams) x)
unfolding find_stream links parent take_over
parent-take_over [] s d x = (λ e. refl, λ ne e. cc, λ ne e. refl)
parent-take_over (st ∷ streams) s d x =
    let (a, b, c) = parent-take_over streams s d x in
    (λ e. ground arith, λ ne e. ground arith, λ ne e. ground arith)

pub find-rehang :
    (streams : List Stream) (s d x : ℕ) → find_stream (rehang s d streams) x ≡ find_stream streams x
unfolding find_stream rehang
find-rehang [] s d x = refl
find-rehang (st ∷ streams) s d x = ground (arith, find-rehang streams s d x)

pub parent-rehang :
    (streams : List Stream) (s d x : ℕ)
    → (parent (links streams) x ≡ some s → parent (links (rehang s d streams)) x ≡ some d)
      × (parent (links streams) x ≢ some s
          → parent (links (rehang s d streams)) x ≡ parent (links streams) x)
unfolding find_stream links parent rehang
parent-rehang [] s d x = (λ e. cc, λ ne. refl)
parent-rehang (st ∷ streams) s d x =
    let (a, b) = parent-rehang streams s d x in (λ e. ground arith, λ ne. ground arith)
