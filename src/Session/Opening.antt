-- ===== src/Session/Opening.antt =====
-- `open_stream_http2_connection`, branch by branch, and against the map of the streams.
use viriatum.Base.{false}
use viriatum.Base.{ℕ, ◌%◌, ◌≤◌, ◌<◌, List, [], ◌∷◌, ◌++◌, length, length-append}
use viriatum.Base.{none, some, ◌==◌, if◌then◌else◌, Bool-cases, All}
use viriatum.Base.{◌≡◌, ◌≢◌, refl, sym, ap, ◌∙◌, ◌⊎◌, inl, inr, arith, ok, err, ==_iff}
use viriatum.Http2.{protocol_error, refused_stream}
use viriatum.Session.{Stream, Session, stream_slots}
use viriatum.Session.Links.{parent, move, moving}
use viriatum.Session.Streams.{find_stream, open_stream, new_stream}
use viriatum.Session.Dependencies.{links}
use viriatum.Session.Lookup.{lookup, IsUnique}
use viriatum.Session.Closing.{parent-lookup, dependency_of}
use viriatum.Session.Placing.{IsTree}
use viriatum.Session.Invariant.{IsTable, IsSession, Numbered, Bounded}
use mathlib.Core.Option

-- The session with the stream that is opened.
abbrev pub with_stream : Session → ℕ → Session
with_stream s id = record s { streams = s.streams ++ (new_stream s id ∷ []); last_stream_id = id }

-- A stream is opened exactly when its identifier is odd and above the last one and there is room for
-- it; an identifier that is not is a protocol error, and a stream too many is refused.
pub open_stream_cases :
    (s : Session) (id : ℕ)
    → (((id % 2 ≡ 0) ⊎ (id ≤ s.last_stream_id)) × (open_stream s id ≡ err protocol_error))
      ⊎ ((id % 2 ≡ 1)
          × (s.last_stream_id < id)
          × ((s.settings.max_concurrent_streams ≤ length s.streams)
              ⊎ (stream_slots ≤ length s.streams))
          × (open_stream s id ≡ err refused_stream))
      ⊎ ((id % 2 ≡ 1)
          × (s.last_stream_id < id)
          × (length s.streams < s.settings.max_concurrent_streams)
          × (length s.streams < stream_slots)
          × (open_stream s id ≡ ok (with_stream s id, length s.streams)))
unfolding open_stream
open_stream_cases s id = ground arith

-- What is not in the table is neither its first stream nor behind it.
not_first :
    (st : Stream) (streams : List Stream) (id : ℕ)
    → lookup (st ∷ streams) id ≡ none
    → (st.stream_id ≢ id) × (lookup streams id ≡ none)
unfolding lookup
not_first st streams id fresh = ground arith

lookup-snoc :
    (streams : List Stream) (new : Stream) (x : ℕ)
    → lookup streams new.stream_id ≡ none
    → lookup (streams ++ (new ∷ [])) x ≡ (if new.stream_id == x then some new else lookup streams x)
unfolding lookup
lookup-snoc [] new x fresh = refl
lookup-snoc (st ∷ streams) new x fresh =
    let (apart, behind) = not_first st streams new.stream_id fresh in
    ground (arith, lookup-snoc streams new x behind)

find-snoc :
    (streams : List Stream) (new : Stream)
    → lookup streams new.stream_id ≡ none
    → find_stream (streams ++ (new ∷ [])) new.stream_id ≡ some (length streams)
unfolding lookup find_stream
find-snoc [] new fresh = ground arith
find-snoc (st ∷ streams) new fresh =
    let (apart, behind) = not_first st streams new.stream_id fresh in
    rw (find-snoc streams new behind) (ground arith)

snoc-IsUnique :
    (streams : List Stream) (new : Stream)
    → lookup streams new.stream_id ≡ none
    → IsUnique streams
    → IsUnique (streams ++ (new ∷ []))
unfolding lookup IsUnique
snoc-IsUnique [] new fresh unique = (refl, tt)
snoc-IsUnique (st ∷ streams) new fresh (far, unique) =
    let (apart, behind) = not_first st streams new.stream_id fresh in
    (
      ground (arith, lookup-snoc streams new st.stream_id behind),
      snoc-IsUnique streams new behind unique,
    )

All-snoc {ℓ} :
    (P : Stream → Type ℓ) (streams : List Stream) (new : Stream)
    → All P streams
    → P new
    → All P (streams ++ (new ∷ []))
All-snoc P [] new h p = (p, tt)
All-snoc P (st ∷ streams) new (h, hs) p = (h, All-snoc P streams new hs p)

All-weaken {ℓ} :
    (P Q : Stream → Type ℓ)
    → ((st : Stream) → P st → Q st)
    → (streams : List Stream) → All P streams
    → All Q streams
All-weaken P Q weaken [] h = tt
All-weaken P Q weaken (st ∷ streams) (h, hs) = (weaken st h, All-weaken P Q weaken streams hs)

-- An identifier above the last one of the peer is not in the table.
fresh-lookup :
    (streams : List Stream) (last pushed id : ℕ)
    → All (Numbered last pushed) streams
    → id % 2 ≡ 1
    → last < id
    → lookup streams id ≡ none
unfolding lookup
fresh-lookup [] last pushed id h odd above = refl
fresh-lookup (st ∷ streams) last pushed id ((of_peer, own), hs) odd above =
    elim (Bool-cases (st.stream_id == id)) [
      | inl same ↦
          let e = (==_iff st.stream_id id).0 same in
          absurd (omega (arith, e, of_peer (ap (λ n. n % 2) e ∙ odd)))
      | inr other ↦ rw other (fresh-lookup streams last pushed id hs odd above)
    ]

snoc-IsTree :
    (streams : List Stream) (s : Session) (id : ℕ)
    → IsTree streams
    → lookup streams id ≡ none
    → id ≢ 0
    → IsTree (streams ++ (new_stream s id ∷ []))
unfolding new_stream
snoc-IsTree streams s id tree fresh ne =
    let new = new_stream s id in
    let after = streams ++ (new ∷ []) in
    let found : (x : ℕ)
        → parent (links after) x
          ≡ Option.map dependency_of (if id == x then some new else lookup streams x) =
      λ x.
        parent-lookup after x ∙ ap (Option.map dependency_of) (lookup-snoc streams new x fresh) in
    let others : (x : ℕ) → x ≢ id → parent (links after) x ≡ parent (links streams) x =
      λ x off. found x ∙ sym (parent-lookup streams x ∙ ground arith) in
    record {
      forest =
          move id 0 tree.forest (λ walk. moving walk (λ e. ne (sym e)) tree.rootless)
            (found id ∙ ground arith) others;
      rootless = others 0 (λ e. ne (sym e)) ∙ tree.rootless;
    }

with_stream-IsTable :
    (s : Session) (id : ℕ)
    → IsSession s
    → id % 2 ≡ 1
    → s.last_stream_id < id
    → length s.streams < stream_slots
    → IsTable id s.push_stream_id (s.streams ++ (new_stream s id ∷ []))
unfolding new_stream
with_stream-IsTable s id i odd above room =
    let t = i.table in
    let new = new_stream s id in
    let fresh = fresh-lookup s.streams s.last_stream_id s.push_stream_id id t.numbered odd above in
    let kept =
      All-weaken (Numbered s.last_stream_id s.push_stream_id) (Numbered id s.push_stream_id)
        (λ st (of_peer, own). (λ o. omega (arith, of_peer o), own)) s.streams t.numbered in
    record {
      unique = snoc-IsUnique s.streams new fresh t.unique;
      tree = snoc-IsTree s.streams s id t.tree fresh (λ e. omega (arith, odd, e));
      numbered =
          All-snoc (Numbered id s.push_stream_id) s.streams new kept
            (λ o. omega arith, λ even. omega (arith, odd));
      windows = All-snoc Bounded s.streams new t.windows (omega (arith, i.remote.window));
      slots = omega (arith, length-append s.streams (new ∷ []));
    }

-- Opening a stream adds it to the map, keeps every other stream, and keeps the invariant of the
-- session; the slot that is answered is that of the stream.
pub with_stream_lem :
    (s : Session) (id : ℕ)
    → IsSession s
    → id % 2 ≡ 1
    → s.last_stream_id < id
    → length s.streams < stream_slots
    → IsSession (with_stream s id)
      × (find_stream (with_stream s id).streams id ≡ some (length s.streams))
      × ((x : ℕ)
          → lookup (with_stream s id).streams x
            ≡ (if id == x then some (new_stream s id) else lookup s.streams x))
unfolding new_stream
with_stream_lem s id i odd above room =
    let t = i.table in
    let fresh = fresh-lookup s.streams s.last_stream_id s.push_stream_id id t.numbered odd above in
    (
      record {
        table = with_stream-IsTable s id i odd above room;
        window = i.window;
        remote = i.remote;
        assembled = i.assembled;
      },
      find-snoc s.streams (new_stream s id) fresh,
      λ x. lookup-snoc s.streams (new_stream s id) x fresh,
    )

-- While no GOAWAY has come from the peer or gone to it: a stream is opened exactly when its identifier
-- is odd and above the last one and there is room for it. Then the map gains the stream, in the slot
-- that is answered, and keeps every other one, and the invariant stays. An identifier that is not is a
-- protocol error, and a stream too many is refused.
pub open_stream_lem :
    (s : Session) (id : ℕ)
    → IsSession s
    → s.goaway ≡ false
    → (((id % 2 ≡ 0) ⊎ (id ≤ s.last_stream_id)) × (open_stream s id ≡ err protocol_error))
      ⊎ ((id % 2 ≡ 1)
          × (s.last_stream_id < id)
          × ((s.settings.max_concurrent_streams ≤ length s.streams)
              ⊎ (stream_slots ≤ length s.streams))
          × (open_stream s id ≡ err refused_stream))
      ⊎ ((id % 2 ≡ 1)
          × (s.last_stream_id < id)
          × (length s.streams < s.settings.max_concurrent_streams)
          × (open_stream s id ≡ ok (with_stream s id, length s.streams))
          × IsSession (with_stream s id)
          × (find_stream (with_stream s id).streams id ≡ some (length s.streams))
          × ((x : ℕ)
              → lookup (with_stream s id).streams x
                ≡ (if id == x then some (new_stream s id) else lookup s.streams x)))
open_stream_lem s id i still = elim (open_stream_cases s id) [
  | inl wrong ↦ inl wrong
  | inr (inl refused) ↦ inr (inl refused)
  | inr (inr (odd, above, room, slots, e)) ↦
      let (kept, slot, map) = with_stream_lem s id i odd above slots in
      inr (inr (odd, above, room, e, kept, slot, map))
]
