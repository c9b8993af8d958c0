-- ===== src/Session/Closing.antt =====
-- `close_stream_http2_connection` against the map of the streams and the tree of the priorities.
use viriatum.Base.{ℕ, zero, suc, ◌+◌, ◌-◌, List, [], ◌∷◌, length, set, arith, ◌<◌}
use viriatum.Base.{Option, none, some, ◌==◌, if◌then◌else◌, ℕ_discrete, All}
use viriatum.Base.{◌≡◌, ◌≢◌, refl, sym, ap, ◌∙◌, ◌⊎◌, inl, inr, Bool-cases, length-set, length-take}
use viriatum.Session.{Stream, at}
use viriatum.Session.Links.{parent, leave}
use viriatum.Session.Streams.{rehung, rehang, free_slot, closed_table}
use viriatum.Session.Dependencies.{links}
use viriatum.Session.Lookup.{
  lookup, IsUnique, lookup-own, lookup-free_slot, free_slot-IsUnique, All-free_slot,
}
use viriatum.Session.Placing.{IsTree}
use viriatum.Session.Tree.{hang}
use mathlib.Core.Option

abbrev pub dependency_of : Stream → ℕ
dependency_of stream = stream.priority.dependency

pub parent-lookup :
    (streams : List Stream) (x : ℕ)
    → parent (links streams) x ≡ Option.map dependency_of (lookup streams x)
unfolding parent links lookup
parent-lookup [] x = refl
parent-lookup (st ∷ streams) x = ground (arith, parent-lookup streams x)

lookup-rehang :
    (streams : List Stream) (s d x : ℕ)
    → lookup (rehang s d streams) x ≡ Option.map (rehung s d) (lookup streams x)
unfolding lookup rehang
lookup-rehang [] s d x = refl
lookup-rehang (st ∷ streams) s d x = ground (arith, lookup-rehang streams s d x)

length-rehang : (streams : List Stream) (s d : ℕ) → length (rehang s d streams) ≡ length streams
unfolding rehang
length-rehang [] s d = refl
length-rehang (st ∷ streams) s d = ap suc (length-rehang streams s d)

at-rehang_id :
    (streams : List Stream) (s d slot : ℕ)
    → (at (rehang s d streams) slot).stream_id ≡ (at streams slot).stream_id
unfolding rehang
at-rehang_id [] s d slot = refl
at-rehang_id (st ∷ streams) s d zero = ground arith
at-rehang_id (st ∷ streams) s d (suc slot) = at-rehang_id streams s d slot

rehung_id : (s d : ℕ) (st : Stream) → (rehung s d st).stream_id ≡ st.stream_id
rehung_id s d st = ground arith

rehang-IsUnique :
    (streams : List Stream) (s d : ℕ) → IsUnique streams → IsUnique (rehang s d streams)
unfolding rehang IsUnique
rehang-IsUnique [] s d unique = tt
rehang-IsUnique (st ∷ streams) s d (fresh, unique) = (
  ap (lookup (rehang s d streams)) (rehung_id s d st)
      ∙ lookup-rehang streams s d st.stream_id
      ∙ ap (Option.map (rehung s d)) fresh,
  rehang-IsUnique streams s d unique,
)

rehung-dependency :
    (s d : ℕ) (o : Option Stream)
    → (Option.map dependency_of o ≡ some s
        × Option.map dependency_of (Option.map (rehung s d) o) ≡ some d)
      ⊎ (Option.map dependency_of o ≢ some s
          × Option.map dependency_of (Option.map (rehung s d) o) ≡ Option.map dependency_of o)
rehung-dependency s d none = inr (λ e. cc, refl)
rehung-dependency s d (some st) = elim (ℕ_discrete st.priority.dependency s) [
  | yes same ↦ inl (ground arith, ground arith)
  | no other ↦ inr (λ e. ground arith, ground arith)
]

map-none :
    (f : Stream → Stream) (o : Option Stream)
    → Option.map dependency_of o ≡ none
    → Option.map dependency_of (Option.map f o) ≡ none
map-none f none e = refl
map-none f (some st) e = cc

-- The map loses the stream and keeps every other one, but for those that hung from it, which hang
-- from what it hung from.
pub lookup-closed_table :
    (streams : List Stream) (slot x : ℕ)
    → IsUnique streams
    → slot < length streams
    → lookup (closed_table streams slot) x ≡ (
        if (at streams slot).stream_id == x
        then none
        else Option.map
            (rehung (at streams slot).stream_id (at streams slot).priority.dependency)
            (lookup streams x))
unfolding closed_table
lookup-closed_table streams slot x unique h =
    let id = (at streams slot).stream_id in
    let d = (at streams slot).priority.dependency in
    lookup-free_slot (rehang id d streams) slot x (rehang-IsUnique streams id d unique)
      (omega (arith, length-rehang streams id d))
    ∙ rw (at-rehang_id streams id d slot, lookup-rehang streams id d x)

pub closed_table-IsTree :
    (streams : List Stream) (slot : ℕ)
    → IsTree streams
    → IsUnique streams
    → slot < length streams
    → IsTree (closed_table streams slot)
closed_table-IsTree streams slot tree unique h =
    let id = (at streams slot).stream_id in
    let d = (at streams slot).priority.dependency in
    let after = closed_table streams slot in
    let others : (x : ℕ) → x ≢ id → lookup after x ≡ Option.map (rehung id d) (lookup streams x) =
      λ x ne. lookup-closed_table streams slot x unique h ∙ ground arith in
    let rest : (x : ℕ)
        → x ≢ id
        → (parent (links streams) x ≡ some id × parent (links after) x ≡ some d)
          ⊎ (parent (links streams) x ≢ some id
              × parent (links after) x ≡ parent (links streams) x) =
      λ x ne.
        rw (parent-lookup streams x, parent-lookup after x, others x ne)
          (rehung-dependency id d (lookup streams x)) in
    let gone : parent (links after) id ≡ none =
      parent-lookup after id ∙ rw (lookup-closed_table streams slot id unique h) (ground arith) in
    record {
      forest =
          leave id d tree.forest (parent-lookup streams id ∙ rw (lookup-own streams slot unique h))
            gone rest;
      rootless = elim (ℕ_discrete 0 id) [
        | yes zero_id ↦ ap (parent (links after)) zero_id ∙ gone
        | no other ↦
            let lost = sym (parent-lookup streams 0) ∙ tree.rootless in
            parent-lookup after 0
            ∙ rw (others 0 other) (map-none (rehung id d) (lookup streams 0) lost)
      ];
    }

pub closed_table-IsUnique :
    (streams : List Stream) (slot : ℕ)
    → IsUnique streams
    → slot < length streams
    → IsUnique (closed_table streams slot)
unfolding closed_table
closed_table-IsUnique streams slot unique h =
    let id = (at streams slot).stream_id in
    let d = (at streams slot).priority.dependency in
    free_slot-IsUnique (rehang id d streams) slot (rehang-IsUnique streams id d unique)
      (omega (arith, length-rehang streams id d))

pub length-closed_table :
    (streams : List Stream) (slot : ℕ)
    → slot < length streams
    → length (closed_table streams slot) + 1 ≡ length streams
unfolding closed_table free_slot
length-closed_table streams slot h =
    let id = (at streams slot).stream_id in
    let d = (at streams slot).priority.dependency in
    let same = length-rehang streams id d in
    let last = length (rehang id d streams) - 1 in
    let moved = at (rehang id d streams) last in
    let kept = length-set (rehang id d streams) slot moved in
    let cut = length-take last (set (rehang id d streams) slot moved) (omega (arith, kept)) in
    omega (arith, cut, same)

All-rehang {ℓ} :
    (P : Stream → Type ℓ) (streams : List Stream) (s d : ℕ)
    → ((st : Stream) → P st → P (hang d st))
    → All P streams
    → All P (rehang s d streams)
unfolding rehang
All-rehang P [] s d keep h = tt
All-rehang P (st ∷ streams) s d keep h = (
  elim (Bool-cases (st.priority.dependency == s)) [
    | inl hung ↦ rw hung (keep st h.0)
    | inr other ↦ rw other h.0
  ],
  All-rehang P streams s d keep h.1,
)

-- A property of streams that does not speak of their dependency.
pub All-closed_table {ℓ} :
    (P : Stream → Type ℓ) (streams : List Stream) (slot : ℕ)
    → ((d : ℕ) (st : Stream) → P st → P (hang d st))
    → slot < length streams
    → All P streams
    → All P (closed_table streams slot)
unfolding closed_table
All-closed_table P streams slot keep lt h =
    let id = (at streams slot).stream_id in
    let d = (at streams slot).priority.dependency in
    All-free_slot P (rehang id d streams) slot (omega (arith, length-rehang streams id d))
      (All-rehang P streams id d (keep d) h)
