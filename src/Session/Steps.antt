-- ===== src/Session/Steps.antt =====
-- The operations on the table, the tree, the windows and the block keep the invariant of a session.
use viriatum.Base.{ℕ, ◌<◌}
use viriatum.Base.{List, [], ◌∷◌, length, modify, ◌==◌, ◌||◌, not}
use viriatum.Base.{Option, none, some, Bool, true, false, Bool-cases, Option-cases}
use viriatum.Base.{◌≡◌, refl, ◌∙◌, ◌⊎◌, inl, inr, arith, ok, err}
use viriatum.Http2.{Priority, Http2Error}
use viriatum.Session.{Stream, Session, at}
use viriatum.Session.Streams.{find_stream, close_stream, activate, unset_handler, forget}
use viriatum.Session.Tree.{
  hang, placed, moves, take_over, adopt_siblings, lift_parent, descends, prioritise_stream,
}
use viriatum.Session.Dependencies.{found}
use viriatum.Session.Placing.{moves-IsTree}
use viriatum.Session.Closing.{
  closed_table-IsTree, closed_table-IsUnique, length-closed_table, All-closed_table,
}
use viriatum.Session.Pointwise.{Pointwise, Pointwise-trans, Pointwise-refl, Pointwise-modify}
use viriatum.Session.Calm.{Calm, Calm-refl, Calm-trans, aside}
use viriatum.Session.Invariant.{IsSession, Numbered, Bounded, Similar, rows-IsTable}

unset_handler-Calm :
    (s : Session) (slot : ℕ) (serving : Option ℕ) → Calm s (unset_handler s slot serving)
unfolding unset_handler activate
unset_handler-Calm s slot none = Calm-refl s
unset_handler-Calm s slot (some handler) = aside s _ _ _ _

forget-Calm : (s : Session) (id : ℕ) (current : Option ℕ) → Calm s (forget s id current)
unfolding forget
forget-Calm s id none = Calm-refl s
forget-Calm s id (some current) = elim (Bool-cases (current == id)) [
  | inl same ↦ rw same (aside s s.output s.events none none)
  | inr other ↦ rw other (Calm-refl s)
]

pub close_stream-IsSession :
    (s : Session) (slot : ℕ)
    → IsSession s
    → slot < length s.streams
    → IsSession (close_stream s slot)
unfolding close_stream
close_stream-IsSession s slot i inside =
    let t = i.table in
    let stream = at s.streams slot in
    let unserved = unset_handler s slot stream.http_handler in
    let calm =
      Calm-trans (unset_handler-Calm s slot stream.http_handler)
        (forget-Calm unserved stream.stream_id unserved.current) in
    record {
      table =
          rw (calm.last, calm.pushed)
            (record {
              unique = closed_table-IsUnique s.streams slot t.unique inside;
              tree = closed_table-IsTree s.streams slot t.tree t.unique inside;
              numbered =
                  All-closed_table (Numbered s.last_stream_id s.push_stream_id) s.streams slot
                    (λ d st p. p) inside t.numbered;
              windows = All-closed_table Bounded s.streams slot (λ d st p. p) inside t.windows;
              slots = omega (arith, length-closed_table s.streams slot inside, t.slots);
            });
      window = omega (arith, calm.narrower, i.window);
      remote = rw calm.peer i.remote;
      assembled = rw calm.block i.assembled;
    }

Similar-refl : (st : Stream) → Similar st st
Similar-refl st = (refl, omega arith)

Similar-trans : (a b c : Stream) → Similar a b → Similar b c → Similar a c
Similar-trans a b c (h, k) (h', k') = (h' ∙ h, omega (arith, k, k'))

hang-rows :
    (streams : List Stream) (d slot : ℕ) → Pointwise Similar streams (modify streams slot (hang d))
hang-rows streams d slot =
    Pointwise-modify Similar Similar-refl streams slot (hang d) (λ st. (refl, omega arith))

lift_parent-rows :
    (streams : List Stream) (stream : Stream) (d : ℕ)
    → Pointwise Similar streams (lift_parent streams stream d)
unfolding lift_parent
lift_parent-rows streams stream d =
    elim (Bool-cases (descends (length streams) streams d stream.stream_id)) [
      | inr beside ↦ rw beside (Pointwise-refl Similar Similar-refl streams)
      | inl below ↦ elim (Option-cases (find_stream streams d)) [
        | inl lost ↦ rw (below, lost) (Pointwise-refl Similar Similar-refl streams)
        | inr (slot, e) ↦ rw (below, e) (hang-rows streams stream.priority.dependency slot)
      ]
    ]

take_over-rows :
    (streams : List Stream) (s d : ℕ) → Pointwise Similar streams (take_over s d streams)
unfolding take_over
take_over-rows [] s d = tt
take_over-rows (st ∷ streams) s d =
    let rest = take_over-rows streams s d in
    elim (Bool-cases (st.stream_id == s || not (st.priority.dependency == d))) [
      | inl kept ↦ rw kept (Similar-refl st, rest)
      | inr moved ↦ rw moved ((refl, omega arith), rest)
    ]

adopt_siblings-rows :
    (exclusive : Bool) (streams : List Stream) (s d : ℕ)
    → Pointwise Similar streams (adopt_siblings exclusive s d streams)
unfolding adopt_siblings
adopt_siblings-rows true streams s d = take_over-rows streams s d
adopt_siblings-rows false streams s d = Pointwise-refl Similar Similar-refl streams

moves-rows :
    (streams : List Stream) (slot : ℕ) (priority : Priority)
    → Pointwise Similar streams (moves streams slot priority)
unfolding moves
moves-rows streams slot priority =
    let stream = at streams slot in
    let lifted = lift_parent streams stream priority.dependency in
    let adopted = adopt_siblings priority.exclusive stream.stream_id priority.dependency lifted in
    Pointwise-trans Similar Similar-trans streams adopted (modify adopted slot (placed priority))
      (Pointwise-trans Similar Similar-trans streams lifted adopted
        (lift_parent-rows streams stream priority.dependency)
        (adopt_siblings-rows priority.exclusive lifted stream.stream_id priority.dependency))
      (Pointwise-modify Similar Similar-refl adopted slot (placed priority)
        (λ st. (refl, omega arith)))

-- A priority is refused exactly for a dependency on the stream itself, and a move keeps the
-- invariant, the tree included, and the slots.
pub prioritise_stream_lem :
    (s : Session) (id slot : ℕ) (priority : Priority)
    → IsSession s
    → find_stream s.streams id ≡ some slot
    → (priority.dependency ≡ id × prioritise_stream s slot priority ≡ err Http2Error.protocol_error)
      ⊎ ((s' : Session) × (prioritise_stream s slot priority ≡ ok s')
          × IsSession s'
          × ((x : ℕ) → find_stream s'.streams x ≡ find_stream s.streams x))
unfolding prioritise_stream
prioritise_stream_lem s id slot priority i e =
    let own = (found s.streams id slot e).named in
    elim (Bool-cases (priority.dependency == id)) [
      | inl self ↦ inl (ground arith, rw (own, self))
      | inr other ↦
          let (tree, kept) =
            moves-IsTree s.streams id slot priority i.table.tree e (ground arith) in
          inr (
            record s { streams = moves s.streams slot priority },
            rw (own, other),
            record {
              table =
                  rows-IsTable s.last_stream_id s.push_stream_id s.streams
                    (moves s.streams slot priority) (moves-rows s.streams slot priority) tree
                    i.table;
              window = i.window;
              remote = i.remote;
              assembled = i.assembled;
            },
            kept,
          )
    ]
