-- ===== src/Session/Tests.antt =====
-- Runs of the session of src/viriatum/stream/stream_http2.c, and its theorems at concrete inputs.
use viriatum.Base.{◌+◌, false, ℕ, suc, ◌%◌, ◌≤◌, ◌<◌, pos, ◌+ℤ◌, ◌-ℤ◌, ◌≤ℤ◌, arith}
use viriatum.Base.{List, [], ◌∷◌, ◌++◌, length, modify, none, some, ok, err, if◌then◌else◌}
use viriatum.Base.{true, ◌==◌, ◌≡◌, ◌≢◌, ◌⊎◌, refl}
use viriatum.Http2.{
  Priority, create_settings, protocol_error, refused_stream, flow_control_error, max_window_size,
}
use viriatum.Session.{Session, create, at, stream_slots}
use viriatum.Session.Lookup.{lookup, IsUnique}
use viriatum.Session.Placing.{IsTree}
use viriatum.Session.Streams.{find_stream, open_stream, new_stream, closed_table, rehung}
use viriatum.Session.Tree.{prioritise_stream}
use viriatum.Session.Flow.{update_window, apply_settings, widen}
use viriatum.Session.Sending.{flush, sender}
use viriatum.Session.Handlers.{Handler}
use viriatum.Session.Pointwise.{Pointwise}
use viriatum.Session.Invariant.{IsSession, links-IsTree}
use viriatum.Session.Dependencies.{links}
use viriatum.Session.Opening.{with_stream, open_stream_lem, with_stream_lem}
use viriatum.Session.Closing.{lookup-closed_table}
use viriatum.Session.Flushing.{flush_lem}
use viriatum.Session.Rounds.{Flushed}
use viriatum.Session.Steps.{prioritise_stream_lem}
use viriatum.Session.Windows.{update_window_lem}
use viriatum.Session.Renegotiation.{apply_settings_lem, Shifted}
use viriatum.Session.Reading.{Reading, data_handler, preface_bytes}
use viriatum.Base.{drop, get_or, bit_and}
use viriatum.Http2.{frame_header_size, max_stream_id}
use viriatum.Http2.Number.{decode_number}
use viriatum.Session.Splitting.{split}
use viriatum.Base.{bit_or}
use viriatum.Session.Fragments.{piece, Cut, split_lem}
use viriatum.Session.Schedule.{choose}
use viriatum.Session.Choosing.{choose_lem, Ready, IsFree}
use viriatum.Session.Progress.{Ended, read_all_lem}
use viriatum.Session.Reading.{read_all, read_frames}
use viriatum.Session.Reach.{create-IsSession}
use mathlib.Core.Option

-- A connection on which the streams 1 and 3 are open.
abbrev one_stream : Session
one_stream = with_stream (create none) 1

abbrev two_streams : Session
two_streams = with_stream one_stream 3

one_stream-IsSession : IsSession one_stream
unfolding create
one_stream-IsSession =
    (with_stream_lem (create none) 1 (create-IsSession none) (omega arith) (omega arith)
      (omega arith)).0

two_streams-IsSession : IsSession two_streams
unfolding create
two_streams-IsSession =
    (with_stream_lem one_stream 3 one_stream-IsSession (omega arith) (omega arith) (omega arith)).0

two_open : 0 < length two_streams.streams
unfolding create
two_open = omega arith

first_at_zero : find_stream two_streams.streams 1 ≡ some 0
unfolding create find_stream new_stream
first_at_zero = refl

-- A handler that writes nothing.
abbrev quiet : Handler
quiet = λ stream_id event. []

-- The preface, the empty settings of the peer, and a window update of the connection by five.
abbrev greeting : List ℕ
unfolding preface_bytes
greeting =
    preface_bytes
    ++ (0 ∷ 0 ∷ 0 ∷ 4 ∷ 0 ∷ 0 ∷ 0 ∷ 0 ∷ 0 ∷ [])
    ++ (0 ∷ 0 ∷ 4 ∷ 8 ∷ 0 ∷ 0 ∷ 0 ∷ 0 ∷ 0 ∷ 0 ∷ 0 ∷ 0 ∷ 5 ∷ [])

abbrev greeted : Reading
greeted = data_handler quiet ([], create none) greeting

open_for_more : two_streams.goaway ≡ false
unfolding create
open_for_more = refl

open_stream_lem_example :
    (((5 % 2 ≡ 0) ⊎ (5 ≤ two_streams.last_stream_id))
      × (open_stream two_streams 5 ≡ err protocol_error))
    ⊎ ((5 % 2 ≡ 1)
        × (two_streams.last_stream_id < 5)
        × ((two_streams.settings.max_concurrent_streams ≤ length two_streams.streams)
            ⊎ (stream_slots ≤ length two_streams.streams))
        × (open_stream two_streams 5 ≡ err refused_stream))
    ⊎ ((5 % 2 ≡ 1)
        × (two_streams.last_stream_id < 5)
        × (length two_streams.streams < two_streams.settings.max_concurrent_streams)
        × (open_stream two_streams 5 ≡ ok (with_stream two_streams 5, length two_streams.streams))
        × IsSession (with_stream two_streams 5)
        × (find_stream (with_stream two_streams 5).streams 5 ≡ some (length two_streams.streams))
        × ((x : ℕ)
            → lookup (with_stream two_streams 5).streams x
              ≡ (if 5 == x then some (new_stream two_streams 5) else lookup two_streams.streams x)))
open_stream_lem_example = open_stream_lem two_streams 5 two_streams-IsSession open_for_more

lookup-closed_table_example : lookup (closed_table two_streams.streams 0) 3 ≡ (
    if (at two_streams.streams 0).stream_id == 3
    then none
    else Option.map
        (rehung (at two_streams.streams 0).stream_id (at two_streams.streams 0).priority.dependency)
        (lookup two_streams.streams 3))
lookup-closed_table_example =
    lookup-closed_table two_streams.streams 0 3 two_streams-IsSession.table.unique two_open

-- The first stream holds three bytes back.
abbrev holding : Session
holding = record two_streams {
  streams = modify two_streams.streams 0 (λ st. record st {
    pending = (record { bytes = 7 ∷ 8 ∷ 9 ∷ []; offset = 0; last = true; callback = 0 } ∷ []);
  });
}

holding_open : 0 < length holding.streams
unfolding create
holding_open = omega arith

holding_table : IsUnique holding.streams × IsTree holding.streams
unfolding create new_stream IsUnique lookup links
holding_table = (
  two_streams-IsSession.table.unique,
  links-IsTree two_streams.streams holding.streams refl two_streams-IsSession.table.tree,
)

holding_Ready : Ready (at holding.streams 0)
unfolding create new_stream create_settings
holding_Ready = (omega arith, omega arith)

flush_lem_example : Flushed holding.remote.max_frame (sender holding 0) (sender (flush holding 0) 0)
flush_lem_example = flush_lem holding 0 holding_open two_streams-IsSession.remote

-- The first stream comes to depend on the third one alone.
abbrev below_third : Priority
below_third = record { dependency = 3; weight = 16; exclusive = true }

prioritise_stream_lem_example :
    (below_third.dependency ≡ 1 × prioritise_stream two_streams 0 below_third ≡ err protocol_error)
    ⊎ ((s' : Session) × (prioritise_stream two_streams 0 below_third ≡ ok s')
        × IsSession s'
        × ((x : ℕ) → find_stream s'.streams x ≡ find_stream two_streams.streams x))
prioritise_stream_lem_example =
    prioritise_stream_lem two_streams 1 0 below_third two_streams-IsSession first_at_zero

abbrev increment : ℕ
increment = 100

abbrev first : ℕ
first = 1

update_window_lem_example :
    (increment ≡ 0 → update_window two_streams first increment ≡ err protocol_error)
    × (increment ≢ 0
        → first ≡ 0
        → (pos (suc max_window_size) ≤ℤ two_streams.send_window +ℤ pos increment
            × update_window two_streams first increment ≡ err flow_control_error)
          ⊎ (IsSession
                (record two_streams { send_window = two_streams.send_window +ℤ pos increment })
              × update_window two_streams first increment
                ≡ ok (record two_streams {
                  send_window = two_streams.send_window +ℤ pos increment;
                })))
    × (increment ≢ 0
        → first ≢ 0
        → find_stream two_streams.streams first ≡ none
        → update_window two_streams first increment ≡ ok two_streams)
    × ((slot : ℕ)
        → increment ≢ 0
        → first ≢ 0
        → find_stream two_streams.streams first ≡ some slot
        → (pos (suc max_window_size) ≤ℤ (at two_streams.streams slot).send_window +ℤ pos increment
            × update_window two_streams first increment ≡ err flow_control_error)
          ⊎ (IsSession (record two_streams {
            streams = modify two_streams.streams slot (widen (pos increment));
          })
              × update_window two_streams first increment
                ≡ ok (record two_streams {
                  streams = modify two_streams.streams slot (widen (pos increment));
                })))
update_window_lem_example = update_window_lem two_streams first increment two_streams-IsSession

-- An initial window of 1000.
abbrev smaller : List ℕ
smaller = 0 ∷ 4 ∷ 0 ∷ 0 ∷ 3 ∷ 232 ∷ []

apply_settings_lem_example :
    IsSession (apply_settings two_streams smaller).1
    × ((apply_settings two_streams smaller).0 ≡ none
        → Pointwise
            (Shifted (
              pos (apply_settings two_streams smaller).1.remote.initial_window_size
              -ℤ pos two_streams.remote.initial_window_size))
            two_streams.streams
            (apply_settings two_streams smaller).1.streams)
apply_settings_lem_example = apply_settings_lem two_streams smaller two_streams-IsSession

-- Two windows are open, and the second stream, which the first one depends on, holds nothing back.
choose_lem_example :
    (chosen : ℕ) × (choose holding.streams ≡ some chosen)
    × (chosen < length holding.streams)
    × Ready (at holding.streams chosen)
    × IsFree holding.streams (at holding.streams chosen)
    × ((other : ℕ)
        → other < length holding.streams
        → Ready (at holding.streams other)
        → IsFree holding.streams (at holding.streams other)
        → (at holding.streams other).priority.weight ≤ (at holding.streams chosen).priority.weight)
choose_lem_example =
    choose_lem holding.streams 0 holding_table.0 holding_table.1 holding_open holding_Ready

-- The bytes of the settings of the peer, and one byte of the header that follows.
abbrev cut : List ℕ
cut = 0 ∷ 0 ∷ 0 ∷ 4 ∷ 0 ∷ 0 ∷ 0 ∷ 0 ∷ 0 ∷ 0 ∷ []

read_all_lem_example :
    Ended (read_all quiet cut two_streams)
    × (read_frames quiet (3 + length cut) cut two_streams ≡ read_all quiet cut two_streams)
read_all_lem_example = read_all_lem quiet 3 cut two_streams

-- A HEADERS frame of three bytes, for a peer that accepts two.
abbrev wide : List ℕ
wide = 0 ∷ 0 ∷ 3 ∷ 1 ∷ 4 ∷ 0 ∷ 0 ∷ 0 ∷ 1 ∷ 130 ∷ 132 ∷ 134 ∷ []

abbrev accepted : ℕ
accepted = 2

split_lem_example :
    (length wide ≤ frame_header_size + accepted × split accepted wide ≡ wide)
    ⊎ ((flags : ℕ) × (first rest written : List ℕ) × (bit_and flags 0x04 ≡ 0)
        × (bit_or flags 0x04 ≡ bit_or (get_or wide 4 0) 0x04)
        × (length first ≡ accepted)
        × (first ++ rest ≡ drop frame_header_size wide)
        × (0 < length rest)
        × (split accepted wide
            ≡ piece (get_or wide 3 0) flags (bit_and (decode_number wide 5) max_stream_id) first
              ++ written)
        × Cut accepted (bit_and (decode_number wide 5) max_stream_id) rest written)
split_lem_example = split_lem accepted wide (omega arith) (omega arith) (omega arith)
