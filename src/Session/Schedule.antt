-- ===== src/Session/Schedule.antt =====
-- The order in which the streams write: `_blocked_http2_connection` and `_schedule_http2_connection`.
use viriatum.Base.{ℕ, zero, suc, pos, ltb_ℤ, List, [], ◌∷◌, length, ltb, ◌==◌, ◌&&◌, not}
use viriatum.Base.{Option, none, some, Bool, true, false, if◌then◌else◌}
use viriatum.Session.{Stream, Session, at, stream_slots}
use viriatum.Session.Streams.{find_stream}
use viriatum.Session.Sending.{flush}

-- A stream with payload of its own and a window that lets it through.
abbrev pub able : Stream → Bool
able stream = not (length stream.pending == 0) && ltb_ℤ (pos 0) stream.send_window

-- The walk up from the dependency of a stream.
unfoldable pub blocked_loop : ℕ → List Stream → ℕ → Bool
blocked_loop zero streams stream_id = false
blocked_loop (suc rounds) streams stream_id =
    if stream_id == 0 then false else elim (find_stream streams stream_id) [
      | none ↦ false
      | some slot ↦
          let above = blocked_loop rounds streams (at streams slot).priority.dependency in
          if able (at streams slot) then true else above
    ]

unfoldable pub blocked : List Stream → Stream → Bool
blocked streams stream = blocked_loop (length streams) streams stream.priority.dependency

-- Nothing has been chosen yet, or the stream is heavier than what has been.
unfoldable pub heavier : List Stream → Stream → Option ℕ → Bool
heavier streams stream none = true
heavier streams stream (some chosen) =
    ltb (at streams chosen).priority.weight stream.priority.weight

-- The loop over the slots from `index` on, `rest` being their streams.
unfoldable pub choose_loop : List Stream → List Stream → ℕ → Option ℕ → Option ℕ
choose_loop streams [] index chosen = chosen
choose_loop streams (stream ∷ rest) index chosen = choose_loop streams rest (suc index) (
    if able stream && not (blocked streams stream) && heavier streams stream chosen
    then some index
    else chosen)

unfoldable pub choose : List Stream → Option ℕ
choose streams = choose_loop streams streams 0 none

-- One round, with the rounds that follow it.
unfoldable pub schedule_round : (Session → Session) → Session → Option ℕ → Session
schedule_round next s none = s
schedule_round next s (some slot) =
    let flushed = flush s slot in
    if length (at flushed.streams slot).pending == length (at s.streams slot).pending
    then flushed
    else next flushed

-- The rounds; one that takes no fragment off the chosen stream is the last.
unfoldable pub schedule_loop : ℕ → Session → Session
schedule_loop zero s = s
schedule_loop (suc rounds) s = schedule_round (schedule_loop rounds) s (choose s.streams)

unfoldable pub schedule : Session → Session
schedule s = schedule_loop stream_slots s
