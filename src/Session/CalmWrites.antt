-- ===== src/Session/CalmWrites.antt =====
-- The writing of a response is calm: `_flush_http2_connection`, `_schedule_http2_connection`, and the
-- writes of a handler.
use viriatum.Base.{ℕ, zero, suc, ℤ, pos, ◌-ℤ◌, ◌≤ℤ◌, List, [], ◌∷◌, ◌++◌, length, set}
use viriatum.Base.{Option, none, some, Bool, true, false, Bool-cases}
use viriatum.Base.{refl, ◌∙◌, arith, integers, ◌==◌, ◌&&◌, ltb_ℤ, inl, inr, ◌-◌}
use viriatum.Session.{Stream, Session, Pending, Output, Event, at, stream_slots}
use viriatum.Session.Sending.{
  Sender, allowed, window, held, sender, send_fragment, send_header, send_payload, flush_round,
  flush_loop, flush, finish,
}
use viriatum.Session.Schedule.{choose, schedule_round, schedule_loop, schedule}
use viriatum.Session.Writing.{
  current_slot, write_chunk, write_end, write_flush, queue_chunk, finish_at, queue_buffer, leave,
  hold_back, queue,
}
use viriatum.Session.Handlers.{
  Operation, chunk, end_headers, flush_buffer, dispatch, run, run_all, Handler, hear,
}
use viriatum.Session.Calm.{
  Alike, Calm, Alike-refl, Calm-refl, Calm-trans, shape-set, aside, with_streams, change-Calm,
}

-- The loop of a flush narrows the two windows.
abbrev Narrows : Sender → Sender → Type 0
Narrows s s' = Alike s.stream s'.stream × (s'.send_window ≤ℤ s.send_window)

narrower_by : (w : ℤ) (n : ℕ) → w -ℤ pos n ≤ℤ w
narrower_by w n = omega integers

finish-Alike : (ends : Bool) (st st' : Stream) → Alike st st' → Alike st (finish ends st')
finish-Alike true st st' h = h
finish-Alike false st st' h = h

send_fragment-Narrows :
    (size : ℕ) (p : Pending) (rest : List Pending) (s : Sender)
    → Narrows s (send_fragment size p rest s)
unfolding send_fragment send_header send_payload
send_fragment-Narrows size p rest s =
    let complete = size == length p.bytes - p.offset in
    let ended =
      finish-Alike (p.last && complete) s.stream
        (record s.stream { send_window = s.stream.send_window -ℤ pos size })
        (refl, refl, narrower_by s.stream.send_window size) in
    let spent = narrower_by s.send_window size in
    elim (Bool-cases complete) [
      | inl whole ↦ rw whole (rw whole at ended, spent)
      | inr part ↦ rw part (rw part at ended, spent)
    ]

Narrows-trans : (a b c : Sender) → Narrows a b → Narrows b c → Narrows a c
Narrows-trans a b c (h, k) (h', k') =
    ((h'.0 ∙ h.0, h'.1 ∙ h.1, omega (arith, h.2, h'.2)), omega (arith, k, k'))

flush_round-Narrows :
    (max_frame : ℕ) (next : Sender → Sender) (ps : List Pending) (s : Sender)
    → ((t : Sender) → Narrows t (next t))
    → Narrows s (flush_round max_frame next ps s)
unfolding flush_round
flush_round-Narrows max_frame next [] s rest = (Alike-refl s.stream, omega arith)
flush_round-Narrows max_frame next (p ∷ ps) s rest =
    let size = allowed (length p.bytes - p.offset) (window s) max_frame in
    let sent = send_fragment size p ps s in
    elim (Bool-cases (ltb_ℤ (pos 0) (window s))) [
      | inl wide ↦
          rw wide (Narrows-trans s sent (next sent) (send_fragment-Narrows size p ps s) (rest sent))
      | inr closed ↦ rw closed (Alike-refl s.stream, omega arith)
    ]

flush_loop-Narrows : (fuel max_frame : ℕ) (s : Sender) → Narrows s (flush_loop fuel max_frame s)
unfolding flush_loop
flush_loop-Narrows zero max_frame s = (Alike-refl s.stream, omega arith)
flush_loop-Narrows (suc fuel) max_frame s =
    flush_round-Narrows max_frame (flush_loop fuel max_frame) s.stream.pending s
      (flush_loop-Narrows fuel max_frame)

flush-Calm : (s : Session) (slot : ℕ) → Calm s (flush s slot)
unfolding flush
flush-Calm s slot =
    let sent = flush_loop (held (at s.streams slot).pending) s.remote.max_frame (sender s slot) in
    let (alike, spent) =
      flush_loop-Narrows (held (at s.streams slot).pending) s.remote.max_frame (sender s slot) in
    Calm-trans
      (with_streams s (set s.streams slot sent.stream) sent.send_window
        (shape-set s.streams slot sent.stream alike) spent)
      (aside _ sent.output s.events s.current s.http_handler)

schedule_round-Calm :
    (next : Session → Session) (s : Session) (chosen : Option ℕ)
    → ((t : Session) → Calm t (next t))
    → Calm s (schedule_round next s chosen)
unfolding schedule_round
schedule_round-Calm next s none rest = Calm-refl s
schedule_round-Calm next s (some slot) rest =
    let flushed = flush s slot in
    let moved = Calm-trans (flush-Calm s slot) (rest flushed) in
    elim (Bool-cases
      (length (at flushed.streams slot).pending == length (at s.streams slot).pending)) [
        | inl stuck ↦ rw stuck (flush-Calm s slot)
        | inr taken ↦ rw taken moved
      ]

schedule_loop-Calm : (rounds : ℕ) (s : Session) → Calm s (schedule_loop rounds s)
unfolding schedule_loop
schedule_loop-Calm zero s = Calm-refl s
schedule_loop-Calm (suc rounds) s =
    schedule_round-Calm (schedule_loop rounds) s (choose s.streams) (schedule_loop-Calm rounds)

pub schedule-Calm : (s : Session) → Calm s (schedule s)
unfolding schedule
schedule-Calm s = schedule_loop-Calm stream_slots s

pub queue-Calm : (s : Session) (output : Output) → Calm s (queue output s)
queue-Calm s output = aside s (s.output ++ (output ∷ [])) s.events s.current s.http_handler

queue_chunk-Calm : (s : Session) (p : Pending) (slot : Option ℕ) → Calm s (queue_chunk s p slot)
unfolding queue_chunk
queue_chunk-Calm s p none = Calm-refl s
queue_chunk-Calm s p (some slot) =
    Calm-trans (change-Calm slot (hold_back p) s (λ st. (refl, refl, omega arith)))
      (schedule-Calm _)

finish_at-Calm : (s : Session) (last : Bool) (slot : Option ℕ) → Calm s (finish_at s last slot)
unfolding finish_at
finish_at-Calm s last none = Calm-refl s
finish_at-Calm s last (some slot) =
    change-Calm slot (finish last) s (λ st. finish-Alike last st st (Alike-refl st))

queue_buffer-Calm :
    (s : Session) (bytes : List ℕ) (callback : ℕ) (slot : Option ℕ)
    → Calm s (queue_buffer s bytes callback slot)
unfolding queue_buffer
queue_buffer-Calm s bytes callback none = Calm-refl s
queue_buffer-Calm s bytes callback (some slot) =
    Calm-trans (change-Calm slot leave s (λ st. (refl, refl, omega arith))) (queue-Calm _ _)

run-Calm : (operation : Operation) (s : Session) → Calm s (run operation s)
unfolding run write_chunk write_end write_flush
run-Calm (chunk bytes last callback) s = queue_chunk-Calm s _ (current_slot s s.current)
run-Calm (end_headers bytes offset last) s = finish_at-Calm s last (current_slot s s.current)
run-Calm (flush_buffer bytes callback) s = queue_buffer-Calm s _ callback (current_slot s s.current)
run-Calm (dispatch handler) s = aside s s.output s.events s.current handler

pub run_all-Calm : (operations : List Operation) (s : Session) → Calm s (run_all operations s)
unfolding run_all
run_all-Calm [] s = Calm-refl s
run_all-Calm (operation ∷ operations) s =
    Calm-trans (run-Calm operation s) (run_all-Calm operations (run operation s))

pub hear-Calm :
    (handler : Handler) (stream_id : ℕ) (event : Event) (s : Session)
    → Calm s (hear handler stream_id event s)
hear-Calm handler stream_id event s =
    Calm-trans (aside s s.output (s.events ++ ((stream_id, event) ∷ [])) s.current s.http_handler)
      (run_all-Calm (handler stream_id event) _)
