-- ===== src/Session/Preserving.antt =====
-- `handle_frame_http2_connection` keeps the invariant of a session.
use viriatum.Base.{ℕ, pos, ◌-ℤ◌, ltb_ℤ}
use viriatum.Base.{◌==◌, ◌&&◌, not, if-keeps}
use viriatum.Base.{Option, none, some, true, Result, ok, err}
use viriatum.Base.{◌≡◌, refl, arith}
use viriatum.Http2.{Http2Error, Frame, Priority, flag_ack}
use viriatum.Http2.Padding.{decode_priority}
use viriatum.Http2.Verify.{verify_frame}
use viriatum.Session.{Session}
use viriatum.Session.Flow.{apply_settings}
use viriatum.Session.Dependencies.{found}
use viriatum.Session.Writing.{write_ack}
use viriatum.Session.Handlers.{Handler}
use viriatum.Session.Frames.{has, payload}
use viriatum.Session.Receiving.{
  place_at, place_on, handle_priority, handle_reset, handle_settings, handle_ping, updated,
  handle_update, data_on, dispatch_frame, slot_of, unless_refused, handle_on, charge, interrupts,
  handle_coherent, handle_frame, is_flow_control,
}
use viriatum.Session.CalmWrites.{schedule-Calm}
use viriatum.Session.Calm.{window-Calm}
use viriatum.Session.Invariant.{IsSession, Calm-IsSession}
use viriatum.Session.Steps.{close_stream-IsSession}
use viriatum.Session.Windows.{update_window-IsSession}
use viriatum.Session.Renegotiation.{apply_settings_lem}
use viriatum.Session.Keeping.{
  Kept, keep, calm-keep, then_do-Kept, write_value-Calm, write_ack-Calm, write_ping-Calm,
  handle_data-Kept,
}
use viriatum.Session.HeadersKept.{
  attempt-prioritise, IsAt, handle_headers-Kept, handle_continuation-Kept,
}

module _ (handler : Handler) where
  place_on-Kept :
      (s : Session) (f : Frame) (slot : Option ℕ) (r : Result Http2Error Priority)
      → IsSession s
      → IsAt s f slot
      → Kept (place_on handler s f slot r)
  unfolding place_on place_at
  place_on-Kept s f slot (err e) i there = keep i
  place_on-Kept s f none (ok priority) i there =
      if-keeps Kept (priority.dependency == f.stream_id) (keep i) (keep i)
  place_on-Kept s f (some slot) (ok priority) i there =
      if-keeps Kept (priority.dependency == f.stream_id) (keep i)
        (attempt-prioritise s f.stream_id slot priority i (there slot refl))

  handle_priority-Kept :
      (s : Session) (f : Frame) (slot : Option ℕ)
      → IsSession s
      → IsAt s f slot
      → Kept (handle_priority handler s f slot)
  unfolding handle_priority
  handle_priority-Kept s f slot i there =
      place_on-Kept s f slot (decode_priority (payload f)) i there

  handle_reset-Kept :
      (s : Session) (f : Frame) (slot : Option ℕ)
      → IsSession s
      → IsAt s f slot
      → Kept (handle_reset handler s slot)
  unfolding handle_reset
  handle_reset-Kept s f none i there = keep i
  handle_reset-Kept s f (some slot) i there =
      keep (
        close_stream-IsSession s slot i (found s.streams f.stream_id slot (there slot refl)).inside)

  handle_settings-Kept :
      (s : Session) (f : Frame) → IsSession s → Kept (handle_settings handler s f)
  unfolding handle_settings
  handle_settings-Kept s f i = if-keeps Kept (has f flag_ack) (keep i) (
      then_do-Kept (apply_settings s (payload f)) _
        (record { kept = (apply_settings_lem s (payload f) i).0 })
        (λ applied j.
          then_do-Kept (write_ack applied) _
            (record { kept = Calm-IsSession (write_ack-Calm applied) j })
            (λ told k. calm-keep k (schedule-Calm told))))

  handle_ping-Kept : (s : Session) (f : Frame) → IsSession s → Kept (handle_ping handler s f)
  unfolding handle_ping
  handle_ping-Kept s f i =
      if-keeps Kept (has f flag_ack) (keep i)
        (record { kept = Calm-IsSession (write_ping-Calm s (payload f)) i })

  updated-Kept :
      (s : Session) (f : Frame) (r : Result Http2Error Session)
      → IsSession s
      → ((s' : Session) → r ≡ ok s' → IsSession s')
      → Kept (updated handler s f r)
  unfolding updated
  updated-Kept s f (ok s') i taken = calm-keep (taken s' refl) (schedule-Calm s')
  updated-Kept s f (err e) i taken =
      if-keeps Kept (is_flow_control e && not (f.stream_id == 0))
        (calm-keep i (write_value-Calm s 0x03 f.stream_id 3)) (keep i)

  handle_update-Kept : (s : Session) (f : Frame) → IsSession s → Kept (handle_update handler s f)
  unfolding handle_update
  handle_update-Kept s f i =
      updated-Kept s f _ i (λ s' e. update_window-IsSession s s' f.stream_id _ i e)

  data_on-Kept :
      (s : Session) (f : Frame) (slot : Option ℕ) → IsSession s → Kept (data_on handler s f slot)
  unfolding data_on
  data_on-Kept s f none i = keep i
  data_on-Kept s f (some slot) i = handle_data-Kept handler s f slot i

  dispatch_frame-Kept :
      (s : Session) (f : Frame) (slot : Option ℕ)
      → IsSession s
      → IsAt s f slot
      → Kept (dispatch_frame handler s f slot)
  unfolding dispatch_frame
  dispatch_frame-Kept s f slot i there = if-keeps Kept (f.type == 0x00) (data_on-Kept s f slot i) (
      if-keeps Kept (f.type == 0x01) (handle_headers-Kept handler s f slot i there) (
        if-keeps Kept (f.type == 0x09) (handle_continuation-Kept handler s f i) (
          if-keeps Kept (f.type == 0x02) (handle_priority-Kept s f slot i there) (
            if-keeps Kept (f.type == 0x03) (handle_reset-Kept s f slot i there) (
              if-keeps Kept (f.type == 0x04) (handle_settings-Kept s f i) (
                if-keeps Kept (f.type == 0x06) (handle_ping-Kept s f i) (
                  if-keeps Kept (f.type == 0x07) (keep (going s i)) (
                    if-keeps Kept (f.type == 0x08) (handle_update-Kept s f i)
                      (if-keeps Kept (f.type == 0x05) (keep i) (keep i))))))))))
    where
      going : (t : Session) → IsSession t → IsSession (record t { goaway = true })
      going t j = record {
        table = j.table;
        window = j.window;
        remote = j.remote;
        assembled = j.assembled;
      }

  slot_of-IsAt : (s : Session) (f : Frame) → IsAt s f (slot_of handler s f)
  slot_of-IsAt s f k e = ground arith

  unless_refused-Kept :
      (s : Session) (f : Frame) (error : Option Http2Error)
      → IsSession s
      → Kept (unless_refused handler s f error)
  unfolding unless_refused
  unless_refused-Kept s f none i =
      dispatch_frame-Kept s f (slot_of handler s f) i (slot_of-IsAt s f)
  unless_refused-Kept s f (some e) i = keep i

  handle_coherent-Kept :
      (s : Session) (f : Frame) (r : Result Http2Error (Unit {0}))
      → IsSession s
      → Kept (handle_coherent handler s f r)
  unfolding handle_coherent charge handle_on
  handle_coherent-Kept s f (err e) i = keep i
  handle_coherent-Kept s f (ok u) i =
      let charged = s.receive_window -ℤ pos f.size in
      let c = window-Calm s charged in
      if-keeps Kept (interrupts handler s f) (keep i) (
        then_do-Kept _ _
          (if-keeps Kept (f.type == 0x00)
            (if-keeps Kept (ltb_ℤ charged (pos 0)) (calm-keep i c) (calm-keep i c)) (keep i))
          (λ t j. unless_refused-Kept t f _ j))

  -- Any frame, whether it is taken or refused, and whatever the handlers do about it, keeps the
  -- invariant of the session.
  pub handle_frame-IsSession :
      (s : Session) (f : Frame) → IsSession s → IsSession (handle_frame handler s f).1
  unfolding handle_frame
  handle_frame-IsSession s f i = (handle_coherent-Kept s f (verify_frame f s.settings) i).kept
