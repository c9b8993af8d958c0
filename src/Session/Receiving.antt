-- ===== src/Session/Receiving.antt =====
-- `handle_frame_http2_connection`: the blocks of headers, the frames of the connection, and the switch
-- on the type of a frame.
use viriatum.Base.{ℕ, pos, ◌-ℤ◌, ltb_ℤ, List, length, drop, take, ltb, ◌==◌, ◌&&◌}
use viriatum.Base.{◌||◌, not, bit_and, if◌then◌else◌, Result, ok, err, Option, none, some, Bool}
use viriatum.Base.{true, false}
use viriatum.Http2.{
  Http2Error, protocol_error, flow_control_error, frame_size_error, refused_stream, Frame, Priority,
  flag_ack, flag_end_stream, flag_end_headers, flag_priority, priority_size, max_window_size,
}
use viriatum.Http2.Number.{decode_number}
use viriatum.Http2.Padding.{decode_priority}
use viriatum.Http2.Verify.{verify_frame}
use viriatum.Session.{Stream, Session, half_closed_remote, at}
use viriatum.Session.Streams.{find_stream, open_stream, close_stream}
use viriatum.Session.Tree.{prioritise_stream}
use viriatum.Session.Flow.{update_window, apply_settings}
use viriatum.Session.Schedule.{schedule}
use viriatum.Session.Writing.{write_value, write_ack, write_ping}
use viriatum.Session.Handlers.{Handler}
use viriatum.Session.Blocks.{change, with_request, handle_block}
use viriatum.Session.Frames.{
  Outcome, then_do, attempt, gather, reset_block, verify_stream, payload, stripped, has,
  discard_block, expect, handle_data,
}

-- The block behind the priority information, where the flag announces it.
unfoldable pub behind_priority : Session → Frame → List ℕ → (List ℕ → Outcome) → Outcome
behind_priority s f bytes next =
    if has f flag_priority
    then if ltb (length bytes) priority_size
      then (some frame_size_error, s)
      else next (drop priority_size bytes)
    else next bytes

-- The headers of a stream that is refused: the block still travels through the decoder.
unfoldable pub refuse : Session → Frame → Outcome
refuse s f =
    let told = (write_value s 0x03 f.stream_id 7).1 in
    let s' = record told { refused = f.stream_id } in
    stripped s' f (λ bytes. behind_priority s' f bytes (λ block.
      then_do (gather s' block)
        (λ g. if has f flag_end_headers then discard_block g else (none, expect g f))))

-- The priority of the headers, with the session it leaves and the block behind it.
unfoldable pub with_priority :
    Session → ℕ → List ℕ → (Session → List ℕ → Outcome) → Result Http2Error Priority → Outcome
with_priority s slot bytes next (err e) = (some e, s)
with_priority s slot bytes next (ok priority) =
    then_do (attempt s (prioritise_stream s slot priority)) (λ p. next p (drop priority_size bytes))

unfoldable pub placed_block : Session → ℕ → Frame → List ℕ → (Session → List ℕ → Outcome) → Outcome
placed_block s slot f bytes next =
    if has f flag_priority
    then if ltb (length bytes) priority_size
      then (some frame_size_error, s)
      else with_priority s slot bytes next (decode_priority (take priority_size bytes))
    else next s bytes

unfoldable pub is_flow_control : Http2Error → Bool
is_flow_control flow_control_error = true
is_flow_control e = false

abbrev pub end_request : Stream → Stream
end_request st = record st { end_stream = true; state = half_closed_remote }

module _ (handler : Handler) where
  -- The block that has been assembled is handled and its buffer released.
  unfoldable pub finish_block : Session → ℕ → Outcome
  finish_block s slot =
      let (error, s') = handle_block handler s slot s.block in (error, reset_block s')

  -- The fragment of the block that the frame carries, of a stream that ends with it or not.
  unfoldable pub gather_headers : Frame → ℕ → Session → List ℕ → Outcome
  gather_headers f slot p block =
      let ended = if has f flag_end_stream then change slot end_request p else p in
      then_do (gather ended block)
        (λ g. if has f flag_end_headers then finish_block g slot else (none, expect g f))

  -- The headers of a stream that is in the table.
  unfoldable pub accept_headers : Session → Frame → ℕ → Outcome
  accept_headers s f slot =
      stripped s f (λ bytes. placed_block s slot f bytes (gather_headers f slot))

  -- The opening of a stream, or its refusal.
  unfoldable pub opened_headers : Session → Frame → Result Http2Error (Session × ℕ) → Outcome
  opened_headers s f (ok (s', slot)) = accept_headers s' f slot
  opened_headers s f (err refused_stream) = refuse s f
  opened_headers s f (err e) = (some e, s)

  -- HTTP2_HEADERS: a second block on a stream is a trailer section, which has to close it.
  unfoldable pub handle_headers : Session → Frame → Option ℕ → Outcome
  handle_headers s f none = opened_headers s f (open_stream s f.stream_id)
  handle_headers s f (some slot) =
      let trailing = change slot (with_request (λ r. record r { trailers = true })) s in
      if (at s.streams slot).headers_complete
      then if has f flag_end_stream
        then accept_headers trailing f slot
        else (some protocol_error, s)
      else accept_headers s f slot

  unfoldable pub finish_found : Session → Option ℕ → Outcome
  finish_found s none = (some protocol_error, s)
  finish_found s (some slot) = finish_block s slot

  -- The end of a block that was continued.
  unfoldable pub end_continuation : Session → Outcome
  end_continuation s =
      if s.refused == s.continuation
      then discard_block s
      else finish_found s (find_stream s.streams s.continuation)

  -- HTTP2_CONTINUATION
  unfoldable pub handle_continuation : Session → Frame → Outcome
  handle_continuation s f =
      if s.continuation == 0
      then (some protocol_error, s)
      else then_do (gather s (payload f))
          (λ g. if has f flag_end_headers then end_continuation g else (none, g))

  unfoldable pub place_at : Session → Priority → Option ℕ → Outcome
  place_at s priority none = (none, s)
  place_at s priority (some slot) = attempt s (prioritise_stream s slot priority)

  unfoldable pub place_on : Session → Frame → Option ℕ → Result Http2Error Priority → Outcome
  place_on s f slot (err e) = (some e, s)
  place_on s f slot (ok priority) =
      if priority.dependency == f.stream_id
      then (some protocol_error, s)
      else place_at s priority slot

  -- HTTP2_PRIORITY: the priority of a stream that is not open is discarded.
  unfoldable pub handle_priority : Session → Frame → Option ℕ → Outcome
  handle_priority s f slot = place_on s f slot (decode_priority (payload f))

  -- HTTP2_RST_STREAM
  unfoldable pub handle_reset : Session → Option ℕ → Outcome
  handle_reset s none = (none, s)
  handle_reset s (some slot) = (none, close_stream s slot)

  -- HTTP2_SETTINGS
  unfoldable pub handle_settings : Session → Frame → Outcome
  handle_settings s f =
      if has f flag_ack
      then (none, s)
      else then_do (apply_settings s (payload f))
          (λ applied. then_do (write_ack applied) (λ told. (none, schedule told)))

  -- HTTP2_PING
  unfoldable pub handle_ping : Session → Frame → Outcome
  handle_ping s f = if has f flag_ack then (none, s) else write_ping s (payload f)

  -- HTTP2_WINDOW_UPDATE: an increment that overflows the window of a stream resets that stream alone.
  unfoldable pub updated : Session → Frame → Result Http2Error Session → Outcome
  updated s f (ok s') = (none, schedule s')
  updated s f (err e) =
      if is_flow_control e && not (f.stream_id == 0)
      then (none, (write_value s 0x03 f.stream_id 3).1)
      else (some e, s)

  unfoldable pub handle_update : Session → Frame → Outcome
  handle_update s f =
      let increment = bit_and (decode_number (payload f) 0) max_window_size in
      updated s f (update_window s f.stream_id increment)

  -- The data of a stream that is not in the table has been refused before.
  unfoldable pub data_on : Session → Frame → Option ℕ → Outcome
  data_on s f none = (some protocol_error, s)
  data_on s f (some slot) = handle_data handler s f slot

  -- The `switch` on the type.
  unfoldable pub dispatch_frame : Session → Frame → Option ℕ → Outcome
  dispatch_frame s f slot =
      if f.type == 0x00
      then data_on s f slot
      else if f.type == 0x01
      then handle_headers s f slot
      else if f.type == 0x09
      then handle_continuation s f
      else if f.type == 0x02
      then handle_priority s f slot
      else if f.type == 0x03
      then handle_reset s slot
      else if f.type == 0x04
      then handle_settings s f
      else if f.type == 0x06
      then handle_ping s f
      else if f.type == 0x07
      then (none, record s { goaway = true })
      else if f.type == 0x08
      then handle_update s f
      else if f.type == 0x05
      then (some protocol_error, s)
      else (none, s)

  -- The stream of the frame, or `none` for one of the connection.
  abbrev pub slot_of : Session → Frame → Option ℕ
  slot_of s f = if f.stream_id == 0 then none else find_stream s.streams f.stream_id

  unfoldable pub unless_refused : Session → Frame → Option Http2Error → Outcome
  unless_refused s f (some e) = (some e, s)
  unless_refused s f none = dispatch_frame s f (slot_of s f)

  -- The frame is verified against the state of its stream.
  unfoldable pub handle_on : Session → Frame → Outcome
  handle_on s f =
      unless_refused s f (if f.stream_id == 0 then none else verify_stream s f (slot_of s f))

  -- Data counts against the window of the connection, whatever becomes of it.
  unfoldable pub charge : Session → Frame → Outcome
  charge s f =
      let charged = record s { receive_window = s.receive_window -ℤ pos f.size } in
      if f.type == 0x00
      then if ltb_ℤ charged.receive_window (pos 0)
        then (some flow_control_error, charged)
        else (none, charged)
      else (none, s)

  -- While a block is being assembled, only the continuation of it may come.
  abbrev pub interrupts : Session → Frame → Bool
  interrupts s f =
      not (s.continuation == 0) && (not (f.type == 0x09) || not (f.stream_id == s.continuation))

  unfoldable pub handle_coherent : Session → Frame → Result Http2Error (Unit {0}) → Outcome
  handle_coherent s f (err e) = (some e, s)
  handle_coherent s f (ok _) =
      if interrupts s f
      then (some protocol_error, s)
      else then_do (charge s f) (λ charged. handle_on charged f)

  unfoldable pub handle_frame : Session → Frame → Outcome
  handle_frame s f = handle_coherent s f (verify_frame f s.settings)
