-- ===== src/Session/Frames.antt =====
-- `handle_frame_http2_connection` and what it calls for a frame: the assembling of a block of headers
-- and the states of the streams. An error comes with the session that it leaves.
use viriatum.Base.{ℕ, ◌+◌, ◌%◌, ◌^◌, pos, ◌+ℤ◌, ◌-ℤ◌, ltb_ℤ, List, [], ◌++◌}
use viriatum.Base.{length, take, ltb, ◌==◌, ◌&&◌, ◌||◌, not, bit_and}
use viriatum.Base.{if◌then◌else◌, Result, ok, err, Option, none, some, Bool, true}
use viriatum.Hpack.{Header}
use viriatum.Hpack.Block.{decode_block, Decoded}
use viriatum.Http2.{
  Http2Error, protocol_error, flow_control_error, enhance_your_calm, stream_closed,
  compression_error, Frame, flag_end_stream,
}
use viriatum.Http2.Padding.{strip_padding}
use viriatum.Session.{
  Stream, Session, StreamState, idle, reserved_local, reserved_remote, half_closed_remote, closed,
  body, message_complete, at, max_block,
}
use viriatum.Session.Streams.{activate}
use viriatum.Session.Writing.{write_value}
use viriatum.Session.Handlers.{Handler, hear}
use viriatum.Session.Blocks.{change}

-- An error or none, and the session.
abbrev pub Outcome : Type 0
Outcome = Option Http2Error × Session

abbrev pub then_do : Outcome → (Session → Outcome) → Outcome
then_do (some e, s) next = (some e, s)
then_do (none, s) next = next s

-- A call that changes the session only where it succeeds.
abbrev pub attempt : Session → Result Http2Error Session → Outcome
attempt s (err e) = (some e, s)
attempt s (ok s') = (none, s')

-- `_gather_http2_connection`
unfoldable pub gather : Session → List ℕ → Outcome
gather s bytes =
    if ltb max_block (length s.block + length bytes)
    then (some enhance_your_calm, s)
    else (none, record s { block = s.block ++ bytes })

-- `_reset_block_http2_connection`
abbrev pub reset_block : Session → Session
reset_block s = record s { block = []; continuation = 0; continuation_flags = 0; refused = 0 }

-- `_state_http2_connection`, for the slot of the stream.
unfoldable pub state_of : Session → ℕ → Option ℕ → StreamState
state_of s stream_id (some slot) = (at s.streams slot).state
state_of s stream_id none =
    let last = if stream_id % 2 == 0 then s.push_stream_id else s.last_stream_id in
    if ltb last stream_id then idle else closed

-- The frames that a stream takes in the state it is in, section 5.1 of RFC 9113.
unfoldable pub accepts : StreamState → ℕ → Option Http2Error
accepts idle type = if type == 0x01 then none else some protocol_error
accepts reserved_local type = if (type == 0x03) || (type == 0x08) then none else some protocol_error
accepts reserved_remote type =
    if (type == 0x01) || (type == 0x03) then none else some protocol_error
accepts half_closed_remote type =
    if (type == 0x03) || (type == 0x08) then none else some stream_closed
accepts closed type =
    if (type == 0x01) || (type == 0x03) || (type == 0x08) then none else some stream_closed
accepts state type = none

-- `_verify_stream_http2_connection`
unfoldable pub verify_stream : Session → Frame → Option ℕ → Option Http2Error
verify_stream s f slot =
    if (f.type == 0x00) || (f.type == 0x01) || (f.type == 0x03) || (f.type == 0x08)
    then accepts (state_of s f.stream_id slot) f.type
    else if (f.type == 0x09) && not (s.continuation == f.stream_id)
    then accepts (state_of s f.stream_id slot) f.type
    else none

-- The payload of a frame that is handled is there, and its size is that of the frame.
unfoldable pub payload : Frame → List ℕ
payload f = elim f.payload [ none ↦ [] | some bytes ↦ take f.size bytes ]

unfoldable pub after_strip :
    Session → (List ℕ → Outcome) → Result Http2Error (Option (List ℕ) × ℕ) → Outcome
after_strip s next (err e) = (some e, s)
after_strip s next (ok (none, size)) = next []
after_strip s next (ok (some bytes, size)) = next (take size bytes)

-- The payload without its padding, where the padding is right.
abbrev pub stripped : Session → Frame → (List ℕ → Outcome) → Outcome
stripped s f next = after_strip s next (strip_padding f)

abbrev pub has : Frame → ℕ → Bool
has f flag = not (bit_and f.flags flag == 0)

-- The block is decoded only so that the table of the connection consumes it.
abbrev pub discard : Unit {0} → Header → ℕ × Unit {0}
discard p h = (0, p)

unfoldable pub after_discard : Session → Decoded (Unit {0}) → Outcome
after_discard s (none, table, p) = (none, reset_block (record s { decoder = table }))
after_discard s (some e, table, p) =
    (some compression_error, reset_block (record s { decoder = table }))

unfoldable pub discard_block : Session → Outcome
discard_block s = after_discard s (decode_block discard s.decoder s.block tt)

-- The rest of a block follows in other frames.
abbrev pub expect : Session → Frame → Session
expect s f = record s { continuation = f.stream_id; continuation_flags = f.flags }

module _ (handler : Handler) where
  -- HTTP2_DATA
  unfoldable pub end_data : ℕ → Session → Outcome
  end_data slot s =
      let s' = change slot (λ st. record st { end_stream = true; state = half_closed_remote }) s in
      let stream = at s'.streams slot in
      if stream.announced && not (stream.received == stream.content_length)
      then (some protocol_error, s')
      else (none, hear handler stream.stream_id message_complete s')

  abbrev pub receive : ℕ → Stream → Stream
  receive size st = record st { received = (st.received + size) % 2 ^ 64 }

  -- The windows of the connection and of the stream are widened by what has been consumed.
  unfoldable pub replenish : ℕ → Frame → Session → Session
  replenish slot f s =
      let told = (write_value s 0x08 0 f.size).1 in
      let widened = record told { receive_window = told.receive_window +ℤ pos f.size } in
      let told' = (write_value widened 0x08 f.stream_id f.size).1 in
      if f.size == 0
      then s
      else change slot (λ st. record st { receive_window = st.receive_window +ℤ pos f.size }) told'

  unfoldable pub hand_body : ℕ → List ℕ → Session → Session
  hand_body slot bytes s =
      if length bytes == 0 then s else hear handler (at s.streams slot).stream_id (body bytes) s

  unfoldable pub handle_data : Session → Frame → ℕ → Outcome
  handle_data s f slot =
      let s' =
        change slot (λ st. record st { receive_window = st.receive_window -ℤ pos f.size }) s in
      if ltb_ℤ (at s'.streams slot).receive_window (pos 0)
      then (some flow_control_error, s')
      else stripped s' f (λ bytes.
        let received = activate (change slot (receive (length bytes)) s') slot in
        let replenished = replenish slot f (hand_body slot bytes received) in
        if has f flag_end_stream then end_data slot replenished else (none, replenished))
