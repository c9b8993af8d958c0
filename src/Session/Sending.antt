-- ===== src/Session/Sending.antt =====
-- `_flush_http2_connection`: the payload that a stream holds back goes out as far as the windows let
-- it. The loop works on the parts of the session that it changes, which `Sender` has.
use viriatum.Base.{ℕ, zero, suc, ◌+◌, ◌-◌, ℤ, pos, pos_part, ◌-ℤ◌, ltb_ℤ}
use viriatum.Base.{List, [], ◌∷◌, ◌++◌, length, replicate, slice, set, ltb, ◌==◌, ◌&&◌}
use viriatum.Base.{Bool, true, false, if◌then◌else◌, Result, ok, err}
use viriatum.Http2.{Http2Error, flag_end_stream, frame_header_size}
use viriatum.Http2.Framing.{encode_frame}
use viriatum.Session.{
  Stream, Session, Pending, StreamState, opened, half_closed_local, Output, frame, buffer, at,
}

pub record Sender : Type 0 where
  pub stream : Stream
  pub send_window : ℤ
  pub output : List Output

-- The frame that is built in a buffer of its size, whose bytes are all written.
unfoldable pub built : List ℕ → Result Http2Error (List ℕ) → List ℕ
built fresh (ok written) = written
built fresh (err e) = fresh

unfoldable pub data_header : ℕ → Bool → ℕ → List ℕ
data_header size ends stream_id =
    let fresh = replicate frame_header_size 0 in
    built fresh (encode_frame fresh size 0x00 (if ends then flag_end_stream else 0x00) stream_id)

-- `window`, the smaller of the two.
abbrev pub window : Sender → ℤ
window s = if ltb_ℤ s.stream.send_window s.send_window then s.stream.send_window else s.send_window

-- The least of what remains, of the window, which is above zero, and of the largest frame.
unfoldable pub allowed : ℕ → ℤ → ℕ → ℕ
allowed remaining window max_frame =
    let within = if ltb (pos_part window) remaining then pos_part window else remaining in
    if ltb max_frame within then max_frame else within

-- This end has said everything it had to say.
abbrev pub close_local : StreamState → StreamState
close_local opened = half_closed_local
close_local state = state

abbrev pub finish : Bool → Stream → Stream
finish true stream = record stream { complete = true; state = close_local stream.state }
finish false stream = stream

-- The header of a frame is queued and both windows narrow.
unfoldable pub send_header : ℕ → Bool → Sender → Sender
send_header size ends s = record {
  stream = finish ends (record s.stream { send_window = s.stream.send_window -ℤ pos size });
  send_window = s.send_window -ℤ pos size;
  output = s.output ++ (frame (data_header size ends s.stream.stream_id) ∷ []);
}

-- The payload is queued, and the fragments that are still held back are set.
unfoldable pub send_payload : Output → List Pending → Sender → Sender
send_payload output pending s = record s {
  stream = record s.stream { pending = pending };
  output = s.output ++ (output ∷ []);
}

-- The two ends of a round: the rest of a fragment, as the buffer of the handler or as a copy of its
-- last part, and a part of one.
unfoldable pub send_fragment : ℕ → Pending → List Pending → Sender → Sender
send_fragment size p rest s =
    let complete = size == length p.bytes - p.offset in
    let headed = send_header size (p.last && complete) s in
    let id = s.stream.stream_id in
    let chunk = slice p.bytes p.offset size in
    if complete
    then send_payload (buffer chunk id p.callback) rest headed
    else send_payload (frame chunk) (record p { offset = p.offset + size } ∷ rest) headed

-- One round, with `next` for those that follow.
unfoldable pub flush_round : ℕ → (Sender → Sender) → List Pending → Sender → Sender
flush_round max_frame next [] s = s
flush_round max_frame next (p ∷ rest) s =
    if ltb_ℤ (pos 0) (window s)
    then next (send_fragment (allowed (length p.bytes - p.offset) (window s) max_frame) p rest s)
    else s

unfoldable pub flush_loop : ℕ → ℕ → Sender → Sender
flush_loop zero max_frame s = s
flush_loop (suc fuel) max_frame s =
    flush_round max_frame (flush_loop fuel max_frame) s.stream.pending s

-- A round takes a fragment or a byte of one off what is held back.
unfoldable pub held : List Pending → ℕ
held [] = 0
held (p ∷ rest) = 1 + (length p.bytes - p.offset) + held rest

-- The part of the session that the loop over a stream changes.
abbrev pub sender : Session → ℕ → Sender
sender s slot = record {
  stream = at s.streams slot;
  send_window = s.send_window;
  output = s.output;
}

unfoldable pub flush : Session → ℕ → Session
flush s slot =
    let fuel = held (at s.streams slot).pending in
    let sent = flush_loop fuel s.remote.max_frame (sender s slot) in
    record s {
      streams = set s.streams slot sent.stream;
      send_window = sent.send_window;
      output = sent.output;
    }
