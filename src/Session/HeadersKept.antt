-- ===== src/Session/HeadersKept.antt =====
-- The frames that carry a block of headers, and the refusal of a stream, keep the invariant of a
-- session.
use viriatum.Base.{ℕ, List, length}
use viriatum.Base.{drop, take, ltb, ◌==◌, if-keeps}
use viriatum.Base.{Option, none, some, true, Result, ok, err}
use viriatum.Base.{◌≡◌, refl, ◌∙◌, inl, inr}
use viriatum.Http2.{
  Http2Error, Frame, Priority, flag_priority, flag_end_stream, flag_end_headers, priority_size,
}
use viriatum.Http2.Padding.{strip_padding, decode_priority}
use viriatum.Session.{Session, at}
use viriatum.Session.Streams.{find_stream}
use viriatum.Session.Tree.{prioritise_stream}
use viriatum.Session.Dependencies.{find-modify}
use viriatum.Session.Writing.{write_value}
use viriatum.Session.Handlers.{Handler}
use viriatum.Session.Blocks.{change, with_request}
use viriatum.Session.Frames.{Outcome, attempt, gather, has, discard_block, payload}
use viriatum.Session.Receiving.{
  behind_priority, refuse, with_priority, placed_block, end_request, finish_block, gather_headers,
  accept_headers, opened_headers, handle_headers, finish_found, end_continuation,
  handle_continuation,
}
use viriatum.Session.BlocksCalm.{handle_block-Calm}
use viriatum.Session.Invariant.{IsSession, Calm-IsSession}
use viriatum.Session.Opening.{open_stream_cases, with_stream, with_stream_lem}
use viriatum.Session.Steps.{prioritise_stream_lem}
use viriatum.Session.Keeping.{
  Kept, keep, then_do-Kept, gather-Kept, reset-IsSession, after_strip-Kept, after_discard-Kept,
  expect-IsSession, write_value-Calm, receiving-Calm,
}

discard_block-Kept : (s : Session) → IsSession s → Kept (discard_block s)
unfolding discard_block
discard_block-Kept s i = after_discard-Kept s _ i

behind_priority-Kept :
    (s : Session) (f : Frame) (bytes : List ℕ) (next : List ℕ → Outcome)
    → IsSession s
    → ((block : List ℕ) → Kept (next block))
    → Kept (behind_priority s f bytes next)
unfolding behind_priority
behind_priority-Kept s f bytes next i rest =
    if-keeps Kept (has f flag_priority)
      (if-keeps Kept (ltb (length bytes) priority_size) (keep i) (rest _)) (rest bytes)

refuse-Kept : (s : Session) (f : Frame) → IsSession s → Kept (refuse s f)
unfolding refuse
refuse-Kept s f i =
    let told = (write_value s 0x03 f.stream_id 7).1 in
    let s' = record told { refused = f.stream_id } in
    let i' : IsSession s' =
      let j = Calm-IsSession (write_value-Calm s 0x03 f.stream_id 7) i in
      record { table = j.table; window = j.window; remote = j.remote; assembled = j.assembled } in
    after_strip-Kept s' _ (strip_padding f) i' (λ bytes.
      behind_priority-Kept s' f bytes _ i' (λ block.
        then_do-Kept (gather s' block) _ (gather-Kept s' block i') (λ g j.
          if-keeps Kept (has f flag_end_headers) (discard_block-Kept g j)
            (keep (expect-IsSession g f j)))))

pub attempt-prioritise :
    (s : Session) (id slot : ℕ) (priority : Priority)
    → IsSession s
    → find_stream s.streams id ≡ some slot
    → Kept (attempt s (prioritise_stream s slot priority))
attempt-prioritise s id slot priority i e = elim (prioritise_stream_lem s id slot priority i e) [
  | inl refusal ↦ rw refusal.1 (keep i)
  | inr (s', placed, kept, slots) ↦ rw placed (keep kept)
]

with_priority-Kept :
    (s : Session) (id slot : ℕ) (bytes : List ℕ) (next : Session → List ℕ → Outcome)
    (r : Result Http2Error Priority)
    → IsSession s
    → find_stream s.streams id ≡ some slot
    → ((p : Session) (block : List ℕ) → IsSession p → Kept (next p block))
    → Kept (with_priority s slot bytes next r)
unfolding with_priority
with_priority-Kept s id slot bytes next (err x) i e rest = keep i
with_priority-Kept s id slot bytes next (ok priority) i e rest =
    then_do-Kept _ _ (attempt-prioritise s id slot priority i e)
      (λ p j. rest p (drop priority_size bytes) j)

-- The slot of the stream of a frame, where it has one.
abbrev pub IsAt : Session → Frame → Option ℕ → Type 0
IsAt s f slot = (k : ℕ) → slot ≡ some k → find_stream s.streams f.stream_id ≡ some k

module _ (handler : Handler) where
  finish_block-Kept : (s : Session) (slot : ℕ) → IsSession s → Kept (finish_block handler s slot)
  unfolding finish_block
  finish_block-Kept s slot i =
      keep (reset-IsSession _ (Calm-IsSession (handle_block-Calm handler s slot s.block) i))

  gather_headers-Kept :
      (f : Frame) (slot : ℕ) (p : Session) (block : List ℕ)
      → IsSession p
      → Kept (gather_headers handler f slot p block)
  unfolding gather_headers
  gather_headers-Kept f slot p block i =
      let ended =
        if-keeps IsSession (has f flag_end_stream)
          (Calm-IsSession (receiving-Calm slot end_request p (λ st. (refl, refl, refl))) i) i in
      then_do-Kept _ _ (gather-Kept _ block ended) (λ g j.
        if-keeps Kept (has f flag_end_headers) (finish_block-Kept g slot j)
          (keep (expect-IsSession g f j)))

  accept_headers-Kept :
      (s : Session) (f : Frame) (id slot : ℕ)
      → IsSession s
      → find_stream s.streams id ≡ some slot
      → Kept (accept_headers handler s f slot)
  unfolding accept_headers placed_block
  accept_headers-Kept s f id slot i e = after_strip-Kept s _ (strip_padding f) i (λ bytes.
      if-keeps Kept (has f flag_priority)
        (if-keeps Kept (ltb (length bytes) priority_size) (keep i) (
          with_priority-Kept s id slot bytes (gather_headers handler f slot)
            (decode_priority (take priority_size bytes)) i e (gather_headers-Kept f slot)))
        (gather_headers-Kept f slot s bytes i))

  pub handle_headers-Kept :
      (s : Session) (f : Frame) (slot : Option ℕ)
      → IsSession s
      → IsAt s f slot
      → Kept (handle_headers handler s f slot)
  unfolding handle_headers opened_headers
  handle_headers-Kept s f none i there = elim (open_stream_cases s f.stream_id) [
    | inl wrong ↦ rw wrong.1 (keep i)
    | inr (inl many) ↦ rw many.3 (refuse-Kept s f i)
    | inr (inr free) ↦
        let (kept, found_new, map) = with_stream_lem s f.stream_id i free.0 free.1 free.3 in
        rw free.4 (
          accept_headers-Kept (with_stream s f.stream_id) f f.stream_id (length s.streams) kept
            found_new)
  ]
  handle_headers-Kept s f (some slot) i there =
      let trail = with_request (λ r. record r { trailers = true }) in
      let trailing = Calm-IsSession (receiving-Calm slot trail s (λ st. (refl, refl, refl))) i in
      let e = there slot refl in
      let e' = find-modify s.streams slot f.stream_id trail (λ st. refl) ∙ e in
      if-keeps Kept (at s.streams slot).headers_complete
        (if-keeps Kept (has f flag_end_stream)
          (accept_headers-Kept (change slot trail s) f f.stream_id slot trailing e') (keep i))
        (accept_headers-Kept s f f.stream_id slot i e)

  finish_found-Kept :
      (s : Session) (slot : Option ℕ) → IsSession s → Kept (finish_found handler s slot)
  unfolding finish_found
  finish_found-Kept s none i = keep i
  finish_found-Kept s (some slot) i = finish_block-Kept s slot i

  pub handle_continuation-Kept :
      (s : Session) (f : Frame) → IsSession s → Kept (handle_continuation handler s f)
  unfolding handle_continuation end_continuation
  handle_continuation-Kept s f i = if-keeps Kept (s.continuation == 0) (keep i) (
      then_do-Kept _ _ (gather-Kept s (payload f) i) (λ g j.
        if-keeps Kept (has f flag_end_headers)
          (if-keeps Kept (g.refused == g.continuation) (discard_block-Kept g j)
            (finish_found-Kept g (find_stream g.streams g.continuation) j))
          (keep j)))
