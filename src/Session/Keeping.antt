-- ===== src/Session/Keeping.antt =====
-- The handling of a frame keeps the invariant of a session, whatever the frame is, also where it is
-- refused, and whatever the handlers do about it.
use viriatum.Base.{ℕ, ◌+◌, pos, ◌-ℤ◌, ltb_ℤ, pos_part, neg_part, List, [], length, length-append}
use viriatum.Base.{take, ltb, ◌==◌, ◌&&◌, not, if-keeps, Bool-cases}
use viriatum.Base.{Option, none, some, true, Result, ok, err}
use viriatum.Base.{◌≡◌, refl, ap, inl, inr, arith, ltb-false→le}
use viriatum.Hpack.Block.{Decoded}
use viriatum.Http2.{Http2Error, Frame, flag_end_stream}
use viriatum.Http2.Padding.{strip_padding}
use viriatum.Session.{Stream, Session, at, max_block, half_closed_remote}
use viriatum.Session.Streams.{activate}
use viriatum.Session.Writing.{queue_built, queue_header, write_value, write_ack, write_ping}
use viriatum.Session.Handlers.{Handler}
use viriatum.Session.Blocks.{change}
use viriatum.Session.Frames.{
  Outcome, then_do, gather, reset_block, after_strip, has, after_discard, expect, end_data, receive,
  replenish, hand_body, handle_data,
}
use viriatum.Session.CalmWrites.{hear-Calm, queue-Calm}
use viriatum.Session.Calm.{Calm, Calm-refl, Calm-trans, aside, change-Calm, redecoded, window-Calm}
use viriatum.Session.Invariant.{IsSession, Calm-IsSession}

pub record Kept (outcome : Outcome) : Type 0 where
  pub kept : IsSession outcome.1

pub keep : {s : Session} {error : Option Http2Error} → IsSession s → Kept (error, s)
keep i = record { kept = i }

pub then_do-Kept :
    (outcome : Outcome) (next : Session → Outcome)
    → Kept outcome
    → ((s : Session) → IsSession s → Kept (next s))
    → Kept (then_do outcome next)
then_do-Kept (some e, s) next k rest = k
then_do-Kept (none, s) next k rest = rest s k.kept

pub gather-Kept : (s : Session) (bytes : List ℕ) → IsSession s → Kept (gather s bytes)
unfolding gather
gather-Kept s bytes i = elim (Bool-cases (ltb max_block (length s.block + length bytes))) [
  | inl over ↦ rw over (keep i)
  | inr fits ↦ rw fits (
      keep (record {
        table = i.table;
        window = i.window;
        remote = i.remote;
        assembled = omega (arith, length-append s.block bytes, ltb-false→le _ _ fits);
      }))
]

-- What the assembling and the decoding change is no part of the invariant, but for the block.
pub reset-IsSession : (s : Session) → IsSession s → IsSession (reset_block s)
reset-IsSession s i = record {
  table = i.table;
  window = i.window;
  remote = i.remote;
  assembled = omega arith;
}

pub after_strip-Kept :
    (s : Session) (next : List ℕ → Outcome) (r : Result Http2Error (Option (List ℕ) × ℕ))
    → IsSession s
    → ((bytes : List ℕ) → Kept (next bytes))
    → Kept (after_strip s next r)
unfolding after_strip
after_strip-Kept s next (err e) i rest = keep i
after_strip-Kept s next (ok (none, size)) i rest = rest []
after_strip-Kept s next (ok (some bytes, size)) i rest = rest (take size bytes)

pub after_discard-Kept :
    (s : Session) (d : Decoded (Unit {0})) → IsSession s → Kept (after_discard s d)
unfolding after_discard
after_discard-Kept s (none, table, p) i =
    keep (reset-IsSession (record s { decoder = table }) (Calm-IsSession (redecoded s table) i))
after_discard-Kept s (some e, table, p) i =
    keep (reset-IsSession (record s { decoder = table }) (Calm-IsSession (redecoded s table) i))

-- The fields of the frame sequence are no part of the invariant either.
pub expect-IsSession : (s : Session) (f : Frame) → IsSession s → IsSession (expect s f)
expect-IsSession s f i = record {
  table = i.table;
  window = i.window;
  remote = i.remote;
  assembled = i.assembled;
}

pub queue_built-Calm :
    (s : Session) (r : Result Http2Error (List ℕ × ℕ)) → Calm s (queue_built s r).1
unfolding queue_built
queue_built-Calm s (err e) = Calm-refl s
queue_built-Calm s (ok (bytes, size)) = queue-Calm s _

queue_header-Calm :
    (s : Session) (bytes : List ℕ) (r : Result Http2Error (List ℕ))
    → Calm s (queue_header s bytes r).1
unfolding queue_header
queue_header-Calm s bytes (err e) = Calm-refl s
queue_header-Calm s bytes (ok header) = queue-Calm s _

pub write_value-Calm : (s : Session) (type id value : ℕ) → Calm s (write_value s type id value).1
unfolding write_value
write_value-Calm s type id value = queue_built-Calm s _

pub write_ack-Calm : (s : Session) → Calm s (write_ack s).1
unfolding write_ack
write_ack-Calm s = queue_header-Calm s [] _

pub write_ping-Calm : (s : Session) (bytes : List ℕ) → Calm s (write_ping s bytes).1
unfolding write_ping
write_ping-Calm s bytes = queue_header-Calm s _ _

pub calm-keep :
    {s s' : Session} {error : Option Http2Error} → IsSession s → Calm s s' → Kept (error, s')
calm-keep i c = keep (Calm-IsSession c i)

pub receiving-Calm :
    (slot : ℕ) (f : Stream → Stream) (s : Session)
    → ((st : Stream)
        → (f st).stream_id ≡ st.stream_id
          × (f st).priority.dependency ≡ st.priority.dependency
          × (f st).send_window ≡ st.send_window)
    → Calm s (change slot f s)
receiving-Calm slot f s same = change-Calm slot f s (λ st.
    ((same st).0, (same st).1, omega (arith, ap pos_part (same st).2, ap neg_part (same st).2)))

module _ (handler : Handler) where
  end_data-Kept : (slot : ℕ) (s : Session) → IsSession s → Kept (end_data handler slot s)
  unfolding end_data
  end_data-Kept slot s i =
      let ended =
        receiving-Calm slot (λ st. record st { end_stream = true; state = half_closed_remote }) s
          (λ st. (refl, refl, refl)) in
      let s' = change slot (λ st. record st { end_stream = true; state = half_closed_remote }) s in
      let stream = at s'.streams slot in
      if-keeps Kept (stream.announced && not (stream.received == stream.content_length))
        (calm-keep i ended) (calm-keep i (Calm-trans ended (hear-Calm handler _ _ s')))

  replenish-Calm : (slot : ℕ) (f : Frame) (s : Session) → Calm s (replenish handler slot f s)
  unfolding replenish
  replenish-Calm slot f s =
      let told = write_value-Calm s 0x08 0 f.size in
      let widened = Calm-trans told (window-Calm _ _) in
      let told' = Calm-trans widened (write_value-Calm _ 0x08 f.stream_id f.size) in
      if-keeps (Calm s) (f.size == 0) (Calm-refl s)
        (Calm-trans told' (receiving-Calm slot _ _ (λ st. (refl, refl, refl))))

  hand_body-Calm :
      (slot : ℕ) (bytes : List ℕ) (s : Session) → Calm s (hand_body handler slot bytes s)
  unfolding hand_body
  hand_body-Calm slot bytes s =
      if-keeps (Calm s) (length bytes == 0) (Calm-refl s) (hear-Calm handler _ _ s)

  activate-Calm : (s : Session) (slot : ℕ) → Calm s (activate s slot)
  unfolding activate
  activate-Calm s slot = aside s s.output s.events _ _

  pub handle_data-Kept :
      (s : Session) (f : Frame) (slot : ℕ) → IsSession s → Kept (handle_data handler s f slot)
  unfolding handle_data
  handle_data-Kept s f slot i =
      let charged =
        λ (st : Stream). record st { receive_window = st.receive_window -ℤ pos f.size } in
      let s' = change slot charged s in
      let c = receiving-Calm slot charged s (λ st. (refl, refl, refl)) in
      if-keeps Kept (ltb_ℤ (at s'.streams slot).receive_window (pos 0)) (calm-keep i c) (
        after_strip-Kept s' _ (strip_padding f) (Calm-IsSession c i) (λ bytes.
          let received = activate (change slot (receive handler (length bytes)) s') slot in
          let r = Calm-trans c (
            Calm-trans
              (receiving-Calm slot (receive handler (length bytes)) s' (λ st. (refl, refl, refl)))
              (activate-Calm _ slot)) in
          let handed =
            Calm-trans (Calm-trans r (hand_body-Calm slot bytes received))
              (replenish-Calm slot f _) in
          if-keeps Kept (has f flag_end_stream) (end_data-Kept slot _ (Calm-IsSession handed i))
            (calm-keep i handed)))
