-- ===== src/Session/Flushing.antt =====
-- What a flush writes: the bytes that were held back, in their order, in frames that the peer accepts,
-- and as many of them as the windows let through.
use viriatum.Base.{ℕ, zero, suc, ◌-◌, ◌≤◌, ◌<◌, ℤ, pos, ◌+ℤ◌, ◌≤ℤ◌, ltb_ℤ, arith, integers}
use viriatum.Base.{List, [], ◌∷◌, ◌++◌, length}
use viriatum.Base.{get_or-set_self}
use viriatum.Base.{Bool-cases, ltb-false→le, append_assoc}
use viriatum.Base.{◌≡◌, ◌⊎◌, inl, inr, refl, sym, ap, ◌∙◌, append-nil, length-append}
use viriatum.Session.{Session, Pending, at, blank}
use viriatum.Session.Sending.{
  Sender, window, allowed, send_fragment, flush_round, flush_loop, held, sender, flush,
}
use viriatum.Session.Rounds.{
  outputs, sent_bytes, unsent, Flushed, Round, allowed-le, allowed-framed, allowed-pos,
  send_fragment-Round, allowed-window, nothing,
}
use viriatum.Base.{ltb→lt, ◌+◌, if◌then◌else◌}
use viriatum.Http2.{max_frame_size}
use viriatum.Http2.SettingsCodec.{IsSettings}

widened_twice :
    (w : ℤ) (front rest : List ℕ)
    → w +ℤ pos (length (front ++ rest)) ≡ w +ℤ pos (length rest) +ℤ pos (length front)
widened_twice w front rest = omega (integers, length-append front rest)

-- What a window lets through behind a round, it lets through before it together with it.
before_round : (a : ℤ) (n m : ℕ) → pos m ≤ℤ a → pos (n + m) ≤ℤ a +ℤ pos n
before_round a n m h = omega (integers, h)

-- What the smaller of two windows lets through, both let through.
let_through :
    (a b : ℤ) (n : ℕ) → pos n ≤ℤ (if ltb_ℤ a b then a else b) → (pos n ≤ℤ a) × (pos n ≤ℤ b)
let_through a b n h = elim (Bool-cases (ltb_ℤ a b)) [
  | inl below ↦ let k = rw below at h in (omega (arith, k), omega (arith, k, ltb→lt _ _ below))
  | inr above ↦
      let k = rw above at h in (omega (arith, k, ltb-false→le _ _ above), omega (arith, k))
]

-- Where the smaller of two windows is closed, one of them is.
one_closed : (a b : ℤ) → (if ltb_ℤ a b then a else b) ≤ℤ pos 0 → (a ≤ℤ pos 0) ⊎ (b ≤ℤ pos 0)
one_closed a b h = elim (Bool-cases (ltb_ℤ a b)) [
  | inl below ↦ inl (rw below at h)
  | inr above ↦ inr (rw above at h)
]

-- A round and the flush that follows it.
join :
    {max_frame : ℕ} {s mid s' : Sender} {before : List Pending}
    → s.stream.pending ≡ before
    → Round max_frame s mid before
    → Flushed max_frame mid s'
    → Flushed max_frame s s'
unfolding outputs sent_bytes
join {max_frame} {s} {mid} {s'} e r f = record {
  chunks = r.chunk ∷ f.chunks;
  written = f.written ∙ rw (r.wrote, r.same) (append_assoc s.output _ _);
  in_order =
      append_assoc r.chunk.bytes (sent_bytes f.chunks) (unsent s'.stream.pending)
      ∙ ap (λ t. r.chunk.bytes ++ t) f.in_order
      ∙ r.ordered
      ∙ ap unsent (sym e);
  of_stream =
      widened_twice s'.stream.send_window r.chunk.bytes (sent_bytes f.chunks)
      ∙ ap (λ w. w +ℤ pos (length r.chunk.bytes)) f.of_stream
      ∙ r.narrowed;
  of_session =
      widened_twice s'.send_window r.chunk.bytes (sent_bytes f.chunks)
      ∙ ap (λ w. w +ℤ pos (length r.chunk.bytes)) f.of_session
      ∙ r.bounded;
  delivered = rw e (r.delivers f.chunks s'.stream.pending f.delivered);
  within =
      let (in_stream, in_session) =
        let_through s.stream.send_window s.send_window (length r.chunk.bytes) r.inside in
      inr (elim f.within [
        | inl none ↦
            let alone = length-append r.chunk.bytes (sent_bytes f.chunks) in
            let ended = ap (λ cs. length (sent_bytes cs)) none in
            (omega (arith, alone, in_stream, ended), omega (arith, alone, in_session, ended))
        | inr (more, more') ↦
            let of_stream =
              before_round mid.stream.send_window (length r.chunk.bytes)
                (length (sent_bytes f.chunks)) more in
            let of_session =
              before_round mid.send_window (length r.chunk.bytes) (length (sent_bytes f.chunks))
                more' in
            rw (length-append r.chunk.bytes (sent_bytes f.chunks))
              (rw r.narrowed at of_stream, rw r.bounded at of_session)
      ]);
  framed = (r.fits, f.framed);
  exhausted = f.exhausted;
  same_stream = f.same_stream ∙ r.same;
}

-- A flush that has nothing to write or no window to write in.
idle_flush :
    (max_frame : ℕ) (s : Sender)
    → (s.stream.pending ≡ []) ⊎ (window s ≤ℤ pos 0)
    → Flushed max_frame s s
unfolding outputs sent_bytes
idle_flush max_frame s stopped = record {
  chunks = [];
  written = sym (append-nil s.output);
  in_order = refl;
  of_stream = add_nothing s.stream.send_window;
  of_session = add_nothing s.send_window;
  delivered = nothing;
  within = inl refl;
  framed = tt;
  exhausted = elim stopped [
    | inl none ↦ inl none
    | inr closed ↦ inr (one_closed s.stream.send_window s.send_window closed)
  ];
  same_stream = refl;
}
  where
    add_nothing : (w : ℤ) → w +ℤ pos 0 ≡ w
    add_nothing w = omega integers

-- One round, and what follows it.
flush_round_lem :
    (fuel max_frame : ℕ) (next : Sender → Sender) (s : Sender) (ps : List Pending)
    → 0 < max_frame
    → max_frame ≤ max_frame_size
    → ((t : Sender) → held t.stream.pending ≤ fuel → Flushed max_frame t (next t))
    → s.stream.pending ≡ ps
    → held s.stream.pending ≤ suc fuel
    → Flushed max_frame s (flush_round max_frame next ps s)
unfolding flush_round
flush_round_lem fuel max_frame next s [] h small rest e enough = idle_flush max_frame s (inl e)
flush_round_lem fuel max_frame next s (p ∷ ps) h small rest e enough =
    let remaining = length p.bytes - p.offset in
    let size = allowed remaining (window s) max_frame in
    elim (Bool-cases (ltb_ℤ (pos 0) (window s))) [
      | inr narrow ↦
          rw narrow (idle_flush max_frame s (inr (omega (arith, ltb-false→le _ _ narrow))))
      | inl wide ↦
          let round =
            send_fragment-Round max_frame size p ps s (allowed-le remaining (window s) max_frame)
              (allowed-framed remaining (window s) max_frame)
              (allowed-pos remaining (window s) max_frame h wide)
              (allowed-window remaining (window s) max_frame wide) small in
          rw wide (
            join e round
              (rest (send_fragment size p ps s) (omega (arith, round.less, ap held e, enough))))
    ]

flush_loop_lem :
    (fuel max_frame : ℕ) (s : Sender)
    → 0 < max_frame
    → max_frame ≤ max_frame_size
    → held s.stream.pending ≤ fuel
    → Flushed max_frame s (flush_loop fuel max_frame s)
unfolding flush_loop held
flush_loop_lem zero max_frame s h small enough =
    idle_flush max_frame s (inl (none_held s.stream.pending enough))
  where
    none_held : (ps : List Pending) → held ps ≤ 0 → ps ≡ []
    none_held [] e = refl
    none_held (p ∷ ps) e = absurd (omega arith)
flush_loop_lem (suc fuel) max_frame s h small enough =
    flush_round_lem fuel max_frame (flush_loop fuel max_frame) s s.stream.pending h small
      (λ t less. flush_loop_lem fuel max_frame t h small less) refl enough

-- With the settings of the peer in their ranges: the fragments that were held back go out from the
-- first on, whole or in parts, none lost, added or reordered, each behind the header of a DATA frame
-- of its size and stream, which ends the stream exactly with the end of its last fragment. No frame is
-- larger than the peer accepts, and all of them together are no more than either window lets through;
-- both windows narrow by exactly what is sent; and the flush stops only when nothing is held back or a
-- window is closed.
pub flush_lem :
    (s : Session) (slot : ℕ)
    → slot < length s.streams
    → IsSettings s.remote
    → Flushed s.remote.max_frame (sender s slot) (sender (flush s slot) slot)
unfolding flush
flush_lem s slot inside h =
    rw
      (get_or-set_self s.streams slot
        (flush_loop (held (at s.streams slot).pending) s.remote.max_frame (sender s slot)).stream
        blank inside)
      (flush_loop_lem (held (at s.streams slot).pending) s.remote.max_frame (sender s slot)
        (omega (arith, h.frame_low)) h.frame_high (omega arith))
