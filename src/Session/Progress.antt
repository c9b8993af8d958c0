-- ===== src/Session/Progress.antt =====
-- The loop of `data_handler_stream_http2` ends, and what it ends with.
use viriatum.Base.{ℕ, zero, suc, ◌+◌, ◌≤◌, ◌<◌, List, [], ◌∷◌, length, drop, ltb, arith}
use viriatum.Base.{Option, none, some, false, Result, ok, err}
use viriatum.Base.{◌≡◌, refl, ap, ◌∙◌, inl, inr, Bool-cases, length-drop}
use viriatum.Http2.{Http2Error, Frame, frame_header_size}
use viriatum.Http2.Framing.{decode_frame}
use viriatum.Session.{Session}
use viriatum.Session.Writing.{write_goaway}
use viriatum.Session.Handlers.{Handler}
use viriatum.Session.Frames.{Outcome}
use viriatum.Session.Receiving.{handle_frame}
use viriatum.Session.Reading.{
  Reading, after_frame, frame_payload, read_frame, read_frames, read_all,
}

-- A reading that is over: the bytes that are left do not hold the header of a frame, or they hold the
-- header of one that is not too large and whose payload has not arrived, or the connection failed.
pub data Ended : Reading → Type 0 where
  short :
      {unread : List ℕ} {s : Session} (e : Http2Error)
      → decode_frame unread ≡ err e
      → Ended (unread, s)
  awaited :
      {unread : List ℕ} {s : Session} (f : Frame)
      → decode_frame unread ≡ ok f
      → ltb s.settings.max_frame f.size ≡ false
      → f.payload ≡ none
      → Ended (unread, s)
  failed : {unread : List ℕ} (s : Session) (code : ℕ) → Ended (unread, (write_goaway s code).1)

-- A reading that is over, and the same one with more rounds.
record Settled (r more : Reading) : Type 0 where
  ended : Ended r
  same : more ≡ r

-- A header takes bytes.
decode_frame-takes :
    (unread : List ℕ) (f : Frame)
    → decode_frame unread ≡ ok f
    → length (drop (frame_header_size + f.size) unread) < length unread
unfolding decode_frame
decode_frame-takes unread f e = elim (Bool-cases (ltb (length unread) frame_header_size)) [
  | inl missing ↦ absurd (ground (arith, rw missing at e))
  | inr long ↦ ground (arith, long, length-drop (frame_header_size + f.size) unread)
]

after_frame-Settled :
    (next more : Session → Reading) (rest : List ℕ) (outcome : Outcome)
    → ((s : Session) → Settled (next s) (more s))
    → Settled (after_frame next rest outcome) (after_frame more rest outcome)
unfolding after_frame
after_frame-Settled next more rest (none, s) settled = settled s
after_frame-Settled next more rest (some e, s) settled = record { ended = failed s _; same = refl }

module _ (handle : Session → Frame → Outcome) (next more : List ℕ → Session → Reading) (s : Session)
    (unread : List ℕ)
    (settled : (rest : List ℕ) (t : Session)
      → length rest < length unread
      → Settled (next rest t) (more rest t)) where
  frame_payload-Settled :
      (f : Frame) (payload : Option (List ℕ))
      → decode_frame unread ≡ ok f
      → ltb s.settings.max_frame f.size ≡ false
      → f.payload ≡ payload
      → Settled
          (frame_payload handle next s unread f payload)
          (frame_payload handle more s unread f payload)
  unfolding frame_payload
  frame_payload-Settled f none e small gone = record { ended = awaited f e small gone; same = refl }
  frame_payload-Settled f (some payload) e small here =
      after_frame-Settled _ _ _ _ (λ t. settled _ t (decode_frame-takes unread f e))

  read_frame-Settled :
      (r : Result Http2Error Frame)
      → decode_frame unread ≡ r
      → Settled (read_frame handle next s unread r) (read_frame handle more s unread r)
  unfolding read_frame
  read_frame-Settled (err e) h = record { ended = short e h; same = refl }
  read_frame-Settled (ok f) h = elim (Bool-cases (ltb s.settings.max_frame f.size)) [
    | inl large ↦ rw large (record { ended = failed s _; same = refl })
    | inr small ↦ rw small (frame_payload-Settled f f.payload h small refl)
  ]

module _ (handler : Handler) where
  read_frames-Settled :
      (fuel : ℕ) (unread : List ℕ) (s : Session)
      → length unread ≤ fuel
      → Settled (read_frames handler fuel unread s) (read_frames handler (suc fuel) unread s)
  unfolding read_frames read_frame decode_frame
  read_frames-Settled zero [] s h = record {
    ended = short Http2Error.frame_size_error refl;
    same = refl;
  }
  read_frames-Settled zero (b ∷ unread) s h = absurd (omega (arith, h))
  read_frames-Settled (suc fuel) unread s h =
      read_frame-Settled (handle_frame handler) (read_frames handler fuel)
        (read_frames handler (suc fuel)) s unread
        (λ rest t less. read_frames-Settled fuel rest t (omega arith)) (decode_frame unread) refl

  -- The loop over what has arrived is over after as many rounds as there are bytes: it stops only
  -- where they hold no complete frame or the connection has failed, and more rounds change nothing.
  pub read_all_lem :
      (extra : ℕ) (unread : List ℕ) (s : Session)
      → Ended (read_all handler unread s)
        × (read_frames handler (extra + length unread) unread s ≡ read_all handler unread s)
  unfolding read_all
  read_all_lem extra unread s =
      ((read_frames-Settled (length unread) unread s (omega arith)).ended, rounds extra)
    where
      rounds :
          (extra : ℕ)
          → read_frames handler (extra + length unread) unread s
            ≡ read_frames handler (length unread) unread s
      rounds zero = ap (λ n. read_frames handler n unread s) (omega arith)
      rounds (suc extra) =
          ap (λ n. read_frames handler n unread s) (omega arith)
          ∙ (read_frames-Settled (extra + length unread) unread s (omega arith)).same
          ∙ rounds extra
