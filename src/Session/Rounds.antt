-- ===== src/Session/Rounds.antt =====
-- One round of `_flush_http2_connection`: the chunk that it takes off what is held back, and what it
-- does to the windows.
use viriatum.Base.{ℕ, ◌+◌, ◌-◌, ◌≤◌, ◌<◌, ℤ, pos, ◌+ℤ◌, ◌-ℤ◌, ◌≤ℤ◌, ltb_ℤ, arith, integers}
use viriatum.Base.{List, [], ◌∷◌, ◌++◌, length, drop, slice, ◌==◌, ◌&&◌}
use viriatum.Base.{Option, none, some, Bool, true, false, Bool-cases, All, append_assoc}
use viriatum.Base.{
  ◌≡◌, ◌⊎◌, inl, inr, refl, sym, ap, ◌∙◌, drop-end, slice-drop, length-slice, append-nil,
}
use viriatum.Base.{if◌then◌else◌}
use viriatum.Http2.{max_frame_size}
use viriatum.Http2.Framing.{frame_bytes}
use viriatum.Session.Headers.{built-frame_bytes}
use viriatum.Session.{Stream, Pending, Output, frame, buffer}
use viriatum.Session.Sending.{
  Sender, window, allowed, data_header, finish, send_header, send_payload, send_fragment, held,
}

-- What one round sends: its payload, the flag of its header, and the callback that comes back with it.
pub record Chunk : Type 0 where
  pub bytes : List ℕ
  pub ends : Bool
  pub callback : Option ℕ

abbrev pub payload : ℕ → Chunk → Output
payload id c = elim c.callback [ none ↦ frame c.bytes | some k ↦ buffer c.bytes id k ]

unfoldable pub outputs : ℕ → List Chunk → List Output
outputs id [] = []
outputs id (c ∷ cs) =
    frame (frame_bytes (length c.bytes) 0x00 (if c.ends then 0x01 else 0x00) id)
    ∷ payload id c
    ∷ outputs id cs

-- How fragments become chunks: a whole fragment, or what is left of it, ends the stream where it is
-- the last one and carries its callback; a part of a fragment does neither.
pub data Sends : List Pending → List Chunk → List Pending → Type 0 where
  nothing : {ps : List Pending} → Sends ps [] ps
  whole :
      {p : Pending} {ps qs : List Pending} {cs : List Chunk}
      → Sends ps cs qs
      → Sends
          (p ∷ ps)
          (record { bytes = drop p.offset p.bytes; ends = p.last; callback = some p.callback } ∷ cs)
          qs
  part :
      {p : Pending} {ps qs : List Pending} {cs : List Chunk} (size : ℕ)
      → 0 < size
      → p.offset + size < length p.bytes
      → Sends (record p { offset = p.offset + size } ∷ ps) cs qs
      → Sends
          (p ∷ ps)
          (record { bytes = slice p.bytes p.offset size; ends = false; callback = none } ∷ cs)
          qs

unfoldable pub sent_bytes : List Chunk → List ℕ
sent_bytes [] = []
sent_bytes (c ∷ cs) = c.bytes ++ sent_bytes cs

unfoldable pub unsent : List Pending → List ℕ
unsent [] = []
unsent (p ∷ rest) = drop p.offset p.bytes ++ unsent rest

-- The outcome of a flush.
pub record Flushed (max_frame : ℕ) (s s' : Sender) : Type 0 where
  pub chunks : List Chunk
  pub written : s'.output ≡ s.output ++ outputs s.stream.stream_id chunks
  pub in_order : sent_bytes chunks ++ unsent s'.stream.pending ≡ unsent s.stream.pending
  pub of_stream : s'.stream.send_window +ℤ pos (length (sent_bytes chunks)) ≡ s.stream.send_window
  pub of_session : s'.send_window +ℤ pos (length (sent_bytes chunks)) ≡ s.send_window
  pub delivered : Sends s.stream.pending chunks s'.stream.pending
  pub within :
      (chunks ≡ [])
      ⊎ (pos (length (sent_bytes chunks)) ≤ℤ s.stream.send_window
          × pos (length (sent_bytes chunks)) ≤ℤ s.send_window)
  pub framed : All (λ c. length c.bytes ≤ max_frame) chunks
  pub exhausted :
      (s'.stream.pending ≡ []) ⊎ ((s'.stream.send_window ≤ℤ pos 0) ⊎ (s'.send_window ≤ℤ pos 0))
  pub same_stream : s'.stream.stream_id ≡ s.stream.stream_id

pub allowed-le : (remaining : ℕ) (w : ℤ) (max_frame : ℕ) → allowed remaining w max_frame ≤ remaining
unfolding allowed
allowed-le remaining w max_frame = ground arith

pub allowed-framed :
    (remaining : ℕ) (w : ℤ) (max_frame : ℕ) → allowed remaining w max_frame ≤ max_frame
unfolding allowed
allowed-framed remaining w max_frame = ground arith

-- A round sends a byte at least, or the rest of the fragment.
pub allowed-pos :
    (remaining : ℕ) (w : ℤ) (max_frame : ℕ)
    → 0 < max_frame
    → ltb_ℤ (pos 0) w ≡ true
    → (allowed remaining w max_frame ≡ remaining) ⊎ (0 < allowed remaining w max_frame)
unfolding allowed
allowed-pos remaining w max_frame h open_window = ground arith

finish_id : (ends : Bool) (st : Stream) → (finish ends st).stream_id ≡ st.stream_id
finish_id true st = refl
finish_id false st = refl

finish_window : (ends : Bool) (st : Stream) → (finish ends st).send_window ≡ st.send_window
finish_window true st = refl
finish_window false st = refl

whole-slice :
    (bytes : List ℕ) (offset size : ℕ)
    → size ≡ length bytes - offset
    → slice bytes offset size ≡ drop offset bytes
whole-slice bytes offset size e =
    sym (append-nil (slice bytes offset size))
    ∙ ap (λ t. slice bytes offset size ++ t) (sym (drop-end bytes (offset + size) (omega arith)))
    ∙ slice-drop bytes offset size

and_true : (b : Bool) → b && true ≡ b
and_true b = ground arith

and_false : (b : Bool) → b && false ≡ false
and_false b = ground arith

pub allowed-window :
    (remaining : ℕ) (w : ℤ) (max_frame : ℕ)
    → ltb_ℤ (pos 0) w ≡ true
    → pos (allowed remaining w max_frame) ≤ℤ w
unfolding allowed
allowed-window remaining w max_frame open_window = ground arith

-- The effect of one round.
pub record Round (max_frame : ℕ) (s s' : Sender) (before : List Pending) : Type 0 where
  pub chunk : Chunk
  pub wrote : s'.output ≡ s.output ++ outputs s.stream.stream_id (chunk ∷ [])
  pub ordered : chunk.bytes ++ unsent s'.stream.pending ≡ unsent before
  pub narrowed : s'.stream.send_window +ℤ pos (length chunk.bytes) ≡ s.stream.send_window
  pub bounded : s'.send_window +ℤ pos (length chunk.bytes) ≡ s.send_window
  pub delivers :
      (cs : List Chunk) (qs : List Pending)
      → Sends s'.stream.pending cs qs
      → Sends before (chunk ∷ cs) qs
  pub inside : pos (length chunk.bytes) ≤ℤ window s
  pub fits : length chunk.bytes ≤ max_frame
  pub same : s'.stream.stream_id ≡ s.stream.stream_id
  pub less : held s'.stream.pending < held before

pub back : (w : ℤ) (n : ℕ) → w -ℤ pos n +ℤ pos n ≡ w
back w n = omega integers

pub send_fragment-Round :
    (max_frame size : ℕ) (p : Pending) (rest : List Pending) (s : Sender)
    → size ≤ length p.bytes - p.offset
    → size ≤ max_frame
    → (size ≡ length p.bytes - p.offset) ⊎ (0 < size)
    → pos size ≤ℤ window s
    → max_frame ≤ max_frame_size
    → Round max_frame s (send_fragment size p rest s) (p ∷ rest)
unfolding send_fragment send_header send_payload data_header outputs unsent held
send_fragment-Round max_frame size p rest s le fit moves narrow small =
    let sliced = length-slice p.bytes p.offset size le in
    let header = λ (ends : Bool).
      built-frame_bytes size 0x00 (if ends then 0x01 else 0x00) s.stream.stream_id (omega arith) in
    elim (Bool-cases (size == length p.bytes - p.offset)) [
      | inl complete ↦ rw complete (record {
        chunk = record {
          bytes = slice p.bytes p.offset size;
          ends = p.last && true;
          callback = some p.callback;
        };
        wrote = rw (sliced, header (p.last && true)) (append_assoc s.output _ _);
        delivers = λ cs qs sends.
            rw (and_true p.last, whole-slice p.bytes p.offset size (ground arith)) (whole sends);
        inside = omega (arith, sliced, narrow);
        ordered = ap (λ t. t ++ unsent rest) (whole-slice p.bytes p.offset size (ground arith));
        narrowed = rw (sliced, finish_window (p.last && true) _) (back s.stream.send_window size);
        bounded = rw sliced (back s.send_window size);
        fits = omega (arith, sliced);
        same = finish_id (p.last && true) _;
        less = omega arith;
      })
      | inr partial ↦ rw partial (record {
        chunk = record {
          bytes = slice p.bytes p.offset size;
          ends = p.last && false;
          callback = none;
        };
        wrote = rw (sliced, header (p.last && false)) (append_assoc s.output _ _);
        delivers =
            λ cs qs sends. rw (and_false p.last) (part size (ground arith) (ground arith) sends);
        inside = omega (arith, sliced, narrow);
        ordered =
            sym (
              append_assoc (slice p.bytes p.offset size) (drop (p.offset + size) p.bytes)
                (unsent rest))
            ∙ ap (λ t. t ++ unsent rest) (slice-drop p.bytes p.offset size);
        narrowed = rw (sliced, finish_window (p.last && false) _) (back s.stream.send_window size);
        bounded = rw sliced (back s.send_window size);
        fits = omega (arith, sliced);
        same = finish_id (p.last && false) _;
        less = ground arith;
      })
    ]
