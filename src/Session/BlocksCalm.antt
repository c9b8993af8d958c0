-- ===== src/Session/BlocksCalm.antt =====
-- The handling of a block of headers is calm: whatever the peer sends in it and whatever the handlers
-- do about it, the table of the streams, the settings and the block stay.
use viriatum.Base.{ℕ, List, length, get_or, ◌==◌, ◌&&◌, not}
use viriatum.Base.{Bool, true, false, if-keeps, Option, none, some}
use viriatum.Base.{refl, arith, bit_and}
use viriatum.Hpack.{Header}
use viriatum.Hpack.Block.{Decoded}
use viriatum.Hpack.Block.Callback.{decode_block-keeps}
use viriatum.Session.{Session, at, Event, message_begin, set}
use viriatum.Session.Streams.{activate}
use viriatum.Session.Handlers.{Handler, hear, take_handler, served_by}
use viriatum.Session.Fields.{
  Block, Handled, hand_authority, hand_pseudo, verify_header, pseudo_required,
}
use viriatum.Session.Blocks.{
  hand_field, has_upper, forbidden, check_field, header_regular, header, header_code, on_header,
  serve, begin_message, headers_done, complete_headers, complete_message, end_block, after_block,
  handle_block,
}
use viriatum.Session.CalmWrites.{hear-Calm}
use viriatum.Session.Calm.{Calm, Calm-refl, Calm-trans, aside, change-Calm, redecoded}
use viriatum.Session.FieldsCalm.{
  CalmHandled, calmly, still, header_pseudo-Calm, header_length-Calm, and_then-Calm, verified-Calm,
}

module _ (handler : Handler) where
  hear_twice :
      (id : ℕ) (first second : Event) (s : Session)
      → Calm s (hear handler id second (hear handler id first s))
  hear_twice id first second s =
      Calm-trans (hear-Calm handler id first s) (hear-Calm handler id second _)

  hand_authority-Calm :
      (id : ℕ) (authority : List ℕ) (s : Session) → Calm s (hand_authority handler id authority s)
  unfolding hand_authority
  hand_authority-Calm id authority s =
      if-keeps (Calm s) (get_or authority 0 0 == 0) (Calm-refl s) (hear_twice id _ _ s)

  hand_pseudo-Calm : (b : Block) (s : Session) → CalmHandled s (hand_pseudo handler b s)
  unfolding hand_pseudo
  hand_pseudo-Calm b s =
      let told = hear-Calm handler _ _ s in
      if-keeps (CalmHandled s) b.flushed (still s) (
        if-keeps (CalmHandled s) b.trailers (still s) (
          if-keeps (CalmHandled s) (not (bit_and b.pseudo pseudo_required == pseudo_required))
            (still s) (calmly (Calm-trans told (hand_authority-Calm _ _ _)))))

  check_field-Calm :
      (b : Block) (s : Session) (h : Header) → CalmHandled s (check_field handler b s h)
  unfolding check_field hand_field
  check_field-Calm b s h = if-keeps (CalmHandled s) (has_upper h.name) (still s) (
      and_then-Calm s _ _ (verified-Calm b s (verify_header h)) (λ b' s'.
        if-keeps (CalmHandled s') (forbidden h) (still s') (
          and_then-Calm s' _ _ (header_length-Calm b' s' h)
            (λ b'' s''. calmly (hear_twice _ _ _ s'')))))

  header_regular-Calm :
      (b : Block) (s : Session) (h : Header) → CalmHandled s (header_regular handler b s h)
  unfolding header_regular
  header_regular-Calm b s h =
      and_then-Calm s _ _ (if-keeps (CalmHandled s) b.regular (still s) (hand_pseudo-Calm b s))
        (λ b' s'. check_field-Calm _ s' h)

  header-Calm : (b : Block) (s : Session) (h : Header) → CalmHandled s (header handler b s h)
  unfolding header
  header-Calm b s h =
      if-keeps (CalmHandled s) (not (length h.name == 0) && (get_or h.name 0 0 == 58))
        (header_pseudo-Calm b s h) (header_regular-Calm b s h)

  header_code-Calm :
      (s : Session) (handled : Handled)
      → CalmHandled s handled
      → Calm s (header_code handler handled).1.1
  unfolding header_code
  header_code-Calm s (none, b, s') c = c.calm
  header_code-Calm s (some e, b, s') c = c.calm

  take_handler-Calm : (s : Session) (slot : ℕ) → Calm s (take_handler s slot)
  take_handler-Calm s slot =
      change-Calm slot (served_by s.http_handler) s (λ st. (refl, refl, omega arith))

  activate-Calm : (s : Session) (slot : ℕ) → Calm s (activate s slot)
  unfolding activate
  activate-Calm s slot = aside s s.output s.events _ _

  serve-Calm : (slot : ℕ) (serving : Option ℕ) (s : Session) → Calm s (serve handler slot serving s)
  unfolding serve
  serve-Calm slot (some serving) s = Calm-refl s
  serve-Calm slot none s =
      let based = change-Calm slot (served_by s.base_handler) s (λ st. (refl, refl, omega arith)) in
      Calm-trans (Calm-trans (Calm-trans based (activate-Calm _ slot)) (hear-Calm handler _ set _))
        (take_handler-Calm _ slot)

  begin_message-Calm :
      (id : ℕ) (trailers : Bool) (s : Session) → Calm s (begin_message handler id trailers s)
  unfolding begin_message
  begin_message-Calm id true s = Calm-refl s
  begin_message-Calm id false s = hear-Calm handler id message_begin s

  complete_headers-Calm : (b : Block) (s : Session) → Calm s (complete_headers handler b s)
  unfolding complete_headers
  complete_headers-Calm b s = if-keeps (Calm s) b.trailers (Calm-refl s) (
      Calm-trans (change-Calm b.slot (headers_done handler) s (λ st. (refl, refl, omega arith)))
        (hear-Calm handler _ _ _))

  complete_message-Calm : (slot : ℕ) (s : Session) → Calm s (complete_message handler slot s)
  unfolding complete_message
  complete_message-Calm slot s =
      if-keeps (Calm s) (at s.streams slot).end_stream (hear-Calm handler _ _ s) (Calm-refl s)

  end_block-Calm :
      (s : Session) (handled : Handled)
      → CalmHandled s handled
      → Calm s (end_block handler handled).1
  unfolding end_block
  end_block-Calm s (some e, b, s') c = c.calm
  end_block-Calm s (none, b, s') c =
      Calm-trans
        (Calm-trans (Calm-trans c.calm (complete_headers-Calm b s')) (take_handler-Calm _ b.slot))
        (complete_message-Calm b.slot _)

  after_block-Calm :
      (s : Session) (decoded : Decoded (Block × Session))
      → Calm s decoded.2.1
      → Calm s (after_block handler decoded).1
  unfolding after_block
  after_block-Calm s (some e, table, (b, s')) c = Calm-trans c (redecoded s' table)
  after_block-Calm s (none, table, (b, s')) c =
      Calm-trans (Calm-trans c (redecoded s' table))
        (end_block-Calm _ _ (hand_pseudo-Calm b (record s' { decoder = table })))

  on_header-Calm :
      (s : Session) (p : Block × Session) (h : Header)
      → Calm s p.1
      → Calm s (on_header handler p h).1.1
  unfolding on_header
  on_header-Calm s (b, s') h c = Calm-trans c (header_code-Calm s' _ (header-Calm b s' h))

  -- Whatever a block carries, its handling is calm.
  pub handle_block-Calm :
      (s : Session) (slot : ℕ) (block : List ℕ) → Calm s (handle_block handler s slot block).1
  unfolding handle_block
  handle_block-Calm s slot block =
      let stream = at s.streams slot in
      let served = activate (serve handler slot stream.http_handler s) slot in
      let begun = begin_message handler stream.stream_id stream.headers_complete served in
      let until : Calm s begun =
        Calm-trans (Calm-trans (serve-Calm slot stream.http_handler s) (activate-Calm _ slot))
          (begin_message-Calm stream.stream_id stream.headers_complete served) in
      after_block-Calm s _ (
        decode_block-keeps (on_header handler) (λ p. Calm s p.1) (on_header-Calm s) begun.decoder
          block _ until)
