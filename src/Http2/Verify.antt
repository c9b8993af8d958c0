-- ===== src/Http2/Verify.antt =====
-- `verify_frame_http2` of src/viriatum/http/http2.c, the checks that a frame passes before it is
-- handled.
use viriatum.Base.{
  ℕ, ◌%◌, ◌≤◌, bit_and, arith, List, length, ltb, ◌==◌, ◌||◌, ◌&&◌, not, if◌then◌else◌,
}
use viriatum.Base.{some, Result, ok, ◌>>◌, raise_if, ◌≡◌, ◌≢◌, ap, ◌∙◌, ◌↔◌, ◌⊎◌}
use viriatum.Http2.{
  Http2Error, protocol_error, frame_size_error, Frame, Settings, Priority, flag_ack, flag_padded,
}
use viriatum.Http2.{setting_size, ping_size, priority_size}
use viriatum.Http2.Padding.{decode_priority, decode_priority_total}
use viriatum.Http2.SettingsCodec.{decode_settings, decode_settings-ne-frame_size}

abbrev Check : Type 0
Check = Result Http2Error (Unit {0})

-- The two checks of the stream that the cases of the switch begin with.
abbrev on_stream : Frame → Check
on_stream f = raise_if (f.stream_id == 0) protocol_error

abbrev on_connection : Frame → Check
on_connection f = raise_if (not (f.stream_id == 0)) protocol_error

abbrev sized : Frame → ℕ → Check
sized f n = raise_if (not (f.size == n)) frame_size_error

-- HTTP2_PRIORITY
verify_priority : Frame → Check
verify_priority f = do on_stream f; sized f priority_size

-- HTTP2_RST_STREAM
verify_reset : Frame → Check
verify_reset f = do on_stream f; sized f 4

-- HTTP2_SETTINGS
verify_settings : Frame → Check
verify_settings f = do
  on_connection f
  raise_if (not (bit_and f.flags flag_ack == 0) && not (f.size == 0)) frame_size_error
  raise_if (not (f.size % setting_size == 0)) frame_size_error

-- HTTP2_PUSH_PROMISE
verify_promise : Frame → Check
verify_promise f = do
  on_stream f
  if bit_and f.flags flag_padded == 0
      then raise_if (ltb f.size 4) frame_size_error
      else raise_if (ltb f.size 5) frame_size_error

-- HTTP2_PING
verify_ping : Frame → Check
verify_ping f = do on_connection f; sized f ping_size

-- HTTP2_GOAWAY
verify_goaway : Frame → Check
verify_goaway f = do on_connection f; raise_if (ltb f.size 8) frame_size_error

-- The `switch` on the type.
verify_type : Frame → Check
verify_type f =
    if f.type == 0x00 || f.type == 0x01 || f.type == 0x09
    then on_stream f
    else if f.type == 0x02
    then verify_priority f
    else if f.type == 0x03
    then verify_reset f
    else if f.type == 0x04
    then verify_settings f
    else if f.type == 0x05
    then verify_promise f
    else if f.type == 0x06
    then verify_ping f
    else if f.type == 0x07
    then verify_goaway f
    else if f.type == 0x08
    then sized f 4
    else ok tt

unfoldable pub verify_frame : Frame → Settings → Check
unfolding verify_type verify_priority verify_reset verify_settings verify_promise verify_ping
    verify_goaway
verify_frame f s = do raise_if (ltb s.max_frame f.size) frame_size_error; verify_type f

-- What the verification asks of a frame, type by type.
record IsFrame (f : Frame) (s : Settings) : Type 0 where
  pub announced : f.size ≤ s.max_frame
  pub of_stream :
      (f.type ≡ 0x00)
        ⊎ (f.type ≡ 0x01)
        ⊎ (f.type ≡ 0x02)
        ⊎ (f.type ≡ 0x03)
        ⊎ (f.type ≡ 0x05)
        ⊎ (f.type ≡ 0x09)
      → f.stream_id ≢ 0
  pub of_connection : (f.type ≡ 0x04) ⊎ (f.type ≡ 0x06) ⊎ (f.type ≡ 0x07) → f.stream_id ≡ 0
  pub priority : f.type ≡ 0x02 → f.size ≡ 5
  pub reset : f.type ≡ 0x03 → f.size ≡ 4
  pub entries : f.type ≡ 0x04 → f.size % 6 ≡ 0
  pub ack : f.type ≡ 0x04 → bit_and f.flags flag_ack ≢ 0 → f.size ≡ 0
  pub promise : f.type ≡ 0x05 → 4 ≤ f.size
  pub padded_promise : f.type ≡ 0x05 → bit_and f.flags flag_padded ≢ 0 → 5 ≤ f.size
  pub ping : f.type ≡ 0x06 → f.size ≡ 8
  pub goaway : f.type ≡ 0x07 → 8 ≤ f.size
  pub window_update : f.type ≡ 0x08 → f.size ≡ 4

verify_frame_iff : (f : Frame) (s : Settings) → (verify_frame f s ≡ ok tt) ↔ IsFrame f s
unfolding verify_frame
verify_frame_iff f s = (λ e. ground arith, λ v. ground arith)

-- What is accepted can be decoded: the payload of a priority frame decodes, and that of a settings
-- frame is never refused for its size.
pub verified_decodes :
    (f : Frame) (s t : Settings) (payload : List ℕ)
    → verify_frame f s ≡ ok tt
    → length payload ≡ f.size
    → (f.type ≡ 0x02 → (p : Priority) × (decode_priority payload ≡ ok p))
      × (f.type ≡ 0x04 → (decode_settings payload t).0 ≢ some frame_size_error)
verified_decodes f s t payload v len =
    let frame = (verify_frame_iff f s).0 v in
    (
      λ e. decode_priority_total payload (len ∙ frame.priority e),
      λ e. decode_settings-ne-frame_size payload t (ap (λ n. n % 6) len ∙ frame.entries e),
    )
