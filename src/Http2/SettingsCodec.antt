-- ===== src/Http2/SettingsCodec.antt =====
-- `decode_settings_http2` and `encode_settings_http2` of src/viriatum/http/http2.c. The decoding
-- changes the settings entry by entry, so the settings come back beside the error too.
pub mod RoundTrip
use viriatum.Base.{
  ℕ, zero, suc, ◌+◌, ◌-◌, ◌*◌, ◌/◌, ◌%◌, ◌^◌, ◌≤◌, ◌<◌, bit_or, arith, List, [], ◌∷◌,
}
use viriatum.Base.{length, set, ltb, ◌==◌, ◌||◌, if◌then◌else◌, not, u16, ◌<<<◌}
use viriatum.Base.{Option, none, some, Bool, true, false, Result, ok, err, ◌>>=◌, ◌≡◌, ◌≢◌}
use viriatum.Http2.{Http2Error, protocol_error, frame_size_error, flow_control_error, Settings}
use viriatum.Http2.{
  setting_size, frame_header_size, max_window_size, default_frame_size, max_frame_size,
}
use viriatum.Http2.Number.{decode_number, encode_number}
use viriatum.Http2.Framing.{encode_frame}

-- One entry, the `switch` on its identifier.
pub apply_setting : ℕ → ℕ → Settings → Option Http2Error × Settings
apply_setting identifier value s =
    if identifier == 0x01
    then (none, record s { header_table_size = value })
    else if identifier == 0x02
    then if ltb 1 value
      then (some protocol_error, s)
      else (none, record s { enable_push = not (value == 0) })
    else if identifier == 0x03
    then (none, record s { max_concurrent_streams = value })
    else if identifier == 0x04
    then if ltb max_window_size value
      then (some flow_control_error, s)
      else (none, record s { initial_window_size = value })
    else if identifier == 0x05
    then if ltb value default_frame_size || ltb max_frame_size value
      then (some protocol_error, s)
      else (none, record s { max_frame = value })
    else if identifier == 0x06
    then (none, record s { max_header_list = value })
    else (none, s)

-- An error returns at once, with the settings that the entries before it have set.
and_then :
    Option Http2Error × Settings
    → (Settings → Option Http2Error × Settings)
    → Option Http2Error × Settings
and_then (none, s) next = next s
and_then (some x, s) next = (some x, s)

-- The loop; the list is `data[offset .. data_size)`.
decode_settings_loop : List ℕ → Settings → Option Http2Error × Settings
unfolding and_then
decode_settings_loop (a ∷ b ∷ c ∷ d ∷ e ∷ f ∷ rest) s =
    let entry = a ∷ b ∷ c ∷ d ∷ e ∷ f ∷ [] in
    and_then (apply_setting (u16 (bit_or (a <<< 8) b)) (decode_number entry 2) s)
      (decode_settings_loop rest)
decode_settings_loop bytes s = (none, s)

unfoldable pub decode_settings : List ℕ → Settings → Option Http2Error × Settings
unfolding decode_settings_loop apply_setting
decode_settings bytes s =
    if length bytes % setting_size == 0
    then decode_settings_loop bytes s
    else (some frame_size_error, s)

-- The store of one entry, and the position behind it.
unfoldable pub write_setting : List ℕ → ℕ → ℕ → ℕ → List ℕ
write_setting buffer offset identifier value =
    encode_number (set (set buffer offset 0x00) (offset + 1) identifier) (offset + 2) value

-- `(unsigned int)` of the values.
abbrev pub word : ℕ → ℕ
word n = n % 2 ^ 32

unfoldable pub write_settings : List ℕ → Settings → List ℕ
write_settings buffer s =
    let b1 = write_setting buffer 9 0x03 (word s.max_concurrent_streams) in
    let b2 = write_setting b1 15 0x01 (word s.header_table_size) in
    let b3 = write_setting b2 21 0x06 (word s.max_header_list) in
    let b4 = write_setting b3 27 0x04 (word s.initial_window_size) in
    write_setting b4 33 0x05 (word s.max_frame)

-- The buffer written and the size of the complete frame.
unfoldable pub encode_settings : List ℕ → Settings → Result Http2Error (List ℕ × ℕ)
encode_settings buffer s =
    if ltb (length buffer) (frame_header_size + setting_size * 5) then err frame_size_error else do
      written ← encode_frame (write_settings buffer s) (39 - frame_header_size) 0x04 0x00 0
      ok (written, 39)

-- The values that a connection works with.
pub record IsSettings (s : Settings) : Type 0 where
  pub window : s.initial_window_size ≤ max_window_size
  pub frame_low : default_frame_size ≤ s.max_frame
  pub frame_high : s.max_frame ≤ max_frame_size

apply_setting-IsSettings :
    (identifier value : ℕ) (s : Settings)
    → IsSettings s
    → IsSettings (apply_setting identifier value s).1
unfolding apply_setting
apply_setting-IsSettings identifier value s v = ground arith

decode_settings_loop-IsSettings :
    (bytes : List ℕ) (s : Settings) → IsSettings s → IsSettings (decode_settings_loop bytes s).1
unfolding decode_settings_loop
decode_settings_loop-IsSettings (a ∷ b ∷ c ∷ d ∷ e ∷ f ∷ rest) s v =
    let id = u16 (bit_or (a <<< 8) b) in
    let value = decode_number (a ∷ b ∷ c ∷ d ∷ e ∷ f ∷ []) 2 in
    let kept = apply_setting-IsSettings id value s v in
    ground (arith, kept, decode_settings_loop-IsSettings rest (apply_setting id value s).1 kept)
decode_settings_loop-IsSettings bytes s v = v

-- Whatever payload a peer sends, and also when it is refused half way, the settings keep a window of
-- at most 2^31 - 1 and a frame size between 2^14 and 2^24 - 1.
pub decode_settings-IsSettings :
    (bytes : List ℕ) (s : Settings) → IsSettings s → IsSettings (decode_settings bytes s).1
unfolding decode_settings
decode_settings-IsSettings bytes s v = ground (arith, decode_settings_loop-IsSettings bytes s v)

apply_setting-ne-frame_size :
    (identifier value : ℕ) (s : Settings)
    → (apply_setting identifier value s).0 ≢ some frame_size_error
unfolding apply_setting
apply_setting-ne-frame_size identifier value s = λ e. ground arith

decode_settings_loop-ne-frame_size :
    (bytes : List ℕ) (s : Settings) → (decode_settings_loop bytes s).0 ≢ some frame_size_error
unfolding decode_settings_loop
decode_settings_loop-ne-frame_size (a ∷ b ∷ c ∷ d ∷ e ∷ f ∷ rest) s =
    let id = u16 (bit_or (a <<< 8) b) in
    let value = decode_number (a ∷ b ∷ c ∷ d ∷ e ∷ f ∷ []) 2 in
    λ h. ground (
      arith,
      apply_setting-ne-frame_size id value s,
      decode_settings_loop-ne-frame_size rest (apply_setting id value s).1,
    )
decode_settings_loop-ne-frame_size bytes s = λ h. cc

-- A payload of whole entries is never refused for its size.
pub decode_settings-ne-frame_size :
    (bytes : List ℕ) (s : Settings)
    → length bytes % 6 ≡ 0
    → (decode_settings bytes s).0 ≢ some frame_size_error
unfolding decode_settings
decode_settings-ne-frame_size bytes s h =
    λ e. ground (arith, decode_settings_loop-ne-frame_size bytes s)
