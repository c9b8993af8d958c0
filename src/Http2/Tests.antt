-- ===== src/Http2/Tests.antt =====
-- Runs of the framing of src/viriatum/http/http2.c, and its theorems at concrete inputs.
use viriatum.Base.{ℕ, ◌+◌, ◌%◌, ◌^◌, ◌≤◌, ◌<◌, bit_and, arith, List, [], ◌∷◌, length, drop, take}
use viriatum.Base.{get_or, replicate, ltb, if◌then◌else◌, none, some, ok, err}
use viriatum.Base.{◌≡◌, ◌≢◌, refl}
use viriatum.Http2.{protocol_error, frame_size_error, Frame, Priority, create_settings}
use viriatum.Http2.{flag_padded, Settings, frame_header_size}
use viriatum.Http2.Number.{decode_number, encode_number}
use viriatum.Http2.Framing.{decode_frame, encode_frame, decode_frame-encode_frame}
use viriatum.Http2.Padding.{
  strip_padding, decode_priority, strip_padding_content, decode_priority_lem,
}
use viriatum.Http2.SettingsCodec.{
  decode_settings, encode_settings, write_settings, write_setting, IsSettings,
  decode_settings-IsSettings,
}
use viriatum.Http2.SettingsCodec.RoundTrip.{FitsWords, decode_settings-encode_settings}
use viriatum.Http2.Control.{encode_value, encode_goaway, encode_value_lem, encode_goaway_lem}
use viriatum.Http2.Verify.{verify_frame, verified_decodes}

abbrev room : List ℕ
room = replicate 40 0

abbrev ping_buffer : List ℕ
ping_buffer = 0 ∷ 0 ∷ 8 ∷ 6 ∷ 1 ∷ 0 ∷ 0 ∷ 0 ∷ 0 ∷ []

ping_written : encode_frame (replicate 9 0) 8 6 1 0 ≡ ok ping_buffer
unfolding encode_frame encode_number
ping_written = refl

decode_frame-encode_frame_example :
    (length ping_buffer ≡ 9)
    × (decode_frame ping_buffer
        ≡ ok (record {
          size = 8;
          type = 6;
          flags = 1;
          stream_id = 0 % 2 ^ 31;
          payload = if ltb 9 (9 + 8) then none else some (drop 9 ping_buffer);
        }))
    × (drop 9 ping_buffer ≡ [])
decode_frame-encode_frame_example =
    decode_frame-encode_frame (replicate 9 0) 8 6 1 0 ping_buffer ping_written

-- A padded DATA frame: two bytes of content between the length byte and three bytes of padding.
abbrev padded : Frame
padded = record {
  size = 6;
  type = 0;
  flags = 8;
  stream_id = 1;
  payload = some (3 ∷ 7 ∷ 9 ∷ 0 ∷ 0 ∷ 0 ∷ []);
}

padded_flag : bit_and padded.flags flag_padded ≢ 0
padded_flag = λ e. omega arith

strip_padding_content_example : strip_padding padded ≡ ok (some (7 ∷ 9 ∷ 0 ∷ 0 ∷ 0 ∷ []), 2)
strip_padding_content_example =
    strip_padding_content padded (7 ∷ 9 ∷ []) (0 ∷ 0 ∷ 0 ∷ []) [] padded_flag refl refl

abbrev priority_payload : List ℕ
priority_payload = 0x80 ∷ 0 ∷ 0 ∷ 3 ∷ 15 ∷ []

decode_priority_lem_example :
    (length priority_payload ≢ 5 → decode_priority priority_payload ≡ err frame_size_error)
    × (length priority_payload ≡ 5
        → (p : Priority) × (decode_priority priority_payload ≡ ok p)
          × (decode_number priority_payload 0 ≡ (if p.exclusive then 2 ^ 31 else 0) + p.dependency)
          × (p.dependency < 2 ^ 31)
          × (1 ≤ p.weight)
          × (p.weight ≤ 256)
          × (p.weight ≡ get_or priority_payload 4 0 + 1))
decode_priority_lem_example = decode_priority_lem priority_payload (omega arith)

initial-IsSettings : IsSettings create_settings
unfolding create_settings
initial-IsSettings = omega arith

initial-FitsWords : FitsWords create_settings
unfolding create_settings
initial-FitsWords = omega arith

-- A window of 16 after a refused frame size: the window stays out.
abbrev bad_frame_size : List ℕ
bad_frame_size = 0 ∷ 5 ∷ 0 ∷ 0 ∷ 0 ∷ 1 ∷ 0 ∷ 4 ∷ 0 ∷ 0 ∷ 0 ∷ 16 ∷ []

bad_frame_size_refused : (decode_settings bad_frame_size create_settings).0 ≡ some protocol_error
unfolding decode_settings create_settings decode_number
bad_frame_size_refused = refl

decode_settings-IsSettings_example : IsSettings (decode_settings bad_frame_size create_settings).1
decode_settings-IsSettings_example =
    decode_settings-IsSettings bad_frame_size create_settings initial-IsSettings

-- Ten streams and frames of 16385 bytes: three of the values are those of the specification.
abbrev announced : Settings
announced = record create_settings { max_concurrent_streams = 10; max_frame = 16385 }

announced-IsSettings : IsSettings announced
unfolding create_settings
announced-IsSettings = omega arith

announced-FitsWords : FitsWords announced
unfolding create_settings
announced-FitsWords = omega arith

abbrev announcement : List ℕ
announcement =
    0 ∷ 0 ∷ 30 ∷ 4 ∷ 0 ∷ 0 ∷ 0 ∷ 0 ∷ 0 ∷ 0 ∷ 3 ∷ 0 ∷ 0 ∷ 0 ∷ 10 ∷ 0 ∷ 1 ∷ 0 ∷ 0 ∷ 16 ∷ 0 ∷ 0 ∷ 6 ∷ 0
    ∷ 0 ∷ 128 ∷ 0 ∷ 0 ∷ 4 ∷ 0 ∷ 0 ∷ 255 ∷ 255 ∷ 0 ∷ 5 ∷ 0 ∷ 0 ∷ 64 ∷ 1 ∷ 0 ∷ []

announcement_written : encode_settings room announced ≡ ok (announcement, 39)
unfolding encode_settings write_settings write_setting encode_frame encode_number create_settings
announcement_written = refl

decode_settings-encode_settings_example :
    (size : ℕ) × (payload : List ℕ) × (39 ≡ frame_header_size + size)
    × (decode_frame announcement
        ≡ ok (record { size = size; type = 4; flags = 0; stream_id = 0; payload = some payload }))
    × (decode_settings (take size payload) create_settings
        ≡ (none, record announced { enable_push = create_settings.enable_push }))
decode_settings-encode_settings_example =
    decode_settings-encode_settings room announced announcement 39 announced-IsSettings
      announced-FitsWords announcement_written

encode_value_lem_example :
    (length room < 13 → encode_value room 8 3 1000 ≡ err frame_size_error)
    × (13 ≤ length room
        → (buffer' : List ℕ) × (encode_value room 8 3 1000 ≡ ok (buffer', 13))
          × (decode_frame buffer'
              ≡ ok (record {
                size = 4;
                type = 8;
                flags = 0x00;
                stream_id = 3 % 2 ^ 31;
                payload = some (drop 9 buffer');
              }))
          × (decode_number buffer' 9 ≡ 1000))
encode_value_lem_example = encode_value_lem room 8 3 1000 (omega arith)

encode_goaway_lem_example :
    (length room < 17 → encode_goaway room 5 2 ≡ err frame_size_error)
    × (17 ≤ length room
        → (buffer' : List ℕ) × (encode_goaway room 5 2 ≡ ok (buffer', 17))
          × (decode_frame buffer'
              ≡ ok (record {
                size = 8;
                type = 0x07;
                flags = 0x00;
                stream_id = 0;
                payload = some (drop 9 buffer');
              }))
          × (decode_number buffer' 9 ≡ 5 % 2 ^ 31)
          × (decode_number buffer' 13 ≡ 2))
encode_goaway_lem_example = encode_goaway_lem room 5 2 (omega arith)

abbrev priority_frame : Frame
priority_frame = record {
  size = 5;
  type = 2;
  flags = 0;
  stream_id = 3;
  payload = some priority_payload;
}

priority_accepted : verify_frame priority_frame create_settings ≡ ok tt
unfolding verify_frame create_settings
priority_accepted = refl

verified_decodes_example :
    (priority_frame.type ≡ 0x02 → (p : Priority) × (decode_priority priority_payload ≡ ok p))
    × (priority_frame.type ≡ 0x04
        → (decode_settings priority_payload create_settings).0 ≢ some frame_size_error)
verified_decodes_example =
    verified_decodes priority_frame create_settings create_settings priority_payload
      priority_accepted refl
