-- ===== src/Http2/SettingsCodec/RoundTrip.antt =====
-- The settings frame that src/viriatum/http/http2.c writes, read back by its own decoders.
use viriatum.Base.{ℕ, ◌+◌, ◌*◌, ◌^◌, ◌≤◌, ◌<◌, bit_or, arith, List, [], ◌∷◌, ◌++◌, append-nil}
use viriatum.Base.{
  length, take, drop, slice, slice_of_Holds, overwrite, overwrite-append, length-overwrite, Holds,
  Holds-overwrite,
}
use viriatum.Base.{none, some, le→ltb-false, ok, ◌≡◌, refl, ap, sym, ◌∙◌, u16, bit_or-add}
use native.Mathlib.Nat.{mod-eq_of_lt}
use viriatum.Http2.{Settings, create_settings, frame_header_size}
use viriatum.Http2.Number.{decode_number, number_bytes, encode_number-bytes, decode_number-bytes}
use viriatum.Http2.Framing.{decode_frame, encode_frame, decode_frame-encode_frame}
use viriatum.Http2.SettingsCodec.{
  and_then, apply_setting, decode_settings_loop, decode_settings, IsSettings,
}
use viriatum.Http2.SettingsCodec.{write_setting, write_settings, encode_settings}

-- The six bytes of an entry, and the five entries of the frame.
setting_bytes : ℕ → ℕ → List ℕ
setting_bytes identifier value = 0 ∷ identifier ∷ number_bytes value

payload_bytes : Settings → List ℕ
payload_bytes s =
    setting_bytes 0x03 s.max_concurrent_streams
    ++ (setting_bytes 0x01 s.header_table_size
        ++ (setting_bytes 0x06 s.max_header_list
            ++ (setting_bytes 0x04 s.initial_window_size ++ setting_bytes 0x05 s.max_frame)))

-- The values fit the 32 bits of an entry.
pub record FitsWords (s : Settings) : Type 0 where
  pub table : s.header_table_size < 2 ^ 32
  pub streams : s.max_concurrent_streams < 2 ^ 32
  pub window_word : s.initial_window_size < 2 ^ 32
  pub frame_word : s.max_frame < 2 ^ 32
  pub list_word : s.max_header_list < 2 ^ 32

write_setting-bytes :
    (buffer : List ℕ) (offset identifier value : ℕ)
    → write_setting buffer offset identifier value
      ≡ overwrite buffer offset (setting_bytes identifier value)
unfolding write_setting setting_bytes overwrite
write_setting-bytes buffer offset identifier value =
    let next : offset + 2 ≡ offset + 1 + 1 = omega arith in rw (next, encode_number-bytes)

length-setting_bytes : (identifier value : ℕ) → length (setting_bytes identifier value) ≡ 6
unfolding setting_bytes number_bytes
length-setting_bytes identifier value = refl

-- An entry and what is stored behind it.
two_entries :
    (buffer : List ℕ) (p q : ℕ)
    → q ≡ p + 6
    → (identifier value : ℕ) (rest : List ℕ)
    → overwrite (overwrite buffer p (setting_bytes identifier value)) q rest
      ≡ overwrite buffer p (setting_bytes identifier value ++ rest)
two_entries buffer p q e identifier value rest =
    let six = length-setting_bytes identifier value in
    let place : q ≡ p + length (setting_bytes identifier value) = omega (arith, six) in
    ap (λ k. overwrite (overwrite buffer p (setting_bytes identifier value)) k rest) place
    ∙ sym (overwrite-append buffer p (setting_bytes identifier value) rest)

write_settings-bytes :
    (buffer : List ℕ) (s : Settings)
    → FitsWords s
    → write_settings buffer s ≡ overwrite buffer 9 (payload_bytes s)
unfolding write_settings payload_bytes
write_settings-bytes buffer s f = rw (
  mod-eq_of_lt f.streams,
  mod-eq_of_lt f.table,
  mod-eq_of_lt f.list_word,
  mod-eq_of_lt f.window_word,
  mod-eq_of_lt f.frame_word,
  write_setting-bytes buffer 9,
  write_setting-bytes _ 15,
  write_setting-bytes _ 21,
  write_setting-bytes _ 27,
  write_setting-bytes _ 33,
  two_entries _ 27 33 (omega arith),
  two_entries _ 21 27 (omega arith),
  two_entries _ 15 21 (omega arith),
  two_entries _ 9 15 (omega arith),
)

read_entry :
    (identifier value : ℕ) (rest : List ℕ) (s s' : Settings)
    → identifier < 256
    → value < 2 ^ 32
    → apply_setting identifier value s ≡ (none, s')
    → decode_settings_loop (setting_bytes identifier value ++ rest) s ≡ decode_settings_loop rest s'
unfolding decode_settings_loop setting_bytes number_bytes
read_entry identifier value rest s s' hi hv e =
    let id : u16 (bit_or (0 * 2 ^ 8) identifier) ≡ identifier =
      omega (arith, bit_or-add 8 0 (0 * 2 ^ 8) identifier refl hi) in
    let entry = 0 ∷ identifier ∷ number_bytes value in
    let number = decode_number-bytes entry 2 value hv (refl, (refl, (refl, (refl, tt)))) in
    let applied : apply_setting (u16 (bit_or (0 * 2 ^ 8) identifier)) (decode_number entry 2) s
        ≡ (none, s') =
      rw (id, number) e in
    ap (λ r. and_then r (decode_settings_loop rest)) applied

length-payload_bytes : (s : Settings) → length (payload_bytes s) ≡ 30
unfolding payload_bytes setting_bytes number_bytes
length-payload_bytes s = refl

entries_decoded :
    (s t : Settings)
    → IsSettings s
    → FitsWords s
    → decode_settings_loop (payload_bytes s) t ≡ (none, record s { enable_push = t.enable_push })
unfolding payload_bytes apply_setting
entries_decoded s t v f =
    let t3 : Settings = record t { max_concurrent_streams = s.max_concurrent_streams } in
    let t1 : Settings = record t3 { header_table_size = s.header_table_size } in
    let t6 : Settings = record t1 { max_header_list = s.max_header_list } in
    let t4 : Settings = record t6 { initial_window_size = s.initial_window_size } in
    let t5 : Settings = record t4 { max_frame = s.max_frame } in
    read_entry 0x03 s.max_concurrent_streams _ t t3 (omega arith) f.streams refl
    ∙ read_entry 0x01 s.header_table_size _ t3 t1 (omega arith) f.table refl
    ∙ read_entry 0x06 s.max_header_list _ t1 t6 (omega arith) f.list_word refl
    ∙ read_entry 0x04 s.initial_window_size _ t6 t4 (omega arith) f.window_word (ground arith)
    ∙ ap (λ bytes. decode_settings_loop bytes t4)
        (sym (append-nil (setting_bytes 0x05 s.max_frame)))
    ∙ read_entry 0x05 s.max_frame [] t4 t5 (omega arith) f.frame_word (ground arith)
    ∙ unfold decode_settings_loop in refl

payload_decoded :
    (s t : Settings)
    → IsSettings s
    → FitsWords s
    → decode_settings (payload_bytes s) t ≡ (none, record s { enable_push = t.enable_push })
unfolding decode_settings
payload_decoded s t v f = rw (length-payload_bytes s, entries_decoded s t v f)

announced :
    (buffer : List ℕ) (s : Settings) (buffer' : List ℕ) (n : ℕ)
    → encode_settings buffer s ≡ ok (buffer', n)
    → (39 ≤ length buffer)
      × (n ≡ 39)
      × (encode_frame (write_settings buffer s) 30 0x04 0x00 0 ≡ ok buffer')
unfolding encode_settings
announced buffer s buffer' n e = ground arith

-- For settings in their ranges and of 32 bits, whatever buffer `encode_settings_http2` accepts: the
-- buffer starts with a settings frame of the connection, of the size that is answered, which holds its
-- payload in full, and a peer that applies the payload to the settings of the specification has the
-- five announced values and the push flag of the specification.
pub decode_settings-encode_settings :
    (buffer : List ℕ) (s : Settings) (buffer' : List ℕ) (n : ℕ)
    → IsSettings s
    → FitsWords s
    → encode_settings buffer s ≡ ok (buffer', n)
    → (size : ℕ) × (payload : List ℕ) × (n ≡ frame_header_size + size)
      × (decode_frame buffer'
          ≡ ok (record {
            size = size;
            type = 0x04;
            flags = 0x00;
            stream_id = 0;
            payload = some payload;
          }))
      × (decode_settings (take size payload) create_settings
          ≡ (none, record s { enable_push = create_settings.enable_push }))
unfolding slice
decode_settings-encode_settings buffer s buffer' n v f e =
    let (room, size, framed) = announced buffer s buffer' n e in
    let written = write_settings buffer s in
    let bytes = payload_bytes s in
    let stored = write_settings-bytes buffer s f in
    let long : length written ≡ length buffer =
      ap length stored ∙ length-overwrite buffer 9 bytes in
    let (_, decoded, kept) = decode_frame-encode_frame written 30 0x04 0x00 0 buffer' framed in
    let fits = length-payload_bytes s in
    let holds : Holds (overwrite buffer 9 bytes) 9 bytes =
      Holds-overwrite buffer 9 bytes (omega arith) in
    let seen : take 30 (drop 9 (overwrite buffer 9 bytes)) ≡ bytes =
      ap (slice (overwrite buffer 9 bytes) 9) (sym fits) ∙ slice_of_Holds _ 9 bytes holds in
    (
      30,
      drop 9 buffer',
      omega (arith, size),
      decoded ∙ rw (le→ltb-false (length written) 39 (omega arith)),
      rw (kept, stored, seen) (payload_decoded s create_settings v f),
    )
