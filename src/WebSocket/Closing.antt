-- ===== src/WebSocket/Closing.antt =====
-- `build_close_websocket` and `close_code_websocket` of src/viriatum/http/websocket.c.
use viriatum.Base.{ℕ, zero, suc, ◌-◌, ◌/◌, ◌%◌, ◌^◌, ◌≤◌, ◌<◌, bit_and, arith, List, [], ◌∷◌, ◌++◌}
use viriatum.Base.{
  length, length-take, take, ◌≡◌, refl, u8, ◌>>>◌, ok, if◌then◌else◌, ltb, true, false, get_or,
  ◌==◌,
}
use viriatum.Base.{bit_and-low, bit_or-shl, Bool-cases, inl, inr, lt→ltb}
use viriatum.WebSocket.{
  walk_back, build_close, build_frame, size_bytes, close_code, max_control, opcode_close,
}

walk_back_le : (reason : List ℕ) (n : ℕ) → walk_back reason n ≤ n
unfolding walk_back
walk_back_le reason zero = omega arith
walk_back_le reason (suc n) = ground (arith, walk_back_le reason n)

-- The walk ends in front of a byte that starts a code point.
walk_back_start :
    (reason : List ℕ) (n : ℕ)
    → 0 < walk_back reason n
    → (bit_and (get_or reason (walk_back reason n) 0) 0xc0 == 0x80) ≡ false
unfolding walk_back
walk_back_start reason zero pos = absurd (omega arith)
walk_back_start reason (suc n) pos =
    elim (Bool-cases (bit_and (get_or reason (suc n) 0) 0xc0 == 0x80)) [
      | inl inner ↦ rw inner (walk_back_start reason n (rw inner at pos))
      | inr start ↦ rw start start
    ]

-- The size of the reason that is kept.
kept_size : List ℕ → ℕ
kept_size reason =
    if ltb (max_control - 2) (length reason)
    then walk_back reason (max_control - 2)
    else length reason

kept_size_le : (reason : List ℕ) → (kept_size reason ≤ 123) × (kept_size reason ≤ length reason)
unfolding kept_size
kept_size_le reason = ground (arith, walk_back_le reason 123)

kept_start :
    (reason : List ℕ)
    → 123 < length reason
    → 0 < kept_size reason
    → (bit_and (get_or reason (kept_size reason) 0) 0xc0 == 0x80) ≡ false
unfolding kept_size
kept_start reason lt pos =
    let long = lt→ltb 123 (length reason) lt in
    rw long (walk_back_start reason 123 (rw long at pos))

close_frame :
    (payload : List ℕ)
    → length payload ≤ 125
    → build_frame opcode_close true payload ≡ ok (0x88 ∷ length payload ∷ payload)
unfolding build_frame size_bytes
close_frame payload le = ground arith

-- The bytes of the payload before the reason.
unfoldable pub code_bytes : ℕ → List ℕ
code_bytes code = u8 (bit_and (code >>> 8) 0xff) ∷ u8 (bit_and code 0xff) ∷ []

close_code-code_bytes :
    (code : ℕ) (rest : List ℕ) → code < 2 ^ 16 → close_code (code_bytes code ++ rest) ≡ code
unfolding close_code code_bytes
close_code-code_bytes code rest lt =
    let high : u8 (bit_and (code / 2 ^ 8) 0xff) ≡ code / 256 =
      omega (arith, bit_and-low 8 (code / 2 ^ 8)) in
    let low : u8 (bit_and code 0xff) ≡ code % 256 = omega (arith, bit_and-low 8 code) in
    rw (high, low) (omega (arith, bit_or-shl 8 (code / 256) (code % 256)))

-- A close frame is always built: it is a final control frame whose payload starts with the code,
-- which `close_code_websocket` reads from it, and goes on with a prefix of the reason. The payload
-- has at most 125 bytes, all of the reason is kept if it has at most 123, and a longer one is cut in
-- front of a byte that continues no code point of UTF-8, or away as a whole.
pub build_close_lem :
    (code : ℕ) (reason : List ℕ)
    → code < 2 ^ 16
    → (payload : List ℕ) × (n : ℕ) × (build_close code reason
        ≡ ok (0x88 ∷ length payload ∷ payload))
      × (length payload ≤ max_control)
      × (close_code payload ≡ code)
      × (payload ≡ code_bytes code ++ take n reason)
      × (length reason ≤ 123 → n ≡ length reason)
      × (123 < length reason → 0 < n → (bit_and (get_or reason n 0) 0xc0 == 0x80) ≡ false)
unfolding build_close
build_close_lem code reason lt =
    let n = kept_size reason in
    let payload = code_bytes code ++ take n reason in
    let (few, inside) = kept_size_le reason in
    let long = length-take n reason inside in
    let size : length payload ≤ 125 = unfold code_bytes in omega (arith, long) in
    (
      payload,
      n,
      unfold code_bytes kept_size in close_frame payload size,
      size,
      close_code-code_bytes code (take n reason) lt,
      refl,
      λ le. unfold kept_size in ground arith,
      kept_start reason,
    )
