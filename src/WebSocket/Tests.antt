-- ===== src/WebSocket/Tests.antt =====
-- Runs of src/viriatum/http/websocket.c, and its theorems at concrete inputs.
use viriatum.Base.{
  ℕ, ◌+◌, ◌≤◌, ◌<◌, arith, List, [], ◌∷◌, ◌++◌, true, false, length, ok, err, ◌≡◌, refl, overwrite,
  take, get_or, bit_and, ◌==◌,
}
use viriatum.WebSocket.{parse_frame, is_control, size_bytes, build_frame, no_frame}
use viriatum.WebSocket.{build_close, close_code, max_control, unmasked_frame}
use viriatum.WebSocket.Headers.{masked_size}
use viriatum.WebSocket.Parsing.{
  built_first, client_frame, masked, client_mask, client_header, IsFrame, frame_of,
  parse_frame-client_frame,
}
use viriatum.WebSocket.Closing.{build_close_lem, code_bytes}

-- "Hello" under a mask, the example of RFC 6455.
abbrev hello : List ℕ
hello = 72 ∷ 101 ∷ 108 ∷ 108 ∷ 111 ∷ []

abbrev key : List ℕ
key = 0x37 ∷ 0xfa ∷ 0x21 ∷ 0x3d ∷ []

masked_hello :
    client_frame 1 true key hello
    ≡ 0x81 ∷ 0x85 ∷ 0x37 ∷ 0xfa ∷ 0x21 ∷ 0x3d ∷ 0x7f ∷ 0x9f ∷ 0x4d ∷ 0x51 ∷ 0x58 ∷ []
unfolding client_frame masked client_mask client_header masked_size size_bytes
masked_hello = refl

incomplete : parse_frame (0x81 ∷ []) ≡ ok (0x81 ∷ [], no_frame)
unfolding parse_frame
incomplete = refl

unmasked : parse_frame (0x81 ∷ 0x05 ∷ hello) ≡ err unmasked_frame
unfolding parse_frame
unmasked = refl

hello-IsFrame : IsFrame 1 true 5
unfolding is_control
hello-IsFrame = record { known = refl; bounded = omega arith; control = λ c. (refl, omega arith) }

parse_frame-client_frame_example :
    let frame = client_frame 1 true key hello in
    (build_frame 1 true hello ≡ ok (built_first 1 true ∷ (size_bytes 5 ++ hello)))
    × (parse_frame (frame ++ 0x81 ∷ [])
        ≡ ok (
          overwrite (frame ++ 0x81 ∷ []) (length (client_header 1 true 5) + 4) hello,
          frame_of 1 true key hello (length frame),
        ))
parse_frame-client_frame_example =
    parse_frame-client_frame 1 true key hello (0x81 ∷ []) hello-IsFrame refl

build_close_lem_example :
    (payload : List ℕ) × (n : ℕ) × (build_close 1002 hello ≡ ok (0x88 ∷ length payload ∷ payload))
    × (length payload ≤ max_control)
    × (close_code payload ≡ 1002)
    × (payload ≡ code_bytes 1002 ++ take n hello)
    × (length hello ≤ 123 → n ≡ length hello)
    × (123 < length hello → 0 < n → (bit_and (get_or hello n 0) 0xc0 == 0x80) ≡ false)
build_close_lem_example = build_close_lem 1002 hello (omega arith)
