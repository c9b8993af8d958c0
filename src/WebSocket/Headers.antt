-- ===== src/WebSocket/Headers.antt =====
-- The lengths in the header of a client's frame, as src/viriatum/http/websocket.c reads them.
use viriatum.Base.{ℕ, ◌+◌, ◌*◌, ◌/◌, ◌%◌, ◌^◌, ◌≤◌, ◌<◌, bit_and, arith}
use viriatum.Base.{List, [], ◌∷◌, ◌++◌, length, length-append, get_or, ◌≡◌, refl, ap, ◌∙◌, u8}
use viriatum.Base.{bit_and-low, bit_or-shl, bit_and-two_pow, Holds-middle, slice_of_Holds, slice}
use viriatum.Base.{true, not, ◌==◌, ok, some, dec_lt}
use viriatum.WebSocket.{max_payload}
use viriatum.WebSocket.{payload_length, short_length, long_length, minimal}
use viriatum.WebSocket.{length_bytes, size_bytes, read_length}
use viriatum.WebSocket.Lengths.{read_whole, length-length_bytes}

-- The flag of the mask over the bytes of the size.
unfoldable pub masked_size : List ℕ → List ℕ
masked_size [] = []
masked_size (second ∷ rest) = (0x80 + second) ∷ rest

-- The three lengths, over a buffer that goes on behind them.
abbrev pub sized : ℕ → ℕ → List ℕ → List ℕ
sized first size rest = first ∷ (masked_size (size_bytes size) ++ rest)

abbrev pub LengthRead : ℕ → ℕ → List ℕ → Type 0
LengthRead first size rest =
    (payload_length (sized first size rest) (bit_and (get_or (sized first size rest) 1 0) 0x7f)
      ≡ ok (some (1 + length (masked_size (size_bytes size)), size)))
    × (not (bit_and (get_or (sized first size rest) 1 0) 0x80 == 0) ≡ true)
    × (2 ≤ length (sized first size rest))

pub low_7f : (b : ℕ) → bit_and b 0x7f ≡ b % 128
low_7f b = bit_and-low 7 b

pub flag_80 : (b : ℕ) → bit_and b 0x80 ≡ b / 128 % 2 * 128
flag_80 b = bit_and-two_pow 7 b

base_form : (size : ℕ) → size ≤ 125 → size_bytes size ≡ size ∷ []
unfolding size_bytes
base_form size le = ground arith

base_length : (first size : ℕ) (rest : List ℕ) → size ≤ 125 → LengthRead first size rest
unfolding payload_length masked_size
base_length first size rest le =
    rw (base_form size le)
      (ground (arith, low_7f (0x80 + size)), ground (arith, flag_80 (0x80 + size)), omega arith)

two_form :
    (size : ℕ) → 125 < size → size ≤ 65535 → size_bytes size ≡ 126 ∷ size / 256 ∷ size % 256 ∷ []
unfolding size_bytes length_bytes
two_form size lt le =
    let high : u8 (bit_and (size / 2 ^ 8) 0xff) ≡ size / 256 =
      omega (arith, bit_and-low 8 (size / 2 ^ 8)) in
    let low : u8 (bit_and (size / 2 ^ 0) 0xff) ≡ size % 256 =
      omega (arith, bit_and-low 8 (size / 2 ^ 0)) in
    ground (arith, high, low)

two_read :
    (first x y : ℕ) (rest : List ℕ)
    → y < 256
    → 126 ≤ x * 256 + y
    → payload_length (first ∷ 254 ∷ x ∷ y ∷ rest) 126 ≡ ok (some (4, x * 256 + y))
unfolding payload_length short_length minimal
two_read first x y rest lt le = ground (arith, bit_or-shl 8 x y)

two_bytes :
    (first size : ℕ) (rest : List ℕ) → 125 < size → size ≤ 65535 → LengthRead first size rest
unfolding masked_size
two_bytes first size rest lt le = rw (two_form size lt le) (
  two_read first (size / 256) (size % 256) rest (omega arith) (omega arith)
      ∙ ap (λ n. ok (some (4, n))) (omega arith),
  refl,
  omega arith,
)

eight_form : (size : ℕ) → 65535 < size → size_bytes size ≡ 127 ∷ length_bytes 8 size
unfolding size_bytes
eight_form size lt = ground arith

eight_read :
    (first size : ℕ) (bytes rest : List ℕ)
    → length bytes ≡ 8
    → read_length 0 bytes ≡ size
    → 65536 ≤ size
    → payload_length (first ∷ 255 ∷ (bytes ++ rest)) 127 ≡ ok (some (10, size))
unfolding payload_length long_length minimal
eight_read first size bytes rest eight read le =
    let found : slice (first ∷ 255 ∷ (bytes ++ rest)) 2 8 ≡ bytes = rw (← eight) (
      slice_of_Holds (first ∷ 255 ∷ (bytes ++ rest)) 2 bytes
        (Holds-middle (first ∷ 255 ∷ []) bytes rest)) in
    rw (found, read) (ground (arith, length-append bytes rest))

eight_bytes :
    (first size : ℕ) (rest : List ℕ)
    → 65535 < size
    → size ≤ max_payload
    → LengthRead first size rest
unfolding masked_size
eight_bytes first size rest lt le =
    let eight = length-length_bytes 8 size in
    rw (eight_form size lt) (
      eight_read first size (length_bytes 8 size) rest eight (read_whole size (omega arith))
            (omega arith)
          ∙ ap (λ n. ok (some (n, size))) (omega (arith, eight)),
      refl,
      omega arith,
    )

pub header_length :
    (first size : ℕ) (rest : List ℕ) → size ≤ max_payload → LengthRead first size rest
header_length first size rest le = elim (dec_lt 65535 size) [
  | yes long ↦ eight_bytes first size rest long le
  | no not_long ↦ elim (dec_lt 125 size) [
    | yes short ↦ two_bytes first size rest short (omega arith)
    | no base ↦ base_length first size rest (omega arith)
  ]
]
