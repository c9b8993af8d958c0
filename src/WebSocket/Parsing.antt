-- ===== src/WebSocket/Parsing.antt =====
-- `parse_frame_websocket` of src/viriatum/http/websocket.c over the frames of a client: the bytes that
-- `build_frame_websocket` writes, with the mask put in.
use viriatum.Base.{
  sym, ap₂, [], bit_xor, get_or, ℕ, suc, ◌+◌, ◌*◌, ◌/◌, ◌%◌, ◌≤◌, ◌<◌, bit_and, bit_or, arith,
}
use viriatum.Base.{List, ◌∷◌, ◌++◌, length, length-append, append_assoc, ◌≡◌, refl, ap, ◌∙◌, u8}
use viriatum.Base.{
  bit_and-low, bit_or-shl, bit_and-shl, Holds, Holds-append, Holds-length, Holds-middle,
  slice_of_Holds, slice, overwrite,
}
use viriatum.Base.{Bool, true, false, not, ◌==◌, if◌then◌else◌, ok}
use viriatum.WebSocket.{
  WebSocketFrame, no_frame, is_control, known_opcode, max_payload, max_control,
}
use viriatum.WebSocket.{check_control, unmask, parse_payload, parse_frame}
use viriatum.WebSocket.{size_bytes, build_frame}
use viriatum.WebSocket.Lengths.{unmask-unmask, length-unmask}
use viriatum.Base.{Bool-cases, inl, inr, le→ltb-false}
use viriatum.WebSocket.Headers.{masked_size, sized, LengthRead, header_length, flag_80}

-- The first byte as the server builds it.
abbrev pub built_first : ℕ → Bool → ℕ
built_first opcode fin = u8 (bit_or (if fin then 0x80 else 0x00) (bit_and opcode 0x0f))

unfoldable pub client_header : ℕ → Bool → ℕ → List ℕ
client_header opcode fin size = built_first opcode fin ∷ masked_size (size_bytes size)

-- The mask of a client, by its four bytes in turn: each is used and goes behind the other three.
unfoldable pub client_mask : ℕ → ℕ → ℕ → ℕ → List ℕ → List ℕ
client_mask k0 k1 k2 k3 [] = []
client_mask k0 k1 k2 k3 (byte ∷ bytes) = bit_xor byte k0 ∷ client_mask k1 k2 k3 k0 bytes

unfoldable pub masked : List ℕ → List ℕ → List ℕ
masked (k0 ∷ k1 ∷ k2 ∷ k3 ∷ []) payload = client_mask k0 k1 k2 k3 payload
masked mask payload = payload

unfoldable pub client_frame : ℕ → Bool → List ℕ → List ℕ → List ℕ
client_frame opcode fin mask payload =
    client_header opcode fin (length payload) ++ (mask ++ masked mask payload)

-- The phases of the mask, as the index that the server counts.
turns :
    (a b c d : ℕ) (bytes : List ℕ) (index : ℕ)
    → (index % 4 ≡ 0 → client_mask a b c d bytes ≡ unmask (a ∷ b ∷ c ∷ d ∷ []) index bytes)
      × (index % 4 ≡ 1 → client_mask b c d a bytes ≡ unmask (a ∷ b ∷ c ∷ d ∷ []) index bytes)
      × (index % 4 ≡ 2 → client_mask c d a b bytes ≡ unmask (a ∷ b ∷ c ∷ d ∷ []) index bytes)
      × (index % 4 ≡ 3 → client_mask d a b c bytes ≡ unmask (a ∷ b ∷ c ∷ d ∷ []) index bytes)
unfolding client_mask unmask
turns a b c d [] index = (λ e. refl, λ e. refl, λ e. refl, λ e. refl)
turns a b c d (byte ∷ bytes) index =
    let (t0, t1, t2, t3) = turns a b c d bytes (index + 1) in
    let key = a ∷ b ∷ c ∷ d ∷ [] in
    (
      λ e.
          ap₂ (λ n (r : List ℕ). bit_xor byte (get_or key n 0) ∷ r) (sym e) (t1 (omega (arith, e))),
      λ e.
          ap₂ (λ n (r : List ℕ). bit_xor byte (get_or key n 0) ∷ r) (sym e) (t2 (omega (arith, e))),
      λ e.
          ap₂ (λ n (r : List ℕ). bit_xor byte (get_or key n 0) ∷ r) (sym e) (t3 (omega (arith, e))),
      λ e.
          ap₂ (λ n (r : List ℕ). bit_xor byte (get_or key n 0) ∷ r) (sym e) (t0 (omega (arith, e))),
    )

masked-unmask :
    (mask payload : List ℕ) → length mask ≡ 4 → masked mask payload ≡ unmask mask 0 payload
unfolding masked
masked-unmask [] payload four = absurd (omega arith)
masked-unmask (a ∷ []) payload four = absurd (omega arith)
masked-unmask (a ∷ b ∷ []) payload four = absurd (omega arith)
masked-unmask (a ∷ b ∷ c ∷ []) payload four = absurd (omega arith)
masked-unmask (a ∷ b ∷ c ∷ d ∷ []) payload four = (turns a b c d payload 0).0 refl
masked-unmask (a ∷ b ∷ c ∷ d ∷ e ∷ mask) payload four = absurd (omega arith)

-- The same frame, with the payload under the mask as the server takes it off.
unfoldable coded_frame : ℕ → Bool → List ℕ → List ℕ → List ℕ
coded_frame opcode fin mask payload =
    client_header opcode fin (length payload) ++ (mask ++ unmask mask 0 payload)

same_frame :
    (opcode : ℕ) (fin : Bool) (mask payload : List ℕ)
    → length mask ≡ 4
    → client_frame opcode fin mask payload ≡ coded_frame opcode fin mask payload
unfolding client_frame coded_frame
same_frame opcode fin mask payload four = rw (masked-unmask mask payload four) refl

-- What a frame may be.
pub record IsFrame (opcode : ℕ) (fin : Bool) (size : ℕ) : Type 0 where
  pub known : known_opcode opcode ≡ true
  pub bounded : size ≤ max_payload
  pub control : is_control opcode ≡ true → (fin ≡ true) × (size ≤ max_control)

parse_payload-client :
    (buffer : List ℕ) (f : WebSocketFrame) (offset : ℕ) (mask payload : List ℕ)
    → length mask ≡ 4
    → length payload ≤ max_payload
    → check_control f (length payload) ≡ ok tt
    → Holds buffer offset (mask ++ unmask mask 0 payload)
    → parse_payload buffer f offset (length payload)
      ≡ ok (
        overwrite buffer (offset + 4) payload,
        record f { mask = mask; payload = payload; size = offset + 4 + length payload },
      )
unfolding parse_payload
parse_payload-client buffer f offset mask payload four small control holds =
    let coded = unmask mask 0 payload in
    let (front, back) = Holds-append buffer offset mask coded holds in
    let same_length = length-unmask mask 0 payload in
    let room =
      Holds-length buffer offset (mask ++ coded) holds
        (omega (arith, length-append mask coded, four)) in
    let read_mask : slice buffer offset 4 ≡ mask =
      rw (← four) (slice_of_Holds buffer offset mask front) in
    let read_payload : slice buffer (offset + 4) (length payload) ≡ coded =
      rw (← four, ← same_length) (slice_of_Holds buffer (offset + length mask) coded back) in
    rw (read_mask, read_payload, control, unmask-unmask mask 0 payload)
      (ground (arith, room, length-append mask coded, four, same_length))

-- What the first byte says.
record FirstByte (first opcode : ℕ) (fin : Bool) : Type 0 where
  fin_flag : not (bit_and first 0x80 == 0) ≡ fin
  low : bit_and first 0x0f ≡ opcode
  reserved : (bit_and first 0x70 == 0) ≡ true

reserved_70 : (b : ℕ) → bit_and b 0x70 ≡ b / 16 % 8 * 16
reserved_70 b = bit_and-shl 4 b 7 ∙ ap (λ n. n * 16) (bit_and-low 3 (b / 16))

built_first-FirstByte :
    (opcode : ℕ) (fin : Bool)
    → known_opcode opcode ≡ true
    → FirstByte (built_first opcode fin) opcode fin
built_first-FirstByte opcode true known =
    let small : opcode < 16 = ground arith in
    let form : built_first opcode true ≡ 128 + opcode =
      omega (arith, bit_and-low 4 opcode, bit_or-shl 7 1 (bit_and opcode 0x0f)) in
    rw form (record {
      fin_flag = ground (arith, flag_80 (128 + opcode));
      low = omega (arith, bit_and-low 4 (128 + opcode));
      reserved = ground (arith, reserved_70 (128 + opcode));
    })
built_first-FirstByte opcode false known =
    let small : opcode < 16 = ground arith in
    let form : built_first opcode false ≡ opcode =
      omega (arith, bit_and-low 4 opcode, bit_or-shl 7 0 (bit_and opcode 0x0f)) in
    rw form (record {
      fin_flag = ground (arith, flag_80 opcode);
      low = omega (arith, bit_and-low 4 opcode);
      reserved = ground (arith, reserved_70 opcode);
    })

abbrev pub header_of : ℕ → Bool → WebSocketFrame
header_of opcode fin = record no_frame { fin = fin; opcode = opcode; masked = true }

abbrev pub frame_of : ℕ → Bool → List ℕ → List ℕ → ℕ → WebSocketFrame
frame_of opcode fin mask payload size = record (header_of opcode fin) {
  mask = mask;
  payload = payload;
  size = size;
}

check-header_of :
    (opcode : ℕ) (fin : Bool) (size : ℕ)
    → IsFrame opcode fin size
    → check_control (header_of opcode fin) size ≡ ok tt
unfolding check_control
check-header_of opcode fin size f = elim (Bool-cases (is_control opcode)) [
  | inl yes' ↦ let (final, le) = f.control yes' in rw (yes', final) (ground (arith, le))
  | inr no' ↦ rw no' refl
]

parse_sized :
    (first opcode : ℕ) (fin : Bool) (size : ℕ) (rest : List ℕ)
    → FirstByte first opcode fin
    → known_opcode opcode ≡ true
    → LengthRead first size rest
    → let buffer = sized first size rest in
      parse_frame buffer
      ≡ parse_payload buffer
          (header_of opcode fin)
          (1 + length (masked_size (size_bytes size)))
          size
unfolding parse_frame
parse_sized first opcode fin size rest b known (read, masked, long) =
    rw (le→ltb-false _ _ long, b.fin_flag, b.low, b.reserved, known, masked, read) refl

built :
    (opcode : ℕ) (fin : Bool) (payload : List ℕ)
    → length payload ≤ max_payload
    → build_frame opcode fin payload
      ≡ ok (built_first opcode fin ∷ (size_bytes (length payload) ++ payload))
unfolding build_frame
built opcode fin payload le = rw (le→ltb-false _ _ le) refl

coded_sized :
    (opcode : ℕ) (fin : Bool) (mask payload rest : List ℕ)
    → coded_frame opcode fin mask payload ++ rest
      ≡ sized (built_first opcode fin) (length payload) ((mask ++ unmask mask 0 payload) ++ rest)
unfolding coded_frame client_header
coded_sized opcode fin mask payload rest =
    ap (λ xs. built_first opcode fin ∷ xs)
      (append_assoc (masked_size (size_bytes (length payload))) (mask ++ unmask mask 0 payload)
        rest)

parse_frame-coded_frame :
    (opcode : ℕ) (fin : Bool) (mask payload rest : List ℕ)
    → IsFrame opcode fin (length payload)
    → length mask ≡ 4
    → let frame = coded_frame opcode fin mask payload in
      (build_frame opcode fin payload
        ≡ ok (built_first opcode fin ∷ (size_bytes (length payload) ++ payload)))
      × (parse_frame (frame ++ rest)
          ≡ ok (
            overwrite
                (frame ++ rest)
                (length (client_header opcode fin (length payload)) + 4)
                payload,
            frame_of opcode fin mask payload (length frame),
          ))
parse_frame-coded_frame opcode fin mask payload rest f four =
    let coded = unmask mask 0 payload in
    let first = built_first opcode fin in
    let size = length payload in
    let behind = (mask ++ coded) ++ rest in
    let holds = Holds-middle (first ∷ masked_size (size_bytes size)) (mask ++ coded) rest in
    let total : length (coded_frame opcode fin mask payload)
        ≡ length (client_header opcode fin size) + 4 + size =
      omega (
        arith,
        coded_frame-length opcode fin mask payload,
        length-append mask coded,
        four,
        length-unmask mask 0 payload,
      ) in
    let offset : length (client_header opcode fin size)
        ≡ 1 + length (masked_size (size_bytes size)) =
      unfold client_header in omega arith in
    let place : suc (length (masked_size (size_bytes size)))
        ≡ 1 + length (masked_size (size_bytes size)) =
      omega arith in
    (
      built opcode fin payload f.bounded,
      rw (coded_sized opcode fin mask payload rest, total, offset)
          (parse_sized first opcode fin size behind (built_first-FirstByte opcode fin f.known)
              f.known (header_length first size behind f.bounded)
            ∙ parse_payload-client (sized first size behind) (header_of opcode fin)
                (1 + length (masked_size (size_bytes size))) mask payload four f.bounded
                (check-header_of opcode fin size f) (rw place at holds)),
    )
  where
    coded_frame-length :
        (opcode : ℕ) (fin : Bool) (mask payload : List ℕ)
        → length (coded_frame opcode fin mask payload)
          ≡ length (client_header opcode fin (length payload))
            + length (mask ++ unmask mask 0 payload)
    coded_frame-length opcode fin mask payload =
        unfold coded_frame in
        length-append (client_header opcode fin (length payload)) (mask ++ unmask mask 0 payload)

-- A frame that a client sends is parsed to what it has sent, whatever follows it in the buffer: the
-- first byte and the bytes of the size as `build_frame_websocket` writes them before the payload,
-- with the flag of the mask, then the mask and the payload under it. The frame is final or not, of a known operation code, with a
-- payload of at most 16777216 bytes, and a control frame is final with at most 125 of them; the size
-- that is reported is that of all its bytes, and the payload is unmasked in place.
pub parse_frame-client_frame :
    (opcode : ℕ) (fin : Bool) (mask payload rest : List ℕ)
    → IsFrame opcode fin (length payload)
    → length mask ≡ 4
    → let frame = client_frame opcode fin mask payload in
      (build_frame opcode fin payload
        ≡ ok (built_first opcode fin ∷ (size_bytes (length payload) ++ payload)))
      × (parse_frame (frame ++ rest)
          ≡ ok (
            overwrite
                (frame ++ rest)
                (length (client_header opcode fin (length payload)) + 4)
                payload,
            frame_of opcode fin mask payload (length frame),
          ))
parse_frame-client_frame opcode fin mask payload rest f four =
    rw (same_frame opcode fin mask payload four)
      (parse_frame-coded_frame opcode fin mask payload rest f four)
