-- ===== src/WebSocket.antt =====
-- The frames of WebSocket (src/viriatum/http/websocket.c and websocket.h). A buffer and its size are
-- one list, and so are a payload and its size. After an error the source's caller reads neither the
-- frame nor the buffer.

pub mod Lengths
pub mod Headers
pub mod Parsing
pub mod Closing
mod Tests
use viriatum.Base.{ℕ, zero, suc, ◌+◌, ◌-◌, ◌*◌, ◌/◌, ◌%◌, ◌^◌, bit_and, bit_or, bit_xor}
use viriatum.Base.{List, [], ◌∷◌, ◌++◌, length, get_or, take, overwrite, slice, ltb, leb, ◌==◌}
use viriatum.Base.{
  ◌&&◌, ◌||◌, not, Bool, true, false, Option, none, some, if◌then◌else◌, ◌<<<◌, ◌>>>◌, u8, u16,
}
use viriatum.Base.{Result, ok, err, ◌>>=◌, ◌>>◌, raise_if}

-- `VIRIATUM_WEBSOCKET_MAX_PAYLOAD` and `VIRIATUM_WEBSOCKET_MAX_CONTROL`
abbrev pub max_payload : ℕ
max_payload = 16777216

abbrev pub max_control : ℕ
max_control = 125

-- `WEBSOCKET_OPCODE_CLOSE` and `WEBSOCKET_CLOSE_NONE`
abbrev pub opcode_close : ℕ
opcode_close = 0x8

abbrev pub close_none : ℕ
close_none = 1005

-- The messages of the errors.
pub data WebSocketError : Type 0 where
  reserved_bits unknown_opcode unmasked_frame not_minimal payload_too_large : WebSocketError
  fragmented_control control_too_large : WebSocketError

-- `struct websocket_frame_t`; the size is 0 while the frame is incomplete.
pub record WebSocketFrame : Type 0 where
  pub fin : Bool
  pub opcode : ℕ
  pub masked : Bool
  pub mask : List ℕ
  pub payload : List ℕ
  pub size : ℕ

-- The frame after the `memset`.
abbrev pub no_frame : WebSocketFrame
no_frame = record {
  fin = false;
  opcode = 0;
  masked = false;
  mask = 0 ∷ 0 ∷ 0 ∷ 0 ∷ [];
  payload = [];
  size = 0;
}

unfoldable pub is_control : ℕ → Bool
is_control opcode = not (bit_and opcode 0x08 == 0)

-- The `switch` on the operation code.
abbrev pub known_opcode : ℕ → Bool
known_opcode opcode =
    opcode == 0x0
    || opcode == 0x1
    || opcode == 0x2
    || opcode == 0x8
    || opcode == 0x9
    || opcode == 0xa

-- `payload_size = (payload_size << 8) | buffer[offset + index]`
unfoldable pub read_length : ℕ → List ℕ → ℕ
read_length size [] = size
read_length size (byte ∷ bytes) = read_length (bit_or ((size <<< 8) % 2 ^ 64) byte) bytes

-- The lengths of two and of eight bytes must need them.
unfoldable pub minimal : ℕ → ℕ → ℕ → Result WebSocketError (Option (ℕ × ℕ))
minimal offset least size = if ltb size least then err not_minimal else ok (some (offset, size))

-- The extended lengths.
unfoldable pub short_length : List ℕ → Result WebSocketError (Option (ℕ × ℕ))
short_length buffer =
    if ltb (length buffer) 4
    then ok none
    else minimal 4 126 (bit_or (get_or buffer 2 0 <<< 8) (get_or buffer 3 0))

unfoldable pub long_length : List ℕ → Result WebSocketError (Option (ℕ × ℕ))
long_length buffer =
    if ltb (length buffer) 10 then ok none else minimal 10 65536 (read_length 0 (slice buffer 2 8))

-- The offset behind the length and the size of the payload, or `none` when the length is incomplete.
unfoldable pub payload_length : List ℕ → ℕ → Result WebSocketError (Option (ℕ × ℕ))
payload_length buffer base =
    if base == 126
    then short_length buffer
    else if base == 127
    then long_length buffer
    else ok (some (2, base))

-- A control frame is not fragmented and its payload fits the base length.
unfoldable pub check_control : WebSocketFrame → ℕ → Result WebSocketError (Unit {0})
check_control f size = if not (is_control f.opcode) then ok tt else do
  raise_if (not f.fin) fragmented_control
  raise_if (ltb max_control size) control_too_large

-- `buffer[offset + index] ^= mask[index % 4]`, on the bytes of the payload.
unfoldable pub unmask : List ℕ → ℕ → List ℕ → List ℕ
unmask mask index [] = []
unmask mask index (byte ∷ bytes) =
    bit_xor byte (get_or mask (index % 4) 0) ∷ unmask mask (index + 1) bytes

-- The mask and the payload, from the offset behind the length on.
unfoldable pub parse_payload :
    List ℕ → WebSocketFrame → ℕ → ℕ → Result WebSocketError (List ℕ × WebSocketFrame)
parse_payload buffer f offset size = do
  raise_if (ltb max_payload size) payload_too_large
  check_control f size
  let mask = slice buffer offset 4
  let payload = unmask mask 0 (slice buffer (offset + 4) size)
  if ltb (length buffer) (offset + 4)
      then ok (buffer, f)
      else if ltb (length buffer) (offset + 4 + size)
      then ok (buffer, record f { mask = mask })
      else ok (
        overwrite buffer (offset + 4) payload,
        record f { mask = mask; payload = payload; size = offset + 4 + size },
      )

abbrev parse_rest :
    List ℕ → WebSocketFrame → Option (ℕ × ℕ) → Result WebSocketError (List ℕ × WebSocketFrame)
parse_rest buffer f none = ok (buffer, f)
parse_rest buffer f (some (offset, size)) = parse_payload buffer f offset size

-- The buffer, unmasked in place, and the frame.
unfoldable pub parse_frame : List ℕ → Result WebSocketError (List ℕ × WebSocketFrame)
parse_frame buffer =
    let first = get_or buffer 0 0 in
    let second = get_or buffer 1 0 in
    let f : WebSocketFrame = record no_frame {
      fin = not (bit_and first 0x80 == 0);
      opcode = bit_and first 0x0f;
      masked = not (bit_and second 0x80 == 0);
    } in
    if ltb (length buffer) 2 then ok (buffer, no_frame) else do
      raise_if (not (bit_and first 0x70 == 0)) reserved_bits
      raise_if (not (known_opcode f.opcode)) unknown_opcode
      raise_if (not f.masked) unmasked_frame
      found ← payload_length buffer (bit_and second 0x7f)
      parse_rest buffer f found

-- `(unsigned char) (size >> (n * 8) & 0xff)` for each of the `n` bytes, the highest first.
unfoldable pub length_bytes : ℕ → ℕ → List ℕ
length_bytes zero size = []
length_bytes (suc n) size = u8 (bit_and (size >>> (n * 8)) 0xff) ∷ length_bytes n size

-- The second byte of the header and the extended length.
unfoldable pub size_bytes : ℕ → List ℕ
size_bytes size =
    if ltb 65535 size
    then 127 ∷ length_bytes 8 size
    else if ltb 125 size
    then 126 ∷ length_bytes 2 size
    else u8 size ∷ []

unfoldable pub build_frame : ℕ → Bool → List ℕ → Result WebSocketError (List ℕ)
build_frame opcode fin payload = do
  raise_if (ltb max_payload (length payload)) payload_too_large
  let first = u8 (bit_or (if fin then 0x80 else 0x00) (bit_and opcode 0x0f))
  ok (first ∷ size_bytes (length payload) ++ payload)

-- `while(reason_size > 0 && (reason[reason_size] & 0xc0) == 0x80) { reason_size--; }`
unfoldable pub walk_back : List ℕ → ℕ → ℕ
walk_back reason zero = zero
walk_back reason (suc n) =
    let rest = walk_back reason n in
    if bit_and (get_or reason (suc n) 0) 0xc0 == 0x80 then rest else suc n

unfoldable pub build_close : ℕ → List ℕ → Result WebSocketError (List ℕ)
build_close code reason =
    let size =
      if ltb (max_control - 2) (length reason)
      then walk_back reason (max_control - 2)
      else length reason in
    let payload = u8 (bit_and (code >>> 8) 0xff) ∷ u8 (bit_and code 0xff) ∷ take size reason in
    build_frame opcode_close true payload

-- A payload that is a null pointer is one without bytes here.
unfoldable pub close_code : List ℕ → ℕ
close_code (first ∷ second ∷ rest) = u16 (bit_or (first <<< 8) second)
close_code payload = close_none
