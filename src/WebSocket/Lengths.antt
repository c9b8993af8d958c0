-- ===== src/WebSocket/Lengths.antt =====
-- The lengths and the masks of src/viriatum/http/websocket.c, both ways.
use viriatum.Base.{
  ℕ, zero, suc, ◌+◌, ◌*◌, ◌/◌, ◌%◌, ◌^◌, ◌<◌, bit_and, bit_or, bit_xor-bit_xor, arith,
}
use viriatum.Base.{List, [], ◌∷◌, length, get_or, ◌≡◌, refl, sym, ap, ap₂, ◌∙◌, u8}
use viriatum.Base.{bit_and-low, bit_or-shl, pow-add}
use viriatum.WebSocket.{read_length, length_bytes, unmask}
use native.Mathlib.Nat.{div-div-eq-div-mul, div-le_self}

low_byte : (w : ℕ) → u8 (bit_and w 0xff) ≡ w % 256
low_byte w = omega (arith, bit_and-low 8 w)

pub length-length_bytes : (n size : ℕ) → length (length_bytes n size) ≡ n
unfolding length_bytes
length-length_bytes zero size = refl
length-length_bytes (suc n) size = ap suc (length-length_bytes n size)

next_byte : (n size : ℕ) → size / 2 ^ (suc n * 8) ≡ size / 2 ^ (n * 8) / 256
next_byte n size =
    ap (λ (k : ℕ). size / 2 ^ k) (omega arith)
    ∙ ap (λ (k : ℕ). size / k) (pow-add 8 (n * 8))
    ∙ sym (div-div-eq-div-mul size (2 ^ (n * 8)) (2 ^ 8))

append_byte : (w : ℕ) → w < 2 ^ 64 → bit_or ((w / 256 * 2 ^ 8) % 2 ^ 64) (w % 256) ≡ w
append_byte w lt =
    ap (λ x. bit_or x (w % 256)) (whole w lt)
    ∙ bit_or-shl 8 (w / 256) (w % 256) (omega arith)
    ∙ omega arith
  where
    whole : (w : ℕ) → w < 2 ^ 64 → (w / 256 * 2 ^ 8) % 2 ^ 64 ≡ w / 256 * 2 ^ 8
    whole w lt = omega arith

-- The bytes of a length read back, behind what is above them.
read_length-length_bytes :
    (n size : ℕ) → size < 2 ^ 64 → read_length (size / 2 ^ (n * 8)) (length_bytes n size) ≡ size
unfolding read_length length_bytes
read_length-length_bytes zero size lt = omega arith
read_length-length_bytes (suc n) size lt =
    let w = size / 2 ^ (n * 8) in
    let small : w < 2 ^ 64 = omega (arith, div-le_self size (2 ^ (n * 8))) in
    ap (λ x. read_length x (length_bytes n size))
      (ap₂ (λ (x y : ℕ). bit_or ((x * 2 ^ 8) % 2 ^ 64) y) (next_byte n size) (low_byte w)
        ∙ append_byte w small)
    ∙ read_length-length_bytes n size lt

pub read_whole : (size : ℕ) → size < 2 ^ 64 → read_length 0 (length_bytes 8 size) ≡ size
read_whole size lt =
    ap (λ x. read_length x (length_bytes 8 size)) (omega arith) ∙ read_length-length_bytes 8 size lt

-- A mask taken twice gives the bytes back, in any phase.
pub unmask-unmask :
    (mask : List ℕ) (index : ℕ) (bytes : List ℕ)
    → unmask mask index (unmask mask index bytes) ≡ bytes
unfolding unmask
unmask-unmask mask index [] = refl
unmask-unmask mask index (byte ∷ bytes) =
    ap₂ (λ (x : ℕ) (xs : List ℕ). x ∷ xs) (bit_xor-bit_xor byte (get_or mask (index % 4) 0))
      (unmask-unmask mask (index + 1) bytes)

pub length-unmask :
    (mask : List ℕ) (index : ℕ) (bytes : List ℕ) → length (unmask mask index bytes) ≡ length bytes
unfolding unmask
length-unmask mask index [] = refl
length-unmask mask index (byte ∷ bytes) = ap suc (length-unmask mask (index + 1) bytes)
