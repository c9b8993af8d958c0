-- ===== src/Hpack/Huffman/Bounds.antt =====
-- `decode_huffman_hpack` of src/viriatum/http/hpack.c on any bytes: what it stores fits its buffer.
use viriatum.Base.{ℕ, zero, suc, ◌+◌, ◌-◌, ◌≤◌, ◌<◌, arith, List, [], ◌∷◌, ◌++◌, bit_and, bit_or}
use viriatum.Base.{
  length, length-append, get_or, All, IsByte, ◌≡◌, ap, u8, u32, ◌<<<◌, ◌>>>◌, ◌⊎◌, inl, inr,
}
use viriatum.Base.{
  Bool, true, false, ltb, leb, ◌==◌, ◌||◌, if◌then◌else◌, Result, ok, err, >>=-eq-ok,
}
use viriatum.Hpack.{HpackError, huffman_max_bits, invalid_huffman_code}
use viriatum.Hpack.Huffman.Codes.{symbols, counts, first_code, first_index}
use viriatum.Hpack.Huffman.{
  Decoding, store_symbol, decode_bit, decode_bits, decode_bytes, decode_huffman,
}
use viriatum.Hpack.Huffman.{end_decoding, start_decoding}

-- The bytes stored are within the buffer.
record Fits (size : ℕ) (d : Decoding) : Type 0 where
  few : length d.stored ≤ size
  bytes : All IsByte d.stored

All-snoc : (xs : List ℕ) (x : ℕ) → All IsByte xs → IsByte x → All IsByte (xs ++ x ∷ [])
All-snoc [] x a b = (b, tt)
All-snoc (y ∷ xs) x (a, others) b = (a, All-snoc xs x others b)

store_symbol-Fits :
    (size : ℕ) (d d' : Decoding) (symbol : ℕ)
    → Fits size d
    → store_symbol d size symbol ≡ ok d'
    → Fits size d'
unfolding store_symbol
store_symbol-Fits size d d' symbol f e =
    let longer = length-append d.stored (u8 symbol ∷ []) in
    let room : length d.stored < size = ground arith in
    let next : Decoding = record { stored = d.stored ++ u8 symbol ∷ []; code = 0; bits = 0 } in
    let same : next ≡ d' = ground arith in
    let fits : Fits size next = record {
      few = omega (arith, longer);
      bytes = All-snoc d.stored (u8 symbol) f.bytes (omega arith);
    } in
    rw same at fits

one_test :
    (a b c : Bool) (e : HpackError) (d target : Decoding) (store : Result HpackError Decoding)
    → (if a then err e else if b then ok d else if c then ok d else store) ≡ ok target
    → (d ≡ target) ⊎ (store ≡ ok target)
one_test true b c e d target store h = cc
one_test false true c e d target store h = inl cc
one_test false false true e d target store h = inl cc
one_test false false false e d target store h = inr h

decode_bit-Fits :
    (size : ℕ) (d d' : Decoding) (bit : ℕ)
    → Fits size d
    → decode_bit size d bit ≡ ok d'
    → Fits size d'
unfolding decode_bit
decode_bit-Fits size d d' bit f e =
    let next : Decoding = record {
      stored = d.stored;
      code = u32 (bit_or (d.code <<< 1) bit);
      bits = d.bits + 1;
    } in
    let fits : Fits size next = record { few = f.few; bytes = f.bytes } in
    let bits = d.bits + 1 in
    let first = get_or first_code bits 0 in
    let symbol = get_or symbols (get_or first_index bits 0 + (next.code - first)) 0 in
    elim (one_test (ltb huffman_max_bits bits) (get_or counts bits 0 == 0)
      (ltb next.code first || leb (get_or counts bits 0) (next.code - first)) invalid_huffman_code
      next d' (store_symbol next size symbol) e) [
        | inl same ↦ rw same at fits
        | inr stored ↦ store_symbol-Fits size next d' symbol fits stored
      ]

decode_bits-Fits :
    (size n : ℕ) (d d' : Decoding) (byte : ℕ)
    → Fits size d
    → decode_bits size n d byte ≡ ok d'
    → Fits size d'
unfolding decode_bits
decode_bits-Fits size zero d d' byte f e = let same : d ≡ d' = cc in rw same at f
decode_bits-Fits size (suc n) d d' byte f e =
    let (next, first, rest) = >>=-eq-ok (decode_bit size d (bit_and (byte >>> n) 0x01)) _ e in
    decode_bits-Fits size n next d' byte (decode_bit-Fits size d next _ f first) rest

decode_bytes-Fits :
    (size : ℕ) (d d' : Decoding) (bytes : List ℕ)
    → Fits size d
    → decode_bytes size d bytes ≡ ok d'
    → Fits size d'
unfolding decode_bytes
decode_bytes-Fits size d d' [] f e = let same : d ≡ d' = cc in rw same at f
decode_bytes-Fits size d d' (byte ∷ bytes) f e =
    let (next, first, rest) = >>=-eq-ok (decode_bits size 8 d byte) _ e in
    decode_bytes-Fits size next d' bytes (decode_bits-Fits size 8 d next byte f first) rest

-- Whatever bytes are decoded, a result has no more bytes than the buffer has room for, and each of
-- its items is a byte.
pub decode_huffman_fits :
    (coded : List ℕ) (size : ℕ) (string : List ℕ)
    → decode_huffman coded size ≡ ok string
    → (length string ≤ size) × All IsByte string
unfolding decode_huffman
decode_huffman_fits coded size string e =
    let (d, first, rest) = >>=-eq-ok (decode_bytes size start_decoding coded) _ e in
    let f =
      decode_bytes-Fits size start_decoding d coded (record { few = omega arith; bytes = tt })
        first in
    let same : d.stored ≡ string = ended d rest in
    (omega (arith, f.few, ap length same), rw same at f.bytes)
  where
    ended : (d : Decoding) → end_decoding d ≡ ok string → d.stored ≡ string
    ended d h = ground arith
