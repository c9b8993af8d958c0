-- ===== src/Hpack/Huffman/Decode.antt =====
-- `decode_huffman_hpack` of src/viriatum/http/hpack.c as a walk over a string of bits, and its
-- canonical tables against the codes of the symbols.
use viriatum.Base.{ℕ, zero, suc, ◌+◌, ◌-◌, ◌/◌, ◌%◌, ◌^◌, ◌≤◌, ◌<◌, arith, List, [], ◌∷◌, ◌++◌}
use viriatum.Base.{
  length, length-append, append-nil, append_assoc, replicate, get_or, IsByte, dec_lt, ◌≡◌, refl,
  sym, ap,
}
use viriatum.Base.{◌∙◌, u32, Bool, true, false, ltb, leb, ◌==◌, ◌||◌, ◌&&◌, if◌then◌else◌, All}
use viriatum.Base.{bit_or, bit_and-low, ◌<<<◌, Result, ok, err, ◌>>=◌, >>=-ext, >>=-assoc}
use viriatum.Hpack.{HpackError, decoded_string_above_size, huffman_max_bits}
use viriatum.Hpack.Huffman.{
  Decoding, store_symbol, decode_bit, decode_bits, decode_bytes, decode_huffman,
}
use viriatum.Hpack.Huffman.{end_decoding, start_decoding}
use viriatum.Hpack.Huffman.Codes.{codes, lengths, symbols, counts, first_code, first_index}
use viriatum.Hpack.Huffman.BitStrings.{bits_of, bits_of_bytes}

-- The decoder over bits.
unfoldable pub run : ℕ → Decoding → List ℕ → Result HpackError Decoding
run size d [] = ok d
run size d (bit ∷ bits) = decode_bit size d bit >>= λ d'. run size d' bits

pub run-append :
    (size : ℕ) (d : Decoding) (xs ys : List ℕ)
    → run size d (xs ++ ys) ≡ (run size d xs >>= λ d'. run size d' ys)
unfolding run
run-append size d [] ys = refl
run-append size d (x ∷ xs) ys =
    >>=-ext (decode_bit size d x) _ _ (λ d'. run-append size d' xs ys)
    ∙ sym (>>=-assoc (decode_bit size d x) _ _)

decode_bits-run :
    (size n : ℕ) (d : Decoding) (byte : ℕ) → decode_bits size n d byte ≡ run size d (bits_of n byte)
unfolding decode_bits run bits_of
decode_bits-run size zero d byte = refl
decode_bits-run size (suc n) d byte =
    rw (bit_and-low 1 (byte / 2 ^ n))
      (>>=-ext (decode_bit size d (byte / 2 ^ n % 2)) _ _ (λ d'. decode_bits-run size n d' byte))

decode_bytes-run :
    (size : ℕ) (d : Decoding) (bytes : List ℕ)
    → decode_bytes size d bytes ≡ run size d (bits_of_bytes bytes)
unfolding decode_bytes bits_of_bytes
decode_bytes-run size d [] = unfold run in refl
decode_bytes-run size d (byte ∷ rest) =
    rw (decode_bits-run size 8 d byte, run-append size d (bits_of 8 byte) (bits_of_bytes rest))
      (>>=-ext (run size d (bits_of 8 byte)) _ _ (λ d'. decode_bytes-run size d' rest))

-- The bits of a symbol, and those of a string.
unfoldable pub symbol_bits : ℕ → List ℕ
symbol_bits s = bits_of (get_or lengths s 0) (get_or codes s 0)

unfoldable pub string_bits : List ℕ → List ℕ
string_bits [] = []
string_bits (s ∷ rest) = symbol_bits s ++ string_bits rest

-- Whether the bits complete the code of `s` at their end and no code before.
reads : ℕ → ℕ → List ℕ → ℕ → Bool
reads code count [] s = false
reads code count (bit ∷ bits) s =
    let code' = u32 (bit_or (code <<< 1) bit) in
    let count' = count + 1 in
    let first = get_or first_code count' 0 in
    let later = reads code' count' bits s in
    if ltb huffman_max_bits count'
    then false
    else if get_or counts count' 0 == 0
    then later
    else if ltb code' first || leb (get_or counts count' 0) (code' - first)
    then later
    else get_or symbols (get_or first_index count' 0 + (code' - first)) 0 == s
      && leb (length bits) 0

stored : ℕ → List ℕ → ℕ → Result HpackError Decoding
stored size out s =
    if leb size (length out)
    then err decoded_string_above_size
    else ok (record { stored = out ++ s ∷ []; code = 0; bits = 0 })

lt→leb-false : (a b : ℕ) → b < a → leb a b ≡ false
lt→leb-false a b h = ground arith

-- The tests of one bit, `go` behind a bit that completes no code and `final` behind one that does.
one_bit :
    (a b c later hit : Bool) (e : HpackError) (d : Decoding)
    (store target : Result HpackError Decoding) (next : Decoding → Result HpackError Decoding)
    → (later ≡ true → next d ≡ target)
    → (hit ≡ true → (store >>= next) ≡ target)
    → (if a then false else if b then later else if c then later else hit) ≡ true
    → ((if a then err e else if b then ok d else if c then ok d else store) >>= next) ≡ target
one_bit true b c later hit e d store target next go final r = ground arith
one_bit false true c later hit e d store target next go final r = go r
one_bit false false true later hit e d store target next go final r = go r
one_bit false false false later hit e d store target next go final r = final r

last_bit :
    (size : ℕ) (out : List ℕ) (code count : ℕ) (bits : List ℕ) (symbol s : ℕ)
    → s < 256
    → (symbol == s && leb (length bits) 0) ≡ true
    → (store_symbol (record { stored = out; code = code; bits = count }) size symbol >>= λ d.
        run size d bits)
      ≡ stored size out s
unfolding run store_symbol stored
last_bit size out code count [] symbol s lt r = ground arith
last_bit size out code count (bit ∷ bits) symbol s lt r = ground arith

reads-run :
    (size : ℕ) (out : List ℕ) (code count : ℕ) (bits : List ℕ) (s : ℕ)
    → s < 256
    → reads code count bits s ≡ true
    → run size (record { stored = out; code = code; bits = count }) bits ≡ stored size out s
unfolding run reads decode_bit
reads-run size out code count [] s lt r = ground arith
reads-run size out code count (bit ∷ bits) s lt r =
    let code' = u32 (bit_or (code <<< 1) bit) in
    let count' = count + 1 in
    one_bit _ _ _ _ _ _ _ _ _ _ (reads-run size out code' count' bits s lt)
      (last_bit size out code' count' bits _ s lt) r

-- Every symbol of a byte is read at the end of its own code.
all_read : ℕ → Bool
all_read zero = true
all_read (suc n) = reads 0 0 (symbol_bits n) n && all_read n

all_read_256 : all_read 256 ≡ true
unfolding all_read reads symbol_bits bits_of
all_read_256 = refl

all_read-reads : (n s : ℕ) → all_read n ≡ true → s < n → reads 0 0 (symbol_bits s) s ≡ true
unfolding all_read
all_read-reads zero s h lt = absurd (omega arith)
all_read-reads (suc n) s h lt = elim (dec_lt s n) [
  | yes below ↦ all_read-reads n s (ground arith) below
  | no not_below ↦ let same : s ≡ n = omega arith in rw same (ground arith)
]

abbrev start : List ℕ → Decoding
start out = record { stored = out; code = 0; bits = 0 }

symbol_bits-run :
    (size : ℕ) (out : List ℕ) (s : ℕ)
    → s < 256
    → run size (start out) (symbol_bits s) ≡ stored size out s
symbol_bits-run size out s lt =
    reads-run size out 0 0 (symbol_bits s) s lt (all_read-reads 256 s all_read_256 lt)

fitting : ℕ → List ℕ → List ℕ → Result HpackError Decoding → Result HpackError Decoding
fitting size out plain m =
    if leb (length out + length plain) size then m else err decoded_string_above_size

-- The bits of a string and what follows them, as long as the string fits.
string_bits-run :
    (size : ℕ) (out plain bits : List ℕ)
    → All IsByte plain
    → length out ≤ size
    → run size (start out) (string_bits plain ++ bits)
      ≡ fitting size out plain (run size (start (out ++ plain)) bits)
unfolding string_bits fitting stored
string_bits-run size out [] bits b le = rw (append-nil out) (ground arith)
string_bits-run size out (s ∷ plain) bits (byte, b) le =
    ap (run size (start out)) (append_assoc (symbol_bits s) (string_bits plain) bits)
    ∙ run-append size (start out) (symbol_bits s) (string_bits plain ++ bits)
    ∙ ap (λ m. m >>= λ d. run size d (string_bits plain ++ bits)) (symbol_bits-run size out s byte)
    ∙ elim (dec_lt (length out) size) [
      | yes lt ↦
          let longer = length-append out (s ∷ []) in
          let rest = string_bits-run size (out ++ s ∷ []) plain bits b (omega (arith, longer)) in
          rw (lt→leb-false size (length out) lt)
            (rest ∙ rw (append_assoc out (s ∷ []) plain) (ground (arith, longer)))
      | no ge ↦ ground arith
    ]

-- Up to seven set bits complete no code.
padding-run :
    (size : ℕ) (out : List ℕ) (k : ℕ)
    → k < 8
    → run size (start out) (replicate k 1)
      ≡ ok (record { stored = out; code = 2 ^ k - 1; bits = k })
unfolding run decode_bit
padding-run size out zero lt = refl
padding-run size out (suc zero) lt = refl
padding-run size out (suc (suc zero)) lt = refl
padding-run size out (suc (suc (suc zero))) lt = refl
padding-run size out (suc (suc (suc (suc zero)))) lt = refl
padding-run size out (suc (suc (suc (suc (suc zero))))) lt = refl
padding-run size out (suc (suc (suc (suc (suc (suc zero)))))) lt = refl
padding-run size out (suc (suc (suc (suc (suc (suc (suc zero))))))) lt = refl
padding-run size out (suc (suc (suc (suc (suc (suc (suc (suc k)))))))) lt = absurd (omega arith)

-- The bits of a string and up to seven set bits behind them decode to the string, if the buffer
-- has the room for it.
pub decode_huffman-string_bits :
    (coded plain : List ℕ) (k size : ℕ)
    → All IsByte plain
    → k < 8
    → bits_of_bytes coded ≡ string_bits plain ++ replicate k 1
    → decode_huffman coded size
      ≡ (if leb (length plain) size then ok plain else err decoded_string_above_size)
unfolding decode_huffman fitting
decode_huffman-string_bits coded plain k size b lt e =
    ap (λ m. m >>= end_decoding)
      (decode_bytes-run size start_decoding coded
        ∙ ap (run size start_decoding) e
        ∙ string_bits-run size [] plain (replicate k 1) b (omega arith)
        ∙ ap (fitting size [] plain) (padding-run size plain k lt))
    ∙ ground arith
