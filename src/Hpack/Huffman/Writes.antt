-- ===== src/Hpack/Huffman/Writes.antt =====
-- What a part of `encode_huffman_hpack` of src/viriatum/http/hpack.c writes: the bits of its bytes
-- and of the accumulator it leaves.
use viriatum.Base.{ℕ, zero, suc, ◌+◌, ◌-◌, ◌/◌, ◌^◌, ◌≤◌, ◌<◌, arith, List, [], ◌∷◌, ◌++◌}
use viriatum.Base.{length, length-append, length-set, append-nil, append_assoc, ◌≡◌, refl, ap}
use viriatum.Base.{◌∙◌, u8, Bool, true, false, leb, ◌||◌, if◌then◌else◌, dec_le}
use viriatum.Base.{Result, ok, err, ◌>>=◌, overwrite, set}
use viriatum.Base.{overwrite-append, length-overwrite}
use viriatum.Hpack.{HpackError, no_space_coded_string}
use viriatum.Hpack.Huffman.{Encoding, flush}
use viriatum.Hpack.Huffman.{store_byte}
use viriatum.Hpack.Huffman.BitStrings.{bits_of, bits_of_bytes}
use viriatum.Hpack.Huffman.BitStrings.{bits_of_bytes-append}
use viriatum.Hpack.Huffman.Pending.{top_byte}

unfoldable pub written : Encoding → List ℕ → ℕ → ℕ → Result HpackError Encoding
written e bytes accumulator count =
    if leb (e.position + length bytes) (length e.buffer) || leb (length bytes) 0
    then ok (record {
      buffer = overwrite e.buffer e.position bytes;
      position = e.position + length bytes;
      accumulator = accumulator;
      count = count;
    })
    else err no_space_coded_string

-- The bits `new` behind the pending ones are in the bytes written and in the accumulator.
pub record Writes (e : Encoding) (new : List ℕ) (r : Result HpackError Encoding) : Type 0 where
  pub bytes : List ℕ
  pub accumulator : ℕ
  pub count : ℕ
  pub few : count < 8
  pub stream :
      bits_of e.count e.accumulator ++ new ≡ bits_of_bytes bytes ++ bits_of count accumulator
  pub answer : r ≡ written e bytes accumulator count

written_nothing : (e : Encoding) → ok e ≡ written e [] e.accumulator e.count
unfolding written overwrite
written_nothing e =
    rw (or-true (leb (e.position + 0) (length e.buffer))) (ap (λ (p : ℕ). moved p) (omega arith))
  where
    moved : ℕ → Result HpackError Encoding
    moved p = ok (record e { position = p })

    or-true : (b : Bool) → (b || true) ≡ true
    or-true true = refl
    or-true false = refl

written-append :
    (e : Encoding) (xs ys : List ℕ) (acc count acc' count' : ℕ)
    (f : Encoding → Result HpackError Encoding)
    → let e' : Encoding = record {
      buffer = overwrite e.buffer e.position xs;
      position = e.position + length xs;
      accumulator = acc;
      count = count;
    } in
      f e' ≡ written e' ys acc' count'
      → (written e xs acc count >>= f) ≡ written e (xs ++ ys) acc' count'
unfolding written
written-append e xs ys acc count acc' count' f h = ground (
  arith,
  length-append xs ys,
  length-overwrite e.buffer e.position xs,
  overwrite-append e.buffer e.position xs ys,
)

pub Writes-nothing : (e : Encoding) → e.count < 8 → Writes e [] (ok e)
Writes-nothing e few = record {
  bytes = [];
  accumulator = e.accumulator;
  count = e.count;
  few = few;
  stream = unfold bits_of_bytes in append-nil (bits_of e.count e.accumulator);
  answer = written_nothing e;
}

pub Writes->>= :
    (e : Encoding) (xs ys : List ℕ) (r : Result HpackError Encoding)
    (f : Encoding → Result HpackError Encoding)
    → Writes e xs r
    → ((e' : Encoding) → e'.count < 8 → Writes e' ys (f e'))
    → Writes e (xs ++ ys) (r >>= f)
Writes->>= e xs ys r f w next =
    let e' : Encoding = record {
      buffer = overwrite e.buffer e.position w.bytes;
      position = e.position + length w.bytes;
      accumulator = w.accumulator;
      count = w.count;
    } in
    let w' = next e' w.few in
    record {
      bytes = w.bytes ++ w'.bytes;
      accumulator = w'.accumulator;
      count = w'.count;
      few = w'.few;
      stream = cc (
        w.stream,
        w'.stream,
        append_assoc (bits_of e.count e.accumulator) xs ys,
        append_assoc (bits_of_bytes w.bytes) (bits_of w.count w.accumulator) ys,
        append_assoc (bits_of_bytes w.bytes) (bits_of_bytes w'.bytes)
            (bits_of w'.count w'.accumulator),
        bits_of_bytes-append w.bytes w'.bytes,
      );
      answer =
          ap (λ m. m >>= f) w.answer
          ∙ written-append e w.bytes w'.bytes w.accumulator w.count w'.accumulator w'.count f
              w'.answer;
    }

-- A step that only moves bits into the accumulator.
pub Writes-pushed :
    (e e' : Encoding) (xs ys : List ℕ) (r : Result HpackError Encoding)
    → bits_of e'.count e'.accumulator ≡ bits_of e.count e.accumulator ++ xs
    → e'.buffer ≡ e.buffer
    → e'.position ≡ e.position
    → Writes e' ys r
    → Writes e (xs ++ ys) r
Writes-pushed e e' xs ys r bits buffer position w = record {
  bytes = w.bytes;
  accumulator = w.accumulator;
  count = w.count;
  few = w.few;
  stream = cc (w.stream, bits, append_assoc (bits_of e.count e.accumulator) xs ys);
  answer = w.answer ∙ unfold written in rw (buffer, position) refl;
}

flush_stop : (fuel : ℕ) (e : Encoding) → e.count < 8 → flush fuel e ≡ ok e
unfolding flush
flush_stop zero e few = refl
flush_stop (suc fuel) e few = ground arith

flushed_byte :
    (fuel : ℕ) (e : Encoding)
    → 8 ≤ e.count
    → flush (suc fuel) e ≡ (
        store_byte (record e { count = e.count - 8 }) (u8 (e.accumulator / 2 ^ (e.count - 8)))
        >>= flush fuel)
unfolding flush
flushed_byte fuel e more = ground arith

written-∷ :
    (e : Encoding) (byte : ℕ) (bytes : List ℕ) (acc count few : ℕ)
    (f : Encoding → Result HpackError Encoding)
    → f (record e { buffer = set e.buffer e.position byte; position = e.position + 1; count = few })
      ≡ written
          (record e {
            buffer = set e.buffer e.position byte;
            position = e.position + 1;
            count = few;
          })
          bytes
          acc
          count
    → (store_byte (record e { count = few }) byte >>= f) ≡ written e (byte ∷ bytes) acc count
unfolding written overwrite
written-∷ e byte bytes acc count few f h = ground (arith, length-set e.buffer e.position byte)

pub bits_of_bytes-∷ :
    (x : ℕ) (xs : List ℕ) → bits_of_bytes (x ∷ xs) ≡ bits_of 8 x ++ bits_of_bytes xs
bits_of_bytes-∷ x xs = unfold bits_of_bytes in refl

pub flush-Writes : (fuel : ℕ) (e : Encoding) → e.count ≤ fuel → Writes e [] (flush fuel e)
flush-Writes zero e le = rw (flush_stop zero e (omega arith)) (Writes-nothing e (omega arith))
flush-Writes (suc fuel) e le = elim (dec_le 8 e.count) [
  | no ge ↦ rw (flush_stop (suc fuel) e (omega arith)) (Writes-nothing e (omega arith))
  | yes more ↦
      let left = e.count - 8 in
      let byte = u8 (e.accumulator / 2 ^ left) in
      let e' : Encoding = record e {
        buffer = set e.buffer e.position byte;
        position = e.position + 1;
        count = left;
      } in
      let w = flush-Writes fuel e' (omega arith) in
      record {
        bytes = byte ∷ w.bytes;
        accumulator = w.accumulator;
        count = w.count;
        few = w.few;
        stream = cc (
          w.stream,
          top_byte e.count e.accumulator more,
          bits_of_bytes-∷ byte w.bytes,
          append_assoc (bits_of 8 byte) (bits_of left e.accumulator) [],
          append_assoc (bits_of 8 byte) (bits_of_bytes w.bytes) (bits_of w.count w.accumulator),
        );
        answer =
            flushed_byte fuel e more
            ∙ written-∷ e byte w.bytes w.accumulator w.count left (flush fuel) w.answer;
      }
]
