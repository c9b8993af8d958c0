-- ===== src/Hpack/Block/Callback.antt =====
-- What every call of the callback keeps, the decoding of a block keeps: `decode_hpack` of
-- src/viriatum/http/hpack.c.
use viriatum.Base.{ℕ, zero, suc, List, length, ltb, leb, ◌==◌, ◌&&◌, not, get_or, Bool, true, false}
use viriatum.Base.{Bool-cases, Result, ok, err, inl, inr}
use viriatum.Hpack.{Header, HpackError, max_header_list_size}
use viriatum.Hpack.Table.{Table}
use viriatum.Hpack.Block.{
  Decoded, hand_over, after_update, after_field, decode_loop, decode_block, decode_update,
  decode_field, is_indexed, is_update, field_size,
}
use viriatum.Hpack.Table.{add_size}

module _ {P : Type 0} (callback : P → Header → ℕ × P) (I : P → Type 0)
    (step : (p : P) (h : Header) → I p → I (callback p h).1) where
  hand_over-keeps :
      (t : Table) (h : Header) (size : ℕ) (p : P) (next : P → Decoded P)
      → I p
      → ((q : P) → I q → I (next q).2)
      → I (hand_over callback t h size p next).2
  unfolding hand_over
  hand_over-keeps t h size p next i rest = elim (Bool-cases (ltb max_header_list_size size)) [
    | inl over ↦ rw over i
    | inr fits ↦ elim (Bool-cases ((callback p h).0 == 0)) [
      | inl fine ↦ rw (fits, fine) (rest (callback p h).1 (step p h i))
      | inr failed ↦ rw (fits, failed) (step p h i)
    ]
  ]

  after_update-keeps :
      (t : Table) (p : P) (next : Table → ℕ → Decoded P) (r : Result HpackError (Table × ℕ))
      → I p
      → ((t' : Table) (offset : ℕ) → I (next t' offset).2)
      → I (after_update callback t p next r).2
  unfolding after_update
  after_update-keeps t p next (err e) i rest = i
  after_update-keeps t p next (ok (t', offset)) i rest = rest t' offset

  after_field-keeps :
      (t : Table) (list_size : ℕ) (p : P) (next : Table → ℕ → ℕ → P → Decoded P)
      (r : Result HpackError (Table × Header × ℕ))
      → I p
      → ((t' : Table) (offset size : ℕ) (q : P) → I q → I (next t' offset size q).2)
      → I (after_field callback t list_size p next r).2
  unfolding after_field
  after_field-keeps t list_size p next (err e) i rest = i
  after_field-keeps t list_size p next (ok (t', h, offset)) i rest =
      let size = add_size list_size (field_size h) in
      hand_over-keeps t' h size p (next t' offset size) i (rest t' offset size)

  decode_loop-keeps :
      (fuel : ℕ) (block : List ℕ) (t : Table) (offset list_size : ℕ) (field : Bool) (p : P)
      → I p
      → I (decode_loop callback fuel block t offset list_size field p).2
  unfolding decode_loop
  decode_loop-keeps zero block t offset list_size field p i =
      elim (Bool-cases (leb (length block) offset)) [ inl done ↦ rw done i | inr more ↦ rw more i ]
  decode_loop-keeps (suc fuel) block t offset list_size field p i =
      let update = not (is_indexed (get_or block offset 0)) && is_update (get_or block offset 0) in
      elim (Bool-cases (leb (length block) offset)) [
        | inl done ↦ rw done i
        | inr more ↦ elim (Bool-cases update) [
          | inl updates ↦
              rw (more, updates)
                (after_update-keeps t p
                  (λ t' offset'. decode_loop callback fuel block t' offset' list_size field p)
                  (decode_update t block offset field) i
                  (λ t' offset'. decode_loop-keeps fuel block t' offset' list_size field p i))
          | inr reads ↦
              rw (more, reads)
                (after_field-keeps t list_size p
                  (λ t' offset' size q. decode_loop callback fuel block t' offset' size true q)
                  (decode_field t block offset) i
                  (λ t' offset' size q j. decode_loop-keeps fuel block t' offset' size true q j))
        ]
      ]

  pub decode_block-keeps :
      (t : Table) (block : List ℕ) (p : P) → I p → I (decode_block callback t block p).2
  unfolding decode_block
  decode_block-keeps t block p i = decode_loop-keeps (length block) block t 0 0 false p i
