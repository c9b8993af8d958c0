-- ===== src/Hpack/Block/Progress.antt =====
-- The loop of `decode_hpack` of src/viriatum/http/hpack.c on any block: every representation moves
-- the offset, so that the loop ends.
use viriatum.Base.{ℕ, zero, suc, ◌+◌, ◌≤◌, ◌<◌, arith, List, length, get_or}
use viriatum.Base.{
  ◌≡◌, ◌≢◌, Option, refl, sym, ap, ◌∙◌, Bool, true, false, not, ◌&&◌, ltb, leb, ◌==◌, if◌then◌else◌,
  inl, inr, Bool-cases,
}
use viriatum.Base.{Result, ok, err, >>=-eq-ok, none, some}
use viriatum.Hpack.{
  Header, HpackError, size_update_after_field, name_above_size, max_name_size, max_value_size,
  max_header_list_size, header_list_above_size, callback_error,
}
use viriatum.Hpack.Integer.{decode_integer}
use viriatum.Hpack.Integer.Bounds.{decode_integer_takes}
use viriatum.Hpack.Strings.{decode_string}
use viriatum.Hpack.Strings.Bounds.{decode_string_takes, raised}
use viriatum.Hpack.Table.{Table, get, insert, resize, add_size}
use viriatum.Hpack.Block.{
  Decoded, Stop, failed, exhausted, decode_name, decode_literal, decode_indexed, is_indexed,
  is_update, decode_field, decode_update,
}
use viriatum.Hpack.Block.{
  field_size, hand_over, after_update, after_field, decode_loop, decode_block,
}

decode_name_takes :
    (t : Table) (block : List ℕ) (offset index : ℕ) (name : List ℕ) (end : ℕ)
    → decode_name t block offset index ≡ ok (name, end)
    → (offset ≤ end) × (length name ≤ max_name_size)
unfolding decode_name
decode_name_takes t block offset index name end e = elim (Bool-cases (index == 0)) [
  | inl none_given ↦
      let (low, _, fits) =
        decode_string_takes block offset max_name_size name end (rw none_given at e) in
      omega (arith, low, fits)
  | inr given ↦
      let (indexed, _, rest) = >>=-eq-ok (get t index) _ (rw given at e) in
      let (fits, last) = raised (ltb max_name_size (length indexed.name)) name_above_size _ rest in
      ground (arith, fits, last)
]

-- A literal representation moves the offset, and its strings fit the two buffers of the decoder.
decode_literal_takes :
    (t : Table) (block : List ℕ) (offset : ℕ) (indexing : Bool) (t' : Table) (h : Header) (end : ℕ)
    → decode_literal t block offset indexing ≡ ok (t', h, end)
    → (offset < end)
      × (end ≤ length block)
      × (length h.name ≤ max_name_size)
      × (length h.value ≤ max_value_size)
      × ((if indexing then insert t h else t) ≡ t')
unfolding decode_literal
decode_literal_takes t block offset indexing t' h end e =
    let prefix = if indexing then 6 else 4 in
    let ((p1, index), first, e1) = >>=-eq-ok (decode_integer block offset prefix) _ e in
    let ((name, p2), second, e2) = >>=-eq-ok (decode_name t block p1 index) _ e1 in
    let ((value, p3), third, last) = >>=-eq-ok (decode_string block p2 max_value_size) _ e2 in
    let (low, _, _, _) = decode_integer_takes block offset prefix p1 index (small indexing) first in
    let (low2, fits) = decode_name_takes t block p1 index name p2 second in
    let (low3, inside, fits3) = decode_string_takes block p2 max_value_size value p3 third in
    let field : Header = record { name = name; value = value } in
    let same : field ≡ h = cc in
    let moved : p3 ≡ end = cc in
    let table : (if indexing then insert t field else t) ≡ t' = cc in
    (
      omega (arith, low, low2, low3, moved),
      omega (arith, inside, moved),
      omega (arith, fits, ap (λ (x : Header). length x.name) same),
      omega (arith, fits3, ap (λ (x : Header). length x.value) same),
      ap (λ x. if indexing then insert t x else t) (sym same) ∙ table,
    )
  where
    small : (b : Bool) → (if b then 6 else 4) ≤ 8
    small true = omega arith
    small false = omega arith

decode_indexed_takes :
    (t : Table) (block : List ℕ) (offset : ℕ) (t' : Table) (h : Header) (end : ℕ)
    → decode_indexed t block offset ≡ ok (t', h, end)
    → (offset < end) × (end ≤ length block) × (t ≡ t') × ((index : ℕ) × (get t index ≡ ok h))
unfolding decode_indexed
decode_indexed_takes t block offset t' h end e =
    let ((p1, index), first, e1) = >>=-eq-ok (decode_integer block offset 7) _ e in
    let (field, found, last) = >>=-eq-ok (get t index) _ e1 in
    let (low, inside, _, _) = decode_integer_takes block offset 7 p1 index (omega arith) first in
    let same : field ≡ h = cc in
    let moved : p1 ≡ end = cc in
    (omega (arith, low, moved), omega (arith, inside, moved), cc, (index, found ∙ ap ok same))

pub decode_field_moves :
    (t : Table) (block : List ℕ) (offset : ℕ) (t' : Table) (h : Header) (end : ℕ)
    → decode_field t block offset ≡ ok (t', h, end)
    → (offset < end) × (end ≤ length block)
unfolding decode_field
decode_field_moves t block offset t' h end e =
    elim (Bool-cases (is_indexed (get_or block offset 0))) [
      | inl yes' ↦
          let (low, inside, _, _) = decode_indexed_takes t block offset t' h end (rw yes' at e) in
          (low, inside)
      | inr no' ↦
          let (low, inside, _, _, _) =
            decode_literal_takes t block offset _ t' h end (rw no' at e) in
          (low, inside)
    ]

pub decode_update_moves :
    (t : Table) (block : List ℕ) (offset : ℕ) (field : Bool) (t' : Table) (end : ℕ)
    → decode_update t block offset field ≡ ok (t', end)
    → (offset < end) × ((m : ℕ) × (resize t m ≡ ok t'))
unfolding decode_update
decode_update_moves t block offset field t' end e =
    let (_, e1) = raised field size_update_after_field _ e in
    let ((p1, m), first, e2) = >>=-eq-ok (decode_integer block offset 5) _ e1 in
    let (next, found, last) = >>=-eq-ok (resize t m) _ e2 in
    let (low, _, _, _) = decode_integer_takes block offset 5 p1 m (omega arith) first in
    let moved : p1 ≡ end = cc in
    let same : next ≡ t' = cc in (omega (arith, low, moved), (m, found ∙ ap ok same))

-- A decoding that ends of itself, and the same one with more rounds.
record Settled {P : Type 0} (r more : Decoded P) : Type 0 where
  ended : r.0 ≢ some exhausted
  same : more ≡ r

settle :
    {P : Type 0} (reason : Option Stop) (t : Table) (p : P)
    → reason ≢ some exhausted
    → Settled {P = P} (reason, t, p) (reason, t, p)
settle reason t p ended = record { ended = ended; same = refl }

failed_once : (e : HpackError) → some (failed e) ≢ some exhausted
failed_once e h = absurd (ground (arith, h))

module _ {P : Type 0} (callback : P → Header → ℕ × P) where
  after_update-Settled :
      (t : Table) (p : P) (next more : Table → ℕ → Decoded P) (r : Result HpackError (Table × ℕ))
      → ((t' : Table) (end : ℕ) → r ≡ ok (t', end) → Settled (next t' end) (more t' end))
      → Settled (after_update callback t p next r) (after_update callback t p more r)
  unfolding after_update
  after_update-Settled t p next more (err e) h = settle (some (failed e)) t p (failed_once e)
  after_update-Settled t p next more (ok (t', end)) h = h t' end refl

  hand_over-Settled :
      (t : Table) (h : Header) (size : ℕ) (p : P) (next more : P → Decoded P)
      → ((p' : P) → Settled (next p') (more p'))
      → Settled (hand_over callback t h size p next) (hand_over callback t h size p more)
  unfolding hand_over
  hand_over-Settled t h size p next more rest = elim (Bool-cases (ltb max_header_list_size size)) [
    | inl over ↦ rw over (settle (some (failed header_list_above_size)) t p (failed_once _))
    | inr fits ↦ elim (Bool-cases ((callback p h).0 == 0)) [
      | inl fine ↦ rw (fits, fine) (rest (callback p h).1)
      | inr refused ↦
          rw (fits, refused)
            (settle (some (failed (callback_error ((callback p h).0)))) t (callback p h).1
              (failed_once _))
    ]
  ]

  after_field-Settled :
      (t : Table) (size : ℕ) (p : P) (next more : Table → ℕ → ℕ → P → Decoded P)
      (r : Result HpackError (Table × Header × ℕ))
      → ((t' : Table) (h : Header) (end size' : ℕ) (p' : P)
          → r ≡ ok (t', h, end)
          → Settled (next t' end size' p') (more t' end size' p'))
      → Settled (after_field callback t size p next r) (after_field callback t size p more r)
  unfolding after_field
  after_field-Settled t size p next more (err e) rest = settle (some (failed e)) t p (failed_once e)
  after_field-Settled t size p next more (ok (t', h, end)) rest =
      let size' = add_size size (field_size h) in
      hand_over-Settled t' h size' p (next t' end size') (more t' end size')
        (λ p'. rest t' h end size' p' refl)

  decode_loop-Settled :
      (fuel : ℕ) (block : List ℕ) (t : Table) (offset size : ℕ) (field : Bool) (p : P)
      → length block ≤ offset + fuel
      → Settled
          (decode_loop callback fuel block t offset size field p)
          (decode_loop callback (suc fuel) block t offset size field p)
  unfolding decode_loop
  decode_loop-Settled zero block t offset size field p le =
      let done : leb (length block) offset ≡ true = ground arith in
      rw done (settle none t p (λ e. cc))
  decode_loop-Settled (suc fuel) block t offset size field p le =
      let update = not (is_indexed (get_or block offset 0)) && is_update (get_or block offset 0) in
      elim (Bool-cases (leb (length block) offset)) [
        | inl done ↦ rw done (settle none t p (λ e. cc))
        | inr left ↦ elim (Bool-cases update) [
          | inl updates ↦
              rw (left, updates)
                (after_update-Settled t p _ _ (decode_update t block offset field) (λ t' end e.
                  let (low, _) = decode_update_moves t block offset field t' end e in
                  decode_loop-Settled fuel block t' end size field p (omega arith)))
          | inr reads ↦
              rw (left, reads)
                (after_field-Settled t size p _ _ (decode_field t block offset)
                  (λ t' h end size' p' e.
                    let (low, _) = decode_field_moves t block offset t' h end e in
                    decode_loop-Settled fuel block t' end size' true p' (omega arith)))
        ]
      ]

  -- The loop over a block ends of itself within as many rounds as there are bytes, on any bytes and
  -- with any callback: it reaches the end of the block or an error, and with more rounds it has the
  -- same end, the same table and the same state.
  pub decode_loop_enough :
      (extra : ℕ) (block : List ℕ) (t : Table) (p : P)
      → ((decode_block callback t block p).0 ≢ some exhausted)
        × (decode_loop callback (extra + length block) block t 0 0 false p
            ≡ decode_block callback t block p)
  unfolding decode_block
  decode_loop_enough extra block t p =
      ((decode_loop-Settled (length block) block t 0 0 false p (omega arith)).ended, rounds extra)
    where
      rounds :
          (extra : ℕ)
          → decode_loop callback (extra + length block) block t 0 0 false p
            ≡ decode_loop callback (length block) block t 0 0 false p
      rounds zero =
          let none_more : 0 + length block ≡ length block = omega arith in
          ap (λ n. decode_loop callback n block t 0 0 false p) none_more
      rounds (suc extra) =
          let one_more : suc extra + length block ≡ suc (extra + length block) = omega arith in
          ap (λ n. decode_loop callback n block t 0 0 false p) one_more
          ∙ (decode_loop-Settled (extra + length block) block t 0 0 false p (omega arith)).same
          ∙ rounds extra
