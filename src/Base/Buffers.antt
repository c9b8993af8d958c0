-- ===== src/Base/Buffers.antt =====
-- Byte buffers that the source writes at a moving position and reads back: `overwrite` is a run of
-- stores (or one `memcpy`), and `Holds data p bs` says that `data` has the bytes `bs` from `p` on.
use Prim.Native.Nat.{ℕ, zero, suc, ◌+◌, ◌-◌, ◌≤◌, ◌<◌}
use mathlib.Core.Path.{◌≡◌, refl, sym, ap, ◌∙◌}
use mathlib.Core.List.{List, [], ◌∷◌, ◌++◌}
use mathlib.Core.Option.{some}
use native.Mathlib.Nat.{add-zero}
use native.Mathlib.Numerals.{add-one}
use native.Mathlib.Omega.{arith}
use viriatum.Base.Bits.{IsByte}
use viriatum.Base.Lists.{All, get_or}
use viriatum.Base.Lists.{length, get_elem?, set, take, drop}
use viriatum.Base.Lists.{take-drop, drop-add, length-take, length-drop}
use viriatum.Base.Lists.{length-set, get_elem?-set_self, get_elem?-set_ne, get_elem?_lt}

past_one : (n m : ℕ) → n + 1 + m ≡ n + suc m
past_one n m = omega arith

module _ {ℓ} {A : Type ℓ} where
  unfoldable pub overwrite : List A → ℕ → List A → List A
  overwrite buffer p [] = buffer
  overwrite buffer p (b ∷ bs) = overwrite (set buffer p b) (p + 1) bs

  -- `n` items from position `p` on, the source of a `memcpy`.
  unfoldable pub slice : List A → ℕ → ℕ → List A
  slice xs p n = take n (drop p xs)

  abbrev pub Holds : List A → ℕ → List A → Type ℓ
  Holds xs p [] = Unit {ℓ}
  Holds xs p (b ∷ bs) = (get_elem? xs p ≡ some b) × Holds xs (p + 1) bs

  pub length-overwrite :
      (buffer : List A) (p : ℕ) (bs : List A) → length (overwrite buffer p bs) ≡ length buffer
  unfolding overwrite
  length-overwrite buffer p [] = refl
  length-overwrite buffer p (b ∷ bs) =
      length-overwrite (set buffer p b) (p + 1) bs ∙ length-set buffer p b

  pub overwrite-append :
      (buffer : List A) (p : ℕ) (bs cs : List A)
      → overwrite buffer p (bs ++ cs) ≡ overwrite (overwrite buffer p bs) (p + length bs) cs
  unfolding overwrite
  overwrite-append buffer p [] cs = ap (λ k. overwrite buffer k cs) (omega arith)
  overwrite-append buffer p (b ∷ bs) cs =
      overwrite-append (set buffer p b) (p + 1) bs cs
      ∙ ap (λ k. overwrite (overwrite (set buffer p b) (p + 1) bs) k cs) (omega arith)

  pub get_elem?-overwrite_below :
      (buffer : List A) (p i : ℕ) (bs : List A)
      → i < p
      → get_elem? (overwrite buffer p bs) i ≡ get_elem? buffer i
  unfolding overwrite
  get_elem?-overwrite_below buffer p i [] h = refl
  get_elem?-overwrite_below buffer p i (b ∷ bs) h =
      get_elem?-overwrite_below (set buffer p b) (p + 1) i bs (omega arith)
      ∙ get_elem?-set_ne buffer p i b (omega arith)

  pub get_elem?-overwrite_above :
      (buffer : List A) (p i : ℕ) (bs : List A)
      → p + length bs ≤ i
      → get_elem? (overwrite buffer p bs) i ≡ get_elem? buffer i
  unfolding overwrite
  get_elem?-overwrite_above buffer p i [] h = refl
  get_elem?-overwrite_above buffer p i (b ∷ bs) h =
      get_elem?-overwrite_above (set buffer p b) (p + 1) i bs (omega arith)
      ∙ get_elem?-set_ne buffer p i b (omega arith)

  pub Holds-overwrite :
      (buffer : List A) (p : ℕ) (bs : List A)
      → p + length bs ≤ length buffer
      → Holds (overwrite buffer p bs) p bs
  unfolding overwrite
  Holds-overwrite buffer p [] h = tt
  Holds-overwrite buffer p (b ∷ bs) h = (
    get_elem?-overwrite_below (set buffer p b) (p + 1) p bs (omega arith)
        ∙ get_elem?-set_self buffer p b (omega arith),
    Holds-overwrite (set buffer p b) (p + 1) bs (omega (arith, length-set buffer p b)),
  )

  pub Holds-∷ :
      (x : A) (xs : List A) (p : ℕ) (bs : List A) → Holds xs p bs → Holds (x ∷ xs) (p + 1) bs
  Holds-∷ x xs p [] h = tt
  Holds-∷ x xs p (b ∷ bs) (h, hs) =
      (ap (get_elem? (x ∷ xs)) (add-one p) ∙ h, Holds-∷ x xs (p + 1) bs hs)

  Holds-front : (xs ys : List A) → Holds (xs ++ ys) 0 xs
  Holds-front [] ys = tt
  Holds-front (x ∷ xs) ys = (refl, Holds-∷ x (xs ++ ys) 0 xs (Holds-front xs ys))

  pub Holds-middle : (front xs back : List A) → Holds (front ++ (xs ++ back)) (length front) xs
  Holds-middle [] xs back = Holds-front xs back
  Holds-middle (x ∷ front) xs back =
      rw (← add-one (length front))
        (Holds-∷ x (front ++ (xs ++ back)) (length front) xs (Holds-middle front xs back))

  -- A run of bytes survives a write past its end.
  pub Holds-overwrite_past :
      (buffer : List A) (p q : ℕ) (bs cs : List A)
      → Holds buffer q cs
      → q + length cs ≤ p
      → Holds (overwrite buffer p bs) q cs
  Holds-overwrite_past buffer p q bs [] h le = tt
  Holds-overwrite_past buffer p q bs (c ∷ cs) (h, hs) le = (
    get_elem?-overwrite_below buffer p q bs (omega arith) ∙ h,
    Holds-overwrite_past buffer p (q + 1) bs cs hs (omega arith),
  )

  pub Holds-append :
      (xs : List A) (p : ℕ) (bs cs : List A)
      → Holds xs p (bs ++ cs)
      → Holds xs p bs × Holds xs (p + length bs) cs
  Holds-append xs p [] cs h = (tt, rw add-zero h)
  Holds-append xs p (b ∷ bs) cs (h, hs) =
      let (front, back) = Holds-append xs (p + 1) bs cs hs in
      ((h, front), rw (← past_one p (length bs)) back)

  pub Holds-join :
      (xs : List A) (p : ℕ) (bs cs : List A)
      → Holds xs p bs
      → Holds xs (p + length bs) cs
      → Holds xs p (bs ++ cs)
  Holds-join xs p [] cs h t = rw add-zero at t
  Holds-join xs p (b ∷ bs) cs (h, hs) t =
      (h, Holds-join xs (p + 1) bs cs hs (rw (past_one p (length bs)) t))

  take-drop_cons :
      (xs : List A) (p n : ℕ) (b : A)
      → get_elem? xs p ≡ some b
      → take (suc n) (drop p xs) ≡ b ∷ take n (drop (suc p) xs)
  take-drop_cons [] p n b h = cc
  take-drop_cons (x ∷ xs) zero n b h = ground arith
  take-drop_cons (x ∷ xs) (suc p) n b h = take-drop_cons xs p n b h

  pub slice_of_Holds :
      (xs : List A) (p : ℕ) (bs : List A) → Holds xs p bs → slice xs p (length bs) ≡ bs
  unfolding slice
  slice_of_Holds xs p [] h = refl
  slice_of_Holds xs p (b ∷ bs) (h, hs) =
      take-drop_cons xs p (length bs) b h
      ∙ rw (← add-one p) (ap (λ t. b ∷ t) (slice_of_Holds xs (p + 1) bs hs))

  drop-get_elem? :
      (xs : List A) (p : ℕ) (b : A) → get_elem? xs p ≡ some b → drop p xs ≡ b ∷ drop (suc p) xs
  drop-get_elem? [] p b h = cc
  drop-get_elem? (x ∷ xs) zero b h = ground arith
  drop-get_elem? (x ∷ xs) (suc p) b h = drop-get_elem? xs p b h

  pub drop_of_Holds :
      (xs : List A) (p : ℕ) (bs : List A)
      → Holds xs p bs
      → drop p xs ≡ bs ++ drop (p + length bs) xs
  drop_of_Holds xs p [] h = rw add-zero
  drop_of_Holds xs p (b ∷ bs) (h, hs) =
      drop-get_elem? xs p b h
      ∙ ap (λ t. b ∷ t)
          (ap (λ n. drop n xs) (sym (add-one p))
            ∙ drop_of_Holds xs (p + 1) bs hs
            ∙ ap (λ n. bs ++ drop n xs) (past_one p (length bs)))

  pub Holds-length :
      (xs : List A) (p : ℕ) (bs : List A)
      → Holds xs p bs
      → 0 < length bs
      → p + length bs ≤ length xs
  Holds-length xs p [] h pos = absurd (omega arith)
  Holds-length xs p (b ∷ []) (h, hs) pos = omega (arith, get_elem?_lt xs p b h)
  Holds-length xs p (b ∷ c ∷ bs) (h, hs) pos =
      omega (arith, Holds-length xs (p + 1) (c ∷ bs) hs (omega arith))

  drop-set : (xs : List A) (n i : ℕ) (v : A) → i < n → drop n (set xs i v) ≡ drop n xs
  drop-set [] n i v h = refl
  drop-set (x ∷ xs) zero i v h = absurd (omega arith)
  drop-set (x ∷ xs) (suc n) zero v h = refl
  drop-set (x ∷ xs) (suc n) (suc i) v h = drop-set xs n i v (omega arith)

  -- What stands behind the bytes written stays.
  pub drop-overwrite :
      (buffer : List A) (p n : ℕ) (bs : List A)
      → p + length bs ≤ n
      → drop n (overwrite buffer p bs) ≡ drop n buffer
  unfolding overwrite
  drop-overwrite buffer p n [] h = refl
  drop-overwrite buffer p n (b ∷ bs) h =
      drop-overwrite (set buffer p b) (p + 1) n bs (omega arith)
      ∙ drop-set buffer n p b (omega arith)

-- Outside the array the read is guarded in the source; here it is 0.
pub get_or-IsByte : (bytes : List ℕ) (i : ℕ) → All IsByte bytes → get_or bytes i 0 < 256
get_or-IsByte [] i h = omega arith
get_or-IsByte (b ∷ bs) zero h = h.0
get_or-IsByte (b ∷ bs) (suc i) h = get_or-IsByte bs i h.1

module _ {ℓ} {A : Type ℓ} where
  pub drop-end : (xs : List A) (n : ℕ) → length xs ≤ n → drop n xs ≡ []
  drop-end [] zero h = refl
  drop-end [] (suc n) h = refl
  drop-end (x ∷ xs) zero h = absurd (omega arith)
  drop-end (x ∷ xs) (suc n) h = drop-end xs n (omega arith)

  pub slice-drop :
      (bytes : List A) (offset size : ℕ)
      → slice bytes offset size ++ drop (offset + size) bytes ≡ drop offset bytes
  unfolding slice
  slice-drop bytes offset size =
      rw (drop-add offset size bytes) (take-drop size (drop offset bytes))

  pub length-slice :
      (bytes : List A) (offset size : ℕ)
      → size ≤ length bytes - offset
      → length (slice bytes offset size) ≡ size
  unfolding slice
  length-slice bytes offset size h =
      length-take size (drop offset bytes) (omega (arith, length-drop offset bytes))
