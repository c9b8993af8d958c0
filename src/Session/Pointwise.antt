-- ===== src/Session/Pointwise.antt =====
-- Tables of streams that differ stream by stream.
use viriatum.Base.{ℕ, zero, suc, List, [], ◌∷◌, length, modify, ◌≡◌, refl, ap}
use viriatum.Session.{Stream}

abbrev pub Pointwise : (Stream → Stream → Type 0) → List Stream → List Stream → Type 0
Pointwise R [] [] = Unit {0}
Pointwise R [] (st' ∷ streams') = ⊥
Pointwise R (st ∷ streams) [] = ⊥
Pointwise R (st ∷ streams) (st' ∷ streams') = R st st' × Pointwise R streams streams'

pub Pointwise-weaken :
    (R S : Stream → Stream → Type 0)
    → ((a b : Stream) → R a b → S a b)
    → (xs ys : List Stream) → Pointwise R xs ys
    → Pointwise S xs ys
Pointwise-weaken R S weaken [] [] h = tt
Pointwise-weaken R S weaken [] (y ∷ ys) h = absurd h
Pointwise-weaken R S weaken (x ∷ xs) [] h = absurd h
Pointwise-weaken R S weaken (x ∷ xs) (y ∷ ys) (h, hs) =
    (weaken x y h, Pointwise-weaken R S weaken xs ys hs)

pub length-Pointwise :
    (R : Stream → Stream → Type 0) (xs ys : List Stream) → Pointwise R xs ys → length ys ≡ length xs
length-Pointwise R [] [] h = refl
length-Pointwise R [] (y ∷ ys) h = absurd h
length-Pointwise R (x ∷ xs) [] h = absurd h
length-Pointwise R (x ∷ xs) (y ∷ ys) (h, hs) = ap suc (length-Pointwise R xs ys hs)

pub Pointwise-trans :
    (R : Stream → Stream → Type 0)
    → ((a b c : Stream) → R a b → R b c → R a c)
    → (xs ys zs : List Stream) → Pointwise R xs ys
    → Pointwise R ys zs
    → Pointwise R xs zs
Pointwise-trans R trans [] [] zs h k = k
Pointwise-trans R trans [] (y ∷ ys) zs h k = absurd h
Pointwise-trans R trans (x ∷ xs) [] zs h k = absurd h
Pointwise-trans R trans (x ∷ xs) (y ∷ ys) [] h k = absurd k
Pointwise-trans R trans (x ∷ xs) (y ∷ ys) (z ∷ zs) (h, hs) (k, ks) =
    (trans x y z h k, Pointwise-trans R trans xs ys zs hs ks)

module _ (R : Stream → Stream → Type 0) (same : (st : Stream) → R st st) where
  pub Pointwise-refl : (xs : List Stream) → Pointwise R xs xs
  Pointwise-refl [] = tt
  Pointwise-refl (x ∷ xs) = (same x, Pointwise-refl xs)

  pub Pointwise-modify :
      (xs : List Stream) (slot : ℕ) (f : Stream → Stream)
      → ((st : Stream) → R st (f st))
      → Pointwise R xs (modify xs slot f)
  Pointwise-modify [] slot f step = tt
  Pointwise-modify (x ∷ xs) zero f step = (step x, Pointwise-refl xs)
  Pointwise-modify (x ∷ xs) (suc slot) f step = (same x, Pointwise-modify xs slot f step)
