-- ===== src/Hpack/Table/Window.antt =====
-- The slots of the ring of src/viriatum/http/hpack.c from the head backwards.
use viriatum.Base.{ℕ, zero, suc, ◌+◌, ◌-◌, ◌%◌, ◌≤◌, ◌<◌, arith, List, [], ◌∷◌, ◌++◌, length}
use viriatum.Base.{Option, none, some, get_or, get_elem?, set, get_or-set_ne, get_or-set_self}
use viriatum.Base.{◌≡◌, refl, ap, ap₂, ◌∙◌}
use viriatum.Hpack.Table.{Entry}

abbrev pub Slots : Type 0
Slots = List (Option Entry)

abbrev pub window : Slots → ℕ → ℕ → Slots
window slots h zero = []
window slots h (suc n) = get_or slots h none ∷ window slots ((h + 127) % 128) n

pub length-window : (slots : Slots) (h n : ℕ) → length (window slots h n) ≡ n
length-window slots h zero = refl
length-window slots h (suc n) = ap suc (length-window slots ((h + 127) % 128) n)

-- The oldest slot of a window stands at its end.
pub window-suc :
    (slots : Slots) (h n : ℕ)
    → h < 128
    → n < 128
    → window slots h (suc n) ≡ window slots h n ++ (get_or slots ((h + 128 - n) % 128) none ∷ [])
window-suc slots h zero hh hn = ap (λ k. get_or slots k none ∷ []) (omega arith)
window-suc slots h (suc n) hh hn =
    ap (λ t. get_or slots h none ∷ t)
      (window-suc slots ((h + 127) % 128) n (omega arith) (omega arith)
        ∙ ap (λ k. window slots ((h + 127) % 128) n ++ (get_or slots k none ∷ [])) (omega arith))

-- A store `d` slots ahead of the window leaves it alone.
pub window-set :
    (slots : Slots) (h n d p : ℕ) (v : Option Entry)
    → h < 128
    → 1 ≤ d
    → d + n ≤ 128
    → p ≡ (h + d) % 128
    → window (set slots p v) h n ≡ window slots h n
window-set slots h zero d p v hh hd hn e = refl
window-set slots h (suc n) d p v hh hd hn e =
    ap₂ ◌∷◌ (get_or-set_ne slots p h v none (omega arith)) (
      window-set slots ((h + 127) % 128) n (d + 1) p v (omega arith) (omega arith) (omega arith)
        (omega arith))

-- The head moves on by one slot, which takes the new entry.
pub window-set_head :
    (slots : Slots) (h n : ℕ) (v : Option Entry)
    → length slots ≡ 128
    → h < 128
    → n < 128
    → window (set slots ((h + 1) % 128) v) ((h + 1) % 128) (suc n) ≡ v ∷ window slots h n
window-set_head slots h n v len hh hn =
    ap₂ ◌∷◌ (get_or-set_self slots ((h + 1) % 128) v none (omega arith)) (
      ap (λ k. window (set slots ((h + 1) % 128) v) k n) (omega arith)
      ∙ window-set slots h n 1 ((h + 1) % 128) v hh (omega arith) (omega arith) (omega arith))

pub get_elem?-window :
    (slots : Slots) (h n i : ℕ)
    → h < 128
    → n ≤ 128
    → i < n
    → get_elem? (window slots h n) i ≡ some (get_or slots ((h + 128 - i) % 128) none)
get_elem?-window slots h zero i hh hn hi = absurd (omega arith)
get_elem?-window slots h (suc n) zero hh hn hi = ap (λ k. some (get_or slots k none)) (omega arith)
get_elem?-window slots h (suc n) (suc i) hh hn hi =
    get_elem?-window slots ((h + 127) % 128) n i (omega arith) (omega arith) (omega arith)
    ∙ ap (λ k. some (get_or slots k none)) (omega arith)
