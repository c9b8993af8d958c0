-- ===== src/Hpack/Table/Spec.antt =====
-- The dynamic table of the specification that src/viriatum/http/hpack.c follows (RFC 7541, section 4):
-- the header fields from the newest to the oldest, each accounted with its overhead.
use viriatum.Base.{ℕ, ◌+◌, ◌*◌, ◌≤◌, ◌<◌, arith, List, [], ◌∷◌, ◌++◌, length, leb}
use viriatum.Base.{if◌then◌else◌, ◌≡◌, refl, ap, ◌⊎◌, inl, inr}
use viriatum.Hpack.{Header, entry_overhead}

abbrev pub header_size : Header → ℕ
header_size h = length h.name + length h.value + entry_overhead

abbrev pub total : List Header → ℕ
total [] = 0
total (h ∷ hs) = header_size h + total hs

-- The newest fields that fit `limit` beside `used`: eviction takes the oldest first.
unfoldable pub keep : ℕ → ℕ → List Header → List Header
keep limit used [] = []
keep limit used (h ∷ hs) =
    let rest = keep limit (used + header_size h) hs in
    if leb (used + header_size h) limit then h ∷ rest else []

-- A field larger than the table empties it and does not join it.
unfoldable pub add : ℕ → Header → List Header → List Header
add limit h hs = if leb (header_size h) limit then h ∷ keep limit (header_size h) hs else []

pub total-snoc : (hs : List Header) (h : Header) → total (hs ++ (h ∷ [])) ≡ total hs + header_size h
total-snoc [] h = omega arith
total-snoc (x ∷ hs) h = omega (arith, total-snoc hs h)

pub length-le-total : (hs : List Header) → entry_overhead * length hs ≤ total hs
length-le-total [] = omega arith
length-le-total (h ∷ hs) = omega (arith, length-le-total hs)

pub keep_all :
    (limit used : ℕ) (hs : List Header) → used + total hs ≤ limit → keep limit used hs ≡ hs
unfolding keep
keep_all limit used [] h = refl
keep_all limit used (x ∷ hs) h =
    ground (arith, keep_all limit (used + header_size x) hs (omega arith))

pub keep-snoc :
    (limit used : ℕ) (hs : List Header) (h : Header)
    → limit < used + total (hs ++ (h ∷ []))
    → keep limit used (hs ++ (h ∷ [])) ≡ keep limit used hs
unfolding keep
keep-snoc limit used [] h lt = ground arith
keep-snoc limit used (x ∷ hs) h lt =
    ground (arith, keep-snoc limit (used + header_size x) hs h (omega arith))

pub total-keep :
    (limit used : ℕ) (hs : List Header) → used ≤ limit → used + total (keep limit used hs) ≤ limit
unfolding keep
total-keep limit used [] h = omega arith
total-keep limit used (x ∷ hs) h = ground (arith, total-keep limit (used + header_size x) hs)

-- A list from its end.
pub snoc-cases :
    (hs : List Header)
    → (hs ≡ []) ⊎ ((front : List Header) × (last : Header) × (hs ≡ front ++ (last ∷ [])))
snoc-cases [] = inl refl
snoc-cases (h ∷ hs) = elim (snoc-cases hs) [
  | inl e ↦ inr ([], h, ap (λ t. h ∷ t) e)
  | inr (front, last, e) ↦ inr (h ∷ front, last, ap (λ t. h ∷ t) e)
]

pub keep-nil : (limit used : ℕ) (hs : List Header) → limit < used → keep limit used hs ≡ []
unfolding keep
keep-nil limit used [] h = refl
keep-nil limit used (x ∷ hs) h = ground arith

pub add_large :
    (limit : ℕ) (h : Header) (hs : List Header) → limit < header_size h → add limit h hs ≡ []
unfolding add
add_large limit h hs lt = ground arith

pub add_fits :
    (limit : ℕ) (h : Header) (hs : List Header)
    → header_size h ≤ limit
    → add limit h hs ≡ h ∷ keep limit (header_size h) hs
unfolding add
add_fits limit h hs le = ground arith
