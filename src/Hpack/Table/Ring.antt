-- ===== src/Hpack/Table/Ring.antt =====
-- The ring of src/viriatum/http/hpack.c holds a list of header fields, the newest first.
use viriatum.Base.{suc, ◌+◌, ◌-◌, ◌%◌, ◌≤◌, ◌<◌, arith, List, [], ◌∷◌, ◌++◌, length}
use viriatum.Base.{none, some, ◌≡◌, refl, sym, ap, ◌∙◌, set, length-set, length-append, get_or}
use viriatum.Hpack.{Header, table_size}
use viriatum.Hpack.Table.{Table, entry_of, sub_size, position, evict}
use viriatum.Hpack.Table.Spec.{header_size, total, total-snoc, length-le-total}
use viriatum.Hpack.Table.Window.{Slots, window, length-window, window-suc, window-set}

abbrev pub slots : List Header → Slots
slots [] = []
slots (h ∷ hs) = some (entry_of h) ∷ slots hs

pub length-slots : (hs : List Header) → length (slots hs) ≡ length hs
length-slots [] = refl
length-slots (h ∷ hs) = ap suc (length-slots hs)

pub record Repr (t : Table) (hs : List Header) : Type 0 where
  pub ring : length t.entries ≡ 128
  pub head_in : t.head < 128
  pub holds : window t.entries t.head t.count ≡ slots hs
  pub sized : t.size ≡ total hs
  pub room : total hs ≤ table_size
  pub limit : t.max_size ≤ table_size

pub Repr-count : {t : Table} {hs : List Header} → Repr t hs → t.count ≡ length hs
Repr-count {t} {hs} r =
    sym (length-window t.entries t.head t.count) ∙ ap length r.holds ∙ length-slots hs

slots-snoc :
    (hs : List Header) (h : Header) → slots (hs ++ (h ∷ [])) ≡ slots hs ++ (some (entry_of h) ∷ [])
slots-snoc [] h = refl
slots-snoc (x ∷ hs) h = ap (λ t. some (entry_of x) ∷ t) (slots-snoc hs h)

-- Two lists with a last item agree in front of it and in it.
snoc-injective {ℓ} :
    {A : Type ℓ} (xs ys : List A) (x y : A) → xs ++ (x ∷ []) ≡ ys ++ (y ∷ []) → (xs ≡ ys) × (x ≡ y)
snoc-injective [] [] x y e = (refl, cc)
snoc-injective [] (b ∷ []) x y e = cc
snoc-injective [] (b ∷ c ∷ ys) x y e = cc
snoc-injective (a ∷ []) [] x y e = cc
snoc-injective (a ∷ c ∷ xs) [] x y e = cc
snoc-injective (a ∷ xs) (b ∷ ys) x y e =
    let (front, last) = snoc-injective xs ys x y (cc) in (cc, last)

-- Before an eviction: the number of entries, the slot of the oldest one, and what it holds.
record Oldest (t : Table) (hs : List Header) (h : Header) : Type 0 where
  more : t.count ≡ suc (length hs)
  few : length hs < 128
  place : position t (sub_size t.count 1) ≡ (t.head + 128 - length hs) % 128
  front : window t.entries t.head (length hs) ≡ slots hs
  last : get_or t.entries (position t (sub_size t.count 1)) none ≡ some (entry_of h)
  accounted : (entry_of h).size ≡ header_size h

oldest : (t : Table) (hs : List Header) (h : Header) → Repr t (hs ++ (h ∷ [])) → Oldest t hs h
oldest t hs h r =
    let n = length hs in
    let more : t.count ≡ suc n = Repr-count r ∙ omega (arith, length-append hs (h ∷ [])) in
    let few : n < 128 =
      omega (arith, length-le-total (hs ++ (h ∷ [])), length-append {0} hs (h ∷ [])) in
    let place : position t (sub_size t.count 1) ≡ (t.head + 128 - n) % 128 = omega arith in
    let (front, last) = snoc-injective (window t.entries t.head n) (slots hs) _ _ (
      sym (window-suc t.entries t.head n r.head_in few)
      ∙ ap (window t.entries t.head) (sym more)
      ∙ r.holds
      ∙ slots-snoc hs h) in
    record {
      more = more;
      few = few;
      place = place;
      front = front;
      last = ap (λ k. get_or t.entries k none) place ∙ last;
      accounted = omega (arith, total-snoc hs h);
    }

-- An eviction takes the oldest entry.
pub evict-Repr :
    (t : Table) (hs : List Header) (h : Header)
    → Repr t (hs ++ (h ∷ []))
    → Repr (evict t) hs × ((evict t).max_size ≡ t.max_size) × (t.count ≡ suc (evict t).count)
unfolding evict
evict-Repr t hs h r =
    let o = oldest t hs h r in
    let p = position t (sub_size t.count 1) in
    let counted : sub_size t.count 1 ≡ length hs = omega (arith, o.more, o.few) in
    (
      record {
        ring = length-set t.entries p none ∙ r.ring;
        head_in = r.head_in;
        holds =
            ap (window (set t.entries p none) t.head) counted
            ∙ window-set t.entries t.head (length hs) (128 - length hs) p none r.head_in
                (omega (arith, o.few)) (omega (arith, o.few)) (o.place ∙ omega (arith, o.few))
            ∙ o.front;
        sized = rw o.last (omega (arith, o.accounted, r.sized, r.room, total-snoc hs h));
        room = omega (arith, r.room, total-snoc hs h);
        limit = r.limit;
      },
      refl,
      o.more ∙ ap suc (sym counted),
    )
