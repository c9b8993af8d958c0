-- ===== src/Session/Invariant.antt =====
-- The invariant of a session, and the operations on its table and its windows that keep it.
use viriatum.Base.{ℕ, ◌%◌, ◌≤◌, pos, ◌≤ℤ◌, List, [], ◌∷◌, length, All}
use viriatum.Base.{none, ◌≡◌, refl, sym, ap, ◌∙◌, arith}
use viriatum.Http2.{max_window_size}
use viriatum.Http2.SettingsCodec.{IsSettings}
use viriatum.Session.{Stream, Session, max_block, stream_slots}
use viriatum.Session.Dependencies.{links}
use viriatum.Session.Lookup.{lookup, IsUnique}
use viriatum.Session.Placing.{IsTree}
use viriatum.Session.Pointwise.{Pointwise, Pointwise-weaken, length-Pointwise}
use viriatum.Session.Calm.{Alike, SameShape, Calm}

-- The identifiers of the peer are odd and those of this end even, each handed out in order.
abbrev pub Numbered : ℕ → ℕ → Stream → Type 0
Numbered last pushed st =
    (st.stream_id % 2 ≡ 1 → st.stream_id ≤ last) × (st.stream_id % 2 ≡ 0 → st.stream_id ≤ pushed)

abbrev pub Bounded : Stream → Type 0
Bounded st = st.send_window ≤ℤ pos max_window_size

-- A table of streams: its identifiers are different and handed out in order, its windows are in
-- range, and the dependencies are a tree.
pub record IsTable (last pushed : ℕ) (streams : List Stream) : Type 0 where
  pub unique : IsUnique streams
  pub tree : IsTree streams
  pub numbered : All (Numbered last pushed) streams
  pub windows : All Bounded streams
  pub slots : length streams ≤ stream_slots

pub record IsSession (s : Session) : Type 0 where
  pub table : IsTable s.last_stream_id s.push_stream_id s.streams
  pub window : s.send_window ≤ℤ pos max_window_size
  pub remote : IsSettings s.remote
  pub assembled : length s.block ≤ max_block

-- One stream as another, but for its dependency.
abbrev pub Similar : Stream → Stream → Type 0
Similar st st' = (st'.stream_id ≡ st.stream_id) × (st'.send_window ≤ℤ st.send_window)

abbrev pub SameId : Stream → Stream → Type 0
SameId st st' = st'.stream_id ≡ st.stream_id

lookup-rows :
    (xs ys : List Stream) (k : ℕ) → Pointwise SameId xs ys → lookup xs k ≡ none → lookup ys k ≡ none
unfolding lookup
lookup-rows [] [] k h e = refl
lookup-rows [] (y ∷ ys) k h e = absurd h
lookup-rows (x ∷ xs) [] k h e = absurd h
lookup-rows (x ∷ xs) (y ∷ ys) k (same, hs) e = ground (arith, same, lookup-rows xs ys k hs, e)

rows-IsUnique : (xs ys : List Stream) → Pointwise SameId xs ys → IsUnique xs → IsUnique ys
unfolding IsUnique
rows-IsUnique [] [] h unique = tt
rows-IsUnique [] (y ∷ ys) h unique = absurd h
rows-IsUnique (x ∷ xs) [] h unique = absurd h
rows-IsUnique (x ∷ xs) (y ∷ ys) (same, hs) (fresh, unique) =
    (lookup-rows xs ys y.stream_id hs (ap (lookup xs) same ∙ fresh), rows-IsUnique xs ys hs unique)

rows-All :
    (P : Stream → Type 0) (R : Stream → Stream → Type 0)
    → ((a b : Stream) → R a b → P a → P b)
    → (xs ys : List Stream) → Pointwise R xs ys
    → All P xs
    → All P ys
rows-All P R carry [] [] h p = tt
rows-All P R carry [] (y ∷ ys) h p = absurd h
rows-All P R carry (x ∷ xs) [] h p = absurd h
rows-All P R carry (x ∷ xs) (y ∷ ys) (h, hs) (p, ps) =
    (carry x y h p, rows-All P R carry xs ys hs ps)

Numbered-SameId :
    (last pushed : ℕ) (a b : Stream) → SameId a b → Numbered last pushed a → Numbered last pushed b
Numbered-SameId last pushed a b same (of_peer, own) = (
  λ odd. omega (arith, same, of_peer (ap (λ n. n % 2) (sym same) ∙ odd)),
  λ even. omega (arith, same, own (ap (λ n. n % 2) (sym same) ∙ even)),
)

-- A change of the rows, with a tree and windows of its own.
pub ids-IsTable :
    (last pushed : ℕ) (xs ys : List Stream)
    → Pointwise SameId xs ys
    → IsTree ys
    → All Bounded ys
    → IsTable last pushed xs
    → IsTable last pushed ys
ids-IsTable last pushed xs ys rows tree windows t = record {
  unique = rows-IsUnique xs ys rows t.unique;
  tree = tree;
  numbered =
      rows-All (Numbered last pushed) SameId (Numbered-SameId last pushed) xs ys rows t.numbered;
  windows = windows;
  slots = omega (arith, length-Pointwise SameId xs ys rows, t.slots);
}

pub rows-IsTable :
    (last pushed : ℕ) (xs ys : List Stream)
    → Pointwise Similar xs ys
    → IsTree ys
    → IsTable last pushed xs
    → IsTable last pushed ys
rows-IsTable last pushed xs ys rows tree t =
    ids-IsTable last pushed xs ys (Pointwise-weaken Similar SameId (λ a b h. h.0) xs ys rows) tree
      (rows-All Bounded Similar (λ a b (same, w) p. omega (arith, w, p)) xs ys rows t.windows) t

-- The same identifiers and dependencies are the same tree.
pub links-IsTree : (xs ys : List Stream) → links ys ≡ links xs → IsTree xs → IsTree ys
links-IsTree xs ys same tree = record {
  forest = rw same tree.forest;
  rootless = rw same tree.rootless;
}

shape-links : (xs ys : List Stream) → SameShape xs ys → links ys ≡ links xs
unfolding links
shape-links [] [] h = refl
shape-links [] (y ∷ ys) h = absurd h
shape-links (x ∷ xs) [] h = absurd h
shape-links (x ∷ xs) (y ∷ ys) (h, hs) = rw (h.0, h.1, shape-links xs ys hs)

-- What is calm keeps the invariant.
pub Calm-IsSession : {s s' : Session} → Calm s s' → IsSession s → IsSession s'
Calm-IsSession {s} {s'} calm i = record {
  table =
      rw (calm.last, calm.pushed)
        (rows-IsTable s.last_stream_id s.push_stream_id s.streams s'.streams
          (Pointwise-weaken Alike Similar (λ a b h. (h.0, h.2)) s.streams s'.streams calm.shape)
          (links-IsTree s.streams s'.streams (shape-links s.streams s'.streams calm.shape)
            i.table.tree)
          i.table);
  window = omega (arith, calm.narrower, i.window);
  remote = rw calm.peer i.remote;
  assembled = rw calm.block i.assembled;
}
