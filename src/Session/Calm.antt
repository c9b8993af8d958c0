-- ===== src/Session/Calm.antt =====
-- What the operations of a handler leave as it is: the streams of the table with their dependencies,
-- the settings, and the block that is being assembled; the windows of this end only narrow.
use viriatum.Base.{ℕ, zero, suc, ℤ, ◌≤ℤ◌, List, [], ◌∷◌, modify, set}
use viriatum.Base.{Option}
use viriatum.Base.{◌≡◌, refl, ◌∙◌, arith}
use viriatum.Session.Pointwise.{Pointwise, Pointwise-refl, Pointwise-trans, Pointwise-modify}
use viriatum.Session.{Stream, Session, Output, Event, at}
use viriatum.Hpack.Table.{Table}
use viriatum.Session.Sending.{window}
use viriatum.Session.Blocks.{change}

-- One stream as another, with a window that is not wider.
abbrev pub Alike : Stream → Stream → Type 0
Alike st st' =
    (st'.stream_id ≡ st.stream_id)
    × (st'.priority.dependency ≡ st.priority.dependency)
    × (st'.send_window ≤ℤ st.send_window)

abbrev pub SameShape : List Stream → List Stream → Type 0
SameShape = Pointwise Alike

pub record Calm (s s' : Session) : Type 0 where
  pub shape : SameShape s.streams s'.streams
  pub last : s'.last_stream_id ≡ s.last_stream_id
  pub pushed : s'.push_stream_id ≡ s.push_stream_id
  pub narrower : s'.send_window ≤ℤ s.send_window
  pub own : s'.settings ≡ s.settings
  pub peer : s'.remote ≡ s.remote
  pub block : s'.block ≡ s.block
  pub continuation : s'.continuation ≡ s.continuation
  pub refused : s'.refused ≡ s.refused

pub Alike-refl : (st : Stream) → Alike st st
Alike-refl st = (refl, refl, omega arith)

pub SameShape-refl : (streams : List Stream) → SameShape streams streams
SameShape-refl = Pointwise-refl Alike Alike-refl

Alike-trans : (a b c : Stream) → Alike a b → Alike b c → Alike a c
Alike-trans a b c h k = (k.0 ∙ h.0, k.1 ∙ h.1, omega (arith, h.2, k.2))

pub Calm-refl : (s : Session) → Calm s s
Calm-refl s = record {
  shape = SameShape-refl s.streams;
  last = refl;
  pushed = refl;
  narrower = omega arith;
  own = refl;
  peer = refl;
  block = refl;
  continuation = refl;
  refused = refl;
}

pub Calm-trans : {a b c : Session} → Calm a b → Calm b c → Calm a c
Calm-trans {a} {b} {c} h k = record {
  shape = Pointwise-trans Alike Alike-trans a.streams b.streams c.streams h.shape k.shape;
  last = k.last ∙ h.last;
  pushed = k.pushed ∙ h.pushed;
  narrower = omega (arith, h.narrower, k.narrower);
  own = k.own ∙ h.own;
  peer = k.peer ∙ h.peer;
  block = k.block ∙ h.block;
  continuation = k.continuation ∙ h.continuation;
  refused = k.refused ∙ h.refused;
}

pub shape-set :
    (streams : List Stream) (slot : ℕ) (st' : Stream)
    → Alike (at streams slot) st'
    → SameShape streams (set streams slot st')
shape-set [] slot st' alike = tt
shape-set (st ∷ streams) zero st' alike = (alike, SameShape-refl streams)
shape-set (st ∷ streams) (suc slot) st' alike = (Alike-refl st, shape-set streams slot st' alike)

-- What Calm does not speak of.
pub aside :
    (s : Session) (output : List Output) (events : List (ℕ × Event)) (current handler : Option ℕ)
    → Calm s
        (record s { output = output; events = events; current = current; http_handler = handler })
aside s output events current handler = record {
  shape = SameShape-refl s.streams;
  last = refl;
  pushed = refl;
  narrower = omega arith;
  own = refl;
  peer = refl;
  block = refl;
  continuation = refl;
  refused = refl;
}

pub redecoded : (s : Session) (table : Table) → Calm s (record s { decoder = table })
redecoded s table = record {
  shape = SameShape-refl s.streams;
  last = refl;
  pushed = refl;
  narrower = omega arith;
  own = refl;
  peer = refl;
  block = refl;
  continuation = refl;
  refused = refl;
}

pub window-Calm : (s : Session) (w : ℤ) → Calm s (record s { receive_window = w })
window-Calm s w = record {
  shape = SameShape-refl s.streams;
  last = refl;
  pushed = refl;
  narrower = omega arith;
  own = refl;
  peer = refl;
  block = refl;
  continuation = refl;
  refused = refl;
}

pub with_streams :
    (s : Session) (streams : List Stream) (window : ℤ)
    → SameShape s.streams streams
    → window ≤ℤ s.send_window
    → Calm s (record s { streams = streams; send_window = window })
with_streams s streams window shape narrower = record {
  shape = shape;
  last = refl;
  pushed = refl;
  narrower = narrower;
  own = refl;
  peer = refl;
  block = refl;
  continuation = refl;
  refused = refl;
}

pub change-Calm :
    (slot : ℕ) (f : Stream → Stream) (s : Session)
    → ((st : Stream) → Alike st (f st))
    → Calm s (change slot f s)
change-Calm slot f s alike =
    with_streams s (modify s.streams slot f) s.send_window
      (Pointwise-modify Alike Alike-refl s.streams slot f alike) (omega arith)
