-- ===== src/Session/Reach.antt =====
-- The states that a session goes through: bytes arrive, and the writes of its streams complete.
use viriatum.Base.{ℕ, List, []}
use viriatum.Base.{Option, refl, arith}
use viriatum.Http2.{create_settings}
use viriatum.Session.{Session, create}
use viriatum.Session.Links.{gone, parent}
use viriatum.Session.Lookup.{IsUnique}
use viriatum.Session.Dependencies.{links}
use viriatum.Session.Handlers.{Handler, Operation, complete_write}
use viriatum.Session.Reading.{Reading, data_handler}
use viriatum.Session.Calm.{Calm}
use viriatum.Session.Invariant.{IsSession}

-- A reading whose session has the invariant.
record Sound (r : Reading) : Type 0 where
  sound : IsSession r.1

-- What happens to a connection whose handlers promise no stream, as with a peer that has turned the
-- pushes off: bytes arrive and its handlers answer, or the write of a buffer completes and the callback
-- of the handler answers.
pub data Step : Reading → Reading → Type 0 where
  arrives :
      (handler : Handler) (r : Reading) (bytes : List ℕ) → Step r (data_handler handler r bytes)
  completes :
      (answers : List Operation) (r : Reading) (stream_id : ℕ)
      → Step r (r.0, complete_write answers r.1 stream_id)

pub data Reachable : Reading → Type 0 where
  fresh : (base : Option ℕ) → Reachable ([], create base)
  after : {r r' : Reading} → Reachable r → Step r r' → Reachable r'

pub create-IsSession : (base : Option ℕ) → IsSession (create base)
unfolding create create_settings links parent IsUnique
create-IsSession base = record {
  table = record {
    unique = tt;
    tree = record { forest = λ id. gone refl; rootless = refl };
    numbered = tt;
    windows = tt;
    slots = omega arith;
  };
  window = omega arith;
  remote = record { window = omega arith; frame_low = omega arith; frame_high = omega arith };
  assembled = omega arith;
}
