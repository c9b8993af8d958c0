-- ===== src/Session/FieldsCalm.antt =====
-- The pseudo headers and the checks of a field are calm, where no handler is involved.
use viriatum.Base.{ℕ, List, length, ◌==◌, ◌||◌}
use viriatum.Base.{Bool, if-keeps, Option, none, some, Result, ok, err}
use viriatum.Base.{refl, arith, leb, bit_and}
use viriatum.Hpack.{Header}
use viriatum.Hpack.Static.{codes}
use viriatum.Hpack.Table.{bytes_eq}
use viriatum.Http2.{Http2Error}
use viriatum.Session.{Session, Request}
use viriatum.Session.Fields.{
  Block, Handled, method_of, pseudo_method, pseudo_scheme, pseudo_path, pseudo_authority,
  max_path_size,
}
use viriatum.Session.Blocks.{
  change, with_request, once, header_method, header_scheme, append_path, header_path,
  header_authority, header_pseudo, announce, header_length, and_then, verified, read_digits,
}
use viriatum.Session.Calm.{Calm, Calm-refl, Calm-trans, change-Calm}

request-Calm :
    (slot : ℕ) (f : Request → Request) (s : Session) → Calm s (change slot (with_request f) s)
request-Calm slot f s = change-Calm slot (with_request f) s (λ st. (refl, refl, omega arith))

-- The session that a step of the handling leaves.
pub record CalmHandled (s : Session) (handled : Handled) : Type 0 where
  pub calm : Calm s handled.2

pub calmly :
    {s s' : Session} {b : Block} {error : Option Http2Error}
    → Calm s s'
    → CalmHandled s (error, b, s')
calmly c = record { calm = c }

pub still : (s : Session) {b : Block} {error : Option Http2Error} → CalmHandled s (error, b, s)
still s = calmly (Calm-refl s)

once-Calm :
    (bit : ℕ) (b : Block) (s : Session) (next : Block → Handled)
    → ((b' : Block) → CalmHandled s (next b'))
    → CalmHandled s (once bit b s next)
unfolding once
once-Calm bit b s next rest =
    if-keeps (CalmHandled s) (bit_and b.pseudo bit == 0) (rest _) (still s)

header_method-Calm :
    (b : Block) (s : Session) (value : List ℕ) → CalmHandled s (header_method b s value)
unfolding header_method
header_method-Calm b s value =
    if-keeps (CalmHandled s) (method_of value == 0) (calmly (request-Calm b.slot _ s))
      (calmly (request-Calm b.slot _ s))

header_scheme-Calm :
    (b : Block) (s : Session) (value : List ℕ) → CalmHandled s (header_scheme b s value)
unfolding header_scheme
header_scheme-Calm b s value =
    if-keeps (CalmHandled s) (bytes_eq value (codes "https")) (calmly (request-Calm b.slot _ s)) (
      if-keeps (CalmHandled s) (bytes_eq value (codes "http")) (calmly (request-Calm b.slot _ s))
        (still s))

header_path-Calm :
    (b : Block) (s : Session) (value : List ℕ) → CalmHandled s (header_path b s value)
unfolding header_path
header_path-Calm b s value =
    if-keeps (CalmHandled s) (length value == 0) (still s)
      (calmly (request-Calm b.slot (append_path value) s))

header_authority-Calm :
    (b : Block) (s : Session) (value : List ℕ) → CalmHandled s (header_authority b s value)
unfolding header_authority
header_authority-Calm b s value =
    if-keeps (CalmHandled s) (leb max_path_size (length value)) (still s)
      (calmly (request-Calm b.slot _ s))

pub header_pseudo-Calm :
    (b : Block) (s : Session) (h : Header) → CalmHandled s (header_pseudo b s h)
unfolding header_pseudo
header_pseudo-Calm b s h = if-keeps (CalmHandled s) (b.regular || b.trailers) (still s) (
    if-keeps (CalmHandled s) (bytes_eq h.name (codes ":method"))
      (once-Calm pseudo_method b s _ (λ b'. header_method-Calm b' s h.value))
      (if-keeps (CalmHandled s) (bytes_eq h.name (codes ":scheme"))
        (once-Calm pseudo_scheme b s _ (λ b'. header_scheme-Calm b' s h.value))
        (if-keeps (CalmHandled s) (bytes_eq h.name (codes ":path"))
          (once-Calm pseudo_path b s _ (λ b'. header_path-Calm b' s h.value))
          (if-keeps (CalmHandled s) (bytes_eq h.name (codes ":authority"))
            (once-Calm pseudo_authority b s _ (λ b'. header_authority-Calm b' s h.value))
            (still s)))))

announce-Calm : (slot : ℕ) (read : Bool × ℕ) (s : Session) → Calm s (change slot (announce read) s)
announce-Calm slot read s = change-Calm slot (announce read) s (λ st. (refl, refl, omega arith))

pub header_length-Calm :
    (b : Block) (s : Session) (h : Header) → CalmHandled s (header_length b s h)
unfolding header_length
header_length-Calm b s h =
    if-keeps (CalmHandled s) (bytes_eq h.name (codes "content-length"))
      (if-keeps (CalmHandled s) (read_digits h.value 0).0 (calmly (announce-Calm b.slot _ s))
        (calmly (announce-Calm b.slot _ s)))
      (still s)

pub and_then-Calm :
    (s : Session) (handled : Handled) (next : Block → Session → Handled)
    → CalmHandled s handled
    → ((b : Block) (s' : Session) → CalmHandled s' (next b s'))
    → CalmHandled s (and_then handled next)
and_then-Calm s (some e, b, s') next c rest = c
and_then-Calm s (none, b, s') next c rest = calmly (Calm-trans c.calm (rest b s').calm)

pub verified-Calm :
    (b : Block) (s : Session) (r : Result Http2Error (Unit {0})) → CalmHandled s (verified b s r)
unfolding verified
verified-Calm b s (ok u) = still s
verified-Calm b s (err e) = still s
