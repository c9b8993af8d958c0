-- ===== src/Session/Tree.antt =====
-- The moves in the tree of the priorities: `_descends_http2_connection` and
-- `prioritise_stream_http2_connection`.
use viriatum.Base.{ℕ, zero, suc, List, [], ◌∷◌, length, modify, none, some}
use viriatum.Base.{Bool, true, false, ◌==◌, ◌||◌, not, if◌then◌else◌, Result, ok, err}
use viriatum.Http2.{Http2Error, protocol_error, Priority}
use viriatum.Session.{Stream, Session, at}
use viriatum.Session.Streams.{find_stream}

-- The walk from `stream_id` towards the root, of `rounds` streams at most.
unfoldable pub descends : ℕ → List Stream → ℕ → ℕ → Bool
descends zero streams stream_id ancestor_id = false
descends (suc rounds) streams stream_id ancestor_id =
    if stream_id == 0
    then false
    else if stream_id == ancestor_id
    then true
    else elim (find_stream streams stream_id) [
      | none ↦ false
      | some slot ↦ descends rounds streams (at streams slot).priority.dependency ancestor_id
    ]

abbrev pub hang : ℕ → Stream → Stream
hang dependency stream = record stream {
  priority = record stream.priority { dependency = dependency };
}

-- The new parent of `stream` takes the place of it, where it sits below it.
unfoldable pub lift_parent : List Stream → Stream → ℕ → List Stream
lift_parent streams stream dependency =
    if descends (length streams) streams dependency stream.stream_id
    then elim (find_stream streams dependency) [
      | none ↦ streams
      | some parent ↦ modify streams parent (hang stream.priority.dependency)
    ]
    else streams

-- The siblings come to hang from `stream_id`.
unfoldable pub take_over : ℕ → ℕ → List Stream → List Stream
take_over stream_id dependency [] = []
take_over stream_id dependency (stream ∷ streams) =
    (if stream.stream_id == stream_id || not (stream.priority.dependency == dependency)
      then stream
      else hang stream_id stream)
    ∷ take_over stream_id dependency streams

unfoldable pub adopt_siblings : Bool → ℕ → ℕ → List Stream → List Stream
adopt_siblings true stream_id dependency streams = take_over stream_id dependency streams
adopt_siblings false stream_id dependency streams = streams

abbrev pub placed : Priority → Stream → Stream
placed priority stream = record stream { priority = priority }

-- The moves of a stream that is not to depend on itself.
unfoldable pub moves : List Stream → ℕ → Priority → List Stream
moves streams slot priority =
    let stream = at streams slot in
    let lifted = lift_parent streams stream priority.dependency in
    modify (adopt_siblings priority.exclusive stream.stream_id priority.dependency lifted) slot
      (placed priority)

unfoldable pub prioritise_stream : Session → ℕ → Priority → Result Http2Error Session
prioritise_stream s slot priority =
    if priority.dependency == (at s.streams slot).stream_id
    then err protocol_error
    else ok (record s { streams = moves s.streams slot priority })
