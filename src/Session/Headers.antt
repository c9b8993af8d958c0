-- ===== src/Session/Headers.antt =====
-- The headers of the frames that a session builds, each in a buffer of its own.
use viriatum.Base.{ℕ, ◌≤◌, replicate, overwrite, le→ltb-false, ◌≡◌, refl}
use viriatum.Http2.{frame_header_size, max_frame_size}
use viriatum.Http2.Framing.{encode_frame, encode_frame-bytes, frame_bytes}
use viriatum.Http2.Number.{number_bytes}
use viriatum.Session.Sending.{built}

pub built-frame_bytes :
    (size type flags stream_id : ℕ)
    → size ≤ max_frame_size
    → built
        (replicate frame_header_size 0)
        (encode_frame (replicate frame_header_size 0) size type flags stream_id)
      ≡ frame_bytes size type flags stream_id
unfolding built frame_bytes number_bytes overwrite
built-frame_bytes size type flags stream_id h =
    rw (encode_frame-bytes (replicate frame_header_size 0) size type flags stream_id)
      (rw (le→ltb-false max_frame_size size h) refl)
