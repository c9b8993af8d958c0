-- ===== src/Session/Flow.antt =====
-- The windows that bound what this end sends: `update_window_http2_connection` and
-- `apply_settings_http2_connection`.
use viriatum.Base.{ℕ, ℤ, pos, ◌+ℤ◌, ◌-ℤ◌, ltb_ℤ, List, [], ◌∷◌, modify, ltb, ◌==◌, ◌&&◌}
use viriatum.Base.{Option, none, some, Bool, if◌then◌else◌, Result, ok, err}
use viriatum.Hpack
use viriatum.Hpack.Table.{Table, resize}
use viriatum.Hpack.{HpackError}
use viriatum.Http2.{
  Http2Error, protocol_error, flow_control_error, compression_error, Settings, max_window_size,
}
use viriatum.Http2.SettingsCodec.{decode_settings}
use viriatum.Session.{Stream, Session, at}
use viriatum.Session.Streams.{find_stream}

-- The window would pass the largest value.
unfoldable pub overflows : ℤ → ℤ → Bool
overflows window widening = ltb_ℤ (pos max_window_size -ℤ widening) window

abbrev pub widen : ℤ → Stream → Stream
widen amount stream = record stream { send_window = stream.send_window +ℤ amount }

unfoldable pub widen_stream : Session → ℕ → Option ℕ → Result Http2Error Session
widen_stream s increment none = ok s
widen_stream s increment (some slot) =
    if overflows (at s.streams slot).send_window (pos increment)
    then err flow_control_error
    else ok (record s { streams = modify s.streams slot (widen (pos increment)) })

unfoldable pub update_window : Session → ℕ → ℕ → Result Http2Error Session
update_window s stream_id increment =
    if increment == 0
    then err protocol_error
    else if stream_id == 0
    then if overflows s.send_window (pos increment)
      then err flow_control_error
      else ok (record s { send_window = s.send_window +ℤ pos increment })
    else widen_stream s increment (find_stream s.streams stream_id)

-- The loop over the streams; an error leaves those before it widened.
unfoldable pub widen_streams : ℤ → List Stream → Option Http2Error × List Stream
widen_streams amount [] = (none, [])
widen_streams amount (stream ∷ streams) =
    if ltb_ℤ (pos 0) amount && overflows stream.send_window amount
    then (some flow_control_error, stream ∷ streams)
    else let (error, widened) = widen_streams amount streams in
      (error, widen amount stream ∷ widened)

unfoldable pub resized : Session → Result HpackError Table → Option Http2Error × Session
resized s (err e) = (some compression_error, s)
resized s (ok table) = (none, record s { encoder = table })

unfoldable pub resize_encoder : Session → Option Http2Error × Session
resize_encoder s =
    if ltb s.remote.header_table_size Hpack.table_size
    then resized s (resize s.encoder s.remote.header_table_size)
    else (none, s)

unfoldable pub after_widening :
    Session → Option Http2Error × List Stream → Option Http2Error × Session
after_widening s (some e, streams) = (some e, record s { streams = streams })
after_widening s (none, streams) = resize_encoder (record s { streams = streams })

unfoldable pub after_decoding : Session → Option Http2Error × Settings → Option Http2Error × Session
after_decoding s (some e, remote) = (some e, record s { remote = remote })
after_decoding s (none, remote) =
    let amount = pos remote.initial_window_size -ℤ pos s.remote.initial_window_size in
    after_widening (record s { remote = remote })
      (if remote.initial_window_size == s.remote.initial_window_size
        then (none, s.streams)
        else widen_streams amount s.streams)

-- The error and the session that it leaves.
unfoldable pub apply_settings : Session → List ℕ → Option Http2Error × Session
apply_settings s payload = after_decoding s (decode_settings payload s.remote)
