-- ===== src/Session/Renegotiation.antt =====
-- `apply_settings_http2_connection`: the initial window of the peer is carried over to the streams that
-- are open.
use viriatum.Base.{ℕ, ℤ, pos, ◌+ℤ◌, ◌-ℤ◌, ltb_ℤ, ltb}
use viriatum.Base.{List, [], ◌∷◌, All, ◌==◌, ◌&&◌, ltb-false→le}
use viriatum.Base.{Option, none, some, false, Bool-cases}
use viriatum.Base.{◌≡◌, refl, ap, inl, inr, arith, integers, ok, err, Result}
use viriatum.Http2.{Settings, Http2Error}
use viriatum.Http2.SettingsCodec.{IsSettings, decode_settings, decode_settings-IsSettings}
use viriatum.Hpack.{HpackError}
use viriatum.Hpack.Table.{Table, resize}
use viriatum.Session.{Stream, Session}
use viriatum.Session.Flow.{
  overflows, widen, widen_streams, resized, resize_encoder, after_widening, after_decoding,
  apply_settings,
}
use viriatum.Session.Dependencies.{links}
use viriatum.Session.Pointwise.{Pointwise, Pointwise-refl}
use viriatum.Session.Invariant.{IsSession, Bounded, SameId, ids-IsTable, links-IsTree}
use viriatum.Session.Windows.{overflows-cases}

-- A stream whose window has been moved by `amount` and that is otherwise the same.
abbrev pub Shifted : ℤ → Stream → Stream → Type 0
Shifted amount a b = b ≡ widen amount a

-- What the loop over the streams leaves, whether it ends or stops.
widen_streams-rows :
    (amount : ℤ) (streams : List Stream)
    → All Bounded streams
    → All Bounded (widen_streams amount streams).1
      × (links (widen_streams amount streams).1 ≡ links streams)
      × Pointwise SameId streams (widen_streams amount streams).1
unfolding widen_streams links
widen_streams-rows amount [] h = (tt, refl, tt)
widen_streams-rows amount (st ∷ streams) (h, hs) =
    let (bounded, same, rows) = widen_streams-rows amount streams hs in
    elim (Bool-cases (ltb_ℤ (pos 0) amount && overflows st.send_window amount)) [
      | inl stops ↦ rw stops ((h, hs), refl, (refl, Pointwise-refl SameId (λ x. refl) streams))
      | inr goes ↦ rw goes (
        (fits st h goes, bounded),
        ap (λ ls. (st.stream_id, st.priority.dependency) ∷ ls) same,
        (refl, rows),
      )
    ]
  where
    fits :
        (x : Stream)
        → Bounded x
        → (ltb_ℤ (pos 0) amount && overflows x.send_window amount) ≡ false
        → Bounded (widen amount x)
    fits x bound goes = elim (overflows-cases x.send_window amount) [
      | inr (e, within) ↦ within
      | inl (over, past) ↦ elim (Bool-cases (ltb_ℤ (pos 0) amount)) [
        | inl positive ↦ absurd (ground arith)
        | inr negative ↦ omega (integers, ltb-false→le _ _ negative, bound)
      ]
    ]

widen_streams-Shifted :
    (amount : ℤ) (streams : List Stream)
    → (widen_streams amount streams).0 ≡ none
    → Pointwise (Shifted amount) streams (widen_streams amount streams).1
unfolding widen_streams
widen_streams-Shifted amount [] e = tt
widen_streams-Shifted amount (st ∷ streams) e =
    elim (Bool-cases (ltb_ℤ (pos 0) amount && overflows st.send_window amount)) [
      | inl stops ↦ absurd (ground arith)
      | inr goes ↦ rw goes (refl, widen_streams-Shifted amount streams (ground arith))
    ]

-- The encoder is no part of the invariant.
record Resized (s s' : Session) : Type 0 where
  invariant : IsSession s → IsSession s'
  streams : s'.streams ≡ s.streams
  remote : s'.remote ≡ s.remote

resized-Resized : (s : Session) (r : Result HpackError Table) → Resized s (resized s r).1
unfolding resized
resized-Resized s (err e) = record { invariant = λ i. i; streams = refl; remote = refl }
resized-Resized s (ok table) = record {
  invariant = λ i. record {
    table = i.table;
    window = i.window;
    remote = i.remote;
    assembled = i.assembled;
  };
  streams = refl;
  remote = refl;
}

resize_encoder-Resized : (s : Session) → Resized s (resize_encoder s).1
unfolding resize_encoder
resize_encoder-Resized s = elim (Bool-cases (ltb s.remote.header_table_size 4096)) [
  | inl smaller ↦ rw smaller (resized-Resized s (resize s.encoder s.remote.header_table_size))
  | inr larger ↦ rw larger (record { invariant = λ i. i; streams = refl; remote = refl })
]

-- The session with the settings and the streams that the peer's payload leaves.
abbrev pub renegotiated : Session → Settings → List Stream → Session
renegotiated s remote streams = record s { remote = remote; streams = streams }

record Applied (s : Session) (outcome : Option Http2Error × Session) : Type 0 where
  kept : IsSession outcome.1
  shifted :
      outcome.0 ≡ none
      → Pointwise
          (Shifted (pos outcome.1.remote.initial_window_size -ℤ pos s.remote.initial_window_size))
          s.streams
          outcome.1.streams

after_widening-Applied :
    (s : Session) (remote : Settings) (widened : Option Http2Error × List Stream)
    → ((ss : List Stream) → ss ≡ widened.1 → IsSession (renegotiated s remote ss))
    → (widened.0 ≡ none
        → Pointwise
            (Shifted (pos remote.initial_window_size -ℤ pos s.remote.initial_window_size))
            s.streams
            widened.1)
    → Applied s (after_widening (record s { remote = remote }) widened)
unfolding after_widening
after_widening-Applied s remote (some e, streams) i shift = record {
  kept = i streams refl;
  shifted = λ none_e. cc;
}
after_widening-Applied s remote (none, streams) i shift =
    let r = resize_encoder-Resized (renegotiated s remote streams) in
    record {
      kept = r.invariant (i streams refl);
      shifted = λ e. rw (r.streams, r.remote) (shift refl);
    }

table_rows :
    (s : Session) (remote : Settings) (streams : List Stream)
    → IsSession s
    → IsSettings remote
    → All Bounded streams
    → links streams ≡ links s.streams
    → Pointwise SameId s.streams streams
    → IsSession (renegotiated s remote streams)
table_rows s remote streams i settings bounded same rows = record {
  table =
      ids-IsTable s.last_stream_id s.push_stream_id s.streams streams rows
        (links-IsTree s.streams streams same i.table.tree) bounded i.table;
  window = i.window;
  remote = settings;
  assembled = i.assembled;
}

unmoved :
    (streams : List Stream) (n m : ℕ) → m ≡ n → Pointwise (Shifted (pos m -ℤ pos n)) streams streams
unmoved [] n m e = tt
unmoved (st ∷ streams) n m e =
    (ap (λ w. record st { send_window = w }) (still st.send_window), unmoved streams n m e)
  where
    still : (w : ℤ) → w ≡ w +ℤ (pos m -ℤ pos n)
    still w = omega integers

after_decoding-Applied :
    (s : Session) (decoded : Option Http2Error × Settings)
    → IsSession s
    → IsSettings decoded.1
    → Applied s (after_decoding s decoded)
unfolding after_decoding
after_decoding-Applied s (some e, remote) i settings = record {
  kept =
      table_rows s remote s.streams i settings i.table.windows refl
        (Pointwise-refl SameId (λ x. refl) s.streams);
  shifted = λ none_e. cc;
}
after_decoding-Applied s (none, remote) i settings =
    let amount = pos remote.initial_window_size -ℤ pos s.remote.initial_window_size in
    elim (Bool-cases (remote.initial_window_size == s.remote.initial_window_size)) [
      | inl same ↦ rw same (
          after_widening-Applied s remote (none, s.streams)
            (λ ss e. rw e (
              table_rows s remote s.streams i settings i.table.windows refl
                (Pointwise-refl SameId (λ x. refl) s.streams)))
            (λ e.
              unmoved s.streams s.remote.initial_window_size remote.initial_window_size
                (ground arith)))
      | inr changed ↦
          let (bounded, links_kept, rows) = widen_streams-rows amount s.streams i.table.windows in
          rw changed (
            after_widening-Applied s remote (widen_streams amount s.streams)
              (λ ss e. rw e (table_rows s remote _ i settings bounded links_kept rows))
              (widen_streams-Shifted amount s.streams))
    ]

-- Whatever the peer announces, also where it is refused half way, the invariant stays; and where it is
-- accepted, the window of every open stream moves by exactly the change of the initial window, below
-- zero too, and nothing else of a stream changes.
pub apply_settings_lem :
    (s : Session) (bytes : List ℕ)
    → IsSession s
    → IsSession (apply_settings s bytes).1
      × ((apply_settings s bytes).0 ≡ none
          → Pointwise
              (Shifted (
                pos (apply_settings s bytes).1.remote.initial_window_size
                -ℤ pos s.remote.initial_window_size))
              s.streams
              (apply_settings s bytes).1.streams)
unfolding apply_settings
apply_settings_lem s bytes i =
    let applied =
      after_decoding-Applied s (decode_settings bytes s.remote) i
        (decode_settings-IsSettings bytes s.remote i.remote) in
    (applied.kept, applied.shifted)
