-- ===== src/Session/Windows.antt =====
-- The windows of this end: what a WINDOW_UPDATE and the settings of the peer do to them, and that they
-- stay in their range.
use viriatum.Base.{ℕ, zero, suc, ℤ, pos, ◌+ℤ◌, ◌-ℤ◌, ◌≤ℤ◌, ltb_ℤ}
use viriatum.Base.{List, [], ◌∷◌, modify, All, ltb-false→le, ltb→lt}
use viriatum.Base.{none, some, true, false, Bool-cases, Option-cases}
use viriatum.Base.{
  ◌≡◌, ◌≢◌, refl, sym, ◌∙◌, ◌⊎◌, inl, inr, arith, integers, ok, err, ℕ_discrete, ok-injective,
}
use viriatum.Http2.{max_window_size, protocol_error, flow_control_error}
use viriatum.Session.{Stream, Session, at}
use viriatum.Session.Streams.{find_stream}
use viriatum.Session.Flow.{overflows, widen, widen_stream, update_window}
use viriatum.Session.Dependencies.{links-modify}
use viriatum.Session.Pointwise.{Pointwise-modify}
use viriatum.Session.Invariant.{IsSession, Bounded, SameId, ids-IsTable, links-IsTree}

pub overflows-cases :
    (w a : ℤ)
    → ((overflows w a ≡ true) × (pos (suc max_window_size) ≤ℤ w +ℤ a))
      ⊎ ((overflows w a ≡ false) × (w +ℤ a ≤ℤ pos max_window_size))
unfolding overflows
overflows-cases w a = elim (Bool-cases (ltb_ℤ (pos max_window_size -ℤ a) w)) [
  | inl over ↦ inl (over, omega (integers, ltb→lt _ _ over))
  | inr within ↦ inr (within, omega (integers, ltb-false→le _ _ within))
]

All-widen :
    (streams : List Stream) (slot : ℕ) (a : ℤ)
    → All Bounded streams
    → (at streams slot).send_window +ℤ a ≤ℤ pos max_window_size
    → All Bounded (modify streams slot (widen a))
All-widen [] slot a h within = tt
All-widen (st ∷ streams) zero a (h, hs) within = (within, hs)
All-widen (st ∷ streams) (suc slot) a (h, hs) within = (h, All-widen streams slot a hs within)

widen-IsSession :
    (s : Session) (slot : ℕ) (a : ℤ)
    → IsSession s
    → (at s.streams slot).send_window +ℤ a ≤ℤ pos max_window_size
    → IsSession (record s { streams = modify s.streams slot (widen a) })
widen-IsSession s slot a i within = record {
  table =
      ids-IsTable s.last_stream_id s.push_stream_id s.streams (modify s.streams slot (widen a))
        (Pointwise-modify SameId (λ st. refl) s.streams slot (widen a) (λ st. refl))
        (links-IsTree s.streams _ (links-modify s.streams slot (widen a) (λ st. refl) (λ st. refl))
          i.table.tree)
        (All-widen s.streams slot a i.table.windows within) i.table;
  window = i.window;
  remote = i.remote;
  assembled = i.assembled;
}

-- An increment of zero is an error; one that would take the window of its target past 2^31 - 1 is a
-- flow control error; any other widens that window by exactly itself, and changes nothing where the
-- stream is gone. The invariant stays.
pub update_window_lem :
    (s : Session) (id increment : ℕ)
    → IsSession s
    → (increment ≡ 0 → update_window s id increment ≡ err protocol_error)
      × (increment ≢ 0
          → id ≡ 0
          → (pos (suc max_window_size) ≤ℤ s.send_window +ℤ pos increment
              × update_window s id increment ≡ err flow_control_error)
            ⊎ (IsSession (record s { send_window = s.send_window +ℤ pos increment })
                × update_window s id increment
                  ≡ ok (record s { send_window = s.send_window +ℤ pos increment })))
      × (increment ≢ 0
          → id ≢ 0
          → find_stream s.streams id ≡ none
          → update_window s id increment ≡ ok s)
      × ((slot : ℕ)
          → increment ≢ 0
          → id ≢ 0
          → find_stream s.streams id ≡ some slot
          → (pos (suc max_window_size) ≤ℤ (at s.streams slot).send_window +ℤ pos increment
              × update_window s id increment ≡ err flow_control_error)
            ⊎ (IsSession (record s { streams = modify s.streams slot (widen (pos increment)) })
                × update_window s id increment
                  ≡ ok (record s { streams = modify s.streams slot (widen (pos increment)) })))
unfolding update_window widen_stream
update_window_lem s id increment i = (
  λ zero_inc. ground arith,
  λ some_inc of_session. elim (overflows-cases s.send_window (pos increment)) [
    | inl (over, past) ↦ inl (past, ground arith)
    | inr (fits, within) ↦ inr (widened i within, ground arith)
  ],
  λ some_inc of_stream lost. ground arith,
  λ slot some_inc of_stream e.
      elim (overflows-cases (at s.streams slot).send_window (pos increment)) [
        | inl (over, past) ↦ inl (past, ground arith)
        | inr (fits, within) ↦ inr (widen-IsSession s slot (pos increment) i within, ground arith)
      ],
)
  where
    widened :
        IsSession s
        → s.send_window +ℤ pos increment ≤ℤ pos max_window_size
        → IsSession (record s { send_window = s.send_window +ℤ pos increment })
    widened i within = record {
      table = i.table;
      window = within;
      remote = i.remote;
      assembled = i.assembled;
    }

-- Where the increment is taken, the invariant stays.
pub update_window-IsSession :
    (s s' : Session) (id increment : ℕ)
    → IsSession s
    → update_window s id increment ≡ ok s'
    → IsSession s'
update_window-IsSession s s' id increment i e =
    let (zero_inc, of_session, lost, of_stream) = update_window_lem s id increment i in
    elim (ℕ_discrete increment 0) [
      | yes none_inc ↦ let refusal = zero_inc none_inc in cc
      | no some_inc ↦ elim (ℕ_discrete id 0) [
        | yes whole ↦ elim (of_session some_inc whole) [
          | inl past ↦ let refusal = past.1 in cc
          | inr within ↦ rw (← ok-injective (sym within.1 ∙ e)) within.0
        ]
        | no one ↦ elim (Option-cases (find_stream s.streams id)) [
          | inl gone ↦ rw (← ok-injective (sym (lost some_inc one gone) ∙ e)) i
          | inr (slot, at_slot) ↦ elim (of_stream slot some_inc one at_slot) [
            | inl past ↦ let refusal = past.1 in cc
            | inr within ↦ rw (← ok-injective (sym within.1 ∙ e)) within.0
          ]
        ]
      ]
    ]
