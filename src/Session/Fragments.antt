-- ===== src/Session/Fragments.antt =====
-- What `_split_http2_connection` writes: the block of the frame it is given, cut into fragments.
use viriatum.Base.{ℕ, zero, suc, ◌+◌, ◌-◌, ◌≤◌, ◌<◌, List, [], ◌∷◌, ◌++◌, length, drop, slice, All}
use viriatum.Base.{get_or, bit_and, ltb, leb, ◌==◌, if◌then◌else◌, Bool-cases, arith}
use viriatum.Base.{
  ◌≡◌, ◌⊎◌, refl, sym, ap, inl, inr, drop-end, slice-drop, length-slice, append-nil, length-append,
  length-drop,
}
use viriatum.Base.{bit_or, ◌&&◌, Bool, true, ℕ_discrete}
use viriatum.Http2.Framing.{frame_bytes}
use viriatum.Session.Headers.{built-frame_bytes}
use viriatum.Http2.{frame_header_size, flag_end_headers, max_stream_id, max_frame_size}
use viriatum.Http2.Number.{decode_number}
use viriatum.Session.Splitting.{framed, split_loop, open_flags, split}

unfoldable pub joined : List (List ℕ) → List ℕ
joined [] = []
joined (fragment ∷ fragments) = fragment ++ joined fragments

-- The bytes of a frame.
abbrev pub piece : ℕ → ℕ → ℕ → List ℕ → List ℕ
piece type flags id fragment = frame_bytes (length fragment) type flags id ++ fragment

framed-piece :
    (type flags id : ℕ) (fragment : List ℕ)
    → length fragment ≤ max_frame_size
    → framed type flags id fragment ≡ piece type flags id fragment
unfolding framed
framed-piece type flags id fragment small =
    ap (λ header. header ++ fragment) (built-frame_bytes (length fragment) type flags id small)

-- CONTINUATION frames, the last of which ends the block.
unfoldable pub continuations : ℕ → List (List ℕ) → List ℕ
continuations id [] = []
continuations id (fragment ∷ []) = piece 0x09 0x04 id fragment
continuations id (fragment ∷ next ∷ fragments) =
    piece 0x09 0x00 id fragment ++ continuations id (next ∷ fragments)

-- The rest of a block, in fragments that are not empty and that the peer accepts.
pub record Cut (allowed id : ℕ) (rest written : List ℕ) : Type 0 where
  pub fragments : List (List ℕ)
  pub frames : written ≡ continuations id fragments
  pub whole : joined fragments ≡ rest
  pub sizes : All (λ fragment. (0 < length fragment) × (length fragment ≤ allowed)) fragments

-- One frame in front: its flags are those of the last one exactly where nothing follows.
continue_with :
    (allowed id flags : ℕ) (fragment rest written : List ℕ) (fragments : List (List ℕ))
    → (0 < length fragment) × (length fragment ≤ allowed)
    → (length rest ≡ 0 → flags ≡ 0x04)
    → (0 < length rest → flags ≡ 0x00)
    → written ≡ continuations id fragments
    → joined fragments ≡ rest
    → All (λ f. (0 < length f) × (length f ≤ allowed)) fragments
    → Cut allowed id (fragment ++ rest) (piece 0x09 flags id fragment ++ written)
unfolding joined continuations
continue_with allowed id flags fragment rest written [] size ends more frames whole sizes = record {
  fragments = fragment ∷ [];
  frames = rw (frames, ends (ap length (sym whole)), append-nil (piece 0x09 0x04 id fragment)) refl;
  whole = ap (λ t. fragment ++ t) whole;
  sizes = (size, tt);
}
continue_with allowed id flags fragment rest written (next ∷ fragments) size ends more frames whole
      sizes =
    record {
      fragments = fragment ∷ next ∷ fragments;
      frames =
          rw
            (
              frames,
              more (omega (arith, ap length whole, length-append next (joined fragments), sizes.0)),
            )
            refl;
      whole = ap (λ t. fragment ++ t) whole;
      sizes = (size, sizes);
    }

-- The size of a fragment.
abbrev least : ℕ → ℕ → ℕ
least left allowed = if ltb left allowed then left else allowed

least_bounds :
    (left allowed : ℕ)
    → 0 < left
    → 0 < allowed
    → (0 < least left allowed) × (least left allowed ≤ left) × (least left allowed ≤ allowed)
least_bounds left allowed some_left some_allowed =
    (ground (arith, some_left, some_allowed), ground arith, ground arith)

module _ (allowed id : ℕ) (bytes : List ℕ) (some_allowed : 0 < allowed)
    (small : allowed ≤ max_frame_size) where
  split_loop-Cut :
      (fuel position : ℕ)
      → length bytes ≤ position + fuel
      → Cut allowed id (drop position bytes) (split_loop fuel allowed bytes position id)
  unfolding split_loop joined continuations
  split_loop-Cut zero position enough = record {
    fragments = [];
    frames = refl;
    whole = sym (drop-end bytes position (omega (arith, enough)));
    sizes = tt;
  }
  split_loop-Cut (suc fuel) position enough = elim (Bool-cases (ltb position (length bytes))) [
    | inr past ↦ rw past (record {
      fragments = [];
      frames = refl;
      whole = sym (drop-end bytes position (ground (arith, past)));
      sizes = tt;
    })
    | inl inside ↦
        let size = least (length bytes - position) allowed in
        let (positive, within, fits) =
          least_bounds (length bytes - position) allowed (ground (arith, inside)) some_allowed in
        let left = length-drop (position + size) bytes in
        let cut = split_loop-Cut fuel (position + size) (omega (arith, enough, positive)) in
        let sliced = length-slice bytes position size within in
        let more =
          continue_with allowed id
            (if position + size == length bytes then flag_end_headers else 0x00)
            (slice bytes position size) (drop (position + size) bytes)
            (split_loop fuel allowed bytes (position + size) id) cut.fragments
            (omega (arith, sliced, positive), omega (arith, sliced, fits))
            (λ none_left. ground (arith, none_left, left, within, inside))
            (λ some_left. ground (arith, some_left, left)) cut.frames cut.whole cut.sizes in
        let framing =
          framed-piece 0x09 (if position + size == length bytes then flag_end_headers else 0x00) id
            (slice bytes position size) (omega (arith, sliced, fits, small)) in
        rw (inside, framing) (rw (slice-drop bytes position size) at more)
  ]

-- The flags of a byte without the end of the headers.
all_below : ℕ → (ℕ → Bool) → Bool
all_below zero test = true
all_below (suc n) test = test n && all_below n test

all_below-at : (n k : ℕ) (test : ℕ → Bool) → all_below n test ≡ true → k < n → test k ≡ true
unfolding all_below
all_below-at zero k test h below = absurd (omega arith)
all_below-at (suc n) k test h below = elim (ℕ_discrete k n) [
  | yes last ↦ rw last (ground (arith, h))
  | no other ↦ all_below-at n k test (ground (arith, h)) (omega (arith, other, below))
]

opens : ℕ → Bool
opens flags =
    (bit_and (open_flags flags) 0x04 == 0) && (bit_or (open_flags flags) 0x04 == bit_or flags 0x04)

open_flags_byte :
    (flags : ℕ)
    → flags < 256
    → (bit_and (open_flags flags) 0x04 ≡ 0) × (bit_or (open_flags flags) 0x04 ≡ bit_or flags 0x04)
unfolding all_below opens
open_flags_byte flags byte =
    let both = all_below-at 256 flags opens refl byte in
    (ground (arith, both), ground (arith, both))

-- With a limit from one byte to what a header can announce, and flags that are a byte: a frame whose
-- block fits stays as it is. Any other becomes a frame of its type and stream, with its flags but for
-- END_HEADERS, and CONTINUATION frames behind it, whose fragments together are its block, none of them
-- empty or larger than the limit; END_HEADERS is set on the last of them only.
pub split_lem :
    (allowed : ℕ) (bytes : List ℕ)
    → 0 < allowed
    → allowed ≤ max_frame_size
    → get_or bytes 4 0 < 256
    → (length bytes ≤ frame_header_size + allowed × split allowed bytes ≡ bytes)
      ⊎ ((flags : ℕ) × (first rest written : List ℕ) × (bit_and flags 0x04 ≡ 0)
          × (bit_or flags 0x04 ≡ bit_or (get_or bytes 4 0) 0x04)
          × (length first ≡ allowed)
          × (first ++ rest ≡ drop frame_header_size bytes)
          × (0 < length rest)
          × (split allowed bytes
              ≡ piece (get_or bytes 3 0) flags (bit_and (decode_number bytes 5) max_stream_id) first
                ++ written)
          × Cut allowed (bit_and (decode_number bytes 5) max_stream_id) rest written)
unfolding split
split_lem allowed bytes some_allowed small byte =
    elim (Bool-cases (leb (length bytes - frame_header_size) allowed)) [
      | inl fits ↦ inl (ground (arith, fits), rw fits refl)
      | inr large ↦
          let (ended, others) = open_flags_byte (get_or bytes 4 0) byte in
          inr (
            open_flags (get_or bytes 4 0),
            slice bytes frame_header_size allowed,
            drop (frame_header_size + allowed) bytes,
            split_loop (length bytes) allowed bytes (frame_header_size + allowed)
                (bit_and (decode_number bytes 5) max_stream_id),
            ended,
            others,
            length-slice bytes frame_header_size allowed (ground (arith, large)),
            slice-drop bytes frame_header_size allowed,
            ground (arith, large, length-drop (frame_header_size + allowed) bytes),
            rw large (
                ap
                  (λ first.
                    first
                    ++ split_loop (length bytes) allowed bytes (frame_header_size + allowed)
                        (bit_and (decode_number bytes 5) max_stream_id))
                  (framed-piece (get_or bytes 3 0) (open_flags (get_or bytes 4 0))
                    (bit_and (decode_number bytes 5) max_stream_id)
                    (slice bytes frame_header_size allowed)
                    (omega (
                      arith,
                      small,
                      length-slice bytes frame_header_size allowed (ground (arith, large)),
                    )))),
            split_loop-Cut allowed (bit_and (decode_number bytes 5) max_stream_id) bytes
                some_allowed small (length bytes) (frame_header_size + allowed) (omega arith),
          )
    ]
