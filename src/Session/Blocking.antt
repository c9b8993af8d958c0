-- ===== src/Session/Blocking.antt =====
-- `_blocked_http2_connection` against the tree: the bound on its rounds is never what ends the walk.
use viriatum.Base.{ℕ, zero, suc, ◌≤◌, List, [], ◌∷◌, length, true, ℕ_discrete, arith}
use viriatum.Base.{some, inl, inr, sym, ◌≡◌, ◌∙◌, Option-cases}
use viriatum.Session.{Stream, at}
use viriatum.Session.Links.{Links, parent, Reaches, here, above, no_cycle, some-inj}
use viriatum.Session.Streams.{find_stream}
use viriatum.Session.Schedule.{able, blocked_loop, blocked}
use viriatum.Session.Dependencies.{links, IsFound, found, not_found}
use viriatum.Session.Walks.{
  length-links, without, parent-without, without-within, length-without, avoid, lift_walk,
}
use viriatum.Session.Placing.{IsTree}

module _ (streams : List Stream) (tree : IsTree streams) where
  blocked_within :
      (rounds : ℕ) (sub : Links) {id target end : ℕ} (top : ℕ)
      → length sub ≤ rounds
      → ((x d : ℕ) → parent sub x ≡ some d → parent (links streams) x ≡ some d)
      → Reaches (parent sub) id target
      → parent sub target ≡ some end
      → find_stream streams target ≡ some top
      → able (at streams top) ≡ true
      → blocked_loop rounds streams id ≡ true
  unfolding blocked_loop parent
  blocked_within zero [] top bound within walk last place is_able = cc
  blocked_within zero (l ∷ ls) top bound within walk last place is_able = absurd (omega arith)
  blocked_within (suc rounds) sub {id} {target} {end} top bound within here last place is_able =
      let held = within id end last in
      elim (ℕ_discrete id 0) [
        | yes zero_id ↦ let lost = rw zero_id at held in let root = tree.rootless in cc
        | no positive ↦ rw (place, is_able) (ground arith)
      ]
  blocked_within (suc rounds) sub {id} {target} {end} top bound within (above {d = d} e w) last
        place is_able =
      let held = within id d e in
      elim (ℕ_discrete id 0) [
        | yes zero_id ↦ let lost = rw zero_id at held in let root = tree.rootless in cc
        | no positive ↦ elim (ℕ_discrete id target) [
          | yes same ↦ rw (rw (← same) at place, is_able) (ground arith)
          | no other ↦ elim (Option-cases (find_stream streams id)) [
            | inl lost ↦ let none_there = not_found streams id lost in cc
            | inr (slot, at_slot) ↦
                let linked = IsFound.linked (found streams id slot at_slot) in
                let rest =
                  blocked_within rounds (without id sub) top
                    (omega (arith, length-without sub id d e))
                    (λ x y eq. within x y (without-within sub id x y eq))
                    (avoid sub id w (λ back.
                      no_cycle (tree.forest id) held
                        (lift_walk streams tree.forest tree.rootless sub within back)))
                    (parent-without sub id target (λ back. other (sym back)) ∙ last) place
                    is_able in
                let same_d = some-inj linked held in
                let up : blocked_loop rounds streams (at streams slot).priority.dependency ≡ true =
                  rw (← same_d) at rest in
                rw at_slot (ground (arith, up))
          ]
        ]
      ]

  -- A stream that is able and above another one holds it back.
  pub blocked-holds :
      (st : Stream) (target end top : ℕ)
      → Reaches (parent (links streams)) st.priority.dependency target
      → parent (links streams) target ≡ some end
      → find_stream streams target ≡ some top
      → able (at streams top) ≡ true
      → blocked streams st ≡ true
  unfolding blocked
  blocked-holds st target end top walk last place is_able =
      blocked_within (length streams) (links streams) top (omega (arith, length-links streams))
        (λ x d e. e) walk last place is_able
