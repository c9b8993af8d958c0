-- ===== src/Session/Walks.antt =====
-- `_descends_http2_connection` as the search for a walk in the tree: the bound on its rounds is never
-- what ends it.
use viriatum.Base.{ℕ, zero, suc, List, [], ◌∷◌, length, arith, ◌<◌, ◌≤◌}
use viriatum.Base.{none, some, true, ◌==◌, if◌then◌else◌, ℕ_discrete}
use viriatum.Base.{◌≡◌, ◌≢◌, refl, sym, ap, ◌∙◌, inl, inr, Option-cases}
use viriatum.Session.{Stream, at}
use viriatum.Session.Links.{
  Links, parent, Reaches, here, above, IsForest, no_cycle, reach-cong, some-inj,
}
use viriatum.Session.Streams.{find_stream}
use viriatum.Session.Tree.{descends}
use viriatum.Session.Dependencies.{links, IsFound, found, not_found}

pub length-links : (streams : List Stream) → length (links streams) ≡ length streams
unfolding links
length-links [] = refl
length-links (st ∷ streams) = ap suc (length-links streams)

-- The links of the streams other than `id`.
pub without : ℕ → Links → Links
without id [] = []
without id ((k, d) ∷ ls) = if k == id then without id ls else (k, d) ∷ without id ls

pub parent-without : (ls : Links) (id x : ℕ) → x ≢ id → parent (without id ls) x ≡ parent ls x
unfolding without parent
parent-without [] id x ne = refl
parent-without ((k, d) ∷ ls) id x ne = ground (arith, parent-without ls id x ne)

gone-without : (ls : Links) (id : ℕ) → parent (without id ls) id ≡ none
unfolding without parent
gone-without [] id = refl
gone-without ((k, d) ∷ ls) id = ground (arith, gone-without ls id)

pub without-within :
    (ls : Links) (id x d : ℕ) → parent (without id ls) x ≡ some d → parent ls x ≡ some d
without-within ls id x d e = elim (ℕ_discrete x id) [
  | yes same ↦ let lost : parent (without id ls) x ≡ none = rw same (gone-without ls id) in cc
  | no other ↦ sym (parent-without ls id x other) ∙ e
]

length-without-le : (ls : Links) (id : ℕ) → length (without id ls) ≤ length ls
unfolding without
length-without-le [] id = omega arith
length-without-le ((k, d) ∷ ls) id = ground (arith, length-without-le ls id)

pub length-without :
    (ls : Links) (id d : ℕ) → parent ls id ≡ some d → length (without id ls) < length ls
unfolding without parent
length-without [] id d e = cc
length-without ((k, y) ∷ ls) id d e =
    ground (arith, length-without-le ls id, length-without ls id d)

-- A walk that keeps off `id` is one without it.
pub avoid :
    (ls : Links) (id : ℕ) {x target : ℕ}
    → Reaches (parent ls) x target
    → ¬ Reaches (parent ls) x id
    → Reaches (parent (without id ls)) x target
avoid ls id here far = here
avoid ls id {x} (above e w) far =
    above (parent-without ls id x (λ same. far (reach-cong same here)) ∙ e)
      (avoid ls id w (λ v. far (above e v)))

module _ (streams : List Stream) (forest : IsForest (parent (links streams)))
    (rootless : parent (links streams) 0 ≡ none) where
  pub lift_walk :
      (sub : Links)
      → ((x d : ℕ) → parent sub x ≡ some d → parent (links streams) x ≡ some d)
      → {x target : ℕ} → Reaches (parent sub) x target
      → Reaches (parent (links streams)) x target
  lift_walk sub within here = here
  lift_walk sub within (above e w) = above (within _ _ e) (lift_walk sub within w)

  descends_within :
      (rounds : ℕ) (sub : Links) {id target end : ℕ}
      → length sub ≤ rounds
      → ((x d : ℕ) → parent sub x ≡ some d → parent (links streams) x ≡ some d)
      → Reaches (parent sub) id target
      → parent sub target ≡ some end
      → descends rounds streams id target ≡ true
  unfolding descends parent
  descends_within zero [] bound within walk last = cc
  descends_within zero (l ∷ ls) bound within walk last = absurd (omega arith)
  descends_within (suc rounds) sub {id} {target} {end} bound within here last =
      let held = within id end last in
      elim (ℕ_discrete id 0) [
        | yes zero_id ↦ let lost = rw zero_id at held in cc
        | no positive ↦ ground arith
      ]
  descends_within (suc rounds) sub {id} {target} {end} bound within (above {d = d} e w) last =
      let held = within id d e in
      elim (ℕ_discrete id 0) [
        | yes zero_id ↦ let lost = rw zero_id at held in cc
        | no positive ↦ elim (ℕ_discrete id target) [
          | yes same ↦ ground arith
          | no other ↦ elim (Option-cases (find_stream streams id)) [
            | inl lost ↦ let none_there = not_found streams id lost in cc
            | inr (slot, at_slot) ↦
                let linked = IsFound.linked (found streams id slot at_slot) in
                let rest =
                  descends_within rounds (without id sub) (omega (arith, length-without sub id d e))
                    (λ x y eq. within x y (without-within sub id x y eq))
                    (avoid sub id w (λ back. no_cycle (forest id) held (lift_walk sub within back)))
                    (parent-without sub id target (λ back. other (sym back)) ∙ last) in
                let same_d = some-inj linked held in ground (arith, rw (← same_d) at rest)
          ]
        ]
      ]

  -- The search finds a stream that is above.
  pub descends_above :
      (id target end : ℕ)
      → Reaches (parent (links streams)) id target
      → parent (links streams) target ≡ some end
      → descends (length streams) streams id target ≡ true
  descends_above id target end walk last =
      descends_within (length streams) (links streams) (omega (arith, length-links streams))
        (λ x d e. e) walk last

-- And what it finds is above.
pub descends-Reaches :
    (rounds : ℕ) (streams : List Stream) (id target : ℕ)
    → descends rounds streams id target ≡ true
    → Reaches (parent (links streams)) id target
unfolding descends
descends-Reaches zero streams id target h = absurd (ground arith)
descends-Reaches (suc rounds) streams id target h = elim (ℕ_discrete id 0) [
  | yes zero_id ↦ absurd (ground arith)
  | no positive ↦ elim (ℕ_discrete id target) [
    | yes same ↦ reach-cong same here
    | no other ↦ elim (Option-cases (find_stream streams id)) [
      | inl lost ↦ absurd (ground arith)
      | inr (slot, at_slot) ↦ above (IsFound.linked (found streams id slot at_slot)) (
          descends-Reaches rounds streams (at streams slot).priority.dependency target
            (ground arith))
    ]
  ]
]
