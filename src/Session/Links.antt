-- ===== src/Session/Links.antt =====
-- The tree of the priorities as what a stream depends on: a list of identifiers with their
-- dependencies, in the order of the table, and what the moves of the table do to the lookup.
use viriatum.Base.{ℕ, List, [], ◌∷◌, Option, none, some, ◌==◌}
use viriatum.Base.{if◌then◌else◌, ◌≡◌, ◌≢◌, refl, sym, ap, ◌∙◌, ◌⊎◌, inl, inr, arith}
use viriatum.Base.{ℕ_discrete}

abbrev pub Links : Type 0
Links = List (ℕ × ℕ)

unfoldable pub parent : Links → ℕ → Option ℕ
parent [] id = none
parent ((k, d) ∷ ls) id = if k == id then some d else parent ls id

-- The end of the walk from a stream: it leaves the table, so that it is on no cycle.
pub data Rooted (p : ℕ → Option ℕ) : ℕ → Type 0 where
  gone : {id : ℕ} → p id ≡ none → Rooted p id
  up : {id d : ℕ} → p id ≡ some d → Rooted p d → Rooted p id

-- The walk from one stream to another, along the dependencies.
pub data Reaches (p : ℕ → Option ℕ) : ℕ → ℕ → Type 0 where
  here : {id : ℕ} → Reaches p id id
  above : {id d target : ℕ} → p id ≡ some d → Reaches p d target → Reaches p id target

abbrev pub IsForest : (ℕ → Option ℕ) → Type 0
IsForest p = (id : ℕ) → Rooted p id

pub snoc_reach : {p : ℕ → Option ℕ} {a b c : ℕ} → Reaches p a b → p b ≡ some c → Reaches p a c
snoc_reach here e = above e here
snoc_reach (above step walk) e = above step (snoc_reach walk e)

pub some-inj : {a b : ℕ} {o : Option ℕ} → o ≡ some a → o ≡ some b → a ≡ b
some-inj h k = cc

pub reach-cong : {p : ℕ → Option ℕ} {a b c : ℕ} → b ≡ c → Reaches p a b → Reaches p a c
reach-cong e walk = rw (← e) walk

-- No walk comes back to where it began.
pub no_cycle : {p : ℕ → Option ℕ} {id d : ℕ} → Rooted p id → p id ≡ some d → Reaches p d id → ⊥
no_cycle (gone e) step walk = ground arith
no_cycle {p} (up {d = d'} e r) step here = let q = some-inj step e in no_cycle r (rw q at step) here
no_cycle {p} (up {d = d'} e r) step (above s w) =
    let q = some-inj step e in no_cycle r (ap p (sym q) ∙ s) (reach-cong q (snoc_reach w step))

-- `Rooted` of where a walk goes.
pub Rooted-at : {p : ℕ → Option ℕ} {id d : ℕ} → IsForest p → p id ≡ some d → Rooted p d
Rooted-at forest e = forest _

-- A stream is hung below one that is not below it.
pub move :
    {p q : ℕ → Option ℕ} (s d : ℕ)
    → IsForest p
    → ¬ Reaches p d s
    → q s ≡ some d
    → ((x : ℕ) → x ≢ s → q x ≡ p x)
    → IsForest q
move {p} {q} s d forest apart at_s rest id = everywhere (forest id)
  where
    beside : {x : ℕ} → Rooted p x → ¬ Reaches p x s → Rooted q x
    beside {x} (gone e) far = gone (rest x (λ same. far (reach-cong same here)) ∙ e)
    beside {x} (up e r) far =
        up (rest x (λ same. far (reach-cong same here)) ∙ e) (beside r (λ w. far (above e w)))

    hung : Rooted q s
    hung = up at_s (beside (forest d) apart)

    everywhere : {x : ℕ} → Rooted p x → Rooted q x
    everywhere {x} (gone e) = elim (ℕ_discrete x s) [
      | yes same ↦ rw same hung
      | no other ↦ gone (rest x other ∙ e)
    ]
    everywhere {x} (up e r) =
        let above_x = everywhere r in
        elim (ℕ_discrete x s) [ yes same ↦ rw same hung | no other ↦ up (rest x other ∙ e) above_x ]

module _ {p : ℕ → Option ℕ} (s d : ℕ) (forest : IsForest p) where
  -- What is below `d` comes to hang from `s`, which itself hangs from `d`.
  pub adopt :
      {q : ℕ → Option ℕ}
      → p s ≡ some d
      → q s ≡ some d
      → ((x : ℕ) → x ≢ s → (p x ≡ some d × q x ≡ some s) ⊎ (q x ≡ p x))
      → IsForest q
  adopt {q} hung at_s rest id = everywhere (forest id)
    where
      everywhere : {x : ℕ} → Rooted p x → Rooted q x
      everywhere {x} (gone e) = elim (ℕ_discrete x s) [
        | yes same ↦ cc
        | no other ↦ elim (rest x other) [ inl both ↦ cc | inr kept ↦ gone (kept ∙ e) ]
      ]
      everywhere {x} (up e r) =
          let above_x = everywhere r in
          elim (ℕ_discrete x s) [
            | yes same ↦ up (ap q same ∙ at_s ∙ sym hung ∙ ap p (sym same) ∙ e) above_x
            | no other ↦ elim (rest x other) [
              | inl both ↦ up both.1 (up (at_s ∙ sym both.0 ∙ e) above_x)
              | inr kept ↦ up (kept ∙ e) above_x
            ]
          ]

  -- `s` goes, and what hung from it hangs from `d`.
  pub leave :
      {q : ℕ → Option ℕ}
      → p s ≡ some d
      → q s ≡ none
      → ((x : ℕ) → x ≢ s → (p x ≡ some s × q x ≡ some d) ⊎ (p x ≢ some s × q x ≡ p x))
      → IsForest q
  leave {q} hung at_s rest id = everywhere (forest id)
    where
      kept_at : (x : ℕ) → ¬ Reaches p x s → q x ≡ p x
      kept_at x far = elim (rest x (λ same. far (reach-cong same here))) [
        | inl both ↦ absurd (far (above both.0 here))
        | inr kept ↦ kept.1
      ]

      beside : {x : ℕ} → Rooted p x → ¬ Reaches p x s → Rooted q x
      beside {x} (gone e) far = gone (kept_at x far ∙ e)
      beside {x} (up e r) far = up (kept_at x far ∙ e) (beside r (λ w. far (above e w)))

      hanging : Rooted q d
      hanging = beside (forest d) (λ walk. no_cycle (forest s) hung walk)

      everywhere : {x : ℕ} → Rooted p x → Rooted q x
      everywhere {x} (gone e) = elim (ℕ_discrete x s) [
        | yes same ↦ cc
        | no other ↦ elim (rest x other) [ inl both ↦ cc | inr kept ↦ gone (kept.1 ∙ e) ]
      ]
      everywhere {x} (up e r) =
          let above_x = everywhere r in
          elim (ℕ_discrete x s) [
            | yes same ↦ gone (ap q same ∙ at_s)
            | no other ↦ elim (rest x other) [
              | inl both ↦ up both.1 hanging
              | inr kept ↦ up (kept.1 ∙ e) above_x
            ]
          ]

join_reach : {p : ℕ → Option ℕ} {a b c : ℕ} → Reaches p a b → Reaches p b c → Reaches p a c
join_reach here v = v
join_reach (above e w) v = above e (join_reach w v)

-- A walk after a change at `k` is one before it, or comes by `k`.
old_walk :
    {p q : ℕ → Option ℕ} (k : ℕ) {x target : ℕ}
    → ((y : ℕ) → y ≢ k → q y ≡ p y)
    → Reaches q x target
    → Reaches p x target ⊎ Reaches p x k
old_walk k rest here = inl here
old_walk {p} {q} k {x} rest (above e w) = elim (ℕ_discrete x k) [
  | yes same ↦ inr (reach-cong same here)
  | no other ↦ elim (old_walk k rest w) [
    | inl v ↦ inl (above (sym (rest x other) ∙ e) v)
    | inr v ↦ inr (above (sym (rest x other) ∙ e) v)
  ]
]

-- The new parent `d`, below `s`, takes the place of `s`: the tree stays one, and `d` is no longer
-- below `s`.
pub lift :
    {p q : ℕ → Option ℕ} (s d over : ℕ)
    → IsForest p
    → d ≢ s
    → Reaches p d s
    → p s ≡ some over
    → q d ≡ some over
    → ((y : ℕ) → y ≢ d → q y ≡ p y)
    → IsForest q × ¬ Reaches q d s
lift {p} {q} s d over forest ne below hung at_d rest = (
  move d over forest (λ back. no_cycle (forest s) hung (join_reach back below)) at_d rest,
  off refl,
)
  where
    off : {x : ℕ} → x ≡ d → Reaches q x s → ⊥
    off same here = ne (sym same)
    off same (above e w) = elim (old_walk d rest w) [
      | inl v ↦ no_cycle (forest s) (hung ∙ sym at_d ∙ ap q (sym same) ∙ e) v
      | inr v ↦ no_cycle (forest s) (hung ∙ sym at_d ∙ ap q (sym same) ∙ e) (join_reach v below)
    ]

hung_at : (ℕ → Option ℕ) → ℕ → ℕ → ℕ → Option ℕ
hung_at p s d x = if x == s then some d else p x

hung_at_self : (p : ℕ → Option ℕ) (s d : ℕ) → hung_at p s d s ≡ some d
unfolding hung_at
hung_at_self p s d = ground arith

hung_at-ne : (p : ℕ → Option ℕ) (s d x : ℕ) → x ≢ s → hung_at p s d x ≡ p x
unfolding hung_at
hung_at-ne p s d x ne = ground arith

-- The stream is placed below `d`, alone or over its siblings.
pub place :
    {p q : ℕ → Option ℕ} (s d : ℕ)
    → IsForest p
    → ¬ Reaches p d s
    → q s ≡ some d
    → ((x : ℕ) → x ≢ s → (p x ≡ some d × q x ≡ some s) ⊎ (q x ≡ p x))
    → IsForest q
place {p} {q} s d forest apart at_s rest =
    let off = hung_at-ne p s d in
    let hung = hung_at_self p s d in
    adopt s d (move s d forest apart hung off) hung at_s (λ x ne. elim (rest x ne) [
      | inl both ↦ inl (off x ne ∙ both.0, both.1)
      | inr kept ↦ inr (kept ∙ sym (off x ne))
    ])

-- A walk that goes somewhere begins in the table.
pub moving : {p : ℕ → Option ℕ} {d s : ℕ} → Reaches p d s → d ≢ s → p d ≢ none
moving here ne = absurd (ne refl)
moving (above e w) ne = λ lost. cc
