-- ===== src/Session/Placing.antt =====
-- The moves of `prioritise_stream_http2_connection` and the closing of a stream keep the tree of the
-- priorities a tree.
use viriatum.Base.{ℕ, List, length, modify, arith}
use viriatum.Base.{Option, none, some, Bool, true, false, ℕ_discrete}
use viriatum.Base.{◌≡◌, ◌≢◌, refl, ap, ◌∙◌, ◌⊎◌, inl, inr, Bool-cases, Option-cases}
use viriatum.Http2.{Priority}
use viriatum.Session.{Stream, at}
use viriatum.Session.Links.{parent, Reaches, IsForest, lift, place, moving}
use viriatum.Session.Streams.{find_stream}
use viriatum.Session.Tree.{descends, lift_parent, moves, placed, adopt_siblings, hang}
use viriatum.Session.Dependencies.{
  links, IsFound, found, not_found, missing, parent-modify, find-modify, find-take_over,
  parent-take_over,
}
use viriatum.Session.Walks.{descends_above, descends-Reaches}

-- The tree of the priorities: it has no cycle, and no stream has the identifier of its root.
pub record IsTree (streams : List Stream) : Type 0 where
  pub forest : IsForest (parent (links streams))
  pub rootless : parent (links streams) 0 ≡ none

-- What the first of the moves leaves: a tree in which `d` is not below `s`, and the same slots.
record Lifted (streams lifted : List Stream) (s d : ℕ) : Type 0 where
  tree : IsTree lifted
  apart : ¬ Reaches (parent (links lifted)) d s
  kept : (x : ℕ) → find_stream lifted x ≡ find_stream streams x

lift_parent-Lifted :
    (streams : List Stream) (s d slot : ℕ)
    → IsTree streams
    → find_stream streams s ≡ some slot
    → d ≢ s
    → Lifted streams (lift_parent streams (at streams slot) d) s d
unfolding lift_parent
lift_parent-Lifted streams s d slot tree e ne =
    let own = found streams s slot e in
    elim (Bool-cases (descends (length streams) streams d (at streams slot).stream_id)) [
      | inl below ↦
          let walk = descends-Reaches (length streams) streams d s (rw own.named at below) in
          elim (Option-cases (find_stream streams d)) [
            | inl lost ↦ absurd (moving walk ne (not_found streams d lost))
            | inr (parent_slot, at_parent) ↦
                lifted walk parent_slot at_parent (rw (below, at_parent))
          ]
      | inr beside ↦ unmoved (rw beside) (λ walk.
          let reached =
            descends_above streams tree.forest tree.rootless d s
              (at streams slot).priority.dependency walk own.linked in
          let missed = rw own.named at beside in cc)
    ]
  where
    unmoved :
        lift_parent streams (at streams slot) d ≡ streams
        → ¬ Reaches (parent (links streams)) d s
        → Lifted streams (lift_parent streams (at streams slot) d) s d
    unmoved e apart = rw e (record { tree = tree; apart = apart; kept = λ x. refl })

    lifted :
        Reaches (parent (links streams)) d s
        → (parent_slot : ℕ) → find_stream streams d ≡ some parent_slot
        → lift_parent streams (at streams slot) d
          ≡ modify streams parent_slot (hang (at streams slot).priority.dependency)
        → Lifted streams (lift_parent streams (at streams slot) d) s d
    lifted walk parent_slot at_parent eq =
        let over = (at streams slot).priority.dependency in
        let change =
          λ (x : ℕ). parent-modify streams d parent_slot x (hang over) (λ st. refl) at_parent in
        let own = IsFound.linked (found streams s slot e) in
        let there = IsFound.linked (found streams d parent_slot at_parent) in
        let (forest, apart) =
          lift s d over tree.forest ne walk own (rw (change d) (ground arith))
            (λ y off. rw (change y) (ground arith)) in
        rw eq (record {
          tree = record { forest = forest; rootless = ground (arith, change 0, tree.rootless) };
          apart = apart;
          kept = λ x. find-modify streams parent_slot x (hang over) (λ st. refl);
        })

-- Over the siblings or not, what is hung elsewhere hung from `d` and now hangs from `s`.
adopt-rest :
    (exclusive : Bool) (streams : List Stream) (s d x : ℕ)
    → (find_stream (adopt_siblings exclusive s d streams) x ≡ find_stream streams x)
      × (x ≢ s
          → (parent (links streams) x ≡ some d
              × parent (links (adopt_siblings exclusive s d streams)) x ≡ some s)
            ⊎ (parent (links (adopt_siblings exclusive s d streams)) x ≡ parent (links streams) x))
unfolding adopt_siblings
adopt-rest false streams s d x = (refl, λ ne. inr refl)
adopt-rest true streams s d x =
    let (own, hung, others) = parent-take_over streams s d x in
    (
      find-take_over streams s d x,
      λ ne. elim (Option-discrete (parent (links streams) x) d) [
        | inl at_d ↦ inl (at_d, hung ne at_d)
        | inr off ↦ inr (others ne off)
      ],
    )
  where
    Option-discrete : (o : Option ℕ) (k : ℕ) → (o ≡ some k) ⊎ (o ≢ some k)
    Option-discrete none k = inr (λ e. cc)
    Option-discrete (some y) k = elim (ℕ_discrete y k) [
      | yes e ↦ inl (ap some e)
      | no ne ↦ inr (λ e. ne cc)
    ]

-- Whatever the place is, short of a dependency on itself, the tree of the priorities stays a tree and
-- every stream stays in its slot.
pub moves-IsTree :
    (streams : List Stream) (s slot : ℕ) (priority : Priority)
    → IsTree streams
    → find_stream streams s ≡ some slot
    → priority.dependency ≢ s
    → IsTree (moves streams slot priority)
      × ((x : ℕ) → find_stream (moves streams slot priority) x ≡ find_stream streams x)
unfolding moves
moves-IsTree streams s slot priority tree e ne =
    let own = found streams s slot e in
    let first = lift_parent-Lifted streams s priority.dependency slot tree e ne in
    let lifted = lift_parent streams (at streams slot) priority.dependency in
    rw own.named (
      finish lifted (adopt_siblings priority.exclusive s priority.dependency lifted) first
        (λ x. adopt-rest priority.exclusive lifted s priority.dependency x))
  where
    finish :
        (lifted adopted : List Stream)
        → Lifted streams lifted s priority.dependency
        → ((x : ℕ)
            → (find_stream adopted x ≡ find_stream lifted x)
              × (x ≢ s
                  → (parent (links lifted) x ≡ some priority.dependency
                      × parent (links adopted) x ≡ some s)
                    ⊎ (parent (links adopted) x ≡ parent (links lifted) x)))
        → IsTree (modify adopted slot (placed priority))
          × ((x : ℕ)
              → find_stream (modify adopted slot (placed priority)) x ≡ find_stream streams x)
    finish lifted adopted first rest =
        let at_slot = (rest s).0 ∙ first.kept s ∙ e in
        let change =
          λ (x : ℕ). parent-modify adopted s slot x (placed priority) (λ st. refl) at_slot in
        let slots = λ (x : ℕ).
          find-modify adopted slot x (placed priority) (λ st. refl) ∙ (rest x).0 ∙ first.kept x in
        let forest =
          place s priority.dependency first.tree.forest first.apart (rw (change s) (ground arith))
            (λ x off. elim ((rest x).1 off) [
              | inl both ↦ inl (both.0, rw (change x) (ground (arith, both.1)))
              | inr kept ↦ inr (rw (change x) (ground (arith, kept)))
            ]) in
        (
          record {
            forest = forest;
            rootless = not_found _ 0 (slots 0 ∙ missing streams 0 tree.rootless);
          },
          slots,
        )
