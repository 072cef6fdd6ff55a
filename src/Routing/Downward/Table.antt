-- ===== src/Routing/Downward/Table.antt =====
-- The downward routes as targets arrive: what a report can and cannot change.
use rpl.Base.{
  ℕ, ◌≡◌, ◌≢◌, ◌⊎◌, inl, inr, refl, Bool, true, false, Option, none, some, arith, Option-cases,
  Bool-cases, ◌==◌,
}
use rpl.Base.Map.{Map, find}
use rpl.Base.Map.Laws.{find-insert, find-erase}
use rpl.Sequence.{SequenceOrder, less, equal, greater, not_comparable, sequence_compare}
use rpl.Routing.{DownwardRoute}
use rpl.Routing.Downward.{Arrival, is_stale, new_route, store_downward}

-- A report about one target leaves the routes to every other target as they are.
pub store_downward_others :
    (a : Arrival) (target s l other : ℕ) (m : Map DownwardRoute)
    → target ≢ other
    → find other (store_downward a target s l m).0 ≡ find other m
unfolding store_downward
store_downward_others a target s l other m ne =
    ground (arith, find-insert target other (new_route a s l) m, find-erase target other m)

-- What the report of a target, with Path Sequence `s`, leaves of a route that was held: the route
-- itself, or, where `s` is newer or the same, no route or one with that Path Sequence.
abbrev pub Superseded : ℕ → DownwardRoute → Option DownwardRoute → Type 0
Superseded s old new =
    (new ≡ some old)
    ⊎ (((sequence_compare s old.path_sequence ≡ greater)
          ⊎ (sequence_compare s old.path_sequence ≡ equal))
        × ((new ≡ none) ⊎ ((r : DownwardRoute) × (new ≡ some r) × (r.path_sequence ≡ s))))

SequenceOrder-stale : (o : SequenceOrder) → is_stale o ≡ true → (o ≡ less) ⊎ (o ≡ not_comparable)
SequenceOrder-stale less h = inl refl
SequenceOrder-stale equal h = absurd (ground arith)
SequenceOrder-stale greater h = absurd (ground arith)
SequenceOrder-stale not_comparable h = inr refl

SequenceOrder-cases : (o : SequenceOrder) → (is_stale o ≡ true) ⊎ ((o ≡ greater) ⊎ (o ≡ equal))
SequenceOrder-cases less = inl refl
SequenceOrder-cases equal = inr (inr refl)
SequenceOrder-cases greater = inr (inl refl)
SequenceOrder-cases not_comparable = inl refl

-- In Storing mode, after a report about a target for which a route is held: the route stands as it
-- was, or the report's Path Sequence is newer than or the same as the one held, and then no route is
-- held or one with the report's. So an older or incomparable report changes nothing, whether or not
-- the route held has expired.
pub store_downward_supersedes :
    (a : Arrival) (target s l : ℕ) (m : Map DownwardRoute) (old : DownwardRoute)
    → find target m ≡ some old
    → Superseded s old (find target (store_downward a target s l m).0)
unfolding store_downward new_route
store_downward_supersedes a target s l m old h =
    elim (Bool-cases (is_stale (sequence_compare s old.path_sequence))) [
      | inl e ↦ inl (ground (arith, h, e))
      | inr e ↦ inr (
        ground (arith, SequenceOrder-cases (sequence_compare s old.path_sequence), e),
        elim (Bool-cases (l == 0)) [
          | inl z ↦ inl (ground (arith, h, e, z, find-erase target target m))
          | inr z ↦ inr (
            new_route a s l,
            ground (arith, h, e, z, find-insert target target (new_route a s l) m),
            refl,
          )
        ],
      )
    ]

pub sequence_compare_equal : (a b : ℕ) → sequence_compare a b ≡ equal → a ≡ b
unfolding sequence_compare
sequence_compare_equal a b h = ground arith

-- A Path Sequence that is newer than the one of a route, or the same.
abbrev pub IsTimely : ℕ → DownwardRoute → Type 0
IsTimely s r =
    (sequence_compare s r.path_sequence ≡ greater) ⊎ (sequence_compare s r.path_sequence ≡ equal)

-- Why a report may change nothing: it withdraws what is not held, or what is held is newer or does not
-- compare.
abbrev pub Untold : ℕ → ℕ → Option DownwardRoute → Type 0
Untold s l none = l ≡ 0
Untold s l (some r) =
    (sequence_compare s r.path_sequence ≡ less)
    ⊎ (sequence_compare s r.path_sequence ≡ not_comparable)

-- A Path Sequence newer than the one held, if a route is.
abbrev pub IsNews : ℕ → Option DownwardRoute → Type 0
IsNews s none = Unit {0}
IsNews s (some r) = sequence_compare s r.path_sequence ≡ greater

-- The three ways a report ends at its target: no change, the route removed, or the route stored.
-- Where it is stored and not to be relayed, the route held had the same Path Sequence.
abbrev pub Outcome : Arrival → ℕ → ℕ → ℕ → Map DownwardRoute → Map DownwardRoute → Bool → Type 0
Outcome a target s l old new changed =
    ((find target new ≡ find target old) × (changed ≡ false) × Untold s l (find target old))
    ⊎ (((l ≡ 0)
          × (find target new ≡ none)
          × (changed ≡ true)
          × ((r : DownwardRoute) × (find target old ≡ some r) × IsTimely s r))
        ⊎ ((l ≢ 0)
            × (find target new ≡ some (new_route a s l))
            × (((changed ≡ true) × IsNews s (find target old))
                ⊎ ((changed ≡ false)
                    × ((r : DownwardRoute) × (find target old ≡ some r) × (s ≡ r.path_sequence))))))

-- Every report in Storing mode ends in one of three ways at its target. The route is as before, and
-- nothing is to be relayed: this is so only where a route is held and the report's Path Sequence is
-- older or does not compare, or where none is held and the report is a withdrawal. Or it is a
-- withdrawal, of a Path Sequence newer than or the same as that of a route that was held, which is
-- removed, and that is relayed. Or it is an advertisement, which is stored: it is relayed if no route was
-- held or one of an older Path Sequence, and is not if it repeats the Path Sequence that was held.
pub store_downward-Outcome :
    (a : Arrival) (target s l : ℕ) (m : Map DownwardRoute)
    → let (new, changed) = store_downward a target s l m in Outcome a target s l m new changed
unfolding store_downward
store_downward-Outcome a target s l m = elim (Option-cases (find target m)) [
  | inl e ↦ unheld e
  | inr (old, e) ↦ elim (SequenceOrder-cases (sequence_compare s old.path_sequence)) [
    | inl o ↦ inl (
      ground (arith, e, o),
      ground (arith, e, o),
      rw e (SequenceOrder-stale (sequence_compare s old.path_sequence) o),
    )
    | inr o ↦ elim (Bool-cases (l == 0)) [
      | inl z ↦ inr (
          inl (
            ground (arith, z),
            ground (arith, e, o, z, find-erase target target m),
            ground (arith, e, o, z),
            (old, e, o),
          ))
      | inr z ↦ inr (
          inr (
            ground (arith, z),
            ground (arith, e, o, z, find-insert target target (new_route a s l) m),
            elim o [
              | inl g ↦ inl (ground (arith, e, z, g), rw e g)
              | inr q ↦
                  inr (
                    ground (arith, e, z, q),
                    (old, e, sequence_compare_equal s old.path_sequence q),
                  )
            ],
          ))
    ]
  ]
]
  where
    unheld :
        find target m ≡ none
        → Outcome a target s l m (store_downward a target s l m).0 (store_downward a target s l m).1
    unheld e = elim (Bool-cases (l == 0)) [
      | inl z ↦ inl (
        ground (arith, e, z, find-erase target target m),
        ground (arith, e, z),
        rw e (ground (arith, z)),
      )
      | inr z ↦ inr (
          inr (
            ground (arith, z),
            ground (arith, e, z, find-insert target target (new_route a s l) m),
            inl (ground (arith, e, z), rw e tt),
          ))
    ]
