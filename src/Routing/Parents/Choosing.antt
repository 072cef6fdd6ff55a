-- ===== src/Routing/Parents/Choosing.antt =====
-- Which parent is chosen.
use rpl.Base.{
  ℕ, ◌+◌, ◌≤◌, ◌<◌, ◌≡◌, ◌⊎◌, inl, inr, refl, Bool, true, false, not, ◌&&◌, Option, none, some, [],
  ◌∷◌, All, arith, Bool-cases, ltb,
}
use rpl.Base.Map.{Map, find}
use rpl.Base.Map.Laws.{IsSorted, IsSorted-of, find-Above}
use rpl.Ipv6.{is_any}
use rpl.Routing.{Parent, DodagMembership, infinite_rank}
use rpl.Routing.Parents.{
  Choice, no_choice, is_mrhof, path_cost_via_parent, rank_via_parent, is_eligible, is_better,
  consider, pass, two_passes, parent_switch_threshold, keep_current, hysteresis, choose_parent,
  current_rank, any_fresh,
}

-- A choice that was made names an eligible neighbour of the map, with the rank through it.
abbrev pub IsChosen : DodagMembership → ℕ → Bool → Choice → Type 0
IsChosen dodag bound require_fresh choice =
    (p : Parent) × (find choice.best dodag.parents ≡ some p)
    × (is_eligible dodag bound require_fresh p ≡ true)
    × (choice.best_rank ≡ rank_via_parent dodag p)

abbrev IsSound : DodagMembership → ℕ → Bool → Choice → Type 0
IsSound dodag bound require_fresh choice =
    (is_any choice.best ≡ true) ⊎ IsChosen dodag bound require_fresh choice

-- The entries of a map that a lookup finds.
abbrev IsEntry : DodagMembership → ℕ × Parent → Type 0
IsEntry dodag e = find e.0 dodag.parents ≡ some e.1

consider-IsSound :
    (dodag : DodagMembership) (bound : ℕ) (require_fresh : Bool) (e : ℕ × Parent) (choice : Choice)
    → IsEntry dodag e
    → IsSound dodag bound require_fresh choice
    → IsSound dodag bound require_fresh (consider dodag bound require_fresh e.0 e.1 choice)
unfolding consider
consider-IsSound dodag bound require_fresh (address, parent) choice entry sound =
    elim (Bool-cases (is_eligible dodag bound require_fresh parent)) [
      | inl e ↦ elim (Bool-cases (is_better dodag choice address parent)) [
        | inl b ↦ rw (e, b) (inr (parent, entry, e, refl))
        | inr b ↦ rw (e, b) sound
      ]
      | inr e ↦ rw e sound
    ]

pass-IsSound :
    (dodag : DodagMembership) (bound : ℕ) (require_fresh : Bool) (es : Map Parent) (choice : Choice)
    → All (IsEntry dodag) es
    → IsSound dodag bound require_fresh choice
    → IsSound dodag bound require_fresh (pass dodag bound require_fresh es choice)
unfolding pass
pass-IsSound dodag bound require_fresh [] choice entries sound = sound
pass-IsSound dodag bound require_fresh ((address, parent) ∷ es) choice entries sound =
    pass-IsSound dodag bound require_fresh es _ entries.1
      (consider-IsSound dodag bound require_fresh (address, parent) choice entries.0 sound)

-- Every entry of a map in ascending order is found at its key.
entries :
    (dodag : DodagMembership) (m : Map Parent)
    → IsSorted m
    → ((k : ℕ) (p : Parent) → find k m ≡ some p → find k dodag.parents ≡ some p)
    → All (IsEntry dodag) m
unfolding find
entries dodag [] s h = tt
entries dodag ((k, p) ∷ m) s h = (
  h k p (ground arith),
  entries dodag m (IsSorted-of k m s) (λ j q e. h j q (ground (arith, e, find-Above k j m s))),
)

two_passes-IsSound :
    (dodag : DodagMembership) (bound : ℕ)
    → IsSorted dodag.parents
    → let (choice, require_fresh) = two_passes dodag bound in
      IsSound dodag bound require_fresh choice
unfolding two_passes
two_passes-IsSound dodag bound sorted =
    let all = entries dodag dodag.parents sorted (λ k p e. e) in
    let fresh = any_fresh dodag.parents in
    let first = pass dodag bound fresh dodag.parents no_choice in
    elim (Bool-cases (is_any first.best)) [
      | inl e ↦ rw e (pass-IsSound dodag bound false dodag.parents first all (inl e))
      | inr e ↦ rw e (pass-IsSound dodag bound fresh dodag.parents no_choice all (inl refl))
    ]

keep_current-IsSound :
    (dodag : DodagMembership) (bound : ℕ) (require_fresh : Bool) (o : Option Parent)
    (choice : Choice)
    → find dodag.preferred_parent dodag.parents ≡ o
    → IsSound dodag bound require_fresh choice
    → IsSound dodag bound require_fresh (keep_current dodag bound require_fresh o choice)
unfolding keep_current
keep_current-IsSound dodag bound require_fresh none choice found sound = sound
keep_current-IsSound dodag bound require_fresh (some current) choice found sound =
    elim (Bool-cases (is_eligible dodag bound require_fresh current)) [
      | inl e ↦
          elim (Bool-cases (
            ltb (path_cost_via_parent current) (choice.best_path_cost + parent_switch_threshold))) [
              | inl b ↦ rw (e, b) (inr (current, found, e, refl))
              | inr b ↦ rw (e, b) sound
            ]
      | inr e ↦ rw e sound
    ]

hysteresis-IsSound :
    (dodag : DodagMembership) (bound : ℕ) (found : Choice × Bool)
    → IsSound dodag bound found.1 found.0
    → IsSound dodag bound found.1 (hysteresis dodag bound found)
unfolding hysteresis
hysteresis-IsSound dodag bound (choice, require_fresh) sound =
    elim (Bool-cases (is_mrhof dodag && not (is_any choice.best))) [
      | inl e ↦ rw e (keep_current-IsSound dodag bound require_fresh _ choice refl sound)
      | inr e ↦ rw e sound
    ]

-- What `is_eligible` and the rank through an eligible parent say together.
eligible_rank :
    (dodag : DodagMembership) (bound : ℕ) (require_fresh : Bool) (p : Parent)
    → is_eligible dodag bound require_fresh p ≡ true
    → ((bound ≡ infinite_rank) ⊎ (p.rank < bound))
      × (p.rank + dodag.min_hop_rank_increase ≤ rank_via_parent dodag p)
      × (rank_via_parent dodag p < infinite_rank)
unfolding rank_via_parent
eligible_rank dodag bound require_fresh p h = ground arith

-- A parent that SelectPreferredParent chooses is one of the neighbours held, and its rank is below
-- the bound that the node's own rank sets, unless that bound is the infinite rank. The node's new
-- rank is the rank through it: finite, and above the parent's by MinHopRankIncrease at least. This
-- is so under OF0 and under MRHOF, with and without hysteresis, on neighbours kept in ascending
-- order of the address.
pub choose_parent_closer :
    (dodag : DodagMembership)
    → IsSorted dodag.parents
    → is_any (choose_parent dodag).best ≡ false
    → let choice = choose_parent dodag in
      (p : Parent) × (find choice.best dodag.parents ≡ some p)
      × ((current_rank dodag ≡ infinite_rank) ⊎ (p.rank < current_rank dodag))
      × (choice.best_rank ≡ rank_via_parent dodag p)
      × (p.rank + dodag.min_hop_rank_increase ≤ choice.best_rank)
      × (choice.best_rank < infinite_rank)
unfolding choose_parent
choose_parent_closer dodag sorted some_best =
    let bound = current_rank dodag in
    let passes = two_passes dodag bound in
    elim (hysteresis-IsSound dodag bound passes (two_passes-IsSound dodag bound sorted)) [
      | inl e ↦ absurd (ground (arith, e, some_best))
      | inr (p, found, eligible, rank) ↦
          let (closer, above, finite) = eligible_rank dodag bound passes.1 p eligible in
          (p, found, closer, rank, rw rank above, rw rank finite)
    ]
