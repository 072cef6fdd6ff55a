-- ===== src/Routing/Runs/Selecting.antt =====
-- The choice of a parent at concrete neighbours.
use rpl.Base.{ℕ, true, All, ◌+◌, ◌≤◌, ◌<◌, ◌≡◌, ◌⊎◌, inr, refl, false, some, [], ◌∷◌, arith}
use rpl.Base.Map.{find}
use rpl.Ipv6.Network.{network}
use rpl.Routing.{Parent, DodagMembership, infinite_rank}
use rpl.Routing.HandleDao.{Node}
use rpl.Routing.Parents.{
  is_eligible, parent_switch_threshold, Choice, choose_parent, current_rank, rank_via_parent,
  any_fresh, two_passes, pass, consider, hysteresis, keep_current, path_cost_via_parent,
}
use rpl.Routing.Parents.Best.{Beats, choose_parent_best}
use rpl.Routing.Parents.Choosing.{choose_parent_closer}
use rpl.Routing.Parents.Selection.{unchanged, conclude, select_preferred_parent}
use rpl.Routing.Parents.Selection.Ceiling.{IsWithinCeiling, select_preferred_parent-IsWithinCeiling}
use rpl.Routing.Parents.Selection.Settling.{conclude_settles}
use rpl.Routing.Runs.{membership, neighbour, local_root, local_near}

-- Two established neighbours, the second with the cheaper path.
abbrev router : DodagMembership
router = record (membership 1 false) {
  parents =
      (local_root, record neighbour { path_etx = 400 })
      ∷ (local_near, record neighbour { path_etx = 100 })
      ∷ [];
}

choose_parent_closer_example :
    let choice = choose_parent router in
    (p : Parent) × (find choice.best router.parents ≡ some p)
    × ((current_rank router ≡ infinite_rank) ⊎ (p.rank < current_rank router))
    × (choice.best_rank ≡ rank_via_parent router p)
    × (p.rank + router.min_hop_rank_increase ≤ choice.best_rank)
    × (choice.best_rank < infinite_rank)
unfolding choose_parent current_rank any_fresh two_passes pass consider hysteresis keep_current
    rank_via_parent path_cost_via_parent find
choose_parent_closer_example = choose_parent_closer router (omega arith, tt) refl

abbrev node : Node
node = record {
  now = 100;
  lifetime_unit = 60;
  dodags = router ∷ [];
  interfaces = [];
  sockets = 1 ∷ [];
}

select_preferred_parent-IsWithinCeiling_example :
    IsWithinCeiling (select_preferred_parent network node 7 router).0.0
select_preferred_parent-IsWithinCeiling_example =
    select_preferred_parent-IsWithinCeiling network node 7 router (inr (omega arith))

abbrev choice : Choice
choice = record { best = local_near; best_rank = 512; best_path_cost = 228 }

conclude_settles_example :
    let after = (conclude network node 7 choice router).0.0 in
    conclude network node 8 choice after ≡ ((after, []), unchanged)
conclude_settles_example = conclude_settles network node 7 8 choice router refl

choose_parent_best_example :
    let bound = current_rank router in
    let fresh = (two_passes router bound).1 in
    All
      (λ (e : ℕ × Parent).
        is_eligible router bound fresh e.1 ≡ true
        → Beats router parent_switch_threshold (choose_parent router) e.1)
      router.parents
choose_parent_best_example =
    choose_parent_best router ((λ e. omega arith), ((λ e. omega arith), tt))
