-- ===== src/Routing/SourceRoute/Purging.antt =====
-- Expired entries of the topology have no say in a source route, whether they were purged or not.
use rpl.Base.{ℕ, ◌≡◌, refl, Option, none, some, List, arith, ◌↔◌, sym}
use mathlib.Core.Path.{fun_ext, subst}
use rpl.Base.Map.{Map, find}
use rpl.Base.Map.Laws.{IsSorted, find-keep, checked}
use rpl.Ipv6.{Ipv6}
use rpl.Routing.{TopologyEntry, DodagMembership}
use rpl.Routing.SourceRoute.{is_live, purge_topology, parent_of, live_parent, compute_source_route}
use rpl.Routing.SourceRoute.Climbing.{IsRoute, HasRoute, compute_source_route_correct}

parent_of-checked :
    (now : ℕ) (o : Option TopologyEntry) → parent_of now (checked (is_live now) o) ≡ parent_of now o
parent_of-checked now none = refl
parent_of-checked now (some e) = ground arith

pub live_parent-purge :
    (now : ℕ) (m : Map TopologyEntry) (c : ℕ)
    → IsSorted m
    → live_parent now (purge_topology now m) c ≡ live_parent now m c
unfolding live_parent purge_topology
live_parent-purge now m c s =
    ground (arith, find-keep (is_live now) c m s, parent_of-checked now (find c m))

-- The root after PurgeTopology.
abbrev pub purged : ℕ → DodagMembership → DodagMembership
purged now dodag = record dodag { topology = purge_topology now dodag.topology }

HasRoute-purged :
    (dodag : DodagMembership) (now destination : ℕ) (chain : List ℕ)
    → IsSorted dodag.topology
    → HasRoute (purged now dodag) now destination chain ↔ HasRoute dodag now destination chain
HasRoute-purged dodag now destination chain s = (
  (λ h. (h.0, subst (λ f. IsRoute f dodag.dodag_id destination h.0) (fun_ext same) h.1, h.2)),
  λ h. (h.0, subst (λ f. IsRoute f dodag.dodag_id destination h.0) (sym (fun_ext same)) h.1, h.2),
)
  where
    same :
        (c : ℕ)
        → live_parent now (purge_topology now dodag.topology) c ≡ live_parent now dodag.topology c
    same c = live_parent-purge now dodag.topology c s

Option-ext : {A : Type 0} (o p : Option A) → ((a : A) → (o ≡ some a) ↔ (p ≡ some a)) → o ≡ p
Option-ext none none h = refl
Option-ext none (some a) h = (h a).1 refl
Option-ext (some a) p h = sym ((h a).0 refl)

-- PurgeTopology changes no answer of ComputeSourceRoute at the same time, on a topology kept in
-- ascending order of the target: what it erases, the loop would have refused.
pub compute_source_route-purge :
    (net : Ipv6) (dodag : DodagMembership) (now destination : ℕ)
    → IsSorted dodag.topology
    → compute_source_route net (purged now dodag) now destination
      ≡ compute_source_route net dodag now destination
compute_source_route-purge net dodag now destination s = Option-ext _ _ (λ hops.
    let before = compute_source_route_correct net (purged now dodag) now destination hops in
    let after = compute_source_route_correct net dodag now destination hops in
    (
      (λ h.
          let (root, (chain, route, o)) = before.0 h in
          after.1 (root, (chain, (HasRoute-purged dodag now destination chain s).0 route, o))),
      λ h.
          let (root, (chain, route, o)) = after.0 h in
          before.1 (root, (chain, (HasRoute-purged dodag now destination chain s).1 route, o)),
    ))
