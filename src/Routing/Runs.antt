-- ===== src/Routing/Runs.antt =====
-- The routing of a DODAG at concrete values: a root, a Storing router and its neighbours.
mod Daos
mod Selecting
mod Joining
mod Retries
use rpl.Base.{
  ℕ, ◌+◌, ◌≤◌, ◌<◌, ◌≡◌, ◌≢◌, ◌↔◌, ◌⊎◌, inl, inr, refl, Bool, true, false, Option, none, some, List,
  [], ◌∷◌, ◌++◌, ◌&&◌, ◌==◌, if◌then◌else◌, map, length, arith,
}
use rpl.Base.Map.{Map, find, insert}
use rpl.Base.Map.Keys.{Distinct}
use rpl.Ipv6.{any}
use rpl.Ipv6.Network.{network}
use rpl.Trickle.{init}
use rpl.Header.Dao.{AdditionalTarget, DaoHeader}
use rpl.Header.DaoAck.{DaoAckHeader}
use rpl.Routing.{
  TopologyEntry, DownwardRoute, Parent, DodagMembership, find_dodag, find_dodag_by_instance,
  lower_bound, infinite_rank,
}
use rpl.Routing.SourceRoute.{live_parent, compute_source_route, link_local_of}
use rpl.Routing.SourceRoute.Climbing.{IsRoute, HasRoute, compute_source_route_correct}
use rpl.Routing.SourceRoute.Purging.{purged, compute_source_route-purge}

abbrev root_address : ℕ
root_address = 0x2001_0001_0000_0000_0000_0000_0000_0001

abbrev near : ℕ
near = 0x2001_0001_0000_0000_0000_0000_0000_0002

abbrev far : ℕ
far = 0x2001_0001_0000_0000_0000_0000_0000_0003

abbrev local_near : ℕ
local_near = 0xfe80_0000_0000_0000_0000_0000_0000_0002

abbrev local_root : ℕ
local_root = 0xfe80_0000_0000_0000_0000_0000_0000_0001

abbrev topology_entry : ℕ → ℕ → TopologyEntry
topology_entry parent expire = record { parent = parent; path_sequence = 240; expire = expire }

abbrev neighbour : Parent
neighbour = record {
  interface = 1;
  rank = 256;
  dtsn = 0;
  last_heard = 50;
  freshness = 5;
  etx = 128;
  path_etx = 0;
  lql = 0;
}

abbrev membership : ℕ → Bool → DodagMembership
membership mop is_root = record {
  instance_id = 0;
  dodag_id = root_address;
  is_root = is_root;
  version = 240;
  rank = 512;
  mop = mop;
  dtsn = 0;
  grounded = true;
  preference = 0;
  ocp = 1;
  min_hop_rank_increase = 256;
  max_rank_increase = 1792;
  lowest_rank_this_version = 512;
  path_etx = 0;
  dio_interval_min = 4_096_000_000;
  dio_interval_doublings = 8;
  dio_redundancy = 10;
  has_prefix_info = false;
  prefix = any;
  prefix_length = 0;
  prefix_on_link = false;
  prefix_autonomous = false;
  prefix_valid_lifetime = 0;
  prefix_preferred_lifetime = 0;
  dio_trickle = init;
  parents = (local_root, neighbour) ∷ [];
  preferred_parent = local_root;
  dao_sequence = 241;
  path_sequence = 240;
  dao_ack_pending = true;
  dao_refresh_pending = false;
  dao_retries_left = 0;
  dao_event = none;
  dao_retry_event = some 10;
  global_repair_event = none;
  topology = (near, topology_entry root_address 500) ∷ (far, topology_entry near 500) ∷ [];
  downward_routes = [];
  aodv_target = any;
  dro_retry_event = none;
  dro_collect_event = none;
}

abbrev root : DodagMembership
root = membership 1 true

compute_source_route_correct_example :
    (compute_source_route network root 100 far
      ≡ some (map (link_local_of network) (near ∷ far ∷ [])))
    ↔ ((root.is_root ≡ true)
        × ((chain : List ℕ) × HasRoute root 100 far chain
            × (map (link_local_of network) (near ∷ far ∷ []) ≡ map (link_local_of network) chain)))
compute_source_route_correct_example =
    compute_source_route_correct network root 100 far
      (map (link_local_of network) (near ∷ far ∷ []))

far-IsRoute : IsRoute (live_parent 100 root.topology) root.dodag_id far (far ∷ near ∷ [])
unfolding live_parent find
far-IsRoute = (refl, (near, refl, (λ e. omega arith), (refl, refl)))

-- The route is found.
far_hops :
    compute_source_route network root 100 far ≡ some (map (link_local_of network) (near ∷ far ∷ []))
far_hops =
    compute_source_route_correct_example.1
      (refl, (near ∷ far ∷ [], (far ∷ near ∷ [], far-IsRoute, refl), refl))

compute_source_route-purge_example :
    compute_source_route network (purged 100 root) 100 far
    ≡ compute_source_route network root 100 far
compute_source_route-purge_example =
    compute_source_route-purge network root 100 far (omega arith, tt)
