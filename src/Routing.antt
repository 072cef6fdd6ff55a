-- ===== src/Routing.antt =====
-- The state that RplRoutingProtocol (model/rpl-routing-protocol.h) keeps of a DODAG it belongs to.
-- Times are nanoseconds, and a time that never comes is Time::Max().
pub mod SourceRoute
pub mod Addresses
mod Runs
pub mod Downward
pub mod HandleDao
pub mod HandleDio
pub mod HopByHop
pub mod NoPath
pub mod Membership
pub mod Lookup
pub mod Parents
pub mod SendDao
use rpl.Base.{
  ℕ, ◌+◌, ◌-◌, ◌*◌, ◌^◌, Bool, not, ◌||◌, ◌&&◌, Option, none, some, List, [], ◌∷◌, ltb, leb, ◌==◌,
  if◌then◌else◌,
}
use rpl.Base.Map.{Map}
use rpl.Trickle.{TrickleTimer}

pub record TopologyEntry : Type 0 where
  pub parent : ℕ
  pub path_sequence : ℕ
  pub expire : ℕ

pub record DownwardRoute : Type 0 where
  pub next_hop : ℕ
  pub interface : ℕ
  pub path_sequence : ℕ
  pub path_lifetime : ℕ
  pub expire : ℕ

pub record Parent : Type 0 where
  pub interface : ℕ
  pub rank : ℕ
  pub dtsn : ℕ
  pub last_heard : ℕ
  pub freshness : ℕ
  pub etx : ℕ
  pub path_etx : ℕ
  pub lql : ℕ

-- The fields that the modelled operations read or write. A pending timer is `some` of its delay.
pub record DodagMembership : Type 0 where
  pub instance_id : ℕ
  pub dodag_id : ℕ
  pub is_root : Bool
  pub version : ℕ
  pub rank : ℕ
  pub mop : ℕ
  pub dtsn : ℕ
  pub grounded : Bool
  pub preference : ℕ
  pub ocp : ℕ
  pub min_hop_rank_increase : ℕ
  pub max_rank_increase : ℕ
  pub lowest_rank_this_version : ℕ
  pub path_etx : ℕ
  pub dio_interval_min : ℕ
  pub dio_interval_doublings : ℕ
  pub dio_redundancy : ℕ
  pub has_prefix_info : Bool
  pub prefix : ℕ
  pub prefix_length : ℕ
  pub prefix_on_link : Bool
  pub prefix_autonomous : Bool
  pub prefix_valid_lifetime : ℕ
  pub prefix_preferred_lifetime : ℕ
  pub dio_trickle : TrickleTimer
  pub parents : Map Parent
  pub preferred_parent : ℕ
  pub dao_sequence : ℕ
  pub path_sequence : ℕ
  pub dao_ack_pending : Bool
  pub dao_refresh_pending : Bool
  pub dao_retries_left : ℕ
  pub dao_event : Option ℕ
  pub dao_retry_event : Option ℕ
  pub global_repair_event : Option ℕ
  pub topology : Map TopologyEntry
  pub downward_routes : Map DownwardRoute
  pub aodv_target : ℕ
  pub dro_retry_event : Option ℕ
  pub dro_collect_event : Option ℕ

abbrev pub mop_storing_no_multicast : ℕ
mop_storing_no_multicast = 2

abbrev pub mop_p2p_route_discovery : ℕ
mop_p2p_route_discovery = 4

abbrev pub ocp_mrhof : ℕ
ocp_mrhof = 1

abbrev pub infinite_rank : ℕ
infinite_rank = 0xFFFF

abbrev pub infinite_lifetime : ℕ
infinite_lifetime = 0xFF

abbrev pub second : ℕ
second = 1_000_000_000

abbrev pub time_max : ℕ
time_max = 2 ^ 63 - 1

-- When a route of this Path Lifetime goes stale.
abbrev pub expiry : ℕ → ℕ → ℕ → ℕ
expiry now lifetime_unit path_lifetime =
    if path_lifetime == infinite_lifetime
    then time_max
    else now + path_lifetime * lifetime_unit * second

-- m_dodags, whose keys are the first two fields of its values, in ascending order of the key.
abbrev pub Dodags : Type 0
Dodags = List DodagMembership

-- The order of DodagKey.
abbrev pub key_less : ℕ → ℕ → ℕ → ℕ → Bool
key_less instance_id dodag_id other_instance other_dodag =
    ltb instance_id other_instance || (instance_id == other_instance && ltb dodag_id other_dodag)

unfoldable pub find_dodag : ℕ → ℕ → Dodags → Option DodagMembership
find_dodag instance_id dodag_id [] = none
find_dodag instance_id dodag_id (d ∷ ds) =
    if d.instance_id == instance_id && d.dodag_id == dodag_id
    then some d
    else find_dodag instance_id dodag_id ds

-- The first entry whose key is not below the one given.
unfoldable pub lower_bound : ℕ → ℕ → Dodags → Option DodagMembership
lower_bound instance_id dodag_id [] = none
lower_bound instance_id dodag_id (d ∷ ds) =
    if key_less d.instance_id d.dodag_id instance_id dodag_id
    then lower_bound instance_id dodag_id ds
    else some d

abbrev of_instance : ℕ → Option DodagMembership → Option DodagMembership
of_instance instance_id none = none
of_instance instance_id (some d) = if d.instance_id == instance_id then some d else none

unfoldable pub find_dodag_by_instance : ℕ → Dodags → Option DodagMembership
find_dodag_by_instance instance_id dodags =
    of_instance instance_id (lower_bound instance_id 0 dodags)

-- A change of a membership through a reference into the map.
unfoldable pub update_dodag : DodagMembership → Dodags → Dodags
update_dodag new [] = []
update_dodag new (d ∷ ds) =
    let rest = update_dodag new ds in
    if d.instance_id == new.instance_id && d.dodag_id == new.dodag_id then new ∷ rest else d ∷ rest
