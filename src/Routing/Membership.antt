-- ===== src/Routing/Membership.antt =====
-- The node's memberships, what it remembers of those it left, and joining a DODAG: JoinDodag and
-- GetBaseDodag of model/rpl-routing-protocol.cc.
pub mod Leaving
pub mod Forming
pub mod Advertising
pub mod Spreading
pub mod Retention
pub mod Keys
pub mod Base
use rpl.Base.{
  ℕ, ◌+◌, ◌*◌, ◌%◌, ◌^◌, min, Bool, true, false, not, ◌&&◌, ◌||◌, Option, none, some, List, [], ◌∷◌,
  ◌++◌, map, drop, length, ltb, leb, ◌==◌, if◌then◌else◌,
}
use rpl.Ipv6.{Ipv6, any, is_any}
use rpl.Sequence.{sequence_increment}
use rpl.Trickle.{TrickleTimer, init, set_function, set_parameters, start, reset}
use rpl.Header.Dio.{DioHeader, DagConf, PrefixInfo}
use rpl.Routing.{
  Parent, DodagMembership, Dodags, infinite_rank, key_less, find_dodag, update_dodag,
  mop_storing_no_multicast, mop_p2p_route_discovery, second, time_max,
}
use rpl.Routing.HandleDao.{Message, Node}
use rpl.Routing.NoPath.{Sent}
use rpl.Routing.Parents.{max_path_cost}
use rpl.Routing.Parents.Selection.{Verdict, unchanged, lost, adopted, select_preferred_parent}

abbrev pub mop_non_storing : ℕ
mop_non_storing = 1

-- What a node remembers of a DODAG Version that it left.
pub record RetainedRank : Type 0 where
  pub version : ℕ
  pub lowest_rank : ℕ
  pub expires : ℕ

-- A std::map from DodagKey of which no order is observed: what it holds for an RPLInstanceID and a
-- DODAGID.
abbrev pub Keyed : Type 0 → Type 0
Keyed V = ℕ → ℕ → V

abbrev pub set_key : {V : Type 0} → ℕ → ℕ → V → Keyed V → Keyed V
set_key instance_id dodag_id v m i d = if i == instance_id && d == dodag_id then v else m i d

-- m_dodags, the key of the base DODAG if there is one, the Path Sequences, ranks and rejoin bars kept
-- across a leave, and the timer of the next DIS.
pub record Memberships : Type 0 where
  pub dodags : Dodags
  pub base : Option (ℕ × ℕ)
  pub retained_path_sequence : Keyed (Option ℕ)
  pub retained_rank : Keyed (List RetainedRank)
  pub rejoin_blocked : Keyed (Option ℕ)
  pub dis_event : Option ℕ
  pub dis_refresh_pending : Bool

-- What the node does besides: it sends a DAO or a DIS, it calls SendDio with a membership, a destination and
-- an interface, or it has an address configured on an interface.
pub data Action : Type 0 where
  dao_sent : Message → Action
  dis_sent : Action
  dio_sent : DodagMembership → ℕ → ℕ → Action
  autoconfigured : ℕ → DodagMembership → Action

abbrev pub Step : Type 0
Step = Memberships × List Action

abbrev pub millisecond : ℕ
millisecond = 1_000_000

abbrev pub interval_exponent_max : ℕ
interval_exponent_max = 20

abbrev pub retained_versions : ℕ
retained_versions = 4

-- RPL_ALL_NODES_MULTICAST, ff02::1a
abbrev pub all_nodes_multicast : ℕ
all_nodes_multicast = 0xff02_0000_0000_0000_0000_0000_0000_001a

-- A membership as the map makes it, with its key.
unfoldable pub new_membership : ℕ → ℕ → DodagMembership
new_membership instance_id dodag_id = record {
  instance_id = instance_id;
  dodag_id = dodag_id;
  is_root = false;
  version = 0;
  rank = infinite_rank;
  mop = mop_non_storing;
  dtsn = 0;
  grounded = false;
  preference = 0;
  ocp = 0;
  min_hop_rank_increase = 128;
  max_rank_increase = 8 * 128;
  lowest_rank_this_version = infinite_rank;
  path_etx = 0;
  dio_interval_min = 2 ^ 12 * millisecond;
  dio_interval_doublings = 8;
  dio_redundancy = 0;
  has_prefix_info = false;
  prefix = any;
  prefix_length = 0;
  prefix_on_link = false;
  prefix_autonomous = false;
  prefix_valid_lifetime = 0;
  prefix_preferred_lifetime = 0;
  dio_trickle = init;
  parents = [];
  preferred_parent = any;
  dao_sequence = 0;
  path_sequence = 0;
  dao_ack_pending = false;
  dao_refresh_pending = false;
  dao_retries_left = 0;
  dao_event = none;
  dao_retry_event = none;
  global_repair_event = none;
  topology = [];
  downward_routes = [];
  aodv_target = any;
  dro_retry_event = none;
  dro_collect_event = none;
}

unfoldable pub insert_dodag : DodagMembership → Dodags → Dodags
insert_dodag new [] = new ∷ []
insert_dodag new (d ∷ ds) =
    let rest = insert_dodag new ds in
    if key_less d.instance_id d.dodag_id new.instance_id new.dodag_id
    then d ∷ rest
    else new ∷ d ∷ ds

unfoldable pub erase_dodag : ℕ → ℕ → Dodags → Dodags
erase_dodag instance_id dodag_id [] = []
erase_dodag instance_id dodag_id (d ∷ ds) =
    let rest = erase_dodag instance_id dodag_id ds in
    if d.instance_id == instance_id && d.dodag_id == dodag_id then rest else d ∷ rest

abbrev find_base : Dodags → Option (ℕ × ℕ) → Option DodagMembership
find_base dodags none = none
find_base dodags (some (instance_id, dodag_id)) = find_dodag instance_id dodag_id dodags

unfoldable pub get_base_dodag : Memberships → Option DodagMembership
get_base_dodag m = find_base m.dodags m.base

-- A membership takes the base if there is none, unless it is a route discovery.
unfoldable pub claim_base : DodagMembership → Option (ℕ × ℕ) → Option (ℕ × ℕ)
claim_base dodag none =
    if dodag.mop == mop_p2p_route_discovery then none else some (dodag.instance_id, dodag.dodag_id)
claim_base dodag (some base) = some base

-- The first membership that is no route discovery.
unfoldable pub promote : Dodags → Option (ℕ × ℕ)
promote [] = none
promote (d ∷ ds) =
    if d.mop == mop_p2p_route_discovery then promote ds else some (d.instance_id, d.dodag_id)

-- The rank remembered of a version, while it binds.
unfoldable pub retained_lowest : ℕ → ℕ → ℕ → List RetainedRank → ℕ
retained_lowest now version lowest [] = lowest
retained_lowest now version lowest (r ∷ rs) =
    retained_lowest now version
      (if ltb now r.expires && r.version == version then r.lowest_rank else lowest) rs

unfoldable pub configure : DioHeader → DodagMembership → DodagMembership
configure dio dodag =
    if dio.has_dag_conf
    then record dodag {
      ocp = dio.dag_conf.ocp;
      min_hop_rank_increase = dio.dag_conf.min_hop_rank_increase;
      max_rank_increase = dio.dag_conf.max_rank_increase;
      dio_interval_min = 2 ^ min dio.dag_conf.interval_min interval_exponent_max * millisecond;
      dio_interval_doublings = min dio.dag_conf.interval_doublings interval_exponent_max;
      dio_redundancy = dio.dag_conf.redundancy;
    }
    else if dio.has_p2p_rdo
    then record dodag {
      ocp = 0;
      dio_interval_min = 2 ^ 6 * millisecond;
      dio_interval_doublings = 20;
      dio_redundancy = 1;
      max_rank_increase = 0;
      min_hop_rank_increase = 256;
    }
    else dodag

unfoldable pub take_prefix : DioHeader → DodagMembership → DodagMembership
take_prefix dio dodag =
    if dio.has_prefix_info
    then record dodag {
      has_prefix_info = true;
      prefix = dio.prefix_info.prefix;
      prefix_length = dio.prefix_info.prefix_length;
      prefix_on_link = dio.prefix_info.on_link;
      prefix_autonomous = dio.prefix_info.autonomous;
      prefix_valid_lifetime = dio.prefix_info.valid_lifetime;
      prefix_preferred_lifetime = dio.prefix_info.preferred_lifetime;
    }
    else dodag

abbrev pub or_default : ℕ → Option ℕ → ℕ
or_default d none = d
or_default d (some v) = v

-- The Trickle timer's function, parameters and start.
unfoldable pub pace : (ℕ → ℕ → ℕ) → DodagMembership → DodagMembership
pace draw dodag = record dodag {
  dio_trickle = start draw (
      set_parameters (set_function dodag.dio_trickle) dodag.dio_interval_min
        dodag.dio_interval_doublings dodag.dio_redundancy);
}

-- The membership that a DIO makes, before the Trickle timer starts.
unfoldable pub joined : ℕ → DioHeader → Memberships → DodagMembership
joined now dio m = take_prefix dio (
    configure dio (record (new_membership dio.instance_id dio.dodag_id) {
      path_sequence = or_default 0 (m.retained_path_sequence dio.instance_id dio.dodag_id);
      version = dio.version_number;
      mop = dio.mop;
      grounded = dio.grounded;
      preference = dio.preference;
      lowest_rank_this_version =
          retained_lowest now dio.version_number infinite_rank
            (m.retained_rank dio.instance_id dio.dodag_id);
    }))

unfoldable pub join_dodag : (ℕ → ℕ → ℕ) → ℕ → DioHeader → ℕ → Memberships → Step
join_dodag draw now dio interface m =
    let dodag = pace draw (joined now dio m) in
    let searching = not (dodag.mop == mop_p2p_route_discovery) in
    (
      record m {
        dodags = insert_dodag dodag m.dodags;
        base = claim_base dodag m.base;
        dis_event = if searching then none else m.dis_event;
        dis_refresh_pending = if searching then false else m.dis_refresh_pending;
      },
      if dio.has_prefix_info && dio.prefix_info.autonomous
          then autoconfigured interface dodag ∷ []
          else [],
    )
