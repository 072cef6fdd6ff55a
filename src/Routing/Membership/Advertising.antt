-- ===== src/Routing/Membership/Advertising.antt =====
-- The DIOs that go out, and when: SendDio for a DODAG that is no route discovery, HandleDis,
-- DioTrickleFire and StopInterface of model/rpl-routing-protocol.cc.
use rpl.Base.{
  ℕ, zero, suc, ◌*◌, ◌/◌, ◌^◌, min, Bool, true, false, not, Option, none, some, List, [], ◌∷◌, ◌++◌,
  leb, ◌==◌, if◌then◌else◌,
}
use rpl.Base.Map.{find, keep}
use rpl.Ipv6.{Ipv6, any}
use rpl.Trickle.{reset}
use rpl.Header.Dio.{DioHeader}
use rpl.Routing.{
  Parent, DodagMembership, Dodags, find_dodag, ocp_mrhof, infinite_rank, mop_p2p_route_discovery,
}
use rpl.Routing.HandleDao.{Node}
use rpl.Routing.Membership.{
  Memberships, Action, dio_sent, Step, all_nodes_multicast, millisecond, mop_non_storing,
}
use rpl.Routing.Membership.Leaving.{hold, settle}
use rpl.Routing.Membership.Forming.{default_instance}

-- The integer part of std::log2, for 1 up to 2^64; the source leaves 0 undefined.
abbrev pub log2_up_to : ℕ → ℕ → ℕ
log2_up_to zero n = 0
log2_up_to (suc k) n = let smaller = log2_up_to k n in if leb (2 ^ suc k) n then suc k else smaller

unfoldable pub log2 : ℕ → ℕ
log2 n = log2_up_to 63 n

-- A DIO before any setter is called.
abbrev pub new_dio : DioHeader
new_dio = record {
  instance_id = default_instance;
  version_number = 0;
  rank = infinite_rank;
  grounded = false;
  mop = mop_non_storing;
  preference = 0;
  dtsn = 0;
  dodag_id = any;
  has_dag_conf = false;
  dag_conf = record {
    flags = 0;
    interval_doublings = 8;
    interval_min = 12;
    redundancy = 0;
    max_rank_increase = 8 * 128;
    min_hop_rank_increase = 128;
    ocp = 0;
    default_lifetime = 30;
    lifetime_unit = 60;
  };
  has_metric_container = false;
  path_etx = 0;
  has_lql = false;
  lql = 0;
  has_prefix_info = false;
  prefix_info = record {
    prefix = any;
    prefix_length = 0;
    on_link = false;
    autonomous = false;
    valid_lifetime = 0;
    preferred_lifetime = 0;
  };
  has_rreq = false;
  rreq = record {
    symmetric = true;
    hop_by_hop = false;
    compr = 0;
    lifetime = 0;
    rank_limit = 0;
    orig_seq_no = 0;
    address_vector = [];
  };
  has_rrep = false;
  rrep = record {
    gratuitous = false;
    hop_by_hop = false;
    compr = 0;
    lifetime = 0;
    rank_limit = 0;
    delta = 0;
    address_vector = [];
  };
  arts = [];
  has_p2p_rdo = false;
  p2p_rdo = record {
    reply = true;
    hop_by_hop = false;
    num_routes = 0;
    compr = 0;
    lifetime = 0;
    max_rank_or_nh = 0;
    target = any;
    address_vector = [];
  };
  targets = [];
}

abbrev lql_worst : ℕ
lql_worst = 7

abbrev lql_of : Option Parent → ℕ
lql_of none = 0
lql_of (some parent) = min parent.lql lql_worst

-- What SendDio sends of a membership of mode 1 or 2.
unfoldable pub ordinary_dio : Bool → DodagMembership → DioHeader
ordinary_dio enable_lql dodag = record new_dio {
  instance_id = dodag.instance_id;
  version_number = dodag.version;
  rank = dodag.rank;
  grounded = dodag.grounded;
  mop = dodag.mop;
  preference = dodag.preference;
  dtsn = dodag.dtsn;
  dodag_id = dodag.dodag_id;
  has_dag_conf = true;
  dag_conf = record new_dio.dag_conf {
    interval_doublings = dodag.dio_interval_doublings;
    interval_min = log2 (dodag.dio_interval_min / millisecond);
    redundancy = dodag.dio_redundancy;
    max_rank_increase = dodag.max_rank_increase;
    min_hop_rank_increase = dodag.min_hop_rank_increase;
    ocp = dodag.ocp;
  };
  has_metric_container = dodag.ocp == ocp_mrhof;
  path_etx = if dodag.ocp == ocp_mrhof then if dodag.is_root then 0 else dodag.path_etx else 0;
  has_lql = enable_lql;
  lql = if enable_lql then lql_of (find dodag.preferred_parent dodag.parents) else 0;
  has_prefix_info = dodag.has_prefix_info;
  prefix_info =
      if dodag.has_prefix_info
      then record {
        prefix = dodag.prefix;
        prefix_length = dodag.prefix_length;
        on_link = dodag.prefix_on_link;
        autonomous = dodag.prefix_autonomous;
        valid_lifetime = dodag.prefix_valid_lifetime;
        preferred_lifetime = dodag.prefix_preferred_lifetime;
      }
      else new_dio.prefix_info;
}

module _ (draw : ℕ → ℕ → ℕ) where
  -- A DIS, from the memberships in order.
  unfoldable pub handle_dis : ℕ → ℕ → Bool → Dodags → Dodags × List Action
  handle_dis from interface to_multicast [] = ([], [])
  handle_dis from interface to_multicast (d ∷ ds) =
      let (rest, actions) = handle_dis from interface to_multicast ds in
      if d.mop == mop_p2p_route_discovery
      then (d ∷ rest, actions)
      else if to_multicast
      then (record d { dio_trickle = reset draw d.dio_trickle } ∷ rest, actions)
      else (d ∷ rest, dio_sent d from interface ∷ actions)

  abbrev pub reset_found : ℕ → ℕ → Option DodagMembership → Memberships → Memberships
  reset_found instance_id dodag_id none m = m
  reset_found instance_id dodag_id (some d) m =
      hold (record d { dio_trickle = reset draw d.dio_trickle }) m

  -- The Trickle reset of a membership that may be gone.
  unfoldable pub reset_trickle : ℕ → ℕ → Memberships → Memberships
  reset_trickle instance_id dodag_id m =
      reset_found instance_id dodag_id (find_dodag instance_id dodag_id m.dodags) m

module _ (net : Ipv6) (node : Node) (reenable jitter : ℕ) where
  abbrev announce : Option DodagMembership → List Action
  announce none = []
  announce (some dodag) = dio_sent dodag all_nodes_multicast 0 ∷ []

  abbrev fire_found : ℕ → ℕ → Option DodagMembership → Memberships → Step
  fire_found instance_id dodag_id none m = (m, [])
  fire_found instance_id dodag_id (some dodag) m =
      let ((after, actions), changed) = settle net node reenable jitter dodag m in
      (after, actions ++ announce (find_dodag instance_id dodag_id after.dodags))

  -- The Trickle timer of a membership fires.
  unfoldable pub dio_trickle_fire : ℕ → ℕ → Memberships → Step
  dio_trickle_fire instance_id dodag_id m =
      fire_found instance_id dodag_id (find_dodag instance_id dodag_id m.dodags) m

module _ (net : Ipv6) (draw : ℕ → ℕ → ℕ) (node : Node) (reenable interface : ℕ) where
  abbrev off_interface : DodagMembership → DodagMembership
  off_interface dodag = record dodag {
    parents = keep (λ (p : Parent). not (p.interface == interface)) dodag.parents;
  }

  abbrev cut_found : ℕ → Option DodagMembership → Memberships → Step
  cut_found jitter none m = (m, [])
  cut_found jitter (some dodag) m =
      let ((after, actions), changed) = settle net node reenable jitter (off_interface dodag) m in
      (
        if changed then reset_trickle draw dodag.instance_id dodag.dodag_id after else after,
        actions,
      )

  -- StopInterface, for the keys that the memberships had at its start. Each selection draws its own
  -- jitter.
  unfoldable pub cut_neighbours : (ℕ → ℕ) → List (ℕ × ℕ) → Memberships → Step
  cut_neighbours jitter [] m = (m, [])
  cut_neighbours jitter ((instance_id, dodag_id) ∷ keys) m =
      let (after, actions) = cut_found (jitter 0) (find_dodag instance_id dodag_id m.dodags) m in
      let (done, others) = cut_neighbours (λ k. jitter (suc k)) keys after in
      (done, actions ++ others)
