-- ===== src/Routing/Runs/Joining.antt =====
-- Joining, leaving and migrating at concrete values.
use rpl.Base.{ℕ, ◌*◌, ◌^◌, ◌≡◌, refl, true, false, not, none, some, [], ◌∷◌, ◌&&◌, ◌==◌, arith}
use rpl.Ipv6.Network.{network}
use rpl.Header.Dio.{DioHeader}
use rpl.Routing.{DodagMembership, find_dodag, mop_p2p_route_discovery}
use rpl.Routing.Membership.{Memberships, millisecond, joined}
use rpl.Routing.Membership.Leaving.{is_base, leave_dodag}
use rpl.Routing.Membership.Advertising.{ordinary_dio}
use rpl.Routing.Membership.Spreading.{shared, joined_shares}
use rpl.Routing.Membership.Retention.{rejoin_remembers}
use rpl.Routing.Membership.Base.{is_keyed, is_based, IsValid}
use rpl.Routing.Membership.Base.Reached.{migrate-is_based}
use rpl.Routing.HandleDio.{Reception, Handlers, Receiver}
use rpl.Routing.HandleDio.Arrival.{migrate, handle_dio}
use rpl.Routing.HandleDio.Valid.{handle_dio-IsValid}
use rpl.Routing.HandleDio.Versions.Order.{IsNoOlder, handle_dio-IsNoOlder}
use rpl.Routing.Runs.{membership, root_address, local_near}

abbrev earliest : ℕ → ℕ → ℕ
earliest low high = low

abbrev nowhere : Memberships
nowhere = record {
  dodags = [];
  base = none;
  retained_path_sequence = λ i k. none;
  retained_rank = λ i k. [];
  rejoin_blocked = λ i k. none;
  dis_event = some 5;
  dis_refresh_pending = true;
}

-- A DIO of the root, in the version after 240.
abbrev dio : DioHeader
dio = record (ordinary_dio false (membership 1 true)) { version_number = 241; rank = 256 }

abbrev router : DodagMembership
router = membership 1 false

-- A member of one DODAG, which is the base.
abbrev member : Memberships
member = record nowhere { dodags = router ∷ []; base = some (0, root_address) }

member-IsValid : IsValid member
unfolding is_keyed is_based find_dodag
member-IsValid = (refl, refl)

abbrev receiver : Receiver
receiver = record {
  node = record { now = 100; lifetime_unit = 60; dodags = []; interfaces = []; sockets = 1 ∷ [] };
  is_root = false;
  reenable = 900;
  rank_only_reset = false;
  discovery = record {
    hop_by_hop_routes = [];
    stopped = λ i k. false;
    stop_memory = λ i k. none;
    min_hop_rank_increase = 256;
  };
  refresh_jitter = 3;
  jitter = 4;
}

abbrev reception : Reception
reception = record {
  from = local_near;
  interface = 1;
  link_etx = 128;
  lql = 1;
  to_multicast = true;
}

-- Handlers that leave the memberships alone.
abbrev idle : Handlers
idle = record {
  handle_aodv_rrep = λ d r m. (m, []);
  handle_aodv_rreq = λ d r m. (m, []);
  handle_aodv_rrep_instance = λ d r m. (m, []);
  handle_p2p_rdo = λ d r m. (m, []);
}

handle_dio-IsValid_example :
    IsValid (handle_dio network earliest receiver dio reception idle member).0
unfolding ordinary_dio
handle_dio-IsValid_example =
    handle_dio-IsValid network earliest receiver dio reception idle member refl refl refl
      member-IsValid

handle_dio-IsNoOlder_example : IsNoOlder dio router (
    find_dodag 0 root_address
      (handle_dio network earliest receiver dio reception idle member).0.dodags)
unfolding ordinary_dio find_dodag
handle_dio-IsNoOlder_example =
    handle_dio-IsNoOlder network earliest receiver dio reception idle member router refl refl refl
      refl

-- The DIO of a route discovery that names the base DODAG, in a later version.
abbrev intruder : DioHeader
intruder = record dio { mop = mop_p2p_route_discovery }

migrate-is_based_example :
    let after = (migrate network earliest receiver intruder reception router member).0 in
    is_based after.base after.dodags
    ≡ not (is_base router member.base && intruder.mop == mop_p2p_route_discovery)
unfolding find_dodag ordinary_dio
migrate-is_based_example =
    migrate-is_based network earliest receiver intruder reception router member refl member-IsValid

-- The base is a route discovery then.
intruder_takes_base :
    let after = (migrate network earliest receiver intruder reception router member).0 in
    is_based after.base after.dodags ≡ false
intruder_takes_base = migrate-is_based_example

-- The router hears the version that it left, before the two maximum intervals are over.
rejoin_remembers_example :
    let left = (leave_dodag 100 900 true 0 root_address member).0 in
    let same_version : DioHeader = record dio { version_number = 240 } in
    ((joined 200 same_version left).path_sequence ≡ 240)
    × ((joined 200 same_version left).lowest_rank_this_version ≡ 512)
unfolding ordinary_dio find_dodag
rejoin_remembers_example =
    rejoin_remembers 100 200 900 true (record dio { version_number = 240 }) router member
      (leave_dodag 100 900 true 0 root_address member).0 refl (λ e. omega arith) refl (omega arith)
      refl refl

abbrev root_node : DodagMembership
root_node = record (membership 1 true) { dio_interval_min = 2 ^ 12 * millisecond }

joined_shares_example : shared (joined 100 (ordinary_dio true root_node) nowhere) ≡ shared root_node
joined_shares_example = joined_shares true 100 12 root_node nowhere refl (omega arith) (omega arith)

abbrev limit : ℕ
limit = 3
