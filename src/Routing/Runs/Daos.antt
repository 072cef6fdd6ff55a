-- ===== src/Routing/Runs/Daos.antt =====
-- DAOs and DAO-ACKs at a Storing router.
use rpl.Base.{
  ℕ, ◌≡◌, refl, true, false, none, some, List, [], ◌∷◌, ◌++◌, ◌&&◌, ◌==◌, if◌then◌else◌, arith,
}
use rpl.Base.Map.{Map, find}
use rpl.Ipv6.{any}
use rpl.Ipv6.Network.{network, link_local_test}
use rpl.Sequence.{greater, sequence_compare}
use rpl.Header.Dao.{AdditionalTarget, DaoHeader}
use rpl.Header.DaoAck.{DaoAckHeader}
use rpl.Routing.{DownwardRoute, DodagMembership, find_dodag}
use rpl.Routing.Downward.{Arrival, DaoTargetEntry, store_downward, dedup}
use rpl.Routing.Downward.Table.{
  Superseded, Outcome, store_downward_supersedes, store_downward-Outcome,
}
use rpl.Routing.Downward.Refresh.{store_downward_twice}
use rpl.Routing.HandleDao.{
  Message, dao_ack, Node, resolve, handle_targets, handle_dao, handle_dao_ack,
}
use rpl.Routing.HandleDao.Relay.{HasDistinctTargets, first_report, last_report, dedup_keeps_last}
use rpl.Routing.HandleDao.Refusal.{handle_targets_untouched}
use rpl.Routing.HandleDao.Acknowledgement.{
  ack_for, reply_interface, handle_dao_acknowledges, handle_dao_ack_settles,
}
use rpl.Routing.HopByHop.{HopByHopRoute, Offer, store_hop_by_hop_route}
use rpl.Routing.HopByHop.Guards.{IsSettled, store_hop_by_hop_route-IsSettled}
use rpl.Routing.NoPath.{advance_sequences, no_path_header}
use rpl.Routing.NoPath.Withdrawal.{no_path_header-removes}
use rpl.Routing.Runs.{membership, root_address, near, far, local_near}

abbrev arrival : Arrival
arrival = record {
  now = 100;
  lifetime_unit = 60;
  own_address = near;
  from = local_near;
  arrived_on = 1;
  dao_parent = any;
}

abbrev held : DownwardRoute
held = record {
  next_hop = local_near;
  interface = 1;
  path_sequence = 240;
  path_lifetime = 30;
  expire = 90;
}

abbrev routes : Map DownwardRoute
routes = (far, held) ∷ []

store_downward_supersedes_example :
    Superseded 241 held (find far (store_downward arrival far 241 0 routes).0)
unfolding find
store_downward_supersedes_example = store_downward_supersedes arrival far 241 0 routes held refl

store_downward-Outcome_example :
    let (new, changed) = store_downward arrival far 240 30 routes in
    Outcome arrival far 240 30 routes new changed
store_downward-Outcome_example = store_downward-Outcome arrival far 240 30 routes

store_downward_twice_example :
    let once = (store_downward arrival far 241 0 routes).0 in
    store_downward arrival far 241 0 once ≡ (once, false)
store_downward_twice_example = store_downward_twice arrival far 241 0 routes

abbrev router : DodagMembership
router = record (membership 2 false) { downward_routes = routes }

abbrev report : ℕ → ℕ → DaoTargetEntry
report target s = record {
  target = target;
  target_prefix_length = 128;
  path_sequence = s;
  path_lifetime = 30;
}

dedup_keeps_last_example :
    HasDistinctTargets (dedup (report far 3 ∷ report near 1 ∷ report far 5 ∷ []))
    × ((t : ℕ)
        → first_report t (dedup (report far 3 ∷ report near 1 ∷ report far 5 ∷ []))
          ≡ last_report t (report far 3 ∷ report near 1 ∷ report far 5 ∷ []))
dedup_keeps_last_example = dedup_keeps_last (report far 3 ∷ report near 1 ∷ report far 5 ∷ [])

abbrev additional : AdditionalTarget
additional = record {
  target = far;
  target_prefix_length = 128;
  path_sequence = 241;
  path_lifetime = 0;
}

-- A DAO for a new target that also withdraws the one held.
abbrev message : DaoHeader
message = record {
  instance_id = 0;
  ack_requested = true;
  sequence = 9;
  dodag_id = root_address;
  target = 5;
  target_prefix_len = 128;
  parent = any;
  path_sequence = 241;
  path_lifetime = 30;
  additional_targets = additional ∷ [];
}

handle_targets_untouched_example :
    let after = (handle_targets arrival message router).dodag in
    (find root_address after.downward_routes ≡ find root_address router.downward_routes)
    × (find root_address after.topology ≡ find root_address router.topology)
handle_targets_untouched_example = handle_targets_untouched arrival message router root_address refl

abbrev node : Node
node = record {
  now = 100;
  lifetime_unit = 60;
  dodags = router ∷ [];
  interfaces = [];
  sockets = 1 ∷ [];
}

-- The parent is the root, which holds the same route.
abbrev parent : DodagMembership
parent = record (membership 2 true) { downward_routes = routes }

abbrev at_parent : Arrival
at_parent = record arrival { own_address = root_address }

handle_dao_acknowledges_example :
    (relayed : List Message) × ((handle_dao network node message local_near 1).1
      ≡ relayed ++ dao_ack (ack_for router message) local_near (reply_interface router 1) ∷ [])
unfolding resolve find_dodag link_local_test network
handle_dao_acknowledges_example =
    handle_dao_acknowledges network node message router local_near 1 refl refl refl

abbrev ack : DaoAckHeader
ack = record { instance_id = 0; sequence = 241; status = 0; dodag_id = root_address }

handle_dao_ack_settles_example : find_dodag 0 root_address (handle_dao_ack node ack).dodags ≡ (
    if ack.instance_id == 0 && ack.dodag_id == root_address
    then some (
        if ack.sequence == router.dao_sequence && ack.status == 0
        then record router { dao_ack_pending = false; dao_retry_event = none }
        else router)
    else find_dodag 0 root_address node.dodags)
unfolding find_dodag
handle_dao_ack_settles_example = handle_dao_ack_settles node ack router 0 root_address refl

no_path_header-removes_example :
    let header = no_path_header (advance_sequences router) far any in
    let (after, changed) =
      store_downward arrival header.target header.path_sequence header.path_lifetime routes in
    (sequence_compare header.path_sequence held.path_sequence ≡ greater)
    × (find far after ≡ none)
    × (changed ≡ true)
unfolding find
no_path_header-removes_example =
    no_path_header-removes arrival router far any routes held refl refl (omega arith)

abbrev hop : HopByHopRoute
hop = record { instance_id = 128; dodag_id = near; next_hop = 5; expire = 500; seq_no = 3 }

abbrev offer : Offer
offer = record {
  instance_id = 128;
  dodag_id = near;
  destination = far;
  next_hop = 6;
  lifetime = 300;
  seq_no = some 3;
  pin_next_hop = true;
}

store_hop_by_hop_route-IsSettled_example :
    let (after, taken) = store_hop_by_hop_route 100 offer ((far, hop) ∷ []) in
    IsSettled 100 offer ((far, hop) ∷ []) after taken
store_hop_by_hop_route-IsSettled_example =
    store_hop_by_hop_route-IsSettled 100 offer ((far, hop) ∷ [])
