-- ===== src/Routing/HandleDio.antt =====
-- The arrival of a DIO: HandleDio of model/rpl-routing-protocol.cc, from its guards to the handlers of
-- the route discoveries, which are a parameter.
pub mod Refusing
pub mod Arrival
pub mod Settled
pub mod Valid
pub mod Versions
use rpl.Base.{
  ℕ, ◌+◌, min, Bool, true, false, not, ◌&&◌, ◌||◌, Option, none, some, List, [], ◌∷◌, ◌++◌, ltb,
  leb, ◌==◌, if◌then◌else◌,
}
use rpl.Base.Map.{Map, find, insert, erase}
use rpl.Ipv6.{Ipv6}
use rpl.Sequence.{
  SequenceOrder, less, equal, greater, not_comparable, sequence_compare, sequence_newer,
  sequence_increment,
}
use rpl.Trickle.{reset, consistency_hit}
use rpl.Header.Dio.{DioHeader}
use rpl.Routing.{
  Parent, DodagMembership, infinite_rank, find_dodag, mop_storing_no_multicast,
  mop_p2p_route_discovery,
}
use rpl.Routing.HandleDao.{Message, Node}
use rpl.Routing.NoPath.{Sent, send_no_path_dao}
use rpl.Routing.Parents.{update_link_etx}
use rpl.Routing.Parents.Selection.{schedule_refresh}
use rpl.Routing.Membership.{
  RetainedRank, Memberships, Action, dao_sent, Step, mop_non_storing, get_base_dodag, join_dodag,
}
use rpl.Routing.Membership.Leaving.{hold, leave_held, settle}
use rpl.Routing.Membership.Advertising.{reset_trickle}
use rpl.Routing.HandleDio.Refusing.{
  DiscoveryState, is_own_address, should_refuse_aodv_rreq, should_refuse_aodv_rrep,
  should_refuse_p2p_rdo,
}

-- How the DIO came: its source, the interface, the samples of the link, and whether its destination
-- was a multicast address.
pub record Reception : Type 0 where
  pub from : ℕ
  pub interface : ℕ
  pub link_etx : ℕ
  pub lql : ℕ
  pub to_multicast : Bool

-- HandleAodvRrep, HandleAodvRreq, HandleAodvRrepInstance and HandleP2pRdo.
pub record Handlers : Type 0 where
  pub handle_aodv_rrep : DioHeader → Reception → Memberships → Step
  pub handle_aodv_rreq : DioHeader → Reception → Memberships → Step
  pub handle_aodv_rrep_instance : DioHeader → Reception → Memberships → Step
  pub handle_p2p_rdo : DioHeader → Reception → Memberships → Step

-- The node's attributes, its node-wide state besides the memberships, and the jitter of the two
-- timers that one DIO may arm.
pub record Receiver : Type 0 where
  pub node : Node
  pub is_root : Bool
  pub reenable : ℕ
  pub rank_only_reset : Bool
  pub discovery : DiscoveryState
  pub refresh_jitter : ℕ
  pub jitter : ℕ

abbrev pub and_then : Step → (Memberships → Step) → Step
and_then (m, actions) f = let (after, others) = f m in (after, actions ++ others)

abbrev is_none : Option DodagMembership → Bool
is_none none = true
is_none (some dodag) = false

abbrev roots : Option DodagMembership → Bool
roots none = false
roots (some dodag) = dodag.is_root

-- The mode is one of the three, and it is that of a route discovery exactly if the DIO carries one
-- of the three options; never more than one.
unfoldable pub is_consistent_mode : DioHeader → Bool
is_consistent_mode dio =
    let options =
      (if dio.has_p2p_rdo then 1 else 0)
      + (if dio.has_rreq then 1 else 0)
      + (if dio.has_rrep then 1 else 0) in
    if dio.mop == mop_p2p_route_discovery
    then options == 1
    else (dio.mop == mop_non_storing || dio.mop == mop_storing_no_multicast) && options == 0

unfoldable pub is_discarded : Receiver → DioHeader → Reception → Memberships → Bool
is_discarded receiver dio reception m =
    (receiver.is_root && is_none (get_base_dodag m))
    || (roots (find_dodag dio.instance_id dio.dodag_id m.dodags)
        || (is_own_address receiver.node.interfaces reception.from || not (is_consistent_mode dio)))

unfoldable pub is_refused : Receiver → DioHeader → Memberships → Bool
is_refused receiver dio m =
    let now = receiver.node.now in
    let interfaces = receiver.node.interfaces in
    (dio.has_rreq && should_refuse_aodv_rreq now interfaces receiver.discovery dio m)
    || ((dio.has_rrep && should_refuse_aodv_rrep now interfaces receiver.discovery dio m)
        || (dio.has_p2p_rdo && should_refuse_p2p_rdo now interfaces receiver.discovery dio m))

abbrev is_less : SequenceOrder → Bool
is_less less = true
is_less _ = false

-- A version that this node left a later one of.
unfoldable pub is_outdated : ℕ → ℕ → List RetainedRank → Bool
is_outdated now version [] = false
is_outdated now version (r ∷ rs) =
    (ltb now r.expires && is_less (sequence_compare version r.version))
    || is_outdated now version rs

abbrev follows : Bool → SequenceOrder → Bool
follows from_parent greater = true
follows from_parent not_comparable = from_parent
follows from_parent _ = false

-- Whether a DIO of another version makes a member migrate: a later version does, one that does not
-- compare does if a parent sent it.
unfoldable pub migrates : DioHeader → DodagMembership → Bool
migrates dio dodag =
    follows (not (dio.rank == infinite_rank) && ltb dio.rank dodag.rank)
      (sequence_compare dio.version_number dodag.version)

abbrev new_parent : Parent
new_parent = record {
  interface = 0;
  rank = infinite_rank;
  dtsn = 0;
  last_heard = 0;
  freshness = 0;
  etx = 128;
  path_etx = 0;
  lql = 0;
}

abbrev or_new : Option Parent → Parent
or_new none = new_parent
or_new (some parent) = parent

abbrev freshness_max : ℕ
freshness_max = 16

-- What is known of the sender.
unfoldable pub heard : ℕ → DioHeader → Reception → Option Parent → Parent
heard now dio reception known =
    let parent = or_new known in
    let updated =
      update_link_etx
        (record parent {
          interface = reception.interface;
          rank = dio.rank;
          dtsn = dio.dtsn;
          last_heard = now;
          freshness = min (parent.freshness + 1) freshness_max;
        })
        reception.link_etx in
    record updated {
      lql = reception.lql;
      path_etx = if dio.has_metric_container then dio.path_etx else updated.path_etx;
    }

abbrev has_older_dtsn : DioHeader → Option Parent → Bool
has_older_dtsn dio none = false
has_older_dtsn dio (some parent) = sequence_newer dio.dtsn parent.dtsn

-- A DAO parent that increments its DTSN asks for a DAO, and passes that on.
unfoldable pub follow_dtsn : ℕ → DodagMembership → DodagMembership
follow_dtsn jitter dodag =
    schedule_refresh jitter (record dodag { dtsn = sequence_increment dodag.dtsn })

unfoldable pub hear : Receiver → DioHeader → Reception → DodagMembership → DodagMembership
hear receiver dio reception dodag =
    let known = find reception.from dodag.parents in
    let listed : DodagMembership = record dodag {
      parents = insert reception.from (heard receiver.node.now dio reception known) dodag.parents;
    } in
    if reception.from == dodag.preferred_parent
      && has_older_dtsn dio known
      && not (dodag.mop == mop_p2p_route_discovery)
    then follow_dtsn receiver.refresh_jitter listed
    else listed
