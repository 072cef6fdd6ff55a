-- ===== src/Routing/NoPath.antt =====
-- SendNoPathDao of model/rpl-routing-protocol.cc: the withdrawal of this node's own address.
pub mod Withdrawal
use rpl.Base.{
  ℕ, Bool, true, false, not, ◌&&◌, ◌||◌, Option, none, some, List, [], ◌∷◌, ◌==◌, if◌then◌else◌,
}
use rpl.Ipv6.{Ipv6, any, is_any}
use rpl.Sequence.{sequence_increment}
use rpl.Header.Dao.{DaoHeader}
use rpl.Routing.{DodagMembership, mop_p2p_route_discovery}
use rpl.Routing.Addresses.{get_global_address_in}
use rpl.Routing.SourceRoute.{global_address_of}
use rpl.Routing.Downward.{is_storing}
use rpl.Routing.HandleDao.{Message, dao, Node, interface_for_neighbour}

-- The membership after it sent something, and what it sent.
abbrev pub Sent : Type 0
Sent = DodagMembership × List Message

-- Both counters advance before the message carries them.
unfoldable pub advance_sequences : DodagMembership → DodagMembership
advance_sequences dodag = record dodag {
  dao_sequence = sequence_increment dodag.dao_sequence;
  path_sequence = sequence_increment dodag.path_sequence;
}

unfoldable pub no_path_header : DodagMembership → ℕ → ℕ → DaoHeader
no_path_header dodag target parent = record {
  instance_id = dodag.instance_id;
  ack_requested = false;
  sequence = dodag.dao_sequence;
  dodag_id = dodag.dodag_id;
  target = target;
  target_prefix_len = 128;
  parent = parent;
  path_sequence = dodag.path_sequence;
  path_lifetime = 0;
  additional_targets = [];
}

module _ (net : Ipv6) where
  unfoldable pub transmit_no_path : Node → DodagMembership → ℕ → DaoHeader → List Message
  transmit_no_path node dodag via_parent header =
      let interface = interface_for_neighbour net node.sockets dodag.parents via_parent in
      if is_storing dodag
      then if interface == 0 then [] else dao header via_parent (some interface) ∷ []
      else dao header dodag.dodag_id none ∷ []

  unfoldable pub send_no_path_dao : Node → DodagMembership → ℕ → Sent
  send_no_path_dao node dodag via_parent =
      let target = get_global_address_in net node.interfaces dodag in
      let parent =
        if is_storing dodag then any else global_address_of net dodag.dodag_id via_parent in
      let advanced = advance_sequences dodag in
      if dodag.mop == mop_p2p_route_discovery
        || (is_any target || (not (is_storing dodag) && is_any parent))
      then (dodag, [])
      else (
        advanced,
        transmit_no_path node advanced via_parent (no_path_header advanced target parent),
      )
