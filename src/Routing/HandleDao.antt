-- ===== src/Routing/HandleDao.antt =====
-- The arrival of a DAO and of a DAO-ACK: HandleDao, HandleDaoAck, SendDaoMessage and
-- InterfaceForNeighbour of model/rpl-routing-protocol.cc. What is sent is a list of messages.
pub mod Refusal
pub mod Reports
pub mod Telling
pub mod Relay
pub mod Upstream
pub mod Acknowledgement
use rpl.Base.{
  ℕ, Bool, true, false, not, ◌&&◌, ◌||◌, Option, none, some, List, [], ◌∷◌, ◌++◌, map, drop, ltb,
  leb, ◌==◌, if◌then◌else◌, length, get_elem?,
}
use rpl.Base.Map.{Map}
use rpl.Buffer.{same_bytes}
use rpl.Ipv6.{Ipv6, any, is_any}
use rpl.Header.Dao.{AdditionalTarget, DaoHeader}
use rpl.Header.Dao
use rpl.Header.DaoAck.{DaoAckHeader}
use rpl.Routing.{
  Parent, DodagMembership, Dodags, find_dodag, find_dodag_by_instance, update_dodag,
  mop_storing_no_multicast,
}
use rpl.Routing.Addresses.{InterfaceAddress, get_global_address_in}
use rpl.Routing.SourceRoute.{global_address_of}
use rpl.Routing.Downward.{DaoTargetEntry, Arrival, Handling, is_storing, handle_one_target, dedup}

-- A message, the address it goes to, and the interface where the code names one.
pub data Message : Type 0 where
  dao : DaoHeader → ℕ → Option ℕ → Message
  dao_ack : DaoAckHeader → ℕ → Option ℕ → Message

-- The clock, LifetimeUnit, m_dodags, the addresses of the interfaces, and the interfaces that have
-- a socket in m_ifcToSocket.
pub record Node : Type 0 where
  pub now : ℕ
  pub lifetime_unit : ℕ
  pub dodags : Dodags
  pub interfaces : List (List InterfaceAddress)
  pub sockets : List ℕ

abbrev first_socket : List ℕ → ℕ
first_socket [] = 0
first_socket (i ∷ is) = i

module _ (net : Ipv6) where
  -- The parent whose interface identifier is that of the neighbour.
  unfoldable pub interface_for_neighbour : List ℕ → Map Parent → ℕ → ℕ
  interface_for_neighbour sockets [] neighbour = first_socket sockets
  interface_for_neighbour sockets ((address, parent) ∷ parents) neighbour =
      if same_bytes (drop 8 (net.serialize neighbour)) (drop 8 (net.serialize address))
      then parent.interface
      else interface_for_neighbour sockets parents neighbour

  abbrev pub wire_entry : DaoTargetEntry → AdditionalTarget
  wire_entry e = record {
    target = e.target;
    target_prefix_length = e.target_prefix_length;
    path_sequence = e.path_sequence;
    path_lifetime = e.path_lifetime;
  }

  unfoldable pub new_dao :
      DodagMembership → DaoTargetEntry → ℕ → Bool → List DaoTargetEntry → DaoHeader
  new_dao dodag primary sequence ack_requested additional_targets = record {
    instance_id = dodag.instance_id;
    ack_requested = ack_requested;
    sequence = sequence;
    dodag_id = dodag.dodag_id;
    target = primary.target;
    target_prefix_len = 128;
    parent =
        if is_storing dodag
        then any
        else global_address_of net dodag.dodag_id dodag.preferred_parent;
    path_sequence = primary.path_sequence;
    path_lifetime = primary.path_lifetime;
    additional_targets = map wire_entry additional_targets;
  }

  unfoldable pub send_dao_message :
      Node → DodagMembership → DaoTargetEntry → ℕ → Bool → List DaoTargetEntry → List Message
  send_dao_message node dodag primary sequence ack_requested additional_targets =
      let header = new_dao dodag primary sequence ack_requested additional_targets in
      let interface = interface_for_neighbour node.sockets dodag.parents dodag.preferred_parent in
      if is_storing dodag
      then if interface == 0 then [] else dao header dodag.preferred_parent (some interface) ∷ []
      else dao header dodag.dodag_id none ∷ []

abbrev accepts : Option DodagMembership → Option DodagMembership
accepts none = none
accepts (some d) = if d.is_root || is_storing d then some d else none

-- The DODAG that a DAO names, if this node takes DAOs for it.
unfoldable pub resolve : Dodags → DaoHeader → Option DodagMembership
resolve dodags header = accepts (
    if is_any header.dodag_id
    then find_dodag_by_instance header.instance_id dodags
    else find_dodag header.instance_id header.dodag_id dodags)

unfoldable pub handle_additional : Arrival → List AdditionalTarget → Handling → Handling
handle_additional arrival [] h = h
handle_additional arrival (t ∷ ts) h =
    handle_additional arrival ts
      (handle_one_target arrival t.target t.path_sequence t.path_lifetime h)

unfoldable pub handle_targets : Arrival → DaoHeader → DodagMembership → Handling
handle_targets arrival header dodag =
    let start : Handling = record { dodag = dodag; to_propagate = [] } in
    handle_additional arrival header.additional_targets (
      if is_any header.target
      then start
      else handle_one_target arrival header.target header.path_sequence header.path_lifetime start)

-- What is sent for an accepted DAO: the relayed targets in one message, then the DAO-ACK.
module _ (net : Ipv6) where
  unfoldable pub relay : Node → DodagMembership → List DaoTargetEntry → List Message
  relay node dodag [] = []
  relay node dodag (primary ∷ rest) =
      send_dao_message net node dodag primary dodag.dao_sequence false rest

  unfoldable pub acknowledge : DodagMembership → DaoHeader → ℕ → ℕ → List Message
  acknowledge dodag header from interface =
      if header.ack_requested
      then dao_ack
          (record {
            instance_id = dodag.instance_id;
            sequence = header.sequence;
            status = 0;
            dodag_id = dodag.dodag_id;
          })
          from (if is_storing dodag then some interface else none)
        ∷ []
      else []

  abbrev pub new_arrival : Node → DodagMembership → DaoHeader → ℕ → ℕ → Arrival
  new_arrival node dodag header from interface = record {
    now = node.now;
    lifetime_unit = node.lifetime_unit;
    own_address = get_global_address_in net node.interfaces dodag;
    from = from;
    arrived_on = interface;
    dao_parent = header.parent;
  }

  unfoldable pub accept_dao : Node → DodagMembership → DaoHeader → ℕ → ℕ → Node × List Message
  accept_dao node dodag header from interface =
      if is_storing dodag && not (net.is_link_local from)
      then (node, [])
      else let handled =
          handle_targets (new_arrival node dodag header from interface) header dodag in
        (
          record node { dodags = update_dodag handled.dodag node.dodags },
          relay node handled.dodag (dedup handled.to_propagate)
              ++ acknowledge handled.dodag header from interface,
        )

  unfoldable pub handle_dao : Node → DaoHeader → ℕ → ℕ → Node × List Message
  handle_dao node header from interface = elim (resolve node.dodags header) [
    | none ↦ (node, [])
    | some dodag ↦ accept_dao node dodag header from interface
  ]

-- A DAO-ACK for the DAO last sent ends the wait for it.
unfoldable pub handle_dao_ack : Node → DaoAckHeader → Node
handle_dao_ack node ack = elim (find_dodag ack.instance_id ack.dodag_id node.dodags) [
  | none ↦ node
  | some dodag ↦
      if not (ack.sequence == dodag.dao_sequence) || not (ack.status == 0)
      then node
      else record node {
        dodags =
            update_dodag (record dodag { dao_ack_pending = false; dao_retry_event = none })
              node.dodags;
      }
]
