-- ===== src/Lib.antt =====
-- Verification of the RPL module for ns-3 (RFC 6550 and its companions), the C++ code under model/.
--
-- The program. RplRoutingProtocol (model/rpl-routing-protocol.cc) keeps one membership for each DODAG
-- a node is part of: its neighbours and preferred parent, its rank, a Trickle timer
-- (model/rpl-trickle-timer.cc) that paces its DIOs, and what it learned from DAOs, which is a topology
-- at the root of a Non-Storing DODAG and a table of downward routes at every router of a Storing one.
-- Messages are read and written by the headers of model/rpl-header.cc. On the data path
-- RplIpv6OptionRpl (model/rpl-packet-info-option.cc) checks the RPL Option of every packet against the
-- rank, and RplIpv6ExtensionSourceRouting (model/rpl-source-routing-extension.cc) moves a source-routed
-- packet on to its next router. What orders all reports of one origin is a lollipop counter
-- (model/rpl-conf.h).
--
-- The files.
--   Base             what all files share: tests, lists, byte masks, and std::map from addresses as the
--                    list of its entries in ascending order of the key (Base/Map).
--   Ipv6             ns-3's Ipv6Address as a parameter: an interface of operations and documented laws,
--                    and an instance in network order (Ipv6/Network). An address is the number of its
--                    128 bits.
--   Buffer           the reading of a packet's bytes as a reader that fails at a read past the end.
--   Sequence         RplSequenceCompare, RplSequenceNewer and RplSequenceIncrement.
--   Trickle          RplTrickleTimer, its two events, and the steps that callers and the clock take.
--   Header           Dao, DaoAck, DroAck, Dro, Dio, PacketInfo and SourceRouting are the classes
--                    RplDaoHeader, RplDaoAckHeader, RplP2pDroAckHeader, RplP2pDroHeader, RplDioHeader,
--                    RplPacketInfoHeader and RplSourceRoutingHeader; RouteDiscovery is the P2P-RDO that
--                    Dio and Dro carry, AddressVector the addresses of a route with the prefix of the
--                    DODAGID elided; Options is the loop over options (Options/Whole: run with as much
--                    fuel as bytes), Address the fields that hold an address. Dio writes, Dio/Parser
--                    reads.
--   Routing          the membership and its lookups, and below it: Addresses (GetGlobalAddress and
--                    GetGlobalAddressIn), SourceRoute (ComputeSourceRoute, PurgeTopology; Roots:
--                    FindRootDodagFor), Downward (the lambda handleOneTarget of HandleDao, the
--                    downward routes), HandleDao
--                    (HandleDao, HandleDaoAck, SendDaoMessage), SendDao (SendDao, DaoTimerExpire,
--                    DaoRetry), NoPath (SendNoPathDao), HopByHop (StoreHopByHopRoute and its
--                    lookups), Parents (SelectPreferredParent up to the
--                    choice) and Parents/Selection (the rest of it), Membership (JoinDodag and
--                    GetBaseDodag), Membership/Leaving (LeaveDodag, and settle: SelectPreferredParent
--                    with what follows the loss of the last parent), Membership/Forming
--                    (CreateDodagMembership, HandleDadSuccess, GlobalRepairFire, DisTimerExpire),
--                    Membership/Advertising (SendDio, HandleDis, DioTrickleFire, StopInterface),
--                    HandleDio (the conditions and pieces of HandleDio), HandleDio/Arrival (its
--                    course) and HandleDio/Refusing (the checks of model/rpl-aodv.cc and
--                    model/rpl-p2p.cc before a join).
--   DataPlane        PacketInfoOption and SourceRouteExtension are Process of the two classes above;
--                    HopByHopHeader is ReadRpiInstanceId, ReadRpiDown and MarkForwardingError.
-- Modules below these are named for what their theorems are about, and modules named Runs hold concrete
-- values.
--
-- How the code is modelled. Every operation is a function from the old state to the new one and to what
-- is sent, in the order of the code's conditions; early returns are the branches. Numbers are natural
-- numbers: a uint8_t or uint16_t that can wrap has its modulus written out. Times are nanoseconds. A
-- pending timer is the delay it was scheduled with. Randomness (the Trickle timer's draw, the jitter of
-- a DAO) is an argument. The addresses of the interfaces and the interfaces with a socket are arguments.
--
-- Bounds. The loop of ComputeSourceRoute has the code's own bound, one round more than the topology has
-- entries. The loop over options has as much fuel as bytes: each round takes one at least.
--
-- How the parts meet. A message that is parsed is handled in one step: HandleDio enters the DODAG (joins
-- it, or migrates by LeaveDodag and JoinDodag), updates the sender in the set of neighbours, runs
-- SelectPreferredParent, which may leave the DODAG again, and paces Trickle. What a step makes is the
-- memberships after it and the list of what was sent. The handlers of the route discoveries
-- (HandleAodvRreq, HandleAodvRrep, HandleAodvRrepInstance and HandleP2pRdo) are a record of functions that
-- HandleDio takes.
--
-- Not modelled: those handlers and the rest of AODV-RPL (model/rpl-aodv.cc) and P2P-RPL
-- (model/rpl-p2p.cc), with the aodv and p2p parts of a membership, except for what a DIO is refused for;
-- RouteInput and RouteOutput; and the sending of packets by ns-3. Logging, TypeId, attributes and Print
-- have no effect on the state.
pub mod Base
pub mod Buffer
pub mod DataPlane
pub mod Header
pub mod Ipv6
pub mod Routing
pub mod Sequence
pub mod Trickle
