-- ===== src/DataPlane/PacketInfoOption.antt =====
-- RplIpv6OptionRpl::Process of model/rpl-packet-info-option.cc, and what it asks of
-- RplRoutingProtocol: GetRankForInstance, NotifyRankInconsistency and NotifyForwardingError.
pub mod RankCheck
pub mod Once
use rpl.Base.{
  ℕ, ◌+◌, ◌%◌, Bool, true, false, not, ◌&&◌, ◌||◌, Option, none, some, List, [], ◌∷◌, ◌++◌, length,
  bit_and, ltb, leb, ◌==◌, if◌then◌else◌, take, drop,
}
use rpl.Base.Map.{Map, erase}
use rpl.Trickle.{TrickleTimer, reset}
use rpl.Header.Address.{has_flag}
use rpl.Header.PacketInfo.{
  PacketInfoHeader, get_down, set_rank_error, get_rank_error, set_forwarding_error,
  get_forwarding_error,
}
use rpl.Header.PacketInfo
use rpl.Routing.{DodagMembership, Dodags, infinite_rank, find_dodag_by_instance, update_dodag}
use rpl.Routing.HopByHop.{HopByHopRoute, has_hop_by_hop_route}

-- The packet acted on last: its Uid and the time. No time is Time::Min().
pub record OptionState : Type 0 where
  pub last_processed_uid : ℕ
  pub last_processed_time : Option ℕ

abbrev pub new_state : OptionState
new_state = record { last_processed_uid = 0; last_processed_time = none }

-- What Process reads and changes of the node's RplRoutingProtocol.
pub record Protocol : Type 0 where
  pub dodags : Dodags
  pub hop_by_hop_routes : Map HopByHopRoute

abbrev pub rank_of : Option DodagMembership → ℕ
rank_of none = infinite_rank
rank_of (some dodag) = dodag.rank

unfoldable pub get_rank_for_instance : ℕ → Dodags → ℕ
get_rank_for_instance instance_id dodags = rank_of (find_dodag_by_instance instance_id dodags)

abbrev reset_trickle : (ℕ → ℕ → ℕ) → DodagMembership → DodagMembership
reset_trickle draw dodag = record dodag { dio_trickle = reset draw dodag.dio_trickle }

abbrev forget_route : ℕ → DodagMembership → DodagMembership
forget_route destination dodag = record dodag {
  downward_routes = erase destination dodag.downward_routes;
}

abbrev change : (DodagMembership → DodagMembership) → Option DodagMembership → Dodags → Dodags
change f none dodags = dodags
change f (some dodag) dodags = update_dodag (f dodag) dodags

unfoldable pub notify_rank_inconsistency : (ℕ → ℕ → ℕ) → ℕ → Dodags → Dodags
notify_rank_inconsistency draw instance_id dodags =
    change (reset_trickle draw) (find_dodag_by_instance instance_id dodags) dodags

unfoldable pub notify_forwarding_error : ℕ → ℕ → Dodags → Dodags
notify_forwarding_error instance_id destination dodags =
    change (forget_route destination) (find_dodag_by_instance instance_id dodags) dodags

-- The outcome: the option as rewritten into the packet (none where the packet is left alone), whether
-- the packet is reported as dropped, and how far the caller's walk advances.
pub record Processed : Type 0 where
  pub state : OptionState
  pub protocol : Option Protocol
  pub rewritten : Option PacketInfoHeader
  pub is_dropped : Bool
  pub advance : ℕ

abbrev local_instance_flag : ℕ
local_instance_flag = 0x80

-- The 'D' flag of a Local RPLInstanceID is masked off.
abbrev hop_by_hop_instance : ℕ → ℕ
hop_by_hop_instance instance_id =
    if has_flag instance_id local_instance_flag then bit_and instance_id 0xBF else instance_id

abbrev pub is_inconsistent : PacketInfoHeader → ℕ → Bool
is_inconsistent rpi own_rank =
    if get_down rpi then leb own_rank rpi.sender_rank else leb rpi.sender_rank own_rank

abbrev pub set_sender_rank : ℕ → PacketInfoHeader → PacketInfoHeader
set_sender_rank rank rpi = record rpi { sender_rank = rank }

-- The rank consistency check: the protocol, the option and whether the packet is dropped.
unfoldable pub check_rank :
    (ℕ → ℕ → ℕ) → Protocol → PacketInfoHeader → Protocol × PacketInfoHeader × Bool
check_rank draw rpl rpi =
    let own_rank = get_rank_for_instance rpi.instance_id rpl.dodags in
    if not (is_inconsistent rpi own_rank)
    then (rpl, set_sender_rank own_rank rpi, false)
    else if get_rank_error rpi
    then (
      record rpl { dodags = notify_rank_inconsistency draw rpi.instance_id rpl.dodags },
      set_sender_rank own_rank rpi,
      true,
    )
    else (rpl, set_sender_rank own_rank (set_rank_error true rpi), false)

-- A packet seen for the first time at this moment, on a node with RPL.
unfoldable pub act :
    (ℕ → ℕ → ℕ) → ℕ → ℕ → Protocol → PacketInfoHeader → Protocol × PacketInfoHeader × Bool
act draw now destination rpl rpi =
    if has_hop_by_hop_route now (hop_by_hop_instance rpi.instance_id) destination
      rpl.hop_by_hop_routes
    then (rpl, rpi, false)
    else if get_forwarding_error rpi
    then (
      record rpl { dodags = notify_forwarding_error rpi.instance_id destination rpl.dodags },
      set_forwarding_error false rpi,
      false,
    )
    else check_rank draw rpl rpi

abbrev pub same_time : Option ℕ → ℕ → Bool
same_time none now = false
same_time (some time) now = time == now

abbrev pub is_same : OptionState → ℕ → ℕ → Bool
is_same state uid now = state.last_processed_uid == uid && same_time state.last_processed_time now

abbrev pub left_alone : OptionState → Option Protocol → Bool → ℕ → Processed
left_alone state protocol is_dropped advance = record {
  state = state;
  protocol = protocol;
  rewritten = none;
  is_dropped = is_dropped;
  advance = advance;
}

-- Process, from the option read off the packet.
unfoldable pub process_option :
    (ℕ → ℕ → ℕ) → OptionState → ℕ → ℕ → ℕ → Option Protocol → PacketInfoHeader → Processed
process_option draw state now uid destination protocol rpi =
    let option_size = PacketInfo.get_serialized_size rpi % 256 in
    let seen : OptionState = record { last_processed_uid = uid; last_processed_time = some now } in
    if rpi.malformed
    then left_alone state protocol true 2
    else if is_same state uid now
    then left_alone state protocol false option_size
    else elim protocol [
      | none ↦ left_alone seen none false option_size
      | some rpl ↦
          let (after, rewritten, is_dropped) = act draw now destination rpl rpi in
          record {
            state = seen;
            protocol = some after;
            rewritten = some rewritten;
            is_dropped = is_dropped;
            advance = option_size;
          }
    ]
