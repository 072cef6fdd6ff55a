-- ===== src/Header/Runs.antt =====
-- The headers at concrete values, over addresses in network order.
mod Discovery
use rpl.Base.{
  ℕ, ◌+◌, ◌*◌, ◌≤◌, ◌<◌, ◌≡◌, inl, refl, min, true, false, none, some, List, [], ◌∷◌, ◌++◌, length,
  drop, arith,
}
use rpl.Ipv6.Network.{network}
use rpl.Header.DaoAck.{DaoAckHeader}
use rpl.Header.DroAck
use rpl.Header.DroAck.{DroAckHeader}
use rpl.Header.DroAck.RoundTrip.{dro_ack_total}
use rpl.Header.PacketInfo
use rpl.Header.PacketInfo.{
  PacketInfoHeader, set_down, get_down, set_rank_error, get_rank_error, set_forwarding_error,
  get_forwarding_error,
}
use rpl.Header.PacketInfo.Flags.{Sets, flags_independent}
use rpl.Header.PacketInfo.RoundTrip.{
  packet_info_round_trip, packet_info_malformed, packet_info_parse_print,
}
use rpl.Header.SourceRouting
use rpl.Header.SourceRouting.{SourceRoutingHeader}
use rpl.Header.SourceRouting.RoundTrip.{source_routing_round_trip}
use rpl.Header.SourceRouting.Safety.{source_routing_total}
use rpl.Header.Dao
use rpl.Header.Dao.{DaoHeader}
use rpl.Header.Dao.RoundTrip.{HasAddresses, dao_round_trip}
use rpl.Header.Dao.Safety.{has_base, dao_total}

-- 2001:1::1 and fe80::1.
abbrev global_one : ℕ
global_one = 0x2001_0001_0000_0000_0000_0000_0000_0001

abbrev local_one : ℕ
local_one = 0xfe80_0000_0000_0000_0000_0000_0000_0001

abbrev dao_ack : DaoAckHeader
dao_ack = record { instance_id = 0; sequence = 7; status = 0; dodag_id = global_one }

abbrev dro_ack : DroAckHeader
dro_ack = record { instance_id = 0x81; sequence = 2; dodag_id = global_one }

-- An option with two bytes of sub-TLVs.
abbrev rpi : PacketInfoHeader
rpi = record {
  option_type = 0x63;
  length_field = 6;
  flags = 0x80;
  instance_id = 0;
  sender_rank = 0x0180;
  sub_tlvs = 1 ∷ 0 ∷ [];
  malformed = false;
}

packet_info_round_trip_example :
    (PacketInfo.deserialize (PacketInfo.serialize rpi ++ 5 ∷ []) ≡ some (rpi, 5 ∷ []))
    × (length (PacketInfo.serialize rpi) ≡ PacketInfo.get_serialized_size rpi)
unfolding PacketInfo.get_serialized_size
packet_info_round_trip_example = packet_info_round_trip rpi (5 ∷ []) refl refl (omega arith)

-- Six bytes behind the type and the length, and one that is not the option's.
abbrev rpi_bytes : List ℕ
rpi_bytes = 0x80 ∷ 0 ∷ 1 ∷ 0x80 ∷ 1 ∷ 0 ∷ 9 ∷ []

packet_info_parse_print_example :
    (h : PacketInfoHeader) × (rest : List ℕ) × (PacketInfo.deserialize (0x63 ∷ 6 ∷ rpi_bytes)
      ≡ some (h, rest))
    × (h.malformed ≡ false)
    × (length rpi_bytes ≡ length rest + 6)
    × (PacketInfo.serialize h ++ rest ≡ 0x63 ∷ 6 ∷ rpi_bytes)
packet_info_parse_print_example =
    packet_info_parse_print 0x63 6 rpi_bytes (omega arith) (omega arith) (omega arith)
      (ground arith)

abbrev route : SourceRoutingHeader
route = record {
  next_header = 17;
  type_routing = 3;
  segments_left = 2;
  addresses = local_one ∷ global_one ∷ [];
}

route_size : SourceRouting.get_serialized_size network route ≡ 32
unfolding network SourceRouting.get_serialized_size SourceRouting.size_of SourceRouting.cmpri
    SourceRouting.cmpre SourceRouting.all_but_last_link_local SourceRouting.last_link_local
route_size = refl

source_routing_round_trip_example :
    (SourceRouting.deserialize network (SourceRouting.serialize network route ++ 1 ∷ [])
      ≡ some ((route, SourceRouting.get_serialized_size network route), 1 ∷ []))
    × (length (SourceRouting.serialize network route)
        ≡ SourceRouting.get_serialized_size network route)
source_routing_round_trip_example =
    source_routing_round_trip network route (1 ∷ []) (omega arith) (omega (arith, route_size))

abbrev dao : DaoHeader
dao = record {
  instance_id = 0;
  ack_requested = true;
  sequence = 3;
  dodag_id = global_one;
  target = global_one + 1;
  target_prefix_len = 128;
  parent = global_one + 2;
  path_sequence = 241;
  path_lifetime = 30;
  additional_targets =
      record {
        target = global_one + 3;
        target_prefix_length = 128;
        path_sequence = 1;
        path_lifetime = 0;
      }
      ∷ [];
}

dao-HasAddresses : HasAddresses network dao
dao-HasAddresses = record {
  dodag_id = omega arith;
  target = omega arith;
  parent = omega arith;
  additional = omega arith;
}

dao_round_trip_example :
    (Dao.deserialize network Dao.new_header (Dao.serialize network dao) ≡ some (dao, []))
    × (length (Dao.serialize network dao) ≡ Dao.get_serialized_size dao)
dao_round_trip_example = dao_round_trip network Dao.new_header dao dao-HasAddresses

-- A Target option that says 18 octets and has 3.
abbrev odd_dao : List ℕ
odd_dao = 0 ∷ 0 ∷ 0 ∷ 1 ∷ 5 ∷ 18 ∷ 1 ∷ 2 ∷ 3 ∷ []

dao_total_example :
    (has_base odd_dao ≡ false → Dao.deserialize network Dao.new_header odd_dao ≡ none)
    × (has_base odd_dao ≡ true
        → (h : DaoHeader) × (rest : List ℕ) × (Dao.deserialize network Dao.new_header odd_dao
            ≡ some (h, rest))
          × (length rest ≤ length odd_dao))
dao_total_example = dao_total network Dao.new_header odd_dao
