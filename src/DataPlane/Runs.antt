-- ===== src/DataPlane/Runs.antt =====
-- Packets at concrete routers.
use rpl.Base.{List, ℕ, ◌%◌, ◌≡◌, refl, true, false, some, [], ◌∷◌, arith, ◌==◌}
use rpl.Ipv6.Network.{network, multicast_test}
use rpl.Header.PacketInfo
use rpl.Header.PacketInfo.{
  PacketInfoHeader, new_header, set_rank_error, get_down, get_rank_error, set_forwarding_error,
  deserialize, read_sub_tlvs,
}
use rpl.Header.SourceRouting.{SourceRoutingHeader}
use rpl.DataPlane.SourceRouteExtension.{process, swap, swap_with, sees_loop}
use rpl.DataPlane.SourceRouteExtension.Path.{KeepsPath, process-KeepsPath}
use rpl.DataPlane.PacketInfoOption.{
  Protocol, new_state, check_rank, act, process_option, left_alone,
}
use rpl.Buffer.{◌>>=◌, return, read_u8, read_u16, read_bytes}
use rpl.DataPlane.HopByHopHeader.{read_rpi, mark_forwarding_error}
use rpl.DataPlane.HopByHopHeader.Marking.{mark_forwarding_error-read_rpi}
use rpl.DataPlane.PacketInfoOption.RankCheck.{IsChecked, check_rank-IsChecked}
use rpl.DataPlane.PacketInfoOption.Once.{process_option_once}

abbrev header : SourceRoutingHeader
header = record {
  next_header = 17;
  type_routing = 3;
  segments_left = 2;
  addresses = 11 ∷ 12 ∷ 13 ∷ [];
}

abbrev forwarded_header : SourceRoutingHeader
forwarded_header = record {
  next_header = 17;
  type_routing = 3;
  segments_left = 1;
  addresses = 11 ∷ 10 ∷ 13 ∷ [];
}

process-KeepsPath_example : KeepsPath network header 10 64 forwarded_header 12 63
unfolding process swap swap_with sees_loop multicast_test network
process-KeepsPath_example =
    process-KeepsPath network (◌==◌ 10) header forwarded_header 10 64 12 63 (omega arith) refl

-- A source of randomness that picks the lower bound.
abbrev lowest : ℕ → ℕ → ℕ
lowest lo hi = lo

-- No DODAG, so the rank is infinite, and an upward packet of any rank is inconsistent.
abbrev outsider : Protocol
outsider = record { dodags = []; hop_by_hop_routes = [] }

abbrev option : PacketInfoHeader
option = record {
  option_type = 0x63;
  length_field = 4;
  flags = 0;
  instance_id = 0;
  sender_rank = 512;
  sub_tlvs = [];
  malformed = false;
}

check_rank-IsChecked_example :
    let (after, out, is_dropped) = check_rank lowest outsider option in
    IsChecked lowest outsider option after out is_dropped
check_rank-IsChecked_example = check_rank-IsChecked lowest outsider option (omega arith)

process_option_once_example :
    let first = process_option lowest new_state 100 7 9 (some outsider) option in
    (process_option lowest first.state 100 7 9 first.protocol option
      ≡ left_alone first.state first.protocol false (PacketInfo.get_serialized_size option % 256))
    × ((process_option lowest first.state 200 7 9 (some outsider) option).rewritten
        ≡ some (act lowest 200 9 outsider option).1)
process_option_once_example =
    process_option_once lowest new_state 100 200 7 9 outsider (some outsider) option option refl
      refl (λ e. omega arith)

-- A Hop-by-Hop header with the option, and one octet of payload.
abbrev bytes : List ℕ
bytes = 17 ∷ 0 ∷ 0x63 ∷ 4 ∷ 0 ∷ 0 ∷ 2 ∷ 0 ∷ 7 ∷ []

bytes_read : read_rpi 0 bytes ≡ some (option, 7 ∷ [])
unfolding read_rpi deserialize read_sub_tlvs read_u8 read_u16 read_bytes return ◌>>=◌
bytes_read = refl

mark_forwarding_error-read_rpi_example :
    (q : List ℕ) × (mark_forwarding_error 0 bytes ≡ some q)
    × (read_rpi 0 q ≡ some (set_forwarding_error true option, 7 ∷ []))
mark_forwarding_error-read_rpi_example =
    mark_forwarding_error-read_rpi 0 bytes option (7 ∷ []) bytes_read
