-- ===== src/DataPlane/HopByHopHeader.antt =====
-- The RPL Option at the front of a Hop-by-Hop header: ReadRpiInstanceId, ReadRpiDown and
-- MarkForwardingError of model/rpl-routing-protocol.cc. A packet is the list of its bytes.
pub mod Marking
use rpl.Base.{
  ℕ, ◌+◌, Bool, true, false, not, ◌||◌, Option, none, some, List, [], ◌∷◌, ◌++◌, length, take, drop,
  ltb, ◌==◌, if◌then◌else◌,
}
use rpl.Header.PacketInfo.{
  PacketInfoHeader, hbh_option_type, rpi_base_size, get_down, set_forwarding_error, serialize,
  deserialize,
}

-- Ipv6Header::IPV6_EXT_HOP_BY_HOP, whose two octets stand before the option.
abbrev pub ext_hop_by_hop : ℕ
ext_hop_by_hop = 0

abbrev pub usable : Option (PacketInfoHeader × List ℕ) → Option (PacketInfoHeader × List ℕ)
usable none = none
usable (some (rpi, rest)) =
    if rpi.malformed || not (rpi.option_type == hbh_option_type) then none else some (rpi, rest)

-- The option and what follows it.
unfoldable pub read_rpi : ℕ → List ℕ → Option (PacketInfoHeader × List ℕ)
read_rpi next_header p =
    if not (next_header == ext_hop_by_hop)
      || (ltb (length p) 2 || ltb (length (drop 2 p)) rpi_base_size)
    then none
    else usable (deserialize (drop 2 p))

abbrev only_instance : Option (PacketInfoHeader × List ℕ) → Option ℕ
only_instance none = none
only_instance (some (rpi, rest)) = some rpi.instance_id

abbrev only_down : Option (PacketInfoHeader × List ℕ) → Option Bool
only_down none = none
only_down (some (rpi, rest)) = some (get_down rpi)

unfoldable pub read_rpi_instance_id : ℕ → List ℕ → Option ℕ
read_rpi_instance_id next_header p = only_instance (read_rpi next_header p)

unfoldable pub read_rpi_down : ℕ → List ℕ → Option Bool
read_rpi_down next_header p = only_down (read_rpi next_header p)

abbrev pub splice : List ℕ → Option (PacketInfoHeader × List ℕ) → Option (List ℕ)
splice p none = none
splice p (some (rpi, rest)) = some (take 2 p ++ (serialize (set_forwarding_error true rpi) ++ rest))

unfoldable pub mark_forwarding_error : ℕ → List ℕ → Option (List ℕ)
mark_forwarding_error next_header p = splice p (read_rpi next_header p)
