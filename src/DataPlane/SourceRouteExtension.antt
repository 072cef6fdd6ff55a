-- ===== src/DataPlane/SourceRouteExtension.antt =====
-- RplIpv6ExtensionSourceRouting::Process of model/rpl-source-routing-extension.cc, up to the lookup
-- of the route to the next router.
pub mod Path
use rpl.Base.{
  ℕ, ◌+◌, ◌-◌, ◌%◌, Bool, true, false, not, ◌&&◌, ◌||◌, Option, none, some, List, [], ◌∷◌, length,
  take, set, get_elem?, ltb, leb, ◌==◌, if◌then◌else◌,
}
use rpl.Ipv6.{Ipv6}
use rpl.Header.SourceRouting.{SourceRoutingHeader}

-- What becomes of the packet. A malformed header and a loop are reported to the source with the
-- octet of the header that is at fault; a forwarded packet has the header, the destination and the
-- Hop Limit that go with it.
pub data Fate : Type 0 where
  delivered : Fate
  malformed_header : ℕ → Fate
  multicast : Fate
  route_error : ℕ → Fate
  time_exceeded : Fate
  forwarded : SourceRoutingHeader → ℕ → ℕ → Fate

-- The loop over the addresses but the next one: whether this router's address comes twice with
-- another between.
unfoldable pub sees_loop : (ℕ → Bool) → ℕ → ℕ → Bool → Bool → List ℕ → Bool
sees_loop is_local next i saw_local saw_other [] = false
sees_loop is_local next i saw_local saw_other (a ∷ as_) =
    let skipped = sees_loop is_local next (i + 1) saw_local saw_other as_ in
    let local_again = sees_loop is_local next (i + 1) true false as_ in
    let other = sees_loop is_local next (i + 1) saw_local (saw_local || saw_other) as_ in
    if i == next
    then skipped
    else if is_local a
    then if saw_local && saw_other then true else local_again
    else other

-- SetSegmentsLeft and SetAddress.
abbrev pub advance : SourceRoutingHeader → ℕ → ℕ → SourceRoutingHeader
advance h next destination = record h {
  segments_left = h.segments_left - 1;
  addresses = set h.addresses next destination;
}

module _ (net : Ipv6) (is_local : ℕ → Bool) where
  -- Past the checks of Segments Left.
  unfoldable pub swap : SourceRoutingHeader → ℕ → ℕ → ℕ → ℕ → Fate
  swap h next next_address destination hop_limit =
      if net.is_multicast next_address || net.is_multicast destination
      then multicast
      else if sees_loop is_local next 0 false false (take (length h.addresses % 256) h.addresses)
      then route_error 2
      else if leb hop_limit 1
      then time_exceeded
      else forwarded (advance h next destination) next_address (hop_limit - 1)

  -- A next address out of range, which the checks rule out, is counted as malformed.
  unfoldable pub swap_with : SourceRoutingHeader → ℕ → ℕ → ℕ → Option ℕ → Fate
  swap_with h next destination hop_limit none = malformed_header 3
  swap_with h next destination hop_limit (some next_address) =
      swap h next next_address destination hop_limit

  -- The number of addresses is kept in a uint8_t.
  unfoldable pub process : SourceRoutingHeader → ℕ → ℕ → Fate
  process h destination hop_limit =
      let nb_address = length h.addresses % 256 in
      let next = nb_address - h.segments_left in
      if h.segments_left == 0
      then delivered
      else if ltb nb_address h.segments_left
      then malformed_header 3
      else swap_with h next destination hop_limit (get_elem? h.addresses next)
