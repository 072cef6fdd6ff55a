-- ===== src/Routing/HopByHop.antt =====
-- The Hop-by-hop Routes of AODV-RPL and P2P-RPL: StoreHopByHopRoute, FindHopByHopRoute and
-- HasHopByHopRoute of model/rpl-routing-protocol.cc.
pub mod Guards
use rpl.Base.{
  ℕ, ◌+◌, Bool, true, false, not, ◌&&◌, ◌||◌, Option, none, some, ltb, leb, ◌==◌, if◌then◌else◌,
}
use rpl.Base.Map.{Map, find, insert}
use rpl.Sequence.{sequence_newer}

pub record HopByHopRoute : Type 0 where
  pub instance_id : ℕ
  pub dodag_id : ℕ
  pub next_hop : ℕ
  pub expire : ℕ
  pub seq_no : ℕ

abbrev pub is_live : ℕ → HopByHopRoute → Bool
is_live now route = ltb now route.expire

abbrev unless_expired : ℕ → Option HopByHopRoute → Option HopByHopRoute
unless_expired now none = none
unless_expired now (some route) = if leb route.expire now then none else some route

-- The route by destination alone.
unfoldable pub find_hop_by_hop_route : ℕ → ℕ → Map HopByHopRoute → Option HopByHopRoute
find_hop_by_hop_route now destination routes = unless_expired now (find destination routes)

abbrev pub is_of : ℕ → ℕ → ℕ → HopByHopRoute → Bool
is_of now instance_id dodag_id route =
    is_live now route && (route.instance_id == instance_id && route.dodag_id == dodag_id)

abbrev pub only_of : ℕ → ℕ → ℕ → Option HopByHopRoute → Option HopByHopRoute
only_of now instance_id dodag_id none = none
only_of now instance_id dodag_id (some route) =
    if is_of now instance_id dodag_id route then some route else none

-- The route that a discovery established.
unfoldable pub find_discovered_route : ℕ → ℕ → ℕ → ℕ → Map HopByHopRoute → Option HopByHopRoute
find_discovered_route now instance_id dodag_id destination routes =
    only_of now instance_id dodag_id (find destination routes)

abbrev live_of_instance : ℕ → ℕ → Option HopByHopRoute → Bool
live_of_instance now instance_id none = false
live_of_instance now instance_id (some route) =
    is_live now route && route.instance_id == instance_id

unfoldable pub has_hop_by_hop_route : ℕ → ℕ → ℕ → Map HopByHopRoute → Bool
has_hop_by_hop_route now instance_id destination routes =
    live_of_instance now instance_id (find destination routes)

-- The arguments of StoreHopByHopRoute; the sequence number is `none` where there is none.
pub record Offer : Type 0 where
  pub instance_id : ℕ
  pub dodag_id : ℕ
  pub destination : ℕ
  pub next_hop : ℕ
  pub lifetime : ℕ
  pub seq_no : Option ℕ
  pub pin_next_hop : Bool

abbrev pub conflicts : Offer → Option ℕ → HopByHopRoute → Bool
conflicts offer none route = not (route.next_hop == offer.next_hop)
conflicts offer (some seq_no) route =
    sequence_newer route.seq_no seq_no
    || (offer.pin_next_hop && (route.seq_no == seq_no && not (route.next_hop == offer.next_hop)))

-- Whether a live route of the same discovery stands against the offer.
abbrev pub is_refused : ℕ → Offer → Option HopByHopRoute → Bool
is_refused now offer none = false
is_refused now offer (some route) =
    is_of now offer.instance_id offer.dodag_id route && conflicts offer offer.seq_no route

abbrev or_zero : Option ℕ → ℕ
or_zero none = 0
or_zero (some seq_no) = seq_no

unfoldable pub new_route : ℕ → Offer → HopByHopRoute
new_route now offer = record {
  instance_id = offer.instance_id;
  dodag_id = offer.dodag_id;
  next_hop = offer.next_hop;
  expire = now + offer.lifetime;
  seq_no = or_zero offer.seq_no;
}

unfoldable pub store_hop_by_hop_route : ℕ → Offer → Map HopByHopRoute → Map HopByHopRoute × Bool
store_hop_by_hop_route now offer routes =
    if is_refused now offer (find offer.destination routes)
    then (routes, false)
    else (insert offer.destination (new_route now offer) routes, true)
