-- ===== src/Routing/SourceRoute.antt =====
-- The source routes that the root of a Non-Storing DODAG computes from the topology its DAOs
-- reported: ComputeSourceRoute, PurgeTopology, LinkLocalOf and GlobalAddressOf of
-- model/rpl-routing-protocol.cc.
pub mod Climbing
pub mod Purging
pub mod Roots
use rpl.Base.{
  ℕ, zero, suc, Bool, true, false, ◌||◌, ◌&&◌, not, Option, none, some, List, [], ◌∷◌, ◌++◌, map,
  length, take, drop, ltb, leb, ◌==◌, if◌then◌else◌,
}
use rpl.Base.Map.{Map, find, keep}
use rpl.Ipv6.{Ipv6, any, is_any, link_local_prefix}
use rpl.Routing.{TopologyEntry, DodagMembership, Dodags, update_dodag}

module _ (net : Ipv6) where
  open net use {serialize as address_bytes, deserialize as address_of}

  unfoldable pub global_address_of : ℕ → ℕ → ℕ
  global_address_of dodag_id link_local =
      if is_any dodag_id || is_any link_local
      then any
      else address_of (take 8 (address_bytes dodag_id) ++ drop 8 (address_bytes link_local))

  unfoldable pub link_local_of : ℕ → ℕ
  link_local_of global = address_of (link_local_prefix ++ drop 8 (address_bytes global))

abbrev pub is_live : ℕ → TopologyEntry → Bool
is_live now entry = ltb now entry.expire

unfoldable pub purge_topology : ℕ → Map TopologyEntry → Map TopologyEntry
purge_topology now topology = keep (is_live now) topology

-- One lookup of the loop: the reported parent, unless the entry is missing or has expired.
abbrev parent_of : ℕ → Option TopologyEntry → Option ℕ
parent_of now none = none
parent_of now (some entry) = if leb entry.expire now then none else some entry.parent

unfoldable pub live_parent : ℕ → Map TopologyEntry → ℕ → Option ℕ
live_parent now topology current = parent_of now (find current topology)

-- The loop, of at most as many rounds as the first number says. The chain is held in the order
-- that std::reverse gives it, the root's child first.
unfoldable pub climb : (ℕ → Option ℕ) → ℕ → ℕ → ℕ → List ℕ → Option (List ℕ)
climb parent root zero current chain = none
climb parent root (suc rounds) current chain = elim (parent current) [
  | none ↦ none
  | some up ↦
      if up == root then some (current ∷ chain) else climb parent root rounds up (current ∷ chain)
]

abbrev is_known : Option TopologyEntry → Bool
is_known none = false
is_known (some entry) = true

-- The global addresses of the routers of the route.
unfoldable pub global_chain : DodagMembership → ℕ → ℕ → Option (List ℕ)
global_chain dodag now destination =
    if not dodag.is_root || not (is_known (find destination dodag.topology))
    then none
    else climb (live_parent now dodag.topology) dodag.dodag_id (suc (length dodag.topology))
        destination []

-- Two lists are the same function of an absent chain: false with no hops.
abbrev option_map : (List ℕ → List ℕ) → Option (List ℕ) → Option (List ℕ)
option_map f none = none
option_map f (some xs) = some (f xs)

unfoldable pub compute_source_route : Ipv6 → DodagMembership → ℕ → ℕ → Option (List ℕ)
compute_source_route net dodag now destination =
    option_map (map (link_local_of net)) (global_chain dodag now destination)
