-- ===== src/Routing/Downward.antt =====
-- What a node learns from one target of a DAO, and the routes it forwards over: the lambda of
-- HandleDao, PurgeDownwardRoutes and FindDownwardRoute of model/rpl-routing-protocol.cc.
pub mod Table
pub mod Refresh
use rpl.Base.{
  ℕ, Bool, true, false, not, ◌&&◌, ◌||◌, Option, none, some, List, [], ◌∷◌, ◌++◌, ltb, leb, ◌==◌,
  if◌then◌else◌,
}
use rpl.Base.Map.{Map, find, insert, erase, keep}
use rpl.Ipv6.{is_any}
use rpl.Sequence.{SequenceOrder, less, equal, greater, not_comparable, sequence_compare}
use rpl.Routing.{TopologyEntry, DownwardRoute, DodagMembership, mop_storing_no_multicast, expiry}

pub record DaoTargetEntry : Type 0 where
  pub target : ℕ
  pub target_prefix_length : ℕ
  pub path_sequence : ℕ
  pub path_lifetime : ℕ

-- What the lambda reads around it: the clock, LifetimeUnit, GetGlobalAddressIn of the DODAG, the
-- sender, its interface, and the DAO's parent field.
pub record Arrival : Type 0 where
  pub now : ℕ
  pub lifetime_unit : ℕ
  pub own_address : ℕ
  pub from : ℕ
  pub arrived_on : ℕ
  pub dao_parent : ℕ

abbrev pub is_stale : SequenceOrder → Bool
is_stale less = true
is_stale not_comparable = true
is_stale _ = false

abbrev is_greater : SequenceOrder → Bool
is_greater greater = true
is_greater _ = false

abbrev pub route_order : ℕ → Option DownwardRoute → SequenceOrder
route_order path_sequence none = greater
route_order path_sequence (some route) = sequence_compare path_sequence route.path_sequence

abbrev pub entry_order : ℕ → Option TopologyEntry → SequenceOrder
entry_order path_sequence none = greater
entry_order path_sequence (some entry) = sequence_compare path_sequence entry.path_sequence

abbrev holds_route : Option DownwardRoute → Bool
holds_route none = false
holds_route (some route) = true

unfoldable pub new_route : Arrival → ℕ → ℕ → DownwardRoute
new_route arrival path_sequence path_lifetime = record {
  next_hop = arrival.from;
  interface = arrival.arrived_on;
  path_sequence = path_sequence;
  path_lifetime = path_lifetime;
  expire = expiry arrival.now arrival.lifetime_unit path_lifetime;
}

-- The Storing branch: the table, and whether the change is worth telling the preferred parent.
unfoldable pub store_downward : Arrival → ℕ → ℕ → ℕ → Map DownwardRoute → Map DownwardRoute × Bool
store_downward arrival target path_sequence path_lifetime routes =
    let existing = find target routes in
    let order = route_order path_sequence existing in
    if is_stale order
    then (routes, false)
    else if path_lifetime == 0
    then (erase target routes, holds_route existing)
    else (insert target (new_route arrival path_sequence path_lifetime) routes, is_greater order)

abbrev pub drop_expired : ℕ → ℕ → Option TopologyEntry → Map TopologyEntry → Map TopologyEntry
drop_expired now target none topology = topology
drop_expired now target (some entry) topology =
    if leb entry.expire now then erase target topology else topology

unfoldable pub new_entry : Arrival → ℕ → ℕ → TopologyEntry
new_entry arrival path_sequence path_lifetime = record {
  parent = arrival.dao_parent;
  path_sequence = path_sequence;
  expire = expiry arrival.now arrival.lifetime_unit path_lifetime;
}

-- The Non-Storing branch, with an expired entry already gone.
unfoldable pub store_fresh : Arrival → ℕ → ℕ → ℕ → Map TopologyEntry → Map TopologyEntry
store_fresh arrival target path_sequence path_lifetime topology =
    if is_stale (entry_order path_sequence (find target topology))
    then topology
    else if path_lifetime == 0
    then erase target topology
    else insert target (new_entry arrival path_sequence path_lifetime) topology

unfoldable pub store_topology : Arrival → ℕ → ℕ → ℕ → Map TopologyEntry → Map TopologyEntry
store_topology arrival target path_sequence path_lifetime topology =
    store_fresh arrival target path_sequence path_lifetime
      (drop_expired arrival.now target (find target topology) topology)

-- The DODAG and the targets that are to be relayed.
pub record Handling : Type 0 where
  pub dodag : DodagMembership
  pub to_propagate : List DaoTargetEntry

abbrev pub is_storing : DodagMembership → Bool
is_storing dodag = dodag.mop == mop_storing_no_multicast

-- What a DAO may not redirect: no address at all, the root, and the node itself.
abbrev pub is_refused : Arrival → DodagMembership → ℕ → Bool
is_refused arrival dodag target =
    is_any target || (target == dodag.dodag_id || target == arrival.own_address)

unfoldable pub handle_storing : Arrival → ℕ → ℕ → ℕ → Handling → Handling
handle_storing arrival target path_sequence path_lifetime h =
    let (routes, changed) =
      store_downward arrival target path_sequence path_lifetime h.dodag.downward_routes in
    let entry : DaoTargetEntry = record {
      target = target;
      target_prefix_length = 128;
      path_sequence = path_sequence;
      path_lifetime = path_lifetime;
    } in
    record {
      dodag = record h.dodag { downward_routes = routes };
      to_propagate =
          if changed && not h.dodag.is_root then h.to_propagate ++ entry ∷ [] else h.to_propagate;
    }

unfoldable pub handle_non_storing : Arrival → ℕ → ℕ → ℕ → Handling → Handling
handle_non_storing arrival target path_sequence path_lifetime h = record h {
  dodag = record h.dodag {
    topology = store_topology arrival target path_sequence path_lifetime h.dodag.topology;
  };
}

unfoldable pub handle_one_target : Arrival → ℕ → ℕ → ℕ → Handling → Handling
handle_one_target arrival target path_sequence path_lifetime h =
    if is_refused arrival h.dodag target
    then h
    else if is_storing h.dodag
    then handle_storing arrival target path_sequence path_lifetime h
    else handle_non_storing arrival target path_sequence path_lifetime h

-- `*it = entry` where the target was seen, `push_back` where it was not.
unfoldable pub merge : List DaoTargetEntry → DaoTargetEntry → List DaoTargetEntry
merge [] entry = entry ∷ []
merge (seen ∷ rest) entry =
    let tail = merge rest entry in if seen.target == entry.target then entry ∷ rest else seen ∷ tail

unfoldable pub dedup_onto : List DaoTargetEntry → List DaoTargetEntry → List DaoTargetEntry
dedup_onto deduped [] = deduped
dedup_onto deduped (entry ∷ entries) = dedup_onto (merge deduped entry) entries

-- The last report of each target, where its first one stood.
unfoldable pub dedup : List DaoTargetEntry → List DaoTargetEntry
dedup entries = dedup_onto [] entries

abbrev pub route_is_live : ℕ → DownwardRoute → Bool
route_is_live now route = ltb now route.expire

unfoldable pub purge_downward_routes : ℕ → Map DownwardRoute → Map DownwardRoute
purge_downward_routes now routes = keep (route_is_live now) routes

abbrev unless_expired : ℕ → Option DownwardRoute → Option DownwardRoute
unless_expired now none = none
unless_expired now (some route) = if leb route.expire now then none else some route

unfoldable pub find_downward_route : DodagMembership → ℕ → ℕ → Option DownwardRoute
find_downward_route dodag now target = unless_expired now (find target dodag.downward_routes)
