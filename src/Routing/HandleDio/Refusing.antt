-- ===== src/Routing/HandleDio/Refusing.antt =====
-- Which route discovery DIOs a node does not join: IsOwnAddress, ShouldRefuseAodvInstance,
-- ShouldRefuseAodvRreq and ShouldRefuseAodvRrep of model/rpl-aodv.cc, MatchesP2pTarget and
-- ShouldRefuseP2pRdo of model/rpl-p2p.cc.
pub mod Limits
use rpl.Base.{
  ℕ, ◌+◌, ◌*◌, ◌/◌, ◌%◌, Bool, true, false, not, ◌&&◌, ◌||◌, Option, none, some, List, [], ◌∷◌, ltb,
  leb, ◌==◌, if◌then◌else◌, bit_and,
}
use rpl.Base.Map.{Map, find}
use rpl.Ipv6.{Ipv6, is_any}
use rpl.Sequence.{sequence_newer}
use rpl.Header.Dio.{DioHeader, ArtOption, TargetOption}
use rpl.Routing.{DodagMembership, find_dodag}
use rpl.Routing.Addresses.{InterfaceAddress}
use rpl.Routing.HopByHop.{HopByHopRoute, is_live}
use rpl.Routing.Membership.{Keyed, Memberships}

-- What the checks read besides the memberships: m_hopByHopRoutes, the temporary DAGs that were
-- stopped (p2p.stopped of a membership, m_p2pStopMemory after it), and m_minHopRankIncrease.
pub record DiscoveryState : Type 0 where
  pub hop_by_hop_routes : Map HopByHopRoute
  pub stopped : Keyed Bool
  pub stop_memory : Keyed (Option ℕ)
  pub min_hop_rank_increase : ℕ

abbrev on_interface : ℕ → List InterfaceAddress → Bool
on_interface address [] = false
on_interface address (a ∷ as_) = a.address == address || on_interface address as_

abbrev on_any : ℕ → List (List InterfaceAddress) → Bool
on_any address [] = false
on_any address (i ∷ is) = on_interface address i || on_any address is

unfoldable pub is_own_address : List (List InterfaceAddress) → ℕ → Bool
is_own_address interfaces address = not (is_any address) && on_any address interfaces

abbrev before : ℕ → Option ℕ → Bool
before now none = false
before now (some end) = ltb now end

abbrev any_own : List (List InterfaceAddress) → List ℕ → Bool
any_own interfaces [] = false
any_own interfaces (hop ∷ hops) = is_own_address interfaces hop || any_own interfaces hops

abbrev any_art : List (List InterfaceAddress) → List ArtOption → Bool
any_art interfaces [] = false
any_art interfaces (art ∷ arts) = is_own_address interfaces art.target || any_art interfaces arts

abbrev first_art : List (List InterfaceAddress) → List ArtOption → Bool
first_art interfaces [] = false
first_art interfaces (art ∷ arts) = is_own_address interfaces art.target

abbrev any_target : List (List InterfaceAddress) → List TargetOption → Bool
any_target interfaces [] = false
any_target interfaces (t ∷ ts) = is_own_address interfaces t.target || any_target interfaces ts

abbrev no_art : List ArtOption → Bool
no_art [] = true
no_art (art ∷ arts) = false

-- A limit of 0 is none. The node that is looked for may sit at the limit itself. Ranks are uint16_t.
unfoldable pub past_limit : ℕ → ℕ → Bool → ℕ → Bool
past_limit rank min_hop_rank_increase is_sought limit =
    let advertised = rank / min_hop_rank_increase in
    let own = (advertised + 1) % 65536 in
    not (limit == 0)
    && (leb limit advertised || (if is_sought then ltb limit own else leb limit own))

abbrev hop_rank : DiscoveryState → DioHeader → ℕ
hop_rank state dio =
    if dio.has_dag_conf then dio.dag_conf.min_hop_rank_increase else state.min_hop_rank_increase

abbrev has_newer : ℕ → ℕ → Option HopByHopRoute → Bool
has_newer now seq_no none = false
has_newer now seq_no (some route) = is_live now route && sequence_newer route.seq_no seq_no

abbrev is_joined : Option DodagMembership → Bool
is_joined none = false
is_joined (some dodag) = true

module _ (now : ℕ) (interfaces : List (List InterfaceAddress)) where
  -- Too soon after leaving it, or this node's own.
  unfoldable pub should_refuse_aodv_instance : DioHeader → Memberships → Bool
  should_refuse_aodv_instance dio m =
      before now (m.rejoin_blocked dio.instance_id dio.dodag_id)
      || is_own_address interfaces dio.dodag_id

  unfoldable pub should_refuse_aodv_rreq : DiscoveryState → DioHeader → Memberships → Bool
  should_refuse_aodv_rreq state dio m =
      no_art dio.arts
      || (should_refuse_aodv_instance dio m
          || ((if dio.rreq.hop_by_hop
                then has_newer now dio.rreq.orig_seq_no (find dio.dodag_id state.hop_by_hop_routes)
                else any_own interfaces dio.rreq.address_vector)
              || past_limit dio.rank (hop_rank state dio) (any_art interfaces dio.arts)
                  dio.rreq.rank_limit))

  unfoldable pub should_refuse_aodv_rrep : DiscoveryState → DioHeader → Memberships → Bool
  should_refuse_aodv_rrep state dio m =
      should_refuse_aodv_instance dio m
      || (no_art dio.arts
          || (any_own interfaces dio.rrep.address_vector
              || past_limit dio.rank (hop_rank state dio) (first_art interfaces dio.arts)
                  dio.rrep.rank_limit))

  unfoldable pub matches_p2p_target : DioHeader → Bool
  matches_p2p_target dio =
      is_own_address interfaces dio.p2p_rdo.target || any_target interfaces dio.targets

  -- What RFC 6997 asks of the Base object and of the DODAG Configuration.
  abbrev breaks_p2p_rules : DioHeader → Bool
  breaks_p2p_rules dio =
      not (dio.version_number == 0)
      || (not dio.grounded
          || (not (dio.preference == 0)
              || (bit_and dio.instance_id 0x80 == 0
                  || (dio.has_dag_conf && not (bit_and dio.dag_conf.flags 0x08 == 0)))))

  abbrev is_over : DiscoveryState → DioHeader → Memberships → Bool
  is_over state dio m =
      if is_joined (find_dodag dio.instance_id dio.dodag_id m.dodags)
      then state.stopped dio.instance_id dio.dodag_id
      else before now (state.stop_memory dio.instance_id dio.dodag_id)

  unfoldable pub should_refuse_p2p_rdo : DiscoveryState → DioHeader → Memberships → Bool
  should_refuse_p2p_rdo state dio m =
      breaks_p2p_rules dio
      || (is_over state dio m
          || (is_own_address interfaces dio.dodag_id
              || ((dio.has_dag_conf && not (dio.dag_conf.max_rank_increase == 0))
                  || (any_own interfaces dio.p2p_rdo.address_vector
                      || past_limit dio.rank (hop_rank state dio) (matches_p2p_target dio)
                          dio.p2p_rdo.max_rank_or_nh))))
