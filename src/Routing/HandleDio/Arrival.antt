-- ===== src/Routing/HandleDio/Arrival.antt =====
-- The course of HandleDio of model/rpl-routing-protocol.cc once a DIO is not discarded.
use rpl.Base.{
  ℕ, Bool, true, false, not, ◌&&◌, ◌||◌, Option, none, some, [], ◌++◌, map, ltb, leb, ◌==◌,
  if◌then◌else◌,
}
use rpl.Base.Map.{erase}
use rpl.Ipv6.{Ipv6}
use rpl.Sequence.{sequence_newer}
use rpl.Trickle.{reset, consistency_hit}
use rpl.Header.Dio.{DioHeader}
use rpl.Routing.{DodagMembership, infinite_rank, find_dodag, mop_p2p_route_discovery}
use rpl.Routing.NoPath.{Sent, send_no_path_dao}
use rpl.Routing.Membership.{Memberships, dao_sent, Step, join_dodag}
use rpl.Routing.Membership.Leaving.{hold, leave_held, settle}
use rpl.Routing.Membership.Advertising.{reset_trickle}
use rpl.Routing.HandleDio.{
  Reception, Handlers, Receiver, and_then, is_discarded, is_refused, is_outdated, migrates, hear,
}

module _ (net : Ipv6) (draw : ℕ → ℕ → ℕ) (receiver : Receiver) (dio : DioHeader)
    (reception : Reception) where
  abbrev pub select : DodagMembership → Memberships → Step × Bool
  select dodag m = settle net receiver.node receiver.reenable receiver.jitter dodag m

  abbrev pub own : Memberships → Option DodagMembership
  own m = find_dodag dio.instance_id dio.dodag_id m.dodags

  abbrev pub reset_if : Step × Bool → Step
  reset_if ((m, actions), changed) =
      (if changed then reset_trickle draw dio.instance_id dio.dodag_id m else m, actions)

  -- An infinite rank: the sender is no neighbour of this DODAG any more.
  abbrev pub drop_found : Option DodagMembership → Memberships → Step
  drop_found none m = (m, [])
  drop_found (some dodag) m =
      let (withdrawn, messages) : Sent =
        if reception.from == dodag.preferred_parent
        then send_no_path_dao net receiver.node dodag reception.from
        else (dodag, []) in
      let (after, actions) =
        reset_if
          (select (record withdrawn { parents = erase reception.from withdrawn.parents }) m) in
      (after, map dao_sent messages ++ actions)

  unfoldable pub drop_sender : Memberships → Step
  drop_sender m = drop_found (own m) m

  -- Without poison, since the node rejoins at once.
  unfoldable pub migrate : DodagMembership → Memberships → Step
  migrate dodag m =
      and_then (leave_held receiver.node.now receiver.reenable false dodag m)
        (join_dodag draw receiver.node.now dio reception.interface)

  abbrev pub adopt_version : DodagMembership → Memberships → Memberships
  adopt_version dodag m =
      if sequence_newer dio.version_number dodag.version
      then hold (record dodag { version = dio.version_number }) m
      else m

  abbrev pub enter_found : Option DodagMembership → Memberships → Option Step
  enter_found none m =
      if is_outdated receiver.node.now dio.version_number
        (m.retained_rank dio.instance_id dio.dodag_id)
      then none
      else some (join_dodag draw receiver.node.now dio reception.interface m)
  enter_found (some dodag) m =
      if dio.version_number == dodag.version
      then some (m, [])
      else if dodag.mop == mop_p2p_route_discovery
      then some (adopt_version dodag m, [])
      else if migrates dio dodag
      then some (migrate dodag m)
      else none

  -- The membership that the DIO is for, in the version that the DIO is of; none if it is ignored.
  unfoldable pub enter : Memberships → Option Step
  enter m = enter_found (own m) m

  -- RFC 6997's rules for Trickle, by the rank before and the membership after.
  abbrev pub pace_found : Bool → ℕ → Option DodagMembership → Memberships → Memberships
  pace_found is_from_parent previous_rank none m = m
  pace_found is_from_parent previous_rank (some after) m =
      if ltb after.rank previous_rank
      then hold (record after { dio_trickle = reset draw after.dio_trickle }) m
      else if is_from_parent
      then m
      else if leb dio.rank after.rank
      then hold (record after { dio_trickle = consistency_hit after.dio_trickle }) m
      else m

  unfoldable pub pace_discovery : DodagMembership → Memberships → Step
  pace_discovery dodag m =
      let ((after, actions), changed) = select dodag m in
      (pace_found (reception.from == dodag.preferred_parent) dodag.rank (own after) after, actions)

  -- RFC 6550's: the DIO that makes the node join is no consistent one.
  unfoldable pub pace_ordinary : DodagMembership → Memberships → Step
  pace_ordinary dodag m =
      let counted : DodagMembership =
        if dodag.rank == infinite_rank
        then dodag
        else record dodag { dio_trickle = consistency_hit dodag.dio_trickle } in
      reset_if (select counted m)

  abbrev pub take_found : Option DodagMembership → Memberships → Step
  take_found none m = (m, [])
  take_found (some dodag) m =
      let known = hear receiver dio reception dodag in
      if dio.has_p2p_rdo || (receiver.rank_only_reset && (dio.has_rreq || dio.has_rrep))
      then pace_discovery known m
      else pace_ordinary known m

  -- What the DIO says of its sender, the parent selection, and Trickle.
  unfoldable pub take : Memberships → Step
  take m = take_found (own m) m

  abbrev is_joined : Option DodagMembership → Bool
  is_joined none = false
  is_joined (some dodag) = true

  abbrev pub if_joined : Bool → (Memberships → Step) → Memberships → Step
  if_joined carried handler m = if carried && is_joined (own m) then handler m else (m, [])

  -- The route discovery that the DIO carries, if the membership is still there.
  unfoldable pub hand_over : Handlers → Memberships → Step
  hand_over handlers m =
      and_then
        (and_then (if_joined dio.has_rreq (handlers.handle_aodv_rreq dio reception) m)
          (if_joined dio.has_rrep (handlers.handle_aodv_rrep_instance dio reception)))
        (if_joined dio.has_p2p_rdo (handlers.handle_p2p_rdo dio reception))

  abbrev pub proceed : Handlers → Option Step → Memberships → Step
  proceed handlers none m = (m, [])
  proceed handlers (some entered) m = and_then (and_then entered take) (hand_over handlers)

  unfoldable pub handle_dio : Handlers → Memberships → Step
  handle_dio handlers m =
      if is_discarded receiver dio reception m
      then (m, [])
      else if dio.has_rrep && not reception.to_multicast
      then handlers.handle_aodv_rrep dio reception m
      else if is_refused receiver dio m
      then (m, [])
      else if dio.rank == infinite_rank
      then drop_sender m
      else proceed handlers (enter m) m
