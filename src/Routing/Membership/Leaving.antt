-- ===== src/Routing/Membership/Leaving.antt =====
-- LeaveDodag of model/rpl-routing-protocol.cc, and what SelectPreferredParent does when the last
-- parent is lost.
use rpl.Base.{
  ℕ, ◌+◌, ◌*◌, ◌^◌, min, Bool, true, false, not, ◌&&◌, ◌||◌, Option, none, some, List, [], ◌∷◌,
  ◌++◌, map, drop, length, ltb, leb, ◌==◌, if◌then◌else◌,
}
use rpl.Ipv6.{Ipv6, is_any}
use rpl.Routing.{DodagMembership, infinite_rank, find_dodag, update_dodag, mop_p2p_route_discovery}
use rpl.Routing.HandleDao.{Node}
use rpl.Routing.NoPath.{Sent}
use rpl.Routing.Parents.{max_path_cost}
use rpl.Routing.Parents.Selection.{Verdict, unchanged, lost, adopted, select_preferred_parent}
use rpl.Routing.Membership.{
  RetainedRank, set_key, Memberships, dao_sent, dio_sent, Step, retained_versions,
  all_nodes_multicast, erase_dodag, promote,
}

-- What the last DIO of a membership advertises.
unfoldable pub poisoned : DodagMembership → DodagMembership
poisoned dodag = record dodag { rank = infinite_rank; path_etx = max_path_cost }

-- The records that still bind, those of the version being left excepted.
unfoldable pub keep_others : ℕ → ℕ → List RetainedRank → List RetainedRank
keep_others now version [] = []
keep_others now version (r ∷ rs) =
    let rest = keep_others now version rs in
    if leb r.expires now || r.version == version then rest else r ∷ rest

abbrev pub cap_records : List RetainedRank → List RetainedRank
cap_records records = if ltb retained_versions (length records) then drop 1 records else records

-- A record lasts two maximum DIO intervals.
abbrev pub record_of : ℕ → DodagMembership → RetainedRank
record_of now dodag = record {
  version = dodag.version;
  lowest_rank = dodag.lowest_rank_this_version;
  expires = now + 2 * (dodag.dio_interval_min * 2 ^ min dodag.dio_interval_doublings 30);
}

unfoldable pub remember : ℕ → DodagMembership → List RetainedRank → List RetainedRank
remember now dodag records =
    cap_records (keep_others now dodag.version records ++ (record_of now dodag ∷ []))

-- The membership is erased, and what has to outlive it is kept.
unfoldable pub retire : ℕ → ℕ → DodagMembership → Memberships → Memberships
retire now reenable dodag m =
    let kept = not (dodag.mop == mop_p2p_route_discovery) in
    record m {
      dodags = erase_dodag dodag.instance_id dodag.dodag_id m.dodags;
      rejoin_blocked =
          if is_any dodag.aodv_target
          then m.rejoin_blocked
          else set_key dodag.instance_id dodag.dodag_id (some (now + reenable)) m.rejoin_blocked;
      retained_path_sequence =
          if kept
          then set_key dodag.instance_id dodag.dodag_id (some dodag.path_sequence)
              m.retained_path_sequence
          else m.retained_path_sequence;
      retained_rank =
          if kept
          then set_key dodag.instance_id dodag.dodag_id
              (remember now dodag (m.retained_rank dodag.instance_id dodag.dodag_id))
              m.retained_rank
          else m.retained_rank;
    }

abbrev pub is_base : DodagMembership → Option (ℕ × ℕ) → Bool
is_base dodag none = false
is_base dodag (some (instance_id, dodag_id)) =
    dodag.instance_id == instance_id && dodag.dodag_id == dodag_id

-- The base is left with its membership, unless the node is to rejoin at once.
unfoldable pub leave_held : ℕ → ℕ → Bool → DodagMembership → Memberships → Step
leave_held now reenable poison dodag m =
    let retired = retire now reenable dodag m in
    (
      if poison && is_base dodag m.base
          then record retired { base = promote retired.dodags }
          else retired,
      if poison then dio_sent (poisoned dodag) all_nodes_multicast 0 ∷ [] else [],
    )

abbrev pub leave_found : ℕ → ℕ → Bool → Option DodagMembership → Memberships → Step
leave_found now reenable poison none m = (m, [])
leave_found now reenable poison (some dodag) m = leave_held now reenable poison dodag m

-- The source asserts that the membership exists.
unfoldable pub leave_dodag : ℕ → ℕ → Bool → ℕ → ℕ → Memberships → Step
leave_dodag now reenable poison instance_id dodag_id m =
    leave_found now reenable poison (find_dodag instance_id dodag_id m.dodags) m

-- The DIS that a node sends when it lost its last parent, unless one is pending.
unfoldable pub solicit : ℕ → Memberships → Memberships
solicit jitter m =
    if m.dis_refresh_pending
    then m
    else record m { dis_refresh_pending = true; dis_event = some jitter }

abbrev pub hold : DodagMembership → Memberships → Memberships
hold dodag m = record m { dodags = update_dodag dodag m.dodags }

module _ (net : Ipv6) (node : Node) (reenable : ℕ) where
  -- What became of the memberships, by how the selection ended.
  unfoldable pub act_on : ℕ → Sent × Verdict → Memberships → Step × Bool
  act_on jitter ((after, messages), unchanged) m = ((hold after m, map dao_sent messages), false)
  act_on jitter ((after, messages), lost) m =
      let (left, actions) = leave_held node.now reenable true after (hold after m) in
      ((solicit jitter left, map dao_sent messages ++ actions), true)
  act_on jitter ((after, messages), adopted) m = ((hold after m, map dao_sent messages), true)

  -- SelectPreferredParent, for a membership as it stands before it is written back. One jitter is
  -- drawn at most.
  unfoldable pub settle : ℕ → DodagMembership → Memberships → Step × Bool
  settle jitter dodag m = act_on jitter (select_preferred_parent net node jitter dodag) m
