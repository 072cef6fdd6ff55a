-- ===== src/Routing/Parents/Selection.antt =====
-- SelectPreferredParent of model/rpl-routing-protocol.cc, from the sweep over silent neighbours to
-- the adoption of the parent chosen.
pub mod Views
pub mod Ceiling
pub mod Settling
use rpl.Base.{
  ℕ, ◌+◌, ◌%◌, min, Bool, true, false, not, ◌&&◌, ◌||◌, Option, none, some, List, [], ◌∷◌, ◌++◌,
  ltb, ◌==◌, if◌then◌else◌,
}
use rpl.Base.Map.{find}
use rpl.Ipv6.{Ipv6, is_any}
use rpl.Sequence.{sequence_increment}
use rpl.Routing.{Parent, DodagMembership, infinite_rank, mop_p2p_route_discovery}
use rpl.Routing.HandleDao.{Message, Node}
use rpl.Routing.NoPath.{Sent, send_no_path_dao}
use rpl.Routing.Parents.{Choice, is_mrhof, sweep, choose_parent}

-- What the call ends with: false, or true with the last parent lost, or true with a parent adopted.
-- A lost membership is left with poison, and a DIS is scheduled.
pub data Verdict : Type 0 where
  unchanged lost adopted : Verdict

abbrev pub exceeds_ceiling : DodagMembership → ℕ → Bool
exceeds_ceiling dodag rank = ltb (dodag.lowest_rank_this_version + dodag.max_rank_increase) rank

abbrev pub advertised_best : DodagMembership → Choice → ℕ
advertised_best dodag choice =
    if not (is_any choice.best) && exceeds_ceiling dodag choice.best_rank
    then infinite_rank
    else choice.best_rank

abbrev pub is_changed : DodagMembership → Choice → Bool
is_changed dodag choice =
    not (choice.best == dodag.preferred_parent)
    || (not (advertised_best dodag choice == dodag.rank)
        || (is_mrhof dodag
            && (not (is_any choice.best) && not (choice.best_path_cost % 65536 == dodag.path_etx))))

abbrev is_held : Option Parent → Bool
is_held none = false
is_held (some parent) = true

unfoldable pub take_parent : Choice → DodagMembership → DodagMembership
take_parent choice dodag = record dodag {
  preferred_parent = choice.best;
  rank = choice.best_rank;
  path_etx = if is_mrhof dodag then choice.best_path_cost % 65536 else dodag.path_etx;
}

-- The rank ceiling of a DODAG version.
unfoldable pub limit_rank : DodagMembership → DodagMembership
limit_rank dodag =
    if exceeds_ceiling dodag dodag.rank
    then record dodag { rank = infinite_rank }
    else record dodag { lowest_rank_this_version = min dodag.lowest_rank_this_version dodag.rank }

unfoldable pub schedule_refresh : ℕ → DodagMembership → DodagMembership
schedule_refresh jitter dodag =
    if dodag.dao_refresh_pending
    then dodag
    else record dodag { dao_refresh_pending = true; dao_event = some jitter }

module _ (net : Ipv6) (node : Node) where
  -- A No-Path through a parent that is still known.
  unfoldable pub withdraw_through : ℕ → DodagMembership → Sent
  withdraw_through parent dodag =
      if not (is_any parent) && is_held (find parent dodag.parents)
      then send_no_path_dao net node dodag parent
      else (dodag, [])

  unfoldable pub announce_switch : ℕ → ℕ → DodagMembership → Sent
  announce_switch jitter old_parent dodag =
      let (withdrawn, messages) = withdraw_through old_parent dodag in
      (
        schedule_refresh jitter
            (record withdrawn { path_sequence = sequence_increment withdrawn.path_sequence }),
        messages,
      )

  unfoldable pub adopt : ℕ → Choice → DodagMembership → Sent
  adopt jitter choice dodag =
      let placed = limit_rank (take_parent choice dodag) in
      if not (choice.best == dodag.preferred_parent) && not (dodag.mop == mop_p2p_route_discovery)
      then announce_switch jitter dodag.preferred_parent placed
      else (placed, [])

  -- What follows the choice.
  unfoldable pub conclude : ℕ → Choice → DodagMembership → Sent × Verdict
  conclude jitter choice dodag =
      if not (is_changed dodag choice)
      then ((dodag, []), unchanged)
      else if is_any choice.best
      then (withdraw_through dodag.preferred_parent dodag, lost)
      else (adopt jitter choice dodag, adopted)

  unfoldable pub select_preferred_parent : ℕ → DodagMembership → Sent × Verdict
  select_preferred_parent jitter dodag =
      let (swept, withdrawals) = sweep net node dodag.parents dodag in
      let ((after, messages), verdict) = conclude jitter (choose_parent swept) swept in
      if dodag.is_root
      then ((dodag, []), unchanged)
      else ((after, withdrawals ++ messages), verdict)
