-- ===== src/Routing/Parents.antt =====
-- SelectPreferredParent, RankViaParent, PathCostViaParent and UpdateLinkEtx of
-- model/rpl-routing-protocol.cc, with the objective functions OF0 and MRHOF.
pub mod Best
pub mod Choosing
pub mod Selection
use rpl.Base.{
  ℕ, zero, suc, ◌+◌, ◌-◌, ◌*◌, ◌/◌, ◌%◌, ◌^◌, min, max, Bool, true, false, not, ◌&&◌, ◌||◌, Option,
  none, some, List, [], ◌∷◌, ◌++◌, ltb, leb, ◌==◌, if◌then◌else◌,
}
use rpl.Base.Map.{Map, find, erase}
use rpl.Ipv6.{Ipv6, any, is_any}
use rpl.Sequence.{sequence_increment}
use rpl.Routing.{Parent, DodagMembership, infinite_rank, ocp_mrhof, mop_p2p_route_discovery}
use rpl.Routing.HandleDao.{Message, Node}
use rpl.Routing.NoPath.{Sent, send_no_path_dao}

abbrev pub freshness_target : ℕ
freshness_target = 4

abbrev pub max_link_metric : ℕ
max_link_metric = 512

abbrev pub max_path_cost : ℕ
max_path_cost = 32768

abbrev pub parent_switch_threshold : ℕ
parent_switch_threshold = 192

-- std::numeric_limits<uint32_t>::max()
abbrev pub no_path_cost : ℕ
no_path_cost = 2 ^ 32 - 1

abbrev pub is_mrhof : DodagMembership → Bool
is_mrhof dodag = dodag.ocp == ocp_mrhof

unfoldable pub path_cost_via_parent : Parent → ℕ
path_cost_via_parent parent = parent.path_etx + parent.etx

-- From a uint32_t to a rank.
abbrev pub clamp_rank : ℕ → ℕ
clamp_rank rank = if leb infinite_rank rank then infinite_rank else rank

unfoldable pub rank_via_parent : DodagMembership → Parent → ℕ
rank_via_parent dodag parent =
    if parent.rank == infinite_rank
    then infinite_rank
    else if is_mrhof dodag
    then clamp_rank (max (parent.rank + dodag.min_hop_rank_increase) (path_cost_via_parent parent))
    else clamp_rank (parent.rank + dodag.min_hop_rank_increase)

-- The first sample is taken as it is; later ones weigh one eighth.
unfoldable pub update_link_etx : Parent → ℕ → Parent
update_link_etx parent sample = record parent {
  etx =
      if leb parent.freshness 1 then sample else (parent.etx - parent.etx / 8 + sample / 8) % 65536;
}

-- Two maximum DIO intervals without a DIO. The source subtracts from the clock, in integers with a
-- sign; here both sides of the comparison are moved up by the same time.
abbrev pub is_silent : ℕ → DodagMembership → Parent → Bool
is_silent now dodag parent =
    not (dodag.mop == mop_p2p_route_discovery)
    && ltb (parent.last_heard + 2 * (dodag.dio_interval_min * 2 ^ dodag.dio_interval_doublings)) now

abbrev forget : ℕ → DodagMembership → DodagMembership
forget address dodag = record dodag { parents = erase address dodag.parents }

-- The sweep over the neighbours that stand in the list.
unfoldable pub sweep : Ipv6 → Node → List (ℕ × Parent) → DodagMembership → Sent
sweep net node [] dodag = (dodag, [])
sweep net node ((address, parent) ∷ rest) dodag =
    let (withdrawn, messages) : Sent =
      if address == dodag.preferred_parent
      then send_no_path_dao net node dodag address
      else (dodag, []) in
    let dropped = sweep net node rest (forget address withdrawn) in
    let kept = sweep net node rest dodag in
    if is_silent node.now dodag parent then (dropped.0, messages ++ dropped.1) else kept

unfoldable pub any_fresh : Map Parent → Bool
any_fresh [] = false
any_fresh ((address, parent) ∷ parents) = leb freshness_target parent.freshness || any_fresh parents

abbrev is_established : Option Parent → Bool
is_established none = false
is_established (some parent) = leb freshness_target parent.freshness

-- The rank that a candidate has to be below.
unfoldable pub current_rank : DodagMembership → ℕ
current_rank dodag =
    if any_fresh dodag.parents && not (is_established (find dodag.preferred_parent dodag.parents))
    then clamp_rank (dodag.rank + dodag.min_hop_rank_increase)
    else dodag.rank

pub record Choice : Type 0 where
  pub best : ℕ
  pub best_rank : ℕ
  pub best_path_cost : ℕ

abbrev pub no_choice : Choice
no_choice = record { best = any; best_rank = infinite_rank; best_path_cost = no_path_cost }

-- The filters that every candidate has to pass.
abbrev pub is_eligible : DodagMembership → ℕ → Bool → Parent → Bool
is_eligible dodag bound require_fresh parent =
    (not require_fresh || leb freshness_target parent.freshness)
    && ((bound == infinite_rank || ltb parent.rank bound)
        && ((not (is_mrhof dodag) || leb parent.etx max_link_metric)
            && (not (rank_via_parent dodag parent == infinite_rank)
                && (not (is_mrhof dodag) || ltb (path_cost_via_parent parent) max_path_cost))))

-- Ties are broken on the address.
abbrev pub is_better : DodagMembership → Choice → ℕ → Parent → Bool
is_better dodag choice address parent =
    let rank = rank_via_parent dodag parent in
    let cost = path_cost_via_parent parent in
    if is_mrhof dodag
    then is_any choice.best
      || (ltb cost choice.best_path_cost
          || (cost == choice.best_path_cost && ltb address choice.best))
    else is_any choice.best
      || (ltb rank choice.best_rank || (rank == choice.best_rank && ltb address choice.best))

abbrev pub choose : DodagMembership → Choice → ℕ → Parent → Choice
choose dodag choice address parent = record {
  best = address;
  best_rank = rank_via_parent dodag parent;
  best_path_cost = if is_mrhof dodag then path_cost_via_parent parent else choice.best_path_cost;
}

-- One round of the loop over the candidates.
unfoldable pub consider : DodagMembership → ℕ → Bool → ℕ → Parent → Choice → Choice
consider dodag bound require_fresh address parent choice =
    if is_eligible dodag bound require_fresh parent && is_better dodag choice address parent
    then choose dodag choice address parent
    else choice

unfoldable pub pass : DodagMembership → ℕ → Bool → Map Parent → Choice → Choice
pass dodag bound require_fresh [] choice = choice
pass dodag bound require_fresh ((address, parent) ∷ parents) choice =
    pass dodag bound require_fresh parents
      (consider dodag bound require_fresh address parent choice)

-- The second pass, without the demand for freshness, runs only if the first found nothing. The flag
-- is what the last pass demanded.
unfoldable pub two_passes : DodagMembership → ℕ → Choice × Bool
two_passes dodag bound =
    let have_fresh = any_fresh dodag.parents in
    let first = pass dodag bound have_fresh dodag.parents no_choice in
    if is_any first.best
    then (pass dodag bound false dodag.parents first, false)
    else (first, have_fresh)

-- MRHOF keeps the current parent unless the winner undercuts it by the threshold.
unfoldable pub keep_current : DodagMembership → ℕ → Bool → Option Parent → Choice → Choice
keep_current dodag bound require_fresh none choice = choice
keep_current dodag bound require_fresh (some current) choice =
    if is_eligible dodag bound require_fresh current
      && ltb (path_cost_via_parent current) (choice.best_path_cost + parent_switch_threshold)
    then choose dodag choice dodag.preferred_parent current
    else choice

unfoldable pub hysteresis : DodagMembership → ℕ → Choice × Bool → Choice
hysteresis dodag bound (choice, require_fresh) =
    if is_mrhof dodag && not (is_any choice.best)
    then keep_current dodag bound require_fresh (find dodag.preferred_parent dodag.parents) choice
    else choice

unfoldable pub choose_parent : DodagMembership → Choice
choose_parent dodag =
    let bound = current_rank dodag in hysteresis dodag bound (two_passes dodag bound)
