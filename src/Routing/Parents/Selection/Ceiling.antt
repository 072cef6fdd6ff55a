-- ===== src/Routing/Parents/Selection/Ceiling.antt =====
-- The rank ceiling, and what a second call finds.
use rpl.Base.{ℕ, ◌+◌, ◌≤◌, ◌≡◌, ◌⊎◌, inl, inr, refl, sym, not, arith, Bool-cases, if_both}
use mathlib.Core.Path.{subst}
use rpl.Ipv6.{Ipv6, is_any}
use rpl.Routing.{DodagMembership, infinite_rank}
use rpl.Routing.HandleDao.{Node}
use rpl.Routing.NoPath.{Sent, advance_sequences}
use rpl.Routing.Parents.{Choice}
use rpl.Routing.Parents.Selection.Views.{announce_switch-view, withdraw_through-view, sweep-view}
use rpl.Routing.Parents.Selection.{
  Verdict, exceeds_ceiling, is_changed, take_parent, limit_rank, adopt, conclude,
  select_preferred_parent,
}

-- What of a membership only the adoption of a parent changes.
pub record Standing : Type 0 where
  pub preferred_parent : ℕ
  pub rank : ℕ
  pub lowest_rank_this_version : ℕ
  pub max_rank_increase : ℕ
  pub path_etx : ℕ
  pub ocp : ℕ

abbrev pub standing : DodagMembership → Standing
standing d = record {
  preferred_parent = d.preferred_parent;
  rank = d.rank;
  lowest_rank_this_version = d.lowest_rank_this_version;
  max_rank_increase = d.max_rank_increase;
  path_etx = d.path_etx;
  ocp = d.ocp;
}

advance_sequences-standing : (d : DodagMembership) → standing (advance_sequences d) ≡ standing d
unfolding advance_sequences
advance_sequences-standing d = refl

pub adopt-standing :
    (net : Ipv6) (node : Node) (jitter : ℕ) (choice : Choice) (d : DodagMembership)
    → standing (adopt net node jitter choice d).0 ≡ standing (limit_rank (take_parent choice d))
unfolding adopt
adopt-standing net node jitter choice d =
    if_both (λ (s : Sent). standing s.0 ≡ standing (limit_rank (take_parent choice d))) _
      (announce_switch-view standing advance_sequences-standing (λ j d. refl) (λ n d. refl)
        (λ ps d. refl) net node jitter d.preferred_parent _)
      refl

abbrev IsWithin : Standing → Type 0
IsWithin s = (s.rank ≡ infinite_rank) ⊎ (s.rank ≤ s.lowest_rank_this_version + s.max_rank_increase)

-- The rank of a membership is infinite, or within MaxRankIncrease of the lowest one of the version.
abbrev pub IsWithinCeiling : DodagMembership → Type 0
IsWithinCeiling d =
    (d.rank ≡ infinite_rank) ⊎ (d.rank ≤ d.lowest_rank_this_version + d.max_rank_increase)

limit_rank-IsWithinCeiling : (d : DodagMembership) → IsWithinCeiling (limit_rank d)
unfolding limit_rank
limit_rank-IsWithinCeiling d = elim (Bool-cases (exceeds_ceiling d d.rank)) [
  | inl e ↦ rw e (inl refl)
  | inr e ↦ rw e (inr (ground (arith, e)))
]

adopt-IsWithinCeiling :
    (net : Ipv6) (node : Node) (jitter : ℕ) (choice : Choice) (d : DodagMembership)
    → IsWithinCeiling (adopt net node jitter choice d).0
adopt-IsWithinCeiling net node jitter choice d =
    subst IsWithin (sym (adopt-standing net node jitter choice d))
      (limit_rank-IsWithinCeiling (take_parent choice d))

conclude-IsWithinCeiling :
    (net : Ipv6) (node : Node) (jitter : ℕ) (choice : Choice) (d : DodagMembership)
    → IsWithinCeiling d
    → IsWithinCeiling (conclude net node jitter choice d).0.0
unfolding conclude
conclude-IsWithinCeiling net node jitter choice d h =
    if_both (λ (s : Sent × Verdict). IsWithinCeiling s.0.0) (not (is_changed d choice)) h
      (if_both (λ (s : Sent × Verdict). IsWithinCeiling s.0.0) (is_any choice.best)
        (subst IsWithin
          (sym (
            withdraw_through-view standing advance_sequences-standing (λ j d. refl) (λ n d. refl)
              (λ ps d. refl) net node d.preferred_parent d))
          h)
        (adopt-IsWithinCeiling net node jitter choice d))

-- However the call ends, and whatever neighbours were silent, a membership whose rank was infinite or
-- within MaxRankIncrease of the lowest rank of the DODAG version has such a rank afterwards.
pub select_preferred_parent-IsWithinCeiling :
    (net : Ipv6) (node : Node) (jitter : ℕ) (d : DodagMembership)
    → IsWithinCeiling d
    → IsWithinCeiling (select_preferred_parent net node jitter d).0.0
unfolding select_preferred_parent
select_preferred_parent-IsWithinCeiling net node jitter d h =
    if_both (λ (s : Sent × Verdict). IsWithinCeiling s.0.0) d.is_root h
      (conclude-IsWithinCeiling net node jitter _ _ (
        subst IsWithin
          (sym (
            sweep-view standing advance_sequences-standing (λ j d. refl) (λ n d. refl)
              (λ ps d. refl) net node d.parents d))
          h))
