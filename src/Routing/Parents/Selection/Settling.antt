-- ===== src/Routing/Parents/Selection/Settling.antt =====
-- A second call with the same choice.
use rpl.Base.{
  ℕ, ◌+◌, ◌%◌, ◌≡◌, inl, inr, refl, sym, Bool, true, false, not, ◌&&◌, ◌||◌, [], arith, Bool-cases,
  ltb, ◌==◌, if◌then◌else◌,
}
use mathlib.Core.Path.{subst}
use rpl.Ipv6.{Ipv6, is_any}
use rpl.Routing.{DodagMembership, infinite_rank, ocp_mrhof}
use rpl.Routing.HandleDao.{Node}
use rpl.Routing.NoPath.{Sent}
use rpl.Routing.Parents.{Choice, is_mrhof}
use rpl.Routing.Parents.Selection.{
  Verdict, unchanged, adopted, exceeds_ceiling, is_changed, take_parent, limit_rank, adopt,
  conclude,
}
use rpl.Routing.Parents.Selection.Ceiling.{Standing, adopt-standing}

abbrev differs : Standing → Choice → Bool
differs s choice =
    not (choice.best == s.preferred_parent)
    || (not (
          (if not (is_any choice.best)
              && ltb (s.lowest_rank_this_version + s.max_rank_increase) choice.best_rank
            then infinite_rank
            else choice.best_rank)
          == s.rank)
        || (s.ocp == ocp_mrhof
            && (not (is_any choice.best) && not (choice.best_path_cost % 65536 == s.path_etx))))

limited :
    (choice : Choice) (d : DodagMembership)
    → is_any choice.best ≡ false
    → is_changed (limit_rank (take_parent choice d)) choice ≡ false
unfolding limit_rank take_parent
limited choice d h = elim (Bool-cases (exceeds_ceiling d choice.best_rank)) [
  | inl e ↦ elim (Bool-cases (is_mrhof d)) [
    | inl m ↦ rw (e, h, m) (ground (arith, e, h, m))
    | inr m ↦ rw (e, h, m) (ground (arith, e, h, m))
  ]
  | inr e ↦ elim (Bool-cases (is_mrhof d)) [
    | inl m ↦ rw (e, h, m) (ground (arith, e, h, m))
    | inr m ↦ rw (e, h, m) (ground (arith, e, h, m))
  ]
]

adopt_settles :
    (net : Ipv6) (node : Node) (jitter : ℕ) (choice : Choice) (d : DodagMembership)
    → is_any choice.best ≡ false
    → is_changed (adopt net node jitter choice d).0 choice ≡ false
adopt_settles net node jitter choice d h =
    subst (λ s. differs s choice ≡ false) (sym (adopt-standing net node jitter choice d))
      (limited choice d h)

conclude_quiet :
    (net : Ipv6) (node : Node) (jitter : ℕ) (choice : Choice) (d : DodagMembership)
    → is_changed d choice ≡ false
    → conclude net node jitter choice d ≡ ((d, []), unchanged)
unfolding conclude
conclude_quiet net node jitter choice d h = rw h refl

conclude_adopts :
    (net : Ipv6) (node : Node) (jitter : ℕ) (choice : Choice) (d : DodagMembership)
    → is_changed d choice ≡ true
    → is_any choice.best ≡ false
    → conclude net node jitter choice d ≡ (adopt net node jitter choice d, adopted)
unfolding conclude
conclude_adopts net node jitter choice d e h = rw (e, h) refl

-- Once a choice of a parent has been acted on, acting on the same choice again changes nothing,
-- sends nothing and reports no change, also where the rank ceiling made the rank infinite: a DIO
-- that leads to the same choice does not reset the Trickle timer again.
pub conclude_settles :
    (net : Ipv6) (node : Node) (jitter later : ℕ) (choice : Choice) (d : DodagMembership)
    → is_any choice.best ≡ false
    → let after = (conclude net node jitter choice d).0.0 in
      conclude net node later choice after ≡ ((after, []), unchanged)
conclude_settles net node jitter later choice d h =
    conclude_quiet net node later choice _ (elim (Bool-cases (is_changed d choice)) [
      | inl e ↦
          subst (λ (r : Sent × Verdict). is_changed r.0.0 choice ≡ false)
            (sym (conclude_adopts net node jitter choice d e h))
            (adopt_settles net node jitter choice d h)
      | inr e ↦
          subst (λ (r : Sent × Verdict). is_changed r.0.0 choice ≡ false)
            (sym (conclude_quiet net node jitter choice d e)) e
    ])
