-- ===== src/Routing/HandleDao/Telling.antt =====
-- What a Storing router holds after the reports of a DAO, against what it relays of them.
use rpl.Base.{
  ℕ, ◌≡◌, inl, inr, sym, ◌∙◌, ap, true, false, none, List, [], ◌∷◌, arith, Bool-cases, ◌==◌, ==_iff,
}
use mathlib.Core.Path.{subst}
use rpl.Header.Dao.{AdditionalTarget}
use rpl.Routing.Downward.{
  Arrival, Handling, is_storing, is_refused, store_downward, handle_storing, handle_one_target,
}
use rpl.Routing.HandleDao.{handle_additional}
use rpl.Routing.HandleDao.Relay.{last_report}
use rpl.Routing.HandleDao.Reports.{
  sequence_of, known, at_most_once, order_of, settled, listens, store_known, store_quiet, last_own,
  one-Keeps, rest-Keeps,
}

-- At a Storing router: what it holds of a target that it does not refuse, after a report of it.
pub heard_one :
    (a : Arrival) (e : AdditionalTarget) (t : ℕ) (h : Handling)
    → e.target ≡ t
    → is_storing h.dodag ≡ true
    → is_refused a h.dodag t ≡ false
    → known t (handle_one_target a e.target e.path_sequence e.path_lifetime h).dodag.downward_routes
      ≡ settled
          (order_of e.path_sequence (known t h.dodag.downward_routes))
          e.path_sequence
          e.path_lifetime
          (known t h.dodag.downward_routes)
unfolding handle_one_target handle_storing
heard_one a e t h same storing taken =
    subst
      (λ k.
        known t (handle_one_target a k e.path_sequence e.path_lifetime h).dodag.downward_routes
        ≡ settled (order_of e.path_sequence (known t h.dodag.downward_routes)) e.path_sequence
            e.path_lifetime (known t h.dodag.downward_routes))
      (sym same)
      (rw (taken, storing)
        (store_known a t e.path_sequence e.path_lifetime h.dodag.downward_routes))

-- At one that is not the root: what it relays of the target says what it came to hold.
pub told_one :
    (a : Arrival) (t s l : ℕ) (h : Handling)
    → is_storing h.dodag ≡ true
    → h.dodag.is_root ≡ false
    → last_report t h.to_propagate ≡ none
    → known t (handle_one_target a t s l h).dodag.downward_routes
      ≡ listens
          (last_report t (handle_one_target a t s l h).to_propagate)
          (known t h.dodag.downward_routes)
unfolding handle_one_target handle_storing
told_one a t s l h storing router silent = elim (Bool-cases (is_refused a h.dodag t)) [
  | inl e ↦ rw e (sym (ap (λ o. listens o (known t h.dodag.downward_routes)) silent))
  | inr e ↦
      rw (e, storing, router)
        (elim (Bool-cases (store_downward a t s l h.dodag.downward_routes).1) [
          | inl told ↦ rw told (
              subst
                (λ o.
                  known t (store_downward a t s l h.dodag.downward_routes).0
                  ≡ listens o (known t h.dodag.downward_routes))
                (sym (last_own t s l h.to_propagate)) (store_known a t s l h.dodag.downward_routes))
          | inr quiet ↦ rw quiet (
              store_quiet a t s l h.dodag.downward_routes quiet
              ∙ sym (ap (λ o. listens o (known t h.dodag.downward_routes)) silent))
        ])
]

-- The reports of a DAO that names the target at most once.
pub told_all :
    (a : Arrival) (rs : List AdditionalTarget) (t : ℕ) (h : Handling)
    → at_most_once t rs ≡ true
    → is_storing h.dodag ≡ true
    → h.dodag.is_root ≡ false
    → last_report t h.to_propagate ≡ none
    → known t (handle_additional a rs h).dodag.downward_routes
      ≡ listens
          (last_report t (handle_additional a rs h).to_propagate)
          (known t h.dodag.downward_routes)
unfolding handle_additional
told_all a [] t h once storing router silent =
    sym (ap (λ o. listens o (known t h.dodag.downward_routes)) silent)
told_all a (r ∷ rs) t h once storing router silent =
    let next : Handling = handle_one_target a r.target r.path_sequence r.path_lifetime h in
    elim (Bool-cases (r.target == t)) [
      | inl e ↦
          let rest = rest-Keeps a rs t next (ground (arith, e, once)) in
          ap sequence_of rest.3
          ∙ (subst
                (λ k.
                  known t
                    (handle_one_target a k r.path_sequence r.path_lifetime h).dodag.downward_routes
                  ≡ listens
                      (last_report t
                        (handle_one_target a k r.path_sequence r.path_lifetime h).to_propagate)
                      (known t h.dodag.downward_routes))
                (sym ((==_iff r.target t).0 e))
                (told_one a t r.path_sequence r.path_lifetime h storing router silent)
              ∙ sym (ap (λ o. listens o (known t h.dodag.downward_routes)) rest.4))
      | inr e ↦
          let one = one-Keeps a r.target r.path_sequence r.path_lifetime t h e in
          told_all a rs t next (ground (arith, e, once)) (one.0 ∙ storing) (one.1 ∙ router)
            (one.4 ∙ silent)
          ∙ ap
              (λ o.
                listens (last_report t (handle_additional a rs next).to_propagate) (sequence_of o))
              one.3
    ]
