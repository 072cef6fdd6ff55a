-- ===== src/Routing/HandleDao/Refusal.antt =====
-- What a DAO cannot do to the two tables, in either mode.
use rpl.Base.{
  ℕ, ◌≡◌, ◌≢◌, inl, inr, refl, ◌∙◌, true, false, Option, none, some, List, [], ◌∷◌, arith,
  Bool-cases,
}
use mathlib.Core.Path.{subst}
use rpl.Base.Map.{Map, find}
use rpl.Base.Map.Laws.{find-insert, find-erase}
use rpl.Ipv6.{is_any}
use rpl.Header.Dao.{AdditionalTarget, DaoHeader}
use rpl.Routing.{TopologyEntry, DodagMembership}
use rpl.Routing.Downward.{
  Arrival, Handling, is_storing, is_refused, new_entry, drop_expired, store_fresh, store_topology,
  handle_storing, handle_non_storing, handle_one_target,
}
use rpl.Routing.Downward.Table.{store_downward_others}
use rpl.Routing.HandleDao.{handle_additional, handle_targets}

drop_expired_others :
    (now target other : ℕ) (o : Option TopologyEntry) (m : Map TopologyEntry)
    → target ≢ other
    → find other (drop_expired now target o m) ≡ find other m
drop_expired_others now target other none m ne = refl
drop_expired_others now target other (some e) m ne = ground (arith, find-erase target other m)

store_fresh_others :
    (a : Arrival) (target s l other : ℕ) (m : Map TopologyEntry)
    → target ≢ other
    → find other (store_fresh a target s l m) ≡ find other m
unfolding store_fresh
store_fresh_others a target s l other m ne =
    ground (arith, find-erase target other m, find-insert target other (new_entry a s l) m)

store_topology_others :
    (a : Arrival) (target s l other : ℕ) (m : Map TopologyEntry)
    → target ≢ other
    → find other (store_topology a target s l m) ≡ find other m
unfolding store_topology
store_topology_others a target s l other m ne =
    store_fresh_others a target s l other (drop_expired a.now target (find target m) m) ne
    ∙ drop_expired_others a.now target other (find target m) m ne

-- The targets that are refused have the entries they had.
abbrev pub IsUntouched : Arrival → DodagMembership → DodagMembership → Type 0
IsUntouched a before after =
    (after.dodag_id ≡ before.dodag_id)
    × ((t : ℕ)
        → is_refused a before t ≡ true
        → (find t after.downward_routes ≡ find t before.downward_routes)
          × (find t after.topology ≡ find t before.topology))

refused_differs :
    (a : Arrival) (d : DodagMembership) (target t : ℕ)
    → is_refused a d target ≡ false
    → is_refused a d t ≡ true
    → target ≢ t
refused_differs a d target t taken refused e =
    ground (arith, subst (λ k. is_refused a d k ≡ false) e taken, refused)

handle_one_target-IsUntouched :
    (a : Arrival) (before : DodagMembership) (target s l : ℕ) (h : Handling)
    → IsUntouched a before h.dodag
    → IsUntouched a before (handle_one_target a target s l h).dodag
unfolding handle_one_target handle_storing handle_non_storing
handle_one_target-IsUntouched a before target s l h (same, kept) =
    elim (Bool-cases (is_refused a h.dodag target)) [
      | inl e ↦ rw e (same, kept)
      | inr e ↦ elim (Bool-cases (is_storing h.dodag)) [
        | inl m ↦
            rw (e, m)
              (
                same,
                λ t refused.
                    let ne = refused_differs a before target t (ground (arith, same, e)) refused in
                    (
                      store_downward_others a target s l t h.dodag.downward_routes ne
                          ∙ (kept t refused).0,
                      (kept t refused).1,
                    ),
              )
        | inr m ↦
            rw (e, m)
              (
                same,
                λ t refused.
                    let ne = refused_differs a before target t (ground (arith, same, e)) refused in
                    (
                      (kept t refused).0,
                      store_topology_others a target s l t h.dodag.topology ne ∙ (kept t refused).1,
                    ),
              )
      ]
    ]

handle_additional-IsUntouched :
    (a : Arrival) (before : DodagMembership) (ts : List AdditionalTarget) (h : Handling)
    → IsUntouched a before h.dodag
    → IsUntouched a before (handle_additional a ts h).dodag
unfolding handle_additional
handle_additional-IsUntouched a before [] h i = i
handle_additional-IsUntouched a before (t ∷ ts) h i =
    handle_additional-IsUntouched a before ts _
      (handle_one_target-IsUntouched a before t.target t.path_sequence t.path_lifetime h i)

-- Whatever targets a DAO carries, in either mode, the downward routes and the topology answer as
-- before for the unspecified address, for the root of the DODAG and for this node's own address.
pub handle_targets_untouched :
    (a : Arrival) (header : DaoHeader) (dodag : DodagMembership) (t : ℕ)
    → is_refused a dodag t ≡ true
    → let after = (handle_targets a header dodag).dodag in
      (find t after.downward_routes ≡ find t dodag.downward_routes)
      × (find t after.topology ≡ find t dodag.topology)
unfolding handle_targets
handle_targets_untouched a header dodag t refused =
    let start : Handling = record { dodag = dodag; to_propagate = [] } in
    let at_start : IsUntouched a dodag dodag = (refl, λ k h. (refl, refl)) in
    let first =
      handle_one_target-IsUntouched a dodag header.target header.path_sequence header.path_lifetime
        start at_start in
    elim (Bool-cases (is_any header.target)) [
      | inl e ↦ rw e (
          (handle_additional-IsUntouched a dodag header.additional_targets start at_start).1 t
            refused)
      | inr e ↦
          rw e
            ((handle_additional-IsUntouched a dodag header.additional_targets _ first).1 t refused)
    ]
