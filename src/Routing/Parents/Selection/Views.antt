-- ===== src/Routing/Parents/Selection/Views.antt =====
-- What the selection of a parent leaves alone, for any view of the membership that leaves out the
-- neighbours, the Path and DAO Sequences and the wait for a refresh.
use rpl.Base.{ℕ, ◌≡◌, refl, ◌∙◌, not, [], ◌∷◌, true, some, ◌==◌, if_both}
use rpl.Base.Map.{Map}
use rpl.Ipv6.{Ipv6, is_any}
use rpl.Routing.{Parent, DodagMembership}
use rpl.Routing.HandleDao.{Node}
use rpl.Routing.NoPath.{Sent, send_no_path_dao, advance_sequences}
use rpl.Routing.Parents.{Choice, is_silent, sweep}
use rpl.Routing.Parents.Selection.{
  Verdict, is_changed, withdraw_through, take_parent, limit_rank, schedule_refresh, announce_switch,
  adopt, conclude, select_preferred_parent,
}

module _ {A : Type 0} (view : DodagMembership → A)
    (keeps_sequences : (d : DodagMembership) → view (advance_sequences d) ≡ view d)
    (keeps_refresh : (jitter : ℕ) (d : DodagMembership)
      → view (record d { dao_refresh_pending = true; dao_event = some jitter }) ≡ view d)
    (keeps_path_sequence : (n : ℕ) (d : DodagMembership)
      → view (record d { path_sequence = n }) ≡ view d)
    (keeps_parents : (ps : Map Parent) (d : DodagMembership)
      → view (record d { parents = ps }) ≡ view d) where
  pub send_no_path_dao-view :
      (net : Ipv6) (node : Node) (d : DodagMembership) (via : ℕ)
      → view (send_no_path_dao net node d via).0 ≡ view d
  unfolding send_no_path_dao
  send_no_path_dao-view net node d via =
      if_both (λ (s : Sent). view s.0 ≡ view d) _ refl (keeps_sequences d)

  pub withdraw_through-view :
      (net : Ipv6) (node : Node) (parent : ℕ) (d : DodagMembership)
      → view (withdraw_through net node parent d).0 ≡ view d
  unfolding withdraw_through
  withdraw_through-view net node parent d =
      if_both (λ (s : Sent). view s.0 ≡ view d) _ (send_no_path_dao-view net node d parent) refl

  pub schedule_refresh-view :
      (jitter : ℕ) (d : DodagMembership) → view (schedule_refresh jitter d) ≡ view d
  unfolding schedule_refresh
  schedule_refresh-view jitter d =
      if_both (λ (e : DodagMembership). view e ≡ view d) d.dao_refresh_pending refl
        (keeps_refresh jitter d)

  pub announce_switch-view :
      (net : Ipv6) (node : Node) (jitter old : ℕ) (d : DodagMembership)
      → view (announce_switch net node jitter old d).0 ≡ view d
  unfolding announce_switch
  announce_switch-view net node jitter old d =
      schedule_refresh-view jitter _
      ∙ keeps_path_sequence _ _
      ∙ withdraw_through-view net node old d

  pub sweep-view :
      (net : Ipv6) (node : Node) (es : Map Parent) (d : DodagMembership)
      → view (sweep net node es d).0 ≡ view d
  unfolding sweep
  sweep-view net node [] d = refl
  sweep-view net node ((address, parent) ∷ es) d =
      if_both (λ (s : Sent). view s.0 ≡ view d) (is_silent node.now d parent)
        (sweep-view net node es _
          ∙ keeps_parents _ _
          ∙ if_both (λ (s : Sent). view s.0 ≡ view d) (address == d.preferred_parent)
              (send_no_path_dao-view net node d address) refl)
        (sweep-view net node es d)

  module _
      (keeps_choice : (choice : Choice) (d : DodagMembership)
        → view (limit_rank (take_parent choice d)) ≡ view d) where
    adopt-view :
        (net : Ipv6) (node : Node) (jitter : ℕ) (choice : Choice) (d : DodagMembership)
        → view (adopt net node jitter choice d).0 ≡ view d
    unfolding adopt
    adopt-view net node jitter choice d =
        if_both (λ (s : Sent). view s.0 ≡ view d) _
          (announce_switch-view net node jitter d.preferred_parent _ ∙ keeps_choice choice d)
          (keeps_choice choice d)

    conclude-view :
        (net : Ipv6) (node : Node) (jitter : ℕ) (choice : Choice) (d : DodagMembership)
        → view (conclude net node jitter choice d).0.0 ≡ view d
    unfolding conclude
    conclude-view net node jitter choice d =
        if_both (λ (s : Sent × Verdict). view s.0.0 ≡ view d) (not (is_changed d choice)) refl
          (if_both (λ (s : Sent × Verdict). view s.0.0 ≡ view d) (is_any choice.best)
            (withdraw_through-view net node d.preferred_parent d)
            (adopt-view net node jitter choice d))

    pub select_preferred_parent-view :
        (net : Ipv6) (node : Node) (jitter : ℕ) (d : DodagMembership)
        → view (select_preferred_parent net node jitter d).0.0 ≡ view d
    unfolding select_preferred_parent
    select_preferred_parent-view net node jitter d =
        if_both (λ (s : Sent × Verdict). view s.0.0 ≡ view d) d.is_root refl
          (conclude-view net node jitter _ _ ∙ sweep-view net node d.parents d)
