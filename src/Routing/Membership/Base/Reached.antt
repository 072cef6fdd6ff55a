-- ===== src/Routing/Membership/Base/Reached.antt =====
-- What a DIO that is joined or migrated by makes of the slot of the base DODAG.
use rpl.Base.{ℕ, ◌≡◌, ap, sym, ◌∙◌, true, false, not, ◌&&◌, none, some, ◌==◌}
use rpl.Ipv6.{Ipv6}
use rpl.Header.Dio.{DioHeader}
use rpl.Routing.{DodagMembership, Dodags, find_dodag, mop_p2p_route_discovery}
use rpl.Routing.Lookup.{find_dodag-has_key}
use rpl.Routing.Membership.{Memberships, erase_dodag, joined, pace, join_dodag}
use rpl.Routing.Membership.Leaving.{is_base, retire, leave_held}
use rpl.Routing.HandleDio.{Reception, Receiver}
use rpl.Routing.HandleDio.Arrival.{migrate}
use rpl.Routing.Membership.Keys.{find_dodag-erase_own}
use rpl.Routing.Membership.Base.{is_keyed, is_based, IsValid, is_keyed-insert, is_keyed-erase}
use rpl.Routing.Membership.Base.Slot.{rejoin-is_based, joined-identity, insert-IsBased}

module _ (net : Ipv6) (draw : ℕ → ℕ → ℕ) (receiver : Receiver) where
  -- What a membership that a DIO makes is found under.
  joined-absent :
      (dio : DioHeader) (m : Memberships) (ds : Dodags)
      → find_dodag dio.instance_id dio.dodag_id ds ≡ none
      → find_dodag
          (pace draw (joined receiver.node.now dio m)).instance_id
          (pace draw (joined receiver.node.now dio m)).dodag_id
          ds
        ≡ none
  joined-absent dio m ds h =
      ap (λ (t : ℕ × ℕ × ℕ × ℕ). find_dodag t.0 t.1 ds)
        (joined-identity draw receiver.node.now dio m)
      ∙ h

  pub join-IsValid :
      (dio : DioHeader) (interface : ℕ) (m : Memberships)
      → find_dodag dio.instance_id dio.dodag_id m.dodags ≡ none
      → IsValid m
      → IsValid (join_dodag draw receiver.node.now dio interface m).0
  unfolding join_dodag
  join-IsValid dio interface m h (v, b) =
      let a = joined-absent dio m m.dodags h in
      (is_keyed-insert _ m.dodags a v, insert-IsBased _ m.base m.dodags a b)

  -- A membership in the way of the new one is gone by then.
  migrate_absent :
      (dio : DioHeader) (d : DodagMembership) (m n : Memberships)
      → find_dodag dio.instance_id dio.dodag_id m.dodags ≡ some d
      → find_dodag
          (pace draw (joined receiver.node.now dio n)).instance_id
          (pace draw (joined receiver.node.now dio n)).dodag_id
          (erase_dodag d.instance_id d.dodag_id m.dodags)
        ≡ none
  migrate_absent dio d m n h =
      let (i, k) = find_dodag-has_key dio.instance_id dio.dodag_id m.dodags d h in
      joined-absent dio n _ (
        ap (λ x. find_dodag dio.instance_id dio.dodag_id (erase_dodag x d.dodag_id m.dodags)) i
        ∙ (ap
              (λ x.
                find_dodag dio.instance_id dio.dodag_id (erase_dodag dio.instance_id x m.dodags))
              k
            ∙ find_dodag-erase_own dio.instance_id dio.dodag_id m.dodags))

  pub migrate-is_keyed :
      (dio : DioHeader) (reception : Reception) (d : DodagMembership) (m : Memberships)
      → find_dodag dio.instance_id dio.dodag_id m.dodags ≡ some d
      → IsValid m
      → is_keyed (migrate net draw receiver dio reception d m).0.dodags ≡ true
  unfolding migrate leave_held retire join_dodag
  migrate-is_keyed dio reception d m h (v, b) =
      is_keyed-insert _ _ (migrate_absent dio d m _ h)
        (is_keyed-erase d.instance_id d.dodag_id m.dodags v)

  -- A member that moves to the version of a DIO keeps what holds of the slot of the base DODAG,
  -- except in one case: its DODAG is the base and the DIO is that of a route discovery. Then the base
  -- is a route discovery.
  pub migrate-is_based :
      (dio : DioHeader) (reception : Reception) (d : DodagMembership) (m : Memberships)
      → find_dodag dio.instance_id dio.dodag_id m.dodags ≡ some d
      → IsValid m
      → is_based
          (migrate net draw receiver dio reception d m).0.base
          (migrate net draw receiver dio reception d m).0.dodags
        ≡ not (is_base d m.base && dio.mop == mop_p2p_route_discovery)
  unfolding migrate leave_held retire join_dodag
  migrate-is_based dio reception d m h (v, b) =
      let (i, k) = find_dodag-has_key dio.instance_id dio.dodag_id m.dodags d h in
      let left = (leave_held receiver.node.now receiver.reenable false d m).0 in
      let made = joined-identity draw receiver.node.now dio left in
      rejoin-is_based (pace draw (joined receiver.node.now dio left)) d m.base m.dodags v b
        (ap (λ (t : ℕ × ℕ × ℕ × ℕ). t.0) made ∙ sym i)
        (ap (λ (t : ℕ × ℕ × ℕ × ℕ). t.1) made ∙ sym k) (migrate_absent dio d m left h)
      ∙ ap (λ (t : ℕ × ℕ × ℕ × ℕ). not (is_base d m.base && t.2 == mop_p2p_route_discovery)) made
