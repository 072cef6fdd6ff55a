-- ===== src/Routing/HandleDio/Versions/Followed.antt =====
-- A member never goes back to an older version: HandleDio as a whole.
use rpl.Base.{
  ℕ, ◌≡◌, refl, ap, ◌∙◌, Bool, Option, none, some, [], ltb, leb, ◌==◌, if◌then◌else◌, if_both,
}
use mathlib.Core.Path.{subst}
use rpl.Base.Map.{erase}
use rpl.Ipv6.{Ipv6}
use rpl.Trickle.{consistency_hit}
use rpl.Header.Dio.{DioHeader}
use rpl.Routing.{DodagMembership, infinite_rank}
use rpl.Routing.Lookup.{find_dodag-has_key}
use rpl.Routing.NoPath.{Sent, send_no_path_dao}
use rpl.Routing.Membership.{Memberships, Step}
use rpl.Routing.Membership.Advertising.{reset_found, reset_trickle}
use rpl.Routing.HandleDio.{Reception, Receiver, hear}
use rpl.Routing.HandleDio.Arrival.{
  own, select, reset_if, drop_found, pace_found, pace_discovery, pace_ordinary, take_found,
}
use rpl.Routing.HandleDio.Versions.{
  edition, hear-edition, send_no_path_dao-edition, VersionIs, IsAt, IsEdition, hold-IsAt,
  settle-IsAt,
}

module _ (net : Ipv6) (draw : ℕ → ℕ → ℕ) (receiver : Receiver) (dio : DioHeader)
    (reception : Reception) (v : ℕ) where
  abbrev At : Memberships → Type 0
  At m = IsAt dio.instance_id dio.dodag_id v m

  abbrev Ours : DodagMembership → Type 0
  Ours d = IsEdition dio.instance_id dio.dodag_id v d

  -- By the key that it is looked up by.
  ours :
      (m : Memberships) (d : DodagMembership)
      → own net draw receiver dio reception m ≡ some d
      → d.version ≡ v
      → Ours d
  ours m d h e =
      let (ei, ek) = find_dodag-has_key dio.instance_id dio.dodag_id m.dodags d h in
      ap (λ x. (x, d.dodag_id, d.version)) ei
      ∙ (ap (λ x. (dio.instance_id, x, d.version)) ek
          ∙ ap (λ x. (dio.instance_id, dio.dodag_id, x)) e)

  find-At :
      (m : Memberships) (o : Option DodagMembership)
      → own net draw receiver dio reception m ≡ o
      → At m
      → VersionIs v o
  find-At m o h a = subst (VersionIs v) h a

  reset_found-At :
      (o : Option DodagMembership) (m : Memberships)
      → own net draw receiver dio reception m ≡ o
      → At m
      → At (reset_found draw dio.instance_id dio.dodag_id o m)
  reset_found-At none m h a = a
  reset_found-At (some d) m h a =
      hold-IsAt dio.instance_id dio.dodag_id v _ m (ours m d h (find-At m (some d) h a))

  reset_if-At : (r : Step × Bool) → At r.0.0 → At (reset_if net draw receiver dio reception r).0
  unfolding reset_trickle
  reset_if-At ((m, actions), changed) a = if_both At changed (reset_found-At _ m refl a) a

  pub drop_found-At :
      (o : Option DodagMembership) (m : Memberships)
      → own net draw receiver dio reception m ≡ o
      → At m
      → At (drop_found net draw receiver dio reception o m).0
  drop_found-At none m h a = a
  drop_found-At (some d) m h a =
      let withdrawn : Sent =
        if reception.from == d.preferred_parent
        then send_no_path_dao net receiver.node d reception.from
        else (d, []) in
      let dropped : DodagMembership = record withdrawn.0 {
        parents = erase reception.from withdrawn.0.parents;
      } in
      reset_if-At (select net draw receiver dio reception dropped m) (
        settle-IsAt dio.instance_id dio.dodag_id v net receiver dropped m (
          if_both (λ (s : Sent). edition s.0 ≡ edition d) (reception.from == d.preferred_parent)
            (send_no_path_dao-edition net receiver.node d reception.from) refl
          ∙ ours m d h (find-At m (some d) h a)))

  pace_found-At :
      (is_from_parent : Bool) (rank : ℕ) (o : Option DodagMembership) (m : Memberships)
      → own net draw receiver dio reception m ≡ o
      → At m
      → At (pace_found net draw receiver dio reception is_from_parent rank o m)
  pace_found-At is_from_parent rank none m h a = a
  pace_found-At is_from_parent rank (some d) m h a =
      let e = ours m d h (find-At m (some d) h a) in
      if_both At (ltb d.rank rank) (hold-IsAt dio.instance_id dio.dodag_id v _ m e) (
        if_both At is_from_parent a
          (if_both At (leb dio.rank d.rank) (hold-IsAt dio.instance_id dio.dodag_id v _ m e) a))

  pub take_found-At :
      (o : Option DodagMembership) (m : Memberships)
      → own net draw receiver dio reception m ≡ o
      → At m
      → At (take_found net draw receiver dio reception o m).0
  unfolding pace_discovery pace_ordinary
  take_found-At none m h a = a
  take_found-At (some d) m h a =
      let known = hear receiver dio reception d in
      let counted : DodagMembership =
        if known.rank == infinite_rank
        then known
        else record known { dio_trickle = consistency_hit known.dio_trickle } in
      let e = hear-edition receiver dio reception d ∙ ours m d h (find-At m (some d) h a) in
      if_both (λ (s : Step). At s.0) _
        (pace_found-At _ _ _ _ refl
          (settle-IsAt dio.instance_id dio.dodag_id v net receiver known m e))
        (reset_if-At (select net draw receiver dio reception counted m) (
          settle-IsAt dio.instance_id dio.dodag_id v net receiver counted m
            (if_both Ours (known.rank == infinite_rank) e e)))
