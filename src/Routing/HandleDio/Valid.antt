-- ===== src/Routing/HandleDio/Valid.antt =====
-- The memberships stay valid whatever DIO arrives that carries no route discovery.
use mathlib.Core.Path.{subst}
use mathlib.Core.Bool.{true≢false}
use rpl.Base.{
  sym, inl, inr, Bool-cases, ℕ, ◌≡◌, refl, ◌∙◌, Bool, true, false, not, ◌&&◌, Option, none, some,
  [], arith, ltb, leb, ◌==◌, if◌then◌else◌, if_both,
}
use rpl.Base.Map.{erase}
use rpl.Ipv6.{Ipv6}
use rpl.Header.Dio.{DioHeader}
use rpl.Routing.{DodagMembership, infinite_rank, mop_p2p_route_discovery}
use rpl.Routing.NoPath.{Sent, send_no_path_dao}
use rpl.Trickle.{consistency_hit}
use rpl.Sequence.{sequence_newer}
use rpl.Routing.Membership.{Memberships, Step, join_dodag}
use rpl.Routing.Membership.Leaving.{is_base}
use rpl.Routing.Membership.Base.{IsValid}
use rpl.Routing.Membership.Base.Reached.{join-IsValid, migrate-is_keyed, migrate-is_based}
use rpl.Routing.HandleDio.{
  Reception, Handlers, Receiver, is_discarded, is_consistent_mode, is_refused, migrates, hear,
}
use rpl.Routing.HandleDio.Arrival.{
  own, select, reset_if, drop_found, drop_sender, migrate, enter_found, enter, pace_found,
  pace_discovery, pace_ordinary, take_found, take, if_joined, hand_over, proceed, handle_dio,
}
use rpl.Routing.HandleDio.Settled.{
  name, send_no_path_dao-name, hear-name, IsHeldIn, found-IsHeldIn, renamed-IsHeldIn, hold-IsValid,
  settle-IsValid, reset_trickle-IsValid,
}

module _ (net : Ipv6) (draw : ℕ → ℕ → ℕ) (receiver : Receiver) (dio : DioHeader)
    (reception : Reception) where
  found :
      (m : Memberships) (d : DodagMembership)
      → own net draw receiver dio reception m ≡ some d
      → IsHeldIn m d
  found m d h = found-IsHeldIn dio.instance_id dio.dodag_id m d h

  reset_if-IsValid :
      (r : Step × Bool) → IsValid r.0.0 → IsValid (reset_if net draw receiver dio reception r).0
  reset_if-IsValid ((m, actions), changed) v =
      if_both IsValid changed (reset_trickle-IsValid draw dio.instance_id dio.dodag_id m v) v

  drop_found-IsValid :
      (o : Option DodagMembership) (m : Memberships)
      → own net draw receiver dio reception m ≡ o
      → IsValid m
      → IsValid (drop_found net draw receiver dio reception o m).0
  drop_found-IsValid none m h v = v
  drop_found-IsValid (some d) m h v =
      let withdrawn : Sent =
        if reception.from == d.preferred_parent
        then send_no_path_dao net receiver.node d reception.from
        else (d, []) in
      let dropped : DodagMembership = record withdrawn.0 {
        parents = erase reception.from withdrawn.0.parents;
      } in
      reset_if-IsValid (select net draw receiver dio reception dropped m) (
        settle-IsValid net receiver.node receiver.reenable receiver.jitter dropped m
          (renamed-IsHeldIn m dropped d
            (if_both (λ (s : Sent). name s.0 ≡ name d) (reception.from == d.preferred_parent)
              (send_no_path_dao-name net receiver.node d reception.from) refl)
            (found m d h))
          v)

  -- What enter makes, if it makes anything.
  abbrev IsValidEntry : Option Step → Type 0
  IsValidEntry none = ℕ
  IsValidEntry (some s) = IsValid s.0

  spared :
      (d : DodagMembership) (base : Option (ℕ × ℕ))
      → dio.mop == mop_p2p_route_discovery ≡ false
      → not (is_base d base && dio.mop == mop_p2p_route_discovery) ≡ true
  spared d none h = refl
  spared d (some (i, k)) h = ground (arith, h)

  migrate-IsValid :
      (d : DodagMembership) (m : Memberships)
      → own net draw receiver dio reception m ≡ some d
      → dio.mop == mop_p2p_route_discovery ≡ false
      → IsValid m
      → IsValid (migrate net draw receiver dio reception d m).0
  migrate-IsValid d m h i v = (
    migrate-is_keyed net draw receiver dio reception d m h v,
    migrate-is_based net draw receiver dio reception d m h v ∙ spared d m.base i,
  )

  enter_found-IsValid :
      (o : Option DodagMembership) (m : Memberships)
      → own net draw receiver dio reception m ≡ o
      → dio.mop == mop_p2p_route_discovery ≡ false
      → IsValid m
      → IsValidEntry (enter_found net draw receiver dio reception o m)
  enter_found-IsValid none m h i v =
      if_both IsValidEntry _ {first = none}
        {second = some (join_dodag draw receiver.node.now dio reception.interface m)} 0
        (join-IsValid net draw receiver dio reception.interface m h v)
  enter_found-IsValid (some d) m h i v = if_both IsValidEntry (dio.version_number == d.version) v (
      if_both IsValidEntry (d.mop == mop_p2p_route_discovery)
        (if_both IsValid (sequence_newer dio.version_number d.version)
          (hold-IsValid _ m (found m d h) v) v)
        (if_both IsValidEntry (migrates dio d)
          {first = some (migrate net draw receiver dio reception d m)} {second = none}
          (migrate-IsValid d m h i v) 0))

  pace_found-IsValid :
      (is_from_parent : Bool) (rank : ℕ) (o : Option DodagMembership) (m : Memberships)
      → own net draw receiver dio reception m ≡ o
      → IsValid m
      → IsValid (pace_found net draw receiver dio reception is_from_parent rank o m)
  pace_found-IsValid is_from_parent rank none m h v = v
  pace_found-IsValid is_from_parent rank (some d) m h v =
      if_both IsValid (ltb d.rank rank) (hold-IsValid _ m (found m d h) v) (
        if_both IsValid is_from_parent v
          (if_both IsValid (leb dio.rank d.rank) (hold-IsValid _ m (found m d h) v) v))

  take_found-IsValid :
      (o : Option DodagMembership) (m : Memberships)
      → own net draw receiver dio reception m ≡ o
      → IsValid m
      → IsValid (take_found net draw receiver dio reception o m).0
  unfolding pace_discovery pace_ordinary
  take_found-IsValid none m h v = v
  take_found-IsValid (some d) m h v =
      let known = hear receiver dio reception d in
      let counted : DodagMembership =
        if known.rank == infinite_rank
        then known
        else record known { dio_trickle = consistency_hit known.dio_trickle } in
      let held = renamed-IsHeldIn m known d (hear-name receiver dio reception d) (found m d h) in
      if_both (λ (s : Step). IsValid s.0) _
        (pace_found-IsValid _ _ _ _ refl
          (settle-IsValid net receiver.node receiver.reenable receiver.jitter known m held v))
        (reset_if-IsValid (select net draw receiver dio reception counted m) (
          settle-IsValid net receiver.node receiver.reenable receiver.jitter counted m
            (if_both (IsHeldIn m) (known.rank == infinite_rank) held held) v))

  not_carried :
      (carried : Bool) (f : Memberships → Step) (m : Memberships)
      → carried ≡ false
      → if_joined net draw receiver dio reception carried f m ≡ (m, [])
  not_carried true f m h = absurd (true≢false h)
  not_carried false f m h = refl

  proceed-IsValid :
      (handlers : Handlers) (entry : Option Step) (m : Memberships)
      → dio.has_rreq ≡ false
      → dio.has_rrep ≡ false
      → dio.has_p2p_rdo ≡ false
      → IsValidEntry entry
      → IsValid m
      → IsValid (proceed net draw receiver dio reception handlers entry m).0
  unfolding take hand_over
  proceed-IsValid handlers none m q p r e v = v
  proceed-IsValid handlers (some (n, actions)) m q p r e v =
      let rreq = handlers.handle_aodv_rreq dio reception in
      let rrep = handlers.handle_aodv_rrep_instance dio reception in
      let rdo = handlers.handle_p2p_rdo dio reception in
      let m1 =
        (take_found net draw receiver dio reception (own net draw receiver dio reception n) n).0 in
      let m2 = (if_joined net draw receiver dio reception dio.has_rreq rreq m1).0 in
      let m3 = (if_joined net draw receiver dio reception dio.has_rrep rrep m2).0 in
      let valid : Step → Type 0 = λ s. IsValid s.0 in
      subst valid (sym (not_carried dio.has_p2p_rdo rdo m3 r)) (
        subst valid (sym (not_carried dio.has_rrep rrep m2 p)) (
          subst valid (sym (not_carried dio.has_rreq rreq m1 q))
            (take_found-IsValid (own net draw receiver dio reception n) n refl e)))

  -- A DIO that gets past the first tests and carries no route discovery is not of that mode.
  kept_ordinary :
      (m : Memberships)
      → is_discarded receiver dio reception m ≡ false
      → dio.has_rreq ≡ false
      → dio.has_rrep ≡ false
      → dio.has_p2p_rdo ≡ false
      → dio.mop == mop_p2p_route_discovery ≡ false
  unfolding is_discarded is_consistent_mode
  kept_ordinary m h q p r = ground (arith, h, q, p, r)

  -- Whatever DIO without a route-discovery option arrives, the memberships stay valid: no two have the
  -- same key, the base DODAG is held and no route discovery, and a node has none only if all its
  -- memberships are route discoveries. So it is whether the DIO is discarded, refused, poison, joined by,
  -- in a version that is followed, or of a DODAG that the node is in, and also where the DODAG is lost
  -- for want of a parent.
  pub handle_dio-IsValid :
      (handlers : Handlers) (m : Memberships)
      → dio.has_rreq ≡ false
      → dio.has_rrep ≡ false
      → dio.has_p2p_rdo ≡ false
      → IsValid m
      → IsValid (handle_dio net draw receiver dio reception handlers m).0
  unfolding handle_dio drop_sender enter
  handle_dio-IsValid handlers m q p r v =
      let valid : Step → Type 0 = λ s. IsValid s.0 in
      let entered =
        enter_found net draw receiver dio reception (own net draw receiver dio reception m) m in
      let rest : Step =
        if is_refused receiver dio m
        then (m, [])
        else if dio.rank == infinite_rank
        then drop_found net draw receiver dio reception (own net draw receiver dio reception m) m
        else proceed net draw receiver dio reception handlers entered m in
      let after : Bool → Step = λ c.
        if c && not reception.to_multicast
        then handlers.handle_aodv_rrep dio reception m
        else rest in
      elim (Bool-cases (is_discarded receiver dio reception m)) [
        | inl e ↦ subst (λ c. valid (if c then (m, []) else after dio.has_rrep)) (sym e) v
        | inr e ↦
            subst (λ c. valid (if c then (m, []) else after dio.has_rrep)) (sym e)
              (subst (λ c. valid (after c)) (sym p)
                (if_both valid (is_refused receiver dio m) v (
                  if_both valid (dio.rank == infinite_rank)
                    (drop_found-IsValid (own net draw receiver dio reception m) m refl v)
                    (proceed-IsValid handlers entered m q p r
                      (enter_found-IsValid (own net draw receiver dio reception m) m refl
                        (kept_ordinary m e q p r) v)
                      v))))
      ]
