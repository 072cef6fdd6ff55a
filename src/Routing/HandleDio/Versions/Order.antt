-- ===== src/Routing/HandleDio/Versions/Order.antt =====
-- A member never goes back to an older version: HandleDio as a whole.
use rpl.Base.{
  ℕ, ◌≡◌, ◌⊎◌, ◌<◌, inl, inr, refl, ap, sym, ◌∙◌, Bool, true, false, not, ◌&&◌, Option, none, some,
  [], arith, Bool-cases, ◌==◌, if◌then◌else◌, if_both,
}
use mathlib.Core.Path.{subst}
use mathlib.Core.Bool.{true≢false}
use rpl.Ipv6.{Ipv6}
use rpl.Sequence.{
  SequenceOrder, less, equal, greater, not_comparable, is_greater, sequence_compare, sequence_newer,
}
use rpl.Header.Dio.{DioHeader}
use rpl.Routing.{DodagMembership, find_dodag, infinite_rank, mop_p2p_route_discovery}
use rpl.Routing.Lookup.{find_dodag-has_key}
use rpl.Routing.Membership.{Memberships, Step, insert_dodag, erase_dodag, join_dodag, joined, pace}
use rpl.Routing.Membership.Leaving.{leave_held, retire}
use rpl.Routing.Membership.Keys.{find_dodag-insert_own, find_dodag-erase_own}
use rpl.Routing.Membership.Base.Slot.{joined-identity}
use rpl.Routing.HandleDio.{
  Reception, Handlers, Receiver, is_discarded, is_refused, migrates, follows,
}
use rpl.Routing.HandleDio.Arrival.{
  own, drop_found, drop_sender, migrate, adopt_version, enter_found, enter, take_found, take,
  if_joined, hand_over, proceed, handle_dio,
}
use rpl.Routing.HandleDio.Versions.Followed.{drop_found-At, take_found-At}
use rpl.Routing.HandleDio.Versions.{Edition, VersionIs, IsAt, hold-IsAt}

newer_greater : (o : SequenceOrder) → is_greater o ≡ true → o ≡ greater
newer_greater less h = ground (arith, h)
newer_greater equal h = ground (arith, h)
newer_greater greater h = refl
newer_greater not_comparable h = ground (arith, h)

-- The DIO's version is later than that of the membership or, sent by a parent, not comparable.
abbrev pub Supersedes : DioHeader → DodagMembership → Type 0
Supersedes dio d =
    (sequence_compare dio.version_number d.version ≡ greater)
    ⊎ ((sequence_compare dio.version_number d.version ≡ not_comparable) × (dio.rank < d.rank))

follows_cases :
    (from_parent : Bool) (o : SequenceOrder)
    → follows from_parent o ≡ true
    → (o ≡ greater) ⊎ ((o ≡ not_comparable) × (from_parent ≡ true))
follows_cases from_parent less h = ground (arith, h)
follows_cases from_parent equal h = ground (arith, h)
follows_cases from_parent greater h = inl refl
follows_cases from_parent not_comparable h = inr (refl, h)

migrates-Supersedes :
    (dio : DioHeader) (d : DodagMembership) → migrates dio d ≡ true → Supersedes dio d
unfolding migrates
migrates-Supersedes dio d h = elim (follows_cases _ _ h) [
  | inl e ↦ inl e
  | inr (e, p) ↦ inr (e, ground (arith, p))
]

-- What became of a membership: gone, in the version it was in, or in one that supersedes it.
abbrev pub IsNoOlder : DioHeader → DodagMembership → Option DodagMembership → Type 0
IsNoOlder dio d none = ℕ
IsNoOlder dio d (some e) =
    (e.version ≡ d.version) ⊎ ((e.version ≡ dio.version_number) × Supersedes dio d)

module _ (net : Ipv6) (draw : ℕ → ℕ → ℕ) (receiver : Receiver) (dio : DioHeader)
    (reception : Reception) where
  abbrev At : ℕ → Memberships → Type 0
  At v m = IsAt dio.instance_id dio.dodag_id v m

  abbrev Results : DodagMembership → Memberships → Type 0
  Results d m = At d.version m ⊎ (At dio.version_number m × Supersedes dio d)

  no_older :
      (d : DodagMembership) (o : Option DodagMembership)
      → VersionIs d.version o ⊎ (VersionIs dio.version_number o × Supersedes dio d)
      → IsNoOlder dio d o
  no_older d none r = 0
  no_older d (some e) r = r

  -- The membership that a DIO makes after the one before it is gone.
  migrate-At :
      (d : DodagMembership) (m : Memberships)
      → own net draw receiver dio reception m ≡ some d
      → At dio.version_number (migrate net draw receiver dio reception d m).0
  unfolding migrate leave_held retire join_dodag
  migrate-At d m h =
      let (ei, ek) = find_dodag-has_key dio.instance_id dio.dodag_id m.dodags d h in
      let left = (leave_held receiver.node.now receiver.reenable false d m).0 in
      let new = pace draw (joined receiver.node.now dio left) in
      let made = joined-identity draw receiver.node.now dio left in
      let erased = erase_dodag d.instance_id d.dodag_id m.dodags in
      let gone : find_dodag dio.instance_id dio.dodag_id erased ≡ none =
        ap (λ x. find_dodag x dio.dodag_id erased) (sym ei)
        ∙ (ap (λ x. find_dodag d.instance_id x erased) (sym ek)
            ∙ find_dodag-erase_own d.instance_id d.dodag_id m.dodags) in
      let absent : find_dodag new.instance_id new.dodag_id erased ≡ none =
        ap (λ (t : ℕ × ℕ × ℕ × ℕ). find_dodag t.0 t.1 erased) made ∙ gone in
      subst
        (λ (t : ℕ × ℕ × ℕ × ℕ).
          VersionIs dio.version_number (find_dodag t.0 t.1 (insert_dodag new erased)))
        made
        (subst (VersionIs dio.version_number) (sym (find_dodag-insert_own new erased absent))
          (ap (λ (t : ℕ × ℕ × ℕ × ℕ). t.3) made))

  abbrev EntryResults : DodagMembership → Option Step → Type 0
  EntryResults d none = ℕ
  EntryResults d (some s) = Results d s.0

  held-At :
      (d : DodagMembership) (m : Memberships)
      → own net draw receiver dio reception m ≡ some d
      → At d.version m
  held-At d m h = subst (VersionIs d.version) (sym h) refl

  adopt-Results :
      (d : DodagMembership) (m : Memberships)
      → own net draw receiver dio reception m ≡ some d
      → Results d (adopt_version net draw receiver dio reception d m)
  unfolding sequence_newer
  adopt-Results d m h = elim (Bool-cases (sequence_newer dio.version_number d.version)) [
    | inl e ↦
        let (ei, ek) = find_dodag-has_key dio.instance_id dio.dodag_id m.dodags d h in
        let renewed : Edition = (d.instance_id, d.dodag_id, dio.version_number) in
        rw e (
          inr (
            hold-IsAt dio.instance_id dio.dodag_id dio.version_number
                (record d { version = dio.version_number }) m
                (ap (λ x. (x, d.dodag_id, dio.version_number)) ei
                  ∙ ap (λ x. (dio.instance_id, x, dio.version_number)) ek),
            inl (newer_greater _ e),
          ))
    | inr e ↦ rw e (inl (held-At d m h))
  ]

  enter_found-Results :
      (d : DodagMembership) (m : Memberships)
      → own net draw receiver dio reception m ≡ some d
      → EntryResults d (enter_found net draw receiver dio reception (some d) m)
  enter_found-Results d m h =
      if_both (EntryResults d) (dio.version_number == d.version) (inl (held-At d m h)) (
        if_both (EntryResults d) (d.mop == mop_p2p_route_discovery) (adopt-Results d m h)
          (elim (Bool-cases (migrates dio d)) [
            | inl e ↦ rw e (inr (migrate-At d m h, migrates-Supersedes dio d e))
            | inr e ↦ rw e 0
          ]))

  take_found-Results :
      (d : DodagMembership) (m : Memberships)
      → Results d m
      → Results d
          (take_found net draw receiver dio reception (own net draw receiver dio reception m) m).0
  take_found-Results d m (inl a) = inl (
      take_found-At net draw receiver dio reception d.version
        (own net draw receiver dio reception m) m refl a)
  take_found-Results d m (inr (a, s)) = inr (
    take_found-At net draw receiver dio reception dio.version_number
        (own net draw receiver dio reception m) m refl a,
    s,
  )

  not_carried :
      (carried : Bool) (f : Memberships → Step) (m : Memberships)
      → carried ≡ false
      → if_joined net draw receiver dio reception carried f m ≡ (m, [])
  not_carried true f m h = absurd (true≢false h)
  not_carried false f m h = refl

  proceed-Results :
      (handlers : Handlers) (d : DodagMembership) (entry : Option Step) (m : Memberships)
      → dio.has_rreq ≡ false
      → dio.has_rrep ≡ false
      → dio.has_p2p_rdo ≡ false
      → Results d m
      → EntryResults d entry
      → Results d (proceed net draw receiver dio reception handlers entry m).0
  unfolding take hand_over
  proceed-Results handlers d none m q p r a e = a
  proceed-Results handlers d (some (n, actions)) m q p r a e =
      let results : Step → Type 0 = λ s. Results d s.0 in
      let rreq = handlers.handle_aodv_rreq dio reception in
      let rrep = handlers.handle_aodv_rrep_instance dio reception in
      let rdo = handlers.handle_p2p_rdo dio reception in
      let m1 =
        (take_found net draw receiver dio reception (own net draw receiver dio reception n) n).0 in
      let m2 = (if_joined net draw receiver dio reception dio.has_rreq rreq m1).0 in
      let m3 = (if_joined net draw receiver dio reception dio.has_rrep rrep m2).0 in
      subst results (sym (not_carried dio.has_p2p_rdo rdo m3 r)) (
        subst results (sym (not_carried dio.has_rrep rrep m2 p))
          (subst results (sym (not_carried dio.has_rreq rreq m1 q)) (take_found-Results d n e)))

  -- A node that belongs to the DODAG of a DIO that carries no route discovery belongs to it no longer
  -- when the DIO is handled, or in the same version as before, or in the version of the DIO. The last
  -- is so only if that version is later or, where the two do not compare, the DIO came from a node of
  -- lower rank. This holds whatever parents are found silent or lost, and whatever the DIO says.
  pub handle_dio-IsNoOlder :
      (handlers : Handlers) (m : Memberships) (d : DodagMembership)
      → find_dodag dio.instance_id dio.dodag_id m.dodags ≡ some d
      → dio.has_rreq ≡ false
      → dio.has_rrep ≡ false
      → dio.has_p2p_rdo ≡ false
      → IsNoOlder dio d (
          find_dodag dio.instance_id dio.dodag_id
            (handle_dio net draw receiver dio reception handlers m).0.dodags)
  unfolding handle_dio drop_sender enter
  handle_dio-IsNoOlder handlers m d h q p r =
      let results : Step → Type 0 = λ s. Results d s.0 in
      let kept : Results d m = inl (held-At d m h) in
      let rest : Step =
        if is_refused receiver dio m
        then (m, [])
        else if dio.rank == infinite_rank
        then drop_found net draw receiver dio reception (own net draw receiver dio reception m) m
        else proceed net draw receiver dio reception handlers
            (enter_found net draw receiver dio reception (own net draw receiver dio reception m) m)
            m in
      no_older d _ (
        if_both results (is_discarded receiver dio reception m) kept (
          subst
            (λ c. results (
              if c && not reception.to_multicast
              then handlers.handle_aodv_rrep dio reception m
              else rest))
            (sym p)
            (if_both results (is_refused receiver dio m) kept (
              if_both results (dio.rank == infinite_rank)
                (inl (
                  drop_found-At net draw receiver dio reception d.version
                    (own net draw receiver dio reception m) m refl (held-At d m h)))
                (subst
                  (λ o. results (
                    proceed net draw receiver dio reception handlers
                      (enter_found net draw receiver dio reception o m) m))
                  (sym h)
                  (proceed-Results handlers d
                    (enter_found net draw receiver dio reception (some d) m) m q p r kept
                    (enter_found-Results d m h)))))))
