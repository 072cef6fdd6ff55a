-- ===== src/Routing/Membership/Base/Slot.antt =====
-- What a new membership is of, and the slot of the base when memberships come, go and change.
use rpl.Base.{
  ℕ, ◌≡◌, inl, inr, refl, ap, ◌∙◌, true, false, not, ◌&&◌, Option, none, some, arith, Bool-cases,
  ◌==◌,
}
use rpl.Header.Dio.{DioHeader}
use rpl.Routing.{DodagMembership, Dodags, find_dodag, update_dodag, mop_p2p_route_discovery}
use rpl.Routing.Lookup.{has_key, update_dodag-others, update_dodag-own, find_dodag-has_key}
use rpl.Routing.Membership.{
  Memberships, new_membership, insert_dodag, erase_dodag, claim_base, configure, take_prefix,
  joined, pace,
}
use rpl.Routing.Membership.Leaving.{is_base, retire, leave_held}
use rpl.Routing.Membership.Keys.{
  find_dodag-same_key, find_dodag-insert_own, find_dodag-insert_others, find_dodag-erase_others,
}
use rpl.Routing.Membership.Base.{
  IsValid, is_keyed-erase, promote-is_based, is_keyed, is_based, is_based-insert, is_based-erase,
  is_based-update, is_based-found,
}

abbrev Identity : Type 0
Identity = ℕ × ℕ × ℕ × ℕ

abbrev identity : DodagMembership → Identity
identity d = (d.instance_id, d.dodag_id, d.mop, d.version)

configure-identity :
    (dio : DioHeader) (d : DodagMembership) → identity (configure dio d) ≡ identity d
unfolding configure
configure-identity dio d = elim (Bool-cases dio.has_dag_conf) [
  | inl a ↦ rw a refl
  | inr a ↦ elim (Bool-cases dio.has_p2p_rdo) [ inl b ↦ rw (a, b) refl | inr b ↦ rw (a, b) refl ]
]

take_prefix-identity :
    (dio : DioHeader) (d : DodagMembership) → identity (take_prefix dio d) ≡ identity d
unfolding take_prefix
take_prefix-identity dio d = elim (Bool-cases dio.has_prefix_info) [
  | inl a ↦ rw a refl
  | inr a ↦ rw a refl
]

-- A membership that a DIO makes is of the DODAG, the mode and the version that the DIO names.
pub joined-identity :
    (draw : ℕ → ℕ → ℕ) (now : ℕ) (dio : DioHeader) (m : Memberships)
    → identity (pace draw (joined now dio m))
      ≡ (dio.instance_id, dio.dodag_id, dio.mop, dio.version_number)
unfolding pace joined new_membership
joined-identity draw now dio m = take_prefix-identity dio _ ∙ configure-identity dio _

-- A new membership in the map, and the slot of the base.
pub insert-IsBased :
    (new : DodagMembership) (base : Option (ℕ × ℕ)) (ds : Dodags)
    → find_dodag new.instance_id new.dodag_id ds ≡ none
    → is_based base ds ≡ true
    → is_based (claim_base new base) (insert_dodag new ds) ≡ true
unfolding is_based claim_base
insert-IsBased new none ds h b = elim (Bool-cases (new.mop == mop_p2p_route_discovery)) [
  | inl m ↦ rw m (is_based-insert new ds m b)
  | inr m ↦ rw (m, find_dodag-insert_own new ds h) (ground (arith, m))
]
insert-IsBased new (some (i, k)) ds h b = elim (Bool-cases (has_key i k new)) [
  | inl c ↦ ground (arith, b, find_dodag-same_key i k new ds c ∙ h)
  | inr c ↦ rw (find_dodag-insert_others i k new ds c) b
]

-- The slot after the membership in it, or another, was left for good.
pub erase-IsBased :
    (d : DodagMembership) (base : Option (ℕ × ℕ)) (ds : Dodags)
    → is_keyed ds ≡ true
    → is_based base ds ≡ true
    → (is_base d base ≡ false)
    → is_based base (erase_dodag d.instance_id d.dodag_id ds) ≡ true
unfolding is_based
erase-IsBased d none ds v b h = is_based-erase d.instance_id d.dodag_id ds b
erase-IsBased d (some (i, k)) ds v b h =
    rw (find_dodag-erase_others i k d.instance_id d.dodag_id ds h) b

pub update-IsBased :
    (new d : DodagMembership) (base : Option (ℕ × ℕ)) (ds : Dodags)
    → find_dodag new.instance_id new.dodag_id ds ≡ some d
    → new.mop ≡ d.mop
    → is_based base ds ≡ true
    → is_based base (update_dodag new ds) ≡ true
unfolding is_based
update-IsBased new d none ds h e b =
    is_based-update new ds (rw e (is_based-found new.instance_id new.dodag_id ds d b h)) b
update-IsBased new d (some (i, k)) ds h e b = elim (Bool-cases (has_key i k new)) [
  | inl c ↦
      rw (find_dodag-same_key i k new _ c, update_dodag-own new d ds h)
        (ground (arith, b, find_dodag-same_key i k new ds c ∙ h, e))
  | inr c ↦ rw (update_dodag-others i k new ds c) b
]

-- A route discovery is not in the slot.
pub not_base :
    (i k : ℕ) (d : DodagMembership) (base : Option (ℕ × ℕ)) (ds : Dodags)
    → is_based base ds ≡ true
    → find_dodag i k ds ≡ some d
    → d.mop ≡ mop_p2p_route_discovery
    → is_base d base ≡ false
unfolding is_based
not_base i k d none ds b h e = refl
not_base i k d (some (j, l)) ds b h e = elim (Bool-cases (has_key j l d)) [
  | inl c ↦
      let (ei, ek) = find_dodag-has_key i k ds d h in
      ground (
        arith,
        b,
        e,
        find_dodag-same_key j l d ds c
            ∙ (ap (λ x. find_dodag x d.dodag_id ds) ei ∙ (ap (λ x. find_dodag i x ds) ek ∙ h)),
      )
  | inr c ↦ c
]

-- A membership with the key of the one before it, in the place of that one.
pub rejoin-is_based :
    (new d : DodagMembership) (base : Option (ℕ × ℕ)) (ds : Dodags)
    → is_keyed ds ≡ true
    → is_based base ds ≡ true
    → new.instance_id ≡ d.instance_id
    → new.dodag_id ≡ d.dodag_id
    → find_dodag new.instance_id new.dodag_id (erase_dodag d.instance_id d.dodag_id ds) ≡ none
    → is_based (claim_base new base) (insert_dodag new (erase_dodag d.instance_id d.dodag_id ds))
      ≡ not (is_base d base && new.mop == mop_p2p_route_discovery)
unfolding is_based claim_base
rejoin-is_based new d none ds v b ei ek h =
    insert-IsBased new none _ h (erase-IsBased d none ds v b refl)
rejoin-is_based new d (some (i, k)) ds v b ei ek h = elim (Bool-cases (has_key i k d)) [
  | inl e ↦
      rw
        (
          find_dodag-same_key i k new (insert_dodag new (erase_dodag d.instance_id d.dodag_id ds))
              (ground (arith, e, ei, ek)),
          find_dodag-insert_own new (erase_dodag d.instance_id d.dodag_id ds) h,
          e,
        )
        refl
  | inr e ↦ rw e (insert-IsBased new (some (i, k)) _ h (erase-IsBased d (some (i, k)) ds v b e))
]

-- A membership that is lost.
pub lose-IsValid :
    (now reenable : ℕ) (d : DodagMembership) (m : Memberships)
    → IsValid m
    → IsValid (leave_held now reenable true d m).0
unfolding leave_held retire
lose-IsValid now reenable d m (v, b) = elim (Bool-cases (is_base d m.base)) [
  | inl e ↦ rw e (
    is_keyed-erase d.instance_id d.dodag_id m.dodags v,
    promote-is_based _ (is_keyed-erase d.instance_id d.dodag_id m.dodags v),
  )
  | inr e ↦
      rw e
        (is_keyed-erase d.instance_id d.dodag_id m.dodags v, erase-IsBased d m.base m.dodags v b e)
]
