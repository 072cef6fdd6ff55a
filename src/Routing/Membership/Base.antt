-- ===== src/Routing/Membership/Base.antt =====
-- What the slot of the base DODAG holds, and the keys of the memberships.
pub mod Slot
pub mod Reached
use rpl.Base.{
  ℕ, ◌≡◌, inl, inr, refl, ap, Bool, true, false, not, ◌&&◌, ◌||◌, Option, none, some, List, [], ◌∷◌,
  arith, Bool-cases, ltb, ◌⊎◌, sym, ◌∙◌, ◌==◌, if◌then◌else◌,
}
use mathlib.Core.Path.{subst}
use rpl.Routing.{
  DodagMembership, Dodags, key_less, find_dodag, update_dodag, mop_p2p_route_discovery,
}
use rpl.Routing.Lookup.{absent_update, has_key, some-inj, update_dodag-others}
use rpl.Routing.Membership.{Memberships, insert_dodag, erase_dodag, promote}
use rpl.Routing.Membership.Keys.{
  find_dodag-same_key, find_dodag-insert_own, find_dodag-insert_others, find_dodag-erase_own,
  find_dodag-erase_others,
}

abbrev pub is_absent : Option DodagMembership → Bool
is_absent none = true
is_absent (some d) = false

abbrev pub is_ordinary : Option DodagMembership → Bool
is_ordinary none = false
is_ordinary (some d) = not (d.mop == mop_p2p_route_discovery)

-- No two memberships have the same key.
unfoldable pub is_keyed : Dodags → Bool
is_keyed [] = true
is_keyed (d ∷ ds) = is_absent (find_dodag d.instance_id d.dodag_id ds) && is_keyed ds

-- The base is held and no route discovery; without one, route discoveries are all there is.
unfoldable pub is_based : Option (ℕ × ℕ) → Dodags → Bool
is_based (some (i, k)) ds = is_ordinary (find_dodag i k ds)
is_based none [] = true
is_based none (d ∷ ds) = d.mop == mop_p2p_route_discovery && is_based none ds

abbrev pub IsValid : Memberships → Type 0
IsValid m = (is_keyed m.dodags ≡ true) × (is_based m.base m.dodags ≡ true)

pub absent : (o : Option DodagMembership) → is_absent o ≡ true → o ≡ none
absent none h = refl
absent (some d) h = ground (arith, h)

pub is_keyed-insert :
    (new : DodagMembership) (ds : Dodags)
    → find_dodag new.instance_id new.dodag_id ds ≡ none
    → is_keyed ds ≡ true
    → is_keyed (insert_dodag new ds) ≡ true
unfolding is_keyed insert_dodag find_dodag
is_keyed-insert new [] h v = refl
is_keyed-insert new (e ∷ ds) h v =
    elim (Bool-cases (key_less e.instance_id e.dodag_id new.instance_id new.dodag_id)) [
      | inl c ↦ elim (Bool-cases (has_key new.instance_id new.dodag_id e)) [
        | inl b ↦ ground (arith, b, h)
        | inr b ↦
            rw
              (
                c,
                find_dodag-insert_others e.instance_id e.dodag_id new ds (ground (arith, b)),
                is_keyed-insert new ds (ground (arith, b, h)) (ground (arith, v)),
              )
              (ground (arith, v))
      ]
      | inr c ↦ rw (c, h) v
    ]

pub is_keyed-erase :
    (i k : ℕ) (ds : Dodags) → is_keyed ds ≡ true → is_keyed (erase_dodag i k ds) ≡ true
unfolding is_keyed erase_dodag
is_keyed-erase i k [] v = refl
is_keyed-erase i k (e ∷ ds) v = elim (Bool-cases (has_key i k e)) [
  | inl b ↦ rw b (is_keyed-erase i k ds (ground (arith, v)))
  | inr b ↦
      rw
        (
          b,
          find_dodag-erase_others e.instance_id e.dodag_id i k ds (ground (arith, b)),
          is_keyed-erase i k ds (ground (arith, v)),
        )
        (ground (arith, v))
]

pub is_based-insert :
    (new : DodagMembership) (ds : Dodags)
    → new.mop == mop_p2p_route_discovery ≡ true
    → is_based none ds ≡ true
    → is_based none (insert_dodag new ds) ≡ true
unfolding is_based insert_dodag
is_based-insert new [] h b = rw h refl
is_based-insert new (e ∷ ds) h b =
    elim (Bool-cases (key_less e.instance_id e.dodag_id new.instance_id new.dodag_id)) [
      | inl c ↦ rw (c, is_based-insert new ds h (ground (arith, b))) (ground (arith, b))
      | inr c ↦ rw (c, h) b
    ]

pub is_based-erase :
    (i k : ℕ) (ds : Dodags) → is_based none ds ≡ true → is_based none (erase_dodag i k ds) ≡ true
unfolding is_based erase_dodag
is_based-erase i k [] b = refl
is_based-erase i k (e ∷ ds) b = elim (Bool-cases (has_key i k e)) [
  | inl c ↦ rw c (is_based-erase i k ds (ground (arith, b)))
  | inr c ↦ rw (c, is_based-erase i k ds (ground (arith, b))) (ground (arith, b))
]

absent_too :
    (i k : ℕ) (d : DodagMembership) (ds : Dodags)
    → has_key i k d ≡ true
    → is_absent (find_dodag d.instance_id d.dodag_id ds) ≡ true
    → find_dodag i k ds ≡ none
absent_too i k d ds c h = find_dodag-same_key i k d ds c ∙ absent _ h

-- What promote finds, the memberships being told apart by their keys.
promote_cases :
    (ds : Dodags)
    → is_keyed ds ≡ true
    → ((promote ds ≡ none) × (is_based none ds ≡ true))
      ⊎ ((i : ℕ) × ((k : ℕ) × ((promote ds ≡ some (i, k))
              × (is_ordinary (find_dodag i k ds) ≡ true))))
unfolding is_keyed is_based promote find_dodag
promote_cases [] v = inl (refl, refl)
promote_cases (d ∷ ds) v = elim (Bool-cases (d.mop == mop_p2p_route_discovery)) [
  | inr m ↦ inr (d.instance_id, (d.dodag_id, (rw m refl, ground (arith, m))))
  | inl m ↦ elim (promote_cases ds (ground (arith, v))) [
    | inl (e, b) ↦ inl (rw (m, e) refl, rw (m, b) refl)
    | inr (i, (k, (e, o))) ↦ inr (
      i,
      (
        k,
        (
          rw (m, e) refl,
          elim (Bool-cases (has_key i k d)) [
            | inl c ↦ ground (arith, o, absent_too i k d ds c (ground (arith, v)))
            | inr c ↦ rw c o
          ],
        ),
      ),
    )
  ]
]

pub promote-is_based : (ds : Dodags) → is_keyed ds ≡ true → is_based (promote ds) ds ≡ true
unfolding is_based
promote-is_based ds v = elim (promote_cases ds v) [
  | inl (e, b) ↦ rw e b
  | inr (i, (k, (e, o))) ↦ rw e o
]

pub is_keyed-update :
    (new : DodagMembership) (ds : Dodags)
    → is_keyed ds ≡ true
    → is_keyed (update_dodag new ds) ≡ true
unfolding is_keyed update_dodag
is_keyed-update new [] v = refl
is_keyed-update new (e ∷ ds) v = elim (Bool-cases (has_key new.instance_id new.dodag_id e)) [
  | inl b ↦
      rw
        (
          b,
          absent_update new.instance_id new.dodag_id new ds
              (absent_too new.instance_id new.dodag_id e ds b (ground (arith, v))),
          is_keyed-update new ds (ground (arith, v)),
        )
        refl
  | inr b ↦
      rw
        (
          b,
          update_dodag-others e.instance_id e.dodag_id new ds (ground (arith, b)),
          is_keyed-update new ds (ground (arith, v)),
        )
        (ground (arith, v))
]

pub is_based-update :
    (new : DodagMembership) (ds : Dodags)
    → new.mop == mop_p2p_route_discovery ≡ true
    → is_based none ds ≡ true
    → is_based none (update_dodag new ds) ≡ true
unfolding is_based update_dodag
is_based-update new [] h b = refl
is_based-update new (e ∷ ds) h b = elim (Bool-cases (has_key new.instance_id new.dodag_id e)) [
  | inl c ↦ rw (c, h, is_based-update new ds h (ground (arith, b))) refl
  | inr c ↦ rw (c, is_based-update new ds h (ground (arith, b))) (ground (arith, b))
]

pub is_based-found :
    (i k : ℕ) (ds : Dodags) (d : DodagMembership)
    → is_based none ds ≡ true
    → find_dodag i k ds ≡ some d
    → d.mop == mop_p2p_route_discovery ≡ true
unfolding is_based find_dodag
is_based-found i k [] d b h = ground (arith, h)
is_based-found i k (e ∷ ds) d b h = elim (Bool-cases (has_key i k e)) [
  | inl c ↦
      subst (λ (x : DodagMembership). x.mop == mop_p2p_route_discovery ≡ true) {x = e} {y = d}
        (some-inj (ground (arith, c, h))) (ground (arith, b))
  | inr c ↦ is_based-found i k ds d (ground (arith, b)) (ground (arith, c, h))
]
