-- ===== src/Routing/Membership/Keys.antt =====
-- The map of memberships as insert_dodag and erase_dodag change it.
use rpl.Base.{
  ℕ, ◌≡◌, inl, inr, refl, ap, ◌∙◌, true, false, ◌&&◌, none, some, [], ◌∷◌, arith, Bool-cases, ◌==◌,
}
use rpl.Routing.{DodagMembership, Dodags, key_less, find_dodag}
use rpl.Routing.Lookup.{has_key}
use rpl.Routing.Membership.{insert_dodag, erase_dodag}

pub find_dodag-same_key :
    (i k : ℕ) (d : DodagMembership) (ds : Dodags)
    → has_key i k d ≡ true
    → find_dodag i k ds ≡ find_dodag d.instance_id d.dodag_id ds
find_dodag-same_key i k d ds c =
    let ei : i ≡ d.instance_id = ground (arith, c) in
    let ek : k ≡ d.dodag_id = ground (arith, c) in
    ap (λ x. find_dodag x k ds) ei ∙ ap (λ x. find_dodag d.instance_id x ds) ek

pub find_dodag-insert_own :
    (new : DodagMembership) (ds : Dodags)
    → find_dodag new.instance_id new.dodag_id ds ≡ none
    → find_dodag new.instance_id new.dodag_id (insert_dodag new ds) ≡ some new
unfolding find_dodag insert_dodag
find_dodag-insert_own new [] h = ground arith
find_dodag-insert_own new (e ∷ ds) h = elim (Bool-cases (has_key new.instance_id new.dodag_id e)) [
  | inl b ↦ ground (arith, b, h)
  | inr b ↦ elim (Bool-cases (key_less e.instance_id e.dodag_id new.instance_id new.dodag_id)) [
    | inl c ↦ rw (c, b) (find_dodag-insert_own new ds (ground (arith, b, h)))
    | inr c ↦ rw c (ground arith)
  ]
]

pub find_dodag-insert_others :
    (i k : ℕ) (new : DodagMembership) (ds : Dodags)
    → has_key i k new ≡ false
    → find_dodag i k (insert_dodag new ds) ≡ find_dodag i k ds
unfolding find_dodag insert_dodag
find_dodag-insert_others i k new [] h = rw h refl
find_dodag-insert_others i k new (e ∷ ds) h =
    elim (Bool-cases (key_less e.instance_id e.dodag_id new.instance_id new.dodag_id)) [
      | inl c ↦ rw c (elim (Bool-cases (has_key i k e)) [
        | inl b ↦ rw b refl
        | inr b ↦ rw b (find_dodag-insert_others i k new ds h)
      ])
      | inr c ↦ rw (c, h) refl
    ]

pub find_dodag-erase_own : (i k : ℕ) (ds : Dodags) → find_dodag i k (erase_dodag i k ds) ≡ none
unfolding find_dodag erase_dodag
find_dodag-erase_own i k [] = refl
find_dodag-erase_own i k (e ∷ ds) = elim (Bool-cases (has_key i k e)) [
  | inl b ↦ rw b (find_dodag-erase_own i k ds)
  | inr b ↦ rw (b, b) (find_dodag-erase_own i k ds)
]

pub find_dodag-erase_others :
    (i k j l : ℕ) (ds : Dodags)
    → j == i && l == k ≡ false
    → find_dodag i k (erase_dodag j l ds) ≡ find_dodag i k ds
unfolding find_dodag erase_dodag
find_dodag-erase_others i k j l [] h = refl
find_dodag-erase_others i k j l (e ∷ ds) h = elim (Bool-cases (has_key j l e)) [
  | inl b ↦ elim (Bool-cases (has_key i k e)) [
    | inl c ↦ ground (arith, b, c, h)
    | inr c ↦ rw (b, c) (find_dodag-erase_others i k j l ds h)
  ]
  | inr b ↦ elim (Bool-cases (has_key i k e)) [
    | inl c ↦ rw (b, c) refl
    | inr c ↦ rw (b, c) (find_dodag-erase_others i k j l ds h)
  ]
]
