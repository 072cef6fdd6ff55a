-- ===== src/Routing/Lookup.antt =====
-- Looking up a membership by its key after the map of memberships changed.
use rpl.Base.{
  Option, ℕ, ◌≡◌, inl, inr, refl, ap, Bool, false, ◌&&◌, none, some, [], ◌∷◌, arith, Bool-cases,
  ◌==◌,
}
use mathlib.Core.Path.{subst}
use rpl.Routing.{DodagMembership, Dodags, find_dodag, update_dodag}

pub some-inj : {A : Type 0} {a b : A} → some a ≡ some b → a ≡ b
some-inj {a = a} h = ap (λ o. elim o [ none ↦ a | some x ↦ x ]) h

abbrev pub has_key : ℕ → ℕ → DodagMembership → Bool
has_key i k d = d.instance_id == i && d.dodag_id == k

pub update_dodag-others :
    (i k : ℕ) (new : DodagMembership) (ds : Dodags)
    → has_key i k new ≡ false
    → find_dodag i k (update_dodag new ds) ≡ find_dodag i k ds
unfolding find_dodag update_dodag
update_dodag-others i k new [] h = refl
update_dodag-others i k new (e ∷ ds) h =
    elim (Bool-cases (has_key new.instance_id new.dodag_id e)) [
      | inl b ↦ ground (arith, b, h, update_dodag-others i k new ds h)
      | inr b ↦ ground (arith, b, h, update_dodag-others i k new ds h)
    ]

pub update_dodag-own :
    (new d : DodagMembership) (ds : Dodags)
    → find_dodag new.instance_id new.dodag_id ds ≡ some d
    → find_dodag new.instance_id new.dodag_id (update_dodag new ds) ≡ some new
unfolding find_dodag update_dodag
update_dodag-own new d [] h = ground arith
update_dodag-own new d (e ∷ ds) h = elim (Bool-cases (has_key new.instance_id new.dodag_id e)) [
  | inl b ↦ ground (arith, b)
  | inr b ↦ ground (arith, b, h, update_dodag-own new d ds)
]

pub find_dodag-has_key :
    (i k : ℕ) (ds : Dodags) (d : DodagMembership)
    → find_dodag i k ds ≡ some d
    → (d.instance_id ≡ i) × (d.dodag_id ≡ k)
unfolding find_dodag
find_dodag-has_key i k [] d h = ground arith
find_dodag-has_key i k (e ∷ ds) d h = elim (Bool-cases (has_key i k e)) [
  | inl b ↦
      subst (λ (x : DodagMembership). (x.instance_id ≡ i) × (x.dodag_id ≡ k)) {x = e} {y = d}
        (some-inj (ground (arith, b, h))) (ground (arith, b))
  | inr b ↦ find_dodag-has_key i k ds d (ground (arith, b, h))
]

pub absent_update :
    (i k : ℕ) (new : DodagMembership) (ds : Dodags)
    → find_dodag i k ds ≡ none
    → find_dodag i k (update_dodag new ds) ≡ none
unfolding find_dodag update_dodag
absent_update i k new [] h = refl
absent_update i k new (e ∷ ds) h = elim (Bool-cases (has_key i k e)) [
  | inl c ↦ ground (arith, c, h)
  | inr c ↦ elim (Bool-cases (has_key new.instance_id new.dodag_id e)) [
    | inl b ↦ rw b (ground (arith, b, c, absent_update i k new ds (ground (arith, c, h))))
    | inr b ↦ rw (b, c) (absent_update i k new ds (ground (arith, c, h)))
  ]
]

abbrev pub replaced : DodagMembership → Option DodagMembership → Option DodagMembership
replaced new none = none
replaced new (some d) = some new

pub update_dodag-found :
    (new : DodagMembership) (ds : Dodags) (o : Option DodagMembership)
    → find_dodag new.instance_id new.dodag_id ds ≡ o
    → find_dodag new.instance_id new.dodag_id (update_dodag new ds) ≡ replaced new o
update_dodag-found new ds none h = absent_update new.instance_id new.dodag_id new ds h
update_dodag-found new ds (some d) h = update_dodag-own new d ds h
