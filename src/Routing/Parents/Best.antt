-- ===== src/Routing/Parents/Best.antt =====
-- No eligible neighbour is better than the parent chosen.
use rpl.Base.{
  ℕ, ◌+◌, ◌≤◌, ◌≡◌, ◌≢◌, inl, inr, refl, Bool, true, false, not, ◌&&◌, [], ◌∷◌, All, Option, none,
  some, arith, Bool-cases, ltb,
}
use rpl.Base.Map.{Map, find}
use rpl.Ipv6.{any, is_any}
use rpl.Routing.{Parent, DodagMembership}
use rpl.Routing.Parents.{
  Choice, no_choice, is_mrhof, path_cost_via_parent, rank_via_parent, is_eligible, is_better,
  consider, pass, two_passes, any_fresh, parent_switch_threshold, keep_current, hysteresis,
  choose_parent, current_rank,
}

-- A parent was chosen, and it is no worse than `p`: by the rank under OF0, by the path cost under
-- MRHOF, give or take `slack`.
abbrev pub Beats : DodagMembership → ℕ → Choice → Parent → Type 0
Beats dodag slack choice p =
    (is_any choice.best ≡ false)
    × (is_mrhof dodag ≡ false → choice.best_rank ≤ rank_via_parent dodag p)
    × (is_mrhof dodag ≡ true → choice.best_path_cost ≤ path_cost_via_parent p + slack)

consider_self :
    (dodag : DodagMembership) (bound : ℕ) (fresh : Bool) (address : ℕ) (p : Parent)
    (choice : Choice)
    → address ≢ any
    → is_eligible dodag bound fresh p ≡ true
    → Beats dodag 0 (consider dodag bound fresh address p choice) p
unfolding consider
consider_self dodag bound fresh address p choice real eligible =
    elim (Bool-cases (is_better dodag choice address p)) [
      | inl b ↦ rw (eligible, b) (ground arith, (λ m. ground arith), λ m. rw m (ground arith))
      | inr b ↦
          rw (eligible, b)
            (ground (arith, b), (λ m. ground (arith, b, m)), λ m. ground (arith, b, m))
    ]

consider_other :
    (dodag : DodagMembership) (bound : ℕ) (fresh : Bool) (address : ℕ) (p q : Parent)
    (choice : Choice)
    → address ≢ any
    → Beats dodag 0 choice q
    → Beats dodag 0 (consider dodag bound fresh address p choice) q
unfolding consider
consider_other dodag bound fresh address p q choice real (chosen, ranks, costs) =
    elim (Bool-cases (is_eligible dodag bound fresh p && is_better dodag choice address p)) [
      | inl b ↦ rw b (
        ground arith,
        (λ m. ground (arith, b, m, ranks m, chosen)),
        λ m. rw m (ground (arith, b, m, costs m, chosen)),
      )
      | inr b ↦ rw b (chosen, ranks, costs)
    ]

pass_other :
    (dodag : DodagMembership) (bound : ℕ) (fresh : Bool) (es : Map Parent) (q : Parent)
    (choice : Choice)
    → All (λ (e : ℕ × Parent). e.0 ≢ any) es
    → Beats dodag 0 choice q
    → Beats dodag 0 (pass dodag bound fresh es choice) q
unfolding pass
pass_other dodag bound fresh [] q choice real beats = beats
pass_other dodag bound fresh ((address, p) ∷ es) q choice real beats =
    pass_other dodag bound fresh es q _ real.1
      (consider_other dodag bound fresh address p q choice real.0 beats)

-- What every eligible one of some neighbours has against it.
abbrev AllBeaten : DodagMembership → ℕ → Bool → ℕ → Choice → Map Parent → Type 0
AllBeaten dodag bound fresh slack choice es =
    All
      (λ (e : ℕ × Parent). is_eligible dodag bound fresh e.1 ≡ true → Beats dodag slack choice e.1)
      es

pass-AllBeaten :
    (dodag : DodagMembership) (bound : ℕ) (fresh : Bool) (es : Map Parent) (choice : Choice)
    → All (λ (e : ℕ × Parent). e.0 ≢ any) es
    → AllBeaten dodag bound fresh 0 (pass dodag bound fresh es choice) es
unfolding pass
pass-AllBeaten dodag bound fresh [] choice real = tt
pass-AllBeaten dodag bound fresh ((address, p) ∷ es) choice real = (
  (λ eligible.
      pass_other dodag bound fresh es p _ real.1
        (consider_self dodag bound fresh address p choice real.0 eligible)),
  pass-AllBeaten dodag bound fresh es _ real.1,
)

two_passes-AllBeaten :
    (dodag : DodagMembership) (bound : ℕ)
    → All (λ (e : ℕ × Parent). e.0 ≢ any) dodag.parents
    → let (choice, fresh) = two_passes dodag bound in
      AllBeaten dodag bound fresh 0 choice dodag.parents
unfolding two_passes
two_passes-AllBeaten dodag bound real =
    let fresh = any_fresh dodag.parents in
    let first = pass dodag bound fresh dodag.parents no_choice in
    elim (Bool-cases (is_any first.best)) [
      | inl e ↦ rw e (pass-AllBeaten dodag bound false dodag.parents first real)
      | inr e ↦ rw e (pass-AllBeaten dodag bound fresh dodag.parents no_choice real)
    ]

loosen :
    (dodag : DodagMembership) (choice : Choice) (p : Parent)
    → Beats dodag 0 choice p
    → Beats dodag parent_switch_threshold choice p
loosen dodag choice p (chosen, ranks, costs) = (chosen, ranks, λ m. omega (arith, costs m))

hysteresis_keeps :
    (dodag : DodagMembership) (bound : ℕ) (fresh : Bool) (o : Option Parent) (choice : Choice)
    (q : Parent)
    → (is_any dodag.preferred_parent ≡ true → o ≡ none)
    → is_mrhof dodag ≡ true
    → Beats dodag 0 choice q
    → Beats dodag parent_switch_threshold (keep_current dodag bound fresh o choice) q
unfolding keep_current
hysteresis_keeps dodag bound fresh none choice q real m beats = loosen dodag choice q beats
hysteresis_keeps dodag bound fresh (some current) choice q real m (chosen, ranks, costs) =
    elim (Bool-cases (
      is_eligible dodag bound fresh current
      && ltb (path_cost_via_parent current) (choice.best_path_cost + parent_switch_threshold))) [
        | inl b ↦ rw b (
          elim (Bool-cases (is_any dodag.preferred_parent)) [
            | inl n ↦ absurd (ground (arith, real n))
            | inr n ↦ n
          ],
          (λ n. absurd (ground (arith, m, n))),
          λ n. rw m (ground (arith, b, costs m)),
        )
        | inr b ↦ rw b (loosen dodag choice q (chosen, ranks, costs))
      ]

hysteresis-Beats :
    (dodag : DodagMembership) (bound : ℕ) (found : Choice × Bool) (q : Parent)
    → (is_any dodag.preferred_parent ≡ true → find dodag.preferred_parent dodag.parents ≡ none)
    → Beats dodag 0 found.0 q
    → Beats dodag parent_switch_threshold (hysteresis dodag bound found) q
unfolding hysteresis
hysteresis-Beats dodag bound (choice, fresh) q real beats =
    elim (Bool-cases (is_mrhof dodag && not (is_any choice.best))) [
      | inl m ↦ rw m (
          hysteresis_keeps dodag bound fresh (find dodag.preferred_parent dodag.parents) choice q
            real (ground (arith, m)) beats)
      | inr m ↦ rw m (loosen dodag choice q beats)
    ]

find-any :
    (k : ℕ) (m : Map Parent)
    → All (λ (e : ℕ × Parent). e.0 ≢ any) m
    → is_any k ≡ true
    → find k m ≡ none
unfolding find
find-any k [] real h = refl
find-any k ((j, p) ∷ m) real h = ground (arith, find-any k m real.1 h)

AllBeaten-map :
    (dodag : DodagMembership) (bound : ℕ) (fresh : Bool) (slack : ℕ) (before after : Choice)
    (es : Map Parent)
    → ((q : Parent) → Beats dodag 0 before q → Beats dodag slack after q)
    → AllBeaten dodag bound fresh 0 before es
    → AllBeaten dodag bound fresh slack after es
AllBeaten-map dodag bound fresh slack before after [] f all = tt
AllBeaten-map dodag bound fresh slack before after (e ∷ es) f all =
    ((λ h. f e.1 (all.0 h)), AllBeaten-map dodag bound fresh slack before after es f all.1)

-- If any neighbour is eligible, held to the demands of the last pass, then a parent is chosen, and no
-- eligible neighbour is better: none has a lower rank through it under OF0, and under MRHOF none has
-- a path cost lower by more than PARENT_SWITCH_THRESHOLD. No neighbour has the unspecified address.
pub choose_parent_best :
    (dodag : DodagMembership)
    → All (λ (e : ℕ × Parent). e.0 ≢ any) dodag.parents
    → let bound = current_rank dodag in
      let fresh = (two_passes dodag bound).1 in
      All
        (λ (e : ℕ × Parent).
          is_eligible dodag bound fresh e.1 ≡ true
          → Beats dodag parent_switch_threshold (choose_parent dodag) e.1)
        dodag.parents
unfolding choose_parent
choose_parent_best dodag real =
    let bound = current_rank dodag in
    let found = two_passes dodag bound in
    AllBeaten-map dodag bound found.1 parent_switch_threshold found.0 (hysteresis dodag bound found)
      dodag.parents
      (λ q.
        hysteresis-Beats dodag bound found q (find-any dodag.preferred_parent dodag.parents real))
      (two_passes-AllBeaten dodag bound real)
