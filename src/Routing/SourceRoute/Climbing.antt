-- ===== src/Routing/SourceRoute/Climbing.antt =====
-- The loop of ComputeSourceRoute against routes described without it.
use rpl.Base.{
  ℕ, zero, suc, ◌≤◌, ◌<◌, ◌≡◌, ◌≢◌, ◌↔◌, refl, sym, ap, ◌∙◌, inl, inr, true, Option, none, some,
  List, [], ◌∷◌, length, map, All, arith, Option-cases, Bool-cases, ◌==◌, ==_iff,
}
use mathlib.Core.Path.{subst}
use rpl.Base.Map.{Map, find}
use rpl.Base.Map.Keys.{Distinct, IsKey, Distinct-length}
use rpl.Ipv6.{Ipv6}
use rpl.Routing.{TopologyEntry, DodagMembership}
use rpl.Routing.SourceRoute.{
  climb, live_parent, global_chain, is_known, link_local_of, compute_source_route,
}

-- A list put onto another one back to front.
abbrev pub reverse_onto {ℓ} : {A : Type ℓ} → List A → List A → List A
reverse_onto [] ys = ys
reverse_onto (x ∷ xs) ys = reverse_onto xs (x ∷ ys)

module _ (parent : ℕ → Option ℕ) (root : ℕ) where
  -- The routers from `current` up to the one whose parent is the root.
  abbrev pub IsRoute : ℕ → List ℕ → Type 0
  IsRoute current [] = ⊥
  IsRoute current (x ∷ []) = (x ≡ current) × (parent current ≡ some root)
  IsRoute current (x ∷ y ∷ ys) =
      (x ≡ current) × ((up : ℕ) × (parent current ≡ some up) × (up ≢ root) × IsRoute up (y ∷ ys))

  extend :
      (current up : ℕ) (route : List ℕ)
      → parent current ≡ some up
      → up ≢ root
      → IsRoute up route
      → IsRoute current (current ∷ route)
  extend current up [] p ne r = elim r [ ]
  extend current up (y ∷ ys) p ne r = (refl, (up, p, ne, r))

  climb_sound :
      (rounds current : ℕ) (chain out : List ℕ)
      → climb parent root rounds current chain ≡ some out
      → (route : List ℕ) × IsRoute current route × (out ≡ reverse_onto route chain)
  unfolding climb
  climb_sound zero current chain out h = ground arith
  climb_sound (suc n) current chain out h = elim (Option-cases (parent current)) [
    | inl e ↦ ground (arith, e)
    | inr (up, e) ↦ elim (Bool-cases (up == root)) [
      | inl b ↦ (current ∷ [], (refl, e ∙ ap some ((==_iff up root).0 b)), ground (arith, e, b))
      | inr b ↦
          let (route, r, o) = climb_sound n up (current ∷ chain) out (ground (arith, e, b)) in
          (current ∷ route, extend current up route e (ground (arith, b)) r, o)
    ]
  ]

  climb_complete :
      (rounds current : ℕ) (route chain : List ℕ)
      → IsRoute current route
      → length route ≤ rounds
      → climb parent root rounds current chain ≡ some (reverse_onto route chain)
  unfolding climb
  climb_complete zero current [] chain r h = elim r [ ]
  climb_complete zero current (x ∷ xs) chain r h = ground arith
  climb_complete (suc n) current [] chain r h = elim r [ ]
  climb_complete (suc n) current (x ∷ []) chain r h = ground arith
  climb_complete (suc n) current (x ∷ y ∷ ys) chain r h =
      let (e, (up, p, ne, rest)) = r in
      ground (arith, climb_complete n up (y ∷ ys) (current ∷ chain) rest)

  IsRoute-length : (c : ℕ) (xs ys : List ℕ) → IsRoute c xs → IsRoute c ys → length xs ≡ length ys
  IsRoute-length c [] ys r s = elim r [ ]
  IsRoute-length c (x ∷ xs) [] r s = elim s [ ]
  IsRoute-length c (x ∷ []) (y ∷ []) r s = refl
  IsRoute-length c (x ∷ []) (y ∷ z ∷ zs) r s = ground arith
  IsRoute-length c (x ∷ w ∷ ws) (y ∷ []) r s = ground arith
  IsRoute-length c (x ∷ w ∷ ws) (y ∷ z ∷ zs) r s =
      let (e, (up, p, ne, rest)) = r in
      let (e2, (up2, p2, ne2, rest2)) = s in
      ground (arith, IsRoute-length up (w ∷ ws) (z ∷ zs) rest)

  -- Every router of a route has a shorter route of its own.
  abbrev Within : ℕ → ℕ → Type 0
  Within n y = (ys : List ℕ) × IsRoute y ys × (length ys ≤ n)

  IsRoute-Within : (c n : ℕ) (xs : List ℕ) → IsRoute c xs → length xs ≤ n → All (Within n) xs
  IsRoute-Within c n [] r h = tt
  IsRoute-Within c n (x ∷ []) r h = ((x ∷ [], (refl, ap parent r.0 ∙ r.1), h), tt)
  IsRoute-Within c n (x ∷ y ∷ ys) r h =
      let (e, (up, p, ne, rest)) = r in
      (
        (x ∷ y ∷ ys, (refl, (up, ap parent e ∙ p, ne, rest)), h),
        IsRoute-Within up n (y ∷ ys) rest (omega arith),
      )

  Within-differ :
      (c n : ℕ) (xs ys : List ℕ)
      → IsRoute c xs
      → n < length xs
      → All (Within n) ys
      → All (λ y. y ≢ c) ys
  Within-differ c n xs [] r h w = tt
  Within-differ c n xs (y ∷ ys) r h w =
      let ((zs, s, short), rest) = w in
      (
        (λ e. omega (arith, IsRoute-length c xs zs r (subst (λ k. IsRoute k zs) e s))),
        Within-differ c n xs ys r h rest,
      )

  IsRoute-Distinct : (c : ℕ) (xs : List ℕ) → IsRoute c xs → Distinct xs
  IsRoute-Distinct c [] r = elim r [ ]
  IsRoute-Distinct c (x ∷ []) r = (tt, tt)
  IsRoute-Distinct c (x ∷ y ∷ ys) r =
      let (e, (up, p, ne, rest)) = r in
      (
        subst (λ k. All (λ z. z ≢ k) (y ∷ ys)) (sym e)
            (Within-differ c (length (y ∷ ys)) (x ∷ y ∷ ys) (y ∷ ys) r (omega arith)
              (IsRoute-Within up (length (y ∷ ys)) (y ∷ ys) rest (omega arith))),
        IsRoute-Distinct up (y ∷ ys) rest,
      )

  -- Each router of a route has a parent.
  IsRoute-parents : (c : ℕ) (xs : List ℕ) → IsRoute c xs → All (λ x. parent x ≢ none) xs
  IsRoute-parents c [] r = tt
  IsRoute-parents c (x ∷ []) r = ground (arith, ap parent r.0 ∙ r.1)
  IsRoute-parents c (x ∷ y ∷ ys) r =
      let (e, (up, p, ne, rest)) = r in
      ground (arith, ap parent e ∙ p, IsRoute-parents up (y ∷ ys) rest)

live_parent-keys :
    (now : ℕ) (m : Map TopologyEntry) (xs : List ℕ)
    → All (λ x. live_parent now m x ≢ none) xs
    → All (IsKey m) xs
unfolding live_parent
live_parent-keys now m [] h = tt
live_parent-keys now m (x ∷ xs) h = ground (arith, live_parent-keys now m xs h.1)

-- The routers of a route are at most as many as the entries of the topology.
route_bound :
    (now root c : ℕ) (m : Map TopologyEntry) (xs : List ℕ)
    → IsRoute (live_parent now m) root c xs
    → length xs ≤ length m
route_bound now root c m xs r =
    Distinct-length xs m (IsRoute-Distinct (live_parent now m) root c xs r)
      (live_parent-keys now m xs (IsRoute-parents (live_parent now m) root c xs r))

abbrev pub HasRoute : DodagMembership → ℕ → ℕ → List ℕ → Type 0
HasRoute dodag now destination chain =
    (route : List ℕ) × IsRoute (live_parent now dodag.topology) dodag.dodag_id destination route
    × (chain ≡ reverse_onto route [])

IsRoute-is_known :
    (now root c : ℕ) (m : Map TopologyEntry) (xs : List ℕ)
    → IsRoute (live_parent now m) root c xs
    → is_known (find c m) ≡ true
unfolding live_parent
IsRoute-is_known now root c m [] r = elim r [ ]
IsRoute-is_known now root c m (x ∷ []) r = ground arith
IsRoute-is_known now root c m (x ∷ y ∷ ys) r = let (e, (up, p, ne, rest)) = r in ground (arith, p)

-- At the root of a DODAG the loop answers a chain exactly when the live entries of the topology lead
-- from the destination to the root, and then that chain, the root's child first: the bound on its
-- rounds never cuts a route off.
pub global_chain_iff :
    (dodag : DodagMembership) (now destination : ℕ) (chain : List ℕ)
    → dodag.is_root ≡ true
    → (global_chain dodag now destination ≡ some chain) ↔ HasRoute dodag now destination chain
unfolding global_chain
global_chain_iff dodag now destination chain root = (
  (λ h.
      climb_sound (live_parent now dodag.topology) dodag.dodag_id (suc (length dodag.topology))
        destination [] chain (ground (arith, h, root))),
  λ h.
      let (route, r, o) = h in
      let known = IsRoute-is_known now dodag.dodag_id destination dodag.topology route r in
      let found =
        climb_complete (live_parent now dodag.topology) dodag.dodag_id (suc (length dodag.topology))
          destination route [] r
          (omega (arith, route_bound now dodag.dodag_id destination dodag.topology route r)) in
      ground (arith, root, known, found, o),
)

global_chain_root :
    (dodag : DodagMembership) (now destination : ℕ) (chain : List ℕ)
    → global_chain dodag now destination ≡ some chain
    → dodag.is_root ≡ true
unfolding global_chain
global_chain_root dodag now destination chain h = ground (arith, Bool-cases dodag.is_root)

-- ComputeSourceRoute answers hops exactly at a root from whose topology live entries lead from the
-- destination up to the root, and then the hops are the link-local addresses of the routers of that
-- route, the root's child first and the destination last. The bound on the loop's rounds never cuts
-- a route off, and reported parents that run in a circle or into a missing or expired entry answer
-- no hops.
pub compute_source_route_correct :
    (net : Ipv6) (dodag : DodagMembership) (now destination : ℕ) (hops : List ℕ)
    → (compute_source_route net dodag now destination ≡ some hops) ↔ (
        (dodag.is_root ≡ true)
        × ((chain : List ℕ) × HasRoute dodag now destination chain
            × (hops ≡ map (link_local_of net) chain)))
unfolding compute_source_route
compute_source_route_correct net dodag now destination hops = (
  (λ h. elim (Option-cases (global_chain dodag now destination)) [
    | inl e ↦ ground (arith, h, e)
    | inr (chain, e) ↦
        let root = global_chain_root dodag now destination chain e in
        (
          root,
          (chain, (global_chain_iff dodag now destination chain root).0 e, ground (arith, h, e)),
        )
  ]),
  λ h.
      let (root, (chain, route, o)) = h in
      ground (arith, (global_chain_iff dodag now destination chain root).1 route, o),
)
