-- ===== src/Routing/SourceRoute/Roots.antt =====
-- Which of the DODAGs that a node roots has a route to a destination: FindRootDodagFor of
-- model/rpl-routing-protocol.cc.
use rpl.Base.{
  ℕ, ◌≡◌, inl, inr, refl, Bool, true, false, not, ◌&&◌, ◌||◌, Option, none, some, List, [], ◌∷◌,
  Bool-cases, ◌==◌, if◌then◌else◌, if_both,
}
use mathlib.Core.Bool.{true≢false}
use rpl.Ipv6.{Ipv6}
use rpl.Routing.{DodagMembership, Dodags, update_dodag}
use rpl.Routing.SourceRoute.{compute_source_route}
use rpl.Routing.SourceRoute.Purging.{purged}

-- The memberships after the topologies that were visited were purged, and the first that has a route.
abbrev pub Found : Type 0
Found = Dodags × Option (DodagMembership × List ℕ)

module _ (net : Ipv6) (now destination : ℕ) where
  abbrev or_else : DodagMembership → Dodags → Option (List ℕ) → Found → Found
  or_else dodag dodags none next = next
  or_else dodag dodags (some hops) next = (dodags, some (dodag, hops))

  abbrev is_key_of : DodagMembership → Option (ℕ × ℕ) → Bool
  is_key_of dodag none = false
  is_key_of dodag (some (instance_id, dodag_id)) =
      dodag.instance_id == instance_id && dodag.dodag_id == dodag_id

  -- The loop over the memberships in the list, which leaves out the base.
  unfoldable pub find_other : Option (ℕ × ℕ) → Dodags → Dodags → Found
  find_other base [] dodags = (dodags, none)
  find_other base (d ∷ ds) dodags =
      let purged_dodags = update_dodag (purged now d) dodags in
      let skipped = find_other base ds dodags in
      let next = find_other base ds purged_dodags in
      if is_key_of d base || not d.is_root
      then skipped
      else or_else (purged now d) purged_dodags
          (compute_source_route net (purged now d) now destination) next

  abbrev find_base_first : Option (ℕ × ℕ) → Option DodagMembership → Dodags → Found
  find_base_first base none dodags = find_other base dodags dodags
  find_base_first base (some d) dodags =
      let purged_dodags = update_dodag (purged now d) dodags in
      if d.is_root
      then or_else (purged now d) purged_dodags
          (compute_source_route net (purged now d) now destination)
          (find_other base purged_dodags purged_dodags)
      else find_other base dodags dodags

  -- The base's key, the base and the memberships.
  unfoldable pub find_root_dodag_for : Option (ℕ × ℕ) → Option DodagMembership → Dodags → Found
  find_root_dodag_for base held dodags = find_base_first base held dodags

  -- An answer is a root with its hops.
  abbrev pub IsRooted : Option (DodagMembership × List ℕ) → Type 0
  IsRooted none = ℕ
  IsRooted (some r) =
      (r.0.is_root ≡ true) × (compute_source_route net r.0 now destination ≡ some r.1)

  or_else-IsRooted :
      (d : DodagMembership) (ds : Dodags) (o : Option (List ℕ)) (next : Found)
      → d.is_root ≡ true
      → compute_source_route net d now destination ≡ o
      → IsRooted next.1
      → IsRooted (or_else d ds o next).1
  or_else-IsRooted d ds none next r h n = n
  or_else-IsRooted d ds (some hops) next r h n = (r, h)

  if_root :
      (is_root : Bool)
      → is_root ≡ false
      → (first second : Found) → IsRooted second.1
      → IsRooted (if is_root then first else second).1
  if_root true h first second s = absurd (true≢false h)
  if_root false h first second s = s

  skip-IsRooted :
      (is_base is_root : Bool) (skipped next : Found)
      → IsRooted skipped.1
      → (is_root ≡ true → IsRooted next.1)
      → IsRooted (if is_base || not is_root then skipped else next).1
  skip-IsRooted true is_root skipped next s n = s
  skip-IsRooted false true skipped next s n = n refl
  skip-IsRooted false false skipped next s n = s

  find_other-IsRooted :
      (base : Option (ℕ × ℕ)) (ds dodags : Dodags) → IsRooted (find_other base ds dodags).1
  unfolding find_other
  find_other-IsRooted base [] dodags = 0
  find_other-IsRooted base (d ∷ ds) dodags =
      skip-IsRooted (is_key_of d base) d.is_root _ _ (find_other-IsRooted base ds dodags)
        (λ r. or_else-IsRooted (purged now d) _ _ _ r refl (find_other-IsRooted base ds _))

  find_base_first-IsRooted :
      (base : Option (ℕ × ℕ)) (held : Option DodagMembership) (dodags : Dodags)
      → IsRooted (find_base_first base held dodags).1
  find_base_first-IsRooted base none dodags = find_other-IsRooted base dodags dodags
  find_base_first-IsRooted base (some d) dodags = elim (Bool-cases d.is_root) [
    | inl r ↦
        if_both (λ (f : Found). IsRooted f.1) d.is_root
          (or_else-IsRooted (purged now d) _ _ _ r refl (find_other-IsRooted base _ _))
          (find_other-IsRooted base dodags dodags)
    | inr r ↦ if_root d.is_root r _ _ (find_other-IsRooted base dodags dodags)
  ]

  -- What is answered is a membership whose root is this node, and the hops that it computes.
  pub find_root_dodag_for-IsRooted :
      (base : Option (ℕ × ℕ)) (held : Option DodagMembership) (dodags : Dodags)
      → IsRooted (find_root_dodag_for base held dodags).1
  unfolding find_root_dodag_for
  find_root_dodag_for-IsRooted base held dodags = find_base_first-IsRooted base held dodags
