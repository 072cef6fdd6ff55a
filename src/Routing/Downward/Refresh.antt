-- ===== src/Routing/Downward/Refresh.antt =====
-- A report that arrives twice, and routes past their lifetime.
use rpl.Base.{
  ℕ, ◌≡◌, ◌≤◌, inl, inr, refl, false, Option, none, some, List, [], ◌∷◌, arith, Option-cases,
  Bool-cases, ◌==◌,
}
use rpl.Base.Map.{Map, find, insert, erase}
use rpl.Base.Map.Laws.{find-insert, find-erase, find-keep, checked, IsSorted}
use rpl.Sequence.{equal, sequence_compare}
use rpl.Routing.{DownwardRoute, DodagMembership}
use rpl.Routing.Downward.{
  Arrival, is_stale, route_order, new_route, store_downward, purge_downward_routes,
  find_downward_route, route_is_live, unless_expired,
}

module _ {V : Type 0} where
  erase-erase : (k : ℕ) (m : List (ℕ × V)) → erase k (erase k m) ≡ erase k m
  unfolding erase
  erase-erase k [] = refl
  erase-erase k ((j, w) ∷ m) = ground (arith, erase-erase k m)

  insert-insert : (k : ℕ) (v : V) (m : List (ℕ × V)) → insert k v (insert k v m) ≡ insert k v m
  unfolding insert
  insert-insert k v [] = ground arith
  insert-insert k v ((j, w) ∷ m) = ground (arith, insert-insert k v m)

sequence_compare_refl : (s : ℕ) → sequence_compare s s ≡ equal
unfolding sequence_compare
sequence_compare_refl s = ground arith

-- A report that arrives a second time, at the same moment, leaves the downward routes as the first
-- one left them, and is never relayed again, be it an advertisement, a withdrawal or stale.
pub store_downward_twice :
    (a : Arrival) (target s l : ℕ) (m : Map DownwardRoute)
    → let once = (store_downward a target s l m).0 in
      store_downward a target s l once ≡ (once, false)
unfolding store_downward
store_downward_twice a target s l m = elim (Bool-cases (is_stale (route_order s (find target m)))) [
  | inl e ↦ ground (arith, e)
  | inr e ↦ elim (Bool-cases (l == 0)) [
    | inl z ↦ ground (arith, e, z, find-erase target target m, erase-erase target m)
    | inr z ↦
        unfold new_route in
        ground (
          arith,
          e,
          z,
          find-insert target target (new_route a s l) m,
          insert-insert target (new_route a s l) m,
          sequence_compare_refl s,
        )
  ]
]

unless_expired-checked :
    (now : ℕ) (o : Option DownwardRoute)
    → unless_expired now (checked (route_is_live now) o) ≡ unless_expired now o
unless_expired-checked now none = refl
unless_expired-checked now (some r) = ground arith

abbrev pub with_routes : DodagMembership → Map DownwardRoute → DodagMembership
with_routes dodag routes = record dodag { downward_routes = routes }

-- PurgeDownwardRoutes changes no answer of FindDownwardRoute, then or later.
pub find_downward_route-purge :
    (dodag : DodagMembership) (now later target : ℕ)
    → IsSorted dodag.downward_routes
    → now ≤ later
    → find_downward_route
        (with_routes dodag (purge_downward_routes now dodag.downward_routes))
        later
        target
      ≡ find_downward_route dodag later target
unfolding find_downward_route purge_downward_routes
find_downward_route-purge dodag now later target s h = ground (
  arith,
  find-keep (route_is_live now) target dodag.downward_routes s,
  Option-cases (find target dodag.downward_routes),
)
