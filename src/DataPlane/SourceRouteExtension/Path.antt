-- ===== src/DataPlane/SourceRouteExtension/Path.antt =====
-- The source route stays the same list of routers at every hop.
use rpl.Base.{
  ℕ, zero, suc, ◌+◌, ◌-◌, ◌%◌, ◌≤◌, ◌<◌, ◌≡◌, inl, inr, refl, ap, Bool, false, ◌||◌, some, List, [],
  ◌∷◌, ◌++◌, length, set, get_elem?, take, drop, arith, Bool-cases, Option-cases, ltb, leb, ◌==◌,
}
use mathlib.Core.Path.{subst}
use rpl.Ipv6.{Ipv6}
use rpl.Header.SourceRouting.{SourceRoutingHeader}
use rpl.DataPlane.SourceRouteExtension.{
  Fate, forwarded, sees_loop, advance, swap, swap_with, process,
}

-- How many addresses of the header have been passed.
abbrev pub passed : SourceRoutingHeader → ℕ
passed h = length h.addresses - h.segments_left

-- The routers in the order of the route: those passed, the one the packet is on its way to, and
-- those to come.
abbrev pub path : SourceRoutingHeader → ℕ → List ℕ
path h destination = take (passed h) h.addresses ++ destination ∷ drop (passed h) h.addresses

path-set :
    (i : ℕ) (xs : List ℕ) (d a : ℕ)
    → get_elem? xs i ≡ some a
    → take (suc i) (set xs i d) ++ a ∷ drop (suc i) (set xs i d) ≡ take i xs ++ d ∷ drop i xs
path-set zero [] d a h = ground arith
path-set zero (x ∷ xs) d a h = ground (arith, h)
path-set (suc i) [] d a h = ground arith
path-set (suc i) (x ∷ xs) d a h = ap (◌∷◌ x) (path-set i xs d a h)

length-set : (i : ℕ) (xs : List ℕ) (d : ℕ) → length (set xs i d) ≡ length xs
length-set i [] d = refl
length-set zero (x ∷ xs) d = refl
length-set (suc i) (x ∷ xs) d = ap suc (length-set i xs d)

-- A packet that is forwarded keeps its path.
abbrev pub KeepsPath : Ipv6 → SourceRoutingHeader → ℕ → ℕ → SourceRoutingHeader → ℕ → ℕ → Type 0
KeepsPath net h destination hop_limit h' destination' hop_limit' =
    (path h' destination' ≡ path h destination)
    × (h'.segments_left + 1 ≡ h.segments_left)
    × (length h'.addresses ≡ length h.addresses)
    × (hop_limit' + 1 ≡ hop_limit)
    × (net.is_multicast destination' ≡ false)

advance-KeepsPath :
    (net : Ipv6) (h : SourceRoutingHeader) (destination hop_limit a : ℕ)
    → 0 < h.segments_left
    → h.segments_left ≤ length h.addresses
    → get_elem? h.addresses (length h.addresses - h.segments_left) ≡ some a
    → net.is_multicast a ≡ false
    → 1 < hop_limit
    → KeepsPath net h destination hop_limit
        (advance h (length h.addresses - h.segments_left) destination)
        a
        (hop_limit - 1)
advance-KeepsPath net h destination hop_limit a pos le found single lt =
    let next : ℕ = length h.addresses - h.segments_left in
    let one_more : length (set h.addresses next destination) - (h.segments_left - 1) ≡ suc next =
      omega (arith, length-set next h.addresses destination) in
    (
      rw one_more (path-set next h.addresses destination a found),
      omega arith,
      length-set next h.addresses destination,
      omega arith,
      single,
    )

abbrev packet : SourceRoutingHeader → Fate → SourceRoutingHeader × ℕ × ℕ
packet h (forwarded h' destination' hop_limit') = (h', destination', hop_limit')
packet h _ = (h, 0, 0)

swap-KeepsPath :
    (net : Ipv6) (is_local : ℕ → Bool) (h h' : SourceRoutingHeader)
    (a destination hop_limit destination' hop_limit' : ℕ)
    → 0 < h.segments_left
    → h.segments_left ≤ length h.addresses
    → get_elem? h.addresses (length h.addresses - h.segments_left) ≡ some a
    → swap net is_local h (length h.addresses - h.segments_left) a destination hop_limit
      ≡ forwarded h' destination' hop_limit'
    → KeepsPath net h destination hop_limit h' destination' hop_limit'
unfolding swap
swap-KeepsPath net is_local h h' a destination hop_limit destination' hop_limit' pos le found e =
    let next : ℕ = length h.addresses - h.segments_left in
    elim (Bool-cases (net.is_multicast a || net.is_multicast destination)) [
      | inl m ↦ absurd (ground (arith, e, m))
      | inr m ↦
          elim (Bool-cases
            (sees_loop is_local next 0 false false (take (length h.addresses % 256) h.addresses))) [
              | inl s ↦ absurd (ground (arith, e, m, s))
              | inr s ↦ elim (Bool-cases (leb hop_limit 1)) [
                | inl l ↦ absurd (ground (arith, e, m, s, l))
                | inr l ↦
                    subst
                      (λ (r : SourceRoutingHeader × ℕ × ℕ).
                        KeepsPath net h destination hop_limit r.0 r.1 r.2)
                      (ap (packet h) {x = forwarded (advance h next destination) a (hop_limit - 1)}
                        {y = forwarded h' destination' hop_limit'} (ground (arith, e, m, s, l)))
                      (advance-KeepsPath net h destination hop_limit a pos le found
                        (ground (arith, m)) (ground (arith, l)))
              ]
            ]
    ]

-- A packet with a source route that a router forwards keeps its path: the routers passed, the one it
-- is on its way to and those to come are the same list in the same order. One segment fewer is left,
-- the Hop Limit is one lower, and the next destination is no multicast address. The header has at
-- most 255 addresses.
pub process-KeepsPath :
    (net : Ipv6) (is_local : ℕ → Bool) (h h' : SourceRoutingHeader)
    (destination hop_limit destination' hop_limit' : ℕ)
    → length h.addresses < 256
    → process net is_local h destination hop_limit ≡ forwarded h' destination' hop_limit'
    → KeepsPath net h destination hop_limit h' destination' hop_limit'
unfolding process swap_with
process-KeepsPath net is_local h h' destination hop_limit destination' hop_limit' lt e =
    let small : length h.addresses % 256 ≡ length h.addresses = omega arith in
    elim (Bool-cases (h.segments_left == 0)) [
      | inl z ↦ absurd (ground (arith, e, z))
      | inr z ↦ elim (Bool-cases (ltb (length h.addresses % 256) h.segments_left)) [
        | inl b ↦ absurd (ground (arith, e, z, b))
        | inr b ↦
            elim (Option-cases (get_elem? h.addresses (length h.addresses - h.segments_left))) [
              | inl o ↦ absurd (ground (arith, e, z, b, small, o))
              | inr (a, o) ↦
                  swap-KeepsPath net is_local h h' a destination hop_limit destination' hop_limit'
                    (ground (arith, z)) (ground (arith, b, small)) o
                    (ground (arith, e, z, b, small, o))
            ]
      ]
    ]
