-- ===== src/Routing/HopByHop/Guards.antt =====
-- What an offered Hop-by-hop Route changes.
use rpl.Base.{
  ℕ, ◌+◌, ◌≤◌, ◌<◌, ◌≡◌, ◌≢◌, ◌⊎◌, inl, inr, refl, Bool, true, false, Option, none, some, arith,
  Bool-cases, sym,
}
use mathlib.Core.Path.{subst}
use rpl.Base.Map.{Map, find}
use rpl.Base.Map.Laws.{find-insert}
use rpl.Sequence.{sequence_newer}
use rpl.Routing.Lookup.{some-inj}
use rpl.Routing.HopByHop.{
  HopByHopRoute, Offer, is_of, conflicts, is_refused, new_route, find_discovered_route,
  store_hop_by_hop_route,
}

-- A route that has not expired, of the discovery that the offer is of.
abbrev pub IsRival : ℕ → Offer → HopByHopRoute → Type 0
IsRival now offer held =
    (now < held.expire) × (held.instance_id ≡ offer.instance_id) × (held.dodag_id ≡ offer.dodag_id)

-- Without a sequence number in the offer, another next hop stands against it. With one, a newer number
-- does, and so does the same number with another next hop, if the offer pins the next hop.
abbrev pub Prevails : Offer → Option ℕ → HopByHopRoute → Type 0
Prevails offer none held = held.next_hop ≢ offer.next_hop
Prevails offer (some s) held =
    (sequence_newer held.seq_no s ≡ true)
    ⊎ ((offer.pin_next_hop ≡ true) × (held.seq_no ≡ s) × (held.next_hop ≢ offer.next_hop))

-- The held route, if there is one, that refuses the offer.
abbrev pub Refuses : ℕ → Offer → Option HopByHopRoute → Type 0
Refuses now offer held =
    (r : HopByHopRoute) × (held ≡ some r) × IsRival now offer r × Prevails offer offer.seq_no r

abbrev pub IsNumbered : Option ℕ → ℕ → Type 0
IsNumbered none n = n ≡ 0
IsNumbered (some s) n = n ≡ s

-- The route that an offer makes.
abbrev pub IsOffered : ℕ → Offer → HopByHopRoute → Type 0
IsOffered now offer r =
    (r.instance_id ≡ offer.instance_id)
    × (r.dodag_id ≡ offer.dodag_id)
    × (r.next_hop ≡ offer.next_hop)
    × (r.expire ≡ now + offer.lifetime)
    × IsNumbered offer.seq_no r.seq_no

-- That route is found from then on for its discovery and destination, until its lifetime is over.
abbrev pub IsFound : ℕ → Offer → Map HopByHopRoute → Type 0
IsFound now offer routes =
    (r : HopByHopRoute) × IsOffered now offer r
    × ((later : ℕ)
        → ((later < now + offer.lifetime)
            → find_discovered_route later offer.instance_id offer.dodag_id offer.destination routes
              ≡ some r)
          × ((now + offer.lifetime ≤ later)
              → find_discovered_route later offer.instance_id offer.dodag_id offer.destination
                  routes
                ≡ none))

-- Refused with no change, or taken, found, and nothing else changed.
abbrev pub IsSettled : ℕ → Offer → Map HopByHopRoute → Map HopByHopRoute → Bool → Type 0
IsSettled now offer routes after taken =
    (Refuses now offer (find offer.destination routes) × (taken ≡ false) × (after ≡ routes))
    ⊎ ((¬ Refuses now offer (find offer.destination routes))
        × (taken ≡ true)
        × IsFound now offer after
        × ((other : ℕ) → offer.destination ≢ other → find other after ≡ find other routes))

new_route-IsOffered : (now : ℕ) (offer : Offer) → IsOffered now offer (new_route now offer)
unfolding new_route
new_route-IsOffered now offer = (refl, refl, refl, refl, numbered offer.seq_no)
  where
    numbered : (s : Option ℕ) → IsNumbered s (elim s [ none ↦ 0 | some n ↦ n ])
    numbered none = refl
    numbered (some n) = refl

-- The tests of the code against what they stand for.
conflicts-Prevails :
    (offer : Offer) (seq_no : Option ℕ) (r : HopByHopRoute)
    → (conflicts offer seq_no r ≡ true → Prevails offer seq_no r)
      × (conflicts offer seq_no r ≡ false → ¬ Prevails offer seq_no r)
conflicts-Prevails offer none r = (λ h p. ground (arith, h, p), λ h p. ground (arith, h, p))
conflicts-Prevails offer (some s) r = (
  λ h. elim (Bool-cases (sequence_newer r.seq_no s)) [
    | inl n ↦ inl n
    | inr n ↦ inr (ground (arith, h, n), ground (arith, h, n), λ p. ground (arith, h, n, p))
  ],
  λ h p. elim p [
    | inl n ↦ ground (arith, h, n)
    | inr (pins, same, hop) ↦ hop (ground (arith, h, pins, same))
  ],
)

is_of-IsRival :
    (now : ℕ) (offer : Offer) (r : HopByHopRoute)
    → (is_of now offer.instance_id offer.dodag_id r ≡ true → IsRival now offer r)
      × (IsRival now offer r → is_of now offer.instance_id offer.dodag_id r ≡ true)
is_of-IsRival now offer r =
    (λ h. (ground (arith, h), ground (arith, h), ground (arith, h)), λ h. ground (arith, h))

is_refused-Refuses :
    (now : ℕ) (offer : Offer) (held : Option HopByHopRoute)
    → (is_refused now offer held ≡ true → Refuses now offer held)
      × (is_refused now offer held ≡ false → ¬ Refuses now offer held)
is_refused-Refuses now offer none =
    (λ h. absurd (ground (arith, h)), λ h (r, e, rival, p). absurd (ground (arith, e)))
is_refused-Refuses now offer (some r) =
    let rival = (is_of-IsRival now offer r).0 in
    let prevails = (conflicts-Prevails offer offer.seq_no r).0 in
    (
      λ h. (r, refl, rival (ground (arith, h)), prevails (ground (arith, h))),
      λ h (q, e, k, p).
          refute h (subst (IsRival now offer) (sym (some-inj e)) k)
            (subst (Prevails offer offer.seq_no) (sym (some-inj e)) p),
    )
  where
    refute :
        is_refused now offer (some r) ≡ false
        → IsRival now offer r
        → ¬ Prevails offer offer.seq_no r
    refute h k p =
        (conflicts-Prevails offer offer.seq_no r).1
          (ground (arith, h, (is_of-IsRival now offer r).1 k)) p

-- An offer is refused exactly when the route held for its destination has not expired, is of the same
-- discovery, and prevails: with no sequence number offered, by having another next hop; with one, by
-- having a newer number, or the same number and another next hop where the offer pins it. Refused, it
-- changes no route. Taken, a route with the instance, DODAGID, next hop and number of the offer is found
-- for the destination until the lifetime of the offer is over and not from then on, and the routes to
-- other destinations stand as they were.
pub store_hop_by_hop_route-IsSettled :
    (now : ℕ) (offer : Offer) (routes : Map HopByHopRoute)
    → let (after, taken) = store_hop_by_hop_route now offer routes in
      IsSettled now offer routes after taken
unfolding store_hop_by_hop_route find_discovered_route new_route
store_hop_by_hop_route-IsSettled now offer routes =
    let held = find offer.destination routes in
    let new = new_route now offer in
    let (refuses, takes) = is_refused-Refuses now offer held in
    elim (Bool-cases (is_refused now offer held)) [
      | inl e ↦ inl (rw e (refuses e, refl, refl))
      | inr e ↦ rw e (
          inr (
            takes e,
            refl,
            (
              new,
              new_route-IsOffered now offer,
              λ later. (
                λ lt. ground (arith, find-insert offer.destination offer.destination new routes),
                λ le. ground (arith, find-insert offer.destination offer.destination new routes),
              ),
            ),
            λ other ne. ground (arith, find-insert offer.destination other new routes),
          ))
    ]
