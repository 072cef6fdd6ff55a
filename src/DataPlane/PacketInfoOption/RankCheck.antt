-- ===== src/DataPlane/PacketInfoOption/RankCheck.antt =====
-- The rank consistency check of RFC 6550 section 11.2.2.2.
use rpl.Base.{
  ℕ, ◌<◌, ◌≤◌, ◌≡◌, ◌≢◌, ◌⊎◌, inl, inr, refl, ◌∙◌, Bool, true, false, Option, none, some, [], ◌∷◌,
  arith, Bool-cases,
}
use rpl.Header.PacketInfo.{
  PacketInfoHeader, get_down, set_rank_error, get_rank_error, get_forwarding_error,
}
use rpl.Header.PacketInfo.Flags.{flags_independent}
use rpl.Trickle.{reset}
use rpl.Routing.{DodagMembership, Dodags, lower_bound, find_dodag, find_dodag_by_instance}
use rpl.Routing.Lookup.{update_dodag-own, update_dodag-others}
use rpl.DataPlane.PacketInfoOption.{
  Protocol, get_rank_for_instance, is_inconsistent, set_sender_rank, notify_rank_inconsistency,
  check_rank,
}

set_sender_rank-flags :
    (rank : ℕ) (rpi : PacketInfoHeader)
    → (get_down (set_sender_rank rank rpi) ≡ get_down rpi)
      × (get_rank_error (set_sender_rank rank rpi) ≡ get_rank_error rpi)
      × (get_forwarding_error (set_sender_rank rank rpi) ≡ get_forwarding_error rpi)
unfolding get_down get_rank_error get_forwarding_error
set_sender_rank-flags rank rpi = (refl, refl, refl)

-- The rank that a node has in what it found for an instance: infinite, 0xFFFF, where it is in none.
abbrev pub IsRank : Option DodagMembership → ℕ → Type 0
IsRank none own = own ≡ 65535
IsRank (some d) own = own ≡ d.rank

-- A packet going down comes from a node that is no closer to the root, or one going up from a node that
-- is no further from it.
abbrev pub Inconsistent : PacketInfoHeader → ℕ → Type 0
Inconsistent rpi own =
    ((get_down rpi ≡ true) × (own ≤ rpi.sender_rank))
    ⊎ ((get_down rpi ≡ false) × (rpi.sender_rank ≤ own))

abbrev pub Consistent : PacketInfoHeader → ℕ → Type 0
Consistent rpi own =
    ((get_down rpi ≡ true) × (rpi.sender_rank < own))
    ⊎ ((get_down rpi ≡ false) × (own < rpi.sender_rank))

-- The Trickle timer of a membership was reset, and no other membership changed.
abbrev pub IsReset : (ℕ → ℕ → ℕ) → Option DodagMembership → Dodags → Dodags → Type 0
IsReset draw none before after = after ≡ before
IsReset draw (some d) before after =
    (find_dodag d.instance_id d.dodag_id after
      ≡ some (record d { dio_trickle = reset draw d.dio_trickle }))
    × ((i k : ℕ)
        → (i ≢ d.instance_id) ⊎ (k ≢ d.dodag_id)
        → find_dodag i k after ≡ find_dodag i k before)

-- What the check makes of an option and of the protocol's state.
abbrev pub IsChecked :
    (ℕ → ℕ → ℕ) → Protocol → PacketInfoHeader → Protocol → PacketInfoHeader → Bool → Type 0
IsChecked draw rpl rpi after out is_dropped =
    let own = find_dodag_by_instance rpi.instance_id rpl.dodags in
    (IsRank own out.sender_rank
      × (get_down out ≡ get_down rpi)
      × (get_forwarding_error out ≡ get_forwarding_error rpi))
    × ((Consistent rpi out.sender_rank
          × (is_dropped ≡ false)
          × (get_rank_error out ≡ get_rank_error rpi)
          × (after ≡ rpl))
        ⊎ ((Inconsistent rpi out.sender_rank
              × (get_rank_error rpi ≡ false)
              × (is_dropped ≡ false)
              × (get_rank_error out ≡ true)
              × (after ≡ rpl))
            ⊎ (Inconsistent rpi out.sender_rank
                × (get_rank_error rpi ≡ true)
                × (is_dropped ≡ true)
                × (get_rank_error out ≡ true)
                × (after.hop_by_hop_routes ≡ rpl.hop_by_hop_routes)
                × IsReset draw own rpl.dodags after.dodags)))

-- A membership found by its instance is the one found by its key: those before it are of lower keys.
find_dodag_by_instance-key :
    (i : ℕ) (ds : Dodags) (d : DodagMembership)
    → find_dodag_by_instance i ds ≡ some d
    → find_dodag d.instance_id d.dodag_id ds ≡ some d
unfolding find_dodag find_dodag_by_instance lower_bound
find_dodag_by_instance-key i [] d h = absurd (ground arith)
find_dodag_by_instance-key i (e ∷ ds) d h = ground (arith, find_dodag_by_instance-key i ds d)

notify_rank_inconsistency-IsReset :
    (draw : ℕ → ℕ → ℕ) (i : ℕ) (ds : Dodags) (o : Option DodagMembership)
    → find_dodag_by_instance i ds ≡ o
    → IsReset draw o ds (notify_rank_inconsistency draw i ds)
unfolding notify_rank_inconsistency
notify_rank_inconsistency-IsReset draw i ds none h = rw h refl
notify_rank_inconsistency-IsReset draw i ds (some d) h =
    let new : DodagMembership = record d { dio_trickle = reset draw d.dio_trickle } in
    rw h (
      update_dodag-own new d ds (find_dodag_by_instance-key i ds d h),
      λ j k ne. update_dodag-others j k new ds (ground arith),
    )

get_rank_for_instance-IsRank :
    (i : ℕ) (ds : Dodags) (o : Option DodagMembership)
    → find_dodag_by_instance i ds ≡ o
    → IsRank o (get_rank_for_instance i ds)
unfolding get_rank_for_instance
get_rank_for_instance-IsRank i ds none h = rw h refl
get_rank_for_instance-IsRank i ds (some d) h = rw h refl

is_inconsistent-Inconsistent :
    (rpi : PacketInfoHeader) (own : ℕ) → is_inconsistent rpi own ≡ true → Inconsistent rpi own
is_inconsistent-Inconsistent rpi own h = elim (Bool-cases (get_down rpi)) [
  | inl down ↦ inl (down, ground (arith, down, h))
  | inr up ↦ inr (up, ground (arith, up, h))
]

is_inconsistent-Consistent :
    (rpi : PacketInfoHeader) (own : ℕ) → is_inconsistent rpi own ≡ false → Consistent rpi own
is_inconsistent-Consistent rpi own h = elim (Bool-cases (get_down rpi)) [
  | inl down ↦ inl (down, ground (arith, down, h))
  | inr up ↦ inr (up, ground (arith, up, h))
]

-- The check compares this node's rank in the instance, which is infinite if it has no DODAG of it, with
-- that of the sender, and writes it over the latter. Where a packet going down comes from a rank lower
-- than that, or one going up from a higher one, nothing else changes. Else, if the Rank-Error bit was
-- not set, it is set, and the node's state is as it was; and if it was set already, the packet is
-- reported as dropped, the Trickle timer of the node's DODAG of the instance is reset, and no other
-- membership changes. The other two flags are as they were.
pub check_rank-IsChecked :
    (draw : ℕ → ℕ → ℕ) (rpl : Protocol) (rpi : PacketInfoHeader)
    → rpi.flags < 256
    → let (after, out, is_dropped) = check_rank draw rpl rpi in
      IsChecked draw rpl rpi after out is_dropped
unfolding check_rank
check_rank-IsChecked draw rpl rpi lt =
    let own = get_rank_for_instance rpi.instance_id rpl.dodags in
    let (keeps, sets, other) = flags_independent rpi true lt in
    let (e1, e2, e3, e4) = sets in
    let (f1, f2, f3) = set_sender_rank-flags own rpi in
    let (g1, g2, g3) = set_sender_rank-flags own (set_rank_error true rpi) in
    let rank = get_rank_for_instance-IsRank rpi.instance_id rpl.dodags _ refl in
    elim (Bool-cases (is_inconsistent rpi own)) [
      | inl i ↦ elim (Bool-cases (get_rank_error rpi)) [
        | inl r ↦
            rw (i, r)
              (
                (rank, f1, f3),
                inr (
                    inr (
                      is_inconsistent-Inconsistent rpi own i,
                      refl,
                      refl,
                      f2 ∙ r,
                      refl,
                      notify_rank_inconsistency-IsReset draw rpi.instance_id rpl.dodags _ refl,
                    )),
              )
        | inr r ↦
            rw (i, r)
              (
                (rank, g1 ∙ e2, g3 ∙ e3),
                inr (inl (is_inconsistent-Inconsistent rpi own i, refl, refl, g2 ∙ e1, refl)),
              )
      ]
      | inr i ↦ rw i ((rank, f1, f3), inl (is_inconsistent-Consistent rpi own i, refl, f2, refl))
    ]
