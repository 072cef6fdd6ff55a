-- ===== src/Routing/Membership/Retention.antt =====
-- What a node remembers of a DODAG that it left: its Path Sequence and, for a while, its lowest rank.
use rpl.Base.{
  ℕ, suc, length-append, ◌+◌, ◌*◌, ◌^◌, min, ◌≡◌, ◌≢◌, ◌≤◌, ◌<◌, inl, inr, refl, ap, sym, ◌∙◌, Bool,
  true, false, ◌&&◌, Option, some, List, [], ◌∷◌, ◌++◌, length, arith, Bool-cases, ltb, ◌==◌,
  if_both,
}
use rpl.Header.Dio.{DioHeader}
use rpl.Routing.{DodagMembership, find_dodag, infinite_rank, mop_p2p_route_discovery}
use rpl.Routing.Lookup.{find_dodag-has_key}
use rpl.Routing.Membership.{
  RetainedRank, retained_versions, Memberships, new_membership, or_default, retained_lowest,
  configure, take_prefix, joined,
}
use rpl.Routing.Membership.Leaving.{
  is_base, keep_others, cap_records, record_of, remember, retire, leave_held, leave_found,
  leave_dodag,
}

abbrev Kept : Type 0
Kept = ℕ × ℕ

abbrev kept : DodagMembership → Kept
kept d = (d.path_sequence, d.lowest_rank_this_version)

configure-kept : (dio : DioHeader) (d : DodagMembership) → kept (configure dio d) ≡ kept d
unfolding configure
configure-kept dio d =
    if_both (λ (e : DodagMembership). kept e ≡ kept d) dio.has_dag_conf refl
      (if_both (λ (e : DodagMembership). kept e ≡ kept d) dio.has_p2p_rdo refl refl)

take_prefix-kept : (dio : DioHeader) (d : DodagMembership) → kept (take_prefix dio d) ≡ kept d
unfolding take_prefix
take_prefix-kept dio d =
    if_both (λ (e : DodagMembership). kept e ≡ kept d) dio.has_prefix_info refl refl

-- The last record that binds decides.
retained_lowest-last :
    (now version : ℕ) (records : List RetainedRank) (r : RetainedRank) (lowest : ℕ)
    → ltb now r.expires && r.version == version ≡ true
    → retained_lowest now version lowest (records ++ (r ∷ [])) ≡ r.lowest_rank
unfolding retained_lowest
retained_lowest-last now version [] r lowest h = rw h refl
retained_lowest-last now version (q ∷ qs) r lowest h = retained_lowest-last now version qs r _ h

cap_records-last :
    (now version : ℕ) (records : List RetainedRank) (r : RetainedRank) (lowest : ℕ)
    → ltb now r.expires && r.version == version ≡ true
    → retained_lowest now version lowest (cap_records (records ++ (r ∷ []))) ≡ r.lowest_rank
cap_records-last now version [] r lowest h = retained_lowest-last now version [] r lowest h
cap_records-last now version (q ∷ qs) r lowest h =
    if_both (λ rs. retained_lowest now version lowest rs ≡ r.lowest_rank) _
      (retained_lowest-last now version qs r lowest h)
      (retained_lowest-last now version (q ∷ qs) r lowest h)

joined-remembers :
    (now : ℕ) (dio : DioHeader) (m : Memberships)
    → kept (joined now dio m) ≡ (
      or_default 0 (m.retained_path_sequence dio.instance_id dio.dodag_id),
      retained_lowest now dio.version_number infinite_rank
          (m.retained_rank dio.instance_id dio.dodag_id),
    )
unfolding joined new_membership
joined-remembers now dio m = take_prefix-kept dio _ ∙ configure-kept dio _

-- How long the rank of a version binds a node that left it.
abbrev pub retention : DodagMembership → ℕ
retention d = 2 * (d.dio_interval_min * 2 ^ min d.dio_interval_doublings 30)

abbrev Remembers : ℕ → DodagMembership → Memberships → Memberships → Type 0
Remembers now d before after =
    (after.retained_path_sequence d.instance_id d.dodag_id ≡ some d.path_sequence)
    × (after.retained_rank d.instance_id d.dodag_id
        ≡ remember now d (before.retained_rank d.instance_id d.dodag_id))

leave_held-Remembers :
    (now reenable : ℕ) (poison : Bool) (d : DodagMembership) (m : Memberships)
    → d.mop ≢ mop_p2p_route_discovery
    → Remembers now d m (leave_held now reenable poison d m).0
unfolding leave_held retire
leave_held-Remembers now reenable poison d m o =
    let ordinary : d.mop == mop_p2p_route_discovery ≡ false = ground (arith, o) in
    if_both (Remembers now d m) (poison && is_base d m.base)
      (rw ordinary (ground arith, ground arith)) (rw ordinary (ground arith, ground arith))

remember-binds :
    (now later : ℕ) (d : DodagMembership) (records : List RetainedRank)
    → later < now + retention d
    → retained_lowest later d.version infinite_rank (remember now d records)
      ≡ d.lowest_rank_this_version
unfolding remember
remember-binds now later d records l =
    cap_records-last later d.version (keep_others now d.version records) _ infinite_rank
      (ground (arith, l))

-- A node leaves a DODAG that is no route discovery, with or without poison, and a DIO of the version
-- that it left makes it join again, less than two maximum DIO intervals later. Then it takes up the
-- Path Sequence and the lowest rank of that version where it left them. What else happened in the
-- meantime does not matter, as long as it left alone what is remembered of this DODAG.
pub rejoin_remembers :
    (now later reenable : ℕ) (poison : Bool) (dio : DioHeader) (d : DodagMembership)
    (m after : Memberships)
    → find_dodag dio.instance_id dio.dodag_id m.dodags ≡ some d
    → d.mop ≢ mop_p2p_route_discovery
    → dio.version_number ≡ d.version
    → later < now + retention d
    → after.retained_path_sequence dio.instance_id dio.dodag_id
      ≡ (leave_dodag now reenable poison dio.instance_id dio.dodag_id m).0.retained_path_sequence
          dio.instance_id dio.dodag_id
    → after.retained_rank dio.instance_id dio.dodag_id
      ≡ (leave_dodag now reenable poison dio.instance_id dio.dodag_id m).0.retained_rank
          dio.instance_id dio.dodag_id
    → ((joined later dio after).path_sequence ≡ d.path_sequence)
      × ((joined later dio after).lowest_rank_this_version ≡ d.lowest_rank_this_version)
unfolding leave_dodag
rejoin_remembers now later reenable poison dio d m after h o ev l ep er =
    let (ei, ek) = find_dodag-has_key dio.instance_id dio.dodag_id m.dodags d h in
    let (p, r) = leave_held-Remembers now reenable poison d m o in
    let found = λ (o : Option DodagMembership). (leave_found now reenable poison o m).0 in
    let left : Memberships = (leave_held now reenable poison d m).0 in
    let path : after.retained_path_sequence dio.instance_id dio.dodag_id ≡ some d.path_sequence =
      ep
      ∙ (ap (λ o. (found o).retained_path_sequence dio.instance_id dio.dodag_id) h
          ∙ (ap (λ x. left.retained_path_sequence x dio.dodag_id) (sym ei)
              ∙ (ap (left.retained_path_sequence d.instance_id) (sym ek) ∙ p))) in
    let rank : after.retained_rank dio.instance_id dio.dodag_id
        ≡ remember now d (m.retained_rank d.instance_id d.dodag_id) =
      er
      ∙ (ap (λ o. (found o).retained_rank dio.instance_id dio.dodag_id) h
          ∙ (ap (λ x. left.retained_rank x dio.dodag_id) (sym ei)
              ∙ (ap (left.retained_rank d.instance_id) (sym ek) ∙ r))) in
    (
      ap (λ (t : Kept). t.0) (joined-remembers later dio after) ∙ ap (or_default 0) path,
      ap (λ (t : Kept). t.1) (joined-remembers later dio after)
          ∙ (ap (retained_lowest later dio.version_number infinite_rank) rank
              ∙ (ap
                    (λ v.
                      retained_lowest later v infinite_rank
                        (remember now d (m.retained_rank d.instance_id d.dodag_id)))
                    ev
                  ∙ remember-binds now later d (m.retained_rank d.instance_id d.dodag_id) l)),
    )

length-keep_others :
    (now version : ℕ) (records : List RetainedRank)
    → length (keep_others now version records) ≤ length records
unfolding keep_others
length-keep_others now version [] = ground arith
length-keep_others now version (r ∷ rs) =
    let dropped : length (keep_others now version rs) ≤ suc (length rs) =
      omega (arith, length-keep_others now version rs) in
    let kept_too : suc (length (keep_others now version rs)) ≤ suc (length rs) =
      omega (arith, length-keep_others now version rs) in
    if_both (λ (ks : List RetainedRank). length ks ≤ suc (length rs)) _
      {first = keep_others now version rs} {second = r ∷ keep_others now version rs} dropped
      kept_too

length-cap_records :
    (records : List RetainedRank) → length records ≤ 5 → length (cap_records records) ≤ 4
length-cap_records [] h = ground arith
length-cap_records (r ∷ rs) h = elim (Bool-cases (ltb retained_versions (suc (length rs)))) [
  | inl e ↦ rw e (omega (arith, h))
  | inr e ↦ rw e (ground (arith, e))
]

-- A node that remembers at most four versions of a DODAG has at most four after it left another.
pub length-remember :
    (now : ℕ) (d : DodagMembership) (records : List RetainedRank)
    → length records ≤ 4
    → length (remember now d records) ≤ 4
unfolding remember
length-remember now d records h =
    let others = keep_others now d.version records in
    length-cap_records (others ++ (record_of now d ∷ [])) (
      omega (
        arith,
        h,
        length-append others (record_of now d ∷ []),
        length-keep_others now d.version records,
      ))
