-- ===== src/Routing/HandleDio/Settled.antt =====
-- What acting on the selection of a parent, and resetting Trickle, leave valid.
use rpl.Base.{ℕ, ◌≡◌, refl, ap, ◌∙◌, Option, none, some, if_both}
use rpl.Ipv6.{Ipv6}
use rpl.Header.Dio.{DioHeader}
use rpl.Routing.{DodagMembership, find_dodag}
use rpl.Routing.Lookup.{find_dodag-has_key}
use rpl.Routing.HandleDao.{Node}
use rpl.Routing.NoPath.{Sent, advance_sequences, send_no_path_dao}
use rpl.Routing.Parents.{Choice}
use rpl.Routing.Parents.Selection.{
  Verdict, unchanged, lost, adopted, take_parent, limit_rank, select_preferred_parent,
}
use rpl.Routing.Parents.Selection.Views.{
  send_no_path_dao-view, schedule_refresh-view, select_preferred_parent-view,
}
use rpl.Routing.Membership.{Memberships}
use rpl.Routing.Membership.Leaving.{hold, solicit, act_on, settle}
use rpl.Routing.Membership.Advertising.{reset_found, reset_trickle}
use rpl.Routing.Membership.Base.{IsValid, is_keyed-update}
use rpl.Routing.Membership.Base.Slot.{lose-IsValid, update-IsBased}
use rpl.Routing.HandleDio.{Reception, Receiver, hear, follow_dtsn}

-- The key and the mode.
abbrev pub Name : Type 0
Name = ℕ × ℕ × ℕ

abbrev pub name : DodagMembership → Name
name d = (d.instance_id, d.dodag_id, d.mop)

advance_sequences-name : (d : DodagMembership) → name (advance_sequences d) ≡ name d
unfolding advance_sequences
advance_sequences-name d = refl

choice-name :
    (choice : Choice) (d : DodagMembership) → name (limit_rank (take_parent choice d)) ≡ name d
unfolding limit_rank take_parent
choice-name choice d = if_both (λ (e : DodagMembership). name e ≡ name d) _ refl refl

pub select_preferred_parent-name :
    (net : Ipv6) (node : Node) (jitter : ℕ) (d : DodagMembership)
    → name (select_preferred_parent net node jitter d).0.0 ≡ name d
select_preferred_parent-name =
    select_preferred_parent-view name advance_sequences-name (λ j d. refl) (λ n d. refl)
      (λ ps d. refl) choice-name

pub send_no_path_dao-name :
    (net : Ipv6) (node : Node) (d : DodagMembership) (via : ℕ)
    → name (send_no_path_dao net node d via).0 ≡ name d
send_no_path_dao-name =
    send_no_path_dao-view name advance_sequences-name (λ j d. refl) (λ n d. refl) (λ ps d. refl)

pub hear-name :
    (receiver : Receiver) (dio : DioHeader) (reception : Reception) (d : DodagMembership)
    → name (hear receiver dio reception d) ≡ name d
unfolding hear follow_dtsn
hear-name receiver dio reception d =
    if_both (λ (e : DodagMembership). name e ≡ name d) _
      (schedule_refresh-view name advance_sequences-name (λ j e. refl) (λ n e. refl) (λ ps e. refl)
        receiver.refresh_jitter _)
      refl

-- A membership of the node, possibly as it is to become.
abbrev pub IsHeldIn : Memberships → DodagMembership → Type 0
IsHeldIn m new =
    (d : DodagMembership) × ((find_dodag new.instance_id new.dodag_id m.dodags ≡ some d)
      × (new.mop ≡ d.mop))

-- By the key that it is looked up by.
pub found-IsHeldIn :
    (i k : ℕ) (m : Memberships) (d : DodagMembership)
    → find_dodag i k m.dodags ≡ some d
    → IsHeldIn m d
found-IsHeldIn i k m d h =
    let (ei, ek) = find_dodag-has_key i k m.dodags d h in
    (
      d,
      (
        ap (λ x. find_dodag x d.dodag_id m.dodags) ei ∙ (ap (λ x. find_dodag i x m.dodags) ek ∙ h),
        refl,
      ),
    )

pub renamed-IsHeldIn :
    (m : Memberships) (new old : DodagMembership)
    → name new ≡ name old
    → IsHeldIn m old
    → IsHeldIn m new
renamed-IsHeldIn m new old e (d, (h, o)) =
    (d, (ap (λ (t : Name). find_dodag t.0 t.1 m.dodags) e ∙ h, ap (λ (t : Name). t.2) e ∙ o))

pub hold-IsValid :
    (new : DodagMembership) (m : Memberships) → IsHeldIn m new → IsValid m → IsValid (hold new m)
hold-IsValid new m (d, (h, e)) (v, b) =
    (is_keyed-update new m.dodags v, update-IsBased new d m.base m.dodags h e b)

solicit-IsValid : (jitter : ℕ) (m : Memberships) → IsValid m → IsValid (solicit jitter m)
unfolding solicit
solicit-IsValid jitter m v = if_both IsValid m.dis_refresh_pending v v

act_on-IsValid :
    (net : Ipv6) (node : Node) (reenable jitter : ℕ) (r : Sent × Verdict) (m : Memberships)
    → IsHeldIn m r.0.0
    → IsValid m
    → IsValid (act_on net node reenable jitter r m).0.0
unfolding act_on
act_on-IsValid net node reenable jitter ((after, messages), unchanged) m h v =
    hold-IsValid after m h v
act_on-IsValid net node reenable jitter ((after, messages), lost) m h v =
    solicit-IsValid jitter _
      (lose-IsValid node.now reenable after (hold after m) (hold-IsValid after m h v))
act_on-IsValid net node reenable jitter ((after, messages), adopted) m h v =
    hold-IsValid after m h v

pub settle-IsValid :
    (net : Ipv6) (node : Node) (reenable jitter : ℕ) (d : DodagMembership) (m : Memberships)
    → IsHeldIn m d
    → IsValid m
    → IsValid (settle net node reenable jitter d m).0.0
unfolding settle
settle-IsValid net node reenable jitter d m h v =
    let r = select_preferred_parent net node jitter d in
    act_on-IsValid net node reenable jitter r m
      (renamed-IsHeldIn m r.0.0 d (select_preferred_parent-name net node jitter d) h) v

reset_found-IsValid :
    (draw : ℕ → ℕ → ℕ) (i k : ℕ) (o : Option DodagMembership) (m : Memberships)
    → find_dodag i k m.dodags ≡ o
    → IsValid m
    → IsValid (reset_found draw i k o m)
reset_found-IsValid draw i k none m h v = v
reset_found-IsValid draw i k (some d) m h v = hold-IsValid _ m (found-IsHeldIn i k m d h) v

pub reset_trickle-IsValid :
    (draw : ℕ → ℕ → ℕ) (i k : ℕ) (m : Memberships) → IsValid m → IsValid (reset_trickle draw i k m)
unfolding reset_trickle
reset_trickle-IsValid draw i k m v = reset_found-IsValid draw i k _ m refl v
