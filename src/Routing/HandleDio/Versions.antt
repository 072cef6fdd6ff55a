-- ===== src/Routing/HandleDio/Versions.antt =====
-- The version of a DODAG that a node belongs to, over the arrival of a DIO.
pub mod Followed
pub mod Order
use rpl.Base.{
  ℕ, ◌≡◌, ◌⊎◌, ◌<◌, inl, inr, refl, ap, sym, ◌∙◌, Bool, true, false, not, ◌&&◌, ◌||◌, Option, none,
  some, List, [], ◌∷◌, arith, Bool-cases, ltb, leb, ◌==◌, if◌then◌else◌, if_both,
}
use mathlib.Core.Path.{subst}
use rpl.Base.Map.{erase}
use rpl.Ipv6.{Ipv6}
use rpl.Trickle.{consistency_hit}
use rpl.Header.Dio.{DioHeader}
use rpl.Routing.{DodagMembership, Dodags, find_dodag, infinite_rank}
use rpl.Routing.Lookup.{find_dodag-has_key, replaced, update_dodag-found}
use rpl.Routing.HandleDao.{Node}
use rpl.Routing.NoPath.{Sent, advance_sequences, send_no_path_dao}
use rpl.Routing.Parents.{Choice}
use rpl.Routing.Parents.Selection.{
  Verdict, unchanged, lost, adopted, take_parent, limit_rank, select_preferred_parent,
}
use rpl.Routing.Parents.Selection.Views.{
  send_no_path_dao-view, schedule_refresh-view, select_preferred_parent-view,
}
use rpl.Routing.Membership.{Memberships, Step}
use rpl.Routing.Membership.Leaving.{hold, retire, leave_held, solicit, act_on, settle}
use rpl.Routing.Membership.Advertising.{reset_found, reset_trickle}
use rpl.Routing.Membership.Keys.{find_dodag-erase_own}
use rpl.Routing.HandleDio.{Reception, Receiver, hear, follow_dtsn}
use rpl.Routing.HandleDio.Arrival.{
  own, select, reset_if, drop_found, pace_found, pace_discovery, pace_ordinary, take_found, take,
}

-- The key and the version.
abbrev pub Edition : Type 0
Edition = ℕ × ℕ × ℕ

abbrev pub edition : DodagMembership → Edition
edition d = (d.instance_id, d.dodag_id, d.version)

advance_sequences-edition : (d : DodagMembership) → edition (advance_sequences d) ≡ edition d
unfolding advance_sequences
advance_sequences-edition d = refl

choice-edition :
    (choice : Choice) (d : DodagMembership)
    → edition (limit_rank (take_parent choice d)) ≡ edition d
unfolding limit_rank take_parent
choice-edition choice d = if_both (λ (e : DodagMembership). edition e ≡ edition d) _ refl refl

select_preferred_parent-edition :
    (net : Ipv6) (receiver : Receiver) (d : DodagMembership)
    → edition (select_preferred_parent net receiver.node receiver.jitter d).0.0 ≡ edition d
select_preferred_parent-edition net receiver d =
    select_preferred_parent-view edition advance_sequences-edition (λ j e. refl) (λ n e. refl)
      (λ ps e. refl) choice-edition net receiver.node receiver.jitter d

pub send_no_path_dao-edition :
    (net : Ipv6) (node : Node) (d : DodagMembership) (via : ℕ)
    → edition (send_no_path_dao net node d via).0 ≡ edition d
send_no_path_dao-edition =
    send_no_path_dao-view edition advance_sequences-edition (λ j e. refl) (λ n e. refl)
      (λ ps e. refl)

pub hear-edition :
    (receiver : Receiver) (dio : DioHeader) (reception : Reception) (d : DodagMembership)
    → edition (hear receiver dio reception d) ≡ edition d
unfolding hear follow_dtsn
hear-edition receiver dio reception d =
    if_both (λ (e : DodagMembership). edition e ≡ edition d) _
      (schedule_refresh-view edition advance_sequences-edition (λ j e. refl) (λ n e. refl)
        (λ ps e. refl) receiver.refresh_jitter _)
      refl

-- A membership that is gone is in no version.
abbrev pub VersionIs : ℕ → Option DodagMembership → Type 0
VersionIs v none = ℕ
VersionIs v (some d) = d.version ≡ v

replaced-VersionIs :
    (v : ℕ) (new : DodagMembership) (o : Option DodagMembership)
    → new.version ≡ v
    → VersionIs v (replaced new o)
replaced-VersionIs v new none h = 0
replaced-VersionIs v new (some d) h = h

module _ (i k v : ℕ) where
  -- The membership of one DODAG, if there is one, is in the version v.
  abbrev pub IsAt : Memberships → Type 0
  IsAt m = VersionIs v (find_dodag i k m.dodags)

  abbrev pub IsEdition : DodagMembership → Type 0
  IsEdition d = edition d ≡ (i, k, v)

  pub hold-IsAt : (new : DodagMembership) (m : Memberships) → IsEdition new → IsAt (hold new m)
  hold-IsAt new m e =
      subst (λ (t : Edition). VersionIs v (find_dodag t.0 t.1 (hold new m).dodags)) e
        (subst (VersionIs v) (sym (update_dodag-found new m.dodags _ refl))
          (replaced-VersionIs v new _ (ap (λ (t : Edition). t.2) e)))

  leave-IsAt :
      (now reenable : ℕ) (poison : Bool) (d : DodagMembership) (m : Memberships)
      → IsEdition d
      → IsAt (leave_held now reenable poison d m).0
  unfolding leave_held retire
  leave-IsAt now reenable poison d m e =
      let gone : VersionIs v (find_dodag i k (retire now reenable d m).dodags) =
        subst (λ (t : Edition). VersionIs v (find_dodag t.0 t.1 (retire now reenable d m).dodags)) e
          (subst (VersionIs v) (sym (find_dodag-erase_own d.instance_id d.dodag_id m.dodags)) 0) in
      if_both IsAt _ gone gone

  act_on-IsAt :
      (net : Ipv6) (receiver : Receiver) (r : Sent × Verdict) (m : Memberships)
      → IsEdition r.0.0
      → IsAt (act_on net receiver.node receiver.reenable receiver.jitter r m).0.0
  unfolding act_on solicit
  act_on-IsAt net receiver ((after, messages), unchanged) m e = hold-IsAt after m e
  act_on-IsAt net receiver ((after, messages), lost) m e =
      let left = leave-IsAt receiver.node.now receiver.reenable true after (hold after m) e in
      if_both IsAt _ left left
  act_on-IsAt net receiver ((after, messages), adopted) m e = hold-IsAt after m e

  pub settle-IsAt :
      (net : Ipv6) (receiver : Receiver) (d : DodagMembership) (m : Memberships)
      → IsEdition d
      → IsAt (settle net receiver.node receiver.reenable receiver.jitter d m).0.0
  unfolding settle
  settle-IsAt net receiver d m e =
      act_on-IsAt net receiver _ m (select_preferred_parent-edition net receiver d ∙ e)
