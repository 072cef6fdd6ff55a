-- ===== src/Routing/Membership/Forming.antt =====
-- The memberships a node makes for itself, and how it asks for others: CreateDodagMembership,
-- HandleDadSuccess at a root, GlobalRepairFire and DisTimerExpire of model/rpl-routing-protocol.cc.
use rpl.Base.{ℕ, Bool, true, false, not, ◌&&◌, Option, none, some, [], ◌∷◌, ◌==◌, if◌then◌else◌}
use rpl.Ipv6.{Ipv6}
use rpl.Sequence.{sequence_increment}
use rpl.Trickle.{start, reset, set_function, set_parameters}
use rpl.Routing.{
  DodagMembership, find_dodag, mop_storing_no_multicast, mop_p2p_route_discovery, time_max,
}
use rpl.Routing.Membership.{
  Memberships, dis_sent, Step, new_membership, insert_dodag, get_base_dodag, claim_base,
}
use rpl.Routing.Membership.Leaving.{hold}

-- The attributes that a root takes its DODAG's parameters from.
pub record Attributes : Type 0 where
  pub mop : ℕ
  pub ocp : ℕ
  pub min_hop_rank_increase : ℕ
  pub dio_interval_min : ℕ
  pub dio_interval_doublings : ℕ
  pub dio_redundancy : ℕ
  pub dao_interval : ℕ
  pub dis_interval : ℕ
  pub global_repair_interval : ℕ
  pub root_prefix : ℕ
  pub root_prefix_length : ℕ
  pub enable_lql : Bool

abbrev pub default_instance : ℕ
default_instance = 0

abbrev prefix_valid_lifetime : ℕ
prefix_valid_lifetime = 86_400

abbrev prefix_preferred_lifetime : ℕ
prefix_preferred_lifetime = 14_400

module _ (draw : ℕ → ℕ → ℕ) (attributes : Attributes) where
  -- A DODAG that this node roots.
  unfoldable pub formed : ℕ → ℕ → ℕ → DodagMembership
  formed instance_id dodag_id mop = record (new_membership instance_id dodag_id) {
    is_root = true;
    mop = mop;
    grounded = true;
    rank = attributes.min_hop_rank_increase;
    ocp = attributes.ocp;
    min_hop_rank_increase = attributes.min_hop_rank_increase;
    dio_interval_min = attributes.dio_interval_min;
    dio_interval_doublings = attributes.dio_interval_doublings;
    dio_redundancy = attributes.dio_redundancy;
    dao_event = if mop == mop_storing_no_multicast then some attributes.dao_interval else none;
    dio_trickle = start draw (
        set_parameters (set_function (new_membership instance_id dodag_id).dio_trickle)
          attributes.dio_interval_min attributes.dio_interval_doublings attributes.dio_redundancy);
    global_repair_event =
        if not (mop == mop_p2p_route_discovery)
          && not (attributes.global_repair_interval == time_max)
        then some attributes.global_repair_interval
        else none;
  }

  unfoldable pub create_dodag_membership : ℕ → ℕ → ℕ → Memberships → Memberships
  create_dodag_membership instance_id dodag_id mop m =
      let dodag = formed instance_id dodag_id mop in
      record m { dodags = insert_dodag dodag m.dodags; base = claim_base dodag m.base }

  abbrev with_root_prefix : DodagMembership → DodagMembership
  with_root_prefix dodag = record dodag {
    has_prefix_info = true;
    prefix = attributes.root_prefix;
    prefix_length = attributes.root_prefix_length;
    prefix_on_link = true;
    prefix_autonomous = true;
    prefix_valid_lifetime = prefix_valid_lifetime;
    prefix_preferred_lifetime = prefix_preferred_lifetime;
  }

  abbrev form_base : Option DodagMembership → ℕ → Memberships → Memberships
  form_base (some base) address m = m
  form_base none address m =
      hold (with_root_prefix (formed default_instance address attributes.mop))
        (create_dodag_membership default_instance address attributes.mop m)

  -- A root's address has passed Duplicate Address Detection.
  unfoldable pub handle_dad_success : Ipv6 → Bool → ℕ → Memberships → Memberships
  handle_dad_success net is_root address m =
      if not (net.is_link_local address) && is_root
      then form_base (get_base_dodag m) address m
      else m

  abbrev repair : DodagMembership → DodagMembership
  repair dodag = record dodag {
    version = sequence_increment dodag.version;
    dio_trickle = reset draw dodag.dio_trickle;
    global_repair_event = some attributes.global_repair_interval;
  }

  abbrev repair_found : Option DodagMembership → Memberships → Memberships
  repair_found none m = m
  repair_found (some dodag) m = hold (repair dodag) m

  unfoldable pub global_repair_fire : ℕ → ℕ → Memberships → Memberships
  global_repair_fire instance_id dodag_id m =
      repair_found (find_dodag instance_id dodag_id m.dodags) m

  abbrev expire_dis : Option DodagMembership → Memberships → Step
  expire_dis (some base) m = (record m { dis_refresh_pending = false; dis_event = none }, [])
  expire_dis none m = (
    record m { dis_refresh_pending = false; dis_event = some attributes.dis_interval },
    dis_sent ∷ [],
  )

  -- The timer has fired, and so is no longer pending.
  unfoldable pub dis_timer_expire : Memberships → Step
  dis_timer_expire m = expire_dis (get_base_dodag m) m
