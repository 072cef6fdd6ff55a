-- ===== src/Routing/Membership/Spreading.antt =====
-- The parameters of a DODAG, from a member over the DIO it sends to a node that joins on it.
use rpl.Base.{
  ℕ, zero, suc, ◌*◌, ◌/◌, ◌^◌, min, ◌≡◌, ◌≤◌, ◌<◌, inl, inr, refl, ap, sym, Bool, true, false,
  Option, none, some, arith, Bool-cases, leb, ◌==◌, if◌then◌else◌,
}
use rpl.Header.Dio.{PrefixInfo}
use rpl.Routing.{DodagMembership}
use rpl.Routing.Membership.{
  Memberships, millisecond, interval_exponent_max, new_membership, configure, take_prefix, joined,
}
use rpl.Routing.Membership.Advertising.{log2_up_to, log2, ordinary_dio}

pow_lt : (k n : ℕ) → k ≤ n → 2 ^ k < 2 ^ suc n
pow_lt zero zero h = ground arith
pow_lt zero (suc n) h = omega (arith, pow_lt zero n (ground arith))
pow_lt (suc k) zero h = ground (arith, h)
pow_lt (suc k) (suc n) h = omega (arith, pow_lt k n (omega (arith, h)))

log2_up_to-pow : (n k : ℕ) → k ≤ n → log2_up_to n (2 ^ k) ≡ k
log2_up_to-pow zero k h = omega (arith, h)
log2_up_to-pow (suc n) k h = elim (Bool-cases (k == suc n)) [
  | inl e ↦
      let same : k ≡ suc n = ground (arith, e) in
      let reached : leb (2 ^ suc n) (2 ^ k) ≡ true = ground (arith, ap (λ x. 2 ^ x) same) in
      rw reached (sym same)
  | inr e ↦
      let below : k ≤ n = ground (arith, e, h) in
      let missed : leb (2 ^ suc n) (2 ^ k) ≡ false = ground (arith, pow_lt k n below) in
      rw missed (log2_up_to-pow n k below)
]

interval-spreads :
    (e : ℕ)
    → e ≤ interval_exponent_max
    → 2 ^ min (log2 (2 ^ e * millisecond / millisecond)) interval_exponent_max * millisecond
      ≡ 2 ^ e * millisecond
unfolding log2
interval-spreads e h =
    let whole : 2 ^ e * millisecond / millisecond ≡ 2 ^ e = omega arith in
    let low : min e interval_exponent_max ≡ e = ground (arith, h) in
    rw (whole, log2_up_to-pow 63 e (omega (arith, h)), low) refl

-- The parameters that all members of a DODAG version share.
pub record Shared : Type 0 where
  pub key : ℕ × ℕ
  pub version : ℕ
  pub mop : ℕ
  pub grounded : Bool
  pub preference : ℕ
  pub ocp : ℕ
  pub min_hop_rank_increase : ℕ
  pub max_rank_increase : ℕ
  pub dio_interval_min : ℕ
  pub dio_interval_doublings : ℕ
  pub dio_redundancy : ℕ
  pub prefix_info : Option PrefixInfo

abbrev pub prefix_of : DodagMembership → Option PrefixInfo
prefix_of d =
    if d.has_prefix_info
    then some (record {
      prefix = d.prefix;
      prefix_length = d.prefix_length;
      on_link = d.prefix_on_link;
      autonomous = d.prefix_autonomous;
      valid_lifetime = d.prefix_valid_lifetime;
      preferred_lifetime = d.prefix_preferred_lifetime;
    })
    else none

abbrev pub shared : DodagMembership → Shared
shared d = record {
  key = (d.instance_id, d.dodag_id);
  version = d.version;
  mop = d.mop;
  grounded = d.grounded;
  preference = d.preference;
  ocp = d.ocp;
  min_hop_rank_increase = d.min_hop_rank_increase;
  max_rank_increase = d.max_rank_increase;
  dio_interval_min = d.dio_interval_min;
  dio_interval_doublings = d.dio_interval_doublings;
  dio_redundancy = d.dio_redundancy;
  prefix_info = prefix_of d;
}

-- A node that joins on the DIO of a member has the parameters of the member: the key, the version and
-- the mode of the DODAG, its objective function and rank limits, the pace of Trickle and the prefix.
-- This is for an Imin of a power of two milliseconds and a number of doublings, both exponents at
-- most 20.
pub joined_shares :
    (enable_lql : Bool) (now e : ℕ) (d : DodagMembership) (m : Memberships)
    → d.dio_interval_min ≡ 2 ^ e * millisecond
    → e ≤ interval_exponent_max
    → d.dio_interval_doublings ≤ interval_exponent_max
    → shared (joined now (ordinary_dio enable_lql d) m) ≡ shared d
unfolding joined new_membership configure take_prefix ordinary_dio
joined_shares enable_lql now e d m h l k =
    let imin : 2 ^ min (log2 (d.dio_interval_min / millisecond)) interval_exponent_max * millisecond
        ≡ d.dio_interval_min =
      rw h (interval-spreads e l) in
    let doublings : min d.dio_interval_doublings interval_exponent_max ≡ d.dio_interval_doublings =
      ground (arith, k) in
    elim (Bool-cases d.has_prefix_info) [
      | inl p ↦ rw (p, imin, doublings) refl
      | inr p ↦ rw (p, imin, doublings) refl
    ]
