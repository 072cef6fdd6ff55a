-- ===== src/Header/Dio/Fields.antt =====
-- The octets in which a DIO and its options pack several fields, read back by evaluation.
use rpl.Base.{
  ℕ, ◌*◌, ◌/◌, ◌%◌, ◌^◌, ◌<◌, ◌≡◌, ◌⊎◌, inl, inr, refl, min, Bool, true, false, ◌&&◌, bit_and,
  bit_or, ◌==◌, ==_iff, if◌then◌else◌, tabulated, tabulated_at, tabulated_eq, both_flags,
  both_flags_at, bool_eq, bool_eq→eq, and-true,
}
use rpl.Header.Address.{has_flag}
use rpl.Header.Dio.{
  write_flags, write_discovery_flags, write_discovery_limits, write_delta, write_lql,
  write_prefix_flags,
}
use rpl.Header.Dio.Parser.{read_compr, read_lifetime}

base_check : Bool → ℕ → ℕ → Bool
unfolding bool_eq
base_check grounded mop preference =
    let f = write_flags grounded mop preference in
    bool_eq (has_flag f 0x80) grounded
    && (bit_and f 0x38 / 2 ^ 3 == mop && bit_and f 0x07 == preference)

base_table : (grounded : Bool) → tabulated (λ m. tabulated (base_check grounded m) 8) 8 ≡ true
unfolding tabulated base_check write_flags
base_table true = refl
base_table false = refl

pub base_fields :
    (grounded : Bool) (mop preference : ℕ)
    → mop < 8
    → preference < 8
    → let f = write_flags grounded mop preference in
      (has_flag f 0x80 ≡ grounded) × (bit_and f 0x38 / 2 ^ 3 ≡ mop) × (bit_and f 0x07 ≡ preference)
unfolding base_check
base_fields grounded mop preference hm hp =
    let row =
      tabulated_at (λ m. tabulated (base_check grounded m) 8) 8 mop (base_table grounded) hm in
    let (e1, r1) = and-true _ _ (tabulated_at (base_check grounded mop) 8 preference row hp) in
    let (e2, e3) = and-true _ _ r1 in (bool_eq→eq _ _ e1, (==_iff _ _).0 e2, (==_iff _ _).0 e3)

flags_check : ℕ → ℕ → Bool → Bool → Bool
unfolding bool_eq
flags_check compr lifetime first hop_by_hop =
    let f = write_discovery_flags first hop_by_hop compr lifetime in
    bool_eq (has_flag f 0x80) first
    && (bool_eq (has_flag f 0x40) hop_by_hop
        && (read_compr f == compr && bit_and f 0x01 == lifetime / 2))

flags_table :
    (compr : ℕ)
    → (compr ≡ 0) ⊎ (compr ≡ 8)
    → tabulated (λ l. both_flags (flags_check compr l)) 4 ≡ true
unfolding tabulated both_flags flags_check write_discovery_flags read_compr
flags_table compr (inl e) = rw e refl
flags_table compr (inr e) = rw e refl

limits_check : ℕ → ℕ → Bool
unfolding bool_eq
limits_check lifetime rank_limit =
    let f = write_discovery_limits lifetime rank_limit in
    bool_eq (has_flag f 0x80) (lifetime % 2 == 1) && bit_and f 0x7F == rank_limit

limits_fields :
    (lifetime rank_limit : ℕ)
    → lifetime < 4
    → rank_limit < 128
    → let f = write_discovery_limits lifetime rank_limit in
      (has_flag f 0x80 ≡ (lifetime % 2 == 1)) × (bit_and f 0x7F ≡ rank_limit)
unfolding tabulated limits_check write_discovery_limits
limits_fields lifetime rank_limit hl hr =
    let row = tabulated_at (λ l. tabulated (limits_check l) 128) 4 lifetime refl hl in
    let (e1, e2) = and-true _ _ (tabulated_at (limits_check lifetime) 128 rank_limit row hr) in
    (bool_eq→eq _ _ e1, (==_iff _ _).0 e2)

halves :
    (lifetime : ℕ)
    → lifetime < 4
    → bit_or (lifetime / 2 * 2) (if lifetime % 2 == 1 then 1 else 0) ≡ lifetime
unfolding tabulated
halves lifetime small =
    tabulated_eq 4 (λ l. bit_or (l / 2 * 2) (if l % 2 == 1 then 1 else 0)) (λ l. l) refl lifetime
      small

-- The two flag octets of an RREQ or RREP, the straddling lifetime included.
pub discovery_fields :
    (first hop_by_hop : Bool) (compr lifetime rank_limit : ℕ)
    → (compr ≡ 0) ⊎ (compr ≡ 8)
    → lifetime < 4
    → rank_limit < 128
    → let f = write_discovery_flags first hop_by_hop compr lifetime in
      let m = write_discovery_limits lifetime rank_limit in
      (has_flag f 0x80 ≡ first)
      × (has_flag f 0x40 ≡ hop_by_hop)
      × (read_compr f ≡ compr)
      × (read_lifetime f m ≡ lifetime)
      × (bit_and m 0x7F ≡ rank_limit)
unfolding flags_check read_lifetime
discovery_fields first hop_by_hop compr lifetime rank_limit hc hl hr =
    let all =
      both_flags_at (flags_check compr lifetime)
        (tabulated_at (λ l. both_flags (flags_check compr l)) 4 lifetime (flags_table compr hc) hl)
        first hop_by_hop in
    let (e1, r1) = and-true _ _ all in
    let (e2, r2) = and-true _ _ r1 in
    let (e3, e4) = and-true _ _ r2 in
    let (e5, e6) = limits_fields lifetime rank_limit hl hr in
    (
      bool_eq→eq _ _ e1,
      bool_eq→eq _ _ e2,
      (==_iff _ _).0 e3,
      rw ((==_iff _ _).0 e4, e5) (halves lifetime hl),
      e6,
    )

pub delta_field : (delta : ℕ) → delta < 64 → bit_and (write_delta delta) 0xFC / 2 ^ 2 ≡ delta
unfolding tabulated write_delta
delta_field delta small =
    tabulated_eq 64 (λ d. bit_and (write_delta d) 0xFC / 2 ^ 2) (λ d. d) refl delta small

pub lql_field : (lql : ℕ) → lql < 8 → min (write_lql lql / 2 ^ 4) 7 ≡ lql
unfolding tabulated write_lql
lql_field lql small = tabulated_eq 8 (λ q. min (write_lql q / 2 ^ 4) 7) (λ q. q) refl lql small

pub prefix_length_field : (n : ℕ) → n < 128 → bit_and (bit_and n 0x7F) 0x7F ≡ n
unfolding tabulated
prefix_length_field n small =
    tabulated_eq 128 (λ k. bit_and (bit_and k 0x7F) 0x7F) (λ k. k) refl n small

pub prefix_flags_fields :
    (on_link autonomous : Bool)
    → (has_flag (write_prefix_flags on_link autonomous) 0x80 ≡ on_link)
      × (has_flag (write_prefix_flags on_link autonomous) 0x40 ≡ autonomous)
unfolding write_prefix_flags
prefix_flags_fields true true = (refl, refl)
prefix_flags_fields true false = (refl, refl)
prefix_flags_fields false true = (refl, refl)
prefix_flags_fields false false = (refl, refl)
