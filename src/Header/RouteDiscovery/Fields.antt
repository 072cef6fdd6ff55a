-- ===== src/Header/RouteDiscovery/Fields.antt =====
-- The two octets of packed fields of a P2P-RDO.
use rpl.Base.{
  ℕ, ◌/◌, ◌<◌, ◌≡◌, ◌^◌, ◌⊎◌, inl, inr, refl, Bool, true, ◌&&◌, bit_and, ◌==◌, ==_iff, tabulated,
  tabulated_at, both_flags, both_flags_at, bool_eq, bool_eq→eq, and-true, ltb, ltb→lt,
}
use rpl.Header.Address.{has_flag}
use rpl.Header.RouteDiscovery.{write_flags, write_limits}

flags_check : ℕ → ℕ → Bool → Bool → Bool
unfolding bool_eq
flags_check compr n reply hop_by_hop =
    let f = write_flags reply hop_by_hop n compr in
    bool_eq (has_flag f 0x80) reply
    && (bool_eq (has_flag f 0x40) hop_by_hop
        && (bit_and f 0x30 / 2 ^ 4 == n && bit_and f 0x0F == compr))

flags_table :
    (compr : ℕ)
    → (compr ≡ 0) ⊎ (compr ≡ 8)
    → tabulated (λ n. both_flags (flags_check compr n)) 4 ≡ true
unfolding tabulated both_flags flags_check write_flags
flags_table compr (inl e) = rw e refl
flags_table compr (inr e) = rw e refl

pub flags_fields :
    (reply hop_by_hop : Bool) (n compr : ℕ)
    → n < 4
    → (compr ≡ 0) ⊎ (compr ≡ 8)
    → let f = write_flags reply hop_by_hop n compr in
      (has_flag f 0x80 ≡ reply)
      × (has_flag f 0x40 ≡ hop_by_hop)
      × (bit_and f 0x30 / 2 ^ 4 ≡ n)
      × (bit_and f 0x0F ≡ compr)
unfolding flags_check
flags_fields reply hop_by_hop n compr hn hc =
    let all =
      both_flags_at (flags_check compr n)
        (tabulated_at (λ k. both_flags (flags_check compr k)) 4 n (flags_table compr hc) hn) reply
        hop_by_hop in
    let (e1, r1) = and-true _ _ all in
    let (e2, r2) = and-true _ _ r1 in
    let (e3, e4) = and-true _ _ r2 in
    (bool_eq→eq _ _ e1, bool_eq→eq _ _ e2, (==_iff _ _).0 e3, (==_iff _ _).0 e4)

limits_check : ℕ → ℕ → Bool
limits_check lifetime max_rank =
    let f = write_limits lifetime max_rank in
    bit_and f 0xC0 / 2 ^ 6 == lifetime && bit_and f 0x3F == max_rank

pub limits_fields :
    (lifetime max_rank : ℕ)
    → lifetime < 4
    → max_rank < 64
    → let f = write_limits lifetime max_rank in
      (bit_and f 0xC0 / 2 ^ 6 ≡ lifetime) × (bit_and f 0x3F ≡ max_rank)
unfolding tabulated limits_check write_limits
limits_fields lifetime max_rank hl hm =
    let row = tabulated_at (λ l. tabulated (limits_check l) 64) 4 lifetime refl hl in
    let all = tabulated_at (limits_check lifetime) 64 max_rank row hm in
    let (e1, e2) = and-true _ _ all in ((==_iff _ _).0 e1, (==_iff _ _).0 e2)

-- Compr is four bits.
pub compr-lt : (flags : ℕ) → flags < 256 → bit_and flags 0x0F < 16
unfolding tabulated
compr-lt flags h = ltb→lt _ _ (tabulated_at (λ b. ltb (bit_and b 0x0F) 16) 256 flags refl h)
