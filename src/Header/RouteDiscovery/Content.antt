-- ===== src/Header/RouteDiscovery/Content.antt =====
-- A P2P-RDO survives the wire.
use rpl.Base.{
  ℕ, ◌%◌, ◌∷◌, ◌+◌, ◌-◌, ◌*◌, ◌/◌, ◌≤◌, ◌<◌, ◌^◌, ◌≡◌, ◌⊎◌, inl, inr, refl, sym, true, false, some,
  List, ◌++◌, length, length-append, drop, All, bit_and, ltb, arith,
}
use mathlib.Core.List.{append_assoc}
use mathlib.Core.Path.{subst}
use rpl.Ipv6.{Ipv6, IsAddress}
use rpl.Header.Address.{has_flag}
use rpl.Header.AddressVector.{
  shares_prefix, all_share_prefix, write_vector, read_elided, read_vector,
}
use rpl.Header.AddressVector.Elision.{
  Elides, shares_prefix→Elides, all_share_prefix→All, nothing-Elides, length-elided,
  read_elided-drop, read_vector-write, length-write_vector,
}
use rpl.Header.RouteDiscovery.{
  serialize, option_p2p_rdo, rdo_size, P2pRdoOption, max_address_vector_entries, write_flags,
  write_limits, rdo_compr, write_content, read_route, is_misshapen, deserialize,
}
use rpl.Header.RouteDiscovery.Fields.{flags_fields, limits_fields}

module _ (net : Ipv6) (dodag_id : ℕ) where
  abbrev pub compr_of : P2pRdoOption → ℕ
  compr_of rdo = rdo_compr net dodag_id rdo.target rdo.address_vector

  pub rdo_compr_cases :
      (target : ℕ) (xs : List ℕ)
      → (rdo_compr net dodag_id target xs ≡ 0)
        ⊎ ((rdo_compr net dodag_id target xs ≡ 8)
            × (shares_prefix net dodag_id target ≡ true)
            × (all_share_prefix net dodag_id xs ≡ true))
  unfolding rdo_compr
  rdo_compr_cases target xs = ground arith

  -- Every field fits its bits, the addresses are addresses, and the vector fits the length octet.
  pub record IsWritable (rdo : P2pRdoOption) : Type 0 where
    pub num_routes : rdo.num_routes < 4
    pub lifetime : rdo.lifetime < 4
    pub max_rank : rdo.max_rank_or_nh < 64
    pub target : IsAddress rdo.target
    pub addresses : All IsAddress rdo.address_vector
    pub fits : length rdo.address_vector ≤ max_address_vector_entries (compr_of rdo)

  -- The vector's part of the shape test, at the two values that a sender's Compr has.
  shape :
      (n c : ℕ)
      → (c ≡ 0) ⊎ (c ≡ 8)
      → n ≤ max_address_vector_entries c
      → ((1 + n) * (16 - c) / (16 - c) ≡ 1 + n)
        × (is_misshapen c ((1 + n) * (16 - c)) ≡ false)
        × ((1 + n) * (16 - c) ≤ 253)
  unfolding is_misshapen max_address_vector_entries
  shape n c (inl e) h = rw e (ground arith)
  shape n c (inr e) h = ground arith

  -- The answer, once each value that is read is known.
  pub read_route_found :
      (flags limits entries : ℕ) (rdo : P2pRdoOption) (bytes mid rest : List ℕ)
      → has_flag flags 0x80 ≡ rdo.reply
      → has_flag flags 0x40 ≡ rdo.hop_by_hop
      → bit_and flags 0x30 / 2 ^ 4 ≡ rdo.num_routes
      → bit_and flags 0x0F ≡ rdo.compr
      → bit_and limits 0xC0 / 2 ^ 6 ≡ rdo.lifetime
      → bit_and limits 0x3F ≡ rdo.max_rank_or_nh
      → read_elided net dodag_id (bit_and flags 0x0F) bytes ≡ some (rdo.target, mid)
      → read_vector net entries dodag_id (bit_and flags 0x0F) mid ≡ some (rdo.address_vector, rest)
      → read_route net dodag_id flags limits entries bytes ≡ some ((true, rdo), rest)
  unfolding read_route
  read_route_found flags limits entries rdo bytes mid rest e1 e2 e3 e4 e5 e6 et ev = ground arith

  -- What the option is once it was sent and received: Compr is the one that was sent.
  abbrev pub received : P2pRdoOption → P2pRdoOption
  received rdo = record rdo { compr = compr_of rdo }

  both_elided :
      (rdo : P2pRdoOption)
      → Elides net dodag_id (compr_of rdo) rdo.target
        × All (λ a. Elides net dodag_id (compr_of rdo) a) rdo.address_vector
  both_elided rdo = elim (rdo_compr_cases rdo.target rdo.address_vector) [
    | inl e ↦ at_length 0 (sym e) refl (nothing-Elides net dodag_id rdo.address_vector)
    | inr (e, et, ev) ↦
        at_length 8 (sym e) (shares_prefix→Elides net dodag_id rdo.target et)
          (all_share_prefix→All net dodag_id rdo.address_vector ev)
  ]
    where
      at_length :
          (c : ℕ)
          → c ≡ compr_of rdo
          → Elides net dodag_id c rdo.target
          → All (λ a. Elides net dodag_id c a) rdo.address_vector
          → Elides net dodag_id (compr_of rdo) rdo.target
            × All (λ a. Elides net dodag_id (compr_of rdo) a) rdo.address_vector
      at_length c e t v =
          subst
            (λ k.
              Elides net dodag_id k rdo.target
              × All (λ a. Elides net dodag_id k a) rdo.address_vector)
            e (t, v)

  compr_two : (rdo : P2pRdoOption) → (compr_of rdo ≡ 0) ⊎ (compr_of rdo ≡ 8)
  compr_two rdo = ground (arith, rdo_compr_cases rdo.target rdo.address_vector)

  read_route-written :
      (rdo : P2pRdoOption) (rest : List ℕ)
      → IsWritable rdo
      → read_route net dodag_id
          (write_flags rdo.reply rdo.hop_by_hop rdo.num_routes (compr_of rdo))
          (write_limits rdo.lifetime rdo.max_rank_or_nh)
          (length rdo.address_vector)
          (drop (compr_of rdo) (net.serialize rdo.target)
            ++ (write_vector net (compr_of rdo) rdo.address_vector ++ rest))
        ≡ some ((true, received rdo), rest)
  read_route-written rdo rest w =
      let c : ℕ = compr_of rdo in
      let (e1, e2, e3, e4) =
        flags_fields rdo.reply rdo.hop_by_hop rdo.num_routes c w.num_routes (compr_two rdo) in
      let (e5, e6) = limits_fields rdo.lifetime rdo.max_rank_or_nh w.lifetime w.max_rank in
      let (et, ev) = both_elided rdo in
      let le : c ≤ 16 = ground (arith, compr_two rdo) in
      read_route_found _ _ _ (received rdo) _ (write_vector net c rdo.address_vector ++ rest) rest
        e1 e2 e3 e4 e5 e6 (rw e4 (read_elided-drop net dodag_id c rdo.target _ le et w.target))
        (rw e4 (read_vector-write net dodag_id c rdo.address_vector rest le ev w.addresses))

  -- The octets of a written option's content.
  abbrev pub content_length : P2pRdoOption → ℕ
  content_length rdo = 2 + (1 + length rdo.address_vector) * (16 - compr_of rdo)

  content_fits : (rdo : P2pRdoOption) → IsWritable rdo → content_length rdo ≤ 255
  content_fits rdo w =
      omega (arith, shape (length rdo.address_vector) (compr_of rdo) (compr_two rdo) w.fits)

  pub length-write_content :
      (rdo : P2pRdoOption) → length (write_content net dodag_id rdo) ≡ content_length rdo
  unfolding write_content
  length-write_content rdo =
      let c : ℕ = compr_of rdo in
      let le : c ≤ 16 = ground (arith, compr_two rdo) in
      omega (
        arith,
        length-append (drop c (net.serialize rdo.target)) (write_vector net c rdo.address_vector),
        length-elided net dodag_id c rdo.target le,
        length-write_vector net dodag_id c rdo.address_vector le,
      )

  pub deserialize-write_content :
      (rdo held : P2pRdoOption) (rest : List ℕ)
      → IsWritable rdo
      → deserialize net (content_length rdo) dodag_id held (write_content net dodag_id rdo ++ rest)
        ≡ some ((true, received rdo), rest)
  unfolding deserialize write_content
  deserialize-write_content rdo held rest w =
      let n : ℕ = length rdo.address_vector in
      let c : ℕ = compr_of rdo in
      let (e1, e2, e3, e4) =
        flags_fields rdo.reply rdo.hop_by_hop rdo.num_routes c w.num_routes (compr_two rdo) in
      let (q, shaped, le) = shape n c (compr_two rdo) w.fits in
      let size : content_length rdo - 2 ≡ (1 + n) * (16 - c) = omega arith in
      let long : ltb (content_length rdo) 2 ≡ false = ground arith in
      let one : 1 + n - 1 ≡ n = omega arith in
      rw
        (
          append_assoc (drop c (net.serialize rdo.target)) (write_vector net c rdo.address_vector)
              rest,
          long,
          size,
          e4,
          shaped,
          q,
          one,
        )
        (read_route-written rdo rest w)

  -- The length octet holds the length.
  pub serialize_content :
      (rdo : P2pRdoOption)
      → IsWritable rdo
      → serialize net dodag_id rdo
        ≡ option_p2p_rdo ∷ content_length rdo ∷ write_content net dodag_id rdo
  unfolding serialize
  serialize_content rdo w =
      let octet : content_length rdo % 256 ≡ content_length rdo =
        omega (arith, content_fits rdo w) in
      rw octet refl

  pub length-serialize :
      (rdo : P2pRdoOption) → length (serialize net dodag_id rdo) ≡ rdo_size net dodag_id rdo
  unfolding serialize rdo_size
  length-serialize rdo = omega (arith, length-write_content rdo)
