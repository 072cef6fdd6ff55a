-- ===== src/Header/Dio/Vectors.antt =====
-- An RREQ or RREP that was written is read back, its Address Vector less the elided prefix.
use rpl.Base.{
  ℕ, ◌+◌, ◌-◌, ◌*◌, ◌/◌, ◌%◌, ◌≤◌, ◌<◌, ◌≡◌, ◌⊎◌, inl, inr, refl, ap, bit_and, false, some, List,
  ◌∷◌, ◌++◌, length, All, arith,
}
use rpl.Ipv6.{Ipv6, IsAddress}
use rpl.Header.Address.{has_flag}
use rpl.Header.AddressVector.{elided_prefix_length, write_vector, read_vector}
use rpl.Header.AddressVector.Elision.{
  elided_prefix_length_cases, elided_prefix_length-Elides, read_vector-write, length-write_vector,
}
use rpl.Header.Dio.{
  max_address_vector_entries, write_discovery_flags, write_discovery_limits, write_discovery,
}
use rpl.Header.Dio.Fields.{discovery_fields}
use rpl.Header.Dio.Parser.{
  Discovery, read_compr, is_misshapen, read_lifetime, read_entries, read_discovery,
}

module _ (net : Ipv6) (dodag_id : ℕ) where
  -- The fields fit their bits, the addresses are addresses, and the vector fits the length octet.
  abbrev pub Fits : ℕ → ℕ → List ℕ → Type 0
  Fits lifetime rank_limit xs =
      (lifetime < 4)
      × (rank_limit < 128)
      × All IsAddress xs
      × (length xs ≤ max_address_vector_entries (elided_prefix_length net dodag_id xs))

  abbrev pub content_length : List ℕ → ℕ
  content_length xs = 3 + length xs * (16 - elided_prefix_length net dodag_id xs)

  -- The option's content, behind type and length.
  abbrev pub content : Discovery → List ℕ
  content d =
      write_discovery_flags d.first d.hop_by_hop
        (elided_prefix_length net dodag_id d.address_vector) d.lifetime
      ∷ write_discovery_limits d.lifetime d.rank_limit
      ∷ d.third
      ∷ write_vector net (elided_prefix_length net dodag_id d.address_vector) d.address_vector

  shape :
      (n c : ℕ)
      → (c ≡ 0) ⊎ (c ≡ 8)
      → n ≤ max_address_vector_entries c
      → (n * (16 - c) / (16 - c) ≡ n)
        × (is_misshapen c (n * (16 - c)) ≡ false)
        × (n * (16 - c) ≤ 252)
  unfolding is_misshapen max_address_vector_entries
  shape n c (inl e) h = rw e (ground arith)
  shape n c (inr e) h = rw e (ground arith)

  -- What is received: Compr is the one that was sent.
  abbrev pub received : Discovery → Discovery
  received d = record d { compr = elided_prefix_length net dodag_id d.address_vector }

  compr_le : (xs : List ℕ) → elided_prefix_length net dodag_id xs ≤ 16
  compr_le xs = ground (arith, elided_prefix_length_cases net dodag_id xs)

  read_entries_found :
      (flags limits entries : ℕ) (d : Discovery) (bytes rest : List ℕ)
      → has_flag flags 0x80 ≡ d.first
      → has_flag flags 0x40 ≡ d.hop_by_hop
      → read_compr flags ≡ d.compr
      → read_lifetime flags limits ≡ d.lifetime
      → bit_and limits 0x7F ≡ d.rank_limit
      → read_vector net entries dodag_id d.compr bytes ≡ some (d.address_vector, rest)
      → read_entries net dodag_id flags limits entries (d.third ∷ bytes) ≡ some (some d, rest)
  unfolding read_entries
  read_entries_found flags limits entries d bytes rest e1 e2 e3 e4 e5 ev = ground arith

  read_discovery_found :
      (l flags limits entries : ℕ) (d : Discovery) (body rest : List ℕ)
      → is_misshapen (read_compr flags) (l - 3) ≡ false
      → (l - 3) / (16 - read_compr flags) ≡ entries
      → read_entries net dodag_id flags limits entries body ≡ some (some d, rest)
      → read_discovery net dodag_id l (flags ∷ limits ∷ body) ≡ some (some d, rest)
  unfolding read_discovery
  read_discovery_found l flags limits entries d body rest shaped eq found =
      ground (arith, ap (λ k. read_entries net dodag_id flags limits k body) eq)

  pub read_discovery-written :
      (d : Discovery) (rest : List ℕ)
      → Fits d.lifetime d.rank_limit d.address_vector
      → read_discovery net dodag_id (content_length d.address_vector) (content d ++ rest)
        ≡ some (some (received d), rest)
  read_discovery-written d rest (hl, hr, ha, hn) =
      let n : ℕ = length d.address_vector in
      let c : ℕ = elided_prefix_length net dodag_id d.address_vector in
      let two = elided_prefix_length_cases net dodag_id d.address_vector in
      let (e1, e2, e3, e4, e5) =
        discovery_fields d.first d.hop_by_hop c d.lifetime d.rank_limit two hl hr in
      let (q, shaped, le) = shape n c two hn in
      let size : content_length d.address_vector - 3 ≡ n * (16 - c) = omega arith in
      read_discovery_found (content_length d.address_vector) _ _ n (received d) _ rest
        (rw (size, e3) shaped) (rw (size, e3) q)
        (read_entries_found _ _ n (received d) _ rest e1 e2 e3 e4 e5 (
          read_vector-write net dodag_id c d.address_vector rest (compr_le d.address_vector)
            (elided_prefix_length-Elides net dodag_id d.address_vector) ha))

  pub length-content : (d : Discovery) → length (content d) ≡ content_length d.address_vector
  length-content d = omega (
    arith,
    length-write_vector net dodag_id (elided_prefix_length net dodag_id d.address_vector)
        d.address_vector (compr_le d.address_vector),
  )

  -- The length octet holds the length.
  pub write_discovery-content :
      (option_type : ℕ) (d : Discovery)
      → Fits d.lifetime d.rank_limit d.address_vector
      → write_discovery net option_type dodag_id d.first d.hop_by_hop d.lifetime d.rank_limit
          d.third d.address_vector
        ≡ option_type ∷ content_length d.address_vector ∷ content d
  unfolding write_discovery
  write_discovery-content option_type d (hl, hr, ha, hn) =
      let two = elided_prefix_length_cases net dodag_id d.address_vector in
      let octet : content_length d.address_vector % 256 ≡ content_length d.address_vector = omega (
        arith,
        shape (length d.address_vector) (elided_prefix_length net dodag_id d.address_vector) two hn,
      ) in
      rw octet refl
