-- ===== src/Header/SourceRouting/RoundTrip.antt =====
-- A Routing Header survives the wire.
use rpl.Base.{
  ℕ, ◌+◌, ◌-◌, ◌*◌, ◌/◌, ◌%◌, ◌≤◌, ◌≡◌, ◌⊎◌, inl, inr, refl, min, some, List, [], ◌∷◌, ◌++◌, length,
  length-append, bit_and, bit_or, All, arith,
}
use native.Mathlib.Numerals.{add-one}
use rpl.Buffer.{◌>>=◌}
use rpl.Ipv6.{Ipv6, IsAddress}
use rpl.Header.SourceRouting.{
  SourceRoutingHeader, max_serialized_size, cmpri, cmpre, last_link_local, size_of,
  get_serialized_size, write_addresses, serialize, read_addresses, address_room, address_count,
  read_rest, deserialize,
}
use rpl.Header.SourceRouting.Elision.{
  read_addresses-write, length-write, cmpri_cases, cmpre_cases, chosen-ElidesAll,
}

module _ (net : Ipv6) where
  -- The two nibbles of the fifth octet are Cmpri() and Cmpre().
  nibbles :
      (i e : ℕ)
      → (i ≡ 0) ⊎ (i ≡ 8)
      → (e ≡ 0) ⊎ (e ≡ 8)
      → (bit_or (i * 16) e / 16 ≡ i) × (bit_and (bit_or (i * 16) e) 0x0f ≡ e)
  nibbles i e (inl p) (inl q) = rw (p, q) (refl, refl)
  nibbles i e (inl p) (inr q) = rw (p, q) (refl, refl)
  nibbles i e (inr p) (inl q) = rw (p, q) (refl, refl)
  nibbles i e (inr p) (inr q) = rw (p, q) (refl, refl)

  count_filled :
      (k i e : ℕ)
      → (i ≡ 0) ⊎ (i ≡ 8)
      → (e ≡ 0) ⊎ (e ≡ 8)
      → (address_count (k * (16 - i) + (16 - e)) i e ≡ k + 1)
        × ((k * (16 - i) + (16 - e)) / 8 * 8 ≡ k * (16 - i) + (16 - e))
  unfolding address_count
  count_filled k i e (inl p) (inl q) = ground arith
  count_filled k i e (inl p) (inr q) = ground arith
  count_filled k i e (inr p) (inl q) = ground arith
  count_filled k i e (inr p) (inr q) = ground arith

  cmpri_two : (xs : List ℕ) → (cmpri net xs ≡ 0) ⊎ (cmpri net xs ≡ 8)
  cmpri_two xs = ground (arith, cmpri_cases net xs)

  -- The parser's answer, once each of its intermediate values is known.
  pub read_rest_found :
      (n x t s cmpr pad i e declared : ℕ) (xs bytes rest : List ℕ)
      → min ((x + 1) * 8) (8 + length bytes) ≡ declared
      → cmpr / 16 ≡ i
      → bit_and cmpr 0x0f ≡ e
      → read_addresses net (address_count (address_room declared pad) i e) i e bytes
        ≡ some (xs, rest)
      → read_rest net n x t s cmpr pad bytes
        ≡ some (
          (
            record { next_header = n; type_routing = t; segments_left = s; addresses = xs },
            declared,
          ),
          rest,
        )
  unfolding read_rest
  read_rest_found n x t s cmpr pad i e declared xs bytes rest ed ei ee er =
      rw (ed, ei, ee, er, ◌>>=◌, ed)

  room_left : (d w : ℕ) → d ≡ 8 + w → address_room d 0 ≡ w
  unfolding address_room
  room_left d w e = ground arith

  abbrev written : ℕ → List ℕ → List ℕ
  written a r = write_addresses net (cmpri net (a ∷ r)) (cmpre net (a ∷ r)) (a ∷ r)

  -- A list of addresses takes as much room as Cmpri() and Cmpre() leave, in units of 8, and that
  -- room is read as that many addresses.
  written_room :
      (a : ℕ) (r : List ℕ)
      → (size_of net (a ∷ r) ≡ 8 + length (written a r))
        × (length (written a r) / 8 * 8 ≡ length (written a r))
        × (address_count (length (written a r)) (cmpri net (a ∷ r)) (cmpre net (a ∷ r))
            ≡ length r + 1)
  unfolding size_of
  written_room a r =
      let i = cmpri net (a ∷ r) in
      let e = cmpre net (a ∷ r) in
      let filled = count_filled (length r) i e (cmpri_two (a ∷ r)) (cmpre_cases net (a ∷ r)) in
      let len =
        length-write net i e a r (ground (arith, cmpri_two (a ∷ r)))
          (ground (arith, cmpre_cases net (a ∷ r))) in
      (omega (arith, len), rw len filled.1, rw len filled.0)

  read_rest-written :
      (n t s a : ℕ) (r rest : List ℕ)
      → All IsAddress (a ∷ r)
      → size_of net (a ∷ r) ≤ max_serialized_size
      → read_rest net n
          ((size_of net (a ∷ r) - 8) / 8 % 256)
          t
          s
          (bit_or (cmpri net (a ∷ r) * 16) (cmpre net (a ∷ r)))
          0
          (written a r ++ rest)
        ≡ some (
          (
            record { next_header = n; type_routing = t; segments_left = s; addresses = a ∷ r },
            size_of net (a ∷ r),
          ),
          rest,
        )
  read_rest-written n t s a r rest ia fits =
      let room = written_room a r in
      let both =
        nibbles (cmpri net (a ∷ r)) (cmpre net (a ∷ r)) (cmpri_two (a ∷ r))
          (cmpre_cases net (a ∷ r)) in
      read_rest_found n _ t s _ 0 (cmpri net (a ∷ r)) (cmpre net (a ∷ r)) (size_of net (a ∷ r))
        (a ∷ r) (written a r ++ rest) rest (omega (arith, room, length-append (written a r) rest))
        both.0 both.1
        (rw (room_left (size_of net (a ∷ r)) (length (written a r)) room.0, room.2)
          (rw add-one (read_addresses-write net _ _ (a ∷ r) rest (chosen-ElidesAll net a r) ia)))

  no_addresses :
      (n t s : ℕ) (rest : List ℕ)
      → let h : SourceRoutingHeader = record {
        next_header = n;
        type_routing = t;
        segments_left = s;
        addresses = [];
      } in
        (deserialize net (serialize net h ++ rest) ≡ some ((h, 8), rest))
        × (length (serialize net h) ≡ 8)
  unfolding deserialize serialize cmpri cmpre last_link_local size_of write_addresses address_room
      address_count read_addresses
  no_addresses n t s rest =
      (read_rest_found n 0 t s 0 0 0 0 8 [] rest rest (omega arith) refl refl refl, refl)

  by_list :
      (n t s : ℕ) (xs rest : List ℕ)
      → All IsAddress xs
      → size_of net xs ≤ max_serialized_size
      → let h : SourceRoutingHeader = record {
        next_header = n;
        type_routing = t;
        segments_left = s;
        addresses = xs;
      } in
        (deserialize net (serialize net h ++ rest) ≡ some ((h, size_of net xs), rest))
        × (length (serialize net h) ≡ size_of net xs)
  unfolding deserialize serialize size_of
  by_list n t s [] rest ia fits = no_addresses n t s rest
  by_list n t s (a ∷ r) rest ia fits =
      (read_rest-written n t s a r rest ia fits, omega (arith, written_room a r))

  -- Reading back a Routing Header that was written, with whatever follows it, gives the same header,
  -- leaves what follows, and claims the size that GetSerializedSize() says and that was written: for
  -- any list of addresses, link-local or not, empty or not, that fits the 2048 bytes which
  -- Serialize() asserts.
  pub source_routing_round_trip :
      (h : SourceRoutingHeader) (rest : List ℕ)
      → All IsAddress h.addresses
      → get_serialized_size net h ≤ max_serialized_size
      → (deserialize net (serialize net h ++ rest) ≡ some ((h, get_serialized_size net h), rest))
        × (length (serialize net h) ≡ get_serialized_size net h)
  unfolding get_serialized_size
  source_routing_round_trip h rest ia fits =
      by_list h.next_header h.type_routing h.segments_left h.addresses rest ia fits
