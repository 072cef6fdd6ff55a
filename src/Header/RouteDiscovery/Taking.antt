-- ===== src/Header/RouteDiscovery/Taking.antt =====
-- The parser of a P2P-RDO takes just the octets that the declared length announces.
use native.Mathlib.Nat.{div-add-mod}
use rpl.Base.{
  ℕ, suc, ◌+◌, ◌-◌, ◌*◌, ◌/◌, ◌%◌, ◌≤◌, ◌^◌, ◌≡◌, inl, inr, refl, ap, if◌then◌else◌, Bool, true,
  false, some, List, [], ◌∷◌, length, drop, length-drop, bit_and, ltb, Bool-cases, arith,
}
use rpl.Buffer.{◌>>=◌, ◌>>◌, return, read_u8, skip}
use rpl.Buffer.Reading.{skip_enough}
use rpl.Ipv6.{Ipv6}
use rpl.Header.Address.{has_flag}
use rpl.Header.AddressVector.Elision.{read_elided_enough, read_vector_enough}
use rpl.Header.RouteDiscovery.{P2pRdoOption, read_route, is_misshapen, deserialize}
use rpl.Header.RouteDiscovery.Content.{read_route_found}

module _ (net : Ipv6) (dodag_id : ℕ) where
  -- Where the shape is right, a target and the entries fill what the length leaves.
  blocks_fill :
      (c remaining : ℕ)
      → is_misshapen c remaining ≡ false
      → (16 - c) + (remaining / (16 - c) - 1) * (16 - c) ≡ remaining
  unfolding is_misshapen
  blocks_fill c remaining h = at_size (16 - c) (ground arith) (ground arith)
    where
      at_size :
          (e : ℕ) → remaining % e ≡ 0 → 1 ≤ remaining / e → e + (remaining / e - 1) * e ≡ remaining
      at_size e whole some_block =
          let q : ℕ = remaining / e in
          let split : q ≡ suc (q - 1) = omega arith in
          omega (arith, div-add-mod remaining e, ap (λ (k : ℕ). e * k) split)

  skip_takes :
      (l : ℕ) (r : Bool × P2pRdoOption) (body : List ℕ)
      → l ≤ length body
      → ((skip l >> return r) body ≡ some (r, drop l body))
        × (length body ≡ length (drop l body) + l)
  skip_takes l r body h = (rw (skip_enough l body h, ◌>>=◌) refl, omega (arith, length-drop l body))

  read_route_takes :
      (flags limits remaining : ℕ) (body : List ℕ)
      → is_misshapen (bit_and flags 0x0F) remaining ≡ false
      → remaining ≤ length body
      → (r : Bool × P2pRdoOption) × (rest : List ℕ) × (read_route net dodag_id flags limits
            (remaining / (16 - bit_and flags 0x0F) - 1)
            body
          ≡ some (r, rest))
        × (length body ≡ length rest + remaining)
  read_route_takes flags limits remaining body shaped h =
      let c : ℕ = bit_and flags 0x0F in
      let filled = blocks_fill c remaining shaped in
      let (t, mid, et, lt) = read_elided_enough net dodag_id c body (omega arith) in
      let (xs, rest, ex, lx) =
        read_vector_enough net dodag_id (remaining / (16 - c) - 1) c mid (omega arith) in
      let found : P2pRdoOption = record {
        reply = has_flag flags 0x80;
        hop_by_hop = has_flag flags 0x40;
        num_routes = bit_and flags 0x30 / 2 ^ 4;
        compr = c;
        lifetime = bit_and limits 0xC0 / 2 ^ 6;
        max_rank_or_nh = bit_and limits 0x3F;
        target = t;
        address_vector = xs;
      } in
      (
        (true, found),
        rest,
        read_route_found net dodag_id flags limits _ found body mid rest refl refl refl refl refl
            refl et ex,
        omega arith,
      )

  -- An option's content is taken whole, and no octet more, whether it is taken or skipped.
  pub rdo_takes :
      (l : ℕ) (held : P2pRdoOption) (body : List ℕ)
      → l ≤ length body
      → (r : Bool × P2pRdoOption) × (rest : List ℕ) × (deserialize net l dodag_id held body
          ≡ some (r, rest))
        × (length body ≡ length rest + l)
  unfolding deserialize
  rdo_takes l held body h = elim (Bool-cases (ltb l 2)) [
    | inl short ↦
        let (e, le) = skip_takes l (false, held) body h in
        ((false, held), drop l body, rw short e, le)
    | inr long ↦ rw long (behind_flags body h (ground arith))
  ]
    where
      behind_flags :
          (body : List ℕ)
          → l ≤ length body
          → 2 ≤ l
          → (r : Bool × P2pRdoOption) × (rest : List ℕ) × ((do
            flags ← read_u8
            limits ← read_u8
            if is_misshapen (bit_and flags 0x0F) (l - 2)
                then (skip (l - 2) >> return (false, held))
                else read_route net dodag_id flags limits ((l - 2) / (16 - bit_and flags 0x0F) - 1))
                body
              ≡ some (r, rest))
            × (length body ≡ length rest + l)
      behind_flags [] h long = absurd (omega arith)
      behind_flags (f ∷ []) h long = absurd (omega arith)
      behind_flags (f ∷ m ∷ bs) h long = elim (Bool-cases (is_misshapen (bit_and f 0x0F) (l - 2))) [
        | inl bad ↦
            let (e, le) = skip_takes (l - 2) (false, held) bs (omega arith) in
            ((false, held), drop (l - 2) bs, rw bad e, omega arith)
        | inr good ↦
            let (r, rest, e, le) = read_route_takes f m (l - 2) bs good (omega arith) in
            (r, rest, rw good e, omega arith)
      ]
