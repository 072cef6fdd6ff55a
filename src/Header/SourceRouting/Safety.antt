-- ===== src/Header/SourceRouting/Safety.antt =====
-- The parser of the Routing Header on any input.
use native.Mathlib.Nat.{div-add-mod}
use native.Mathlib.Numerals.{add-one}
use rpl.Base.{
  ℕ, zero, suc, ◌+◌, ◌-◌, ◌*◌, ◌/◌, ◌≤◌, ◌<◌, ◌≡◌, inl, inr, refl, min, some, List, [], ◌∷◌, ◌++◌,
  length, take, drop, bit_and, ltb, leb, ltb→lt, leb→le, arith, tabulated, tabulated_at, Bool-cases,
  replicate,
}
use rpl.Buffer.{◌>>=◌}
use rpl.Buffer.Reading.{read_bytes_enough}
use rpl.Ipv6.{Ipv6, IsByte, link_local_prefix}
use rpl.Header.SourceRouting.{
  SourceRoutingHeader, read_entry, read_addresses, address_room, address_count, deserialize,
}
use rpl.Header.SourceRouting.RoundTrip.{read_rest_found}

-- What `k` entries take, `i` octets elided from all but the last and `e` from that.
abbrev taken : ℕ → ℕ → ℕ → ℕ
taken zero i e = 0
taken (suc k) i e = k * (16 - i) + (16 - e)

count-fits : (room i e : ℕ) → i < 16 → e < 16 → taken (address_count room i e) i e ≤ room
unfolding address_count
count-fits room i e hi he = elim (Bool-cases (leb (16 - e) room)) [
  | inl enough ↦
      rw (enough, add-one)
        (omega (arith, leb→le _ _ enough, div-add-mod (room - (16 - e)) (16 - i)))
  | inr short ↦ rw short (omega arith)
]

room-fits : (declared pad : ℕ) → address_room declared pad ≤ declared - 8
unfolding address_room
room-fits declared pad = ground arith

module _ (net : Ipv6) where
  read_entry_enough :
      (n : ℕ) (bytes : List ℕ)
      → 16 - n ≤ length bytes
      → (a : ℕ) × (rest : List ℕ) × (read_entry net n bytes ≡ some (a, rest))
        × (length bytes ≡ length rest + (16 - n))
  unfolding read_entry
  read_entry_enough n bytes h = (
    net.deserialize
        (take (min n 8) link_local_prefix ++ (replicate (n - min n 8) 0 ++ take (16 - n) bytes)),
    drop (16 - n) bytes,
    ground (arith, read_bytes_enough (16 - n) bytes h),
    omega (arith, read_bytes_enough (16 - n) bytes h),
  )

  read_addresses_enough :
      (k i e : ℕ) (bytes : List ℕ)
      → taken k i e ≤ length bytes
      → (xs : List ℕ) × (rest : List ℕ) × (read_addresses net k i e bytes ≡ some (xs, rest))
        × (length xs ≡ k)
        × (length bytes ≡ length rest + taken k i e)
  unfolding read_addresses
  read_addresses_enough zero i e bytes h = ([], bytes, refl, refl, omega arith)
  read_addresses_enough (suc zero) i e bytes h =
      let (a, rest, ea, la) = read_entry_enough e bytes (omega arith) in
      (a ∷ [], rest, rw (ea, ◌>>=◌), refl, omega arith)
  read_addresses_enough (suc (suc k)) i e bytes h =
      let (a, mid, ea, la) = read_entry_enough i bytes (omega arith) in
      let (xs, rest, ex, lx, lm) = read_addresses_enough (suc k) i e mid (omega arith) in
      (a ∷ xs, rest, ground arith, omega arith, omega arith)

  nibble-lt : (c : ℕ) → c < 256 → (c / 16 < 16) × (bit_and c 0x0f < 16)
  unfolding tabulated
  nibble-lt c h =
      (omega arith, ltb→lt _ _ (tabulated_at (λ b. ltb (bit_and b 0x0f) 16) 256 c refl h))

  -- On any eight bytes with any bytes `body` behind them, the parser does not read past the end,
  -- reads no further than the size that it claims, and claims no more than is there and no more
  -- than Hdr Ext Len declares.
  pub source_routing_total :
      (n x t s c p q r : ℕ) (body : List ℕ)
      → IsByte c
      → (h : SourceRoutingHeader) × (size : ℕ) × (rest : List ℕ) × (deserialize net
            (n ∷ x ∷ t ∷ s ∷ c ∷ p ∷ q ∷ r ∷ body)
          ≡ some ((h, size), rest))
        × (size ≡ min ((x + 1) * 8) (8 + length body))
        × (8 + length body ≤ size + length rest)
  unfolding deserialize
  source_routing_total n x t s c p q r body hc =
      let declared = min ((x + 1) * 8) (8 + length body) in
      let i = c / 16 in
      let e = bit_and c 0x0f in
      let (hi, he) = nibble-lt c hc in
      let room = address_room declared (p / 16) in
      let (xs, rest, ex, lx, lb) =
        read_addresses_enough (address_count room i e) i e body
          (omega (arith, count-fits room i e hi he, room-fits declared (p / 16))) in
      (
        record { next_header = n; type_routing = t; segments_left = s; addresses = xs },
        declared,
        rest,
        read_rest_found net n x t s c (p / 16) i e declared xs body rest refl refl refl ex,
        refl,
        omega (arith, count-fits room i e hi he, room-fits declared (p / 16)),
      )
