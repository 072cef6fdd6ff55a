-- ===== src/Header/DroAck/RoundTrip.antt =====
-- A P2P-DRO-ACK survives the wire, and no input makes its parser read past the end.
use rpl.Base.{
  ℕ, ◌*◌, ◌/◌, ◌^◌, ◌≤◌, ◌<◌, ◌≡◌, refl, some, List, [], ◌∷◌, ◌++◌, length, take, drop,
  length-append, bit_and, tabulated, tabulated_eq, arith,
}
use rpl.Ipv6.{Ipv6, IsAddress}
use rpl.Header.Address.{read_address-serialize, read_address_enough}
use rpl.Header.DroAck.{DroAckHeader, size, serialize, deserialize}

sequence_bits : (s : ℕ) → s < 4 → bit_and (bit_and (s * 2 ^ 6) 0xC0) 0xC0 / 2 ^ 6 ≡ s
unfolding tabulated
sequence_bits = tabulated_eq 4 _ (λ s. s) refl

module _ (net : Ipv6) where
  read_fields_total :
      (old : DroAckHeader) (bytes : List ℕ)
      → size ≤ length bytes
      → (h : DroAckHeader) × (deserialize net old bytes ≡ some (h, drop size bytes))
  unfolding deserialize
  read_fields_total old (a ∷ b ∷ c ∷ d ∷ bs) le = (
    record {
      instance_id = a;
      sequence = bit_and c 0xC0 / 2 ^ 6;
      dodag_id = net.deserialize (take 16 bs);
    },
    ground (arith, read_address_enough net bs),
  )
  read_fields_total old [] le = absurd (omega arith)
  read_fields_total old (a ∷ []) le = absurd (omega arith)
  read_fields_total old (a ∷ b ∷ []) le = absurd (omega arith)
  read_fields_total old (a ∷ b ∷ c ∷ []) le = absurd (omega arith)

  -- Reading back a P2P-DRO-ACK with a two-bit Seq and any DODAGID that was written, with whatever
  -- follows it, gives it back and leaves what follows, whatever the header held before; it is 20
  -- bytes long.
  pub dro_ack_round_trip :
      (old h : DroAckHeader) (rest : List ℕ)
      → h.sequence < 4
      → IsAddress h.dodag_id
      → (deserialize net old (serialize net h ++ rest) ≡ some (h, rest))
        × (length (serialize net h) ≡ size)
  unfolding deserialize serialize
  dro_ack_round_trip old h rest s a = (
    ground (
      arith,
      net.length-serialize h.dodag_id,
      length-append (net.serialize h.dodag_id) rest,
      sequence_bits h.sequence s,
      read_address-serialize net h.dodag_id rest a,
    ),
    ground (arith, net.length-serialize h.dodag_id),
  )

  -- Whatever bytes arrive, the parser never reads past their end: on fewer than 20 it leaves the
  -- header and the bytes as they were, on 20 or more it takes 20.
  pub dro_ack_total :
      (old : DroAckHeader) (bytes : List ℕ)
      → (length bytes < size → deserialize net old bytes ≡ some (old, bytes))
        × (size ≤ length bytes
            → (h : DroAckHeader) × (deserialize net old bytes ≡ some (h, drop size bytes)))
  unfolding deserialize
  dro_ack_total old bytes = ((λ lt. ground arith), λ le. read_fields_total old bytes le)
