-- ===== src/Header/DaoAck/RoundTrip.antt =====
-- A DAO-ACK survives the wire.
use rpl.Base.{ℕ, ◌≡◌, some, List, ◌++◌, length, arith}
use rpl.Header.Address.{read_address-serialize}
use rpl.Ipv6.{Ipv6, IsAddress}
use rpl.Header.DaoAck.{DaoAckHeader, get_serialized_size, serialize, deserialize}

module _ (net : Ipv6) where
  -- Reading back a DAO-ACK that was written, with whatever follows it, gives the DAO-ACK and leaves
  -- what follows; and it takes as many bytes as GetSerializedSize() says. The DODAGID is any
  -- address, :: included.
  pub dao_ack_round_trip :
      (h : DaoAckHeader) (rest : List ℕ)
      → IsAddress h.dodag_id
      → (deserialize net (serialize net h ++ rest) ≡ some (h, rest))
        × (length (serialize net h) ≡ get_serialized_size net h)
  unfolding deserialize serialize get_serialized_size
  dao_ack_round_trip h rest a = (
    ground (arith, read_address-serialize net h.dodag_id rest a),
    ground (arith, net.length-serialize h.dodag_id),
  )
