-- ===== src/Header/DroAck.antt =====
-- RplP2pDroAckHeader of model/rpl-header.cc (RFC 6997 section 10).
pub mod RoundTrip
use rpl.Base.{
  ℕ, zero, suc, ◌+◌, ◌*◌, ◌/◌, ◌%◌, ◌^◌, Option, none, some, List, [], ◌∷◌, ◌++◌, length, bit_and,
  ltb, if◌then◌else◌,
}
use rpl.Buffer.{Reader, ◌>>=◌, ◌>>◌, return, read_u8}
use rpl.Header.Address.{read_address}
use rpl.Ipv6.{Ipv6}

pub record DroAckHeader : Type 0 where
  pub instance_id : ℕ
  pub sequence : ℕ
  pub dodag_id : ℕ

abbrev pub size : ℕ
size = 20

abbrev seq_shift : ℕ
seq_shift = 6

abbrev seq_mask : ℕ
seq_mask = 0xC0

module _ (net : Ipv6) where
  open net use {serialize as address_bytes}

  unfoldable pub serialize : DroAckHeader → List ℕ
  serialize h =
      h.instance_id
      ∷ 0
      ∷ bit_and (h.sequence * 2 ^ seq_shift) seq_mask
      ∷ 0
      ∷ address_bytes h.dodag_id

  -- The fields after the size check.
  read_fields : Reader DroAckHeader
  read_fields = do
    instance_id ← read_u8
    version ← read_u8
    flags ← read_u8
    reserved ← read_u8
    dodag_id ← read_address net
    return (record {
      instance_id = instance_id;
      sequence = bit_and flags seq_mask / 2 ^ seq_shift;
      dodag_id = dodag_id;
    })

  -- A message too short for the fixed fields consumes nothing and leaves the header `old` as it was.
  unfoldable pub deserialize : DroAckHeader → Reader DroAckHeader
  unfolding read_fields
  deserialize old bytes = if ltb (length bytes) size then some (old, bytes) else read_fields bytes
