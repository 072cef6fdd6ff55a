-- ===== src/Header/DaoAck.antt =====
-- RplDaoAckHeader of model/rpl-header.cc.
pub mod RoundTrip
use rpl.Base.{ℕ, ◌+◌, Bool, List, [], ◌∷◌, ◌++◌, if◌then◌else◌}
use rpl.Buffer.{Reader, ◌>>=◌, ◌>>◌, return, read_u8}
use rpl.Header.Address.{has_flag, read_address}
use rpl.Ipv6.{Ipv6, any, is_any}

pub record DaoAckHeader : Type 0 where
  pub instance_id : ℕ
  pub sequence : ℕ
  pub status : ℕ
  pub dodag_id : ℕ

abbrev dao_d_flag : ℕ
dao_d_flag = 0x40

module _ (net : Ipv6) where
  open net use {serialize as address_bytes}

  unfoldable pub get_serialized_size : DaoAckHeader → ℕ
  get_serialized_size h = if is_any h.dodag_id then 4 else 20

  unfoldable pub serialize : DaoAckHeader → List ℕ
  serialize h =
      h.instance_id
      ∷ (if is_any h.dodag_id then 0 else dao_d_flag)
      ∷ h.sequence
      ∷ h.status
      ∷ (if is_any h.dodag_id then [] else address_bytes h.dodag_id)

  unfoldable pub deserialize : Reader DaoAckHeader
  deserialize = do
    instance_id ← read_u8
    flags ← read_u8
    sequence ← read_u8
    status ← read_u8
    dodag_id ← if has_flag flags dao_d_flag then read_address net else return any
    return (record {
      instance_id = instance_id;
      sequence = sequence;
      status = status;
      dodag_id = dodag_id;
    })
