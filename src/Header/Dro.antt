-- ===== src/Header/Dro.antt =====
-- RplP2pDroHeader of model/rpl-header.cc: the P2P Discovery Reply Object of RFC 6997.
pub mod RoundTrip
pub mod Safety
use rpl.Base.{
  ℕ, ◌+◌, ◌*◌, ◌/◌, ◌^◌, Bool, false, List, [], ◌∷◌, ◌++◌, length, bit_and, bit_or, ltb, ◌==◌,
  if◌then◌else◌,
}
use rpl.Buffer.{Reader, ◌>>=◌, ◌>>◌, return, read_u8, skip}
use rpl.Ipv6.{Ipv6}
use rpl.Header.Address.{has_flag, read_address}
use rpl.Header.Options.{Handler, walk_options}
use rpl.Header.Options.Whole.{walk_whole}
use rpl.Header.RouteDiscovery
use rpl.Header.RouteDiscovery.{P2pRdoOption, option_p2p_rdo, rdo_size}

pub record DroHeader : Type 0 where
  pub instance_id : ℕ
  pub stop : Bool
  pub ack_requested : Bool
  pub sequence : ℕ
  pub dodag_id : ℕ
  pub has_p2p_rdo : Bool
  pub p2p_rdo : P2pRdoOption

abbrev pub base_size : ℕ
base_size = 20

unfoldable pub write_flags : Bool → Bool → ℕ → ℕ
write_flags stop ack_requested sequence =
    bit_or (bit_or (if stop then 0x80 else 0) (if ack_requested then 0x40 else 0))
      (bit_and (sequence * 2 ^ 4) 0x30)

module _ (net : Ipv6) where
  unfoldable pub get_serialized_size : DroHeader → ℕ
  get_serialized_size h = 20 + (if h.has_p2p_rdo then rdo_size net h.dodag_id h.p2p_rdo else 0)

  unfoldable pub write_option : DroHeader → List ℕ
  write_option h = if h.has_p2p_rdo then RouteDiscovery.serialize net h.dodag_id h.p2p_rdo else []

  unfoldable pub serialize : DroHeader → List ℕ
  serialize h =
      h.instance_id
        ∷ 0
        ∷ write_flags h.stop h.ack_requested h.sequence
        ∷ 0
        ∷ net.serialize h.dodag_id
      ++ write_option h

  -- One option: a later P2P-RDO stands in place of an earlier one, also when it is malformed.
  unfoldable pub handle_option : Handler DroHeader
  handle_option type length h =
      if type == option_p2p_rdo
      then (RouteDiscovery.deserialize net length h.dodag_id h.p2p_rdo >>= λ r.
          return (record h { has_p2p_rdo = r.0; p2p_rdo = r.1 }, false))
      else (skip length >> return (h, false))

  -- The option loop ends with the packet; `old` is what the header held before.
  unfoldable pub deserialize : DroHeader → Reader DroHeader
  deserialize old bytes =
      if ltb (length bytes) base_size
      then return old bytes
      else (do
        instance_id ← read_u8
        version ← read_u8
        flags ← read_u8
        reserved ← read_u8
        dodag_id ← read_address net
        walk_whole (handle_option) (record old {
          instance_id = instance_id;
          stop = has_flag flags 0x80;
          ack_requested = has_flag flags 0x40;
          sequence = bit_and flags 0x30 / 2 ^ 4;
          dodag_id = dodag_id;
          has_p2p_rdo = false;
        }))
          bytes
