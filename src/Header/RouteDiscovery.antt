-- ===== src/Header/RouteDiscovery.antt =====
-- The P2P Route Discovery Option of model/rpl-header.cc (P2pRdoOption and the functions P2pRdo*):
-- what a DIO of P2P mode and a P2P-DRO carry.
pub mod Fields
pub mod Content
pub mod Taking
use rpl.Base.{
  ℕ, ◌+◌, ◌-◌, ◌*◌, ◌/◌, ◌%◌, ◌^◌, Bool, true, false, ◌&&◌, ◌||◌, not, List, ◌∷◌, ◌++◌, length,
  drop, bit_and, bit_or, ltb, ◌==◌, if◌then◌else◌,
}
use rpl.Buffer.{Reader, ◌>>=◌, ◌>>◌, return, read_u8, skip}
use rpl.Ipv6.{Ipv6}
use rpl.Header.Address.{has_flag}
use rpl.Header.AddressVector.{
  shares_prefix, all_share_prefix, write_vector, read_elided, read_vector,
}

pub record P2pRdoOption : Type 0 where
  pub reply : Bool
  pub hop_by_hop : Bool
  pub num_routes : ℕ
  pub compr : ℕ
  pub lifetime : ℕ
  pub max_rank_or_nh : ℕ
  pub target : ℕ
  pub address_vector : List ℕ

abbrev pub option_p2p_rdo : ℕ
option_p2p_rdo = 0x0A

abbrev pub max_rank_mask : ℕ
max_rank_mask = 0x3F

-- RplP2pMaxAddressVectorEntries(): the target takes one block of the 253 octets.
unfoldable pub max_address_vector_entries : ℕ → ℕ
max_address_vector_entries compr =
    let blocks : ℕ = 253 / (16 - bit_and compr 0x0F) in
    let entries : ℕ = if ltb 0 blocks then blocks - 1 else 0 in
    if ltb entries max_rank_mask then entries else max_rank_mask

unfoldable pub write_flags : Bool → Bool → ℕ → ℕ → ℕ
write_flags reply hop_by_hop num_routes compr =
    bit_or
      (bit_or (bit_or (if reply then 0x80 else 0) (if hop_by_hop then 0x40 else 0))
        (bit_and (num_routes * 2 ^ 4) 0x30))
      (bit_and compr 0x0F)

unfoldable pub write_limits : ℕ → ℕ → ℕ
write_limits lifetime max_rank_or_nh =
    bit_or (bit_and (lifetime * 2 ^ 6) 0xC0) (bit_and max_rank_or_nh max_rank_mask)

-- Whether the declared length is no whole number of blocks, none, or too many.
unfoldable pub is_misshapen : ℕ → ℕ → Bool
is_misshapen compr remaining =
    let blocks : ℕ = remaining / (16 - compr) in
    not (remaining % (16 - compr) == 0)
    || (ltb blocks 1 || ltb (max_address_vector_entries compr) (blocks - 1))

module _ (net : Ipv6) where
  -- P2pRdoCompr().
  unfoldable pub rdo_compr : ℕ → ℕ → List ℕ → ℕ
  rdo_compr dodag_id target address_vector =
      if shares_prefix net dodag_id target && all_share_prefix net dodag_id address_vector
      then 8
      else 0

  -- P2pRdoSerializedSize().
  unfoldable pub rdo_size : ℕ → P2pRdoOption → ℕ
  rdo_size dodag_id rdo =
      4 + (1 + length rdo.address_vector) * (16 - rdo_compr dodag_id rdo.target rdo.address_vector)

  -- The content of the option, behind type and length.
  unfoldable pub write_content : ℕ → P2pRdoOption → List ℕ
  write_content dodag_id rdo =
      let compr = rdo_compr dodag_id rdo.target rdo.address_vector in
      write_flags rdo.reply rdo.hop_by_hop rdo.num_routes compr
      ∷ write_limits rdo.lifetime rdo.max_rank_or_nh
      ∷ (drop compr (net.serialize rdo.target) ++ write_vector net compr rdo.address_vector)

  -- P2pRdoSerialize(), past its assertion that the vector fits.
  unfoldable pub serialize : ℕ → P2pRdoOption → List ℕ
  serialize dodag_id rdo =
      option_p2p_rdo
      ∷ (2
          + (1 + length rdo.address_vector)
            * (16 - rdo_compr dodag_id rdo.target rdo.address_vector))
        % 256
      ∷ write_content dodag_id rdo

  -- Target and Address Vector, once the declared length fits them.
  unfoldable pub read_route : ℕ → ℕ → ℕ → ℕ → Reader (Bool × P2pRdoOption)
  read_route dodag_id flags limits entries = do
    target ← read_elided net dodag_id (bit_and flags 0x0F)
    address_vector ← read_vector net entries dodag_id (bit_and flags 0x0F)
    return (
      true,
      record {
        reply = has_flag flags 0x80;
        hop_by_hop = has_flag flags 0x40;
        num_routes = bit_and flags 0x30 / 2 ^ 4;
        compr = bit_and flags 0x0F;
        lifetime = bit_and limits 0xC0 / 2 ^ 6;
        max_rank_or_nh = bit_and limits max_rank_mask;
        target = target;
        address_vector = address_vector;
      },
    )

  -- P2pRdoDeserialize(): whether there is an option, and the option, which is the one held before
  -- if there is none.
  unfoldable pub deserialize : ℕ → ℕ → P2pRdoOption → Reader (Bool × P2pRdoOption)
  deserialize length dodag_id held =
      if ltb length 2 then (skip length >> return (false, held)) else do
        flags ← read_u8
        limits ← read_u8
        if is_misshapen (bit_and flags 0x0F) (length - 2)
            then (skip (length - 2) >> return (false, held))
            else read_route dodag_id flags limits ((length - 2) / (16 - bit_and flags 0x0F) - 1)
