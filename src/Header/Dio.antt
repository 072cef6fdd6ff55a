-- ===== src/Header/Dio.antt =====
-- RplDioHeader of model/rpl-header.cc: the DIO and what it writes. The fields of one option that the
-- class keeps side by side are a record here.
pub mod Parser
pub mod Fields
pub mod Vectors
pub mod Safety
pub mod Written
pub mod Repeated
pub mod Size
pub mod RoundTrip
use rpl.Base.{
  ℕ, ◌+◌, ◌-◌, ◌*◌, ◌/◌, ◌%◌, ◌^◌, Bool, true, false, List, [], ◌∷◌, ◌++◌, length, bit_and, bit_or,
  ◌==◌, if◌then◌else◌,
}
use rpl.Buffer.{write_u16, write_u32}
use rpl.Ipv6.{Ipv6}
use rpl.Header.AddressVector.{elided_prefix_length, write_vector}
use rpl.Header.RouteDiscovery
use rpl.Header.RouteDiscovery.{P2pRdoOption, rdo_size}

pub record DagConf : Type 0 where
  pub flags : ℕ
  pub interval_doublings : ℕ
  pub interval_min : ℕ
  pub redundancy : ℕ
  pub max_rank_increase : ℕ
  pub min_hop_rank_increase : ℕ
  pub ocp : ℕ
  pub default_lifetime : ℕ
  pub lifetime_unit : ℕ

pub record PrefixInfo : Type 0 where
  pub prefix : ℕ
  pub prefix_length : ℕ
  pub on_link : Bool
  pub autonomous : Bool
  pub valid_lifetime : ℕ
  pub preferred_lifetime : ℕ

pub record RreqOption : Type 0 where
  pub symmetric : Bool
  pub hop_by_hop : Bool
  pub compr : ℕ
  pub lifetime : ℕ
  pub rank_limit : ℕ
  pub orig_seq_no : ℕ
  pub address_vector : List ℕ

pub record RrepOption : Type 0 where
  pub gratuitous : Bool
  pub hop_by_hop : Bool
  pub compr : ℕ
  pub lifetime : ℕ
  pub rank_limit : ℕ
  pub delta : ℕ
  pub address_vector : List ℕ

pub record ArtOption : Type 0 where
  pub dest_seq_no : ℕ
  pub prefix_length : ℕ
  pub target : ℕ

pub record TargetOption : Type 0 where
  pub prefix_length : ℕ
  pub target : ℕ

pub record DioHeader : Type 0 where
  pub instance_id : ℕ
  pub version_number : ℕ
  pub rank : ℕ
  pub grounded : Bool
  pub mop : ℕ
  pub preference : ℕ
  pub dtsn : ℕ
  pub dodag_id : ℕ
  pub has_dag_conf : Bool
  pub dag_conf : DagConf
  pub has_metric_container : Bool
  pub path_etx : ℕ
  pub has_lql : Bool
  pub lql : ℕ
  pub has_prefix_info : Bool
  pub prefix_info : PrefixInfo
  pub has_rreq : Bool
  pub rreq : RreqOption
  pub has_rrep : Bool
  pub rrep : RrepOption
  pub arts : List ArtOption
  pub has_p2p_rdo : Bool
  pub p2p_rdo : P2pRdoOption
  pub targets : List TargetOption

-- AodvMaxAddressVectorEntries().
unfoldable pub max_address_vector_entries : ℕ → ℕ
max_address_vector_entries compr = 252 / (16 - bit_and compr 0x0F)

unfoldable pub write_flags : Bool → ℕ → ℕ → ℕ
write_flags grounded mop preference =
    bit_or (bit_or (if grounded then 0x80 else 0) (bit_and (mop * 2 ^ 3) 0x38))
      (bit_and preference 0x07)

-- The two flag octets of an RREQ or RREP: the option's own first flag, 'H', Compr and the high bit
-- of 'L', then the low bit of 'L' and RankLimit.
unfoldable pub write_discovery_flags : Bool → Bool → ℕ → ℕ → ℕ
write_discovery_flags first hop_by_hop compr lifetime =
    bit_or
      (bit_or (bit_or (if first then 0x80 else 0) (if hop_by_hop then 0x40 else 0))
        (bit_and (compr * 2) 0x1E))
      (bit_and (lifetime / 2) 0x01)

unfoldable pub write_discovery_limits : ℕ → ℕ → ℕ
write_discovery_limits lifetime rank_limit =
    bit_or (if bit_and lifetime 0x01 == 0 then 0 else 0x80) (bit_and rank_limit 0x7F)

unfoldable pub write_delta : ℕ → ℕ
write_delta delta = bit_and (delta * 2 ^ 2) 0xFC

unfoldable pub write_lql : ℕ → ℕ
write_lql lql = bit_or (lql * 2 ^ 4) 0x1 % 256

unfoldable pub write_prefix_flags : Bool → Bool → ℕ
write_prefix_flags on_link autonomous =
    bit_or (if on_link then 0x80 else 0) (if autonomous then 0x40 else 0)

unfoldable pub write_dag_conf : DagConf → List ℕ
write_dag_conf c =
    4
    ∷ 14
    ∷ c.flags
    ∷ c.interval_doublings
    ∷ c.interval_min
    ∷ c.redundancy
    ∷ write_u16 c.max_rank_increase (
        write_u16 c.min_hop_rank_increase
          (write_u16 c.ocp (0 ∷ c.default_lifetime ∷ write_u16 c.lifetime_unit [])))

-- An ETX object and an LQL object, each in a Metric Container of its own.
unfoldable pub write_metric : ℕ → List ℕ
write_metric path_etx = 2 ∷ 6 ∷ 7 ∷ 0 ∷ 0 ∷ 2 ∷ write_u16 path_etx []

unfoldable pub write_lql_container : ℕ → List ℕ
write_lql_container lql = 2 ∷ 6 ∷ 6 ∷ 0 ∷ 0 ∷ 2 ∷ 0 ∷ write_lql lql ∷ []

-- An option that is there only if its flag is set.
unfoldable pub option_if : Bool → List ℕ → List ℕ
option_if there option = if there then option else []

module _ (net : Ipv6) where
  open net use {serialize as address_bytes}

  unfoldable pub write_prefix_info : PrefixInfo → List ℕ
  write_prefix_info p =
      8
      ∷ 26
      ∷ p.prefix_length
      ∷ write_prefix_flags p.on_link p.autonomous
      ∷ write_u32 p.valid_lifetime (write_u32 p.preferred_lifetime (address_bytes p.prefix))

  -- RREQ and RREP share their shape: the third octet is Orig SeqNo or Delta.
  unfoldable pub write_discovery : ℕ → ℕ → Bool → Bool → ℕ → ℕ → ℕ → List ℕ → List ℕ
  write_discovery option_type dodag_id first hop_by_hop lifetime rank_limit third address_vector =
      let compr = elided_prefix_length net dodag_id address_vector in
      option_type
      ∷ (3 + length address_vector * (16 - compr)) % 256
      ∷ write_discovery_flags first hop_by_hop compr lifetime
      ∷ write_discovery_limits lifetime rank_limit
      ∷ third
      ∷ write_vector net compr address_vector

  unfoldable pub write_rreq : ℕ → RreqOption → List ℕ
  write_rreq dodag_id r =
      write_discovery 0x0B dodag_id r.symmetric r.hop_by_hop r.lifetime r.rank_limit r.orig_seq_no
        r.address_vector

  unfoldable pub write_rrep : ℕ → RrepOption → List ℕ
  write_rrep dodag_id r =
      write_discovery 0x0C dodag_id r.gratuitous r.hop_by_hop r.lifetime r.rank_limit
        (write_delta r.delta) r.address_vector

  unfoldable pub write_art : ArtOption → List ℕ
  write_art a = 0x0D ∷ 18 ∷ a.dest_seq_no ∷ bit_and a.prefix_length 0x7F ∷ address_bytes a.target

  unfoldable pub write_arts : List ArtOption → List ℕ
  write_arts [] = []
  write_arts (a ∷ r) = write_art a ++ write_arts r

  unfoldable pub write_target : TargetOption → List ℕ
  write_target t = 5 ∷ 18 ∷ 0 ∷ t.prefix_length ∷ address_bytes t.target

  unfoldable pub write_targets : List TargetOption → List ℕ
  write_targets [] = []
  write_targets (t ∷ r) = write_target t ++ write_targets r

  unfoldable pub write_options : DioHeader → List ℕ
  write_options h =
      option_if h.has_dag_conf (write_dag_conf h.dag_conf)
      ++ (option_if h.has_metric_container (write_metric h.path_etx)
          ++ (option_if h.has_lql (write_lql_container h.lql)
              ++ (option_if h.has_prefix_info (write_prefix_info h.prefix_info)
                  ++ (option_if h.has_rreq (write_rreq h.dodag_id h.rreq)
                      ++ (option_if h.has_rrep (write_rrep h.dodag_id h.rrep)
                          ++ (write_arts h.arts
                              ++ (option_if h.has_p2p_rdo
                                    (RouteDiscovery.serialize net h.dodag_id h.p2p_rdo)
                                  ++ write_targets h.targets)))))))

  unfoldable pub serialize : DioHeader → List ℕ
  serialize h =
      h.instance_id
        ∷ h.version_number
        ∷ write_u16 h.rank
            (write_flags h.grounded h.mop h.preference ∷ h.dtsn ∷ 0 ∷ 0 ∷ address_bytes h.dodag_id)
      ++ write_options h

  unfoldable pub discovery_size : ℕ → List ℕ → ℕ
  discovery_size dodag_id xs = 2 + 3 + length xs * (16 - elided_prefix_length net dodag_id xs)

  unfoldable pub get_serialized_size : DioHeader → ℕ
  get_serialized_size h =
      24
      + (if h.has_dag_conf then 16 else 0)
      + (if h.has_metric_container then 8 else 0)
      + (if h.has_lql then 8 else 0)
      + (if h.has_prefix_info then 28 else 0)
      + (if h.has_rreq then discovery_size h.dodag_id h.rreq.address_vector else 0)
      + (if h.has_rrep then discovery_size h.dodag_id h.rrep.address_vector else 0)
      + length h.arts * 20
      + (if h.has_p2p_rdo then rdo_size net h.dodag_id h.p2p_rdo else 0)
      + length h.targets * 20
