-- ===== src/Header/Dio/Parser.antt =====
-- RplDioHeader::Deserialize() of model/rpl-header.cc: a branch for each option, and the loop.
use rpl.Base.{
  ℕ, ◌-◌, ◌*◌, ◌/◌, ◌%◌, ◌^◌, min, Bool, true, false, ◌&&◌, ◌||◌, not, Option, none, some, List, [],
  ◌∷◌, ◌++◌, bit_and, bit_or, ltb, leb, ◌==◌, if◌then◌else◌,
}
use rpl.Buffer.{Reader, ◌>>=◌, ◌>>◌, return, read_u8, read_u16, read_u32, skip}
use rpl.Ipv6.{Ipv6}
use rpl.Header.Address.{has_flag, read_address}
use rpl.Header.AddressVector.{read_vector}
use rpl.Header.Options.{Handler}
use rpl.Header.Options.Whole.{walk_whole}
use rpl.Header.RouteDiscovery
use rpl.Header.RouteDiscovery.{option_p2p_rdo}
use rpl.Header.Dio.{DioHeader, max_address_vector_entries}

unfoldable pub read_dag_conf : DioHeader → Reader (DioHeader × Bool)
read_dag_conf h = do
  flags ← read_u8
  interval_doublings ← read_u8
  interval_min ← read_u8
  redundancy ← read_u8
  max_rank_increase ← read_u16
  min_hop_rank_increase ← read_u16
  ocp ← read_u16
  reserved ← read_u8
  default_lifetime ← read_u8
  lifetime_unit ← read_u16
  return (
    record h {
      has_dag_conf = true;
      dag_conf = record {
        flags = flags;
        interval_doublings = interval_doublings;
        interval_min = interval_min;
        redundancy = redundancy;
        max_rank_increase = max_rank_increase;
        min_hop_rank_increase = min_hop_rank_increase;
        ocp = ocp;
        default_lifetime = default_lifetime;
        lifetime_unit = lifetime_unit;
      };
    },
    false,
  )

-- The object of a Metric Container, behind its header: ETX, LQL, or one that is skipped.
unfoldable pub read_object : ℕ → ℕ → DioHeader → Reader (DioHeader × Bool)
read_object mc_type object_length h =
    if mc_type == 7 && object_length == 2
    then (read_u16 >>= λ path_etx.
        return (record h { has_metric_container = true; path_etx = path_etx }, false))
    else if mc_type == 6 && object_length == 2
    then (do
      res ← read_u8
      sub_object ← read_u8
      return (record h { has_lql = true; lql = min (sub_object / 2 ^ 4) 7 }, false))
    else (skip 2 >> return (h, false))

unfoldable pub read_metric : DioHeader → Reader (DioHeader × Bool)
read_metric h = do
  mc_type ← read_u8
  res ← read_u8
  prec ← read_u8
  object_length ← read_u8
  read_object mc_type object_length h

-- What the parser makes of an RREQ or an RREP, before the octets get their names.
pub record Discovery : Type 0 where
  pub first : Bool
  pub hop_by_hop : Bool
  pub compr : ℕ
  pub lifetime : ℕ
  pub rank_limit : ℕ
  pub third : ℕ
  pub address_vector : List ℕ

unfoldable pub read_compr : ℕ → ℕ
read_compr flags = bit_and flags 0x1E / 2

unfoldable pub read_lifetime : ℕ → ℕ → ℕ
read_lifetime flags limits = bit_or (bit_and flags 0x01 * 2) (if has_flag limits 0x80 then 1 else 0)

-- Whether the vector's part of the length is no whole number of entries, or too many.
unfoldable pub is_misshapen : ℕ → ℕ → Bool
is_misshapen compr remaining =
    not (remaining % (16 - compr) == 0)
    || ltb (max_address_vector_entries compr) (remaining / (16 - compr))

unfoldable pub take_rreq : Option Discovery → DioHeader → DioHeader
take_rreq none h = h
take_rreq (some d) h = record h {
  has_rreq = true;
  rreq = record {
    symmetric = d.first;
    hop_by_hop = d.hop_by_hop;
    compr = d.compr;
    lifetime = d.lifetime;
    rank_limit = d.rank_limit;
    orig_seq_no = d.third;
    address_vector = d.address_vector;
  };
}

unfoldable pub take_rrep : Option Discovery → DioHeader → DioHeader
take_rrep none h = h
take_rrep (some d) h = record h {
  has_rrep = true;
  rrep = record {
    gratuitous = d.first;
    hop_by_hop = d.hop_by_hop;
    compr = d.compr;
    lifetime = d.lifetime;
    rank_limit = d.rank_limit;
    delta = bit_and d.third 0xFC / 2 ^ 2;
    address_vector = d.address_vector;
  };
}

module _ (net : Ipv6) where
  unfoldable pub read_prefix_info : DioHeader → Reader (DioHeader × Bool)
  read_prefix_info h = do
    prefix_length ← read_u8
    flags ← read_u8
    valid_lifetime ← read_u32
    preferred_lifetime ← read_u32
    prefix ← read_address net
    return (
      record h {
        has_prefix_info = true;
        prefix_info = record {
          prefix = prefix;
          prefix_length = prefix_length;
          on_link = has_flag flags 0x80;
          autonomous = has_flag flags 0x40;
          valid_lifetime = valid_lifetime;
          preferred_lifetime = preferred_lifetime;
        };
      },
      false,
    )

  unfoldable pub read_entries : ℕ → ℕ → ℕ → ℕ → Reader (Option Discovery)
  read_entries dodag_id flags limits entries = do
    third ← read_u8
    address_vector ← read_vector net entries dodag_id (read_compr flags)
    return (
        some (record {
          first = has_flag flags 0x80;
          hop_by_hop = has_flag flags 0x40;
          compr = read_compr flags;
          lifetime = read_lifetime flags limits;
          rank_limit = bit_and limits 0x7F;
          third = third;
          address_vector = address_vector;
        }))

  -- An RREQ or RREP of three octets or more; a malformed one is skipped.
  unfoldable pub read_discovery : ℕ → ℕ → Reader (Option Discovery)
  read_discovery dodag_id length = do
    flags ← read_u8
    limits ← read_u8
    if is_misshapen (read_compr flags) (length - 3)
        then (skip (length - 2) >> return none)
        else read_entries dodag_id flags limits ((length - 3) / (16 - read_compr flags))

  unfoldable pub read_art : DioHeader → Reader (DioHeader × Bool)
  read_art h = do
    dest_seq_no ← read_u8
    prefix_length ← read_u8
    target ← read_address net
    return (
      record h {
        arts =
            h.arts
            ++ record {
              dest_seq_no = dest_seq_no;
              prefix_length = bit_and prefix_length 0x7F;
              target = target;
            }
              ∷ [];
      },
      false,
    )

  unfoldable pub read_target : DioHeader → Reader (DioHeader × Bool)
  read_target h = do
    flags ← read_u8
    prefix_length ← read_u8
    target ← read_address net
    return (
      record h {
        targets = h.targets ++ record { prefix_length = prefix_length; target = target } ∷ [];
      },
      false,
    )

  unfoldable pub handle_option : Handler DioHeader
  handle_option type length h =
      if type == 4 && length == 14
      then read_dag_conf h
      else if type == 2 && length == 6
      then read_metric h
      else if type == 8 && length == 26
      then read_prefix_info h
      else if type == 0x0B && leb 3 length
      then (read_discovery h.dodag_id length >>= λ d. return (take_rreq d h, false))
      else if type == 0x0C && leb 3 length
      then (read_discovery h.dodag_id length >>= λ d. return (take_rrep d h, false))
      else if type == 0x0D && length == 18
      then read_art h
      else if type == option_p2p_rdo
      then (RouteDiscovery.deserialize net length h.dodag_id h.p2p_rdo >>= λ r.
          return (record h { has_p2p_rdo = r.0; p2p_rdo = r.1 }, false))
      else if type == 5 && length == 18
      then read_target h
      else (skip length >> return (h, false))

  -- The header as the option loop finds it; `old` is what it held before.
  unfoldable pub start_header : DioHeader → ℕ → ℕ → ℕ → ℕ → ℕ → ℕ → DioHeader
  start_header old instance_id version_number rank flags dtsn dodag_id = record old {
    instance_id = instance_id;
    version_number = version_number;
    rank = rank;
    grounded = has_flag flags 0x80;
    mop = bit_and flags 0x38 / 2 ^ 3;
    preference = bit_and flags 0x07;
    dtsn = dtsn;
    dodag_id = dodag_id;
    has_dag_conf = false;
    has_metric_container = false;
    has_lql = false;
    has_prefix_info = false;
    has_rreq = false;
    has_rrep = false;
    has_p2p_rdo = false;
    arts = [];
    targets = [];
  }

  unfoldable pub deserialize : DioHeader → Reader DioHeader
  deserialize old = do
    instance_id ← read_u8
    version_number ← read_u8
    rank ← read_u16
    flags ← read_u8
    dtsn ← read_u8
    unused ← read_u8
    reserved ← read_u8
    dodag_id ← read_address net
    walk_whole handle_option (start_header old instance_id version_number rank flags dtsn dodag_id)
