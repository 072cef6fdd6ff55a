-- ===== src/Header/Runs/Discovery.antt =====
-- The messages that carry discoveries, DIO and P2P-DRO, at concrete values.
use rpl.Base.{
  ℕ, ◌+◌, ◌≤◌, ◌<◌, ◌≡◌, refl, true, false, none, some, List, [], ◌∷◌, ◌++◌, length, replicate,
  arith,
}
use rpl.Buffer.{same_bytes}
use rpl.Ipv6.Network.{network}
use rpl.Header.AddressVector.{elided_prefix_length, all_share_prefix, shares_prefix}
use rpl.Header.RouteDiscovery.{P2pRdoOption, rdo_compr, max_address_vector_entries}
use rpl.Header.RouteDiscovery.Content.{IsWritable}
use rpl.Header.Dro
use rpl.Header.Dro.{DroHeader}
use rpl.Header.Dro.RoundTrip.{
  dro_round_trip, IsSendable as IsSendableDro, after_receiving as after_dro,
}
use rpl.Header.Dro.Safety.{dro_total}
use rpl.Header.Dio
use rpl.Header.Dio.{DioHeader, RreqOption, RrepOption}
use rpl.Header.Dio.RoundTrip.{IsSendable, after_receiving, dio_round_trip}
use rpl.Header.Dio.Parser
use rpl.Header.Dio.Safety.{dio_total}

-- 2001:1::1, whose prefix the routers share.
abbrev origin : ℕ
origin = 0x2001_0001_0000_0000_0000_0000_0000_0001

abbrev rdo : P2pRdoOption
rdo = record {
  reply = true;
  hop_by_hop = true;
  num_routes = 2;
  compr = 0;
  lifetime = 3;
  max_rank_or_nh = 5;
  target = origin + 9;
  address_vector = (origin + 1) ∷ (origin + 2) ∷ [];
}

-- Target and routers lie under the prefix of the origin: eight octets of each are left out.
rdo_elides : rdo_compr network origin rdo.target rdo.address_vector ≡ 8
unfolding network rdo_compr all_share_prefix shares_prefix same_bytes
rdo_elides = refl

rdo_fits :
    length rdo.address_vector
    ≤ max_address_vector_entries (rdo_compr network origin rdo.target rdo.address_vector)
unfolding max_address_vector_entries
rdo_fits = rw rdo_elides (omega arith)

abbrev rdo-IsWritable : IsWritable network origin rdo
rdo-IsWritable = record {
  num_routes = omega arith;
  lifetime = omega arith;
  max_rank = omega arith;
  target = omega arith;
  addresses = omega arith;
  fits = rdo_fits;
}

abbrev dro : DroHeader
dro = record {
  instance_id = 0x81;
  stop = true;
  ack_requested = true;
  sequence = 2;
  dodag_id = origin;
  has_p2p_rdo = true;
  p2p_rdo = rdo;
}

abbrev dro-IsSendable : IsSendableDro network dro
dro-IsSendable = record {
  sequence = omega arith;
  dodag_id = omega arith;
  p2p_rdo = λ e. rdo-IsWritable;
}

dro_round_trip_example :
    (Dro.deserialize network dro (Dro.serialize network dro) ≡ some (after_dro network dro dro, []))
    × (length (Dro.serialize network dro) ≡ Dro.get_serialized_size network dro)
dro_round_trip_example = dro_round_trip network dro dro dro-IsSendable

-- A P2P-RDO that announces 200 octets, of which there is one.
abbrev cut_dro : List ℕ
cut_dro = 0x81 ∷ 0 ∷ 0 ∷ 0 ∷ replicate 16 0 ++ 0x0A ∷ 200 ∷ 7 ∷ []

dro_total_example :
    (length cut_dro < 20 → Dro.deserialize network dro cut_dro ≡ some (dro, cut_dro))
    × (20 ≤ length cut_dro
        → (h : DroHeader) × (rest : List ℕ) × (Dro.deserialize network dro cut_dro ≡ some (h, rest))
          × (length rest ≤ length cut_dro))
dro_total_example = dro_total network dro cut_dro

abbrev dio : DioHeader
dio = record {
  instance_id = 0;
  version_number = 240;
  rank = 0x0300;
  grounded = true;
  mop = 4;
  preference = 5;
  dtsn = 7;
  dodag_id = origin;
  has_dag_conf = true;
  dag_conf = record {
    flags = 0;
    interval_doublings = 8;
    interval_min = 12;
    redundancy = 10;
    max_rank_increase = 0x700;
    min_hop_rank_increase = 0x100;
    ocp = 1;
    default_lifetime = 30;
    lifetime_unit = 60;
  };
  has_metric_container = true;
  path_etx = 300;
  has_lql = true;
  lql = 7;
  has_prefix_info = true;
  prefix_info = record {
    prefix = origin;
    prefix_length = 64;
    on_link = false;
    autonomous = true;
    valid_lifetime = 86400;
    preferred_lifetime = 14400;
  };
  has_rreq = true;
  rreq = record {
    symmetric = true;
    hop_by_hop = false;
    compr = 0;
    lifetime = 3;
    rank_limit = 100;
    orig_seq_no = 9;
    address_vector = (origin + 1) ∷ (origin + 2) ∷ [];
  };
  has_rrep = true;
  rrep = record {
    gratuitous = false;
    hop_by_hop = true;
    compr = 0;
    lifetime = 1;
    rank_limit = 0;
    delta = 63;
    address_vector = [];
  };
  arts = record { dest_seq_no = 1; prefix_length = 0; target = origin + 9 } ∷ [];
  has_p2p_rdo = true;
  p2p_rdo = rdo;
  targets = record { prefix_length = 0; target = origin + 8 } ∷ [];
}

rreq_elides : elided_prefix_length network origin dio.rreq.address_vector ≡ 8
unfolding network elided_prefix_length all_share_prefix shares_prefix same_bytes
rreq_elides = refl

rreq_fits :
    length dio.rreq.address_vector
    ≤ Dio.max_address_vector_entries (elided_prefix_length network origin dio.rreq.address_vector)
unfolding Dio.max_address_vector_entries
rreq_fits = rw rreq_elides (omega arith)

dio-IsSendable : IsSendable network dio
unfolding Dio.max_address_vector_entries elided_prefix_length
dio-IsSendable = record {
  mop = omega arith;
  preference = omega arith;
  dodag_id = omega arith;
  lql = λ e. omega arith;
  prefix_info = λ e. omega arith;
  rreq = λ e. (omega arith, omega arith, omega arith, rreq_fits);
  rrep = λ e. (omega arith, omega arith, tt, omega arith);
  delta = λ e. omega arith;
  arts = omega arith;
  p2p_rdo = λ e. rdo-IsWritable;
  targets = omega arith;
}

dio_round_trip_example :
    (Parser.deserialize network dio (Dio.serialize network dio)
      ≡ some (after_receiving network dio dio, []))
    × (length (Dio.serialize network dio) ≡ Dio.get_serialized_size network dio)
dio_round_trip_example = dio_round_trip network dio dio dio-IsSendable

-- An RREQ with entries of one octet, of which the length announces more than one too many.
abbrev odd_dio : List ℕ
odd_dio = replicate 24 0 ++ 0x0B ∷ 5 ∷ 0x1E ∷ 0 ∷ 1 ∷ 2 ∷ 3 ∷ 0x0C ∷ []

dio_total_example :
    (length odd_dio < 24 → Parser.deserialize network dio odd_dio ≡ none)
    × (24 ≤ length odd_dio
        → (h : DioHeader) × (rest : List ℕ) × (Parser.deserialize network dio odd_dio
            ≡ some (h, rest))
          × (length rest ≤ length odd_dio))
dio_total_example = dio_total network dio odd_dio
