-- ===== src/Header/Dio/RoundTrip.antt =====
-- A DIO survives the wire.
use rpl.Base.{◌<◌, ◌≡◌, refl, ◌∙◌, true, false, some, [], length, All, if◌then◌else◌}
use rpl.Buffer.{◌>>=◌}
use rpl.Ipv6.{Ipv6, IsAddress}
use rpl.Header.Address.{read_address-serialize}
use rpl.Header.RouteDiscovery.Content
use rpl.Header.RouteDiscovery.Content.{IsWritable}
use rpl.Header.Dio.{DioHeader, write_flags, write_options, serialize, get_serialized_size}
use rpl.Header.Dio.Fields.{base_fields}
use rpl.Header.Dio.Parser.{start_header, deserialize}
use rpl.Header.Dio.Vectors.{Fits}
use rpl.Header.Dio.Written.{
  u16, walk, walk_dag_conf, walk_metric, walk_lql, walk_prefix_info, received_rreq, received_rrep,
  walk_rreq, walk_rrep,
}
use rpl.Header.Dio.Repeated.{IsArt, walk_arts, walk_targets, walk_rdo}
use rpl.Header.Dio.Size.{length-serialize_dio}

module _ (net : Ipv6) where
  -- Every field fits its bits, every address is one, and each option that is there fits its length
  -- octet.
  pub record IsSendable (h : DioHeader) : Type 0 where
    pub mop : h.mop < 8
    pub preference : h.preference < 8
    pub dodag_id : IsAddress h.dodag_id
    pub lql : h.has_lql ≡ true → h.lql < 8
    pub prefix_info : h.has_prefix_info ≡ true → IsAddress h.prefix_info.prefix
    pub rreq :
        h.has_rreq ≡ true
        → Fits net h.dodag_id h.rreq.lifetime h.rreq.rank_limit h.rreq.address_vector
    pub rrep :
        h.has_rrep ≡ true
        → Fits net h.dodag_id h.rrep.lifetime h.rrep.rank_limit h.rrep.address_vector
    pub delta : h.has_rrep ≡ true → h.rrep.delta < 64
    pub arts : All (IsArt net) h.arts
    pub p2p_rdo : h.has_p2p_rdo ≡ true → IsWritable net h.dodag_id h.p2p_rdo
    pub targets : All (λ t. IsAddress t.target) h.targets

  -- What a header that held `old` holds after `h` was received: what `h` held, with the Compr that
  -- was sent; the contents of an option that `h` does not have are those held before.
  abbrev pub after_receiving : DioHeader → DioHeader → DioHeader
  after_receiving old h = record h {
    dag_conf = if h.has_dag_conf then h.dag_conf else old.dag_conf;
    path_etx = if h.has_metric_container then h.path_etx else old.path_etx;
    lql = if h.has_lql then h.lql else old.lql;
    prefix_info = if h.has_prefix_info then h.prefix_info else old.prefix_info;
    rreq = if h.has_rreq then received_rreq net h.dodag_id h.rreq else old.rreq;
    rrep = if h.has_rrep then received_rrep net h.dodag_id h.rrep else old.rrep;
    p2p_rdo = if h.has_p2p_rdo then Content.received net h.dodag_id h.p2p_rdo else old.p2p_rdo;
  }

  -- The header as the options find it.
  abbrev base : DioHeader → DioHeader → DioHeader
  base old h = record old {
    instance_id = h.instance_id;
    version_number = h.version_number;
    rank = h.rank;
    grounded = h.grounded;
    mop = h.mop;
    preference = h.preference;
    dtsn = h.dtsn;
    dodag_id = h.dodag_id;
    has_dag_conf = false;
    has_metric_container = false;
    has_lql = false;
    has_prefix_info = false;
    has_rreq = false;
    has_rrep = false;
    has_p2p_rdo = false;
    arts = [];
    targets = [];
  }

  walk_options :
      (old h : DioHeader)
      → IsSendable h
      → walk net (base old h) (write_options net h) ≡ some (after_receiving old h, [])
  unfolding write_options
  walk_options old h w =
      walk_dag_conf net h.has_dag_conf h.dag_conf _ _ refl
      ∙ walk_metric net h.has_metric_container h.path_etx _ _ refl
      ∙ walk_lql net h.has_lql h.lql _ _ w.lql refl
      ∙ walk_prefix_info net h.has_prefix_info h.prefix_info _ _ w.prefix_info refl
      ∙ walk_rreq net h.has_rreq h.rreq _ _ w.rreq refl
      ∙ walk_rrep net h.has_rrep h.rrep _ _ w.rrep w.delta refl
      ∙ walk_arts net h.arts _ _ w.arts
      ∙ walk_rdo net h.has_p2p_rdo h.p2p_rdo _ _ w.p2p_rdo refl
      ∙ walk_targets net h.targets _ w.targets

  start_header-base :
      (old h : DioHeader)
      → h.mop < 8
      → h.preference < 8
      → start_header net old h.instance_id h.version_number h.rank
          (write_flags h.grounded h.mop h.preference)
          h.dtsn
          h.dodag_id
        ≡ base old h
  unfolding start_header
  start_header-base old h hm hp =
      let (e1, e2, e3) = base_fields h.grounded h.mop h.preference hm hp in rw (e1, e2, e3) refl

  -- A DIO that was sent is received as it was, whatever the receiver's header held before: with any
  -- choice of options, any numbers of ART and Target options, and Address Vectors with or without an
  -- elided prefix. Nothing is left unread, and it is as long as GetSerializedSize() says.
  pub dio_round_trip :
      (old h : DioHeader)
      → IsSendable h
      → (deserialize net old (serialize net h) ≡ some (after_receiving old h, []))
        × (length (serialize net h) ≡ get_serialized_size net h)
  unfolding deserialize serialize
  dio_round_trip old h w = (
    rw
        (
          read_address-serialize net h.dodag_id (write_options net h) w.dodag_id,
          ◌>>=◌,
          u16 h.rank,
          start_header-base old h w.mop w.preference,
        )
        (walk_options old h w),
    length-serialize_dio net h,
  )
