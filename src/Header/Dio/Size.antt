-- ===== src/Header/Dio/Size.antt =====
-- GetSerializedSize() of a DIO is what Serialize() writes.
use rpl.Base.{
  ℕ, ◌+◌, ◌*◌, ◌≡◌, refl, Bool, true, false, List, [], ◌∷◌, ◌++◌, length, length-append,
  if◌then◌else◌, arith,
}
use rpl.Ipv6.{Ipv6}
use rpl.Header.AddressVector.{elided_prefix_length}
use rpl.Header.AddressVector.Elision.{length-write_vector, elided_prefix_length_cases}
use rpl.Header.RouteDiscovery.Content.{length-serialize}
use rpl.Header.Dio.{
  DagConf, PrefixInfo, RreqOption, RrepOption, ArtOption, TargetOption, DioHeader, write_dag_conf,
  write_metric, write_lql_container, option_if, write_prefix_info, write_discovery, write_rreq,
  write_rrep, write_art, write_arts, write_target, write_targets, write_options, discovery_size,
  serialize, get_serialized_size,
}

length-option_if :
    (there : Bool) (option : List ℕ) (n : ℕ)
    → length option ≡ n
    → length (option_if there option) ≡ (if there then n else 0)
unfolding option_if
length-option_if true option n e = e
length-option_if false option n e = refl

module _ (net : Ipv6) where
  length-write_prefix_info : (p : PrefixInfo) → length (write_prefix_info net p) ≡ 28
  unfolding write_prefix_info
  length-write_prefix_info p = omega (arith, net.length-serialize p.prefix)

  length-write_discovery :
      (t d : ℕ) (first hop_by_hop : Bool) (lifetime rank_limit third : ℕ) (xs : List ℕ)
      → length (write_discovery net t d first hop_by_hop lifetime rank_limit third xs)
        ≡ discovery_size net d xs
  unfolding write_discovery discovery_size
  length-write_discovery t d first hop_by_hop lifetime rank_limit third xs = omega (
    arith,
    length-write_vector net d (elided_prefix_length net d xs) xs
        (ground (arith, elided_prefix_length_cases net d xs)),
  )

  length-write_rreq :
      (d : ℕ) (r : RreqOption) → length (write_rreq net d r) ≡ discovery_size net d r.address_vector
  unfolding write_rreq
  length-write_rreq d r = length-write_discovery 0x0B d _ _ _ _ _ r.address_vector

  length-write_rrep :
      (d : ℕ) (r : RrepOption) → length (write_rrep net d r) ≡ discovery_size net d r.address_vector
  unfolding write_rrep
  length-write_rrep d r = length-write_discovery 0x0C d _ _ _ _ _ r.address_vector

  length-write_arts : (xs : List ArtOption) → length (write_arts net xs) ≡ length xs * 20
  unfolding write_arts write_art
  length-write_arts [] = omega arith
  length-write_arts (a ∷ r) = omega (
    arith,
    length-append (net.serialize a.target) (write_arts net r),
    net.length-serialize a.target,
    length-write_arts r,
  )

  length-write_targets : (xs : List TargetOption) → length (write_targets net xs) ≡ length xs * 20
  unfolding write_targets write_target
  length-write_targets [] = omega arith
  length-write_targets (t ∷ r) = omega (
    arith,
    length-append (net.serialize t.target) (write_targets net r),
    net.length-serialize t.target,
    length-write_targets r,
  )

  -- The parts of two lists put together.
  append_sizes :
      (xs ys : List ℕ) (m n : ℕ) → length xs ≡ m → length ys ≡ n → length (xs ++ ys) ≡ m + n
  append_sizes xs ys m n e f = omega (arith, length-append xs ys)

  length-write_dag_conf : (c : DagConf) → length (write_dag_conf c) ≡ 16
  unfolding write_dag_conf
  length-write_dag_conf c = refl

  length-write_metric : (path_etx : ℕ) → length (write_metric path_etx) ≡ 8
  unfolding write_metric
  length-write_metric path_etx = refl

  length-write_lql_container : (lql : ℕ) → length (write_lql_container lql) ≡ 8
  unfolding write_lql_container
  length-write_lql_container lql = refl

  length-write_options :
      (h : DioHeader) → 24 + length (write_options net h) ≡ get_serialized_size net h
  unfolding get_serialized_size write_options
  length-write_options h =
      let d = h.dodag_id in
      omega (
        arith,
        append_sizes _ _ _ _
            (length-option_if h.has_dag_conf _ 16 (length-write_dag_conf h.dag_conf))
            (append_sizes _ _ _ _
              (length-option_if h.has_metric_container _ 8 (length-write_metric h.path_etx))
              (append_sizes _ _ _ _
                (length-option_if h.has_lql _ 8 (length-write_lql_container h.lql))
                (append_sizes _ _ _ _
                  (length-option_if h.has_prefix_info _ 28 (length-write_prefix_info h.prefix_info))
                  (append_sizes _ _ _ _
                    (length-option_if h.has_rreq _ _ (length-write_rreq d h.rreq))
                    (append_sizes _ _ _ _
                      (length-option_if h.has_rrep _ _ (length-write_rrep d h.rrep))
                      (append_sizes _ _ _ _ (length-write_arts h.arts) (
                        append_sizes _ _ _ _
                          (length-option_if h.has_p2p_rdo _ _ (length-serialize net d h.p2p_rdo))
                          (length-write_targets h.targets)))))))),
      )

  pub length-serialize_dio : (h : DioHeader) → length (serialize net h) ≡ get_serialized_size net h
  unfolding serialize
  length-serialize_dio h = omega (
    arith,
    length-append (net.serialize h.dodag_id) (write_options net h),
    net.length-serialize h.dodag_id,
    length-write_options h,
  )
