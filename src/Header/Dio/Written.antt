-- ===== src/Header/Dio/Written.antt =====
-- Each option of a DIO as the loop reads it behind those before it: an option that is there is
-- taken, one that is not leaves what the header held.
use rpl.Base.{
  ℕ, ◌+◌, ◌*◌, ◌/◌, ◌%◌, ◌^◌, ◌<◌, ◌≡◌, refl, ap, ◌∙◌, Bool, true, false, Option, some, List, ◌∷◌,
  ◌++◌, length, drop, if◌then◌else◌, arith,
}
use rpl.Buffer.{◌>>=◌, return}
use rpl.Ipv6.{Ipv6, IsAddress}
use rpl.Header.Address.{read_address-serialize}
use rpl.Header.AddressVector.{elided_prefix_length}
use rpl.Header.Options.Whole.{walk_whole, walk_whole_step}
use rpl.Header.Dio.{
  DagConf, PrefixInfo, RreqOption, RrepOption, DioHeader, write_dag_conf, write_metric,
  write_lql_container, option_if, write_prefix_info, write_delta, write_rreq, write_rrep,
}
use rpl.Header.Dio.Fields.{delta_field, lql_field, prefix_flags_fields}
use rpl.Header.Dio.Parser.{
  Discovery, read_dag_conf, read_object, read_metric, take_rreq, take_rrep, read_prefix_info,
  read_discovery, handle_option,
}
use rpl.Header.Dio.Safety.{handle_option-StaysInside}
use rpl.Header.Dio.Vectors.{
  Fits, content, content_length, read_discovery-written, length-content, write_discovery-content,
}

-- The octets of a uint16_t and of a uint32_t give it back.
pub u16 : (v : ℕ) → v / 256 * 256 + v % 256 ≡ v
u16 v = omega arith

u32 :
    (v : ℕ) → (v / 2 ^ 24 * 256 + v / 2 ^ 16 % 256) * 2 ^ 16 + (v / 2 ^ 8 % 256 * 256 + v % 256) ≡ v
u32 v = omega arith

module _ (net : Ipv6) where
  abbrev pub walk : DioHeader → List ℕ → Option (DioHeader × List ℕ)
  walk = walk_whole (handle_option net)

  -- An option whose branch is known.
  pub step :
      (t l : ℕ) (s s' : DioHeader) (body rest : List ℕ)
      → 0 < t
      → length body ≡ l
      → handle_option net t l s (body ++ rest) ≡ some ((s', false), rest)
      → walk s (t ∷ l ∷ (body ++ rest)) ≡ walk s' rest
  step t l s s' body rest ht hl hh =
      walk_whole_step (handle_option net) t l s s' body rest (handle_option-StaysInside net)
        (omega arith) hl hh

  handle_dag_conf :
      (c : DagConf) (s : DioHeader) (rest : List ℕ)
      → handle_option net 4 14 s (drop 2 (write_dag_conf c) ++ rest)
        ≡ some ((record s { has_dag_conf = true; dag_conf = c }, false), rest)
  unfolding write_dag_conf handle_option read_dag_conf
  handle_dag_conf c s rest =
      ground (
        arith,
        u16 c.max_rank_increase,
        u16 c.min_hop_rank_increase,
        u16 c.ocp,
        u16 c.lifetime_unit,
      )

  pub walk_dag_conf :
      (there : Bool) (c : DagConf) (s : DioHeader) (rest : List ℕ)
      → s.has_dag_conf ≡ false
      → walk s (option_if there (write_dag_conf c) ++ rest)
        ≡ walk (record s { has_dag_conf = there; dag_conf = if there then c else s.dag_conf }) rest
  unfolding option_if write_dag_conf
  walk_dag_conf true c s rest e =
      step 4 14 s _ (drop 2 (write_dag_conf c)) rest (omega arith) refl (handle_dag_conf c s rest)
  walk_dag_conf false c s rest e = ap (λ b. walk (record s { has_dag_conf = b }) rest) e

  handle_metric :
      (path_etx : ℕ) (s : DioHeader) (rest : List ℕ)
      → handle_option net 2 6 s (drop 2 (write_metric path_etx) ++ rest)
        ≡ some ((record s { has_metric_container = true; path_etx = path_etx }, false), rest)
  unfolding write_metric handle_option read_metric read_object
  handle_metric path_etx s rest = ground (arith, u16 path_etx)

  pub walk_metric :
      (there : Bool) (path_etx : ℕ) (s : DioHeader) (rest : List ℕ)
      → s.has_metric_container ≡ false
      → walk s (option_if there (write_metric path_etx) ++ rest)
        ≡ walk
            (record s {
              has_metric_container = there;
              path_etx = if there then path_etx else s.path_etx;
            })
            rest
  unfolding option_if write_metric
  walk_metric true path_etx s rest e =
      step 2 6 s _ (drop 2 (write_metric path_etx)) rest (omega arith) refl
        (handle_metric path_etx s rest)
  walk_metric false path_etx s rest e =
      ap (λ b. walk (record s { has_metric_container = b }) rest) e

  handle_lql :
      (lql : ℕ) (s : DioHeader) (rest : List ℕ)
      → lql < 8
      → handle_option net 2 6 s (drop 2 (write_lql_container lql) ++ rest)
        ≡ some ((record s { has_lql = true; lql = lql }, false), rest)
  unfolding write_lql_container handle_option read_metric read_object
  handle_lql lql s rest small =
      ap (λ q. some ((record s { has_lql = true; lql = q }, false), rest)) (lql_field lql small)

  pub walk_lql :
      (there : Bool) (lql : ℕ) (s : DioHeader) (rest : List ℕ)
      → (there ≡ true → lql < 8)
      → s.has_lql ≡ false
      → walk s (option_if there (write_lql_container lql) ++ rest)
        ≡ walk (record s { has_lql = there; lql = if there then lql else s.lql }) rest
  unfolding option_if write_lql_container
  walk_lql true lql s rest small e =
      step 2 6 s _ (drop 2 (write_lql_container lql)) rest (omega arith) refl
        (handle_lql lql s rest (small refl))
  walk_lql false lql s rest small e = ap (λ b. walk (record s { has_lql = b }) rest) e

  handle_prefix_info :
      (p : PrefixInfo) (s : DioHeader) (rest : List ℕ)
      → IsAddress p.prefix
      → handle_option net 8 26 s (drop 2 (write_prefix_info net p) ++ rest)
        ≡ some ((record s { has_prefix_info = true; prefix_info = p }, false), rest)
  unfolding write_prefix_info handle_option read_prefix_info
  handle_prefix_info p s rest ia = ground (
    arith,
    prefix_flags_fields p.on_link p.autonomous,
    u32 p.valid_lifetime,
    u32 p.preferred_lifetime,
    read_address-serialize net p.prefix rest ia,
  )

  pub walk_prefix_info :
      (there : Bool) (p : PrefixInfo) (s : DioHeader) (rest : List ℕ)
      → (there ≡ true → IsAddress p.prefix)
      → s.has_prefix_info ≡ false
      → walk s (option_if there (write_prefix_info net p) ++ rest)
        ≡ walk
            (record s { has_prefix_info = there; prefix_info = if there then p else s.prefix_info })
            rest
  unfolding option_if write_prefix_info
  walk_prefix_info true p s rest ia e =
      step 8 26 s _ (drop 2 (write_prefix_info net p)) rest (omega arith)
        (omega (arith, net.length-serialize p.prefix)) (handle_prefix_info p s rest (ia refl))
  walk_prefix_info false p s rest ia e = ap (λ b. walk (record s { has_prefix_info = b }) rest) e

  -- The options of AODV-RPL, as they are received: with the Compr that was sent.
  abbrev pub received_rreq : ℕ → RreqOption → RreqOption
  received_rreq dodag_id r = record r { compr = elided_prefix_length net dodag_id r.address_vector }

  abbrev pub received_rrep : ℕ → RrepOption → RrepOption
  received_rrep dodag_id r = record r { compr = elided_prefix_length net dodag_id r.address_vector }

  rreq_branch :
      (l : ℕ) (s : DioHeader) (bytes : List ℕ)
      → handle_option net 0x0B (3 + l) s bytes
        ≡ (read_discovery net s.dodag_id (3 + l) >>= λ d. return (take_rreq d s, false)) bytes
  unfolding handle_option
  rreq_branch l s bytes = ground arith

  rrep_branch :
      (l : ℕ) (s : DioHeader) (bytes : List ℕ)
      → handle_option net 0x0C (3 + l) s bytes
        ≡ (read_discovery net s.dodag_id (3 + l) >>= λ d. return (take_rrep d s, false)) bytes
  unfolding handle_option
  rrep_branch l s bytes = ground arith

  pub walk_rreq :
      (there : Bool) (r : RreqOption) (s : DioHeader) (rest : List ℕ)
      → (there ≡ true → Fits net s.dodag_id r.lifetime r.rank_limit r.address_vector)
      → s.has_rreq ≡ false
      → walk s (option_if there (write_rreq net s.dodag_id r) ++ rest)
        ≡ walk
            (record s {
              has_rreq = there;
              rreq = if there then received_rreq s.dodag_id r else s.rreq;
            })
            rest
  unfolding option_if write_rreq take_rreq
  walk_rreq true r s rest fits e =
      let d : Discovery = record {
        first = r.symmetric;
        hop_by_hop = r.hop_by_hop;
        compr = r.compr;
        lifetime = r.lifetime;
        rank_limit = r.rank_limit;
        third = r.orig_seq_no;
        address_vector = r.address_vector;
      } in
      rw (write_discovery-content net s.dodag_id 0x0B d (fits refl)) (
        step 0x0B (content_length net s.dodag_id r.address_vector) s _ (content net s.dodag_id d)
          rest (omega arith) (length-content net s.dodag_id d)
          (rreq_branch _ s _
            ∙ rw (read_discovery-written net s.dodag_id d rest (fits refl), ◌>>=◌) refl))
  walk_rreq false r s rest fits e = ap (λ b. walk (record s { has_rreq = b }) rest) e

  pub walk_rrep :
      (there : Bool) (r : RrepOption) (s : DioHeader) (rest : List ℕ)
      → (there ≡ true → Fits net s.dodag_id r.lifetime r.rank_limit r.address_vector)
      → (there ≡ true → r.delta < 64)
      → s.has_rrep ≡ false
      → walk s (option_if there (write_rrep net s.dodag_id r) ++ rest)
        ≡ walk
            (record s {
              has_rrep = there;
              rrep = if there then received_rrep s.dodag_id r else s.rrep;
            })
            rest
  unfolding option_if write_rrep take_rrep
  walk_rrep true r s rest fits small e =
      let d : Discovery = record {
        first = r.gratuitous;
        hop_by_hop = r.hop_by_hop;
        compr = r.compr;
        lifetime = r.lifetime;
        rank_limit = r.rank_limit;
        third = write_delta r.delta;
        address_vector = r.address_vector;
      } in
      rw (write_discovery-content net s.dodag_id 0x0C d (fits refl)) (
        step 0x0C (content_length net s.dodag_id r.address_vector) s _ (content net s.dodag_id d)
          rest (omega arith) (length-content net s.dodag_id d)
          (rrep_branch _ s _
            ∙ rw
                (
                  read_discovery-written net s.dodag_id d rest (fits refl),
                  ◌>>=◌,
                  delta_field r.delta (small refl),
                )
                refl))
  walk_rrep false r s rest fits small e = ap (λ b. walk (record s { has_rrep = b }) rest) e
