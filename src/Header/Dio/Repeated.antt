-- ===== src/Header/Dio/Repeated.antt =====
-- The options of a DIO that may be there any number of times, and the P2P-RDO, as the loop reads
-- them.
use mathlib.Core.List.{append_assoc, append-nil}
use rpl.Base.{
  ℕ, ◌<◌, ◌≡◌, refl, ap, ◌∙◌, Bool, true, false, some, List, [], ◌∷◌, ◌++◌, drop, All,
  if◌then◌else◌, arith,
}
use rpl.Buffer.{◌>>=◌, return}
use rpl.Ipv6.{Ipv6, IsAddress}
use rpl.Header.Address.{read_address-serialize}
use rpl.Header.Options.Whole.{walk_whole_end}
use rpl.Header.RouteDiscovery
use rpl.Header.RouteDiscovery.{P2pRdoOption, write_content}
use rpl.Header.RouteDiscovery.Content
use rpl.Header.RouteDiscovery.Content.{
  IsWritable, length-write_content, deserialize-write_content, serialize_content,
}
use rpl.Header.Dio.{
  ArtOption, TargetOption, DioHeader, option_if, write_art, write_arts, write_target, write_targets,
}
use rpl.Header.Dio.Fields.{prefix_length_field}
use rpl.Header.Dio.Parser.{read_art, read_target, handle_option}
use rpl.Header.Dio.Written.{walk, step}

module _ (net : Ipv6) where
  abbrev pub IsArt : ArtOption → Type 0
  IsArt a = (a.prefix_length < 128) × IsAddress a.target

  handle_art :
      (a : ArtOption) (s : DioHeader) (rest : List ℕ)
      → IsArt a
      → handle_option net 0x0D 18 s (drop 2 (write_art net a) ++ rest)
        ≡ some ((record s { arts = s.arts ++ a ∷ [] }, false), rest)
  unfolding write_art handle_option read_art
  handle_art a s rest (small, ia) = ground (
    arith,
    prefix_length_field a.prefix_length small,
    read_address-serialize net a.target rest ia,
  )

  pub walk_arts :
      (xs : List ArtOption) (s : DioHeader) (rest : List ℕ)
      → All IsArt xs
      → walk net s (write_arts net xs ++ rest) ≡ walk net (record s { arts = s.arts ++ xs }) rest
  unfolding write_arts write_art
  walk_arts [] s rest all = rw append-nil refl
  walk_arts (a ∷ xs) s rest (first, others) =
      rw (append_assoc (write_art net a) (write_arts net xs) rest) (
        step net 0x0D 18 s (record s { arts = s.arts ++ a ∷ [] }) (drop 2 (write_art net a))
          (write_arts net xs ++ rest) (omega arith) (omega (arith, net.length-serialize a.target))
          (handle_art a s _ first)
        ∙ walk_arts xs (record s { arts = s.arts ++ a ∷ [] }) rest others
        ∙ rw (append_assoc s.arts (a ∷ []) xs) refl)

  handle_target :
      (t : TargetOption) (s : DioHeader) (rest : List ℕ)
      → IsAddress t.target
      → handle_option net 5 18 s (drop 2 (write_target net t) ++ rest)
        ≡ some ((record s { targets = s.targets ++ t ∷ [] }, false), rest)
  unfolding write_target handle_option read_target
  handle_target t s rest ia = ground (arith, read_address-serialize net t.target rest ia)

  -- The Target options end the message.
  pub walk_targets :
      (ts : List TargetOption) (s : DioHeader)
      → All (λ t. IsAddress t.target) ts
      → walk net s (write_targets net ts) ≡ some (record s { targets = s.targets ++ ts }, [])
  unfolding write_targets write_target
  walk_targets [] s all = rw append-nil (walk_whole_end (handle_option net) s)
  walk_targets (t ∷ ts) s (first, others) =
      step net 5 18 s (record s { targets = s.targets ++ t ∷ [] }) (drop 2 (write_target net t))
        (write_targets net ts) (omega arith) (omega (arith, net.length-serialize t.target))
        (handle_target t s _ first)
      ∙ walk_targets ts (record s { targets = s.targets ++ t ∷ [] }) others
      ∙ rw (append_assoc s.targets (t ∷ []) ts) refl

  rdo_branch :
      (l : ℕ) (s : DioHeader) (bytes : List ℕ)
      → handle_option net 0x0A l s bytes
        ≡ (RouteDiscovery.deserialize net l s.dodag_id s.p2p_rdo >>= λ r.
              return (record s { has_p2p_rdo = r.0; p2p_rdo = r.1 }, false))
            bytes
  unfolding handle_option
  rdo_branch l s bytes = refl

  pub walk_rdo :
      (there : Bool) (rdo : P2pRdoOption) (s : DioHeader) (rest : List ℕ)
      → (there ≡ true → IsWritable net s.dodag_id rdo)
      → s.has_p2p_rdo ≡ false
      → walk net s (option_if there (RouteDiscovery.serialize net s.dodag_id rdo) ++ rest)
        ≡ walk net
            (record s {
              has_p2p_rdo = there;
              p2p_rdo = if there then Content.received net s.dodag_id rdo else s.p2p_rdo;
            })
            rest
  unfolding option_if
  walk_rdo true rdo s rest fits e = rw (serialize_content net s.dodag_id rdo (fits refl)) (
      step net 0x0A (Content.content_length net s.dodag_id rdo) s _
        (write_content net s.dodag_id rdo) rest (omega arith)
        (length-write_content net s.dodag_id rdo)
        (rdo_branch _ s _
          ∙ rw (deserialize-write_content net s.dodag_id rdo s.p2p_rdo rest (fits refl), ◌>>=◌)
              refl))
  walk_rdo false rdo s rest fits e = ap (λ b. walk net (record s { has_p2p_rdo = b }) rest) e
