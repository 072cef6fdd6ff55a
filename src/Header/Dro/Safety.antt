-- ===== src/Header/Dro/Safety.antt =====
-- The parser of the P2P-DRO on any input.
use rpl.Base.{
  ℕ, ◌≤◌, ◌<◌, ◌≡◌, inl, inr, refl, false, some, List, [], ◌∷◌, length, take, drop, length-drop,
  ◌==◌, Bool-cases, bit_and, ◌/◌, ◌^◌, arith,
}
use rpl.Buffer.{◌>>=◌}
use rpl.Buffer.Reading.{skip_enough}
use rpl.Ipv6.{Ipv6}
use rpl.Header.Address.{has_flag, read_address_enough}
use rpl.Header.Options.Walk.{Ends, StaysInside, walk_options-Ends}
use rpl.Header.Options.Whole.{walk_whole, walk_whole_lem}
use rpl.Header.RouteDiscovery.Taking.{rdo_takes}
use rpl.Header.Dro.{DroHeader, handle_option, deserialize}

module _ (net : Ipv6) where
  pub handle_option-StaysInside : StaysInside (handle_option net)
  unfolding handle_option
  handle_option-StaysInside t l h body le = elim (Bool-cases (t == 0x0A)) [
    | inl rdo ↦
        let (r, rest, e, taken) = rdo_takes net h.dodag_id l h.p2p_rdo body le in
        (
          (record h { has_p2p_rdo = r.0; p2p_rdo = r.1 }, false),
          rest,
          rw (rdo, e, ◌>>=◌) refl,
          omega arith,
        )
    | inr unknown ↦ (
      (h, false),
      drop l body,
      rw (unknown, skip_enough l body le, ◌>>=◌) refl,
      omega (arith, length-drop l body),
    )
  ]

  pub walk_whole-Ends :
      (h : DroHeader) (bytes : List ℕ) → Ends bytes (walk_whole (handle_option net) h bytes)
  walk_whole-Ends h bytes = rw (walk_whole_lem (handle_option net) h bytes) (
      walk_options-Ends (handle_option net) (length bytes) h bytes handle_option-StaysInside
        (omega arith))

  parsed :
      (old : DroHeader) (bytes : List ℕ)
      → 20 ≤ length bytes
      → Ends bytes (deserialize net old bytes)
  unfolding deserialize
  parsed old (i ∷ v ∷ f ∷ r ∷ body) enough =
      let start : DroHeader = record old {
        instance_id = i;
        stop = has_flag f 0x80;
        ack_requested = has_flag f 0x40;
        sequence = bit_and f 0x30 / 2 ^ 4;
        dodag_id = net.deserialize (take 16 body);
        has_p2p_rdo = false;
      } in
      let (h, rest, e, le) = walk_whole-Ends start (drop 16 body) in
      (h, rest, ground (arith, read_address_enough net body), omega (arith, length-drop 16 body))
  parsed old [] enough = absurd (omega arith)
  parsed old (i ∷ []) enough = absurd (omega arith)
  parsed old (i ∷ v ∷ []) enough = absurd (omega arith)
  parsed old (i ∷ v ∷ f ∷ []) enough = absurd (omega arith)

  -- Whatever bytes arrive, the parser never reads past their end. Fewer than 20 leave the header
  -- and the bytes as they were; 20 or more are parsed, however their options are cut or malformed.
  pub dro_total :
      (old : DroHeader) (bytes : List ℕ)
      → (length bytes < 20 → deserialize net old bytes ≡ some (old, bytes))
        × (20 ≤ length bytes
            → (h : DroHeader) × (rest : List ℕ) × (deserialize net old bytes ≡ some (h, rest))
              × (length rest ≤ length bytes))
  unfolding deserialize
  dro_total old bytes = (λ short. ground arith, parsed old bytes)
