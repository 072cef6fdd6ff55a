-- ===== src/Header/Dro/RoundTrip.antt =====
-- A P2P-DRO survives the wire.
use rpl.Base.{
  ℕ, ltb, ◌/◌, ◌^◌, ◌<◌, ◌≡◌, inl, inr, refl, Bool, true, false, ◌&&◌, some, List, [], ◌∷◌, ◌++◌,
  length, length-append, bit_and, ◌==◌, ==_iff, if◌then◌else◌, Bool-cases, tabulated, tabulated_at,
  both_flags, both_flags_at, bool_eq, bool_eq→eq, and-true, arith,
}
use rpl.Buffer.{◌>>=◌}
use rpl.Ipv6.{Ipv6, IsAddress}
use rpl.Header.Address.{has_flag, read_address-serialize}
use rpl.Header.Options.Whole.{walk_whole, walk_whole_end, walk_whole_last}
use rpl.Header.RouteDiscovery
use rpl.Header.RouteDiscovery.{P2pRdoOption, rdo_size, write_content}
use rpl.Header.RouteDiscovery.Content.{
  IsWritable, received, content_length, length-write_content, serialize_content, length-serialize,
  deserialize-write_content,
}
use rpl.Header.Dro.{
  base_size, DroHeader, write_flags, get_serialized_size, write_option, serialize, handle_option,
  deserialize,
}
use rpl.Header.Dro.Safety.{handle_option-StaysInside}

flags_check : ℕ → Bool → Bool → Bool
unfolding bool_eq
flags_check sequence stop ack_requested =
    let f = write_flags stop ack_requested sequence in
    bool_eq (has_flag f 0x80) stop
    && (bool_eq (has_flag f 0x40) ack_requested && bit_and f 0x30 / 2 ^ 4 == sequence)

flags_fields :
    (stop ack_requested : Bool) (sequence : ℕ)
    → sequence < 4
    → let f = write_flags stop ack_requested sequence in
      (has_flag f 0x80 ≡ stop)
      × (has_flag f 0x40 ≡ ack_requested)
      × (bit_and f 0x30 / 2 ^ 4 ≡ sequence)
unfolding tabulated both_flags flags_check write_flags
flags_fields stop ack_requested sequence small =
    let all =
      both_flags_at (flags_check sequence)
        (tabulated_at (λ k. both_flags (flags_check k)) 4 sequence refl small) stop ack_requested in
    let (e1, r1) = and-true _ _ all in
    let (e2, e3) = and-true _ _ r1 in (bool_eq→eq _ _ e1, bool_eq→eq _ _ e2, (==_iff _ _).0 e3)

module _ (net : Ipv6) where
  -- The Sequence fits its two bits, the DODAGID is an address, and an option that is there fits its
  -- fields.
  pub record IsSendable (h : DroHeader) : Type 0 where
    pub sequence : h.sequence < 4
    pub dodag_id : IsAddress h.dodag_id
    pub p2p_rdo : h.has_p2p_rdo ≡ true → IsWritable net h.dodag_id h.p2p_rdo

  -- What a header that held `old` holds after `h` was received: the option is that of `h`, with the
  -- Compr that was sent, or where `h` has none, the one held before.
  abbrev pub after_receiving : DroHeader → DroHeader → DroHeader
  after_receiving old h = record h {
    p2p_rdo = if h.has_p2p_rdo then received net h.dodag_id h.p2p_rdo else old.p2p_rdo;
  }

  handle_written :
      (h : DroHeader) (rdo : P2pRdoOption) (rest : List ℕ)
      → IsWritable net h.dodag_id rdo
      → handle_option net 0x0A
          (content_length net h.dodag_id rdo)
          h
          (write_content net h.dodag_id rdo ++ rest)
        ≡ some
            ((record h { has_p2p_rdo = true; p2p_rdo = received net h.dodag_id rdo }, false), rest)
  unfolding handle_option
  handle_written h rdo rest fits =
      rw (deserialize-write_content net h.dodag_id rdo h.p2p_rdo rest fits, ◌>>=◌) refl

  walk_written :
      (old h : DroHeader)
      → IsSendable h
      → walk_whole
          (handle_option net)
          (record h { has_p2p_rdo = false; p2p_rdo = old.p2p_rdo })
          (write_option net h)
        ≡ some (after_receiving old h, [])
  unfolding write_option
  walk_written old h w = elim (Bool-cases h.has_p2p_rdo) [
    | inl there ↦ rw there (written (w.p2p_rdo there) there)
    | inr absent ↦ rw absent (walk_whole_end (handle_option net) _)
  ]
    where
      written :
          IsWritable net h.dodag_id h.p2p_rdo
          → h.has_p2p_rdo ≡ true
          → walk_whole
              (handle_option net)
              (record h { has_p2p_rdo = false; p2p_rdo = old.p2p_rdo })
              (RouteDiscovery.serialize net h.dodag_id h.p2p_rdo)
            ≡ some
                (record h { has_p2p_rdo = true; p2p_rdo = received net h.dodag_id h.p2p_rdo }, [])
      written fits there = rw (serialize_content net h.dodag_id h.p2p_rdo fits) (
          walk_whole_last (handle_option net) 0x0A (content_length net h.dodag_id h.p2p_rdo) _
            (record h { has_p2p_rdo = true; p2p_rdo = received net h.dodag_id h.p2p_rdo })
            (write_content net h.dodag_id h.p2p_rdo) (handle_option-StaysInside net) (omega arith)
            (length-write_content net h.dodag_id h.p2p_rdo) (handle_written _ h.p2p_rdo [] fits))

  length-write_option :
      (h : DroHeader)
      → length (write_option net h)
        ≡ (if h.has_p2p_rdo then rdo_size net h.dodag_id h.p2p_rdo else 0)
  unfolding write_option
  length-write_option h = ground (arith, length-serialize net h.dodag_id h.p2p_rdo)

  -- A P2P-DRO that was sent is received as it was, whatever the receiver's header held before, with
  -- or without an option and whether or not its addresses share the prefix of the DODAGID; nothing
  -- is left unread, and it is as long as GetSerializedSize() says.
  pub dro_round_trip :
      (old h : DroHeader)
      → IsSendable h
      → (deserialize net old (serialize net h) ≡ some (after_receiving old h, []))
        × (length (serialize net h) ≡ get_serialized_size net h)
  unfolding deserialize serialize get_serialized_size
  dro_round_trip old h w =
      let (e1, e2, e3) = flags_fields h.stop h.ack_requested h.sequence w.sequence in
      let long : ltb
            (length (
              h.instance_id
                ∷ 0
                ∷ write_flags h.stop h.ack_requested h.sequence
                ∷ 0
                ∷ net.serialize h.dodag_id
              ++ write_option net h))
            base_size
          ≡ false =
        ground (
          arith,
          length-append (net.serialize h.dodag_id) (write_option net h),
          net.length-serialize h.dodag_id,
        ) in
      (
        rw
            (
              long,
              ◌>>=◌,
              read_address-serialize net h.dodag_id (write_option net h) w.dodag_id,
              e1,
              e2,
              e3,
            )
            (walk_written old h w),
        omega (
          arith,
          length-append (net.serialize h.dodag_id) (write_option net h),
          net.length-serialize h.dodag_id,
          length-write_option h,
        ),
      )
