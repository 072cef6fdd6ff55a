-- ===== src/Header/Dao/RoundTrip.antt =====
-- A DAO survives the wire.
use mathlib.Core.List.{append-nil, append_assoc}
use rpl.Base.{
  ℕ, zero, suc, ◌+◌, ◌*◌, ◌≤◌, ◌≡◌, refl, ◌∙◌, Bool, true, false, none, some, List, [], ◌∷◌, ◌++◌,
  length, length-append, All, not, bit_or, if◌then◌else◌, arith,
}
use rpl.Ipv6.{Ipv6, IsAddress, is_any}
use rpl.Header.Address.{has_flag, read_address-serialize}
use rpl.Header.Options.{walk_options}
use rpl.Header.Options.Walk.{walk_options_step}
use rpl.Header.Dao.{
  AdditionalTarget, DaoHeader, ParseState, add_target, get_serialized_size, write_target,
  write_transit, write_additional, serialize, read_target, take_pair, read_transit, handle_option,
  discard_malformed, start_state, read_options, deserialize,
}

module _ (net : Ipv6) where
  handle_target :
      (target prefix_length : ℕ) (s : ParseState) (rest : List ℕ)
      → IsAddress target
      → s.pending ≡ none
      → handle_option net 5 18 s ((0 ∷ prefix_length ∷ net.serialize target) ++ rest)
        ≡ some ((record s { pending = some (target, prefix_length) }, false), rest)
  unfolding handle_option read_target
  handle_target target prefix_length s rest ht free =
      ground (arith, read_address-serialize net target rest ht)

  handle_transit :
      (target prefix_length path_sequence path_lifetime parent : ℕ) (s : ParseState) (rest : List ℕ)
      → IsAddress parent
      → s.pending ≡ some (target, prefix_length)
      → handle_option net 6 20 s
          ((0 ∷ 0 ∷ path_sequence ∷ path_lifetime ∷ net.serialize parent) ++ rest)
        ≡ some ((take_pair target prefix_length path_sequence path_lifetime parent s, false), rest)
  unfolding handle_option read_transit
  handle_transit target prefix_length path_sequence path_lifetime parent s rest hp wanted =
      ground (arith, read_address-serialize net parent rest hp)

  -- The loop over a Target and its Transit Information: two rounds, and the pair is taken.
  walk_pair :
      (fuel target prefix_length path_sequence path_lifetime parent : ℕ) (s : ParseState)
      (rest : List ℕ)
      → IsAddress target
      → IsAddress parent
      → s.pending ≡ none
      → walk_options (handle_option net) (suc (suc fuel)) s (
          write_target net target prefix_length
            (write_transit net path_sequence path_lifetime parent rest))
        ≡ walk_options
            (handle_option net)
            fuel
            (take_pair target prefix_length path_sequence path_lifetime parent s)
            rest
  unfolding write_target write_transit take_pair
  walk_pair fuel target prefix_length path_sequence path_lifetime parent s rest ht hp free =
      let wanted = record s { pending = some (target, prefix_length) } in
      walk_options_step (handle_option net) (suc fuel) 5 18 s wanted
        (0 ∷ prefix_length ∷ net.serialize target) _ (omega arith)
        (omega (arith, net.length-serialize target))
        (handle_target target prefix_length s _ ht free)
      ∙ walk_options_step (handle_option net) fuel 6 20 wanted _
          (0 ∷ 0 ∷ path_sequence ∷ path_lifetime ∷ net.serialize parent) rest (omega arith)
          (omega (arith, net.length-serialize parent))
          (handle_transit target prefix_length path_sequence path_lifetime parent wanted rest hp
            refl)

  walk_additional :
      (parent : ℕ) (ts : List AdditionalTarget) (fuel : ℕ) (s : ParseState)
      → length ts * 2 ≤ fuel
      → All (λ t. IsAddress t.target) ts
      → IsAddress parent
      → s.pending ≡ none
      → s.have_any_pair ≡ true
      → walk_options (handle_option net) fuel s (write_additional net parent ts)
        ≡ some (
          record s {
            header = record s.header { additional_targets = s.header.additional_targets ++ ts };
          },
          [],
        )
  unfolding write_additional take_pair add_target
  walk_additional parent [] fuel s hf ht hp free any = unfold walk_options in rw append-nil refl
  walk_additional parent (t ∷ ts) zero s hf ht hp free any = absurd (omega arith)
  walk_additional parent (t ∷ ts) (suc zero) s hf ht hp free any = absurd (omega arith)
  walk_additional parent (t ∷ ts) (suc (suc fuel)) s hf ht hp free any =
      walk_pair fuel t.target t.target_prefix_length t.path_sequence t.path_lifetime parent s
        (write_additional net parent ts) ht.0 hp free
      ∙ ground (
        arith,
        walk_additional parent ts fuel
            (take_pair t.target t.target_prefix_length t.path_sequence t.path_lifetime parent s),
        append_assoc s.header.additional_targets (t ∷ []) ts,
      )

  length-additional :
      (parent : ℕ) (ts : List AdditionalTarget)
      → length (write_additional net parent ts) ≡ length ts * 42
  unfolding write_additional write_target write_transit
  length-additional parent [] = refl
  length-additional parent (t ∷ ts) = omega (
    arith,
    length-append (net.serialize t.target)
        (write_transit net t.path_sequence t.path_lifetime parent (write_additional net parent ts)),
    length-append (net.serialize parent) (write_additional net parent ts),
    net.length-serialize t.target,
    net.length-serialize parent,
    length-additional parent ts,
  )

  -- The part of the message after the fixed fields.
  abbrev options_of : DaoHeader → List ℕ
  options_of h = write_target net h.target h.target_prefix_len (
      write_transit net h.path_sequence h.path_lifetime h.parent
        (write_additional net h.parent h.additional_targets))

  length-options : (h : DaoHeader) → length (options_of h) ≡ 42 + length h.additional_targets * 42
  unfolding write_target write_transit
  length-options h = omega (
    arith,
    length-append (net.serialize h.target) (
        write_transit net h.path_sequence h.path_lifetime h.parent
          (write_additional net h.parent h.additional_targets)),
    length-append (net.serialize h.parent) (write_additional net h.parent h.additional_targets),
    net.length-serialize h.target,
    net.length-serialize h.parent,
    length-additional h.parent h.additional_targets,
  )

  -- Every address that a DAO carries is one.
  pub record HasAddresses (h : DaoHeader) : Type 0 where
    pub dodag_id : IsAddress h.dodag_id
    pub target : IsAddress h.target
    pub parent : IsAddress h.parent
    pub additional : All (λ t. IsAddress t.target) h.additional_targets

  read_options-written :
      (old h : DaoHeader) (fuel : ℕ)
      → HasAddresses h
      → 2 + length h.additional_targets * 2 ≤ fuel
      → walk_options
          (handle_option net)
          fuel
          (start_state old h.instance_id h.ack_requested h.sequence h.dodag_id)
          (options_of h)
        ≡ some (record { header = h; pending = none; have_any_pair = true; malformed = false }, [])
  unfolding take_pair start_state
  read_options-written old h zero v hf = absurd (omega arith)
  read_options-written old h (suc zero) v hf = absurd (omega arith)
  read_options-written old h (suc (suc fuel)) v hf =
      let first = start_state old h.instance_id h.ack_requested h.sequence h.dodag_id in
      walk_pair fuel h.target h.target_prefix_len h.path_sequence h.path_lifetime h.parent first
        (write_additional net h.parent h.additional_targets) v.target v.parent refl
      ∙ walk_additional h.parent h.additional_targets fuel
          (take_pair h.target h.target_prefix_len h.path_sequence h.path_lifetime h.parent first)
          (omega arith) v.additional v.parent refl refl

  read_options-serialized :
      (old h : DaoHeader)
      → HasAddresses h
      → read_options net
          (start_state old h.instance_id h.ack_requested h.sequence h.dodag_id)
          (options_of h)
        ≡ some (h, [])
  unfolding read_options discard_malformed
  read_options-serialized old h v = ground (
    arith,
    read_options-written old h (length (options_of h)) v (omega (arith, length-options h)),
  )

  flag_bits :
      (k d : Bool)
      → (has_flag (bit_or (if k then 0x80 else 0) (if d then 0 else 0x40)) 0x80 ≡ k)
        × (has_flag (bit_or (if k then 0x80 else 0) (if d then 0 else 0x40)) 0x40 ≡ not d)
  flag_bits true true = (refl, refl)
  flag_bits true false = (refl, refl)
  flag_bits false true = (refl, refl)
  flag_bits false false = (refl, refl)

  -- Reading back a DAO that was written gives the same DAO, whatever the header held before, with
  -- or without a DODAGID, 'K' flag, or targets beyond the first, and nothing is left unread; it is
  -- as long as GetSerializedSize() says.
  pub dao_round_trip :
      (old h : DaoHeader)
      → HasAddresses h
      → (deserialize net old (serialize net h) ≡ some (h, []))
        × (length (serialize net h) ≡ get_serialized_size h)
  unfolding deserialize serialize get_serialized_size
  dao_round_trip old h v = (
    ground (
      arith,
      flag_bits h.ack_requested (is_any h.dodag_id),
      read_address-serialize net h.dodag_id (options_of h) v.dodag_id,
      read_options-serialized old h v,
    ),
    ground (
      arith,
      length-append (net.serialize h.dodag_id) (options_of h),
      net.length-serialize h.dodag_id,
      length-options h,
    ),
  )
