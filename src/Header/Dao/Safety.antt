-- ===== src/Header/Dao/Safety.antt =====
-- The parser of the DAO on any input.
use rpl.Base.{
  ℕ, ◌≤◌, ◌≡◌, inl, inr, refl, Bool, true, false, not, ◌||◌, leb, none, some, List, [], ◌∷◌, length,
  take, drop, length-drop, ◌==◌, ◌&&◌, Bool-cases, Option-cases, arith,
}
use rpl.Buffer.{◌>>=◌}
use rpl.Buffer.Reading.{bind_none, skip_enough}
use rpl.Ipv6.{Ipv6, any}
use rpl.Header.Address.{has_flag, read_address, read_address_short, read_address_enough}
use rpl.Header.Options.Walk.{Ends, StaysInside, walk_options-Ends}
use rpl.Header.Dao.{
  DaoHeader, ParseState, read_target, take_pair, read_transit, handle_option, discard_malformed,
  start_state, read_options, deserialize,
}

-- Whether a message has the four fixed octets of a DAO, and 16 more if the second one has the D flag.
unfoldable pub has_base : List ℕ → Bool
has_base (i ∷ f ∷ r ∷ q ∷ body) = not (has_flag f 0x40) || leb 16 (length body)
has_base _ = false

module _ (net : Ipv6) where
  read_target-Ends :
      (s : ParseState) (body : List ℕ) → 18 ≤ length body → Ends body (read_target net s body)
  unfolding read_target
  read_target-Ends s (f ∷ p ∷ bs) h = elim (Option-cases s.pending) [
    | inl free ↦ (
      (record s { pending = some (net.deserialize (take 16 bs), p) }, false),
      drop 16 bs,
      ground (arith, read_address_enough net bs),
      omega (arith, length-drop 16 bs),
    )
    | inr (q, waiting) ↦
        ((record s { malformed = true }, true), f ∷ p ∷ bs, ground arith, omega arith)
  ]
  read_target-Ends s [] h = absurd (omega arith)
  read_target-Ends s (f ∷ []) h = absurd (omega arith)

  read_transit-Ends :
      (s : ParseState) (body : List ℕ) → 20 ≤ length body → Ends body (read_transit net s body)
  unfolding read_transit
  read_transit-Ends s (f ∷ c ∷ q ∷ l ∷ bs) h = elim (Option-cases s.pending) [
    | inl free ↦
        ((record s { malformed = true }, true), f ∷ c ∷ q ∷ l ∷ bs, ground arith, omega arith)
    | inr ((target, prefix_length), waiting) ↦ (
      (take_pair target prefix_length q l (net.deserialize (take 16 bs)) s, false),
      drop 16 bs,
      ground (arith, read_address_enough net bs),
      omega (arith, length-drop 16 bs),
    )
  ]
  read_transit-Ends s [] h = absurd (omega arith)
  read_transit-Ends s (f ∷ []) h = absurd (omega arith)
  read_transit-Ends s (f ∷ c ∷ []) h = absurd (omega arith)
  read_transit-Ends s (f ∷ c ∷ q ∷ []) h = absurd (omega arith)

  handle_option-StaysInside : StaysInside (handle_option net)
  unfolding handle_option
  handle_option-StaysInside t l s body h = elim (Bool-cases (t == 5 && l == 18)) [
    | inl target ↦ rw target (read_target-Ends s body (ground arith))
    | inr other ↦ rw other (elim (Bool-cases (t == 6 && l == 20)) [
      | inl transit ↦ rw transit (read_transit-Ends s body (ground arith))
      | inr unknown ↦ rw unknown (
        (s, false),
        drop l body,
        rw (skip_enough l body h, ◌>>=◌) refl,
        omega (arith, length-drop l body),
      )
    ])
  ]

  read_options-Ends : (s : ParseState) (bytes : List ℕ) → Ends bytes (read_options net s bytes)
  unfolding read_options
  read_options-Ends s bytes =
      let (s', rest, e, le) =
        walk_options-Ends (handle_option net) (length bytes) s bytes handle_option-StaysInside
          (omega arith) in
      (discard_malformed s', rest, rw (e, ◌>>=◌), le)

  parsed :
      (old : DaoHeader) (bytes : List ℕ)
      → has_base bytes ≡ true
      → Ends bytes (deserialize net old bytes)
  unfolding has_base deserialize
  parsed old [] h = absurd (ground arith)
  parsed old (i ∷ []) h = absurd (ground arith)
  parsed old (i ∷ f ∷ []) h = absurd (ground arith)
  parsed old (i ∷ f ∷ r ∷ []) h = absurd (ground arith)
  parsed old (i ∷ f ∷ r ∷ q ∷ body) h = elim (Bool-cases (has_flag f 0x40)) [
    | inl dodag ↦
        let d = net.deserialize (take 16 body) in
        let (u, rest, e, le) =
          read_options-Ends (start_state old i (has_flag f 0x80) q d) (drop 16 body) in
        let enough : 16 ≤ length body = ground (arith, h, dodag) in
        (u, rest, ground (arith, read_address_enough net body), omega (arith, length-drop 16 body))
    | inr none_given ↦
        let (u, rest, e, le) = read_options-Ends (start_state old i (has_flag f 0x80) q any) body in
        (u, rest, ground arith, omega arith)
  ]

  cut :
      (old : DaoHeader) (bytes : List ℕ) → has_base bytes ≡ false → deserialize net old bytes ≡ none
  unfolding has_base deserialize
  cut old [] short = refl
  cut old (i ∷ []) short = refl
  cut old (i ∷ f ∷ []) short = refl
  cut old (i ∷ f ∷ r ∷ []) short = refl
  cut old (i ∷ f ∷ r ∷ q ∷ body) short =
      let dodag : has_flag f 0x40 ≡ true = ground arith in
      rw dodag (bind_none (read_address net) _ body (read_address_short net body (ground arith)))

  -- The fixed octets, and the DODAGID that the D flag announces, are read without a look at the
  -- length: of a message that is shorter, a read passes the end. Any message that has them is parsed:
  -- the option loop ends and no read passes the end of the message, however its options are cut or
  -- nested.
  pub dao_total :
      (old : DaoHeader) (bytes : List ℕ)
      → (has_base bytes ≡ false → deserialize net old bytes ≡ none)
        × (has_base bytes ≡ true
            → (h : DaoHeader) × (rest : List ℕ) × (deserialize net old bytes ≡ some (h, rest))
              × (length rest ≤ length bytes))
  dao_total old bytes = (cut old bytes, parsed old bytes)
