-- ===== src/Header/Dio/Safety.antt =====
-- The parser of the DIO on any input: each branch takes just the octets of its option.
use native.Mathlib.Nat.{div-add-mod}
use mathlib.Core.Path.{subst}
use rpl.Base.{
  ℕ, suc, bit_and, ◌+◌, ◌-◌, ◌*◌, ◌/◌, ◌%◌, ◌≤◌, ◌<◌, ◌≡◌, inl, inr, refl, true, false, ◌&&◌,
  Option, none, some, List, [], ◌∷◌, length, take, drop, length-drop, leb, ◌==◌, if◌then◌else◌,
  if_both, sym, min, ◌^◌, Bool, Bool-cases, arith,
}
use rpl.Buffer.{Reader, ◌>>=◌, ◌>>◌, return, read_u8, read_u16, skip}
use rpl.Buffer.Reading.{bind_none, skip_enough}
use rpl.Ipv6.{Ipv6}
use rpl.Header.Address.{has_flag, read_address, read_address_short, read_address_enough}
use rpl.Header.AddressVector.Elision.{read_vector_enough}
use rpl.Header.Options.Walk.{Ends, StaysInside, walk_options-Ends}
use rpl.Header.Options.Whole.{walk_whole, walk_whole_lem}
use rpl.Header.RouteDiscovery.Taking.{rdo_takes}
use rpl.Header.Dio.{DioHeader}
use rpl.Header.Dio.Parser.{
  Discovery, read_lifetime, read_dag_conf, read_object, read_metric, read_compr, is_misshapen,
  read_prefix_info, read_entries, read_discovery, read_art, read_target, handle_option,
  start_header, deserialize,
}

-- A reader that takes `l` octets where there are as many.
abbrev pub Takes : {A : Type 0} → ℕ → Reader A → Type 0
Takes {A} l r =
    (body : List ℕ)
    → l ≤ length body
    → (a : A) × (rest : List ℕ) × (r body ≡ some (a, rest)) × (length body ≡ length rest + l)

skip-Takes : {A : Type 0} (l : ℕ) (a : A) → Takes l (skip l >> return a)
skip-Takes l a body h =
    (a, drop l body, rw (skip_enough l body h, ◌>>=◌) refl, omega (arith, length-drop l body))

return-Takes : {A : Type 0} (a : A) → Takes 0 (return a)
return-Takes a body h = (a, body, refl, omega arith)

-- What a reader takes, and then what follows it takes.
bind-Takes :
    {A B : Type 0} (m n : ℕ) (r : Reader A) (f : A → Reader B)
    → Takes m r
    → ((a : A) → Takes n (f a))
    → Takes (m + n) (r >>= f)
bind-Takes m n r f first second body h =
    let (a, mid, e, le) = first body (omega arith) in
    let (b, rest, e', le') = second a mid (omega arith) in (b, rest, rw (e, ◌>>=◌) e', omega arith)

read_u8-Takes : Takes 1 read_u8
read_u8-Takes [] h = absurd (omega arith)
read_u8-Takes (b ∷ rest) h = (b, rest, refl, omega arith)

read_u16-Takes : Takes 2 read_u16
read_u16-Takes (a ∷ b ∷ rest) h = (a * 256 + b, rest, refl, omega arith)
read_u16-Takes _ h = absurd (omega arith)

read_dag_conf-Takes : (h : DioHeader) → Takes 14 (read_dag_conf h)
unfolding read_dag_conf
read_dag_conf-Takes h (a ∷ b ∷ c ∷ d ∷ e ∷ f ∷ g ∷ i ∷ j ∷ k ∷ l ∷ m ∷ n ∷ o ∷ rest) le =
    (_, rest, refl, omega arith)
read_dag_conf-Takes h _ le = absurd (omega arith)

read_object-Takes :
    (mc_type object_length : ℕ) (h : DioHeader) → Takes 2 (read_object mc_type object_length h)
unfolding read_object
read_object-Takes mc_type object_length h =
    if_both (Takes 2) (mc_type == 7 && object_length == 2) etx
      (if_both (Takes 2) (mc_type == 6 && object_length == 2) lql (skip-Takes 2 (h, false)))
  where
    etx : Takes 2 (
        read_u16 >>= λ path_etx.
        return {A = DioHeader × Bool}
          (record h { has_metric_container = true; path_etx = path_etx }, false))
    etx (a ∷ b ∷ rest) le = (_, rest, refl, omega arith)
    etx _ le = absurd (omega arith)

    lql : Takes 2 (do
      res ← read_u8
      sub_object ← read_u8
      return {A = DioHeader × Bool}
          (record h { has_lql = true; lql = min (sub_object / 2 ^ 4) 7 }, false))
    lql (a ∷ b ∷ rest) le = (_, rest, refl, omega arith)
    lql _ le = absurd (omega arith)

read_metric-Takes : (h : DioHeader) → Takes 6 (read_metric h)
unfolding read_metric
read_metric-Takes h (a ∷ b ∷ c ∷ d ∷ rest) le =
    let (r, rest', e, le') = read_object-Takes a d h rest (omega arith) in
    (r, rest', e, omega arith)
read_metric-Takes h _ le = absurd (omega arith)

branch :
    {A : Type 0} (l : ℕ) (test : Bool) {first second : Reader A}
    → (test ≡ true → Takes l first)
    → Takes l second
    → Takes l (if test then first else second)
branch l true here there = here refl
branch l false here there = there

exactly : (t k l n : ℕ) → (t == k && l == n) ≡ true → l ≡ n
exactly t k l n e = ground arith

at_least : (t k n l : ℕ) → (t == k && leb n l) ≡ true → n ≤ l
at_least t k n l e = ground arith

module _ (net : Ipv6) where
  read_address-Takes : Takes 16 (read_address net)
  read_address-Takes body h = (
    net.deserialize (take 16 body),
    drop 16 body,
    (read_address_enough net body h).0,
    omega (arith, length-drop 16 body),
  )

  -- An address behind some octets.
  address-Takes : {A : Type 0} (f : ℕ → A) → Takes 16 (read_address net >>= λ a. return (f a))
  address-Takes f =
      bind-Takes 16 0 (read_address net) _ read_address-Takes (λ a. return-Takes (f a))

  read_prefix_info-Takes : (h : DioHeader) → Takes 26 (read_prefix_info net h)
  unfolding read_prefix_info
  read_prefix_info-Takes h (a ∷ b ∷ c ∷ d ∷ e ∷ f ∷ g ∷ i ∷ j ∷ k ∷ body) le =
      let (r, rest, e', le') = address-Takes _ body (omega arith) in (r, rest, e', omega arith)
  read_prefix_info-Takes h _ le = absurd (omega arith)

  read_art-Takes : (h : DioHeader) → Takes 18 (read_art net h)
  unfolding read_art
  read_art-Takes h (a ∷ b ∷ body) le =
      let (r, rest, e', le') = address-Takes _ body (omega arith) in (r, rest, e', omega arith)
  read_art-Takes h _ le = absurd (omega arith)

  read_target-Takes : (h : DioHeader) → Takes 18 (read_target net h)
  unfolding read_target
  read_target-Takes h (a ∷ b ∷ body) le =
      let (r, rest, e', le') = address-Takes _ body (omega arith) in (r, rest, e', omega arith)
  read_target-Takes h _ le = absurd (omega arith)

  -- Where the shape is right, the entries fill what the length leaves.
  entries_fill :
      (c remaining : ℕ)
      → is_misshapen c remaining ≡ false
      → remaining / (16 - c) * (16 - c) ≡ remaining
  unfolding is_misshapen
  entries_fill c remaining h = at_size (16 - c) (ground arith)
    where
      at_size : (e : ℕ) → remaining % e ≡ 0 → remaining / e * e ≡ remaining
      at_size e whole = omega (arith, div-add-mod remaining e)

  read_entries-Takes :
      (dodag_id flags limits remaining : ℕ)
      → is_misshapen (read_compr flags) remaining ≡ false
      → Takes
          (suc remaining)
          (read_entries net dodag_id flags limits (remaining / (16 - read_compr flags)))
  unfolding read_entries
  read_entries-Takes dodag_id flags limits remaining shaped [] h = absurd (omega arith)
  read_entries-Takes dodag_id flags limits remaining shaped (t ∷ body) h =
      let c : ℕ = read_compr flags in
      let filled = entries_fill c remaining shaped in
      let (xs, rest, e, le) =
        read_vector_enough net dodag_id (remaining / (16 - c)) c body (omega arith) in
      (
        some (record {
          first = has_flag flags 0x80;
          hop_by_hop = has_flag flags 0x40;
          compr = c;
          lifetime = read_lifetime flags limits;
          rank_limit = bit_and limits 0x7F;
          third = t;
          address_vector = xs;
        }),
        rest,
        rw (e, ◌>>=◌) refl,
        omega arith,
      )

  read_discovery-Takes : (dodag_id l : ℕ) → 3 ≤ l → Takes l (read_discovery net dodag_id l)
  unfolding read_discovery
  read_discovery-Takes dodag_id l long [] h = absurd (omega arith)
  read_discovery-Takes dodag_id l long (f ∷ []) h = absurd (omega arith)
  read_discovery-Takes dodag_id l long (f ∷ m ∷ body) h =
      elim (Bool-cases (is_misshapen (read_compr f) (l - 3))) [
        | inl bad ↦
            let (d, rest, e, le) =
              skip-Takes {A = Option Discovery} (l - 2) none body (omega arith) in
            (d, rest, rw bad e, omega arith)
        | inr good ↦
            let (d, rest, e, le) =
              read_entries-Takes dodag_id f m (l - 3) good body (omega arith) in
            (d, rest, rw good e, omega arith)
      ]

  with_length : {A : Type 0} {r : Reader A} (l n : ℕ) → l ≡ n → Takes n r → Takes l r
  with_length {A} {r} l n e takes = subst (λ k. Takes k r) (sym e) takes

  map-Takes :
      {A B : Type 0} (l : ℕ) (r : Reader A) (f : A → B)
      → Takes l r
      → Takes l (r >>= λ a. return (f a))
  map-Takes l r f takes =
      with_length l (l + 0) (omega arith) (bind-Takes l 0 r _ takes (λ a. return-Takes (f a)))

  -- Each branch takes the octets of its option, no more and no fewer.
  handle_option-Takes : (t l : ℕ) (h : DioHeader) → Takes l (handle_option net t l h)
  unfolding handle_option
  handle_option-Takes t l h =
      branch l (t == 4 && l == 14)
        (λ e. with_length l 14 (exactly t 4 l 14 e) (read_dag_conf-Takes h))
        (branch l (t == 2 && l == 6)
          (λ e. with_length l 6 (exactly t 2 l 6 e) (read_metric-Takes h))
          (branch l (t == 8 && l == 26)
            (λ e. with_length l 26 (exactly t 8 l 26 e) (read_prefix_info-Takes h))
            (branch l (t == 0x0B && leb 3 l)
              (λ e. map-Takes l _ _ (read_discovery-Takes h.dodag_id l (at_least t 0x0B 3 l e)))
              (branch l (t == 0x0C && leb 3 l)
                (λ e. map-Takes l _ _ (read_discovery-Takes h.dodag_id l (at_least t 0x0C 3 l e)))
                (branch l (t == 0x0D && l == 18)
                  (λ e. with_length l 18 (exactly t 0x0D l 18 e) (read_art-Takes h))
                  (branch l (t == 0x0A)
                    (λ e. map-Takes l _ _ (rdo_takes net h.dodag_id l h.p2p_rdo))
                    (branch l (t == 5 && l == 18)
                      (λ e. with_length l 18 (exactly t 5 l 18 e) (read_target-Takes h))
                      (skip-Takes l (h, false)))))))))

  pub handle_option-StaysInside : StaysInside (handle_option net)
  handle_option-StaysInside t l h body le =
      let (r, rest, e, taken) = handle_option-Takes t l h body le in (r, rest, e, omega arith)

  walk_whole-Ends :
      (h : DioHeader) (bytes : List ℕ) → Ends bytes (walk_whole (handle_option net) h bytes)
  walk_whole-Ends h bytes = rw (walk_whole_lem (handle_option net) h bytes) (
      walk_options-Ends (handle_option net) (length bytes) h bytes handle_option-StaysInside
        (omega arith))

  parsed :
      (old : DioHeader) (bytes : List ℕ)
      → 24 ≤ length bytes
      → Ends bytes (deserialize net old bytes)
  unfolding deserialize
  parsed old (i ∷ v ∷ a ∷ b ∷ f ∷ d ∷ u ∷ r ∷ body) enough =
      let started = start_header net old i v (a * 256 + b) f d (net.deserialize (take 16 body)) in
      let (h, rest, e, le) = walk_whole-Ends started (drop 16 body) in
      (h, rest, ground (arith, read_address_enough net body), omega (arith, length-drop 16 body))
  parsed old _ enough = absurd (omega arith)

  cut : (old : DioHeader) (bytes : List ℕ) → length bytes < 24 → deserialize net old bytes ≡ none
  unfolding deserialize
  cut old [] short = refl
  cut old (i ∷ []) short = refl
  cut old (i ∷ v ∷ []) short = refl
  cut old (i ∷ v ∷ a ∷ []) short = refl
  cut old (i ∷ v ∷ a ∷ b ∷ []) short = refl
  cut old (i ∷ v ∷ a ∷ b ∷ f ∷ []) short = refl
  cut old (i ∷ v ∷ a ∷ b ∷ f ∷ d ∷ []) short = refl
  cut old (i ∷ v ∷ a ∷ b ∷ f ∷ d ∷ u ∷ []) short = refl
  cut old (i ∷ v ∷ a ∷ b ∷ f ∷ d ∷ u ∷ r ∷ body) short =
      bind_none (read_address net) _ body (read_address_short net body (omega arith))

  -- The 24 octets of the base object are read without a look at the length: of a message that is
  -- shorter, a read passes the end. Any message that has them is parsed: the option loop ends, and no
  -- read passes the end of the message, however its options are cut, and whatever lengths, numbers of
  -- entries and elided prefixes they announce.
  pub dio_total :
      (old : DioHeader) (bytes : List ℕ)
      → (length bytes < 24 → deserialize net old bytes ≡ none)
        × (24 ≤ length bytes
            → (h : DioHeader) × (rest : List ℕ) × (deserialize net old bytes ≡ some (h, rest))
              × (length rest ≤ length bytes))
  dio_total old bytes = (cut old bytes, parsed old bytes)
