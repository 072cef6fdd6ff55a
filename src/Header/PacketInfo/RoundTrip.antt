-- ===== src/Header/PacketInfo/RoundTrip.antt =====
-- The RPL Option on the wire, in both directions and on malformed input.
use rpl.Base.{
  ltb, Bool-cases, inl, inr, ℕ, ◌+◌, ◌-◌, ◌*◌, ◌%◌, ◌≤◌, ◌<◌, ◌≡◌, ◌⊎◌, refl, true, false, Option,
  some, List, [], ◌∷◌, ◌++◌, length, length-append, take, drop, take-append-drop, length-take_le,
  All, arith,
}
use rpl.Buffer.Reading.{read_bytes-append, read_bytes_enough}
use rpl.Ipv6.{IsByte}
use rpl.Header.PacketInfo.{
  PacketInfoHeader, rpi_base_length, get_serialized_size, serialize, deserialize, read_sub_tlvs,
  read_body, reject, unusable,
}

read_sub_tlvs-append :
    (l : ℕ) (xs ys : List ℕ)
    → l ≡ rpi_base_length + length xs
    → read_sub_tlvs l (xs ++ ys) ≡ some (xs, ys)
unfolding read_sub_tlvs
read_sub_tlvs-append l [] ys e = ground arith
read_sub_tlvs-append l (x ∷ xs) ys e =
    ground (arith, read_bytes-append (l - rpi_base_length) (x ∷ xs) ys (omega arith))

-- Reading back an option that was written, with whatever follows it, gives the same option and
-- leaves what follows, and as many bytes were written as GetSerializedSize() says: for a well
-- formed option whose size fits the uint8_t that Process() reports.
pub packet_info_round_trip :
    (h : PacketInfoHeader) (rest : List ℕ)
    → h.malformed ≡ false
    → h.length_field ≡ rpi_base_length + length h.sub_tlvs
    → get_serialized_size h ≤ 255
    → (deserialize (serialize h ++ rest) ≡ some (h, rest))
      × (length (serialize h) ≡ get_serialized_size h)
unfolding deserialize serialize get_serialized_size
packet_info_round_trip h rest m l s = (
  ground (
    arith,
    length-append h.sub_tlvs rest,
    read_sub_tlvs-append ((rpi_base_length + length h.sub_tlvs) % 256) h.sub_tlvs rest,
  ),
  omega arith,
)

read_sub_tlvs_enough :
    (l : ℕ) (xs : List ℕ)
    → 4 ≤ l
    → l - 4 ≤ length xs
    → (read_sub_tlvs l xs ≡ some (take (l - 4) xs, drop (l - 4) xs))
      × (length (drop (l - 4) xs) ≡ length xs - (l - 4))
unfolding read_sub_tlvs
read_sub_tlvs_enough l xs h k = elim (Bool-cases (ltb 4 l)) [
  | inl more ↦ rw more (read_bytes_enough (l - 4) xs k)
  | inr same ↦ rw same (rw (four_only l h same) (refl, omega arith))
]
  where
    four_only : (l : ℕ) → 4 ≤ l → ltb 4 l ≡ false → l - 4 ≡ 0
    four_only l h e = ground arith

-- What the parser makes of a usable Opt Data Len.
abbrev pub Parsed : ℕ → ℕ → List ℕ → Option (PacketInfoHeader × List ℕ) → Type 0
Parsed t l body r =
    (h : PacketInfoHeader) × (rest : List ℕ) × (r ≡ some (h, rest))
    × (h.malformed ≡ false)
    × (h.length_field ≡ l)
    × (l ≡ rpi_base_length + length h.sub_tlvs)
    × (length body ≡ length rest + l)
    × (All IsByte (t ∷ l ∷ body) → serialize h ++ rest ≡ t ∷ l ∷ body)

read_body-Parsed :
    (t l : ℕ) (body : List ℕ) → 4 ≤ l → l ≤ length body → Parsed t l body (read_body t l body)
unfolding read_body serialize
read_body-Parsed t l (f ∷ i ∷ hi ∷ lo ∷ xs) h k = (
  record {
    option_type = t;
    length_field = l;
    flags = f;
    instance_id = i;
    sender_rank = hi * 256 + lo;
    sub_tlvs = take (l - 4) xs;
    malformed = false;
  },
  drop (l - 4) xs,
  ground (arith, read_sub_tlvs_enough l xs),
  refl,
  refl,
  omega (arith, length-take_le (l - 4) xs (omega arith)),
  omega (arith, read_sub_tlvs_enough l xs h (omega arith)),
  λ bytes. ground (arith, take-append-drop (l - 4) xs, length-take_le (l - 4) xs),
)
read_body-Parsed t l [] h k = absurd (omega arith)
read_body-Parsed t l (f ∷ []) h k = absurd (omega arith)
read_body-Parsed t l (f ∷ i ∷ []) h k = absurd (omega arith)
read_body-Parsed t l (f ∷ i ∷ hi ∷ []) h k = absurd (omega arith)

-- Whatever bytes follow the two octets of type `t` and Opt Data Len `l`, the parser does not read
-- past their end. An `l` below 4, above 253 or beyond the bytes that follow makes the option
-- malformed, and none of those bytes is taken.
pub packet_info_malformed :
    (t l : ℕ) (body : List ℕ)
    → (l < 4) ⊎ (length body < l) ⊎ (253 < l)
    → (h : PacketInfoHeader) × (deserialize (t ∷ l ∷ body) ≡ some (h, body)) × (h.malformed ≡ true)
unfolding deserialize
packet_info_malformed t l body bad = (reject t, ground arith, refl)

-- Any other `l` is parsed: the option is well formed, its sub-TLVs fill `l`, `l` of the bytes that follow are taken, and
-- Serialize() writes the very bytes that were read, unknown flags and sub-TLVs included.
pub packet_info-Parsed :
    (t l : ℕ) (body : List ℕ)
    → 4 ≤ l
    → l ≤ 253
    → l ≤ length body
    → Parsed t l body (deserialize (t ∷ l ∷ body))
unfolding deserialize
packet_info-Parsed t l body lo hi enough = rw usable (read_body-Parsed t l body lo enough)
  where
    usable : unusable l (length body) ≡ false
    usable = ground arith

-- Octets of any type `t`, with an Opt Data Len `l` of 4 to 253 and at least `l` octets behind it, are
-- parsed: the option is well formed, `l` of the octets that follow are taken, and Serialize() writes the
-- very octets that were read, unknown flags and sub-TLVs included.
pub packet_info_parse_print :
    (t l : ℕ) (body : List ℕ)
    → 4 ≤ l
    → l ≤ 253
    → l ≤ length body
    → All IsByte (t ∷ l ∷ body)
    → (h : PacketInfoHeader) × (rest : List ℕ) × (deserialize (t ∷ l ∷ body) ≡ some (h, rest))
      × (h.malformed ≡ false)
      × (length body ≡ length rest + l)
      × (serialize h ++ rest ≡ t ∷ l ∷ body)
packet_info_parse_print t l body lo hi enough bytes =
    let (h, rest, e, well_formed, same, filled, taken, printed) =
      packet_info-Parsed t l body lo hi enough in
    (h, rest, e, well_formed, taken, printed bytes)
