-- ===== src/Header/PacketInfo/Writable.antt =====
-- What every well formed RPL Option that was read meets, so that it can be written again.
use rpl.Base.{
  ltb, Bool-cases, inl, inr, ℕ, ◌+◌, ◌≤◌, ◌≡◌, sym, ap, ◌∙◌, ◌||◌, false, Option, none, some, List,
  [], ◌∷◌, length, arith,
}
use mathlib.Core.Path.{subst}
use rpl.Header.PacketInfo.{PacketInfoHeader, rpi_base_length, get_serialized_size, deserialize}
use rpl.Header.PacketInfo.RoundTrip.{packet_info_malformed, packet_info-Parsed}

abbrev pub header_or : PacketInfoHeader → Option (PacketInfoHeader × List ℕ) → PacketInfoHeader
header_or h none = h
header_or h (some (g, rest)) = g

-- What a well formed option that was read promises its writer.
abbrev pub IsWritable : PacketInfoHeader → Type 0
IsWritable h =
    (h.length_field ≡ rpi_base_length + length h.sub_tlvs) × (get_serialized_size h ≤ 255)

pub deserialize-IsWritable :
    (bytes : List ℕ) (h : PacketInfoHeader) (rest : List ℕ)
    → deserialize bytes ≡ some (h, rest)
    → h.malformed ≡ false
    → IsWritable h
deserialize-IsWritable [] h rest e ok = unfold deserialize in ground (arith, e)
deserialize-IsWritable (t ∷ []) h rest e ok = unfold deserialize in ground (arith, e)
deserialize-IsWritable (t ∷ l ∷ body) h rest e ok =
    elim (Bool-cases (ltb l 4 || (ltb (length body) l || ltb 253 l))) [
      | inl bad ↦
          let (g, eg, m) = packet_info_malformed t l body (ground (arith, bad)) in
          absurd (ground (arith, ok, m, ap (λ r. (header_or h r).malformed) (sym e ∙ eg)))
      | inr good ↦
          let (g, left, eg, m, lf, fills, taken, again) =
            packet_info-Parsed t l body (ground (arith, good)) (ground (arith, good))
              (ground (arith, good)) in
          subst IsWritable {x = g} {y = h} (ap (header_or h) (sym eg ∙ e))
            (unfold get_serialized_size in (lf ∙ fills, ground (arith, good, fills)))
    ]
