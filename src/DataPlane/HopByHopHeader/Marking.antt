-- ===== src/DataPlane/HopByHopHeader/Marking.antt =====
-- A packet marked with a Forwarding-Error, as the next router reads it.
use rpl.Base.{
  ℕ, ◌≤◌, ◌≡◌, ap, true, false, not, ◌||◌, Option, none, some, List, [], ◌∷◌, ◌++◌, length,
  length-append, drop, arith, inl, inr, Bool-cases, ltb, ◌==◌,
}
use mathlib.Core.Path.{subst}
use rpl.Header.PacketInfo.{
  PacketInfoHeader, hbh_option_type, rpi_base_size, set_forwarding_error, get_serialized_size,
  serialize, deserialize,
}
use rpl.Header.PacketInfo.RoundTrip.{packet_info_round_trip}
use rpl.Header.PacketInfo.Writable.{header_or, IsWritable, deserialize-IsWritable}
use rpl.DataPlane.HopByHopHeader.{ext_hop_by_hop, usable, read_rpi, splice, mark_forwarding_error}

set_forwarding_error-IsWritable :
    (h : PacketInfoHeader) → IsWritable h → IsWritable (set_forwarding_error true h)
unfolding set_forwarding_error get_serialized_size
set_forwarding_error-IsWritable h w = w

-- What is read off a packet, and the bytes it stood in.
abbrev IsRead : ℕ → List ℕ → PacketInfoHeader → List ℕ → Type 0
IsRead next_header p rpi rest =
    (next_header ≡ ext_hop_by_hop)
    × (deserialize (drop 2 p) ≡ some (rpi, rest))
    × (rpi.malformed ≡ false)
    × (rpi.option_type ≡ hbh_option_type)

usable_inv :
    (o : Option (PacketInfoHeader × List ℕ)) (rpi : PacketInfoHeader) (rest : List ℕ)
    → usable o ≡ some (rpi, rest)
    → (o ≡ some (rpi, rest)) × (rpi.malformed ≡ false) × (rpi.option_type ≡ hbh_option_type)
usable_inv none rpi rest h = ground (arith, h)
usable_inv (some (g, left)) rpi rest h =
    elim (Bool-cases (g.malformed || not (g.option_type == hbh_option_type))) [
      | inl b ↦ absurd (ground (arith, h, b))
      | inr b ↦
          let same : some (g, left) ≡ some (rpi, rest) = rw b at h in
          let one : g ≡ rpi = ap (header_or g) {x = some (g, left)} {y = some (rpi, rest)} same in
          (
            same,
            subst (λ (k : PacketInfoHeader). k.malformed ≡ false) {x = g} {y = rpi} one
                (ground (arith, b)),
            subst (λ (k : PacketInfoHeader). k.option_type ≡ hbh_option_type) {x = g} {y = rpi} one
                (ground (arith, b)),
          )
    ]

size_enough : (h : PacketInfoHeader) → 6 ≤ get_serialized_size h
unfolding get_serialized_size
size_enough h = omega arith

reads_back :
    (a b : ℕ) (h : PacketInfoHeader) (rest : List ℕ)
    → IsWritable h
    → h.malformed ≡ false
    → h.option_type ≡ hbh_option_type
    → read_rpi ext_hop_by_hop (a ∷ b ∷ (serialize h ++ rest)) ≡ some (h, rest)
unfolding read_rpi
reads_back a b h rest (fills, small) ok kind =
    let (again, long) = packet_info_round_trip h rest ok fills small in
    ground (arith, again, long, size_enough h, length-append (serialize h) rest, ok, kind)

read_rpi-IsRead :
    (next_header : ℕ) (p : List ℕ) (rpi : PacketInfoHeader) (rest : List ℕ)
    → read_rpi next_header p ≡ some (rpi, rest)
    → IsRead next_header p rpi rest
unfolding read_rpi
read_rpi-IsRead next_header p rpi rest h =
    elim (Bool-cases (
      not (next_header == ext_hop_by_hop)
      || (ltb (length p) 2 || ltb (length (drop 2 p)) rpi_base_size))) [
        | inl b ↦ absurd (ground (arith, h, b))
        | inr b ↦
            let (e, ok, kind) = usable_inv (deserialize (drop 2 p)) rpi rest (rw b at h) in
            (ground (arith, b), e, ok, kind)
      ]

-- Where an option could be read off a packet, MarkForwardingError succeeds, and the next router reads
-- the option back with the 'F' bit set and nothing else of it changed, and the bytes behind it as they
-- were.
pub mark_forwarding_error-read_rpi :
    (next_header : ℕ) (p : List ℕ) (rpi : PacketInfoHeader) (rest : List ℕ)
    → read_rpi next_header p ≡ some (rpi, rest)
    → (q : List ℕ) × (mark_forwarding_error next_header p ≡ some q)
      × (read_rpi next_header q ≡ some (set_forwarding_error true rpi, rest))
unfolding mark_forwarding_error set_forwarding_error
mark_forwarding_error-read_rpi next_header [] rpi rest h =
    absurd (unfold read_rpi in ground (arith, h))
mark_forwarding_error-read_rpi next_header (a ∷ []) rpi rest h =
    absurd (unfold read_rpi in ground (arith, h))
mark_forwarding_error-read_rpi next_header (a ∷ b ∷ t) rpi rest h =
    let (first, e, ok, kind) = read_rpi-IsRead next_header (a ∷ b ∷ t) rpi rest h in
    let marked = set_forwarding_error true rpi in
    (
      a ∷ b ∷ (serialize marked ++ rest),
      ap (splice (a ∷ b ∷ t)) h,
      rw first (
          reads_back a b marked rest
            (set_forwarding_error-IsWritable rpi (deserialize-IsWritable t rpi rest e ok)) ok kind),
    )
