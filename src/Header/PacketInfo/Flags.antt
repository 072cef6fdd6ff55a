-- ===== src/Header/PacketInfo/Flags.antt =====
-- The three flags of the RPL Option do not disturb one another.
use rpl.Base.{
  ℕ, ◌<◌, ◌≡◌, refl, Bool, true, false, ◌&&◌, bit_and, tabulated, tabulated_at, and-true, bool_eq,
  bool_eq→eq, ◌==◌, ==_iff,
}
use rpl.Header.Address.{has_flag}
use rpl.Header.PacketInfo.{
  PacketInfoHeader, set_bit, set_down, get_down, set_rank_error, get_rank_error,
  set_forwarding_error, get_forwarding_error,
}

-- After a flag was set: the flag, the two others and the five low bits.
checks : ℕ → ℕ → ℕ → ℕ → Bool → ℕ → Bool
unfolding bool_eq
checks mask others second third value f =
    let g = set_bit mask others value f in
    bool_eq (has_flag g mask) value
    && (bool_eq (has_flag g second) (has_flag f second)
        && (bool_eq (has_flag g third) (has_flag f third) && bit_and g 0x1F == bit_and f 0x1F))

abbrev Checked : ℕ → ℕ → ℕ → ℕ → Bool → ℕ → Type 0
Checked mask others second third value f =
    let g = set_bit mask others value f in
    (has_flag g mask ≡ value)
    × (has_flag g second ≡ has_flag f second)
    × (has_flag g third ≡ has_flag f third)
    × (bit_and g 0x1F ≡ bit_and f 0x1F)

checks_sound :
    (mask others second third : ℕ) (value : Bool)
    → tabulated (checks mask others second third value) 256 ≡ true
    → (f : ℕ) → f < 256
    → Checked mask others second third value f
unfolding checks
checks_sound mask others second third value table f lt =
    let g : ℕ = set_bit mask others value f in
    let all = tabulated_at (checks mask others second third value) 256 f table lt in
    let (e1, r1) = and-true _ _ all in
    let (e2, r2) = and-true _ _ r1 in
    let (e3, e4) = and-true _ _ r2 in
    (bool_eq→eq _ _ e1, bool_eq→eq _ _ e2, bool_eq→eq _ _ e3, (==_iff _ _).0 e4)

down_bits : (value : Bool) (f : ℕ) → f < 256 → Checked 0x80 0x7F 0x40 0x20 value f
unfolding tabulated checks
down_bits true f = checks_sound 0x80 0x7F 0x40 0x20 true refl f
down_bits false f = checks_sound 0x80 0x7F 0x40 0x20 false refl f

rank_error_bits : (value : Bool) (f : ℕ) → f < 256 → Checked 0x40 0xBF 0x80 0x20 value f
unfolding tabulated checks
rank_error_bits true f = checks_sound 0x40 0xBF 0x80 0x20 true refl f
rank_error_bits false f = checks_sound 0x40 0xBF 0x80 0x20 false refl f

forwarding_error_bits : (value : Bool) (f : ℕ) → f < 256 → Checked 0x20 0xDF 0x80 0x40 value f
unfolding tabulated checks
forwarding_error_bits true f = checks_sound 0x20 0xDF 0x80 0x40 true refl f
forwarding_error_bits false f = checks_sound 0x20 0xDF 0x80 0x40 false refl f

-- `g` has `value` at the flag `this`, and `h`'s at the flags `that` and `other` and in the five
-- bits below the flags.
abbrev pub Sets :
    (PacketInfoHeader → Bool)
    → (PacketInfoHeader → Bool)
    → (PacketInfoHeader → Bool)
    → PacketInfoHeader
    → PacketInfoHeader
    → Bool
    → Type 0
Sets this that other h g value =
    (this g ≡ value)
    × (that g ≡ that h)
    × (other g ≡ other h)
    × (bit_and g.flags 0x1F ≡ bit_and h.flags 0x1F)

-- Each of the three setters makes its own flag answer what was set, and leaves the two other flags
-- and the five bits below them as they were, on any flags octet.
pub flags_independent :
    (h : PacketInfoHeader) (value : Bool)
    → h.flags < 256
    → Sets get_down get_rank_error get_forwarding_error h (set_down value h) value
      × Sets get_rank_error get_down get_forwarding_error h (set_rank_error value h) value
      × Sets get_forwarding_error get_down get_rank_error h (set_forwarding_error value h) value
unfolding set_down get_down set_rank_error get_rank_error set_forwarding_error get_forwarding_error
flags_independent h value lt = (
  down_bits value h.flags lt,
  rank_error_bits value h.flags lt,
  forwarding_error_bits value h.flags lt,
)
