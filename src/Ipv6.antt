-- ===== src/Ipv6.antt =====
-- What the module uses of ns-3's Ipv6Address, which stands outside this repository. An address is
-- the number of its 128 bits, so `==` and `<` of addresses are those of numbers, and :: is 0.
pub mod Network
use rpl.Base.{ℕ, ◌^◌, ◌<◌, ◌≡◌, Bool, true, List, [], ◌∷◌, take, length, All, ◌==◌}

abbrev pub any : ℕ
any = 0

abbrev pub is_any : ℕ → Bool
is_any a = a == any

abbrev pub IsAddress : ℕ → Type 0
IsAddress a = a < 2 ^ 128

abbrev pub IsByte : ℕ → Type 0
IsByte b = b < 256

-- fe80::/64, all that the module ever elides.
abbrev pub link_local_prefix : List ℕ
link_local_prefix = 0xfe ∷ 0x80 ∷ 0 ∷ 0 ∷ 0 ∷ 0 ∷ 0 ∷ 0 ∷ []

-- The 16 bytes of an address in network order, the tests of its kind, Ipv6Prefix::IsMatch (from the
-- length of the prefix), and what is documented of them.
pub record Ipv6 : Type 0 where
  pub serialize : ℕ → List ℕ
  pub deserialize : List ℕ → ℕ
  pub is_link_local : ℕ → Bool
  pub is_multicast : ℕ → Bool
  pub is_match : ℕ → ℕ → ℕ → Bool
  pub length-serialize : (a : ℕ) → length (serialize a) ≡ 16
  pub deserialize-serialize : (a : ℕ) → IsAddress a → deserialize (serialize a) ≡ a
  pub deserialize-IsAddress : (bytes : List ℕ) → IsAddress (deserialize bytes)
  pub link_local : (a : ℕ) → is_link_local a ≡ true → take 8 (serialize a) ≡ link_local_prefix
