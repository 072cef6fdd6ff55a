-- ===== src/Ipv6/Network.antt =====
-- Addresses in network order: an instance that meets what is assumed of Ipv6Address.
use rpl.Base.{
  ℕ, zero, suc, ◌+◌, ◌*◌, ◌/◌, ◌-◌, ◌%◌, ◌^◌, ◌<◌, ◌≡◌, refl, List, [], ◌∷◌, ◌++◌, length,
  length-append, take, arith, ap, Bool, true, ◌==◌, ==_iff,
}
use rpl.Ipv6.{Ipv6, IsAddress, link_local_prefix}
use native.Mathlib.Nat.{pow-suc}

-- The low `n` bytes of `a`, highest first.
unfoldable pub big_endian : ℕ → ℕ → List ℕ
big_endian zero a = []
big_endian (suc n) a = big_endian n (a / 256) ++ a % 256 ∷ []

unfoldable pub from_bytes : ℕ → List ℕ → ℕ
from_bytes acc [] = acc
from_bytes acc (b ∷ bs) = from_bytes (acc * 256 + b) bs

pub length-big_endian : (n a : ℕ) → length (big_endian n a) ≡ n
unfolding big_endian
length-big_endian zero a = refl
length-big_endian (suc n) a =
    omega
      (arith, length-append (big_endian n (a / 256)) (a % 256 ∷ []), length-big_endian n (a / 256))

from_bytes-append :
    (acc : ℕ) (xs : List ℕ) (b : ℕ) → from_bytes acc (xs ++ b ∷ []) ≡ from_bytes acc xs * 256 + b
unfolding from_bytes
from_bytes-append acc [] b = refl
from_bytes-append acc (x ∷ xs) b = from_bytes-append (acc * 256 + x) xs b

from_bytes-big_endian : (n a : ℕ) → a < 256 ^ n → from_bytes 0 (big_endian n a) ≡ a
unfolding big_endian
from_bytes-big_endian zero a h = unfold from_bytes in omega arith
from_bytes-big_endian (suc n) a h = omega (
  arith,
  from_bytes-append 0 (big_endian n (a / 256)) (a % 256),
  from_bytes-big_endian n (a / 256) (omega (arith, pow-suc 256 n)),
)

-- fe80::/64 and ff00::/8.
unfoldable pub link_local_test : ℕ → Bool
link_local_test a = a / 2 ^ 64 == 0xfe80_0000_0000_0000

unfoldable pub multicast_test : ℕ → Bool
multicast_test a = a / 2 ^ 120 == 0xff

unfoldable pub prefix_test : ℕ → ℕ → ℕ → Bool
prefix_test prefix_length a b = a / 2 ^ (128 - prefix_length) == b / 2 ^ (128 - prefix_length)

unfoldable pub deserialize_bytes : List ℕ → ℕ
deserialize_bytes bytes = from_bytes 0 bytes % 2 ^ 128

pub big_endian-link_local :
    (a : ℕ) → link_local_test a ≡ true → take 8 (big_endian 16 a) ≡ link_local_prefix
unfolding link_local_test big_endian
big_endian-link_local a h =
    ap (big_endian 8) {x = a / 256 / 256 / 256 / 256 / 256 / 256 / 256 / 256}
      {y = 0xfe80_0000_0000_0000} (omega (arith, (==_iff (a / 2 ^ 64) 0xfe80_0000_0000_0000).0 h))

pub deserialize_bytes-big_endian : (a : ℕ) → IsAddress a → deserialize_bytes (big_endian 16 a) ≡ a
unfolding deserialize_bytes
deserialize_bytes-big_endian a h = omega (arith, from_bytes-big_endian 16 a h)

pub deserialize_bytes-IsAddress : (bytes : List ℕ) → IsAddress (deserialize_bytes bytes)
unfolding deserialize_bytes
deserialize_bytes-IsAddress bytes = omega arith

unfoldable pub network : Ipv6
unfolding big_endian from_bytes link_local_test multicast_test prefix_test deserialize_bytes
network = record {
  serialize = big_endian 16;
  deserialize = deserialize_bytes;
  is_link_local = link_local_test;
  is_multicast = multicast_test;
  is_match = prefix_test;
  length-serialize = length-big_endian 16;
  deserialize-serialize = deserialize_bytes-big_endian;
  deserialize-IsAddress = deserialize_bytes-IsAddress;
  link_local = big_endian-link_local;
}
