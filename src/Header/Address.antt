-- ===== src/Header/Address.antt =====
-- Reading and writing of whole addresses, and of flag bits, as the headers do it.
use rpl.Base.{
  ℕ, ◌≤◌, ◌<◌, ◌≡◌, ◌-◌, Bool, none, some, List, ◌++◌, length, drop, arith, bit_and, ◌==◌, not,
  take,
}
use rpl.Buffer.{Reader, ◌>>=◌, return, read_bytes}
use rpl.Buffer.Reading.{read_bytes-append, read_bytes_short, bind_none, read_bytes_enough}
use rpl.Ipv6.{Ipv6, IsAddress}

-- `(flags & mask) != 0`
abbrev pub has_flag : ℕ → ℕ → Bool
has_flag flags mask = not (bit_and flags mask == 0)

module _ (net : Ipv6) where
  -- `i.Read(buf, 16); Ipv6Address::Deserialize(buf)`
  unfoldable pub read_address : Reader ℕ
  read_address = read_bytes 16 >>= λ buf. return (net.deserialize buf)

  pub read_address-serialize :
      (a : ℕ) (rest : List ℕ)
      → IsAddress a
      → read_address (net.serialize a ++ rest) ≡ some (a, rest)
  unfolding read_address
  read_address-serialize a rest h = ground (
    arith,
    net.deserialize-serialize a h,
    read_bytes-append 16 (net.serialize a) rest (net.length-serialize a),
  )

  -- Fewer than 16 octets: the read passes their end.
  pub read_address_short : (bytes : List ℕ) → length bytes < 16 → read_address bytes ≡ none
  unfolding read_address
  read_address_short bytes h = bind_none (read_bytes 16) _ bytes (read_bytes_short 16 bytes h)

  pub read_address_enough :
      (bytes : List ℕ)
      → 16 ≤ length bytes
      → (read_address bytes ≡ some (net.deserialize (take 16 bytes), drop 16 bytes))
        × (length (drop 16 bytes) ≡ length bytes - 16)
  unfolding read_address
  read_address_enough bytes h = ground (arith, read_bytes_enough 16 bytes h)
