-- ===== src/Header/AddressVector.antt =====
-- The Address Vector of the options RREQ, RREP and P2P-RDO of model/rpl-header.cc: addresses less
-- the leading octets that they share with the DODAGID.
pub mod Elision
use rpl.Base.{
  ℕ, zero, suc, ◌-◌, Bool, true, false, ◌&&◌, List, [], ◌∷◌, ◌++◌, take, drop, if◌then◌else◌,
}
use rpl.Buffer.{Reader, ◌>>=◌, return, read_bytes, same_bytes}
use rpl.Ipv6.{Ipv6}

module _ (net : Ipv6) where
  -- Whether the first eight octets of an address are those of the DODAGID.
  unfoldable pub shares_prefix : ℕ → ℕ → Bool
  shares_prefix dodag_id a = same_bytes (take 8 (net.serialize dodag_id)) (take 8 (net.serialize a))

  unfoldable pub all_share_prefix : ℕ → List ℕ → Bool
  all_share_prefix dodag_id [] = true
  all_share_prefix dodag_id (a ∷ r) = shares_prefix dodag_id a && all_share_prefix dodag_id r

  -- ElidedPrefixLength().
  unfoldable pub elided_prefix_length : ℕ → List ℕ → ℕ
  elided_prefix_length dodag_id [] = 0
  elided_prefix_length dodag_id (a ∷ r) = if all_share_prefix dodag_id (a ∷ r) then 8 else 0

  unfoldable pub write_vector : ℕ → List ℕ → List ℕ
  write_vector compr [] = []
  write_vector compr (a ∷ r) = drop compr (net.serialize a) ++ write_vector compr r

  -- One entry: the octets that were elided are those of the DODAGID.
  unfoldable pub read_elided : ℕ → ℕ → Reader ℕ
  read_elided dodag_id compr = do
    bytes ← read_bytes (16 - compr)
    return (net.deserialize (take compr (net.serialize dodag_id) ++ bytes))

  unfoldable pub read_vector : ℕ → ℕ → ℕ → Reader (List ℕ)
  read_vector zero dodag_id compr = return []
  read_vector (suc k) dodag_id compr = do
    a ← read_elided dodag_id compr
    r ← read_vector k dodag_id compr
    return (a ∷ r)
