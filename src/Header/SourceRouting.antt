-- ===== src/Header/SourceRouting.antt =====
-- RplSourceRoutingHeader of model/rpl-header.cc: the Routing Header of RFC 6554. Next header,
-- routing type and Segments Left are the fields that it inherits from Ipv6ExtensionRoutingHeader.
pub mod Elision
pub mod RoundTrip
pub mod Safety
use rpl.Base.{
  ℕ, zero, suc, ◌+◌, ◌-◌, ◌*◌, ◌/◌, ◌%◌, min, Bool, true, false, ◌&&◌, Option, none, some, List, [],
  ◌∷◌, ◌++◌, length, take, drop, replicate, set, get_elem?, bit_and, bit_or, ltb, leb, ◌==◌,
  if◌then◌else◌,
}
use rpl.Buffer.{Reader, ◌>>=◌, ◌>>◌, return, read_u8, read_u16, read_bytes}
use rpl.Ipv6.{Ipv6, link_local_prefix}

pub record SourceRoutingHeader : Type 0 where
  pub next_header : ℕ
  pub type_routing : ℕ
  pub segments_left : ℕ
  pub addresses : List ℕ

abbrev pub max_serialized_size : ℕ
max_serialized_size = 2048

-- The part of the declared size, cut to what is there, that holds addresses, less the pad.
unfoldable pub address_room : ℕ → ℕ → ℕ
address_room declared pad = if ltb pad (declared - 8) then declared - 8 - pad else 0

-- How many addresses fill that room.
unfoldable pub address_count : ℕ → ℕ → ℕ → ℕ
address_count room i e = if leb (16 - e) room then (room - (16 - e)) / (16 - i) + 1 else 0

module _ (net : Ipv6) where
  open net use {serialize as address_bytes, deserialize as to_address, is_link_local}

  -- The loop of Cmpri(): whether every address but the last is link-local.
  unfoldable pub all_but_last_link_local : List ℕ → Bool
  all_but_last_link_local [] = true
  all_but_last_link_local (a ∷ []) = true
  all_but_last_link_local (a ∷ b ∷ r) = is_link_local a && all_but_last_link_local (b ∷ r)

  unfoldable pub last_link_local : List ℕ → Bool
  last_link_local [] = false
  last_link_local (a ∷ []) = is_link_local a
  last_link_local (a ∷ b ∷ r) = last_link_local (b ∷ r)

  -- Cmpri() and Cmpre(): how many octets are elided from every address but the last, and from the
  -- last.
  unfoldable pub cmpri : List ℕ → ℕ
  unfolding all_but_last_link_local
  cmpri addresses =
      if ltb (length addresses) 2 then 0 else if all_but_last_link_local addresses then 8 else 0

  unfoldable pub cmpre : List ℕ → ℕ
  unfolding last_link_local
  cmpre addresses = if last_link_local addresses then 8 else 0

  unfoldable pub size_of : List ℕ → ℕ
  size_of [] = 8
  size_of (a ∷ r) = 8 + length r * (16 - cmpri (a ∷ r)) + (16 - cmpre (a ∷ r))

  unfoldable pub get_serialized_size : SourceRoutingHeader → ℕ
  get_serialized_size h = size_of h.addresses

  unfoldable pub write_addresses : ℕ → ℕ → List ℕ → List ℕ
  write_addresses i e [] = []
  write_addresses i e (a ∷ []) = drop e (address_bytes a)
  write_addresses i e (a ∷ b ∷ r) = drop i (address_bytes a) ++ write_addresses i e (b ∷ r)

  -- Serialize(), past its assertion that the size is at most 2048.
  unfoldable pub serialize : SourceRoutingHeader → List ℕ
  serialize h =
      h.next_header
      ∷ (size_of h.addresses - 8) / 8 % 256
      ∷ h.type_routing
      ∷ h.segments_left
      ∷ bit_or (cmpri h.addresses * 16) (cmpre h.addresses)
      ∷ 0
      ∷ 0
      ∷ 0
      ∷ write_addresses (cmpri h.addresses) (cmpre h.addresses) h.addresses

  -- One entry: the octets that were elided come from fe80::/64, and past its eight they are 0.
  unfoldable pub read_entry : ℕ → Reader ℕ
  read_entry elided = do
    bytes ← read_bytes (16 - elided)
    let constant = min elided 8
    return
        (to_address (take constant link_local_prefix ++ (replicate (elided - constant) 0 ++ bytes)))

  unfoldable pub read_addresses : ℕ → ℕ → ℕ → Reader (List ℕ)
  unfolding read_entry
  read_addresses zero i e = return []
  read_addresses (suc k) i e = do
    a ← read_entry (if k == 0 then e else i)
    r ← read_addresses k i e
    return (a ∷ r)

  -- What follows the fixed eight octets.
  unfoldable pub read_rest : ℕ → ℕ → ℕ → ℕ → ℕ → ℕ → Reader (SourceRoutingHeader × ℕ)
  read_rest next_header hdr_ext_len type_routing segments_left cmpr pad rest =
      let declared = min ((hdr_ext_len + 1) * 8) (8 + length rest) in
      let i = cmpr / 16 in
      let e = bit_and cmpr 0x0f in
      let count = address_count (address_room declared pad) i e in
      (read_addresses count i e >>= λ addresses. return (
        record {
          next_header = next_header;
          type_routing = type_routing;
          segments_left = segments_left;
          addresses = addresses;
        },
        declared,
      ))
        rest

  -- The header that was read, and the number of bytes that it claims.
  unfoldable pub deserialize : Reader (SourceRoutingHeader × ℕ)
  deserialize = do
    next_header ← read_u8
    hdr_ext_len ← read_u8
    type_routing ← read_u8
    segments_left ← read_u8
    cmpr ← read_u8
    pad ← read_u8
    reserved ← read_u16
    read_rest next_header hdr_ext_len type_routing segments_left cmpr (pad / 16)

unfoldable pub set_segments_left : ℕ → SourceRoutingHeader → SourceRoutingHeader
set_segments_left n h = record h { segments_left = n }

-- `m_addresses.at(index)`: `none` is the exception that it throws past the end.
unfoldable pub get_address : ℕ → SourceRoutingHeader → Option ℕ
get_address index h = get_elem? h.addresses index

unfoldable pub set_address : ℕ → ℕ → SourceRoutingHeader → Option SourceRoutingHeader
set_address index address h =
    if ltb index (length h.addresses)
    then some (record h { addresses = set h.addresses index address })
    else none
