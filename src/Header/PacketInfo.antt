-- ===== src/Header/PacketInfo.antt =====
-- RplPacketInfoHeader of model/rpl-header.cc: the RPL Option (RFC 6553).
pub mod Flags
pub mod RoundTrip
pub mod Writable
use rpl.Base.{
  ℕ, ◌+◌, ◌-◌, ◌*◌, ◌/◌, ◌%◌, Bool, true, false, ◌||◌, Option, none, some, List, [], ◌∷◌, ◌++◌,
  length, bit_and, bit_or, ltb, leb, if◌then◌else◌,
}
use rpl.Buffer.{Reader, ◌>>=◌, ◌>>◌, return, read_u8, read_u16, read_bytes, write_u16}
use rpl.Header.Address.{has_flag}

pub record PacketInfoHeader : Type 0 where
  pub option_type : ℕ
  pub length_field : ℕ
  pub flags : ℕ
  pub instance_id : ℕ
  pub sender_rank : ℕ
  pub sub_tlvs : List ℕ
  pub malformed : Bool

abbrev pub hbh_option_type : ℕ
hbh_option_type = 0x63

abbrev pub rpi_base_length : ℕ
rpi_base_length = 4

abbrev pub rpi_base_size : ℕ
rpi_base_size = 6

abbrev pub opt_down : ℕ
opt_down = 0x80

abbrev pub opt_rank_err : ℕ
opt_rank_err = 0x40

abbrev pub opt_fwd_err : ℕ
opt_fwd_err = 0x20

abbrev pub default_instance : ℕ
default_instance = 0

-- The constructor.
unfoldable pub new_header : PacketInfoHeader
new_header = record {
  option_type = hbh_option_type;
  length_field = rpi_base_length;
  flags = 0;
  instance_id = default_instance;
  sender_rank = 0;
  sub_tlvs = [];
  malformed = false;
}

unfoldable pub get_serialized_size : PacketInfoHeader → ℕ
get_serialized_size h = rpi_base_size + length h.sub_tlvs

unfoldable pub serialize : PacketInfoHeader → List ℕ
serialize h =
    h.option_type
    ∷ (rpi_base_length + length h.sub_tlvs) % 256
    ∷ h.flags
    ∷ h.instance_id
    ∷ write_u16 h.sender_rank h.sub_tlvs

-- The header of an option whose Opt Data Len is unusable.
reject : ℕ → PacketInfoHeader
reject option_type = record {
  option_type = option_type;
  length_field = rpi_base_length;
  flags = 0;
  instance_id = default_instance;
  sender_rank = 0;
  sub_tlvs = [];
  malformed = true;
}

-- The octets past the four mandatory ones.
unfoldable pub read_sub_tlvs : ℕ → Reader (List ℕ)
read_sub_tlvs length_field =
    if ltb rpi_base_length length_field
    then read_bytes (length_field - rpi_base_length)
    else return []

-- The octets that the Opt Data Len covers.
read_body : ℕ → ℕ → Reader PacketInfoHeader
read_body option_type length_field = do
  flags ← read_u8
  instance_id ← read_u8
  sender_rank ← read_u16
  sub_tlvs ← read_sub_tlvs length_field
  return (record {
    option_type = option_type;
    length_field = length_field;
    flags = flags;
    instance_id = instance_id;
    sender_rank = sender_rank;
    sub_tlvs = sub_tlvs;
    malformed = false;
  })

unusable : ℕ → ℕ → Bool
unusable length_field remaining =
    ltb length_field rpi_base_length || ltb remaining length_field || ltb 255 (length_field + 2)

unfoldable pub deserialize : Reader PacketInfoHeader
unfolding reject read_body unusable
deserialize = do
  option_type ← read_u8
  length_field ← read_u8
  λ bytes.
      if unusable length_field (length bytes)
      then some (reject option_type, bytes)
      else read_body option_type length_field bytes

abbrev set_bit : ℕ → ℕ → Bool → ℕ → ℕ
set_bit mask others value flags = if value then bit_or flags mask else bit_and flags others

unfoldable pub set_down : Bool → PacketInfoHeader → PacketInfoHeader
set_down down h = record h { flags = set_bit opt_down 0x7F down h.flags }

unfoldable pub get_down : PacketInfoHeader → Bool
get_down h = has_flag h.flags opt_down

unfoldable pub set_rank_error : Bool → PacketInfoHeader → PacketInfoHeader
set_rank_error rank_error h = record h { flags = set_bit opt_rank_err 0xBF rank_error h.flags }

unfoldable pub get_rank_error : PacketInfoHeader → Bool
get_rank_error h = has_flag h.flags opt_rank_err

unfoldable pub set_forwarding_error : Bool → PacketInfoHeader → PacketInfoHeader
set_forwarding_error forwarding_error h = record h {
  flags = set_bit opt_fwd_err 0xDF forwarding_error h.flags;
}

unfoldable pub get_forwarding_error : PacketInfoHeader → Bool
get_forwarding_error h = has_flag h.flags opt_fwd_err
