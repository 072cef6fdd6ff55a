-- ===== src/Header/Dao.antt =====
-- RplDaoHeader of model/rpl-header.cc: the DAO with its Target and Transit Information options.
pub mod RoundTrip
pub mod Safety
use rpl.Base.{
  ℕ, zero, suc, ◌+◌, ◌*◌, Bool, true, false, ◌&&◌, Option, none, some, List, [], ◌∷◌, ◌++◌, length,
  bit_or, ◌==◌, if◌then◌else◌,
}
use rpl.Buffer.{Reader, ◌>>=◌, ◌>>◌, return, read_u8, skip}
use rpl.Ipv6.{Ipv6, any, is_any}
use rpl.Header.Address.{has_flag, read_address}
use rpl.Header.Options.{Handler, walk_options}

pub record AdditionalTarget : Type 0 where
  pub target : ℕ
  pub target_prefix_length : ℕ
  pub path_sequence : ℕ
  pub path_lifetime : ℕ

pub record DaoHeader : Type 0 where
  pub instance_id : ℕ
  pub ack_requested : Bool
  pub sequence : ℕ
  pub dodag_id : ℕ
  pub target : ℕ
  pub target_prefix_len : ℕ
  pub parent : ℕ
  pub path_sequence : ℕ
  pub path_lifetime : ℕ
  pub additional_targets : List AdditionalTarget

abbrev dao_k_flag : ℕ
dao_k_flag = 0x80

abbrev dao_d_flag : ℕ
dao_d_flag = 0x40

abbrev option_target : ℕ
option_target = 5

abbrev option_transit : ℕ
option_transit = 6

abbrev target_option_size : ℕ
target_option_size = 20

abbrev target_option_length : ℕ
target_option_length = 18

abbrev transit_option_size : ℕ
transit_option_size = 22

abbrev transit_option_length : ℕ
transit_option_length = 20

abbrev default_lifetime : ℕ
default_lifetime = 30

-- The constructor.
unfoldable pub new_header : DaoHeader
new_header = record {
  instance_id = 0;
  ack_requested = false;
  sequence = 0;
  dodag_id = any;
  target = any;
  target_prefix_len = 128;
  parent = any;
  path_sequence = 0;
  path_lifetime = default_lifetime;
  additional_targets = [];
}

unfoldable pub add_target : AdditionalTarget → DaoHeader → DaoHeader
add_target t h = record h { additional_targets = h.additional_targets ++ t ∷ [] }

unfoldable pub get_serialized_size : DaoHeader → ℕ
get_serialized_size h =
    4
    + (if is_any h.dodag_id then 0 else 16)
    + (target_option_size + transit_option_size)
    + length h.additional_targets * (target_option_size + transit_option_size)

-- The variables of the option loop: the header so far, the Target that waits for its Transit
-- Information, if there is one, and the two flags.
pub record ParseState : Type 0 where
  pub header : DaoHeader
  pub pending : Option (ℕ × ℕ)
  pub have_any_pair : Bool
  pub malformed : Bool

-- What a Transit Information option does with the Target before it: the first pair is the
-- header's own, each later one is added.
unfoldable pub take_pair : ℕ → ℕ → ℕ → ℕ → ℕ → ParseState → ParseState
take_pair target prefix_length path_sequence path_lifetime parent s =
    let h = s.header in
    if s.have_any_pair
    then record s {
      header =
          add_target
            (record {
              target = target;
              target_prefix_length = prefix_length;
              path_sequence = path_sequence;
              path_lifetime = path_lifetime;
            })
            h;
      pending = none;
    }
    else record s {
      header = record h {
        target = target;
        target_prefix_len = prefix_length;
        parent = parent;
        path_sequence = path_sequence;
        path_lifetime = path_lifetime;
      };
      pending = none;
      have_any_pair = true;
    }

-- What is left of a malformed DAO.
unfoldable pub discard_malformed : ParseState → DaoHeader
discard_malformed s =
    if s.malformed
    then record s.header {
      target = any;
      target_prefix_len = 128;
      parent = any;
      path_sequence = 0;
      path_lifetime = 0;
      additional_targets = [];
    }
    else s.header

-- `old` is what the header held before: a DAO with no pair keeps its prefix length, path sequence
-- and path lifetime.
unfoldable pub start_state : DaoHeader → ℕ → Bool → ℕ → ℕ → ParseState
start_state old instance_id ack_requested sequence dodag_id = record {
  header = record old {
    instance_id = instance_id;
    ack_requested = ack_requested;
    sequence = sequence;
    dodag_id = dodag_id;
    target = any;
    parent = any;
    additional_targets = [];
  };
  pending = none;
  have_any_pair = false;
  malformed = false;
}

module _ (net : Ipv6) where
  open net use {serialize as address_bytes}

  unfoldable pub write_target : ℕ → ℕ → List ℕ → List ℕ
  write_target target prefix_length rest =
      option_target ∷ target_option_length ∷ (0 ∷ prefix_length ∷ address_bytes target) ++ rest

  unfoldable pub write_transit : ℕ → ℕ → ℕ → List ℕ → List ℕ
  write_transit path_sequence path_lifetime parent rest =
      option_transit
        ∷ transit_option_length
        ∷ (0 ∷ 0 ∷ path_sequence ∷ path_lifetime ∷ address_bytes parent)
      ++ rest

  unfoldable pub write_additional : ℕ → List AdditionalTarget → List ℕ
  write_additional parent [] = []
  write_additional parent (t ∷ ts) =
      write_target t.target t.target_prefix_length
        (write_transit t.path_sequence t.path_lifetime parent (write_additional parent ts))

  unfoldable pub serialize : DaoHeader → List ℕ
  serialize h =
      h.instance_id
        ∷ bit_or (if h.ack_requested then dao_k_flag else 0)
            (if is_any h.dodag_id then 0 else dao_d_flag)
        ∷ 0
        ∷ h.sequence
        ∷ (if is_any h.dodag_id then [] else address_bytes h.dodag_id)
      ++ write_target h.target h.target_prefix_len (
          write_transit h.path_sequence h.path_lifetime h.parent
            (write_additional h.parent h.additional_targets))

  -- A Target option. A second one in a row makes the DAO malformed and ends the loop.
  unfoldable pub read_target : ParseState → Reader (ParseState × Bool)
  read_target s = elim s.pending [
    | some pending ↦ return (record s { malformed = true }, true)
    | none ↦ do
      flags ← read_u8
      prefix_length ← read_u8
      target ← read_address net
      return (record s { pending = some (target, prefix_length) }, false)
  ]

  -- A Transit Information option. One with no Target before it makes the DAO malformed and ends
  -- the loop.
  unfoldable pub read_transit : ParseState → Reader (ParseState × Bool)
  read_transit s = elim s.pending [
    | none ↦ return (record s { malformed = true }, true)
    | some (target, prefix_length) ↦ do
      flags ← read_u8
      path_control ← read_u8
      path_sequence ← read_u8
      path_lifetime ← read_u8
      parent ← read_address net
      return (take_pair target prefix_length path_sequence path_lifetime parent s, false)
  ]

  unfoldable pub handle_option : Handler ParseState
  handle_option type length s =
      if type == option_target && length == target_option_length
      then read_target s
      else if type == option_transit && length == transit_option_length
      then read_transit s
      else (skip length >> return (s, false))

  unfoldable pub read_options : ParseState → Reader DaoHeader
  read_options s bytes =
      (walk_options handle_option (length bytes) s >>= λ s'. return (discard_malformed s')) bytes

  unfoldable pub deserialize : DaoHeader → Reader DaoHeader
  deserialize old = do
    instance_id ← read_u8
    flags ← read_u8
    reserved ← read_u8
    sequence ← read_u8
    dodag_id ← if has_flag flags dao_d_flag then read_address net else return any
    read_options (start_state old instance_id (has_flag flags dao_k_flag) sequence dodag_id)
