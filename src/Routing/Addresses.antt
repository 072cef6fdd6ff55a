-- ===== src/Routing/Addresses.antt =====
-- The addresses a node takes as its own: GetGlobalAddress and GetGlobalAddressIn of
-- model/rpl-routing-protocol.cc, over the addresses that Ipv6 assigned to its interfaces.
use rpl.Base.{ℕ, Bool, true, not, ◌&&◌, Option, none, some, List, [], ◌∷◌, if◌then◌else◌, drop}
use rpl.Ipv6.{Ipv6, any}
use rpl.Routing.{DodagMembership}

pub record InterfaceAddress : Type 0 where
  pub address : ℕ
  pub is_global : Bool
  pub is_tentative : Bool

-- The first usable global address that passes a test.
unfoldable pub first_usable : (ℕ → Bool) → List InterfaceAddress → Option ℕ
first_usable p [] = none
first_usable p (a ∷ as_) =
    if a.is_global && not a.is_tentative && p a.address then some a.address else first_usable p as_

unfoldable pub first_on_interfaces : (ℕ → Bool) → List (List InterfaceAddress) → ℕ
first_on_interfaces p [] = any
first_on_interfaces p (i ∷ is) = elim (first_usable p i) [
  | none ↦ first_on_interfaces p is
  | some a ↦ a
]

-- Interface 0 is the loopback.
unfoldable pub get_global_address : List (List InterfaceAddress) → ℕ
get_global_address interfaces = first_on_interfaces (λ a. true) (drop 1 interfaces)

unfoldable pub get_global_address_in : Ipv6 → List (List InterfaceAddress) → DodagMembership → ℕ
get_global_address_in net interfaces dodag =
    if dodag.has_prefix_info
    then first_on_interfaces (λ a. net.is_match dodag.prefix_length a dodag.prefix)
        (drop 1 interfaces)
    else get_global_address interfaces
