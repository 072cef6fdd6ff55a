-- ===== src/Base/Bits.antt =====
-- Facts about every octet, or every number below a bound, read off by evaluation.
use Prim.Native.Nat.{ℕ, zero, suc, ◌<◌}
use mathlib.Core.Path.{◌≡◌, refl, sym}
use mathlib.Core.Bool.{Bool, true, false, not, ◌&&◌}
use native.Mathlib.Omega.{arith}
use rpl.Base.Tests.{◌==◌, ==_iff, if◌then◌else◌}

-- Whether a test holds of each number below the bound.
unfoldable pub tabulated : (ℕ → Bool) → ℕ → Bool
tabulated test zero = true
tabulated test (suc bound) = let below = tabulated test bound in if test bound then below else false

pub tabulated_at :
    (test : ℕ → Bool) (bound v : ℕ) → tabulated test bound ≡ true → v < bound → test v ≡ true
unfolding tabulated
tabulated_at test zero v table small = absurd (omega arith)
tabulated_at test (suc bound) v table small = ground (arith, tabulated_at test bound v)

-- The same for an equation between two functions.
pub tabulated_eq :
    (bound : ℕ) (f g : ℕ → ℕ)
    → tabulated (λ v. f v == g v) bound ≡ true
    → (v : ℕ) → v < bound
    → f v ≡ g v
tabulated_eq bound f g table v small =
    (==_iff (f v) (g v)).0 (tabulated_at (λ w. f w == g w) bound v table small)

-- Tests put together.
pub and-true : (a b : Bool) → (a && b) ≡ true → (a ≡ true) × (b ≡ true)
and-true a b h = ground arith

unfoldable pub bool_eq : Bool → Bool → Bool
bool_eq true b = b
bool_eq false b = not b

pub bool_eq→eq : (a b : Bool) → bool_eq a b ≡ true → a ≡ b
unfolding bool_eq
bool_eq→eq true b h = sym h
bool_eq→eq false true h = cc
bool_eq→eq false false h = refl

-- Whether a test holds of every choice of two flags.
unfoldable pub both_flags : (Bool → Bool → Bool) → Bool
both_flags test = (test true true && test true false) && (test false true && test false false)

pub both_flags_at :
    (test : Bool → Bool → Bool) → both_flags test ≡ true → (a b : Bool) → test a b ≡ true
unfolding both_flags
both_flags_at test h true true = ground arith
both_flags_at test h true false = ground arith
both_flags_at test h false true = ground arith
both_flags_at test h false false = ground arith
