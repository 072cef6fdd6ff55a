-- ===== src/Trickle/Validity.antt =====
-- The invariant of a configured Trickle timer.
use rpl.Base.{ℕ, ◌*◌, ◌/◌, ◌^◌, ◌≤◌, ◌<◌, ◌≡◌, Bool, true, false, Option, none, some, arith}
use rpl.Trickle.{TrickleTimer, init, set_parameters}
use native.Mathlib.Nat.{one-le-pow}

-- GetValue(min, max) answers in [min, max).
abbrev pub Draws : (ℕ → ℕ → ℕ) → Type 0
Draws draw = (lo hi : ℕ) → lo < hi → (lo ≤ draw lo hi) × (draw lo hi < hi)

-- A pending transmission lies in [I/2, I).
abbrev pub InSecondHalf : ℕ → Option ℕ → Type 0
InSecondHalf interval none = Unit {0}
InSecondHalf interval (some d) = (interval / 2 ≤ d) × (d < interval)

-- A running timer has the end of its interval scheduled, a stopped one has nothing scheduled.
abbrev pub Pending : Bool → ℕ → Option ℕ → Option ℕ → Type 0
Pending true interval transmit end = (end ≡ some interval) × InSecondHalf interval transmit
Pending false interval transmit end = (end ≡ none) × (transmit ≡ none)

pub record IsValid (t : TrickleTimer) : Type 0 where
  pub positive : 0 < t.interval_min
  pub ordered : t.interval_min ≤ t.interval_max
  pub above : t.running ≡ true → t.interval_min ≤ t.interval
  pub below : t.running ≡ true → t.interval ≤ t.interval_max
  pub pending : Pending t.running t.interval t.transmit_timer t.interval_timer
  pub counted : t.counter < 65536

le_mul_pow : (m k : ℕ) → m ≤ m * 2 ^ k
le_mul_pow m k = grind (arith, one-le-pow k 2 (omega arith))

-- A new timer that was given an Imin above 0 is valid.
pub set_parameters-IsValid : (m k r : ℕ) → 0 < m → IsValid (set_parameters init m k r)
unfolding set_parameters init
set_parameters-IsValid m k r h = record {
  positive = h;
  ordered = le_mul_pow m k;
  above = λ e. cc;
  below = λ e. cc;
  pending = ground arith;
  counted = omega arith;
}
