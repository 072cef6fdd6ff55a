-- ===== src/Trickle/Suppression.antt =====
-- When a transmission is suppressed.
use rpl.Base.{ℕ, zero, suc, ◌%◌, ◌<◌, ◌≡◌, ◌↔◌, ◌⊎◌, refl, true, arith}
use rpl.Trickle.{TrickleTimer, new_interval, consistency_hit, transmit_event}

-- The timer after `n` consistent messages.
unfoldable pub hear : ℕ → TrickleTimer → TrickleTimer
unfolding consistency_hit
hear zero t = t
hear (suc n) t = consistency_hit (hear n t)

counter-hear : (n : ℕ) (t : TrickleTimer) → t.counter ≡ 0 → (hear n t).counter ≡ n % 65536
unfolding hear
counter-hear zero t e = omega arith
counter-hear (suc n) t e = omega (arith, counter-hear n t e)

redundancy-hear : (n : ℕ) (t : TrickleTimer) → (hear n t).redundancy ≡ t.redundancy
unfolding hear
redundancy-hear zero t = refl
redundancy-hear (suc n) t = redundancy-hear n t

has_callback-hear : (n : ℕ) (t : TrickleTimer) → (hear n t).has_callback ≡ t.has_callback
unfolding hear
has_callback-hear zero t = refl
has_callback-hear (suc n) t = has_callback-hear n t

-- An interval in which `n` consistent messages were heard transmits exactly if a callback is set
-- and k is 0 or the count is below k, the count being taken modulo 2^16.
pub transmit_event-hear :
    (draw : ℕ → ℕ → ℕ) (t : TrickleTimer) (n : ℕ)
    → ((transmit_event (hear n (new_interval draw t))).1 ≡ true)
      ↔ ((t.has_callback ≡ true) × ((t.redundancy ≡ 0) ⊎ (n % 65536 < t.redundancy)))
unfolding transmit_event new_interval
transmit_event-hear draw t n = ground (
  arith,
  counter-hear n (new_interval draw t),
  redundancy-hear n (new_interval draw t),
  has_callback-hear n (new_interval draw t),
)
