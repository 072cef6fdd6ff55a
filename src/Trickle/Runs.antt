-- ===== src/Trickle/Runs.antt =====
-- A Trickle timer at concrete values: Imin 4096 ms, 8 doublings, k = 3.
use rpl.Base.{ℕ, ◌%◌, ◌<◌, ◌≡◌, ◌⊎◌, ◌↔◌, refl, true, false}
use rpl.Trickle.{
  TrickleTimer, init, set_parameters, set_function, start, interval_event, new_interval,
  transmit_event,
}
use rpl.Trickle.Suppression.{hear, transmit_event-hear}

-- A random source that always picks the lower bound.
abbrev lowest : ℕ → ℕ → ℕ
lowest lo hi = lo

abbrev imin : ℕ
imin = 4_096_000_000

abbrev configured : TrickleTimer
configured = set_parameters init imin 8 3

abbrev grown : TrickleTimer
grown = interval_event lowest (start lowest configured)

suppressed : (transmit_event (hear 3 (new_interval lowest (set_function configured)))).1 ≡ false
unfolding transmit_event hear new_interval set_function set_parameters init
suppressed = refl

transmit_event-hear_example :
    ((transmit_event (hear 3 (new_interval lowest configured))).1 ≡ true) ↔ (
      (configured.has_callback ≡ true)
      × ((configured.redundancy ≡ 0) ⊎ (3 % 65536 < configured.redundancy)))
transmit_event-hear_example = transmit_event-hear lowest configured 3
