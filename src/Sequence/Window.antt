-- ===== src/Sequence/Window.antt =====
-- Incrementing a counter makes it newer, for as long as the gap stays inside the window.
use rpl.Base.{ℕ, suc, ◌<◌, ◌≡◌, refl, true, tabulated, tabulated_at, arith}
use rpl.Sequence.{sequence_newer, sequence_increment, sequence_advance}

-- An increment of a uint8 counter is a uint8, and it stays in the region it started in or falls
-- back to 0.
pub sequence_increment_bounds :
    (v : ℕ) → v < 256 → (sequence_increment v < 256) × (v < 128 → sequence_increment v < 128)
unfolding sequence_increment
sequence_increment_bounds v h = ground arith

window_table :
    tabulated (λ v. tabulated (λ k. sequence_newer (sequence_advance (suc k) v) v) 16) 256 ≡ true
unfolding tabulated sequence_newer sequence_advance
window_table = refl

-- A counter that was incremented 1 to 16 times is newer than it was, wherever it started and
-- whichever wrap it passed.
pub sequence_newer-advance :
    (v k : ℕ) → v < 256 → k < 16 → sequence_newer (sequence_advance (suc k) v) v ≡ true
sequence_newer-advance v k hv hk =
    tabulated_at (λ j. sequence_newer (sequence_advance (suc j) v) v) 16 k
      (tabulated_at (λ w. tabulated (λ j. sequence_newer (sequence_advance (suc j) w) w) 16) 256 v
        window_table hv)
      hk
