-- ===== src/Sequence.antt =====
-- The lollipop sequence counters of model/rpl-conf.h (RFC 6550 section 7.2): values of 128 and up
-- are the linear region, those below it the circular one.
pub mod Order
pub mod Window
mod Runs
use rpl.Base.{ℕ, zero, suc, ◌+◌, ◌-◌, ◌%◌, Bool, true, false, ltb, leb, ◌==◌, if◌then◌else◌}

abbrev pub sequence_window : ℕ
sequence_window = 16

abbrev pub linear_region : ℕ
linear_region = 128

abbrev pub circular_size : ℕ
circular_size = 128

pub data SequenceOrder : Type 0 where
  less equal greater not_comparable : SequenceOrder

-- Rule 3.1, for one counter in each region.
compare_regions : Bool → ℕ → ℕ → SequenceOrder
compare_regions a_linear linear circular =
    if leb (256 + circular - linear) sequence_window
    then if a_linear then less else greater
    else if a_linear
    then greater
    else less

-- Rule 3.2 in the linear region.
compare_linear : ℕ → ℕ → SequenceOrder
compare_linear a b =
    let magnitude = if ltb b a then a - b else b - a in
    if ltb sequence_window magnitude then not_comparable else if ltb b a then greater else less

-- Rule 3.2 in the circular region: how far `b` has to advance to reach `a`.
compare_circular : ℕ → ℕ → SequenceOrder
compare_circular a b =
    let forward = (a + 256 - b) % 256 % circular_size in
    if leb forward sequence_window
    then greater
    else if leb (circular_size - forward) sequence_window
    then less
    else not_comparable

unfoldable pub sequence_compare : ℕ → ℕ → SequenceOrder
unfolding compare_regions compare_linear compare_circular
sequence_compare a b =
    if a == b
    then equal
    else if leb linear_region a
    then if leb linear_region b then compare_linear a b else compare_regions true a b
    else if leb linear_region b
    then compare_regions false b a
    else compare_circular a b

abbrev pub is_greater : SequenceOrder → Bool
is_greater greater = true
is_greater _ = false

unfoldable pub sequence_newer : ℕ → ℕ → Bool
unfolding sequence_compare
sequence_newer candidate held = is_greater (sequence_compare candidate held)

unfoldable pub sequence_increment : ℕ → ℕ
sequence_increment value = if value == linear_region - 1 then 0 else (value + 1) % 256

-- A counter after `k` increments.
unfoldable pub sequence_advance : ℕ → ℕ → ℕ
unfolding sequence_increment
sequence_advance zero value = value
sequence_advance (suc k) value = sequence_increment (sequence_advance k value)
