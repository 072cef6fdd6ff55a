-- ===== src/Sequence/Order.antt =====
-- How the comparison of sequence counters behaves under swapping and over each region.
use rpl.Base.{ℕ, ◌+◌, ◌≤◌, ◌<◌, ◌≡◌, ◌≢◌, ◌↔◌, ◌⊎◌, true, false, arith}
use rpl.Sequence.{
  SequenceOrder, less, equal, greater, not_comparable, sequence_compare, sequence_newer,
}

-- The verdict on the two counters taken the other way round.
abbrev pub flip : SequenceOrder → SequenceOrder
flip less = greater
flip equal = equal
flip greater = less
flip not_comparable = not_comparable

-- Swapping two uint8 counters turns LESS and GREATER round and keeps the other two verdicts.
pub sequence_compare_swap :
    (a b : ℕ) → a < 256 → b < 256 → sequence_compare a b ≡ flip (sequence_compare b a)
unfolding sequence_compare
sequence_compare_swap a b ha hb = ground arith

-- Of two counters at most one is newer than the other, and neither is when they are the same.
pub sequence_newer_asym :
    (a b : ℕ)
    → a < 256
    → b < 256
    → sequence_newer a b ≡ true
    → (sequence_newer b a ≡ false) × (a ≢ b)
unfolding sequence_newer
sequence_newer_asym a b ha hb h = ground arith

-- Two counters of the circular region: `a` is newer exactly if it lies 1 to 16 steps ahead of `b`
-- on the circle of 128.
pub sequence_newer_circular :
    (a b : ℕ)
    → a < 128
    → b < 128
    → (sequence_newer a b ≡ true) ↔ (((b < a) × (a ≤ b + 16)) ⊎ ((a < b) × (a + 128 ≤ b + 16)))
unfolding sequence_newer
sequence_newer_circular a b ha hb = ground arith

-- A counter of the linear region `a` against one of the circular region `b`: they are always
-- ordered, and the circular one is the newer exactly if it is at most 16 steps past the wrap of
-- 255 to 0.
pub sequence_compare_regions :
    (a b : ℕ)
    → 128 ≤ a
    → a < 256
    → b < 128
    → ((sequence_compare a b ≡ less) ↔ (256 + b ≤ a + 16))
      × ((sequence_compare a b ≡ greater) ↔ (a + 16 < 256 + b))
unfolding sequence_compare
sequence_compare_regions a b lo hi hb = ground arith
