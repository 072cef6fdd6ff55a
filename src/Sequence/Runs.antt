-- ===== src/Sequence/Runs.antt =====
-- The sequence counters at concrete values.
use rpl.Base.{◌≡◌, refl, true, arith}
use rpl.Sequence.{greater, not_comparable, sequence_compare, sequence_newer, sequence_advance}
use rpl.Sequence.Window.{sequence_newer-advance}

wrap_is_newer : sequence_compare 0 255 ≡ greater
unfolding sequence_compare
wrap_is_newer = refl

far_apart : sequence_compare 200 150 ≡ not_comparable
unfolding sequence_compare
far_apart = refl

-- The order is not transitive: each of 0, 16 and 32 is newer than the one before, and 32 and 0
-- cannot be compared.
not_transitive :
    (sequence_compare 16 0 ≡ greater)
    × (sequence_compare 32 16 ≡ greater)
    × (sequence_compare 32 0 ≡ not_comparable)
unfolding sequence_compare
not_transitive = (refl, refl, refl)

sequence_newer-advance_example : sequence_newer (sequence_advance 16 250) 250 ≡ true
sequence_newer-advance_example = sequence_newer-advance 250 15 (omega arith) (omega arith)
