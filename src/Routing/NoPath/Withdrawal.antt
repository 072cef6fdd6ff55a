-- ===== src/Routing/NoPath/Withdrawal.antt =====
-- A withdrawal against the route that the receiver holds.
use rpl.Base.{ℕ, ◌<◌, ◌≡◌, true, none, some, arith}
use rpl.Base.Map.{Map, find}
use rpl.Base.Map.Laws.{find-erase}
use rpl.Sequence.{greater, sequence_compare, sequence_increment}
use rpl.Routing.{DownwardRoute, DodagMembership}
use rpl.Routing.Downward.{Arrival, store_downward}
use rpl.Routing.NoPath.{advance_sequences, no_path_header}

increment_newer : (s : ℕ) → s < 256 → sequence_compare (sequence_increment s) s ≡ greater
unfolding sequence_compare sequence_increment
increment_newer s h = ground arith

-- The withdrawal of a node carries a newer Path Sequence than the node last sent. So a receiver that
-- holds the route to the node under the last one takes the withdrawal as newer, not as a repetition:
-- the route is removed, and the removal is worth relaying.
pub no_path_header-removes :
    (a : Arrival) (dodag : DodagMembership) (target parent : ℕ) (m : Map DownwardRoute)
    (held : DownwardRoute)
    → find target m ≡ some held
    → held.path_sequence ≡ dodag.path_sequence
    → dodag.path_sequence < 256
    → let header = no_path_header (advance_sequences dodag) target parent in
      let (after, changed) =
        store_downward a header.target header.path_sequence header.path_lifetime m in
      (sequence_compare header.path_sequence held.path_sequence ≡ greater)
      × (find target after ≡ none)
      × (changed ≡ true)
unfolding no_path_header advance_sequences store_downward
no_path_header-removes a dodag target parent m held h same lt =
    let newer = increment_newer dodag.path_sequence lt in
    (
      rw same newer,
      ground (arith, h, same, newer, find-erase target target m),
      ground (arith, h, same, newer, find-erase target target m),
    )
