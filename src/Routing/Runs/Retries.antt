-- ===== src/Routing/Runs/Retries.antt =====
-- A DAO that is never acknowledged, at concrete values.
use rpl.Base.{ℕ, ◌≤◌, ◌≡◌, refl, false, some, List, [], ◌∷◌, length}
use rpl.Buffer.{same_bytes}
use rpl.Ipv6.Network.{network}
use rpl.Routing.{DodagMembership}
use rpl.Routing.HandleDao.{Node, interface_for_neighbour}
use rpl.Routing.SendDao.{DaoTiming}
use rpl.Routing.SendDao.Retrying.{Waits, GaveUp, unanswered, unanswered-GaveUp}
use rpl.Routing.Runs.{membership}

abbrev timing : DaoTiming
timing = record { path_lifetime = 30; dao_retries = 1; dao_ack_timeout = 5; dao_interval = 900 }

-- The DAO of sequence 241 waits, with one retry left.
abbrev waiting : DodagMembership
waiting = record (membership 2 false) { dao_retries_left = 1; dao_retry_event = some 5 }

abbrev at_moment : ℕ → Node
at_moment now = record {
  now = now;
  lifetime_unit = 60;
  dodags = [];
  interfaces = [];
  sockets = 1 ∷ [];
}

-- The timer fires at two moments.
abbrev moments : List Node
moments = at_moment 105 ∷ at_moment 110 ∷ []

unanswered-GaveUp_example :
    (length moments ≤ 1
      → Waits network timing 2 waiting (unanswered network timing moments waiting))
    × (length moments ≡ 2
        → GaveUp network timing waiting (unanswered network timing moments waiting))
unfolding interface_for_neighbour same_bytes network
unanswered-GaveUp_example =
    unanswered-GaveUp network timing moments waiting refl refl (refl, (refl, tt))
