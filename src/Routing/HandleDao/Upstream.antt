-- ===== src/Routing/HandleDao/Upstream.antt =====
-- What a DAO leaves at a Storing router, against what its preferred parent holds after the DAO that the
-- router relays: both ends run the loop of HandleDao over the targets.
use rpl.Base.{ℕ}
use rpl.Base.Map.{Map}
use rpl.Ipv6.{Ipv6}
use rpl.Routing.{Parent, DodagMembership}

-- What the way to the parent is chosen by.
abbrev links : DodagMembership → ℕ × Map Parent × ℕ
links d = (d.mop, d.parents, d.preferred_parent)
