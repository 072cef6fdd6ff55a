-- ===== src/Routing/SendDao.antt =====
-- The DAO of a router and its repetition: SendDao, DaoTimerExpire, DaoRetry and
-- PurgeDownwardRoutesTimerExpire of model/rpl-routing-protocol.cc.
pub mod Retrying
use rpl.Base.{
  ℕ, ◌-◌, Bool, true, false, not, ◌&&◌, ◌||◌, Option, none, some, List, [], ◌∷◌, ◌++◌, leb, ◌==◌,
  if◌then◌else◌,
}
use rpl.Base.Map.{Map}
use rpl.Ipv6.{Ipv6, is_any}
use rpl.Sequence.{sequence_increment}
use rpl.Routing.{
  DownwardRoute, DodagMembership, Dodags, find_dodag, update_dodag, mop_p2p_route_discovery,
}
use rpl.Routing.Addresses.{get_global_address_in}
use rpl.Routing.SourceRoute.{global_address_of}
use rpl.Routing.Downward.{DaoTargetEntry, is_storing, purge_downward_routes}
use rpl.Routing.HandleDao.{Message, Node, send_dao_message}
use rpl.Routing.NoPath.{Sent}

-- The attributes: the Path Lifetime, how often a DAO is repeated, how long its acknowledgement is
-- waited for, and how long the next DAO.
pub record DaoTiming : Type 0 where
  pub path_lifetime : ℕ
  pub dao_retries : ℕ
  pub dao_ack_timeout : ℕ
  pub dao_interval : ℕ

-- What a Storing router tells of its sub-DODAG.
unfoldable pub downstream : Map DownwardRoute → List DaoTargetEntry
downstream [] = []
downstream ((target, route) ∷ routes) =
    record {
      target = target;
      target_prefix_length = 128;
      path_sequence = route.path_sequence;
      path_lifetime = route.path_lifetime;
    }
    ∷ downstream routes

module _ (net : Ipv6) (timing : DaoTiming) (node : Node) where
  abbrev own_entry : DodagMembership → DaoTargetEntry
  own_entry dodag = record {
    target = get_global_address_in net node.interfaces dodag;
    target_prefix_length = 128;
    path_sequence = dodag.path_sequence;
    path_lifetime = timing.path_lifetime;
  }

  -- The DAO itself, in the number that the membership holds.
  unfoldable pub transmit_dao : DodagMembership → List Message
  transmit_dao dodag = send_dao_message net node dodag (own_entry dodag) dodag.dao_sequence true (
      if is_storing dodag
      then downstream (purge_downward_routes node.now dodag.downward_routes)
      else [])

  -- No DAO from a root, without a parent, for a route discovery, or without the addresses it names.
  unfoldable pub has_no_dao : DodagMembership → Bool
  has_no_dao dodag =
      (dodag.is_root || is_any dodag.preferred_parent)
      || (dodag.mop == mop_p2p_route_discovery
          || (is_any (get_global_address_in net node.interfaces dodag)
              || (not (is_storing dodag)
                  && is_any (global_address_of net dodag.dodag_id dodag.preferred_parent))))

  unfoldable pub purge_if_storing : DodagMembership → DodagMembership
  purge_if_storing dodag =
      if is_storing dodag
      then record dodag { downward_routes = purge_downward_routes node.now dodag.downward_routes }
      else dodag

  unfoldable pub send_dao : DodagMembership → Sent
  send_dao dodag =
      let purged = purge_if_storing dodag in
      let numbered : DodagMembership = record purged {
        dao_sequence = sequence_increment purged.dao_sequence;
      } in
      if has_no_dao dodag then (dodag, []) else (
        record numbered {
          dao_ack_pending = true;
          dao_retries_left = timing.dao_retries;
          dao_retry_event = some timing.dao_ack_timeout;
        },
        transmit_dao numbered,
      )

  unfoldable pub expire_dao : DodagMembership → Sent
  expire_dao dodag =
      let (after, messages) = send_dao dodag in
      (record after { dao_refresh_pending = false; dao_event = some timing.dao_interval }, messages)

  -- A root in Storing mode has the same timer for its routes.
  unfoldable pub expire_routes : DodagMembership → Sent
  expire_routes dodag = (
    record dodag {
      downward_routes = purge_downward_routes node.now dodag.downward_routes;
      dao_event = some timing.dao_interval;
    },
    [],
  )

  -- No DAO-ACK came in time. The timer has fired, and so is no longer pending.
  unfoldable pub retry : DodagMembership → Sent
  retry dodag =
      let fired : DodagMembership = record dodag { dao_retry_event = none } in
      if not dodag.dao_ack_pending
      then (fired, [])
      else if dodag.dao_retries_left == 0
      then (record fired { dao_ack_pending = false }, [])
      else (
        record fired {
          dao_retries_left = dodag.dao_retries_left - 1;
          dao_retry_event = some timing.dao_ack_timeout;
        },
        transmit_dao dodag,
      )

abbrev at_found : (DodagMembership → Sent) → Option DodagMembership → Dodags → Dodags × List Message
at_found f none dodags = (dodags, [])
at_found f (some dodag) dodags =
    let (after, messages) = f dodag in (update_dodag after dodags, messages)

-- The three timers, by the key that they are bound to.
module _ (net : Ipv6) (timing : DaoTiming) (node : Node) (instance_id dodag_id : ℕ) where
  unfoldable pub dao_timer_expire : Dodags → Dodags × List Message
  dao_timer_expire dodags =
      at_found (expire_dao net timing node) (find_dodag instance_id dodag_id dodags) dodags

  unfoldable pub purge_downward_routes_timer_expire : Dodags → Dodags × List Message
  purge_downward_routes_timer_expire dodags =
      at_found (expire_routes net timing node) (find_dodag instance_id dodag_id dodags) dodags

  unfoldable pub dao_retry : Dodags → Dodags × List Message
  dao_retry dodags =
      at_found (retry net timing node) (find_dodag instance_id dodag_id dodags) dodags
