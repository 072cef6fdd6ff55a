-- ===== src/Routing/HandleDao/Acknowledgement.antt =====
-- A DAO-ACK answers every accepted DAO, and ends the sender's wait.
use rpl.Base.{
  ℕ, ◌≡◌, inl, inr, refl, ap, ◌∙◌, true, false, not, ◌&&◌, Option, none, some, List, [], ◌∷◌, ◌++◌,
  arith, Bool-cases, ◌==◌, if◌then◌else◌,
}
use rpl.Ipv6.{Ipv6, is_any}
use rpl.Header.Dao.{AdditionalTarget, DaoHeader}
use rpl.Header.DaoAck.{DaoAckHeader}
use rpl.Routing.{DodagMembership, find_dodag, mop_storing_no_multicast}
use rpl.Routing.Lookup.{update_dodag-others, update_dodag-own, find_dodag-has_key}
use rpl.Routing.Downward.{
  Arrival, Handling, is_storing, is_refused, handle_storing, handle_non_storing, handle_one_target,
  dedup,
}
use rpl.Routing.HandleDao.{
  Message, dao_ack, Node, resolve, handle_additional, handle_targets, relay, acknowledge,
  new_arrival, accept_dao, handle_dao, handle_dao_ack,
}

-- What a DAO never changes of a membership.
abbrev Identity : Type 0
Identity = ℕ × ℕ × ℕ

abbrev identity : DodagMembership → Identity
identity d = (d.instance_id, d.dodag_id, d.mop)

handle_one_target-identity :
    (a : Arrival) (target s l : ℕ) (h : Handling)
    → identity (handle_one_target a target s l h).dodag ≡ identity h.dodag
unfolding handle_one_target handle_storing handle_non_storing
handle_one_target-identity a target s l h = elim (Bool-cases (is_refused a h.dodag target)) [
  | inl e ↦ rw e refl
  | inr e ↦ elim (Bool-cases (is_storing h.dodag)) [
    | inl m ↦ rw (e, m) refl
    | inr m ↦ rw (e, m) refl
  ]
]

handle_additional-identity :
    (a : Arrival) (ts : List AdditionalTarget) (h : Handling)
    → identity (handle_additional a ts h).dodag ≡ identity h.dodag
unfolding handle_additional
handle_additional-identity a [] h = refl
handle_additional-identity a (t ∷ ts) h =
    handle_additional-identity a ts _
    ∙ handle_one_target-identity a t.target t.path_sequence t.path_lifetime h

handle_targets-identity :
    (a : Arrival) (header : DaoHeader) (dodag : DodagMembership)
    → identity (handle_targets a header dodag).dodag ≡ identity dodag
unfolding handle_targets
handle_targets-identity a header dodag =
    let start : Handling = record { dodag = dodag; to_propagate = [] } in
    elim (Bool-cases (is_any header.target)) [
      | inl e ↦ rw e (handle_additional-identity a header.additional_targets start)
      | inr e ↦ rw e (
          handle_additional-identity a header.additional_targets _
          ∙ handle_one_target-identity a header.target header.path_sequence header.path_lifetime
              start)
    ]

-- The DAO-ACK that a membership owes for a DAO.
abbrev pub ack_for : DodagMembership → DaoHeader → DaoAckHeader
ack_for d header = record {
  instance_id = d.instance_id;
  sequence = header.sequence;
  status = 0;
  dodag_id = d.dodag_id;
}

abbrev pub reply_interface : DodagMembership → ℕ → Option ℕ
reply_interface d interface = if is_storing d then some interface else none

acknowledge-identity :
    (net : Ipv6) (d e : DodagMembership) (header : DaoHeader) (from interface : ℕ)
    → identity d ≡ identity e
    → header.ack_requested ≡ true
    → acknowledge net d header from interface
      ≡ dao_ack (ack_for e header) from (reply_interface e interface) ∷ []
unfolding acknowledge
acknowledge-identity net d e header from interface same asked = rw asked (
    ap
      (λ (i : Identity).
        dao_ack
          (record { instance_id = i.0; sequence = header.sequence; status = 0; dodag_id = i.1 })
          from (if i.2 == mop_storing_no_multicast then some interface else none)
        ∷ [])
      same)

-- A DAO that asks for it is acknowledged whenever the node takes DAOs for the DODAG it names, and in
-- Storing mode comes from a link-local address: also when all its targets were refused or stale. The
-- DAO-ACK is the last message sent, carries the DAO's sequence and the DODAG's identity, and goes to
-- the sender, on the interface the DAO came in on in Storing mode.
pub handle_dao_acknowledges :
    (net : Ipv6) (node : Node) (header : DaoHeader) (dodag : DodagMembership) (from interface : ℕ)
    → resolve node.dodags header ≡ some dodag
    → (is_storing dodag && not (net.is_link_local from)) ≡ false
    → header.ack_requested ≡ true
    → (relayed : List Message) × ((handle_dao net node header from interface).1
        ≡ relayed ++ dao_ack (ack_for dodag header) from (reply_interface dodag interface) ∷ [])
unfolding handle_dao accept_dao
handle_dao_acknowledges net node header dodag from interface found local_sender asked =
    let handled = handle_targets (new_arrival net node dodag header from interface) header dodag in
    (
      relay net node handled.dodag (dedup handled.to_propagate),
      rw (found, handle_dao, local_sender, accept_dao)
          (ap (◌++◌ (relay net node handled.dodag (dedup handled.to_propagate))) (
            acknowledge-identity net handled.dodag dodag header from interface
              (handle_targets-identity (new_arrival net node dodag header from interface) header
                dodag)
              asked)),
    )

-- A DAO-ACK for a DODAG of the node, handled. If it carries the sequence of the DAO last sent and the
-- status of acceptance, the wait for it is over: nothing is pending and no retry is scheduled. If
-- not, that membership stands as it was. Every other membership stands as it was in both cases.
pub handle_dao_ack_settles :
    (node : Node) (ack : DaoAckHeader) (d : DodagMembership) (i k : ℕ)
    → find_dodag ack.instance_id ack.dodag_id node.dodags ≡ some d
    → find_dodag i k (handle_dao_ack node ack).dodags ≡ (
        if ack.instance_id == i && ack.dodag_id == k
        then some (
            if ack.sequence == d.dao_sequence && ack.status == 0
            then record d { dao_ack_pending = false; dao_retry_event = none }
            else d)
        else find_dodag i k node.dodags)
unfolding handle_dao_ack
handle_dao_ack_settles node ack d i k h =
    let (e1, e2) = find_dodag-has_key ack.instance_id ack.dodag_id node.dodags d h in
    let settled : DodagMembership = record d { dao_ack_pending = false; dao_retry_event = none } in
    ground (
      arith,
      h,
      e1,
      e2,
      update_dodag-own settled d node.dodags,
      update_dodag-others i k settled node.dodags,
    )
