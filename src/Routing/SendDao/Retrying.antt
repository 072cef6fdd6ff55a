-- ===== src/Routing/SendDao/Retrying.antt =====
-- A DAO that is never acknowledged.
use rpl.Base.{
  ℕ, suc, ◌+◌, ◌-◌, ◌≤◌, ◌≡◌, ◌∙◌, refl, Bool, true, false, not, ◌||◌, none, some, List, [], ◌∷◌,
  ◌++◌, length, length-append, All, arith, ◌==◌, if◌then◌else◌,
}
use rpl.Ipv6.{Ipv6}
use rpl.Routing.{DodagMembership}
use rpl.Routing.Downward.{is_storing}
use rpl.Routing.HandleDao.{
  Message, dao, dao_ack, Node, interface_for_neighbour, send_dao_message, new_dao,
}
use rpl.Routing.NoPath.{Sent}
use rpl.Routing.SendDao.{DaoTiming, transmit_dao, retry}

-- A DAO of the sequence number given that asks for an acknowledgement.
abbrev pub Repeats : ℕ → Message → Type 0
Repeats n (dao header to interface) = (header.sequence ≡ n) × (header.ack_requested ≡ true)
Repeats n (dao_ack header to interface) = true ≡ false

-- A message list that is just one DAO of that kind.
abbrev pub IsOne : ℕ → List Message → Type 0
IsOne n sent = (length sent ≡ 1) × All (Repeats n) sent

-- Whether a node has an interface to send a DAO from, which is asked for in Storing mode only.
abbrev pub can_send : Ipv6 → DodagMembership → Node → Bool
can_send net d node =
    not (is_storing d)
    || not (interface_for_neighbour net node.sockets d.parents d.preferred_parent == 0)

either-IsOne :
    (n : ℕ) (first silent : Bool) (x y : Message)
    → (not first || not silent) ≡ true
    → Repeats n x
    → Repeats n y
    → IsOne n (if first then if silent then [] else x ∷ [] else y ∷ [])
either-IsOne n true true x y h p q = absurd (ground arith)
either-IsOne n true false x y h p q = (refl, (p, tt))
either-IsOne n false silent x y h p q = (refl, (q, tt))

module _ (net : Ipv6) (timing : DaoTiming) where
  -- The retry timer fires at each of the moments given, and no DAO-ACK comes.
  unfoldable pub unanswered : List Node → DodagMembership → Sent
  unanswered [] d = (d, [])
  unanswered (node ∷ nodes) d =
      let (after, messages) = retry net timing node d in
      let (last, others) = unanswered nodes after in (last, messages ++ others)

  transmit_dao-IsOne :
      (node : Node) (d : DodagMembership)
      → can_send net d node ≡ true
      → IsOne d.dao_sequence (transmit_dao net timing node d)
  unfolding transmit_dao send_dao_message new_dao
  transmit_dao-IsOne node d h =
      either-IsOne d.dao_sequence (is_storing d)
        (interface_for_neighbour net node.sockets d.parents d.preferred_parent == 0) _ _ h
        (refl, refl) (refl, refl)

  retry-last :
      (node : Node) (d : DodagMembership)
      → d.dao_ack_pending ≡ true
      → d.dao_retries_left == 0 ≡ true
      → retry net timing node d ≡ (record d { dao_retry_event = none; dao_ack_pending = false }, [])
  unfolding retry
  retry-last node d h e = rw (h, e) refl

  abbrev retried : DodagMembership → DodagMembership
  retried d = record d {
    dao_retries_left = d.dao_retries_left - 1;
    dao_retry_event = some timing.dao_ack_timeout;
  }

  retry-more :
      (node : Node) (d : DodagMembership)
      → d.dao_ack_pending ≡ true
      → d.dao_retries_left == 0 ≡ false
      → retry net timing node d ≡ (retried d, transmit_dao net timing node d)
  unfolding retry
  retry-more node d h e = rw (h, e) refl

  All-append :
      (n : ℕ) (xs ys : List Message)
      → All (Repeats n) xs
      → All (Repeats n) ys
      → All (Repeats n) (xs ++ ys)
  All-append n [] ys a b = b
  All-append n (x ∷ xs) ys (p, a) b = (p, All-append n xs ys a b)

  -- Still waiting after some firings: the timer runs, each firing has used up a retry and sent the DAO
  -- once more.
  abbrev pub Waits : ℕ → DodagMembership → Sent → Type 0
  Waits fired d s =
      (s.0.dao_ack_pending ≡ true)
      × (s.0.dao_retry_event ≡ some timing.dao_ack_timeout)
      × (s.0.dao_retries_left + fired ≡ d.dao_retries_left)
      × (s.0.dao_sequence ≡ d.dao_sequence)
      × (length s.1 ≡ fired)
      × All (Repeats d.dao_sequence) s.1

  -- Given up: every retry was used, and the DAO sent once more for each.
  abbrev pub GaveUp : DodagMembership → Sent → Type 0
  GaveUp d s =
      (s.0.dao_ack_pending ≡ false)
      × (s.0.dao_retry_event ≡ none)
      × (s.0.dao_sequence ≡ d.dao_sequence)
      × (length s.1 ≡ d.dao_retries_left)
      × All (Repeats d.dao_sequence) s.1

  unanswered-Waits :
      (nodes : List Node) (d : DodagMembership)
      → d.dao_ack_pending ≡ true
      → d.dao_retry_event ≡ some timing.dao_ack_timeout
      → All (λ node. can_send net d node ≡ true) nodes
      → length nodes ≤ d.dao_retries_left
      → Waits (length nodes) d (unanswered nodes d)
  unfolding unanswered
  unanswered-Waits [] d h t sends le = (h, t, omega arith, refl, refl, tt)
  unanswered-Waits (node ∷ nodes) d h t (send, sends) le =
      let e : d.dao_retries_left == 0 ≡ false = ground (arith, le) in
      let (pending, event, left, sequence, number, all) =
        unanswered-Waits nodes (retried d) h refl sends (omega (arith, le)) in
      let (one, repeats) = transmit_dao-IsOne node d send in
      rw (retry-more node d h e) (
        pending,
        event,
        omega (arith, le),
        sequence,
        length-append (transmit_dao net timing node d) _ ∙ omega (arith, one, number),
        All-append d.dao_sequence (transmit_dao net timing node d) _ repeats all,
      )

  unanswered_out :
      (nodes : List Node) (d : DodagMembership)
      → d.dao_ack_pending ≡ true
      → All (λ node. can_send net d node ≡ true) nodes
      → length nodes ≡ suc d.dao_retries_left
      → GaveUp d (unanswered nodes d)
  unfolding unanswered
  unanswered_out [] d h sends l = absurd (omega arith)
  unanswered_out (node ∷ []) d h sends l =
      let e : d.dao_retries_left == 0 ≡ true = ground (arith, l) in
      rw (retry-last node d h e) (refl, refl, refl, omega arith, tt)
  unanswered_out (node ∷ second ∷ nodes) d h (send, sends) l =
      let e : d.dao_retries_left == 0 ≡ false = ground (arith, l) in
      let (pending, event, sequence, number, all) =
        unanswered_out (second ∷ nodes) (retried d) h sends (omega arith) in
      let (one, repeats) = transmit_dao-IsOne node d send in
      rw (retry-more node d h e) (
        pending,
        event,
        sequence,
        length-append (transmit_dao net timing node d) _ ∙ omega (arith, one, number),
        All-append d.dao_sequence (transmit_dao net timing node d) _ repeats all,
      )

  -- A DAO that waits for its acknowledgement and never has it, at a node that has an interface to send
  -- it from: while the timer has not fired more often than there are retries left, the DAO still waits,
  -- the timer runs again, and each firing has used up one retry and sent one DAO. At the firing after
  -- that it is given up: nothing is pending, no timer runs, and as many DAOs were sent as there were
  -- retries left. All that were sent have the sequence number of the first one and ask for an
  -- acknowledgement.
  pub unanswered-GaveUp :
      (nodes : List Node) (d : DodagMembership)
      → d.dao_ack_pending ≡ true
      → d.dao_retry_event ≡ some timing.dao_ack_timeout
      → All (λ node. can_send net d node ≡ true) nodes
      → (length nodes ≤ d.dao_retries_left → Waits (length nodes) d (unanswered nodes d))
        × (length nodes ≡ suc d.dao_retries_left → GaveUp d (unanswered nodes d))
  unanswered-GaveUp nodes d h t sends =
      (unanswered-Waits nodes d h t sends, unanswered_out nodes d h sends)
