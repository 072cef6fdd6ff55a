-- ===== src/Routing/HandleDao/Reports.antt =====
-- What one report changes at a Storing router that runs HandleDao, and what it leaves alone.
use rpl.Base.{
  ℕ, ◌≡◌, inl, inr, refl, ◌∙◌, Bool, true, false, not, ◌||◌, Option, none, some, List, [], ◌∷◌,
  ◌++◌, arith, Option-cases, ◌==◌, if◌then◌else◌,
}
use rpl.Base.Map.{Map, find}
use rpl.Base.Map.Laws.{find-insert, find-erase}
use rpl.Ipv6.{is_any}
use rpl.Header.Dao.{AdditionalTarget, DaoHeader}
use rpl.Sequence.{SequenceOrder, greater, sequence_compare}
use rpl.Routing.{DownwardRoute, DodagMembership}
use rpl.Routing.Downward.{
  DaoTargetEntry, Arrival, Handling, is_stale, is_storing, new_route, store_downward,
  handle_storing, handle_non_storing, handle_one_target,
}
use rpl.Routing.Downward.Table.{store_downward_others, sequence_compare_equal}
use rpl.Routing.HandleDao.{Message, dao, dao_ack, handle_additional, handle_targets}
use rpl.Routing.HandleDao.Relay.{last_report}

abbrev pub sequence_of : Option DownwardRoute → Option ℕ
sequence_of none = none
sequence_of (some r) = some r.path_sequence

-- The Path Sequence held for a target, if a route is.
abbrev pub known : ℕ → Map DownwardRoute → Option ℕ
known t m = sequence_of (find t m)

-- The targets that a DAO reports.
abbrev pub reports : DaoHeader → List AdditionalTarget
reports header =
    if is_any header.target
    then header.additional_targets
    else record {
      target = header.target;
      target_prefix_length = header.target_prefix_len;
      path_sequence = header.path_sequence;
      path_lifetime = header.path_lifetime;
    }
      ∷ header.additional_targets

abbrev pub names : ℕ → List AdditionalTarget → Bool
names t [] = false
names t (r ∷ rs) = r.target == t || names t rs

-- Whether a target is reported at most once.
abbrev pub at_most_once : ℕ → List AdditionalTarget → Bool
at_most_once t [] = true
at_most_once t (r ∷ rs) = if r.target == t then not (names t rs) else at_most_once t rs

abbrev pub hear : Arrival → Message → DodagMembership → DodagMembership
hear a (dao header to interface) d = (handle_targets a header d).dodag
hear a (dao_ack header to interface) d = d

-- The membership of a node that takes messages in turn, of which only the DAOs report targets.
abbrev pub hear_all : Arrival → List Message → DodagMembership → DodagMembership
hear_all a [] d = d
hear_all a (m ∷ ms) d = hear_all a ms (hear a m d)

abbrev pub order_of : ℕ → Option ℕ → SequenceOrder
order_of s none = greater
order_of s (some held) = sequence_compare s held

-- The Path Sequence held after a report of one target, from the one held before.
abbrev pub settled : SequenceOrder → ℕ → ℕ → Option ℕ → Option ℕ
settled order s l held = if is_stale order then held else if l == 0 then none else some s

abbrev pub listens : Option DaoTargetEntry → Option ℕ → Option ℕ
listens none held = held
listens (some e) held = settled (order_of e.path_sequence held) e.path_sequence e.path_lifetime held

pub store_known :
    (a : Arrival) (t s l : ℕ) (m : Map DownwardRoute)
    → known t (store_downward a t s l m).0 ≡ settled (order_of s (known t m)) s l (known t m)
unfolding store_downward new_route
store_known a t s l m = elim (Option-cases (find t m)) [
  | inl e ↦ ground (arith, e, find-erase t t m, find-insert t t (new_route a s l) m)
  | inr (r, e) ↦ ground (arith, e, find-erase t t m, find-insert t t (new_route a s l) m)
]

-- What is not relayed changes no Path Sequence.
pub store_quiet :
    (a : Arrival) (t s l : ℕ) (m : Map DownwardRoute)
    → (store_downward a t s l m).1 ≡ false
    → known t (store_downward a t s l m).0 ≡ known t m
unfolding store_downward new_route
store_quiet a t s l m h = elim (Option-cases (find t m)) [
  | inl e ↦ ground (arith, e, h, find-erase t t m)
  | inr (r, e) ↦
      ground
        (arith, e, h, find-insert t t (new_route a s l) m, sequence_compare_equal s r.path_sequence)
]

pub last_report-snoc :
    (t : ℕ) (es : List DaoTargetEntry) (e : DaoTargetEntry)
    → last_report t (es ++ e ∷ []) ≡ (if e.target == t then some e else last_report t es)
last_report-snoc t [] e = refl
last_report-snoc t (f ∷ es) e =
    ground (arith, last_report-snoc t es e, Option-cases (last_report t es))

abbrev pub entry : ℕ → ℕ → ℕ → DaoTargetEntry
entry target s l = record {
  target = target;
  target_prefix_length = 128;
  path_sequence = s;
  path_lifetime = l;
}

pub last_own :
    (t s l : ℕ) (es : List DaoTargetEntry)
    → last_report t (es ++ entry t s l ∷ []) ≡ some (entry t s l)
last_own t s l es = ground (arith, last_report-snoc t es (entry t s l))

-- Nothing about a target has changed.
abbrev pub Keeps : ℕ → Handling → Handling → Type 0
Keeps t h g =
    (is_storing g.dodag ≡ is_storing h.dodag)
    × (g.dodag.is_root ≡ h.dodag.is_root)
    × (g.dodag.dodag_id ≡ h.dodag.dodag_id)
    × (find t g.dodag.downward_routes ≡ find t h.dodag.downward_routes)
    × (last_report t g.to_propagate ≡ last_report t h.to_propagate)

pub one-Keeps :
    (a : Arrival) (target s l t : ℕ) (h : Handling)
    → target == t ≡ false
    → Keeps t h (handle_one_target a target s l h)
unfolding handle_one_target handle_storing handle_non_storing
one-Keeps a target s l t h ne = ground (
  arith,
  ne,
  store_downward_others a target s l t h.dodag.downward_routes,
  last_report-snoc t h.to_propagate (entry target s l),
)

pub rest-Keeps :
    (a : Arrival) (rs : List AdditionalTarget) (t : ℕ) (h : Handling)
    → names t rs ≡ false
    → Keeps t h (handle_additional a rs h)
unfolding handle_additional
rest-Keeps a [] t h ne = (refl, refl, refl, refl, refl)
rest-Keeps a (r ∷ rs) t h ne =
    let one = one-Keeps a r.target r.path_sequence r.path_lifetime t h (ground (arith, ne)) in
    let rest = rest-Keeps a rs t _ (ground (arith, ne)) in
    (rest.0 ∙ one.0, rest.1 ∙ one.1, rest.2 ∙ one.2, rest.3 ∙ one.3, rest.4 ∙ one.4)
