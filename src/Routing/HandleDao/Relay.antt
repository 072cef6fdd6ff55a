-- ===== src/Routing/HandleDao/Relay.antt =====
-- The targets that a Storing router relays towards the root.
use rpl.Base.{
  ℕ, ◌≡◌, ◌≢◌, refl, Option, none, some, List, [], ◌∷◌, All, arith, Option-cases, ◌==◌,
  if◌then◌else◌,
}
use rpl.Routing.Downward.{DaoTargetEntry, merge, dedup_onto, dedup}

abbrev pub first_report : ℕ → List DaoTargetEntry → Option DaoTargetEntry
first_report t [] = none
first_report t (e ∷ es) = if e.target == t then some e else first_report t es

abbrev pub last_report : ℕ → List DaoTargetEntry → Option DaoTargetEntry
last_report t [] = none
last_report t (e ∷ es) = elim (last_report t es) [
  | none ↦ if e.target == t then some e else none
  | some later ↦ some later
]

abbrev pub HasDistinctTargets : List DaoTargetEntry → Type 0
HasDistinctTargets [] = Unit {0}
HasDistinctTargets (e ∷ es) = All (λ f. f.target ≢ e.target) es × HasDistinctTargets es

first_report-merge :
    (t : ℕ) (d : List DaoTargetEntry) (e : DaoTargetEntry)
    → first_report t (merge d e) ≡ (if e.target == t then some e else first_report t d)
unfolding merge
first_report-merge t [] e = refl
first_report-merge t (f ∷ d) e = ground (arith, first_report-merge t d e)

abbrev or_else : Option DaoTargetEntry → Option DaoTargetEntry → Option DaoTargetEntry
or_else (some e) o = some e
or_else none o = o

first_report-dedup_onto :
    (t : ℕ) (d es : List DaoTargetEntry)
    → first_report t (dedup_onto d es) ≡ or_else (last_report t es) (first_report t d)
unfolding dedup_onto
first_report-dedup_onto t d [] = refl
first_report-dedup_onto t d (e ∷ es) = ground (
  arith,
  first_report-dedup_onto t (merge d e) es,
  first_report-merge t d e,
  Option-cases (last_report t es),
)

merge-differ :
    (x : ℕ) (d : List DaoTargetEntry) (e : DaoTargetEntry)
    → All (λ f. f.target ≢ x) d
    → e.target ≢ x
    → All (λ f. f.target ≢ x) (merge d e)
unfolding merge
merge-differ x [] e h ne = (ne, tt)
merge-differ x (f ∷ d) e h ne = ground (arith, merge-differ x d e h.1 ne)

same-differ :
    (x y : ℕ) (d : List DaoTargetEntry)
    → x ≡ y
    → All (λ f. f.target ≢ x) d
    → All (λ f. f.target ≢ y) d
same-differ x y [] e h = tt
same-differ x y (f ∷ d) e h = ground (arith, same-differ x y d e h.1)

merge-HasDistinctTargets :
    (d : List DaoTargetEntry) (e : DaoTargetEntry)
    → HasDistinctTargets d
    → HasDistinctTargets (merge d e)
unfolding merge
merge-HasDistinctTargets [] e h = (tt, tt)
merge-HasDistinctTargets (f ∷ d) e h = ground (
  arith,
  merge-HasDistinctTargets d e h.1,
  merge-differ f.target d e h.0,
  same-differ f.target e.target d,
)

dedup_onto-HasDistinctTargets :
    (d es : List DaoTargetEntry) → HasDistinctTargets d → HasDistinctTargets (dedup_onto d es)
unfolding dedup_onto
dedup_onto-HasDistinctTargets d [] h = h
dedup_onto-HasDistinctTargets d (e ∷ es) h =
    dedup_onto-HasDistinctTargets (merge d e) es (merge-HasDistinctTargets d e h)

-- After the duplicates are merged each target occurs once, with the last report of it.
pub dedup_keeps_last :
    (es : List DaoTargetEntry)
    → HasDistinctTargets (dedup es) × ((t : ℕ) → first_report t (dedup es) ≡ last_report t es)
unfolding dedup
dedup_keeps_last es = (
  dedup_onto-HasDistinctTargets [] es tt,
  λ t. ground (arith, first_report-dedup_onto t [] es, Option-cases (last_report t es)),
)
