-- ===== src/Dag/Trace.antt =====
-- The calls that `Visit` of internal/dag/visit.go makes, in order.
use comeback.Prelude.{
  ℕ, ◌+◌, ◌<◌, ◌≡◌, Bool, true, false, List, [], ◌∷◌, if◌then◌else◌, same, count,
}
use comeback.Dag.System.{Kind, Event, event, resolve_start, resolve_end, visit_start, visit_end}

abbrev pub same_kind : Kind → Kind → Bool
same_kind resolve_start resolve_start = true
same_kind resolve_end resolve_end = true
same_kind visit_start visit_start = true
same_kind visit_end visit_end = true
same_kind _ _ = false

module _ {N : Type 0} (eq : Discrete N) where
  -- How often something happened to a node.
  abbrev pub tally : Kind → N → List (Event N) → ℕ
  tally k a [] = 0
  tally k a (event k' n ∷ t) = (if same_kind k k' then same eq a n else 0) + tally k a t

  -- With the newest event first: each call is made once for a node, the resolver's before the
  -- visitor's, and a visit starts only after the visits of all dependencies have succeeded.
  abbrev pub IsOrdered : (N → List N) → List (Event N) → Type 0
  IsOrdered deps [] = Unit
  IsOrdered deps (event resolve_start n ∷ t) = (tally resolve_start n t ≡ 0) × IsOrdered deps t
  IsOrdered deps (event resolve_end n ∷ t) =
      (tally resolve_start n t ≡ 1) × (tally resolve_end n t ≡ 0) × IsOrdered deps t
  IsOrdered deps (event visit_start n ∷ t) =
      (tally visit_start n t ≡ 0)
      × (tally resolve_end n t ≡ 1)
      × ((d : N) → 0 < count eq d (deps n) → tally visit_end d t ≡ 1)
      × IsOrdered deps t
  IsOrdered deps (event visit_end n ∷ t) =
      (tally visit_start n t ≡ 1) × (tally visit_end n t ≡ 0) × IsOrdered deps t
