-- ===== src/Dag/Cycles.antt =====
-- internal/dag/visit.go does not succeed on a graph with a cycle.
use comeback.Prelude.{
  ltb, ℕ, ◌<◌, ◌≤◌, ◌≢◌, none, List, [], ◌∷◌, arith, count, length, same, if◌then◌else◌,
}
use comeback.Dag.System.{
  System, Event, event, Reach, start, IsFinished, result, resolve_start, resolve_end, visit_start,
  visit_end,
}
use comeback.Dag.Trace.{tally, same_kind, IsOrdered}
use comeback.Dag.Reachable.{Reach-Inv}
use comeback.Dag.Outcome.{Wanted, success_complete}

module _ {N : Type 0} (eq : Discrete N) (deps : N → List N) where
  -- A path along dependencies, of at least one step.
  pub data DependsOn : N → N → Type 0 where
    direct : {a d : N} → 0 < count eq d (deps a) → DependsOn a d
    further : {a b d : N} → DependsOn a b → 0 < count eq d (deps b) → DependsOn a d

  visit_end-le :
      (a : N) (t : List (Event N))
      → IsOrdered eq deps t
      → tally eq visit_end a t ≤ tally eq visit_start a t
  visit_end-le a [] h = omega arith
  visit_end-le a (event resolve_start n ∷ t) h = ground (arith, visit_end-le a t)
  visit_end-le a (event resolve_end n ∷ t) h = ground (arith, visit_end-le a t)
  visit_end-le a (event visit_start n ∷ t) h = ground (arith, visit_end-le a t)
  visit_end-le a (event visit_end n ∷ t) h = ground (arith, visit_end-le a t)

  -- How many events there were when the visit of `a` started.
  started_at : N → List (Event N) → ℕ
  started_at a [] = 0
  started_at a (event k n ∷ t) =
      if same_kind visit_start k
      then (if ltb 0 (same eq a n) then length t else started_at a t)
      else started_at a t

  started_at-lt :
      (a : N) (t : List (Event N)) → 0 < tally eq visit_start a t → started_at a t < length t
  unfolding started_at
  started_at-lt a [] h = absurd (omega arith)
  started_at-lt a (event k n ∷ t) h = ground (arith, started_at-lt a t)

  -- A dependency of a node whose visit has started has been started too.
  dependency_started :
      (a d : N) (t : List (Event N))
      → 0 < count eq d (deps a)
      → IsOrdered eq deps t
      → 0 < tally eq visit_start a t
      → 0 < tally eq visit_start d t
  dependency_started a d [] m o h = absurd (omega arith)
  dependency_started a d (event resolve_start n ∷ t) m o h =
      ground (arith, dependency_started a d t)
  dependency_started a d (event resolve_end n ∷ t) m o h = ground (arith, dependency_started a d t)
  dependency_started a d (event visit_start n ∷ t) m o h =
      ground (arith, dependency_started a d t, o.2 d, visit_end-le d t)
  dependency_started a d (event visit_end n ∷ t) m o h = ground (arith, dependency_started a d t)

  started_before :
      (a d : N) (t : List (Event N))
      → 0 < count eq d (deps a)
      → IsOrdered eq deps t
      → 0 < tally eq visit_start a t
      → started_at d t < started_at a t
  unfolding started_at
  started_before a d [] m o h = absurd (omega arith)
  started_before a d (event resolve_start n ∷ t) m o h = ground (arith, started_before a d t)
  started_before a d (event resolve_end n ∷ t) m o h = ground (arith, started_before a d t)
  started_before a d (event visit_start n ∷ t) m o h = ground (
    arith,
    started_before a d t,
    dependency_started a d t,
    o.2 d,
    visit_end-le d t,
    started_at-lt d t,
  )
  started_before a d (event visit_end n ∷ t) m o h = ground (arith, started_before a d t)

  depends_before :
      {a d : N} (t : List (Event N))
      → DependsOn a d
      → IsOrdered eq deps t
      → 0 < tally eq visit_start a t
      → (0 < tally eq visit_start d t) × (started_at d t < started_at a t)
  depends_before {a} {d} t (direct m) o h =
      (dependency_started a d t m o h, started_before a d t m o h)
  depends_before {a} {d} t (further {b = b} p m) o h =
      let (s, lt) = depends_before t p o h in
      (dependency_started b d t m o s, omega (arith, started_before b d t m o s))

module _ {N E : Type 0} (eq : Discrete N) (deps : N → List N) (ns : List N) (rp vp : ℕ) where
  -- If a start node or a transitive dependency of one depends on itself, directly or through
  -- others, `Visit` returns an error, if there is a visitor.
  pub cyclic_fails :
      (y : System N E)
      → 0 < vp
      → Reach eq deps (start eq ns rp vp) y
      → IsFinished y
      → (a : N) → Wanted eq deps ns a
      → DependsOn eq deps a a
      → result y.state ≢ none
  cyclic_fails y pos r f a w p h =
      let done = success_complete eq deps ns rp vp y pos r f h a w in
      let o = (Reach-Inv eq deps ns rp vp r).traced.ordered in
      let b = depends_before eq deps y.trace p o (omega (arith, done.visit_started)) in
      absurd (omega (arith, b.1))

  -- In every reachable state each call has been made at most once for a node, the visitor's only after
  -- the resolver's has succeeded, and no visit has started before the visits of all dependencies of the
  -- node had succeeded.
  pub Reach-IsOrdered :
      (y : System N E) → Reach eq deps (start eq ns rp vp) y → IsOrdered eq deps y.trace
  Reach-IsOrdered y r = (Reach-Inv eq deps ns rp vp r).traced.ordered
