-- ===== src/Dag/Running.antt =====
-- The invariant of the workers and of what they share, for internal/dag/visit.go.
pub mod Looping
pub mod Ending
pub mod Tracing
pub mod Finishing
pub mod Returning
use comeback.Prelude.{ℕ, ◌+◌, ◌<◌, ◌≡◌, true, false, List, [], length, count, is_some}
use comeback.Prelude.Int.{pos}
use comeback.Dag.State.{
  VisitState, resolvers_should_exit, visitors_should_exit, resolvers_should_wake,
  visitors_should_wake,
}
use comeback.Dag.Invariant.{Core, depends, pending, resolved}
use comeback.Dag.Trace.{tally, IsOrdered}
use comeback.Dag.System.{System, WorkerError, resolve_start, resolve_end, visit_start, visit_end}

module _ {N E : Type 0} where
  -- The counters agree with the calls under way; who sleeps has nothing to do; who has returned had
  -- nothing left to do; and a call has failed only if there is a first error.
  pub record Workplace (y : System N E) : Type 0 where
    pub busy_resolvers : y.state.busy_resolvers ≡ pos (length y.resolving)
    pub busy_visitors : y.state.busy_visitors ≡ pos (length y.visiting)
    pub resolvers_sleep : 0 < y.resolvers.asleep → resolvers_should_wake y.state ≡ false
    pub visitors_sleep : 0 < y.visitors.asleep → visitors_should_wake y.state ≡ false
    pub resolvers_left : 0 < y.resolvers.returned → resolvers_should_exit y.state ≡ true
    pub visitors_left : 0 < y.visitors.returned → visitors_should_exit y.state ≡ true
    pub no_failures :
        is_some y.state.first_err ≡ false → (y.failed_resolves ≡ []) × (y.failed_visits ≡ [])

module _ {N E : Type 0} (eq : Discrete N) where
  abbrev pub taken_resolves : System N E → N → ℕ
  taken_resolves y a = count eq a y.resolving + count eq a y.failed_resolves

  abbrev pub taken_visits : System N E → N → ℕ
  taken_visits y a = count eq a y.visiting + count eq a y.failed_visits

  abbrev pub Nodes : (N → List N) → System N E → Type 0
  Nodes deps y = Core eq (depends deps y.state) (taken_resolves y) (taken_visits y) y.state

  -- The trace tells the states of the nodes, and is in order.
  pub record Traced (deps : N → List N) (y : System N E) : Type 0 where
    pub resolve_starts :
        (a : N) → tally eq resolve_start a y.trace ≡ taken_resolves y a + resolved (y.state.nodes a)
    pub resolve_ends : (a : N) → tally eq resolve_end a y.trace ≡ resolved (y.state.nodes a)
    pub visit_starts :
        (a : N) → tally eq visit_start a y.trace + pending (y.state.nodes a) ≡ taken_visits y a + 1
    pub visit_ends : (a : N) → tally eq visit_end a y.trace + pending (y.state.nodes a) ≡ 1
    pub ordered : IsOrdered eq deps y.trace

  pub record Inv (deps : N → List N) (y : System N E) : Type 0 where
    pub work : Workplace y
    pub nodes : Nodes deps y
    pub traced : Traced deps y
