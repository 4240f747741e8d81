-- ===== src/Dag/Tests.antt =====
-- Runs of the workers of internal/dag/visit.go on small graphs.
pub mod Schedule
use comeback.Prelude.{
  ℕ, ℕ_discrete, zero, suc, ◌≡◌, refl, ◌≢◌, ◌⊎◌, none, count, ◌<◌, List, [], ◌∷◌, arith,
}
use comeback.Dag.State.{
  add_node, add_nodes, reinsert, link_dep, link_deps, settle, finish_resolve, satisfy_one, satisfy,
  finish_visit, resolvers_should_exit, resolvers_should_wake, visitors_should_exit,
  visitors_should_wake,
}
use comeback.Dag.System.{
  start_resolve, resolver_loop, start_visit, visitor_loop, resolve_failed, visit_failed,
  resolve_returned, visit_returned, start, IsFinished, result, Step, System,
}
use comeback.Dag.Trace.{IsOrdered}
use comeback.Dag.Checks.{Checked, Reach-Checked}
use comeback.Dag.Progress.{no_deadlock, total_resolvers, total_visitors, total-Reach}
use comeback.Dag.Outcome.{Wanted, IsDone, success_complete, acyclic_succeeds}
use comeback.Dag.Cycles.{DependsOn, cyclic_fails, Reach-IsOrdered}
use comeback.Dag.Tests.Schedule.{
  Run, run, Turn, resolver, resolved_one, unresolved_one, visitor, visited_one, unvisited_one,
}

-- Node 1 depends on node 0.
abbrev chain : ℕ → List ℕ
chain zero = []
chain (suc n) = n ∷ []

-- One worker of each kind; the visitor sleeps first.
unfoldable whole_run : Run {E = ℕ} ℕ_discrete 7 chain (1 ∷ []) 1 1
unfolding run
whole_run =
    run ℕ_discrete 7 chain (1 ∷ []) 1 1
      (visitor ∷ resolver ∷ resolved_one ∷ resolved_one ∷ visitor ∷ visited_one ∷ visited_one ∷ [])

-- The same up to the resolution of node 1.
unfoldable half_run : Run {E = ℕ} ℕ_discrete 7 chain (1 ∷ []) 1 1
unfolding run
half_run = run ℕ_discrete 7 chain (1 ∷ []) 1 1 (visitor ∷ resolver ∷ resolved_one ∷ [])

finished : IsFinished whole_run.last
unfolding whole_run start add_nodes add_node reinsert link_dep link_deps settle finish_resolve
    satisfy_one satisfy finish_visit resolvers_should_exit resolvers_should_wake
    visitors_should_exit visitors_should_wake start_resolve resolver_loop start_visit visitor_loop
    resolve_failed visit_failed resolve_returned visit_returned ℕ_discrete
finished = (refl, refl, refl, refl, refl, refl)

Reach-IsOrdered_example : IsOrdered ℕ_discrete chain whole_run.last.trace
Reach-IsOrdered_example =
    Reach-IsOrdered ℕ_discrete chain (1 ∷ []) 1 1 whole_run.last whole_run.reach

Reach-Checked_example : Checked ℕ_discrete whole_run.last.state
Reach-Checked_example = Reach-Checked ℕ_discrete chain (1 ∷ []) 1 1 whole_run.last whole_run.reach

succeeded : result whole_run.last.state ≡ none
unfolding whole_run result start add_nodes add_node reinsert link_dep link_deps settle
    finish_resolve satisfy_one satisfy finish_visit resolvers_should_exit resolvers_should_wake
    visitors_should_exit visitors_should_wake start_resolve resolver_loop start_visit visitor_loop
    resolve_failed visit_failed resolve_returned visit_returned ℕ_discrete
succeeded = refl

no_error : whole_run.last.state.first_err ≡ none
unfolding whole_run start add_nodes add_node reinsert link_dep link_deps settle finish_resolve
    satisfy_one satisfy finish_visit resolvers_should_exit resolvers_should_wake
    visitors_should_exit visitors_should_wake start_resolve resolver_loop start_visit visitor_loop
    resolve_failed visit_failed resolve_returned visit_returned ℕ_discrete
no_error = refl

wanted : Wanted ℕ_discrete chain (1 ∷ []) 0
unfolding ℕ_discrete
wanted = Wanted.dependency (Wanted.root {a = 1} (omega arith)) (omega arith)

success_complete_example : IsDone ℕ_discrete 0 whole_run.last.trace
success_complete_example =
    success_complete ℕ_discrete chain (1 ∷ []) 1 1 whole_run.last (omega arith) whole_run.reach
      finished succeeded 0 wanted

ranked : (a d : ℕ) → 0 < count ℕ_discrete d (chain a) → d < a
unfolding ℕ_discrete
ranked zero d h = absurd (omega arith)
ranked (suc a) d h = ground arith

acyclic_succeeds_example : result whole_run.last.state ≡ none
acyclic_succeeds_example =
    acyclic_succeeds ℕ_discrete chain (1 ∷ []) 1 1 (λ a. a) ranked whole_run.last (omega arith)
      whole_run.reach finished no_error

-- The same run while node 1 waits for node 0.
no_deadlock_example :
    IsFinished half_run.last ⊎ ((z : System ℕ ℕ) × Step ℕ_discrete chain half_run.last z)
no_deadlock_example =
    no_deadlock ℕ_discrete chain (1 ∷ []) 1 1 half_run.last (omega arith) half_run.reach

-- Nodes 0 and 1 depend on each other.
abbrev ring : ℕ → List ℕ
ring zero = 1 ∷ []
ring (suc n) = n ∷ []

unfoldable stuck_run : Run {E = ℕ} ℕ_discrete 7 ring (0 ∷ []) 1 1
unfolding run
stuck_run =
    run ℕ_discrete 7 ring (0 ∷ []) 1 1
      (visitor ∷ resolver ∷ resolved_one ∷ resolved_one ∷ visitor ∷ [])

gave_up : IsFinished stuck_run.last
unfolding stuck_run start add_nodes add_node reinsert link_dep link_deps settle finish_resolve
    satisfy_one satisfy finish_visit resolvers_should_exit resolvers_should_wake
    visitors_should_exit visitors_should_wake start_resolve resolver_loop start_visit visitor_loop
    resolve_failed visit_failed resolve_returned visit_returned ℕ_discrete
gave_up = (refl, refl, refl, refl, refl, refl)

Wanted-ring : Wanted ℕ_discrete ring (0 ∷ []) 0
unfolding ℕ_discrete
Wanted-ring = Wanted.root (omega arith)

around : DependsOn ℕ_discrete ring 0 0
unfolding ℕ_discrete
around = DependsOn.further (DependsOn.direct {d = 1} (omega arith)) (omega arith)

cyclic_fails_example : result stuck_run.last.state ≢ none
cyclic_fails_example =
    cyclic_fails ℕ_discrete ring (0 ∷ []) 1 1 stuck_run.last (omega arith) stuck_run.reach gave_up 0
      Wanted-ring around

total-Reach_example : (total_resolvers half_run.last ≡ 1) × (total_visitors half_run.last ≡ 1)
total-Reach_example = total-Reach ℕ_discrete chain (1 ∷ []) 1 1 half_run.last half_run.reach
