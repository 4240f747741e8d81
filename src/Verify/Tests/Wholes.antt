-- ===== src/Verify/Tests/Wholes.antt =====
-- A verification of a directory with one file, from the start to the end.
use comeback.Prelude.{
  ℕ, ◌<◌, ◌≡◌, refl, true, none, some, List, [], ◌∷◌, ◌⊎◌, inl, inr, arith, if◌then◌else◌,
}
use mathlib.Core.Path.{subst}
use comeback.Dag.State.{
  add_node, add_nodes, reinsert, link_dep, link_deps, settle, finish_resolve, satisfy_one, satisfy,
  finish_visit, resolvers_should_exit, resolvers_should_wake, visitors_should_exit,
  visitors_should_wake,
}
use comeback.Dag.System.{
  start_resolve, resolver_loop, start_visit, visitor_loop, resolve_failed, visit_failed,
  resolve_returned, visit_returned, start, IsFinished, result, Event, event, resolve_start,
  resolve_end, visit_start, visit_end,
}
use comeback.Dag.Trace.{tally}
use comeback.Dag.Outcome.{Wanted}
use comeback.Dag.Tests.Schedule.{Run, run, resolver, resolved_one, visitor, visited_one}
use comeback.Repr.Convert.{convert_entry_proto, convert_time_proto, unix}
use comeback.Repr.Marshal.{unmarshal_dir}
use comeback.Verify.Record.{Node}
use comeback.Verify.Resolver.{find_dependencies, visit}
use comeback.Verify.Whole.{
  same_node, Node_discrete, root_nodes, HasResolved, HasVisited, IsVerified, verify_complete,
}
use comeback.Verify.Tests.{score, dir_node, file_node, file_codec, load}

abbrev deps : Node → List Node
deps n = if n.dir then file_node ∷ [] else []

-- One worker of each kind; the visitor sleeps first.
unfoldable whole_run : Run {E = ℕ} Node_discrete 7 deps (root_nodes (score ∷ [])) 1 1
unfolding run
whole_run =
    run Node_discrete 7 deps (root_nodes (score ∷ [])) 1 1
      (visitor ∷ resolver ∷ resolved_one ∷ resolved_one ∷ visitor ∷ visited_one ∷ visited_one ∷ [])

finished : IsFinished whole_run.last
unfolding whole_run start add_nodes add_node reinsert link_dep link_deps settle finish_resolve
    satisfy_one satisfy finish_visit resolvers_should_exit resolvers_should_wake
    visitors_should_exit visitors_should_wake start_resolve resolver_loop start_visit visitor_loop
    resolve_failed visit_failed resolve_returned visit_returned Node_discrete same_node
finished = (refl, refl, refl, refl, refl, refl)

succeeded : result whole_run.last.state ≡ none
unfolding whole_run result start add_nodes add_node reinsert link_dep link_deps settle
    finish_resolve satisfy_one satisfy finish_visit resolvers_should_exit resolvers_should_wake
    visitors_should_exit visitors_should_wake start_resolve resolver_loop start_visit visitor_loop
    resolve_failed visit_failed resolve_returned visit_returned Node_discrete same_node
succeeded = refl

abbrev calls : List (Event Node)
calls =
    event visit_end dir_node
    ∷ event visit_start dir_node
    ∷ event visit_end file_node
    ∷ event visit_start file_node
    ∷ event resolve_end file_node
    ∷ event resolve_start file_node
    ∷ event resolve_end dir_node
    ∷ event resolve_start dir_node
    ∷ []

traced : whole_run.last.trace ≡ calls
unfolding whole_run result start add_nodes add_node reinsert link_dep link_deps settle
    finish_resolve satisfy_one satisfy finish_visit resolvers_should_exit resolvers_should_wake
    visitors_should_exit visitors_should_wake start_resolve resolver_loop start_visit visitor_loop
    resolve_failed visit_failed resolve_returned visit_returned Node_discrete same_node
traced = refl

resolved_calls :
    (a : Node) → 0 < tally Node_discrete resolve_end a calls → (a ≡ dir_node) ⊎ (a ≡ file_node)
resolved_calls a h = elim (Node_discrete a dir_node) [
  | yes p ↦ inl p
  | no n ↦ elim (Node_discrete a file_node) [ yes p ↦ inr p | no m ↦ absurd (ground arith) ]
]

visited_calls :
    (a : Node) → 0 < tally Node_discrete visit_end a calls → (a ≡ dir_node) ⊎ (a ≡ file_node)
visited_calls a h = elim (Node_discrete a dir_node) [
  | yes p ↦ inl p
  | no n ↦ elim (Node_discrete a file_node) [ yes p ↦ inr p | no m ↦ absurd (ground arith) ]
]

dir_resolved : HasResolved ℕ file_codec load (score ∷ []) [] dir_node (deps dir_node)
unfolding find_dependencies unmarshal_dir convert_entry_proto convert_time_proto unix
dir_resolved = record {
  now = 7;
  ctx_err = none;
  found = record {
    deps = file_node ∷ [];
    sent = some (record { time = 7; node = dir_node; children = file_node ∷ [] });
  };
  call = refl;
  deps_found = refl;
}

file_resolved : HasResolved ℕ file_codec load (score ∷ []) [] file_node (deps file_node)
unfolding find_dependencies
file_resolved = record {
  now = 8;
  ctx_err = none;
  found = record { deps = []; sent = none };
  call = refl;
  deps_found = refl;
}

dir_visited : HasVisited ℕ file_codec load (score ∷ []) [] dir_node
unfolding visit
dir_visited = record { now = 9; ctx_err = none; sent = none; call = refl }

file_visited : HasVisited ℕ file_codec load (score ∷ []) [] file_node
unfolding visit
file_visited = record {
  now = 9;
  ctx_err = none;
  sent = some (record { time = 9; node = file_node; children = [] });
  call = refl;
}

resolved :
    (a : Node)
    → 0 < tally Node_discrete resolve_end a whole_run.last.trace
    → HasResolved ℕ file_codec load (score ∷ []) [] a (deps a)
resolved a h =
    elim (resolved_calls a (subst (λ t. 0 < tally Node_discrete resolve_end a t) traced h)) [
      | inl p ↦ rw p dir_resolved
      | inr p ↦ rw p file_resolved
    ]

visited :
    (a : Node)
    → true ≡ true
    → 0 < tally Node_discrete visit_end a whole_run.last.trace
    → HasVisited ℕ file_codec load (score ∷ []) [] a
visited a q h =
    elim (visited_calls a (subst (λ t. 0 < tally Node_discrete visit_end a t) traced h)) [
      | inl p ↦ rw p dir_visited
      | inr p ↦ rw p file_visited
    ]

wanted : Wanted Node_discrete deps (root_nodes (score ∷ [])) file_node
unfolding Node_discrete same_node
wanted = Wanted.dependency (Wanted.root {a = dir_node} (omega arith)) (omega arith)

verify_complete_example :
    IsVerified ℕ file_codec load (score ∷ []) [] true (deps file_node) file_node
verify_complete_example =
    verify_complete ℕ file_codec load (score ∷ []) [] true (score ∷ []) deps 1 1 whole_run.last
      (omega arith) whole_run.reach finished succeeded resolved visited file_node wanted
