-- ===== src/Dag/Running/Tracing.antt =====
-- The steps of internal/dag/visit.go keep the trace in order.
use comeback.Prelude.{Bool-cases, inl, inr, ◌<◌, ◌≡◌, refl, Option, List, [], ◌∷◌, arith, count}
use comeback.Dag.State.{
  resolvers_should_wake, resolvers_should_exit, visitors_should_wake, visitors_should_exit,
  NodeInfo, unvisited,
}
use comeback.Dag.Invariant.{HasState, pending, unvisited_in}
use comeback.Dag.System.{
  System, Kind, event, resolve_start, visit_start, visit_end, resolver_loop, visitor_loop,
}
use comeback.Dag.Trace.{tally, IsOrdered}
use comeback.Dag.Running.{Nodes, Traced}

module _ {N : Type 0} (eq : Discrete N) where
  -- If nothing in a list is unvisited, each of its elements has been visited.
  pub pending-eq-zero :
      (f : N → Option (NodeInfo N)) (d : N) (ds : List N)
      → unvisited_in f ds ≡ 0
      → 0 < count eq d ds
      → pending (f d) ≡ 0
  pending-eq-zero f d [] h m = absurd (omega arith)
  pending-eq-zero f d (x ∷ ds) h m = ground (arith, pending-eq-zero f d ds)

-- A round of a loop starts a call of the last node of its queue, or leaves the trace alone.
data Started {N E : Type 0} (k : Kind) (queue : List N) (y z : System N E) : Type 0 where
  idle : z.trace ≡ y.trace → Started k queue y z
  started :
      (n : N) (rest : List N)
      → queue ≡ n ∷ rest
      → z.trace ≡ event k n ∷ y.trace
      → Started k queue y z

module _ {N E : Type 0} (y : System N E) where
  resolver_loop-Started : Started resolve_start y.state.to_resolve y (resolver_loop y)
  unfolding resolver_loop resolvers_should_wake
  resolver_loop-Started = go y.state.to_resolve refl
    where
      go :
          (q : List N)
          → y.state.to_resolve ≡ q
          → Started resolve_start y.state.to_resolve y (resolver_loop y)
      go [] h = idle (ground arith)
      go (n ∷ rest) h = elim (Bool-cases (resolvers_should_exit y.state)) [
        | inl e ↦ idle (ground arith)
        | inr e ↦ started n rest h (ground arith)
      ]

  visitor_loop-Started : Started visit_start y.state.to_visit y (visitor_loop y)
  unfolding visitor_loop visitors_should_wake
  visitor_loop-Started = go y.state.to_visit refl
    where
      go :
          (q : List N)
          → y.state.to_visit ≡ q
          → Started visit_start y.state.to_visit y (visitor_loop y)
      go [] h = idle (ground arith)
      go (n ∷ rest) h = elim (Bool-cases (visitors_should_exit y.state)) [
        | inl e ↦ idle (ground arith)
        | inr e ↦ started n rest h (ground arith)
      ]

module _ {N E : Type 0} (eq : Discrete N) (deps : N → List N) where
  module _ (y : System N E) (c : Nodes eq deps y) (t : Traced eq deps y) where
    open t use {resolve_starts, resolve_ends, visit_starts, visit_ends, ordered}

    IsOrdered-resolve :
        (z : System N E) → Started resolve_start y.state.to_resolve y z → IsOrdered eq deps z.trace
    IsOrdered-resolve z (idle h) = rw h ordered
    IsOrdered-resolve z (started n rest q h) =
        rw h (ground (arith, resolve_starts n, c.node n), ordered)

    pub Traced-resolver_loop : Traced eq deps (resolver_loop y)
    unfolding resolver_loop
    Traced-resolver_loop = record {
      resolve_starts = λ a. ground (arith, resolve_starts a);
      resolve_ends = λ a. ground (arith, resolve_ends a);
      visit_starts = λ a. ground (arith, visit_starts a);
      visit_ends = λ a. ground (arith, visit_ends a);
      ordered = IsOrdered-resolve (resolver_loop y) (resolver_loop-Started y);
    }

    dependency_visited :
        (n : N)
        → HasState y.state n unvisited
        → (d : N) → 0 < count eq d (deps n)
        → tally eq visit_end d y.trace ≡ 1
    dependency_visited n h d m =
        ground (arith, visit_ends d, c.node n, pending-eq-zero eq y.state.nodes d (deps n))

    IsOrdered-visit :
        (z : System N E) → Started visit_start y.state.to_visit y z → IsOrdered eq deps z.trace
    IsOrdered-visit z (idle h) = rw h ordered
    IsOrdered-visit z (started n rest q h) =
        let ready : HasState y.state n unvisited = ground (arith, c.node n) in
        rw h (
          ground (arith, visit_starts n, c.node n),
          ground (arith, resolve_ends n, ready),
          dependency_visited n ready,
          ordered,
        )

    pub Traced-visitor_loop : Traced eq deps (visitor_loop y)
    unfolding visitor_loop
    Traced-visitor_loop = record {
      resolve_starts = λ a. ground (arith, resolve_starts a);
      resolve_ends = λ a. ground (arith, resolve_ends a);
      visit_starts = λ a. ground (arith, visit_starts a);
      visit_ends = λ a. ground (arith, visit_ends a);
      ordered = IsOrdered-visit (visitor_loop y) (visitor_loop-Started y);
    }
