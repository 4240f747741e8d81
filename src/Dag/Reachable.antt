-- ===== src/Dag/Reachable.antt =====
-- Every state that the workers of internal/dag/visit.go reach keeps the invariant.
use mathlib.Core.Path.{fun_ext, subst}
use comeback.Prelude.{ℕ, refl, sym, List, [], arith}
use comeback.Dag.State.{VisitState, add_nodes}
use comeback.Dag.State.Frame.{SameRun-add_nodes}
use comeback.Dag.Invariant.{Core}
use comeback.Dag.Invariant.Adding.{Core-add_nodes}
use comeback.Dag.Invariant.Resolving.{depends-add_nodes, add_nodes-Marks}
use comeback.Dag.System.{
  System, WorkerError, resolver_loop, visitor_loop, empty_state, Step, Reach, here, next, start,
  resolver_runs, resolve_returns, resolve_fails, visitor_runs, visit_returns, visit_fails,
}
use comeback.Dag.Running.{Inv, Nodes, Workplace, Traced}
use comeback.Dag.Running.Looping.{
  Workplace-resolver_loop, Workplace-visitor_loop, Nodes-resolver_loop, Nodes-visitor_loop,
}
use comeback.Dag.Running.Tracing.{Traced-resolver_loop, Traced-visitor_loop}
use comeback.Dag.Running.Returning.{
  Workplace-resolve_returned, Workplace-resolve_failed, Workplace-visit_returned,
  Workplace-visit_failed,
}
use comeback.Dag.Running.Finishing.{
  Nodes-resolve_returned, Nodes-resolve_failed, Nodes-visit_returned, Nodes-visit_failed,
}
use comeback.Dag.Running.Ending.{
  Traced-resolve_returned, Traced-resolve_failed, Traced-visit_returned, Traced-visit_failed,
}

module _ {N E : Type 0} (eq : Discrete N) (deps : N → List N) where
  Inv-resolver_loop : (y : System N E) → Inv eq deps y → Inv eq deps (resolver_loop y)
  Inv-resolver_loop y v = record {
    work = Workplace-resolver_loop y v.work;
    nodes = Nodes-resolver_loop eq deps y v.nodes;
    traced = Traced-resolver_loop eq deps y v.nodes v.traced;
  }

  Inv-visitor_loop : (y : System N E) → Inv eq deps y → Inv eq deps (visitor_loop y)
  Inv-visitor_loop y v = record {
    work = Workplace-visitor_loop y v.work;
    nodes = Nodes-visitor_loop eq deps y v.nodes;
    traced = Traced-visitor_loop eq deps y v.nodes v.traced;
  }

  -- Every step keeps the invariant.
  pub Step-Inv : {y z : System N E} → Step eq deps y z → Inv eq deps y → Inv eq deps z
  Step-Inv {y} (resolver_runs k h) v = Inv-resolver_loop _ (record {
    work = ground (arith, v.work);
    nodes = record { node = v.nodes.node; link = v.nodes.link };
    traced = same_trace v.traced;
  })
    where
      same_trace :
          Traced eq deps y
          → Traced eq deps (record y { resolvers = record (y.resolvers) { ready = k } })
      same_trace t = record {
        resolve_starts = t.resolve_starts;
        resolve_ends = t.resolve_ends;
        visit_starts = t.visit_starts;
        visit_ends = t.visit_ends;
        ordered = t.ordered;
      }
  Step-Inv {y} (resolve_returns n xs ys h) v = Inv-resolver_loop _ (record {
    work = Workplace-resolve_returned eq y v.work n xs ys h (deps n) _;
    nodes = Nodes-resolve_returned eq deps y v.nodes n xs ys h _;
    traced = Traced-resolve_returned eq deps y v.nodes v.traced n xs ys h;
  })
  Step-Inv {y} (resolve_fails e n xs ys h) v = record {
    work = Workplace-resolve_failed eq y v.work n xs ys h e;
    nodes = Nodes-resolve_failed eq deps y v.nodes n xs ys h e;
    traced = Traced-resolve_failed eq deps y v.nodes v.traced n xs ys h e;
  }
  Step-Inv {y} (visitor_runs k h) v = Inv-visitor_loop _ (record {
    work = ground (arith, v.work);
    nodes = record { node = v.nodes.node; link = v.nodes.link };
    traced = same_trace v.traced;
  })
    where
      same_trace :
          Traced eq deps y
          → Traced eq deps (record y { visitors = record (y.visitors) { ready = k } })
      same_trace t = record {
        resolve_starts = t.resolve_starts;
        resolve_ends = t.resolve_ends;
        visit_starts = t.visit_starts;
        visit_ends = t.visit_ends;
        ordered = t.ordered;
      }
  Step-Inv {y} (visit_returns n xs ys h) v = Inv-visitor_loop _ (record {
    work = Workplace-visit_returned eq y v.work n xs ys h _;
    nodes = Nodes-visit_returned eq deps y v.nodes n xs ys h _;
    traced = Traced-visit_returned eq deps y v.nodes v.traced n xs ys h;
  })
  Step-Inv {y} (visit_fails e n xs ys h) v = record {
    work = Workplace-visit_failed eq y v.work n xs ys h e;
    nodes = Nodes-visit_failed eq deps y v.nodes n xs ys h e;
    traced = Traced-visit_failed eq deps y v.nodes v.traced n xs ys h e;
  }

  module _ (ns : List N) (rp vp : ℕ) where
    abbrev first : VisitState N (WorkerError E)
    first = add_nodes eq ns empty_state

    Nodes-start : Nodes eq deps (start {E = E} eq ns rp vp)
    unfolding start
    Nodes-start =
        let c =
          Core-add_nodes eq {got = λ _. []} {r = λ _. 0} {v = λ _. 0} ns empty_state
            (record { node = λ a. omega arith; link = λ a b. refl }) in
        let c' =
          subst (λ got. Core eq got (λ _. 0) (λ _. 0) first)
            (fun_ext (λ a. sym (depends-add_nodes eq deps ns empty_state a))) c in
        record { node = λ a. c'.node a; link = c'.link }

    Traced-start : Traced eq deps (start {E = E} eq ns rp vp)
    unfolding start
    Traced-start =
        let m = add_nodes-Marks {E = WorkerError E} eq deps ns empty_state in
        record {
          resolve_starts = λ a. ground (arith, m a);
          resolve_ends = λ a. ground (arith, m a);
          visit_starts = λ a. ground (arith, m a);
          visit_ends = λ a. ground (arith, m a);
          ordered = tt;
        }

    Workplace-start : Workplace (start {E = E} eq ns rp vp)
    unfolding start
    Workplace-start =
        let f = SameRun-add_nodes {E = WorkerError E} eq ns empty_state in ground (arith, f)

    pub Reach-Inv : {y : System N E} → Reach eq deps (start eq ns rp vp) y → Inv eq deps y
    Reach-Inv here = record { work = Workplace-start; nodes = Nodes-start; traced = Traced-start }
    Reach-Inv (next r s) = Step-Inv s (Reach-Inv r)
