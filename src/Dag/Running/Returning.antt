-- ===== src/Dag/Running/Returning.antt =====
-- What a worker does after its call, in `resolveOne` and `visitOne`, keeps the invariant.
use comeback.Prelude.{◌≡◌, List, ◌∷◌, ◌++◌, arith, length-middle}
use comeback.Dag.State.{resolvers_should_wake, visitors_should_wake}
use comeback.Dag.State.Frame.{SameRun-finish_resolve, SameRun-finish_visit, to_resolve-finish_visit}
use comeback.Dag.System.{
  System, Event, resolve_returned, visit_returned, resolve_failed, visit_failed,
}
use comeback.Dag.Running.{Workplace}

module _ {N E : Type 0} (eq : Discrete N) (y : System N E) (w : Workplace y) (n : N)
    (xs ys : List N) where
  module _ (taken : y.resolving ≡ xs ++ n ∷ ys) where
    pub Workplace-resolve_returned :
        (ds : List N) (t : List (Event N))
        → Workplace (resolve_returned eq n ds (record y { resolving = xs ++ ys; trace = t }))
    unfolding resolve_returned resolvers_should_wake visitors_should_wake
    Workplace-resolve_returned ds t =
        let f = SameRun-finish_resolve eq n ds y.state in ground (arith, f, length-middle n xs ys)

    pub Workplace-resolve_failed :
        (e : E)
        → Workplace (
            resolve_failed e
              (record y { resolving = xs ++ ys; failed_resolves = n ∷ y.failed_resolves }))
    unfolding resolve_failed resolvers_should_wake visitors_should_wake
    Workplace-resolve_failed e = ground (arith, length-middle n xs ys)

  module _ (taken : y.visiting ≡ xs ++ n ∷ ys) where
    pub Workplace-visit_returned :
        (t : List (Event N))
        → Workplace (visit_returned eq n (record y { visiting = xs ++ ys; trace = t }))
    unfolding visit_returned resolvers_should_wake visitors_should_wake
    Workplace-visit_returned t =
        let f = SameRun-finish_visit eq n y.state in
        ground (arith, f, length-middle n xs ys, to_resolve-finish_visit eq n y.state)

    pub Workplace-visit_failed :
        (e : E)
        → Workplace
            (visit_failed e (record y { visiting = xs ++ ys; failed_visits = n ∷ y.failed_visits }))
    unfolding visit_failed resolvers_should_wake visitors_should_wake
    Workplace-visit_failed e = ground (arith, length-middle n xs ys)
