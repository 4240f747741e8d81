-- ===== src/Dag/Running/Ending.antt =====
-- What a worker of internal/dag/visit.go does after its call keeps the trace in order.
use comeback.Prelude.{
  ◌+◌, ◌≡◌, refl, Option, none, some, List, ◌∷◌, ◌++◌, arith, same, count-middle,
}
use comeback.Dag.State.{NodeInfo, unvisited}
use comeback.Dag.Invariant.{HasState}
use comeback.Dag.Invariant.Resolving.{finish_resolve-marks}
use comeback.Dag.Invariant.Visiting.{finish_visit-marks}
use comeback.Dag.System.{
  System, event, resolve_end, visit_end, resolve_returned, visit_returned, resolve_failed,
  visit_failed,
}
use comeback.Dag.Running.{Nodes, Traced, taken_resolves, taken_visits}
use comeback.Dag.Running.Finishing.{HasState-resolving, HasState-visiting}

module _ {N E : Type 0} where
  trace-resolve_failed : (e : E) (y : System N E) → (resolve_failed e y).trace ≡ y.trace
  unfolding resolve_failed
  trace-resolve_failed e y = ground arith

  trace-visit_failed : (e : E) (y : System N E) → (visit_failed e y).trace ≡ y.trace
  unfolding visit_failed
  trace-visit_failed e y = ground arith

module _ {N E : Type 0} (eq : Discrete N) (deps : N → List N) where
  module _ (y : System N E) (c : Nodes eq deps y) (t : Traced eq deps y) where
    open t use {resolve_starts, resolve_ends, visit_starts, visit_ends, ordered}

    module _ (n : N) (xs ys : List N) where
      pub Traced-resolve_returned :
          y.resolving ≡ xs ++ n ∷ ys
          → Traced eq deps (
              resolve_returned eq n
                (deps n)
                (record y { resolving = xs ++ ys; trace = event resolve_end n ∷ y.trace }))
      unfolding resolve_returned
      Traced-resolve_returned taken =
          let taken_n : taken_resolves eq y n
              ≡ same eq n n + taken_resolves eq (record y { resolving = xs ++ ys }) n =
            ground (arith, count-middle eq n n xs ys) in
          let h =
            HasState-resolving eq y.state n
              (taken_resolves eq (record y { resolving = xs ++ ys }) n) c taken_n in
          record {
            resolve_starts = λ a. ground (
              arith,
              resolve_starts a,
              count-middle eq a n xs ys,
              finish_resolve-marks eq deps n (deps n) y.state a h,
            );
            resolve_ends = λ a.
                ground (arith, resolve_ends a, finish_resolve-marks eq deps n (deps n) y.state a h);
            visit_starts = λ a.
                ground (arith, visit_starts a, finish_resolve-marks eq deps n (deps n) y.state a h);
            visit_ends = λ a.
                ground (arith, visit_ends a, finish_resolve-marks eq deps n (deps n) y.state a h);
            ordered = (
              ground (arith, resolve_starts n, c.node n),
              ground (arith, resolve_ends n, h),
              ordered,
            );
          }

      pub Traced-resolve_failed :
          y.resolving ≡ xs ++ n ∷ ys
          → (e : E)
          → Traced eq deps (
              resolve_failed e
                (record y { resolving = xs ++ ys; failed_resolves = n ∷ y.failed_resolves }))
      unfolding resolve_failed
      Traced-resolve_failed taken e = record {
        resolve_starts = λ a. ground (arith, resolve_starts a, count-middle eq a n xs ys);
        resolve_ends = λ a. ground (arith, resolve_ends a);
        visit_starts = λ a. ground (arith, visit_starts a);
        visit_ends = λ a. ground (arith, visit_ends a);
        ordered =
            rw
              (trace-resolve_failed e
                (record y { resolving = xs ++ ys; failed_resolves = n ∷ y.failed_resolves }))
              ordered;
      }

      pub Traced-visit_returned :
          y.visiting ≡ xs ++ n ∷ ys
          → Traced eq deps (
              visit_returned eq n
                (record y { visiting = xs ++ ys; trace = event visit_end n ∷ y.trace }))
      unfolding visit_returned
      Traced-visit_returned taken = go (y.state.nodes n) refl
        where
          taken_n :
              taken_visits eq y n
              ≡ same eq n n + taken_visits eq (record y { visiting = xs ++ ys }) n
          taken_n = ground (arith, count-middle eq n n xs ys)

          ready : HasState y.state n unvisited
          ready =
              HasState-visiting eq y.state n (taken_visits eq (record y { visiting = xs ++ ys }) n)
                c taken_n

          go :
              (o : Option (NodeInfo N))
              → y.state.nodes n ≡ o
              → Traced eq deps (
                  visit_returned eq n
                    (record y { visiting = xs ++ ys; trace = event visit_end n ∷ y.trace }))
          go none h = absurd (ground (arith, ready))
          go (some i) h =
              let m = λ (a : N).
                finish_visit-marks eq deps n y.state
                  (taken_visits eq (record y { visiting = xs ++ ys })) i h (ground (arith, ready))
                  (λ b. ground (arith, count-middle eq b n xs ys)) c a in
              record {
                resolve_starts = λ a. ground (arith, resolve_starts a, m a);
                resolve_ends = λ a. ground (arith, resolve_ends a, m a);
                visit_starts = λ a. ground (arith, visit_starts a, count-middle eq a n xs ys, m a);
                visit_ends = λ a. ground (arith, visit_ends a, m a);
                ordered = (
                  ground (arith, visit_starts n, ready, taken_n, c.node n),
                  ground (arith, visit_ends n, ready),
                  ordered,
                );
              }

      pub Traced-visit_failed :
          y.visiting ≡ xs ++ n ∷ ys
          → (e : E)
          → Traced eq deps (
              visit_failed e
                (record y { visiting = xs ++ ys; failed_visits = n ∷ y.failed_visits }))
      unfolding visit_failed
      Traced-visit_failed taken e = record {
        resolve_starts = λ a. ground (arith, resolve_starts a);
        resolve_ends = λ a. ground (arith, resolve_ends a);
        visit_starts = λ a. ground (arith, visit_starts a, count-middle eq a n xs ys);
        visit_ends = λ a. ground (arith, visit_ends a);
        ordered =
            rw
              (trace-visit_failed e
                (record y { visiting = xs ++ ys; failed_visits = n ∷ y.failed_visits }))
              ordered;
      }
