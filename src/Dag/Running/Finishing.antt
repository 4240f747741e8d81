-- ===== src/Dag/Running/Finishing.antt =====
-- The updates after a call of internal/dag/visit.go keep the invariant of the nodes.
use comeback.Prelude.{
  ℕ, ◌+◌, ◌≡◌, refl, Option, none, some, List, ◌∷◌, ◌++◌, arith, same, count-middle,
}
use comeback.Dag.State.{NodeInfo, VisitState, dependencies_unresolved, unvisited}
use comeback.Dag.Invariant.{Core, HasState}
use comeback.Dag.Invariant.Resolving.{Core-finish_resolve}
use comeback.Dag.Invariant.Visiting.{Core-finish_visit}
use comeback.Dag.System.{
  System, Event, resolve_returned, visit_returned, resolve_failed, visit_failed,
}
use comeback.Dag.Running.{Nodes, taken_resolves, taken_visits}

module _ {N E : Type 0} (eq : Discrete N) where
  pub HasState-resolving :
      {got : N → List N} {r v : N → ℕ} (s : VisitState N E) (n : N) (k : ℕ)
      → Core eq got r v s
      → r n ≡ same eq n n + k
      → HasState s n dependencies_unresolved
  HasState-resolving s n k c h = ground (arith, c.node n)

  pub HasState-visiting :
      {got : N → List N} {r v : N → ℕ} (s : VisitState N E) (n : N) (k : ℕ)
      → Core eq got r v s
      → v n ≡ same eq n n + k
      → HasState s n unvisited
  HasState-visiting s n k c h = ground (arith, c.node n)

module _ {N E : Type 0} (eq : Discrete N) (deps : N → List N) (y : System N E) (c : Nodes eq deps y)
    (n : N) (xs ys : List N) where
  module _ (taken : y.resolving ≡ xs ++ n ∷ ys) (t : List (Event N)) where
    abbrev resolved : System N E
    resolved = record y { resolving = xs ++ ys; trace = t }

    resolve_out : (a : N) → taken_resolves eq y a ≡ same eq a n + taken_resolves eq resolved a
    resolve_out a = ground (arith, count-middle eq a n xs ys)

    pub Nodes-resolve_returned : Nodes eq deps (resolve_returned eq n (deps n) resolved)
    unfolding resolve_returned
    Nodes-resolve_returned =
        let c' =
          Core-finish_resolve eq deps n y.state (taken_resolves eq resolved)
            (HasState-resolving eq y.state n (taken_resolves eq resolved n) c (resolve_out n))
            resolve_out c in
        record { node = c'.node; link = c'.link }

  pub Nodes-resolve_failed :
      y.resolving ≡ xs ++ n ∷ ys
      → (e : E)
      → Nodes eq deps (
          resolve_failed e
            (record y { resolving = xs ++ ys; failed_resolves = n ∷ y.failed_resolves }))
  unfolding resolve_failed
  Nodes-resolve_failed taken e = record {
    node = λ a. ground (arith, c.node a, count-middle eq a n xs ys);
    link = λ a b. ground (arith, c.link a b);
  }

  module _ (taken : y.visiting ≡ xs ++ n ∷ ys) (t : List (Event N)) where
    abbrev visited : System N E
    visited = record y { visiting = xs ++ ys; trace = t }

    visit_out : (a : N) → taken_visits eq y a ≡ same eq a n + taken_visits eq visited a
    visit_out a = ground (arith, count-middle eq a n xs ys)

    visit_ready : HasState y.state n unvisited
    visit_ready = HasState-visiting eq y.state n (taken_visits eq visited n) c (visit_out n)

    pub Nodes-visit_returned : Nodes eq deps (visit_returned eq n visited)
    unfolding visit_returned
    Nodes-visit_returned = go (y.state.nodes n) refl
      where
        go :
            (o : Option (NodeInfo N))
            → y.state.nodes n ≡ o
            → Nodes eq deps (visit_returned eq n visited)
        go none h = ground (arith, visit_ready)
        go (some i) h =
            let c' =
              Core-finish_visit eq deps n y.state (taken_visits eq visited) i h
                (ground (arith, visit_ready)) visit_out c in
            record { node = c'.node; link = c'.link }

  pub Nodes-visit_failed :
      y.visiting ≡ xs ++ n ∷ ys
      → (e : E)
      → Nodes eq deps
          (visit_failed e (record y { visiting = xs ++ ys; failed_visits = n ∷ y.failed_visits }))
  unfolding visit_failed
  Nodes-visit_failed taken e = record {
    node = λ a. ground (arith, c.node a, count-middle eq a n xs ys);
    link = λ a b. ground (arith, c.link a b);
  }
