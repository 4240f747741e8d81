-- ===== src/Dag/Checks.antt =====
-- `checkInvariants` of `nodeInfo` and of `visitState` in internal/dag/visit.go, as statements: that
-- the check does not panic.
use comeback.Prelude.{
  ℕ, ◌<◌, ◌≡◌, refl, All-of_count, Bool, true, false, Option, some, List, [], ◌∷◌, arith, All,
  count, is_empty,
}
use comeback.Prelude.Int.{ℤ, pos, negsuc, is_positive}
use comeback.Dag.State.{
  NodeState, NodeInfo, VisitState, dependencies_unresolved, dependencies_unsatisfied, unvisited,
  visited,
}
use comeback.Dag.Invariant.{Core, HasState, depends, dependants_of, unvisited_in, pending}
use comeback.Dag.System.{System, Reach, start}
use comeback.Dag.Reachable.{Reach-Inv}

abbrev pub is_nonneg : ℤ → Bool
is_nonneg (pos n) = true
is_nonneg (negsuc n) = false

abbrev pub is_unsatisfied : NodeState → Bool
is_unsatisfied dependencies_unsatisfied = true
is_unsatisfied _ = false

abbrev pub is_visited : NodeState → Bool
is_visited visited = true
is_visited _ = false

module _ {N E : Type 0} (eq : Discrete N) where
  -- `checkInvariants` of a `nodeInfo`.
  pub record NodeChecked (s : VisitState N E) (ni : NodeInfo N) : Type 0 where
    pub nonneg : is_nonneg ni.deps_unsatisfied ≡ true
    pub positive : is_positive ni.deps_unsatisfied ≡ is_unsatisfied ni.state
    pub blocks : is_empty ni.dependants ≡ false → is_visited ni.state ≡ false
    pub dependants : All (λ d. HasState s d dependencies_unsatisfied) ni.dependants

  -- `checkInvariants` of the `visitState`. That a node in a queue is a key of `nodes` is part of
  -- what its state is.
  pub record Checked (s : VisitState N E) : Type 0 where
    pub node : (a : N) (ni : NodeInfo N) → s.nodes a ≡ some ni → NodeChecked s ni
    pub to_resolve : All (λ n. HasState s n dependencies_unresolved) s.to_resolve
    pub unsatisfied : All (λ n. HasState s n dependencies_unsatisfied) s.unsatisfied
    pub all_unsatisfied :
        (n : N) → HasState s n dependencies_unsatisfied → 0 < count eq n s.unsatisfied
    pub to_visit : All (λ n. HasState s n unvisited) s.to_visit
    pub busy_resolvers : is_nonneg s.busy_resolvers ≡ true
    pub busy_visitors : is_nonneg s.busy_visitors ≡ true

module _ {N : Type 0} (eq : Discrete N) where
  -- A use of an unvisited node counts.
  unvisited_in-pos :
      (f : N → Option (NodeInfo N)) (d : N) (ds : List N)
      → 0 < count eq d ds
      → pending (f d) ≡ 1
      → 0 < unvisited_in f ds
  unvisited_in-pos f d [] m h = absurd (omega arith)
  unvisited_in-pos f d (x ∷ ds) m h = ground (arith, unvisited_in-pos f d ds)

module _ {N E : Type 0} (eq : Discrete N) where
  module _ (deps : N → List N) {r v : N → ℕ} (s : VisitState N E)
      (c : Core eq (depends deps s) r v s) where
    waits :
        (a d : N)
        → 0 < count eq d (dependants_of (s.nodes a))
        → HasState s d dependencies_unsatisfied
    waits a d m = ground (arith, c.link d a, c.node d, unvisited_in-pos eq s.nodes a (deps d))

    blocks-Core :
        (a : N) (ni : NodeInfo N) (l : List N)
        → s.nodes a ≡ some ni
        → ni.dependants ≡ l
        → is_empty l ≡ false
        → is_visited ni.state ≡ false
    blocks-Core a ni [] h e f = cc
    blocks-Core a ni (d ∷ ds) h e f = ground (arith, c.link d a)

    NodeChecked-Core : (a : N) (ni : NodeInfo N) → s.nodes a ≡ some ni → NodeChecked eq s ni
    NodeChecked-Core a ni h = record {
      nonneg = ground (arith, c.node a);
      positive = ground (arith, c.node a);
      blocks = blocks-Core a ni ni.dependants h refl;
      dependants = All-of_count eq _ ni.dependants (λ d m. waits a d (ground arith));
    }

module _ {N E : Type 0} (eq : Discrete N) where
  -- In every state that the workers reach, `checkInvariants` does not panic.
  pub Reach-Checked :
      (deps : N → List N) (ns : List N) (rp vp : ℕ) (y : System N E)
      → Reach eq deps (start eq ns rp vp) y
      → Checked eq y.state
  Reach-Checked deps ns rp vp y r = record {
    node = NodeChecked-Core eq deps y.state c;
    to_resolve = All-of_count eq _ y.state.to_resolve (λ n m. ground (arith, c.node n));
    unsatisfied = All-of_count eq _ y.state.unsatisfied (λ n m. ground (arith, c.node n));
    all_unsatisfied = λ n h. ground (arith, c.node n);
    to_visit = All-of_count eq _ y.state.to_visit (λ n m. ground (arith, c.node n));
    busy_resolvers = ground (arith, w);
    busy_visitors = ground (arith, w);
  }
    where
      open (Reach-Inv eq deps ns rp vp r) use {work as w, nodes as c}
