-- ===== src/Dag/Outcome.antt =====
-- What `Visit` of internal/dag/visit.go has done when it returns.
use comeback.Prelude.{
  ℕ, zero, suc, ◌<◌, ◌≡◌, refl, ◌==◌, Bool-cases, inl, inr, none, List, [], ◌∷◌, arith, count,
}
use comeback.Dag.State.{visitors_should_exit}
use comeback.Dag.Invariant.{IsKnown, pending, unvisited_in}
use comeback.Dag.System.{
  System, Event, Reach, start, IsFinished, result, resolve_start, resolve_end, visit_start,
  visit_end,
}
use comeback.Dag.Trace.{tally}
use comeback.Dag.Reachable.{Reach-Inv}
use comeback.Dag.Progress.{total-Reach}
use comeback.Dag.Known.{Reach-IsKnown}

-- The union of the start nodes and all their transitive dependencies.
pub data Wanted {N : Type 0} (eq : Discrete N) (deps : N → List N) (ns : List N) : N → Type 0 where
  root : {a : N} → 0 < count eq a ns → Wanted eq deps ns a
  dependency : {a d : N} → Wanted eq deps ns a → 0 < count eq d (deps a) → Wanted eq deps ns d

-- Each of the calls was made once for the node.
pub record IsDone {N : Type 0} (eq : Discrete N) (a : N) (y : List (Event N)) : Type 0 where
  pub resolve_started : tally eq resolve_start a y ≡ 1
  pub resolve_ended : tally eq resolve_end a y ≡ 1
  pub visit_started : tally eq visit_start a y ≡ 1
  pub visit_ended : tally eq visit_end a y ≡ 1

module _ {N E : Type 0} (eq : Discrete N) (deps : N → List N) (ns : List N) (rp vp : ℕ) where
  module _ (y : System N E) (pos : 0 < vp) (r : Reach eq deps (start eq ns rp vp) y)
      (f : IsFinished y) where
    open (Reach-Inv eq deps ns rp vp r) use {work, nodes, traced}

    -- Without an error the queues are empty in the end.
    emptied :
        y.state.first_err ≡ none
        → (y.state.to_resolve ≡ [])
          × (y.state.to_visit ≡ [])
          × (y.failed_resolves ≡ [])
          × (y.failed_visits ≡ [])
    unfolding visitors_should_exit
    emptied h = ground (arith, work, total-Reach eq deps ns rp vp y r)

    -- A known node is unsatisfied or visited.
    settled :
        (a : N)
        → y.state.first_err ≡ none
        → IsKnown y.state a
        → pending (y.state.nodes a) ≡ count eq a y.state.unsatisfied
    settled a h k = let e = emptied h in ground (arith, nodes.node a, e)

    no_unsatisfied : result y.state ≡ none → (y.state.first_err ≡ none) × (y.state.unsatisfied ≡ [])
    unfolding result
    no_unsatisfied h = ground arith

    IsKnown-dependency :
        (a d : N)
        → IsKnown y.state a
        → pending (y.state.nodes a) ≡ 0
        → 0 < count eq d (deps a)
        → IsKnown y.state d
    IsKnown-dependency a d k p m = ground (arith, nodes.link a d)

    Wanted-visited :
        result y.state ≡ none
        → (a : N) → Wanted eq deps ns a
        → IsKnown y.state a × (pending (y.state.nodes a) ≡ 0)
    Wanted-visited h a (root m) =
        let k = Reach-IsKnown eq deps a ns rp vp y m r in
        let e = no_unsatisfied h in (k, ground (arith, settled a e.0 k, e))
    Wanted-visited h a (dependency {a = b} w m) =
        let (kb, pb) = Wanted-visited h b w in
        let k = IsKnown-dependency b a kb pb m in
        let e = no_unsatisfied h in (k, ground (arith, settled a e.0 k, e))

  -- When `Visit` returns no error, the resolver and the visitor have each been called once, with
  -- success, for every start node and every transitive dependency of one, if there is a visitor.
  pub success_complete :
      (y : System N E)
      → 0 < vp
      → Reach eq deps (start eq ns rp vp) y
      → IsFinished y
      → result y.state ≡ none
      → (a : N) → Wanted eq deps ns a
      → IsDone eq a y.trace
  success_complete y pos r f h a w =
      let p = Wanted-visited y pos r f h a w in
      let c = (Reach-Inv eq deps ns rp vp r).nodes.node a in
      let t = (Reach-Inv eq deps ns rp vp r).traced in
      record {
        resolve_started = ground (arith, p, c, t.resolve_starts a);
        resolve_ended = ground (arith, p, c, t.resolve_ends a);
        visit_started = ground (arith, p, c, t.visit_starts a);
        visit_ended = ground (arith, p, t.visit_ends a);
      }

  module _ (rank : N → ℕ) (acyclic : (a d : N) → 0 < count eq d (deps a) → rank d < rank a) where
    module _ (y : System N E) (pos : 0 < vp) (r : Reach eq deps (start eq ns rp vp) y)
        (f : IsFinished y) (quiet : y.state.first_err ≡ none) where
      open (Reach-Inv eq deps ns rp vp r) use {work, nodes, traced}

      -- A list with an unvisited node has one that can be named.
      unvisited_dependency :
          (ds : List N)
          → 0 < unvisited_in y.state.nodes ds
          → (d : N) × (0 < count eq d ds) × (pending (y.state.nodes d) ≡ 1)
      unvisited_dependency [] h = absurd (omega arith)
      unvisited_dependency (d ∷ ds) h = elim (Bool-cases (pending (y.state.nodes d) == 1)) [
        | inl e ↦ (d, ground arith, ground arith)
        | inr e ↦ let (d', m, p) = unvisited_dependency ds (ground arith) in (d', omega arith, p)
      ]

      waits_for :
          (a : N)
          → 0 < count eq a y.state.unsatisfied
          → (d : N) × (0 < count eq d (deps a)) × (0 < count eq d y.state.unsatisfied)
      waits_for a h =
          let (d, m, p) = unvisited_dependency (deps a) (ground (arith, nodes.node a)) in
          let k : IsKnown y.state d = ground (arith, nodes.link a d, nodes.node a) in
          (d, m, ground (arith, settled y pos r f d quiet k))

      none_unsatisfied : (k : ℕ) (a : N) → rank a < k → ¬ (0 < count eq a y.state.unsatisfied)
      none_unsatisfied zero a h u = absurd (omega arith)
      none_unsatisfied (suc k) a h u =
          let (d, m, u') = waits_for a u in none_unsatisfied k d (omega (arith, acyclic a d m)) u'

    -- On a graph with no cycle, which is one whose nodes can be ranked above their dependencies,
    -- `Visit` returns no error unless the resolver or the visitor does.
    pub acyclic_succeeds :
        (y : System N E)
        → 0 < vp
        → Reach eq deps (start eq ns rp vp) y
        → IsFinished y
        → y.state.first_err ≡ none
        → result y.state ≡ none
    unfolding result
    acyclic_succeeds y pos r f quiet = go y.state.unsatisfied refl
      where
        go : (l : List N) → y.state.unsatisfied ≡ l → result y.state ≡ none
        go [] h = ground arith
        go (n ∷ l) h =
            absurd (none_unsatisfied y pos r f quiet (suc (rank n)) n (omega arith) (ground arith))
