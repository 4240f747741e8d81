-- ===== src/Dag/State.antt =====
-- internal/dag/visit.go: `nodeInfo` and `visitState`, what is kept under the lock, and the updates
-- that run under it.
-- A `*nodeInfo` is named by its node, since `nodes` has one for each key. A slice that the code uses
-- as a stack is a list with the slice's last element first. A read through a missing key, a nil
-- pointer in Go, leaves the state as it is.
pub mod Frame
use comeback.Prelude.{
  Bool, true, false, not, ◌||◌, Option, none, some, List, [], ◌∷◌, ◌++◌, ite, if◌then◌else◌,
  is_empty, is_some,
}
use comeback.Prelude.Int.{ℤ, pos, increment, decrement, is_positive, is_zero}
use mathlib.Core.Option

pub data NodeState : Type 0 where
  dependencies_unresolved dependencies_unsatisfied unvisited visited : NodeState

pub record NodeInfo (N : Type 0) : Type 0 where
  pub state : NodeState
  pub deps_unsatisfied : ℤ
  pub dependants : List N

pub record VisitState (N E : Type 0) : Type 0 where
  pub nodes : N → Option (NodeInfo N)
  pub to_resolve : List N
  pub unsatisfied : List N
  pub to_visit : List N
  pub first_err : Option E
  pub busy_resolvers : ℤ
  pub busy_visitors : ℤ

module _ {N E : Type 0} where
  unfoldable pub resolvers_should_exit : VisitState N E → Bool
  resolvers_should_exit s =
      if is_some s.first_err
      then true
      else if not (is_empty s.to_resolve)
      then false
      else if not (is_zero s.busy_resolvers)
      then false
      else true

  unfoldable pub visitors_should_exit : VisitState N E → Bool
  unfolding resolvers_should_exit
  visitors_should_exit s =
      if is_some s.first_err
      then true
      else if not (is_empty s.to_visit)
      then false
      else if not (is_zero s.busy_visitors)
      then false
      else if not (resolvers_should_exit s)
      then false
      else true

  unfoldable pub resolvers_should_wake : VisitState N E → Bool
  unfolding resolvers_should_exit
  resolvers_should_wake s = not (is_empty s.to_resolve) || resolvers_should_exit s

  unfoldable pub visitors_should_wake : VisitState N E → Bool
  unfolding visitors_should_exit
  visitors_should_wake s = not (is_empty s.to_visit) || visitors_should_exit s

-- delete(m, n)
abbrev pub remove {ℓ} : {N : Type ℓ} → Discrete N → N → List N → List N
remove eq n [] = []
remove eq n (x ∷ xs) = let rest = remove eq n xs in ite (eq n x) rest (x ∷ rest)

abbrev pub fresh : {N : Type 0} → NodeInfo N
fresh = record { state = dependencies_unresolved; deps_unsatisfied = pos 0; dependants = [] }

module _ {N E : Type 0} (eq : Discrete N) where
  -- A write through the pointer of node `n`.
  abbrev pub modify : N → (NodeInfo N → NodeInfo N) → VisitState N E → VisitState N E
  modify n f s = record s { nodes = λ j. ite (eq n j) (Option.map f (s.nodes j)) (s.nodes j) }

  -- The switch of `reinsert` on the state of the node.
  abbrev pub reinsert_at : NodeState → N → VisitState N E → VisitState N E
  reinsert_at dependencies_unresolved n s = record s { to_resolve = n ∷ s.to_resolve }
  reinsert_at dependencies_unsatisfied n s = record s {
    unsatisfied = n ∷ remove eq n s.unsatisfied;
  }
  reinsert_at unvisited n s = record s { to_visit = n ∷ s.to_visit }
  reinsert_at visited n s = s

  unfoldable pub reinsert : N → VisitState N E → VisitState N E
  reinsert n s = elim (s.nodes n) [ none ↦ s | some ni ↦ reinsert_at ni.state n s ]

  -- One round of the loop of `addNodes`.
  unfoldable pub add_node : N → VisitState N E → VisitState N E
  unfolding reinsert
  add_node n s = elim (s.nodes n) [
    | some ni ↦ s
    | none ↦ reinsert n (record s { nodes = λ j. ite (eq n j) (some fresh) (s.nodes j) })
  ]

  unfoldable pub add_nodes : List N → VisitState N E → VisitState N E
  add_nodes [] s = s
  add_nodes (n ∷ ns) s = add_nodes ns (add_node n s)

  -- One round of the loop over `deps` in `resolveOne`.
  unfoldable pub link_dep : N → N → VisitState N E → VisitState N E
  link_dep n dep s = elim (s.nodes dep) [
    | none ↦ s
    | some dep_ni ↦ elim dep_ni.state [
      | visited ↦ s
      | _ ↦
          modify dep (λ i. record i { dependants = i.dependants ++ n ∷ [] })
            (modify n (λ i. record i { deps_unsatisfied = increment i.deps_unsatisfied }) s)
    ]
  ]

  unfoldable pub link_deps : N → List N → VisitState N E → VisitState N E
  link_deps n [] s = s
  link_deps n (dep ∷ deps) s = link_deps n deps (link_dep n dep s)

  -- The end of the update in `resolveOne`: "Update and reinsert the node itself."
  unfoldable pub settle : N → VisitState N E → VisitState N E
  unfolding reinsert
  settle n s = reinsert n (
      modify n
        (λ i. record i {
          state = if is_positive i.deps_unsatisfied then dependencies_unsatisfied else unvisited;
        })
        s)

  -- The state updates of `resolveOne` after a successful call.
  unfoldable pub finish_resolve : N → List N → VisitState N E → VisitState N E
  finish_resolve n deps s = settle n (link_deps n deps (add_nodes deps s))

  -- One round of the loop over `ni.dependants` in `visitOne`.
  unfoldable pub satisfy_one : N → VisitState N E → VisitState N E
  unfolding reinsert
  satisfy_one dep s =
      let s' = modify dep (λ i. record i { deps_unsatisfied = decrement i.deps_unsatisfied }) s in
      elim (s'.nodes dep) [
        | none ↦ s'
        | some ni ↦
            if is_zero ni.deps_unsatisfied
            then reinsert dep (record (modify dep (λ i. record i { state = unvisited }) s') {
              unsatisfied = remove eq dep s.unsatisfied;
            })
            else s'
      ]

  unfoldable pub satisfy : List N → VisitState N E → VisitState N E
  satisfy [] s = s
  satisfy (dep ∷ deps) s = satisfy deps (satisfy_one dep s)

  -- The state updates of `visitOne` after a successful call.
  unfoldable pub finish_visit : N → VisitState N E → VisitState N E
  unfolding reinsert
  finish_visit n s = elim (s.nodes n) [
    | none ↦ s
    | some ni ↦
        reinsert n
          (modify n (λ i. record i { dependants = []; state = visited }) (satisfy ni.dependants s))
  ]
