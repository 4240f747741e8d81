-- ===== src/Dag/Invariant.antt =====
-- What holds of the state of internal/dag/visit.go while the lock is free.
pub mod Adding
pub mod Linking
pub mod Resolving
pub mod Satisfying
pub mod Visiting
use comeback.Prelude.{
  ℕ, ◌+◌, ◌<◌, ◌≡◌, Option, none, some, List, [], ◌∷◌, ◌++◌, ite, arith, same, count, is_some, true,
}
use mathlib.Core.Option
use comeback.Prelude.Int.{pos}
use comeback.Dag.State.{
  NodeState, NodeInfo, VisitState, dependencies_unresolved, dependencies_unsatisfied, unvisited,
  visited, remove,
}

-- What the state of a node says of the places where it stands: `r` counts `toResolve` and the
-- calls of the resolver, `u` counts `unsatisfied`, `v` counts `toVisit` and the visits.
abbrev pub Shape : NodeState → (need r u v : ℕ) → Type 0
Shape dependencies_unresolved need r u v = (r ≡ 1) × (u ≡ 0) × (v ≡ 0)
Shape dependencies_unsatisfied need r u v = (0 < need) × (r ≡ 0) × (u ≡ 1) × (v ≡ 0)
Shape unvisited need r u v = (need ≡ 0) × (r ≡ 0) × (u ≡ 0) × (v ≡ 1)
Shape visited need r u v = (need ≡ 0) × (r ≡ 0) × (u ≡ 0) × (v ≡ 0)

module _ {N : Type 0} where
  -- One for a node that has not been visited.
  abbrev pub pending : Option (NodeInfo N) → ℕ
  pending none = 1
  pending (some i) = elim i.state [ visited ↦ 0 | _ ↦ 1 ]

  -- One for a node whose dependencies have been resolved.
  abbrev pub resolved : Option (NodeInfo N) → ℕ
  resolved none = 0
  resolved (some i) = elim i.state [ dependencies_unresolved ↦ 0 | _ ↦ 1 ]

  abbrev pub dependants_of : Option (NodeInfo N) → List N
  dependants_of none = []
  dependants_of (some i) = i.dependants

  -- How many of the nodes of a list have not been visited.
  abbrev pub unvisited_in : (N → Option (NodeInfo N)) → List N → ℕ
  unvisited_in f [] = 0
  unvisited_in f (d ∷ ds) = pending (f d) + unvisited_in f ds

  -- The entries that a node with `c` uses of this one still has among its dependants.
  abbrev pub owed : Option (NodeInfo N) → ℕ → ℕ
  owed none c = c
  owed (some i) c = elim i.state [ visited ↦ 0 | _ ↦ c ]

  abbrev pub NodeFits : Option (NodeInfo N) → (need r u v : ℕ) → Type 0
  NodeFits none need r u v = (need ≡ 0) × (r ≡ 0) × (u ≡ 0) × (v ≡ 0)
  NodeFits (some i) need r u v = (i.deps_unsatisfied ≡ pos need) × Shape i.state need r u v

  pub unvisited_in-append :
      (f : N → Option (NodeInfo N)) (xs ys : List N)
      → unvisited_in f (xs ++ ys) ≡ unvisited_in f xs + unvisited_in f ys
  unvisited_in-append f [] ys = omega arith
  unvisited_in-append f (x ∷ xs) ys = omega (arith, unvisited_in-append f xs ys)

  pub unvisited_in-ext :
      (f g : N → Option (NodeInfo N))
      → ((j : N) → pending (f j) ≡ pending (g j))
      → (ds : List N) → unvisited_in f ds ≡ unvisited_in g ds
  unvisited_in-ext f g h [] = omega arith
  unvisited_in-ext f g h (d ∷ ds) = omega (arith, h d, unvisited_in-ext f g h ds)

module _ {N E : Type 0} where
  abbrev pub IsKnown : VisitState N E → N → Type 0
  IsKnown s n = is_some (s.nodes n) ≡ true

  abbrev pub HasState : VisitState N E → N → NodeState → Type 0
  HasState s n b = Option.map (λ (i : NodeInfo N). i.state) (s.nodes n) ≡ some b

-- The dependencies of a node that has been resolved; none of any other.
abbrev pub depends : {N E : Type 0} → (N → List N) → VisitState N E → N → List N
depends deps s a = elim (s.nodes a) [
  | none ↦ []
  | some i ↦ elim i.state [ dependencies_unresolved ↦ [] | _ ↦ deps a ]
]

module _ {N : Type 0} (eq : Discrete N) where
  -- A visit of `n` lowers the count by the uses of `n`.
  pub unvisited_in-visit :
      (f g : N → Option (NodeInfo N)) (n : N)
      → ((j : N) → pending (f j) ≡ pending (g j) + same eq n j)
      → (ds : List N) → unvisited_in f ds ≡ unvisited_in g ds + count eq n ds
  unvisited_in-visit f g n h [] = omega arith
  unvisited_in-visit f g n h (d ∷ ds) = omega (arith, h d, unvisited_in-visit f g n h ds)

  pub count-remove :
      (a n : N) (xs : List N) → count eq a (remove eq n xs) ≡ ite (eq n a) 0 (count eq a xs)
  count-remove a n [] = ground arith
  count-remove a n (x ∷ xs) = ground (arith, count-remove a n xs)

  -- `got a` is the part of the dependencies of `a` that has been linked; `r a` and `v a` count the
  -- calls for `a` that are under way or have failed.
  pub record Core {E : Type 0} (got : N → List N) (r v : N → ℕ) (s : VisitState N E) : Type 0 where
    pub node :
        (a : N)
        → NodeFits
            (s.nodes a)
            (unvisited_in s.nodes (got a))
            (count eq a s.to_resolve + r a)
            (count eq a s.unsatisfied)
            (count eq a s.to_visit + v a)
    pub link :
        (a b : N) → count eq a (dependants_of (s.nodes b)) ≡ owed (s.nodes b) (count eq b (got a))
