-- ===== src/Dag/Invariant/Linking.antt =====
-- The loop over `deps` and the end of the update in `resolveOne` of internal/dag/visit.go.
use comeback.Prelude.{ℕ, ◌+◌, ◌≡◌, List, [], ◌∷◌, ◌++◌, ite, arith, same, All, count-append}
use mathlib.Core.List.{append-nil, append_assoc}
use mathlib.Core.Path.{subst}
use comeback.Dag.State.{NodeState, VisitState, dependencies_unresolved, link_dep, link_deps, settle}
use comeback.Dag.Invariant.{
  Core, IsKnown, HasState, pending, dependants_of, unvisited_in-ext, unvisited_in-append,
  count-remove,
}

-- `got` with `p` at `n`.
abbrev pub assign : {N : Type 0} → Discrete N → (N → List N) → N → List N → N → List N
assign eq got n p a = ite (eq n a) p (got a)

module _ {N E : Type 0} (eq : Discrete N) where
  link_dep-pending :
      (n d : N) (s : VisitState N E) (j : N)
      → pending ((link_dep eq n d s).nodes j) ≡ pending (s.nodes j)
  unfolding link_dep
  link_dep-pending n d s j = ground arith

  pub link_dep-IsKnown :
      (n d j : N) (s : VisitState N E) → IsKnown s j → IsKnown (link_dep eq n d s) j
  unfolding link_dep
  link_dep-IsKnown n d j s h = ground arith

  link_dep-state :
      (n d j : N) (s : VisitState N E) (b : NodeState)
      → HasState s j b
      → HasState (link_dep eq n d s) j b
  unfolding link_dep
  link_dep-state n d j s b h = ground arith

  settle-pending :
      (n : N) (s : VisitState N E) (j : N)
      → HasState s n dependencies_unresolved
      → pending ((settle eq n s).nodes j) ≡ pending (s.nodes j)
  unfolding settle
  settle-pending n s j h = ground arith

  module _ (got : N → List N) {r v : N → ℕ} where
    Core-link_dep :
        (n d : N) (p : List N) (s : VisitState N E)
        → IsKnown s d
        → HasState s n dependencies_unresolved
        → Core eq (assign eq got n p) r v s
        → Core eq (assign eq got n (p ++ d ∷ [])) r v (link_dep eq n d s)
    Core-link_dep n d p s known fresh c = record {
      node = λ a.
          unfold link_dep in
          ground (
            arith,
            c.node a,
            unvisited_in-ext _ _ (link_dep-pending n d s) (assign eq got n (p ++ d ∷ []) a),
            unvisited_in-append s.nodes p (d ∷ []),
          );
      link = λ a b.
          unfold link_dep in
          ground (
            arith,
            c.link a b,
            count-append eq b p (d ∷ []),
            count-append eq a (dependants_of (s.nodes b)) (n ∷ []),
          );
    }

  pub Core-settle :
      {got : N → List N} {r v : N → ℕ} (n : N) (s : VisitState N E) (r' : N → ℕ)
      → HasState s n dependencies_unresolved
      → ((a : N) → r a ≡ same eq a n + r' a)
      → Core eq got r v s
      → Core eq got r' v (settle eq n s)
  Core-settle {got} n s r' fresh out c = record {
    node = λ a.
        unfold settle in
        ground (
          arith,
          c.node a,
          c.node n,
          out a,
          count-remove eq a n s.unsatisfied,
          unvisited_in-ext _ _ (λ j. settle-pending n s j fresh) (got a),
        );
    link = λ a b. unfold settle in ground (arith, c.link a b);
  }

  All-link_dep :
      (n d : N) (s : VisitState N E) (ds : List N)
      → All (IsKnown s) ds
      → All (IsKnown (link_dep eq n d s)) ds
  All-link_dep n d s [] h = tt
  All-link_dep n d s (x ∷ ds) h = (link_dep-IsKnown n d x s h.0, All-link_dep n d s ds h.1)

  pub link_deps-state :
      (n : N) (ds : List N) (j : N) (s : VisitState N E) (b : NodeState)
      → HasState s j b
      → HasState (link_deps eq n ds s) j b
  unfolding link_deps
  link_deps-state n [] j s b h = h
  link_deps-state n (d ∷ ds) j s b h =
      link_deps-state n ds j (link_dep eq n d s) b (link_dep-state n d j s b h)

  pub Core-link_deps :
      (got : N → List N) {r v : N → ℕ} (n : N) (ds p : List N) (s : VisitState N E)
      → All (IsKnown s) ds
      → HasState s n dependencies_unresolved
      → Core eq (assign eq got n p) r v s
      → Core eq (assign eq got n (p ++ ds)) r v (link_deps eq n ds s)
  unfolding link_deps
  Core-link_deps got n [] p s known fresh c = rw append-nil c
  Core-link_deps got {r} {v} n (d ∷ ds) p s known fresh c =
      subst (λ l. Core eq (assign eq got n l) r v (link_deps eq n ds (link_dep eq n d s)))
        (append_assoc p (d ∷ []) ds)
        (Core-link_deps got n ds (p ++ d ∷ []) (link_dep eq n d s) (All-link_dep n d s ds known.1)
          (link_dep-state n d n s dependencies_unresolved fresh)
          (Core-link_dep got n d p s known.0 fresh c))
