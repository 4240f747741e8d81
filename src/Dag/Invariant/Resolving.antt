-- ===== src/Dag/Invariant/Resolving.antt =====
-- The whole update of `resolveOne` in internal/dag/visit.go keeps the invariant.
use mathlib.Core.Path.{fun_ext, subst}
use comeback.Prelude.{ℕ, ◌+◌, ◌≡◌, refl, ◌∙◌, List, [], ◌∷◌, arith, same}
use comeback.Dag.State.{
  VisitState, dependencies_unresolved, add_node, add_nodes, link_dep, link_deps, settle,
  finish_resolve,
}
use comeback.Dag.Invariant.{Core, HasState, depends, pending, resolved}
use comeback.Dag.Invariant.Adding.{Core-add_nodes, add_nodes-state, add_nodes-knows}
use comeback.Dag.Invariant.Linking.{assign, Core-link_deps, Core-settle, link_deps-state}

module _ {N E : Type 0} (eq : Discrete N) (deps : N → List N) where
  pub depends-add_nodes :
      (ns : List N) (s : VisitState N E) (a : N)
      → depends deps (add_nodes eq ns s) a ≡ depends deps s a
  unfolding add_nodes
  depends-add_nodes [] s a = refl
  depends-add_nodes (n ∷ ns) s a = depends-add_nodes ns (add_node eq n s) a ∙ one
    where
      one : depends deps (add_node eq n s) a ≡ depends deps s a
      one = unfold add_node in ground arith

  depends-link_deps :
      (n : N) (ds : List N) (s : VisitState N E) (a : N)
      → depends deps (link_deps eq n ds s) a ≡ depends deps s a
  unfolding link_deps
  depends-link_deps n [] s a = refl
  depends-link_deps n (d ∷ ds) s a = depends-link_deps n ds (link_dep eq n d s) a ∙ one
    where
      one : depends deps (link_dep eq n d s) a ≡ depends deps s a
      one = unfold link_dep in ground arith

  depends-settle :
      (n : N) (s : VisitState N E) (a : N)
      → HasState s n dependencies_unresolved
      → depends deps (settle eq n s) a ≡ assign eq (depends deps s) n (deps n) a
  unfolding settle
  depends-settle n s a h = ground arith

  depends-unresolved :
      (n : N) (s : VisitState N E) (a : N)
      → HasState s n dependencies_unresolved
      → depends deps s a ≡ assign eq (depends deps s) n [] a
  depends-unresolved n s a h = ground arith

  pub Core-finish_resolve :
      {r v : N → ℕ} (n : N) (s : VisitState N E) (r' : N → ℕ)
      → HasState s n dependencies_unresolved
      → ((a : N) → r a ≡ same eq a n + r' a)
      → Core eq (depends deps s) r v s
      → Core eq
          (depends deps (finish_resolve eq n (deps n) s))
          r'
          v
          (finish_resolve eq n (deps n) s)
  unfolding finish_resolve
  Core-finish_resolve {r} {v} n s r' fresh out c =
      subst (λ got. Core eq got r' v (settle eq n linked)) (fun_ext after)
        (Core-settle eq n linked r' linked_fresh out (
          Core-link_deps eq (depends deps s) n (deps n) [] added (add_nodes-knows eq (deps n) s)
            added_fresh
            (subst (λ got. Core eq got r v added) (fun_ext (λ a. depends-unresolved n s a fresh))
              (Core-add_nodes eq (deps n) s c))))
    where
      added : VisitState N E
      added = add_nodes eq (deps n) s

      linked : VisitState N E
      linked = link_deps eq n (deps n) added

      added_fresh : HasState added n dependencies_unresolved
      added_fresh = add_nodes-state eq (deps n) n s dependencies_unresolved fresh

      linked_fresh : HasState linked n dependencies_unresolved
      linked_fresh = link_deps-state eq n (deps n) n added dependencies_unresolved added_fresh

      same_depends : (a : N) → depends deps linked a ≡ depends deps s a
      same_depends a = depends-link_deps n (deps n) added a ∙ depends-add_nodes (deps n) s a

      after :
          (a : N) → assign eq (depends deps s) n (deps n) a ≡ depends deps (settle eq n linked) a
      after a = ground (arith, depends-settle n linked a linked_fresh, same_depends a)

  -- Only `n` becomes resolved, and nothing becomes visited.
  abbrev pub Marks : (before after : VisitState N E) → N → Type 0
  Marks before after a =
      (pending (after.nodes a) ≡ pending (before.nodes a))
      × (resolved (after.nodes a) ≡ resolved (before.nodes a))

  pub add_nodes-Marks : (ns : List N) (s : VisitState N E) (a : N) → Marks s (add_nodes eq ns s) a
  unfolding add_nodes
  add_nodes-Marks [] s a = (refl, refl)
  add_nodes-Marks (n ∷ ns) s a =
      let (p, q) = add_nodes-Marks ns (add_node eq n s) a in (p ∙ one.0, q ∙ one.1)
    where
      one : Marks s (add_node eq n s) a
      one = unfold add_node in ground arith

  link_deps-Marks :
      (n : N) (ds : List N) (s : VisitState N E) (a : N) → Marks s (link_deps eq n ds s) a
  unfolding link_deps
  link_deps-Marks n [] s a = (refl, refl)
  link_deps-Marks n (d ∷ ds) s a =
      let (p, q) = link_deps-Marks n ds (link_dep eq n d s) a in (p ∙ one.0, q ∙ one.1)
    where
      one : Marks s (link_dep eq n d s) a
      one = unfold link_dep in ground arith

  settle-marks :
      (n : N) (s : VisitState N E) (a : N)
      → HasState s n dependencies_unresolved
      → (pending ((settle eq n s).nodes a) ≡ pending (s.nodes a))
        × (resolved ((settle eq n s).nodes a) ≡ resolved (s.nodes a) + same eq a n)
  unfolding settle
  settle-marks n s a h = ground arith

  pub finish_resolve-marks :
      (n : N) (ds : List N) (s : VisitState N E) (a : N)
      → HasState s n dependencies_unresolved
      → (pending ((finish_resolve eq n ds s).nodes a) ≡ pending (s.nodes a))
        × (resolved ((finish_resolve eq n ds s).nodes a) ≡ resolved (s.nodes a) + same eq a n)
  unfolding finish_resolve
  finish_resolve-marks n ds s a h =
      let added = add_nodes eq ds s in
      let h' = add_nodes-state eq ds n s dependencies_unresolved h in
      ground (
        arith,
        add_nodes-Marks ds s a,
        link_deps-Marks n ds added a,
        settle-marks n (link_deps eq n ds added) a
            (link_deps-state eq n ds n added dependencies_unresolved h'),
      )
