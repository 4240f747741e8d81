-- ===== src/Dag/State/Frame.antt =====
-- What the updates of internal/dag/visit.go leave alone.
use comeback.Prelude.{◌≡◌, refl, ◌∙◌, Option, none, some, List, [], ◌∷◌, arith}
use comeback.Dag.State.{
  NodeInfo, VisitState, add_node, add_nodes, link_dep, link_deps, settle, finish_resolve,
  satisfy_one, satisfy, finish_visit,
}

module _ {N E : Type 0} where
  pub record SameRun (s t : VisitState N E) : Type 0 where
    pub first_err : t.first_err ≡ s.first_err
    pub busy_resolvers : t.busy_resolvers ≡ s.busy_resolvers
    pub busy_visitors : t.busy_visitors ≡ s.busy_visitors

  SameRun-refl : (s : VisitState N E) → SameRun s s
  SameRun-refl s = record { first_err = refl; busy_resolvers = refl; busy_visitors = refl }

  SameRun-trans : {s t u : VisitState N E} → SameRun s t → SameRun t u → SameRun s u
  SameRun-trans p q = record {
    first_err = q.first_err ∙ p.first_err;
    busy_resolvers = q.busy_resolvers ∙ p.busy_resolvers;
    busy_visitors = q.busy_visitors ∙ p.busy_visitors;
  }

module _ {N E : Type 0} (eq : Discrete N) where
  pub SameRun-add_nodes : (ns : List N) (s : VisitState N E) → SameRun s (add_nodes eq ns s)
  unfolding add_nodes
  SameRun-add_nodes [] s = SameRun-refl s
  SameRun-add_nodes (n ∷ ns) s =
      SameRun-trans {t = add_node eq n s} (unfold add_node in ground arith)
        (SameRun-add_nodes ns (add_node eq n s))

  SameRun-link_deps : (n : N) (ds : List N) (s : VisitState N E) → SameRun s (link_deps eq n ds s)
  unfolding link_deps
  SameRun-link_deps n [] s = SameRun-refl s
  SameRun-link_deps n (d ∷ ds) s =
      SameRun-trans {t = link_dep eq n d s} (unfold link_dep in ground arith)
        (SameRun-link_deps n ds (link_dep eq n d s))

  pub SameRun-finish_resolve :
      (n : N) (ds : List N) (s : VisitState N E) → SameRun s (finish_resolve eq n ds s)
  unfolding finish_resolve
  SameRun-finish_resolve n ds s =
      SameRun-trans (SameRun-add_nodes ds s)
        (SameRun-trans (SameRun-link_deps n ds (add_nodes eq ds s)) (unfold settle in ground arith))

  SameRun-satisfy : (ds : List N) (s : VisitState N E) → SameRun s (satisfy eq ds s)
  unfolding satisfy
  SameRun-satisfy [] s = SameRun-refl s
  SameRun-satisfy (d ∷ ds) s =
      SameRun-trans {t = satisfy_one eq d s} (unfold satisfy_one in ground arith)
        (SameRun-satisfy ds (satisfy_one eq d s))

  to_resolve-satisfy :
      (ds : List N) (s : VisitState N E) → (satisfy eq ds s).to_resolve ≡ s.to_resolve
  unfolding satisfy
  to_resolve-satisfy [] s = refl
  to_resolve-satisfy (d ∷ ds) s = to_resolve-satisfy ds (satisfy_one eq d s) ∙ one
    where
      one : (satisfy_one eq d s).to_resolve ≡ s.to_resolve
      one = unfold satisfy_one in ground arith

  pub SameRun-finish_visit : (n : N) (s : VisitState N E) → SameRun s (finish_visit eq n s)
  unfolding finish_visit
  SameRun-finish_visit n s = go (s.nodes n) refl
    where
      go : (o : Option (NodeInfo N)) → s.nodes n ≡ o → SameRun s (finish_visit eq n s)
      go none h = rw (h, finish_visit) (SameRun-refl s)
      go (some i) h = let k = SameRun-satisfy i.dependants s in ground (arith, k)

  pub to_resolve-finish_visit :
      (n : N) (s : VisitState N E) → (finish_visit eq n s).to_resolve ≡ s.to_resolve
  unfolding finish_visit
  to_resolve-finish_visit n s = go (s.nodes n) refl
    where
      go :
          (o : Option (NodeInfo N))
          → s.nodes n ≡ o
          → (finish_visit eq n s).to_resolve ≡ s.to_resolve
      go none h = ground arith
      go (some i) h = ground (arith, to_resolve-satisfy i.dependants s)
