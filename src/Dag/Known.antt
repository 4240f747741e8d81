-- ===== src/Dag/Known.antt =====
-- internal/dag/visit.go never forgets a node.
use comeback.Prelude.{ℕ, ◌<◌, ◌≡◌, refl, Option, none, some, List, [], ◌∷◌, arith, All, count}
use comeback.Dag.State.{
  NodeInfo, VisitState, add_nodes, link_dep, link_deps, settle, finish_resolve, satisfy_one,
  satisfy, finish_visit,
}
use comeback.Dag.Invariant.{IsKnown}
use comeback.Dag.Invariant.Adding.{add_nodes-IsKnown, add_nodes-knows}
use comeback.Dag.Invariant.Linking.{link_dep-IsKnown}
use comeback.Dag.System.{
  System, Step, Reach, here, next, start, resolver_runs, resolve_returns, empty_state,
  resolve_fails, visitor_runs, visit_returns, visit_fails, resolver_loop, visitor_loop,
  resolve_returned, resolve_failed, visit_returned, visit_failed,
}

module _ {N E : Type 0} (eq : Discrete N) where
  link_deps-IsKnown :
      (n : N) (ds : List N) (j : N) (s : VisitState N E)
      → IsKnown s j
      → IsKnown (link_deps eq n ds s) j
  unfolding link_deps
  link_deps-IsKnown n [] j s h = h
  link_deps-IsKnown n (d ∷ ds) j s h =
      link_deps-IsKnown n ds j (link_dep eq n d s) (link_dep-IsKnown eq n d j s h)

  settle-IsKnown : (n j : N) (s : VisitState N E) → IsKnown s j → IsKnown (settle eq n s) j
  unfolding settle
  settle-IsKnown n j s h = ground arith

  finish_resolve-IsKnown :
      (n : N) (ds : List N) (j : N) (s : VisitState N E)
      → IsKnown s j
      → IsKnown (finish_resolve eq n ds s) j
  unfolding finish_resolve
  finish_resolve-IsKnown n ds j s h =
      settle-IsKnown n j _
        (link_deps-IsKnown n ds j (add_nodes eq ds s) (add_nodes-IsKnown eq ds j s h))

  satisfy-IsKnown :
      (ds : List N) (j : N) (s : VisitState N E) → IsKnown s j → IsKnown (satisfy eq ds s) j
  unfolding satisfy
  satisfy-IsKnown [] j s h = h
  satisfy-IsKnown (d ∷ ds) j s h = satisfy-IsKnown ds j (satisfy_one eq d s) one
    where
      one : IsKnown (satisfy_one eq d s) j
      one = unfold satisfy_one in ground arith

  finish_visit-IsKnown :
      (n j : N) (s : VisitState N E) → IsKnown s j → IsKnown (finish_visit eq n s) j
  unfolding finish_visit
  finish_visit-IsKnown n j s h = go (s.nodes n) refl
    where
      go : (o : Option (NodeInfo N)) → s.nodes n ≡ o → IsKnown (finish_visit eq n s) j
      go none e = ground arith
      go (some i) e = ground (arith, satisfy-IsKnown i.dependants j s h)

  IsKnown-of_count :
      (j : N) (s : VisitState N E) (ns : List N)
      → All (IsKnown s) ns
      → 0 < count eq j ns
      → IsKnown s j
  IsKnown-of_count j s [] h m = absurd (omega arith)
  IsKnown-of_count j s (n ∷ ns) h m = ground (arith, IsKnown-of_count j s ns h.1)

module _ {N E : Type 0} (eq : Discrete N) (deps : N → List N) (j : N) where
  resolver_loop-IsKnown : (y : System N E) → IsKnown y.state j → IsKnown (resolver_loop y).state j
  unfolding resolver_loop
  resolver_loop-IsKnown y h = ground arith

  visitor_loop-IsKnown : (y : System N E) → IsKnown y.state j → IsKnown (visitor_loop y).state j
  unfolding visitor_loop
  visitor_loop-IsKnown y h = ground arith

  Step-IsKnown : {y z : System N E} → Step eq deps y z → IsKnown y.state j → IsKnown z.state j
  unfolding resolve_returned visit_returned resolve_failed visit_failed
  Step-IsKnown (resolver_runs k e) h = resolver_loop-IsKnown _ h
  Step-IsKnown {y} (resolve_returns n xs ys e) h =
      resolver_loop-IsKnown _ (finish_resolve-IsKnown eq n (deps n) j y.state h)
  Step-IsKnown (resolve_fails e n xs ys h') h = ground arith
  Step-IsKnown (visitor_runs k e) h = visitor_loop-IsKnown _ h
  Step-IsKnown {y} (visit_returns n xs ys e) h =
      visitor_loop-IsKnown _ (finish_visit-IsKnown eq n j y.state h)
  Step-IsKnown (visit_fails e n xs ys h') h = ground arith

  -- The start nodes are known from the start.
  pub Reach-IsKnown :
      (ns : List N) (rp vp : ℕ) (y : System N E)
      → 0 < count eq j ns
      → Reach eq deps (start eq ns rp vp) y
      → IsKnown y.state j
  unfolding start
  Reach-IsKnown ns rp vp y m here =
      IsKnown-of_count eq j y.state ns (add_nodes-knows eq ns empty_state) m
  Reach-IsKnown ns rp vp y m (next {y = x} r s) = Step-IsKnown s (Reach-IsKnown ns rp vp x m r)
