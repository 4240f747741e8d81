-- ===== src/Dag/Invariant/Satisfying.antt =====
-- The update of `visitOne` in internal/dag/visit.go keeps the invariant.
use comeback.Prelude.{ℕ, ◌+◌, ◌≡◌, refl, ◌∙◌, List, [], ◌∷◌, arith, count}
use comeback.Dag.State.{VisitState, dependencies_unresolved, satisfy_one, satisfy}
use comeback.Dag.Invariant.{
  HasState, NodeFits, pending, dependants_of, depends, resolved, count-remove,
}

module _ {N E : Type 0} (eq : Discrete N) where
  -- In the loop over the dependants, with `ds` ahead: `need` counts the dependencies that are left
  -- when the loop is over.
  pub record Loop (need : N → ℕ) (r v : N → ℕ) (ds : List N) (s : VisitState N E) : Type 0 where
    pub node :
        (a : N)
        → NodeFits
            (s.nodes a)
            (need a + count eq a ds)
            (count eq a s.to_resolve + r a)
            (count eq a s.unsatisfied)
            (count eq a s.to_visit + v a)
    pub idle : (a : N) → HasState s a dependencies_unresolved → need a + count eq a ds ≡ 0

  module _ {need r v : N → ℕ} where
    Loop-satisfy_one :
        (d : N) (ds : List N) (s : VisitState N E)
        → Loop need r v (d ∷ ds) s
        → Loop need r v ds (satisfy_one eq d s)
    Loop-satisfy_one d ds s l = record {
      node = λ a.
          unfold satisfy_one in
          ground (arith, l.node a, l.node d, l.idle a, count-remove eq a d s.unsatisfied);
      idle = λ a. unfold satisfy_one in ground (arith, l.node a, l.idle a);
    }

    pub Loop-satisfy :
        (ds : List N) (s : VisitState N E) → Loop need r v ds s → Loop need r v [] (satisfy eq ds s)
    unfolding satisfy
    Loop-satisfy [] s l = l
    Loop-satisfy (d ∷ ds) s l = Loop-satisfy ds (satisfy_one eq d s) (Loop-satisfy_one d ds s l)

  -- What the loop leaves alone.
  satisfy_one-links :
      (d : N) (s : VisitState N E) (b : N)
      → dependants_of ((satisfy_one eq d s).nodes b) ≡ dependants_of (s.nodes b)
  unfolding satisfy_one
  satisfy_one-links d s b = ground arith

  pub satisfy-links :
      (ds : List N) (s : VisitState N E) (b : N)
      → dependants_of ((satisfy eq ds s).nodes b) ≡ dependants_of (s.nodes b)
  unfolding satisfy
  satisfy-links [] s b = refl
  satisfy-links (d ∷ ds) s b = satisfy-links ds (satisfy_one eq d s) b ∙ satisfy_one-links d s b

  module _ {need r v : N → ℕ} (deps : N → List N) where
    -- In the loop a node changes its state only from unsatisfied to unvisited.
    satisfy_one-keeps :
        (d : N) (ds : List N) (s : VisitState N E) (b : N)
        → Loop need r v (d ∷ ds) s
        → (pending ((satisfy_one eq d s).nodes b) ≡ pending (s.nodes b))
          × (depends deps (satisfy_one eq d s) b ≡ depends deps s b)
          × (resolved ((satisfy_one eq d s).nodes b) ≡ resolved (s.nodes b))
    satisfy_one-keeps d ds s b l = unfold satisfy_one in ground (arith, l.node b, l.idle b)

    pub satisfy-keeps :
        (ds : List N) (s : VisitState N E) (b : N)
        → Loop need r v ds s
        → (pending ((satisfy eq ds s).nodes b) ≡ pending (s.nodes b))
          × (depends deps (satisfy eq ds s) b ≡ depends deps s b)
          × (resolved ((satisfy eq ds s).nodes b) ≡ resolved (s.nodes b))
    unfolding satisfy
    satisfy-keeps [] s b l = (refl, refl, refl)
    satisfy-keeps (d ∷ ds) s b l =
        let (p, q, r) = satisfy-keeps ds (satisfy_one eq d s) b (Loop-satisfy_one d ds s l) in
        let (p', q', r') = satisfy_one-keeps d ds s b l in (p ∙ p', q ∙ q', r ∙ r')
