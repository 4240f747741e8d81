-- ===== src/Dag/Invariant/Adding.antt =====
-- `addNodes` of internal/dag/visit.go keeps the invariant, and knows every node of its list after.
use comeback.Prelude.{ℕ, ◌≡◌, List, [], ◌∷◌, arith, All}
use comeback.Dag.State.{NodeState, VisitState, add_node, add_nodes}
use comeback.Dag.Invariant.{Core, IsKnown, HasState, pending, unvisited_in-ext}

module _ {N E : Type 0} (eq : Discrete N) where
  add_node-pending :
      (n : N) (s : VisitState N E) (j : N)
      → pending ((add_node eq n s).nodes j) ≡ pending (s.nodes j)
  unfolding add_node
  add_node-pending n s j = ground arith

  -- A node stays known, and one that waits for the resolver stays so.
  pub add_node-state :
      (n j : N) (s : VisitState N E) (b : NodeState)
      → HasState s j b
      → HasState (add_node eq n s) j b
  unfolding add_node
  add_node-state n j s b h = ground arith

  add_node-IsKnown : (n j : N) (s : VisitState N E) → IsKnown s j → IsKnown (add_node eq n s) j
  unfolding add_node
  add_node-IsKnown n j s h = ground arith

  add_node-knows : (n : N) (s : VisitState N E) → IsKnown (add_node eq n s) n
  unfolding add_node
  add_node-knows n s = ground arith

  module _ {got : N → List N} {r v : N → ℕ} where
    pub Core-add_node :
        (n : N) (s : VisitState N E) → Core eq got r v s → Core eq got r v (add_node eq n s)
    Core-add_node n s c = record {
      node = λ a.
          unfold add_node in
          ground (arith, c.node a, unvisited_in-ext _ _ (add_node-pending n s) (got a));
      link = λ a b. unfold add_node in ground (arith, c.link a b);
    }

    pub Core-add_nodes :
        (ns : List N) (s : VisitState N E) → Core eq got r v s → Core eq got r v (add_nodes eq ns s)
    unfolding add_nodes
    Core-add_nodes [] s c = c
    Core-add_nodes (n ∷ ns) s c = Core-add_nodes ns (add_node eq n s) (Core-add_node n s c)

  pub add_nodes-state :
      (ns : List N) (j : N) (s : VisitState N E) (b : NodeState)
      → HasState s j b
      → HasState (add_nodes eq ns s) j b
  unfolding add_nodes
  add_nodes-state [] j s b h = h
  add_nodes-state (n ∷ ns) j s b h =
      add_nodes-state ns j (add_node eq n s) b (add_node-state n j s b h)

  pub add_nodes-IsKnown :
      (ns : List N) (j : N) (s : VisitState N E) → IsKnown s j → IsKnown (add_nodes eq ns s) j
  unfolding add_nodes
  add_nodes-IsKnown [] j s h = h
  add_nodes-IsKnown (n ∷ ns) j s h =
      add_nodes-IsKnown ns j (add_node eq n s) (add_node-IsKnown n j s h)

  pub add_nodes-knows : (ns : List N) (s : VisitState N E) → All (IsKnown (add_nodes eq ns s)) ns
  unfolding add_nodes
  add_nodes-knows [] s = tt
  add_nodes-knows (n ∷ ns) s = (
    add_nodes-IsKnown ns n (add_node eq n s) (add_node-knows n s),
    add_nodes-knows ns (add_node eq n s),
  )
