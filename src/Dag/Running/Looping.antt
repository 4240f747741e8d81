-- ===== src/Dag/Running/Looping.antt =====
-- The rounds of the loops of `resolveNodes` and `visitNodes` keep the invariant.
use comeback.Prelude.{List, arith}
use comeback.Dag.State.{resolvers_should_wake, visitors_should_wake}
use comeback.Dag.System.{System, resolver_loop, visitor_loop}
use comeback.Dag.Running.{Workplace, Nodes}

module _ {N E : Type 0} where
  pub Workplace-resolver_loop : (y : System N E) → Workplace y → Workplace (resolver_loop y)
  unfolding resolver_loop resolvers_should_wake visitors_should_wake
  Workplace-resolver_loop y w = ground arith

  pub Workplace-visitor_loop : (y : System N E) → Workplace y → Workplace (visitor_loop y)
  unfolding visitor_loop resolvers_should_wake visitors_should_wake
  Workplace-visitor_loop y w = ground arith

module _ {N E : Type 0} (eq : Discrete N) (deps : N → List N) where
  pub Nodes-resolver_loop : (y : System N E) → Nodes eq deps y → Nodes eq deps (resolver_loop y)
  unfolding resolver_loop
  Nodes-resolver_loop y c = record {
    node = λ a. ground (arith, c.node a);
    link = λ a b. ground (arith, c.link a b);
  }

  pub Nodes-visitor_loop : (y : System N E) → Nodes eq deps y → Nodes eq deps (visitor_loop y)
  unfolding visitor_loop
  Nodes-visitor_loop y c = record {
    node = λ a. ground (arith, c.node a);
    link = λ a b. ground (arith, c.link a b);
  }
