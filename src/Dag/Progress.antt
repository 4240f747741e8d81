-- ===== src/Dag/Progress.antt =====
-- The workers of internal/dag/visit.go never all sleep: no wake-up is lost.
use comeback.Prelude.{
  ℕ, zero, suc, ◌+◌, ◌<◌, ◌≡◌, refl, ◌⊎◌, inl, inr, List, [], ◌∷◌, ◌++◌, arith, length,
  length-middle,
}
use comeback.Dag.State.{resolvers_should_wake, visitors_should_wake}
use comeback.Dag.System.{
  System, Step, Reach, here, next, start, IsFinished, resolver_runs, resolve_returns, resolve_fails,
  visitor_runs, visit_returns, visit_fails, resolver_loop, visitor_loop, event, resolve_end,
  visit_end, resolve_returned, resolve_failed, visit_returned, visit_failed,
}
use comeback.Dag.Running.{Workplace}
use comeback.Dag.Reachable.{Reach-Inv}

module _ {N E : Type 0} where
  abbrev pub total_resolvers : System N E → ℕ
  total_resolvers y =
      y.resolvers.ready + y.resolvers.asleep + y.resolvers.returned + length y.resolving

  abbrev pub total_visitors : System N E → ℕ
  total_visitors y = y.visitors.ready + y.visitors.asleep + y.visitors.returned + length y.visiting

  -- The worker at the head of its loop is counted once more: the panic "Unexpected wake-up" is not
  -- reached.
  total-resolver_loop :
      (y : System N E)
      → (total_resolvers (resolver_loop y) ≡ suc (total_resolvers y))
        × (total_visitors (resolver_loop y) ≡ total_visitors y)
  unfolding resolver_loop resolvers_should_wake
  total-resolver_loop y = ground arith

  total-visitor_loop :
      (y : System N E)
      → (total_visitors (visitor_loop y) ≡ suc (total_visitors y))
        × (total_resolvers (visitor_loop y) ≡ total_resolvers y)
  unfolding visitor_loop visitors_should_wake
  total-visitor_loop y = ground arith

module _ {N E : Type 0} (eq : Discrete N) (deps : N → List N) where
  -- No worker is lost.
  pub total-Step :
      {y z : System N E}
      → Step eq deps y z
      → (total_resolvers z ≡ total_resolvers y) × (total_visitors z ≡ total_visitors y)
  unfolding resolve_returned visit_returned resolve_failed visit_failed
  total-Step {y} (resolver_runs k h) =
      ground
        (arith, total-resolver_loop (record y { resolvers = record (y.resolvers) { ready = k } }))
  total-Step {y} (resolve_returns n xs ys h) = ground (
    arith,
    length-middle n xs ys,
    total-resolver_loop (
        resolve_returned eq n (deps n)
          (record y { resolving = xs ++ ys; trace = event resolve_end n ∷ y.trace })),
  )
  total-Step (resolve_fails e n xs ys h) = ground (arith, length-middle n xs ys)
  total-Step {y} (visitor_runs k h) =
      ground (arith, total-visitor_loop (record y { visitors = record (y.visitors) { ready = k } }))
  total-Step {y} (visit_returns n xs ys h) = ground (
    arith,
    length-middle n xs ys,
    total-visitor_loop (
        visit_returned eq n
          (record y { visiting = xs ++ ys; trace = event visit_end n ∷ y.trace })),
  )
  total-Step (visit_fails e n xs ys h) = ground (arith, length-middle n xs ys)

  -- In every reachable state each resolver and each visitor is ready, asleep, in a call, or has
  -- returned: no worker has been lost, as one would be by the panic "Unexpected wake-up".
  pub total-Reach :
      (ns : List N) (rp vp : ℕ) (y : System N E)
      → Reach eq deps (start eq ns rp vp) y
      → (total_resolvers y ≡ rp) × (total_visitors y ≡ vp)
  unfolding start
  total-Reach ns rp vp y here = omega arith
  total-Reach ns rp vp y (next {y = x} r s) = omega (arith, total-Reach ns rp vp x r, total-Step s)

  -- With no worker that can run, a sleeping resolver would have something to do.
  all_quiet :
      (rp : ℕ) (y : System N E)
      → Workplace y
      → 0 < rp
      → total_resolvers y ≡ rp
      → y.resolvers.ready ≡ 0
      → y.visitors.ready ≡ 0
      → y.resolving ≡ []
      → y.visiting ≡ []
      → IsFinished y
  unfolding resolvers_should_wake visitors_should_wake
  all_quiet rp y w pos total a b c d = ground (arith, w)

  -- In every reachable state the workers have all returned, or one of them can take a step, if there
  -- is a resolver.
  pub no_deadlock :
      (ns : List N) (rp vp : ℕ) (y : System N E)
      → 0 < rp
      → Reach eq deps (start eq ns rp vp) y
      → IsFinished y ⊎ ((z : System N E) × Step eq deps y z)
  no_deadlock ns rp vp y pos r =
      go y.resolvers.ready y.visitors.ready y.resolving y.visiting refl refl refl refl
    where
      go :
          (a b : ℕ) (c d : List N)
          → y.resolvers.ready ≡ a
          → y.visitors.ready ≡ b
          → y.resolving ≡ c
          → y.visiting ≡ d
          → IsFinished y ⊎ ((z : System N E) × Step eq deps y z)
      go (suc k) b c d h1 h2 h3 h4 = inr (_, resolver_runs k h1)
      go zero (suc k) c d h1 h2 h3 h4 = inr (_, visitor_runs k h2)
      go zero zero (n ∷ c) d h1 h2 h3 h4 = inr (_, resolve_returns n [] c h3)
      go zero zero [] (n ∷ d) h1 h2 h3 h4 = inr (_, visit_returns n [] d h4)
      go zero zero [] [] h1 h2 h3 h4 = inl (
          all_quiet rp y (Reach-Inv eq deps ns rp vp r).work pos (total-Reach ns rp vp y r).0 h1 h2
            h3 h4)
