-- ===== src/Dag/Tests/Schedule.antt =====
-- Runs of the workers of internal/dag/visit.go by evaluation: each turn is a step of a worker, of the
-- kind that is named, if one can take it.
use comeback.Prelude.{ℕ, zero, suc, ◌≡◌, refl, List, [], ◌∷◌}
use comeback.Dag.System.{
  System, Step, Reach, here, next, start, resolver_runs, resolve_returns, resolve_fails,
  visitor_runs, visit_returns, visit_fails,
}

pub data Turn : Type 0 where
  resolver resolved_one unresolved_one visitor visited_one unvisited_one : Turn

-- A call that fails does so with `failure`.
module _ {N E : Type 0} (eq : Discrete N) (failure : E) (deps : N → List N) where
  -- Where a worker takes a step, or nothing happens.
  pub record After (y : System N E) : Type 0 where
    pub last : System N E
    pub reach : (f : System N E) → Reach eq deps f y → Reach eq deps f last

  stay : (y : System N E) → After y
  stay y = record { last = y; reach = λ f r. r }

  move : {y z : System N E} → Step eq deps y z → After y
  move {y} {z} s = record { last = z; reach = λ f r. next r s }

  take : Turn → (y : System N E) → After y
  unfolding stay move
  take resolver y = go y.resolvers.ready refl
    where
      go : (k : ℕ) → y.resolvers.ready ≡ k → After y
      go zero e = stay y
      go (suc k) e = move (resolver_runs k e)
  take resolved_one y = go y.resolving refl
    where
      go : (l : List N) → y.resolving ≡ l → After y
      go [] e = stay y
      go (n ∷ l) e = move (resolve_returns n [] l e)
  take unresolved_one y = go y.resolving refl
    where
      go : (l : List N) → y.resolving ≡ l → After y
      go [] e = stay y
      go (n ∷ l) e = move (resolve_fails failure n [] l e)
  take visitor y = go y.visitors.ready refl
    where
      go : (k : ℕ) → y.visitors.ready ≡ k → After y
      go zero e = stay y
      go (suc k) e = move (visitor_runs k e)
  take visited_one y = go y.visiting refl
    where
      go : (l : List N) → y.visiting ≡ l → After y
      go [] e = stay y
      go (n ∷ l) e = move (visit_returns n [] l e)
  take unvisited_one y = go y.visiting refl
    where
      go : (l : List N) → y.visiting ≡ l → After y
      go [] e = stay y
      go (n ∷ l) e = move (visit_fails failure n [] l e)

  pub record Run (ns : List N) (rp vp : ℕ) : Type 0 where
    pub last : System N E
    pub reach : Reach eq deps (start eq ns rp vp) last

  turns : {ns : List N} {rp vp : ℕ} → List Turn → Run ns rp vp → Run ns rp vp
  unfolding take
  turns [] r = r
  turns {ns} {rp} {vp} (t ∷ ts) r =
      let a = take t r.last in turns ts (record { last = a.last; reach = a.reach _ r.reach })

  unfoldable pub run : (ns : List N) (rp vp : ℕ) → List Turn → Run ns rp vp
  unfolding turns
  run ns rp vp ts = turns ts (record { last = _; reach = here })
