-- ===== src/Dag/System.antt =====
-- internal/dag/visit.go: the workers of `Visit`, as interleaved steps between the points where the
-- lock is free.
-- Workers of one kind are alike, so a system counts them: those that wait for the lock at the head
-- of their loop, those that sleep on the condition variable, and those that have returned. A worker
-- whose call of the resolver or of the visitor is under way is named by the node of the call.
-- The trace and the lists of failed calls record what happened; the program does not keep them.
use comeback.Prelude.{
  ℕ, suc, ◌+◌, ◌≡◌, Bool, not, ◌&&◌, Option, none, some, List, [], ◌∷◌, ◌++◌, if◌then◌else◌,
  is_empty,
}
use comeback.Prelude.Int.{ℤ, pos, increment, decrement}
use comeback.Dag.State.{
  VisitState, resolvers_should_exit, visitors_should_exit, resolvers_should_wake,
  visitors_should_wake, add_nodes, finish_resolve, finish_visit,
}

-- Why a worker stopped: the message of the call's error with its prefix.
pub data WorkerError (E : Type 0) : Type 0 where
  resolve_one visit_one : E → WorkerError E

pub data VisitError (N E : Type 0) : Type 0 where
  worker : WorkerError E → VisitError N E
  cycle : N → VisitError N E

-- The workers of one kind that are not in a call.
pub record Workers : Type 0 where
  pub ready : ℕ
  pub asleep : ℕ
  pub returned : ℕ

pub data Kind : Type 0 where
  resolve_start resolve_end visit_start visit_end : Kind

pub data Event (N : Type 0) : Type 0 where
  event : Kind → N → Event N

pub record System (N E : Type 0) : Type 0 where
  pub state : VisitState N (WorkerError E)
  pub resolvers : Workers
  pub visitors : Workers
  pub resolving : List N
  pub visiting : List N
  pub failed_resolves : List N
  pub failed_visits : List N
  pub trace : List (Event N)

-- `Broadcast` if the test has become true.
abbrev pub signal : (before after : Bool) → Workers → Workers
signal before after w =
    if not before && after then record w { ready = w.ready + w.asleep; asleep = 0 } else w

module _ {N E : Type 0} where
  abbrev pub update :
      (VisitState N (WorkerError E) → VisitState N (WorkerError E)) → System N E → System N E
  update f y = record y {
    state = f y.state;
    resolvers =
        signal (resolvers_should_wake y.state) (resolvers_should_wake (f y.state)) y.resolvers;
    visitors = signal (visitors_should_wake y.state) (visitors_should_wake (f y.state)) y.visitors;
  }

  -- The end of `runAction` for an action that returned an error.
  abbrev pub record_error : WorkerError E → System N E → System N E
  record_error e y = elim y.state.first_err [
    | some _ ↦ y
    | none ↦ update (λ s. record s { first_err = some e }) y
  ]

  abbrev pub add_busy_resolvers :
      (ℤ → ℤ) → VisitState N (WorkerError E) → VisitState N (WorkerError E)
  add_busy_resolvers f s = record s { busy_resolvers = f s.busy_resolvers }

  abbrev pub add_busy_visitors :
      (ℤ → ℤ) → VisitState N (WorkerError E) → VisitState N (WorkerError E)
  add_busy_visitors f s = record s { busy_visitors = f s.busy_visitors }

  -- `resolveOne` up to the call of the resolver.
  unfoldable pub start_resolve : System N E → System N E
  start_resolve y = elim y.state.to_resolve [
    | [] ↦ y
    | n ∷ rest ↦
        update (λ s. record s { to_resolve = rest })
          (record y {
            state = add_busy_resolvers increment y.state;
            resolving = n ∷ y.resolving;
            trace = event resolve_start n ∷ y.trace;
          })
  ]

  -- A round of the loop of `resolveNodes` by a worker that holds the lock, up to where it sleeps,
  -- returns or starts a call. The last case is the panic "Unexpected wake-up".
  unfoldable pub resolver_loop : System N E → System N E
  unfolding start_resolve
  resolver_loop y =
      if not (resolvers_should_wake y.state)
      then record y { resolvers = record (y.resolvers) { asleep = suc y.resolvers.asleep } }
      else if resolvers_should_exit y.state
      then record y { resolvers = record (y.resolvers) { returned = suc y.resolvers.returned } }
      else if not (is_empty y.state.to_resolve)
      then start_resolve y
      else y

  -- `visitOne` up to the call of the visitor.
  unfoldable pub start_visit : System N E → System N E
  start_visit y = elim y.state.to_visit [
    | [] ↦ y
    | n ∷ rest ↦
        update (λ s. record s { to_visit = rest })
          (record y {
            state = add_busy_visitors increment y.state;
            visiting = n ∷ y.visiting;
            trace = event visit_start n ∷ y.trace;
          })
  ]

  -- The same for `visitNodes`.
  unfoldable pub visitor_loop : System N E → System N E
  unfolding start_visit
  visitor_loop y =
      if not (visitors_should_wake y.state)
      then record y { visitors = record (y.visitors) { asleep = suc y.visitors.asleep } }
      else if visitors_should_exit y.state
      then record y { visitors = record (y.visitors) { returned = suc y.visitors.returned } }
      else if not (is_empty y.state.to_visit)
      then start_visit y
      else y

  -- The rest of `resolveOne` after an error of the resolver, and the worker's return.
  unfoldable pub resolve_failed : E → System N E → System N E
  resolve_failed e y =
      let y' = record_error (resolve_one e) (update (add_busy_resolvers decrement) y) in
      record y' { resolvers = record (y'.resolvers) { returned = suc y'.resolvers.returned } }

  unfoldable pub visit_failed : E → System N E → System N E
  visit_failed e y =
      let y' = record_error (visit_one e) (update (add_busy_visitors decrement) y) in
      record y' { visitors = record (y'.visitors) { returned = suc y'.visitors.returned } }

abbrev pub empty_state : {N E : Type 0} → VisitState N E
empty_state = record {
  nodes = λ _. none;
  to_resolve = [];
  unsatisfied = [];
  to_visit = [];
  first_err = none;
  busy_resolvers = pos 0;
  busy_visitors = pos 0;
}

module _ {N E : Type 0} (eq : Discrete N) where
  -- The rest of `resolveOne` after a successful call that found `deps`.
  unfoldable pub resolve_returned : N → List N → System N E → System N E
  resolve_returned n deps y =
      update (add_busy_resolvers decrement) (update (finish_resolve eq n deps) y)

  -- The rest of `visitOne` after a successful call.
  unfoldable pub visit_returned : N → System N E → System N E
  visit_returned n y = update (add_busy_visitors decrement) (update (finish_visit eq n) y)

  -- The state before the workers start.
  unfoldable pub start : List N → (resolver_parallelism visitor_parallelism : ℕ) → System N E
  start start_nodes rp vp = record {
    state = add_nodes eq start_nodes empty_state;
    resolvers = record { ready = rp; asleep = 0; returned = 0 };
    visitors = record { ready = vp; asleep = 0; returned = 0 };
    resolving = [];
    visiting = [];
    failed_resolves = [];
    failed_visits = [];
    trace = [];
  }

  -- One step of one worker. The resolver and the visitor may return, or fail, at any time.
  pub data Step (deps : N → List N) (y : System N E) : System N E → Type 0 where
    resolver_runs :
        (k : ℕ)
        → y.resolvers.ready ≡ suc k
        → Step deps y (resolver_loop (record y { resolvers = record (y.resolvers) { ready = k } }))
    resolve_returns :
        (n : N) (xs ys : List N)
        → y.resolving ≡ xs ++ n ∷ ys
        → Step deps y (
            resolver_loop (
              resolve_returned n
                (deps n)
                (record y { resolving = xs ++ ys; trace = event resolve_end n ∷ y.trace })))
    resolve_fails :
        (e : E) (n : N) (xs ys : List N)
        → y.resolving ≡ xs ++ n ∷ ys
        → Step deps y (
            resolve_failed e
              (record y { resolving = xs ++ ys; failed_resolves = n ∷ y.failed_resolves }))
    visitor_runs :
        (k : ℕ)
        → y.visitors.ready ≡ suc k
        → Step deps y (visitor_loop (record y { visitors = record (y.visitors) { ready = k } }))
    visit_returns :
        (n : N) (xs ys : List N)
        → y.visiting ≡ xs ++ n ∷ ys
        → Step deps y (
            visitor_loop (
              visit_returned n
                (record y { visiting = xs ++ ys; trace = event visit_end n ∷ y.trace })))
    visit_fails :
        (e : E) (n : N) (xs ys : List N)
        → y.visiting ≡ xs ++ n ∷ ys
        → Step deps y
            (visit_failed e (record y { visiting = xs ++ ys; failed_visits = n ∷ y.failed_visits }))

  pub data Reach (deps : N → List N) (first : System N E) : System N E → Type 0 where
    here : Reach deps first first
    next : {y z : System N E} → Reach deps first y → Step deps y z → Reach deps first z

module _ {N E : Type 0} where
  -- Every worker has returned.
  abbrev pub IsFinished : System N E → Type 0
  IsFinished y =
      (y.resolvers.ready ≡ 0)
      × (y.resolvers.asleep ≡ 0)
      × (y.visitors.ready ≡ 0)
      × (y.visitors.asleep ≡ 0)
      × (y.resolving ≡ [])
      × (y.visiting ≡ [])

  -- What `Visit` returns when its workers have: no error, the first one, or a cycle.
  unfoldable pub result : VisitState N (WorkerError E) → Option (VisitError N E)
  result s = elim s.first_err [
    | some e ↦ some (worker e)
    | none ↦ elim s.unsatisfied [ [] ↦ none | n ∷ _ ↦ some (cycle n) ]
  ]
