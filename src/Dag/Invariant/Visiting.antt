-- ===== src/Dag/Invariant/Visiting.antt =====
-- The whole update of `visitOne` in internal/dag/visit.go keeps the invariant.
use mathlib.Core.Path.{fun_ext, subst}
use comeback.Prelude.{ℕ, ◌+◌, ◌≡◌, Option, some, List, [], ite, arith, count, same}
use comeback.Prelude.Int.{pos}
use comeback.Dag.State.{NodeInfo, VisitState, unvisited, visited, satisfy, finish_visit}
use comeback.Dag.Invariant.{
  Core, HasState, pending, depends, resolved, unvisited_in, unvisited_in-visit, unvisited_in-ext,
}
use comeback.Dag.Invariant.Satisfying.{Loop, Loop-satisfy, satisfy-keeps, satisfy-links}

module _ {N E : Type 0} (eq : Discrete N) (deps : N → List N) (n : N) (s : VisitState N E) where
  -- The nodes as they count once `n` is visited.
  abbrev then : N → Option (NodeInfo N)
  then j =
      ite (eq n j) (some (record { state = visited; deps_unsatisfied = pos 0; dependants = [] }))
        (s.nodes j)

  abbrev need : N → ℕ
  need a = unvisited_in then (depends deps s a)

  module _ {r v : N → ℕ} (v' : N → ℕ) (i : NodeInfo N) (here : s.nodes n ≡ some i)
      (ready : i.state ≡ unvisited) (out : (a : N) → v a ≡ same eq a n + v' a)
      (c : Core eq (depends deps s) r v s) where
    then-pending : (j : N) → pending (s.nodes j) ≡ pending (then j) + same eq n j
    then-pending j = ground arith

    drop : (a : N) → unvisited_in s.nodes (depends deps s a) ≡ need a + count eq a i.dependants
    drop a =
        ground
          (arith, unvisited_in-visit eq s.nodes then n then-pending (depends deps s a), c.link a n)

    start : Loop eq need r v i.dependants s
    start = record {
      node = λ a. ground (arith, c.node a, drop a);
      idle = λ a h. ground (arith, drop a);
    }

    looped_ready : HasState (satisfy eq i.dependants s) n unvisited
    looped_ready = ground (arith, (Loop-satisfy eq i.dependants s start).node n, out n)

    abbrev pub done : VisitState N E
    done = finish_visit eq n s

    done-pending : (j : N) → pending (done.nodes j) ≡ pending (then j)
    unfolding finish_visit
    done-pending j = ground (arith, (satisfy-keeps eq deps i.dependants s j start).0, looped_ready)

    done-depends : (j : N) → depends deps s j ≡ depends deps done j
    unfolding finish_visit
    done-depends j = ground (arith, (satisfy-keeps eq deps i.dependants s j start).1, looped_ready)

    -- Only `n` becomes visited, and nothing becomes resolved.
    pub finish_visit-marks :
        (a : N)
        → (pending (s.nodes a) ≡ pending (done.nodes a) + same eq a n)
          × (resolved (done.nodes a) ≡ resolved (s.nodes a))
    unfolding finish_visit
    finish_visit-marks a =
        ground (arith, satisfy-keeps eq deps i.dependants s a start, looped_ready)

    pub Core-finish_visit : Core eq (depends deps done) r v' done
    Core-finish_visit =
        subst (λ got. Core eq got r v' done) (fun_ext done-depends)
          (record {
            node = λ a.
                unfold finish_visit in
                ground (
                  arith,
                  out a,
                  (Loop-satisfy eq i.dependants s start).node a,
                  looped_ready,
                  unvisited_in-ext _ _ done-pending (depends deps s a),
                );
            link = λ a b.
                unfold finish_visit in
                ground (
                  arith,
                  c.link a b,
                  satisfy-links eq i.dependants s b,
                  (satisfy-keeps eq deps i.dependants s b start).0,
                  looped_ready,
                );
          })
