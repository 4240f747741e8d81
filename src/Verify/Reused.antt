-- ===== src/Verify/Reused.antt =====
-- verify.go and gc.go: what a run of `comeback verify` leaves for the next run, and for
-- `comeback gc`.
use comeback.Prelude.{
  All-map, ℕ, ◌≡◌, ◌≢◌, refl, ap, ◌∙◌, Bool, true, false, Option, none, some, List, [], ◌∷◌, ◌++◌,
  arith, All, if◌then◌else◌, ◌&&◌, Bool-cases, inl, inr,
}
use comeback.Prelude.Go.{Bytes, Error, Result, ok, eq_bytes, eq_bytes_self, eq_of_eq_bytes}
use comeback.Blob.Score.{Score}
use comeback.Repr.Marshal.{Proto}
use comeback.Verify.Record.{Node}
use comeback.Verify.RecordText.{TimeFormat, Record}
use comeback.Verify.Resolver.{has_score, known, same_bool, Found, find_dependencies}
use comeback.Verify.Certified.{find_dependencies_again}
use comeback.Verify.Log.{
  print_records, parse_known_structure, parse_gc_input, add_known, node_scores, record_scores,
}
use comeback.Verify.Logged.{IsLine, parse_verify_output-print_records}

known_first :
    (n : Node) (cs : List Node) (m : List (Node × List Node)) → known n ((n, cs) ∷ m) ≡ some cs
known_first n cs m = ground (arith, eq_bytes_self n.score, same_self n.dir)
  where
    same_self : (b : Bool) → same_bool b b ≡ true
    same_self true = refl
    same_self false = refl

pub same_bool_eq : (a b : Bool) → same_bool a b ≡ true → a ≡ b
same_bool_eq true true h = refl
same_bool_eq true false h = cc
same_bool_eq false true h = cc
same_bool_eq false false h = refl

known_other :
    (n k : Node) (cs : List Node) (m : List (Node × List Node))
    → k ≢ n
    → known n ((k, cs) ∷ m) ≡ known n m
known_other n k cs m h = elim (Bool-cases (eq_bytes k.score n.score && same_bool k.dir n.dir)) [
  | inl e ↦ absurd (
      h (
        same_node (eq_of_eq_bytes k.score n.score (ground arith))
          (same_bool_eq k.dir n.dir (ground arith))))
  | inr e ↦ ground (arith, e)
]
  where
    same_node : k.score ≡ n.score → k.dir ≡ n.dir → k ≡ n
    same_node p q = cc

module _ {T : Type 0} (is_stale : T → Bool) where
  add_known-append :
      (rs qs : List (Record T)) (m : List (Node × List Node))
      → add_known is_stale (rs ++ qs) m ≡ add_known is_stale qs (add_known is_stale rs m)
  add_known-append [] qs m = refl
  add_known-append (r ∷ rs) qs m =
      add_known-append rs qs (if is_stale r.time then m else (r.node, r.children) ∷ m)

  known-add_known :
      (n : Node) (rs : List (Record T)) (m : List (Node × List Node))
      → All (λ (q : Record T). q.node ≢ n) rs
      → known n (add_known is_stale rs m) ≡ known n m
  known-add_known n [] m h = refl
  known-add_known n (r ∷ rs) m h =
      known-add_known n rs (if is_stale r.time then m else (r.node, r.children) ∷ m) h.1
      ∙ ground (arith, known_other n r.node r.children m h.0)

  -- A directory that was verified, with a record in the log that is not stale and no later record
  -- of the same node, is not loaded again in a run that reads the log: among the same scores, its
  -- dependencies are those that were found, whatever the store is. The scores in the log have twenty
  -- bytes, its times are read back from texts without space and newline, and the context is not done
  -- while it is read.
  pub find_dependencies_logged :
      (f : TimeFormat T) (proto : Proto) (all_scores : List Score)
      (load load' : Score → Result Bytes) (ks : List (Node × List Node)) (now now' : T)
      (ctx_err ctx_err' : Option Error) (log_err : ℕ → Option Error) (n : Node) (found : Found T)
      (before after : List (Record T)) (r : Record T)
      → find_dependencies proto load all_scores ks now ctx_err n ≡ ok found
      → found.sent ≡ some r
      → ((n : ℕ) → log_err n ≡ none)
      → All (IsLine f) (before ++ r ∷ after)
      → All (λ (q : Record T). q.node ≢ r.node) after
      → is_stale r.time ≡ false
      → (ks' : List (Node × List Node)) × (parse_known_structure f is_stale log_err
            (record { contents = print_records f (before ++ r ∷ after); end = none })
          ≡ ok ks')
        × (find_dependencies proto load' all_scores ks' now' ctx_err' n
            ≡ ok (record { deps = found.deps; sent = none }))
  unfolding parse_known_structure
  find_dependencies_logged f proto all_scores load load' ks now now' ctx_err ctx_err' log_err n
        found before after r h s never lines others fresh =
      let m = add_known is_stale (before ++ r ∷ after) [] in
      let k : known r.node m ≡ some r.children =
        ap (known r.node) (add_known-append before (r ∷ after) [])
        ∙ known-add_known r.node after
            (if is_stale r.time
              then add_known is_stale before []
              else (r.node, r.children) ∷ add_known is_stale before [])
            others
        ∙ ground (arith, known_first r.node r.children (add_known is_stale before [])) in
      (
        m,
        ground
            (arith, parse_verify_output-print_records f log_err never (before ++ r ∷ after) lines),
        find_dependencies_again proto all_scores load load' ks m now now' ctx_err ctx_err' n found r
            h s k,
      )

-- The scores of a record are among those of a list.
pub record Accessible {T : Type 0} (scores : List Score) (r : Record T) : Type 0 where
  pub node : has_score r.node.score scores ≡ true
  pub children : All (λ (c : Node). has_score c.score scores ≡ true) r.children

has_score-append_left :
    (t : Score) (ss ts : List Score) → has_score t ss ≡ true → has_score t (ss ++ ts) ≡ true
has_score-append_left t [] ts h = cc
has_score-append_left t (s ∷ ss) ts h = ground (arith, has_score-append_left t ss ts)

has_score-append_right :
    (t : Score) (ss ts : List Score) → has_score t ts ≡ true → has_score t (ss ++ ts) ≡ true
has_score-append_right t [] ts h = h
has_score-append_right t (s ∷ ss) ts h = ground (arith, has_score-append_right t ss ts h)

has_node_scores :
    (cs : List Node) → All (λ (c : Node). has_score c.score (node_scores cs) ≡ true) cs
has_node_scores [] = tt
has_node_scores (c ∷ cs) = (
  ground (arith, eq_bytes_self c.score),
  All-map (λ (d : Node). has_score d.score (node_scores cs) ≡ true)
      (λ (d : Node). has_score d.score (c.score ∷ node_scores cs) ≡ true) cs
      (λ d h. has_score-append_right d.score (c.score ∷ []) (node_scores cs) h)
      (has_node_scores cs),
)

module _ {T : Type 0} where
  Accessible-append :
      (ss ts : List Score) (r : Record T) → Accessible ts r → Accessible (ss ++ ts) r
  Accessible-append ss ts r a = record {
    node = has_score-append_right r.node.score ss ts a.node;
    children =
        All-map (λ (c : Node). has_score c.score ts ≡ true)
          (λ (c : Node). has_score c.score (ss ++ ts) ≡ true) r.children
          (λ c h. has_score-append_right c.score ss ts h) a.children;
  }

  all-Accessible : (rs : List (Record T)) → All (Accessible (record_scores rs)) rs
  all-Accessible [] = tt
  all-Accessible (r ∷ rs) =
      let own = node_scores r.children in
      (
        record {
          node = ground (arith, eq_bytes_self r.node.score);
          children =
              All-map (λ (c : Node). has_score c.score own ≡ true)
                (λ (c : Node). has_score c.score (r.node.score ∷ (own ++ record_scores rs)) ≡ true)
                r.children
                (λ c h.
                  has_score-append_right c.score (r.node.score ∷ []) (own ++ record_scores rs)
                    (has_score-append_left c.score own (record_scores rs) h))
                (has_node_scores r.children);
        },
        All-map (Accessible (record_scores rs)) (Accessible (record_scores (r ∷ rs))) rs
            (λ q a. Accessible-append (r.node.score ∷ own) (record_scores rs) q a)
            (all-Accessible rs),
      )

  -- The scores that `comeback gc` takes for accessible have those of all nodes of the log, and of
  -- the children that they were verified with, if the scores have twenty bytes, the times are read
  -- back from texts without space and newline, and the context is not done.
  pub parse_gc_input-Accessible :
      (f : TimeFormat T) (ctx_err : ℕ → Option Error) (rs : List (Record T))
      → ((n : ℕ) → ctx_err n ≡ none)
      → All (IsLine f) rs
      → (scores : List Score) × (parse_gc_input f ctx_err
            (record { contents = print_records f rs; end = none })
          ≡ ok scores)
        × All (Accessible scores) rs
  unfolding parse_gc_input
  parse_gc_input-Accessible f ctx_err rs never lines = (
    record_scores rs,
    ground (arith, parse_verify_output-print_records f ctx_err never rs lines),
    all-Accessible rs,
  )
