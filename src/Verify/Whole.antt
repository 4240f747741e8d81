-- ===== src/Verify/Whole.antt =====
-- internal/verify/verify.go: `Verify`, which gives the resolver and the visitor to `Visit` of
-- internal/dag/visit.go.
use comeback.Prelude.{
  ℕ, ◌<◌, ◌≡◌, ◌≢◌, refl, ap, ◌∙◌, Bool, true, false, ◌&&◌, none, some, Option, List, [], ◌∷◌,
  arith, inl, inr, ◌⊎◌, Bool-cases,
}
use comeback.Prelude.Go.{
  Bytes, Error, Result, ok, err, panic, eq_bytes, eq_bytes_self, eq_of_eq_bytes,
}
use comeback.Blob.Score.{Score}
use comeback.Repr.Info.{FileInfo}
use comeback.Repr.Marshal.{Proto, unmarshal_dir}
use comeback.Dag.System.{System, Reach, start, IsFinished, result, resolve_end, visit_end}
use comeback.Dag.Trace.{tally}
use comeback.Dag.Outcome.{Wanted, success_complete}
use comeback.Verify.Record.{Node}
use comeback.Verify.Reused.{same_bool_eq}
use comeback.Verify.RecordText.{Record}
use comeback.Verify.Resolver.{
  has_score, known, same_bool, Found, find_dependencies, visit, listing_children,
}

same_bool_self : (b : Bool) → same_bool b b ≡ true
same_bool_self true = refl
same_bool_self false = refl

unfoldable pub same_node : Node → Node → Bool
same_node a b = eq_bytes a.score b.score && same_bool a.dir b.dir

pub same_node_self : (a b : Node) → a ≡ b → same_node a b ≡ true
unfolding same_node
same_node_self a b e = rw e (ground (arith, eq_bytes_self b.score, same_bool_self b.dir))

pub eq_of_same_node : (a b : Node) → same_node a b ≡ true → a ≡ b
unfolding same_node
eq_of_same_node a b h =
    both (eq_of_eq_bytes a.score b.score (ground arith)) (same_bool_eq a.dir b.dir (ground arith))
  where
    both : a.score ≡ b.score → a.dir ≡ b.dir → a ≡ b
    both p q = cc

pub other_node : (a b : Node) → same_node a b ≡ false → a ≢ b
other_node a b e p = absurd (ground (arith, same_node_self a b p, e))

abbrev pub decide : {P : Type 0} → (b : Bool) → (b ≡ true → P) → (b ≡ false → ¬ P) → Dec P
decide true p q = yes (p refl)
decide false p q = no (q refl)

-- Nodes as keys of maps.
unfoldable pub Node_discrete : Discrete Node
unfolding same_node
Node_discrete a b = decide (same_node a b) (eq_of_same_node a b) (other_node a b)

-- The start nodes of the traversal.
abbrev pub root_nodes : List Score → List Node
root_nodes [] = []
root_nodes (s ∷ ss) = record { score = s; dir = true } ∷ root_nodes ss

module _ (T : Type 0) (proto : Proto) (load : Score → Result Bytes) (all_scores : List Score)
    (known_structure : List (Node × List Node)) where
  -- A call of the resolver that has succeeded, at some time.
  pub record HasResolved (a : Node) (deps : List Node) : Type 0 where
    pub now : T
    pub ctx_err : Option Error
    pub found : Found T
    pub call : find_dependencies proto load all_scores known_structure now ctx_err a ≡ ok found
    pub deps_found : found.deps ≡ deps

  pub record HasVisited (a : Node) : Type 0 where
    pub now : T
    pub ctx_err : Option Error
    pub sent : Option (Record T)
    pub call : visit proto load all_scores known_structure now ctx_err a ≡ ok sent

  -- The listing of the node's blob names the dependencies.
  pub record Lists (a : Node) (deps : List Node) : Type 0 where
    pub contents : Bytes
    pub listing : List FileInfo
    pub loaded : load a.score ≡ ok contents
    pub parsed : unmarshal_dir proto contents ≡ ok listing
    pub children : listing_children listing ≡ ok deps

  find_dependencies-exists :
      (a : Node) (deps : List Node) → HasResolved a deps → has_score a.score all_scores ≡ true
  unfolding find_dependencies
  find_dependencies-exists a deps h = ground (arith, h.call)

  find_dependencies-Lists :
      (a : Node) (deps : List Node)
      → HasResolved a deps
      → a.dir ≡ true
      → (known a known_structure ≡ some deps) ⊎ Lists a deps
  unfolding find_dependencies
  find_dependencies-Lists a deps h dir = go (known a known_structure) refl
    where
      go :
          (o : Option (List Node))
          → known a known_structure ≡ o
          → (known a known_structure ≡ some deps) ⊎ Lists a deps
      go (some cs) q =
          inl (ground (arith, h.call, q, h.deps_found, find_dependencies-exists a deps h))
      go none q = inr (loads (load a.score) refl)
        where
          listed :
              (contents : Bytes)
              → load a.score ≡ ok contents
              → (listing : List FileInfo) → unmarshal_dir proto contents ≡ ok listing
              → (r : Result (List Node)) → listing_children listing ≡ r
              → Lists a deps
          listed contents e listing e' (ok cs) e'' =
              let same : cs ≡ deps =
                ground
                  (arith, h.call, q, h.deps_found, find_dependencies-exists a deps h, e, e', e'') in
              record {
                contents = contents;
                listing = listing;
                loaded = e;
                parsed = e';
                children = e'' ∙ ap ok same;
              }
          listed contents e listing e' (err x) e'' =
              absurd (ground (arith, h.call, q, find_dependencies-exists a deps h, e, e', e''))
          listed contents e listing e' panic e'' =
              absurd (ground (arith, h.call, q, find_dependencies-exists a deps h, e, e', e''))

          parses :
              (contents : Bytes)
              → load a.score ≡ ok contents
              → (r : Result (List FileInfo)) → unmarshal_dir proto contents ≡ r
              → Lists a deps
          parses contents e (ok listing) e' = listed contents e listing e' _ refl
          parses contents e (err x) e' =
              absurd (ground (arith, h.call, q, find_dependencies-exists a deps h, e, e'))
          parses contents e panic e' =
              absurd (ground (arith, h.call, q, find_dependencies-exists a deps h, e, e'))

          loads : (r : Result Bytes) → load a.score ≡ r → Lists a deps
          loads (ok contents) e = parses contents e _ refl
          loads (err x) e = absurd (ground (arith, h.call, q, find_dependencies-exists a deps h, e))
          loads panic e = absurd (ground (arith, h.call, q, find_dependencies-exists a deps h, e))

  visit-loads :
      (a : Node) → HasVisited a → a.dir ≡ false → (contents : Bytes) × (load a.score ≡ ok contents)
  unfolding visit
  visit-loads a h file = go (load a.score) refl
    where
      go : (r : Result Bytes) → load a.score ≡ r → (contents : Bytes) × (load a.score ≡ ok contents)
      go (ok contents) e = (contents, e)
      go (err x) e = absurd (ground (arith, h.call, file, e))
      go panic e = absurd (ground (arith, h.call, file, e))

  -- What has been found out about a node, whose dependencies are `deps`.
  pub record IsVerified (read_files : Bool) (deps : List Node) (a : Node) : Type 0 where
    pub exists : has_score a.score all_scores ≡ true
    pub dir : (a.dir ≡ false) ⊎ (known a known_structure ≡ some deps) ⊎ Lists a deps
    pub file :
        (read_files ≡ false) ⊎ (a.dir ≡ true) ⊎ ((contents : Bytes) × (load a.score ≡ ok contents))

  -- When `Verify` returns no error, every node that can be reached from the roots has a score that
  -- exists; each of the directories is in the known structure with its dependencies, or its blob has
  -- been loaded and is a listing with them; and if files are read, the blob of each file has been
  -- loaded. The calls that have succeeded are those of the resolver and, if files are read, of the
  -- visitor, and there is a visitor.
  pub verify_complete :
      {E : Type 0} (read_files : Bool) (root_scores : List Score) (deps : Node → List Node)
      (rp vp : ℕ) (y : System Node E)
      → 0 < vp
      → Reach Node_discrete deps (start Node_discrete (root_nodes root_scores) rp vp) y
      → IsFinished y
      → result y.state ≡ none
      → ((a : Node) → 0 < tally Node_discrete resolve_end a y.trace → HasResolved a (deps a))
      → ((a : Node)
          → read_files ≡ true
          → 0 < tally Node_discrete visit_end a y.trace
          → HasVisited a)
      → (a : Node) → Wanted Node_discrete deps (root_nodes root_scores) a
      → IsVerified read_files (deps a) a
  verify_complete read_files root_scores deps rp vp y pos r f quiet resolved visited a w =
      let done =
        success_complete Node_discrete deps (root_nodes root_scores) rp vp y pos r f quiet a w in
      let h = resolved a (omega (arith, done.resolve_ended)) in
      record {
        exists = find_dependencies-exists a (deps a) h;
        dir = elim (Bool-cases a.dir) [
          | inl dir ↦ inr (find_dependencies-Lists a (deps a) h dir)
          | inr file ↦ inl file
        ];
        file = elim (Bool-cases read_files) [
          | inl reads ↦ inr (elim (Bool-cases a.dir) [
            | inl dir ↦ inl dir
            | inr file ↦
                inr (visit-loads a (visited a reads (omega (arith, done.visit_ended))) file)
          ])
          | inr quick ↦ inl quick
        ];
      }
