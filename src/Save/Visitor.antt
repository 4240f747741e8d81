-- ===== src/Save/Visitor.antt =====
-- internal/save/visitor.go: `Visit` and `setScores`.
-- Whether a node has scores, which is that its slice is not nil, is kept beside the node. A call gives
-- the scores that the node has afterwards.
use comeback.Prelude.{
  ℕ, ◌≡◌, refl, Bool, true, false, ◌⊎◌, Option, none, some, List, arith, is_some,
}
use comeback.Prelude.Go.{Bytes, Error, message, Result, ok, err, panic, within}
use comeback.Blob.Score.{Score}
use comeback.Blob.Store.{Store}
use comeback.Repr.Info.{FileType, file, directory, symlink, Time}
use comeback.Repr.Marshal.{Proto}
use comeback.Save.File.{FsNode, ScoreMap, OpenFile, Saving, save_file}
use comeback.Save.Dir.{save_dir}

-- The outcome of a visit: `none` is that the fuel ran out.
abbrev pub Outcome : Type 0
Outcome = Option (Result (Option (List Score)))

-- The types of node that `Visit` supports.
abbrev pub is_supported : FileType → Bool
is_supported file = true
is_supported directory = true
is_supported symlink = true
is_supported _ = false

-- The types of node whose content is saved.
abbrev pub has_content : FileType → Bool
has_content file = true
has_content directory = true
has_content _ = false

module _ {S M : Type 0} (store : Store S) (proto : Proto)
    (acquire : OpenFile → S → Result (Unit {0})) (acquire_dir : S → Result (Unit {0}))
    (score_map : ScoreMap M) (open_file : Bytes → Result OpenFile) where
  abbrev save_node :
      (fuel chunk_size : ℕ)
      → (now : Time) → FsNode
      → List FsNode
      → Saving S M
      → Outcome × Saving S M
  save_node fuel size now n children s = elim n.info.type [
    | file ↦
        (let (o, s') = save_file store acquire score_map open_file fuel size now n s in
          elim o [
            | none ↦ (none, s')
            | some r ↦ elim (within "saveFile" r) [
              | ok scores ↦ (some (ok (some scores)), s')
              | err e ↦ (some (err e), s')
              | panic ↦ (some panic, s')
            ]
          ])
    | directory ↦
        (let (r, blobs) = save_dir store proto acquire_dir children s.blobs in
          elim (within "saveDir" r) [
            | ok scores ↦ (some (ok (some scores)), record s { blobs = blobs })
            | err e ↦ (some (err e), record s { blobs = blobs })
            | panic ↦ (some panic, record s { blobs = blobs })
          ])
    | _ ↦ (some (ok none), s)
  ]

  unfoldable pub set_scores :
      (fuel chunk_size : ℕ)
      → (now : Time) → (scores : Option (List Score)) → FsNode
      → (children : List FsNode) → Saving S M
      → Outcome × Saving S M
  set_scores fuel size now scores n children s = elim scores [
    | some v ↦ (some (ok (some v)), s)
    | none ↦ save_node fuel size now n children s
  ]

  -- `ctx_err` is the error of the context, if it is done when the node is to be passed on.
  unfoldable pub visit :
      (fuel chunk_size : ℕ)
      → (now : Time) → (ctx_err : Option Error) → (scores : Option (List Score)) → FsNode
      → (children : List FsNode) → Saving S M
      → Outcome × Saving S M
  unfolding set_scores
  visit fuel size now ctx_err scores n children s = elim (is_supported n.info.type) [
    | false ↦ (some (err (message "Unsupported node type")), s)
    | true ↦
        (let (o, s') = set_scores fuel size now scores n children s in
          elim o [
            | none ↦ (none, s')
            | some r ↦ elim (within "setScores" r) [
              | err e ↦ (some (err e), s')
              | panic ↦ (some panic, s')
              | ok v ↦ elim ctx_err [ none ↦ (some (ok v), s') | some e ↦ (some (err e), s') ]
            ]
          ])
  ]

  set_scores_scored :
      (fuel size : ℕ) (now : Time) (scores : Option (List Score)) (n : FsNode)
      (children : List FsNode) (s : Saving S M) (v : Option (List Score))
      → has_content n.info.type ≡ true
      → (set_scores fuel size now scores n children s).0 ≡ some (ok v)
      → is_some v ≡ true
  unfolding set_scores
  set_scores_scored fuel size now scores n children s v c h =
      go (save_file store acquire score_map open_file fuel size now n s).0 refl
        (save_dir store proto acquire_dir children s.blobs).0 refl
    where
      go :
          (o : Option (Result (List Score)))
          → (save_file store acquire score_map open_file fuel size now n s).0 ≡ o
          → (r : Result (List Score)) → (save_dir store proto acquire_dir children s.blobs).0 ≡ r
          → is_some v ≡ true
      go o e r e' = ground arith

  -- After a successful visit a file or a directory has scores: its list of scores, which may be empty,
  -- is not nil.
  pub visit_scored :
      (fuel size : ℕ) (now : Time) (ctx_err : Option Error) (scores : Option (List Score))
      (n : FsNode) (children : List FsNode) (s : Saving S M) (v : Option (List Score))
      → has_content n.info.type ≡ true
      → (visit fuel size now ctx_err scores n children s).0 ≡ some (ok v)
      → is_some v ≡ true
  unfolding visit
  visit_scored fuel size now ctx_err scores n children s v c h =
      go (set_scores fuel size now scores n children s).0 refl
    where
      go : (o : Outcome) → (set_scores fuel size now scores n children s).0 ≡ o → is_some v ≡ true
      go o e = ground (arith, set_scores_scored fuel size now scores n children s v c)

  -- For a node without content, or one that has scores already, a successful visit saves nothing and
  -- leaves the scores as they are.
  pub visit_idle :
      (fuel size : ℕ) (now : Time) (ctx_err : Option Error) (scores : Option (List Score))
      (n : FsNode) (children : List FsNode) (s : Saving S M) (v : Option (List Score))
      → (has_content n.info.type ≡ false) ⊎ (is_some scores ≡ true)
      → (visit fuel size now ctx_err scores n children s).0 ≡ some (ok v)
      → (v ≡ scores) × ((visit fuel size now ctx_err scores n children s).1 ≡ s)
  unfolding visit set_scores
  visit_idle fuel size now ctx_err scores n children s v c h = ground arith
